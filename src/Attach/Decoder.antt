-- ===== src/Attach/Decoder.antt =====
-- `Decoder`: frames out of a byte stream that arrives in arbitrary pieces.
use rill.Prelude.{
  ℕ, zero, suc, ◌+◌, List, [], ◌∷◌, ◌++◌, Option, none, some, ltb, if◌then◌else◌, length, take,
  drop, Result, ok, err,
}
use rill.Attach.Bytes.{from_le}
use rill.Attach.Frame.{Tag, Frame, Error, too_large, max_frame, tag_from_u8, decode}

-- What the loop of `push` finds at the head of its buffer: a break, an early error, or the tag and
-- payload of a frame with the bytes behind it.
pub data Head : Type 0 where
  wait : Head
  fail : Error → Head
  whole : Tag → List ℕ → List ℕ → Head

-- the body of the loop behind the tag, for the declared length and the bytes behind the header
unfoldable pub head_body : Tag → ℕ → List ℕ → Head
head_body tag len body =
    if ltb max_frame len
    then fail (too_large len)
    else if ltb (5 + length body) (5 + len)
    then (if ltb (max_frame + 5) (5 + length body)
        then fail (too_large (5 + length body))
        else wait)
    else whole tag (take len body) (drop len body)

unfoldable pub head : List ℕ → Head
head (t ∷ a ∷ b ∷ c ∷ d ∷ body) = elim (tag_from_u8 t) [
  | ok tag ↦ head_body tag (from_le (a ∷ b ∷ c ∷ d ∷ [])) body
  | err e ↦ fail e
]
head _ = wait

-- `Decoder`'s buffer after `push`, and what `push` returns
abbrev pub Pushed : Type 0
Pushed = List ℕ × Result Error (List Frame)

unfoldable pub prepend : Frame → Pushed → Pushed
prepend f (buf, ok fs) = (buf, ok (f ∷ fs))
prepend f (buf, err e) = (buf, err e)

-- the rest of a round, before the rounds `loop`: a frame leaves the buffer before it is decoded
unfoldable pub round : (List ℕ → Option Pushed) → List ℕ → Head → Option Pushed
round loop buf wait = some (buf, ok [])
round loop buf (fail e) = some (buf, err e)
round loop buf (whole tag payload rest) = elim (decode tag payload) [
  | err e ↦ some (rest, err e)
  | ok f ↦ elim (loop rest) [ none ↦ none | some r ↦ some (prepend f r) ]
]

-- A round for each unit of fuel; `none` is out of fuel.
unfoldable pub push_loop : ℕ → List ℕ → Option Pushed
push_loop zero buf = none
push_loop (suc n) buf = round (push_loop n) buf (head buf)

-- `Decoder::push` on the buffer; a round takes at least the header's five bytes.
unfoldable pub push : List ℕ → List ℕ → Option Pushed
push buf bytes = push_loop (length (buf ++ bytes) + 1) (buf ++ bytes)
