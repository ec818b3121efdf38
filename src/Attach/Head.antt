-- ===== src/Attach/Head.antt =====
-- The head of the decoder's buffer: what it takes, and what later bytes leave as it is.
use rill.Prelude.{
  ℕ, ◌+◌, ◌≤◌, ◌<◌, ◌≡◌, inl, inr, refl, subst, List, [], ◌∷◌, ◌++◌, arith, length, length-append,
  length-drop, take-append_le, drop-append_le, Result-cases,
}
use rill.Attach.Bytes.{from_le}
use rill.Attach.Frame.{Tag, max_frame, tag_from_u8}
use rill.Attach.Decoder.{Head, wait, fail, whole, head_body, head}

-- what the head says of a buffer, and of every longer one
abbrev pub Extends : List ℕ → Head → Head → Type 0
Extends ys wait h = Unit {0}
Extends ys (fail e) h = h ≡ fail e
Extends ys (whole t p rest) h = h ≡ whole t p (rest ++ ys)

-- the bound that a head gives on its buffer, of length `n`
abbrev pub Bounds : ℕ → Head → Type 0
Bounds n wait = n < 5 + max_frame
Bounds n (fail e) = Unit {0}
Bounds n (whole t p rest) = length rest + 5 ≤ n

head_body-Extends :
    (t : Tag) (len : ℕ) (body ys : List ℕ)
    → Extends ys (head_body t len body) (head_body t len (body ++ ys))
unfolding head_body
head_body-Extends t len body ys =
    ground (arith, length-append body ys, take-append_le len body ys, drop-append_le len body ys)

head_body-Bounds :
    (t : Tag) (len : ℕ) (body : List ℕ) → Bounds (5 + length body) (head_body t len body)
unfolding head_body
head_body-Bounds t len body = ground (arith, length-drop len body)

pub head-Extends : (buf ys : List ℕ) → Extends ys (head buf) (head (buf ++ ys))
unfolding head
head-Extends (t ∷ a ∷ b ∷ c ∷ d ∷ body) ys = elim (Result-cases (tag_from_u8 t)) [
  | inl (tag, e) ↦ rw (e, head) (head_body-Extends tag (from_le (a ∷ b ∷ c ∷ d ∷ [])) body ys)
  | inr (err', e) ↦ rw (e, head) refl
]
head-Extends _ ys = tt

pub head-Bounds : (buf : List ℕ) → Bounds (length buf) (head buf)
unfolding head
head-Bounds (t ∷ a ∷ b ∷ c ∷ d ∷ body) = elim (Result-cases (tag_from_u8 t)) [
  | inl (tag, e) ↦
      rw (e, head)
        (subst (λ n. Bounds n (head_body tag (from_le (a ∷ b ∷ c ∷ d ∷ [])) body)) (omega arith)
          (head_body-Bounds tag (from_le (a ∷ b ∷ c ∷ d ∷ [])) body))
  | inr (err', e) ↦ rw (e, head) tt
]
head-Bounds _ = omega arith
