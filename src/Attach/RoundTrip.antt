-- ===== src/Attach/RoundTrip.antt =====
-- A stream of encoded frames is decoded to the frames, in any pieces.
use rill.Prelude.{
  ℕ, ◌≤◌, ◌≡◌, refl, sym, ap, subst, ◌∙◌, List, [], ◌∷◌, ◌++◌, map, some, arith, length,
  length-append, take-append, drop-append, Result, ok, ◌>>=◌, bind-eq-ok, ok-injective,
}
use rill.Attach.Bytes.{le_bytes, from_le-le_bytes}
use rill.Attach.Frame.{Frame, Error, max_frame, tag, tag_byte, payload, encode}
use rill.Attach.Decoder.{whole, head, head_body, prepend, push}
use rill.Attach.Codec.{InRange, received, decode-payload, tag_from_u8-tag_byte}
use rill.Attach.Stream.{Runs, stops, takes, Runs-push, then_push, push-append}

-- the stream that a peer sends
abbrev pub encode_all : List Frame → Result Error (List ℕ)
encode_all [] = ok []
encode_all (f ∷ fs) = encode f >>= λ b. encode_all fs >>= λ bs. ok (b ++ bs)

abbrev pub AllInRange : List Frame → Type 0
AllInRange [] = Unit {0}
AllInRange (f ∷ fs) = InRange f × AllInRange fs

encode-ok :
    (f : Frame) {b : List ℕ}
    → encode f ≡ ok b
    → (length (payload f) ≤ max_frame)
      × (b ≡ tag_byte (tag f) ∷ (le_bytes 4 (length (payload f)) ++ payload f))
unfolding encode
encode-ok f e = ground arith

module _ (f : Frame) (rest : List ℕ) (fits : length (payload f) ≤ max_frame) where
  head_body-payload :
      head_body (tag f) (length (payload f)) (payload f ++ rest) ≡ whole (tag f) (payload f) rest
  unfolding head_body
  head_body-payload = ground (
    arith,
    length-append (payload f) rest,
    take-append (payload f) rest,
    drop-append (payload f) rest,
  )

  head-encode :
      head (tag_byte (tag f) ∷ (le_bytes 4 (length (payload f)) ++ payload f) ++ rest)
      ≡ whole (tag f) (payload f) rest
  unfolding head le_bytes
  head-encode =
      rw (tag_from_u8-tag_byte (tag f), head)
        (ap (λ n. head_body (tag f) n (payload f ++ rest))
            (from_le-le_bytes 4 (length (payload f)) (omega arith))
          ∙ head_body-payload)

Runs-encode_all :
    (fs : List Frame) {bs : List ℕ}
    → encode_all fs ≡ ok bs
    → AllInRange fs
    → Runs bs ([], ok (map received fs))
unfolding head prepend
Runs-encode_all [] e r = subst (λ l. Runs l ([], ok [])) (ok-injective e) (stops refl refl)
Runs-encode_all (f ∷ fs) e r =
    let (b, first, e₁) = bind-eq-ok (encode f) (λ b. encode_all fs >>= λ bs. ok (b ++ bs)) e in
    let (bs, later, e₂) = bind-eq-ok (encode_all fs) (λ bs. ok (b ++ bs)) e₁ in
    let (fits, shape) = encode-ok f first in
    let at_head : head (b ++ bs) ≡ whole (tag f) (payload f) bs =
      ap (λ l. head (l ++ bs)) shape ∙ head-encode f bs fits in
    subst (λ l. Runs l ([], ok (map received (f ∷ fs)))) (ok-injective e₂)
      (takes at_head (decode-payload f r.0) (Runs-encode_all fs later r.1) refl)

-- Frames whose values have the widths of their fields, encoded one after the other, are decoded in
-- order with no byte left over, also when the stream arrives in two pieces split at any byte. A frame
-- arrives as it was sent; but an attach frame that needs the protocol byte and names session 0
-- arrives as one that names none.
pub push-encode_all :
    (fs : List Frame) (xs ys : List ℕ)
    → encode_all fs ≡ ok (xs ++ ys)
    → AllInRange fs
    → (push [] (xs ++ ys) ≡ some ([], ok (map received fs)))
      × (then_push (push [] xs) ys ≡ some ([], ok (map received fs)))
push-encode_all fs xs ys e r =
    let once = Runs-push [] (xs ++ ys) (Runs-encode_all fs e r) in
    (once, sym (push-append [] xs ys) ∙ once)
