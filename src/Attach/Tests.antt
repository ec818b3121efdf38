-- ===== src/Attach/Tests.antt =====
-- The theorems about the attach protocol at concrete frames.
use rill.Prelude.{ℕ, ◌++◌, ◌≡◌, ◌<◌, ◌+◌, refl, List, [], ◌∷◌, arith, length, some, ok}
use rill.Attach.Bytes.{le_bytes}
use rill.Attach.Frame.{Frame, credit_frame, bytes_frame, max_frame, tag, payload, encode, tag_byte}
use rill.Attach.Decoder.{Pushed, push}
use rill.Attach.Stream.{push_bounded, push-append, then_push}
use rill.Attach.RoundTrip.{push-encode_all}

-- the first six bytes of `Credit 258` and "hi"
abbrev early : List ℕ
early = 2 ∷ 4 ∷ 0 ∷ 0 ∷ 0 ∷ 2 ∷ []

abbrev late : List ℕ
late = 1 ∷ 0 ∷ 0 ∷ 1 ∷ 2 ∷ 0 ∷ 0 ∷ 0 ∷ b'h' ∷ b'i' ∷ []

abbrev two : List Frame
two = credit_frame 258 ∷ bytes_frame (b'h' ∷ b'i' ∷ []) ∷ []

push-encode_all_example :
    (push [] (early ++ late) ≡ some ([], ok two))
    × (then_push (push [] early) late ≡ some ([], ok two))
unfolding encode tag payload le_bytes tag_byte
push-encode_all_example = push-encode_all two early late refl (omega arith, (tt, tt))

push-append_example : push [] (early ++ late) ≡ then_push (push [] early) late
push-append_example = push-append [] early late

push_bounded_example :
    (r : Pushed) × (push [] early ≡ some r)
    × ((rest : List ℕ) (fs : List Frame) → r ≡ (rest, ok fs) → length rest < 5 + max_frame)
push_bounded_example = push_bounded [] early
