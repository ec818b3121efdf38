-- ===== src/Parser/Encoding.antt =====
-- UTF-8 as a function on code points, and that `decode_utf8` undoes it.
use rill.Prelude.{
  ℕ, ◌+◌, ◌/◌, ◌%◌, ◌≤◌, ◌<◌, ◌≡◌, ◌⊎◌, ◌≢◌, true, List, [], ◌∷◌, some, arith, ltb, if◌then◌else◌,
}
use rill.Parser.Utf8.{decode_two, decode_three, decode_four, is_continuation}

-- the Unicode scalar values
pub record IsScalar (c : ℕ) : Type 0 where
  pub small : c < 0x110000
  pub no_surrogate : (c < 0xd800) ⊎ (0xdfff < c)

-- no C0 control, and not DEL
pub record IsPrintable (c : ℕ) : Type 0 where
  pub scalar : IsScalar c
  pub shown : 0x20 ≤ c
  pub no_del : c ≢ 0x7f

abbrev pub tail_byte : ℕ → ℕ
tail_byte n = 0x80 + n % 64

-- UTF-8, by the table of RFC 3629
abbrev pub encode_utf8 : ℕ → List ℕ
encode_utf8 c =
    if ltb c 0x80
    then c ∷ []
    else if ltb c 0x800
    then (0xc0 + c / 64) ∷ tail_byte c ∷ []
    else if ltb c 0x10000
    then (0xe0 + c / 4096) ∷ tail_byte (c / 64) ∷ tail_byte c ∷ []
    else (0xf0 + c / 262144) ∷ tail_byte (c / 4096) ∷ tail_byte (c / 64) ∷ tail_byte c ∷ []

pub decode_two-encode :
    (c : ℕ) → 0x80 ≤ c → c < 0x800 → decode_two (0xc0 + c / 64) (tail_byte c) ≡ some c
unfolding decode_two
decode_two-encode c lo hi = ground arith

pub decode_three-encode :
    (c : ℕ)
    → IsScalar c
    → 0x800 ≤ c
    → c < 0x10000
    → decode_three (0xe0 + c / 4096) (tail_byte (c / 64)) (tail_byte c) ≡ some c
unfolding decode_three
decode_three-encode c v lo hi = ground arith

pub decode_four-encode :
    (c : ℕ)
    → IsScalar c
    → 0x10000 ≤ c
    → decode_four (0xf0 + c / 262144) (tail_byte (c / 4096)) (tail_byte (c / 64)) (tail_byte c)
      ≡ some c
unfolding decode_four
decode_four-encode c v lo = ground arith

pub encode_one : (c : ℕ) → c < 0x80 → encode_utf8 c ≡ c ∷ []
encode_one c lt = ground arith

pub encode_two : (c : ℕ) → 0x80 ≤ c → c < 0x800 → encode_utf8 c ≡ (0xc0 + c / 64) ∷ tail_byte c ∷ []
encode_two c lo hi = ground arith

pub encode_three :
    (c : ℕ)
    → 0x800 ≤ c
    → c < 0x10000
    → encode_utf8 c ≡ (0xe0 + c / 4096) ∷ tail_byte (c / 64) ∷ tail_byte c ∷ []
encode_three c lo hi = ground arith

pub encode_four :
    (c : ℕ)
    → 0x10000 ≤ c
    → encode_utf8 c
      ≡ (0xf0 + c / 262144) ∷ tail_byte (c / 4096) ∷ tail_byte (c / 64) ∷ tail_byte c ∷ []
encode_four c lo = ground arith

pub tail_byte-continues : (n : ℕ) → is_continuation (tail_byte n) ≡ true
tail_byte-continues n = ground arith
