-- ===== src/Parser/Utf8.antt =====
-- `decode_utf8`, `start_utf8`, `finish_utf8` and `abort_utf8` of parser.rs.
use rill.Prelude.{
  ℕ, ◌+◌, ◌*◌, ◌-◌, Bool, ◌&&◌, List, [], ◌∷◌, Option, none, some, ltb, leb, in_range,
  if◌then◌else◌, take, set, replicate,
}
use rill.Parser.State.{Parser, print, Out, max_utf8}

abbrev pub is_continuation : ℕ → Bool
is_continuation b = in_range 0x80 0xbf b

-- `char::REPLACEMENT_CHARACTER`
abbrev pub replacement : ℕ
replacement = 0xfffd

unfoldable pub decode_two : ℕ → ℕ → Option ℕ
decode_two a b =
    if in_range 0xc2 0xdf a && is_continuation b then some ((a - 0xc0) * 64 + (b - 0x80)) else none

-- An overlong form and a surrogate are refused.
unfoldable pub decode_three : ℕ → ℕ → ℕ → Option ℕ
decode_three a b c =
    let scalar = (a - 0xe0) * 4096 + (b - 0x80) * 64 + (c - 0x80) in
    if in_range 0xe0 0xef a && is_continuation b && is_continuation c && leb 0x800 scalar
    then (if in_range 0xd800 0xdfff scalar then none else some scalar)
    else none

unfoldable pub decode_four : ℕ → ℕ → ℕ → ℕ → Option ℕ
decode_four a b c d =
    let scalar = (a - 0xf0) * 262144 + (b - 0x80) * 4096 + (c - 0x80) * 64 + (d - 0x80) in
    if in_range 0xf0 0xf4 a
      && is_continuation b
      && is_continuation c
      && is_continuation d
      && in_range 0x10000 0x10ffff scalar
    then some scalar
    else none

-- `str::from_utf8(bytes).ok()?.chars().next()` at the slices that `finish_utf8` takes: 2 to 4 bytes,
-- a lead byte and as many continuation bytes as it asks for. No other slice is taken.
unfoldable pub decode_utf8 : List ℕ → Option ℕ
unfolding decode_two decode_three decode_four
decode_utf8 (a ∷ b ∷ []) = decode_two a b
decode_utf8 (a ∷ b ∷ c ∷ []) = decode_three a b c
decode_utf8 (a ∷ b ∷ c ∷ d ∷ []) = decode_four a b c d
decode_utf8 _ = none

unfoldable pub abort_utf8 : Parser → Out
abort_utf8 p =
    if ltb 0 p.utf8_needed
    then (record p { utf8_len = 0; utf8_needed = 0 }, print replacement ∷ [])
    else (p, [])

unfoldable pub start_utf8 : Parser → ℕ → ℕ → Parser
start_utf8 p lead needed = record p {
  utf8 = set (replicate max_utf8 0) 0 lead;
  utf8_len = 1;
  utf8_needed = needed;
}

abbrev pub or_replacement : Option ℕ → ℕ
or_replacement (some c) = c
or_replacement none = replacement

unfoldable pub finish_utf8 : Parser → Out
finish_utf8 p = (
  record p { utf8_len = 0; utf8_needed = 0 },
  print (or_replacement (decode_utf8 (take p.utf8_needed p.utf8))) ∷ [],
)
