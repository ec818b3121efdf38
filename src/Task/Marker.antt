-- ===== src/Task/Marker.antt =====
-- The marker `[answers #q]` that makes a section an answer. A text is its code points.
use rill.Prelude.{
  ℕ, zero, suc, ◌+◌, ◌-◌, ◌*◌, ◌/◌, ◌%◌, ◌<◌, ◌≡◌, refl, sym, ap, ◌∙◌, Bool, true, false, drop,
  List, [], ◌∷◌, ◌++◌, append_assoc, arith, lt_or_le, inl, inr, ltb, ◌==◌, if◌then◌else◌,
}

-- `Display` of a `u64`: a digit for each unit of fuel
unfoldable pub digits : ℕ → ℕ → List ℕ
digits zero n = []
digits (suc fuel) n =
    if ltb n 10 then (b'0' + n) ∷ [] else digits fuel (n / 10) ++ (b'0' + n % 10) ∷ []

-- every number has fewer digits than one more than itself
unfoldable pub to_decimal : ℕ → List ℕ
to_decimal n = digits (n + 1) n

-- `"[answers #"`
abbrev pub answers : List ℕ
answers = b'[' ∷ b'a' ∷ b'n' ∷ b's' ∷ b'w' ∷ b'e' ∷ b'r' ∷ b's' ∷ b' ' ∷ b'#' ∷ []

-- `format!("[answers #{question_index}]")`
unfoldable pub marker : ℕ → List ℕ
marker q = answers ++ (to_decimal q ++ b']' ∷ [])

-- `str::starts_with`
unfoldable pub starts_with : List ℕ → List ℕ → Bool
starts_with [] ys = true
starts_with (x ∷ xs) [] = false
starts_with (x ∷ xs) (y ∷ ys) = if x == y then starts_with xs ys else false

pub starts_with-append : (xs ys : List ℕ) → starts_with xs (xs ++ ys) ≡ true
unfolding starts_with
starts_with-append [] ys = refl
starts_with-append (x ∷ xs) ys = ground (arith, starts_with-append xs ys)

-- the number before the `]`
abbrev read : ℕ → List ℕ → ℕ
read acc [] = acc
read acc (b ∷ bs) = if b == b']' then acc else read (acc * 10 + (b - b'0')) bs

read-digits : (fuel n : ℕ) (ys : List ℕ) → n < fuel → read 0 (digits fuel n ++ ys) ≡ read n ys
unfolding digits
read-digits zero n ys h = absurd (omega arith)
read-digits (suc fuel) n ys h = elim (lt_or_le n 10) [
  | inl small ↦ ground arith
  | inr large ↦
      let later = read-digits fuel (n / 10) ((b'0' + n % 10) ∷ ys) (omega arith) in
      let joined = append_assoc (digits fuel (n / 10)) ((b'0' + n % 10) ∷ []) ys in
      ground (arith, later, joined)
]

starts_with-exists : (xs ys : List ℕ) → starts_with xs ys ≡ true → (zs : List ℕ) × (ys ≡ xs ++ zs)
unfolding starts_with
starts_with-exists [] ys h = (ys, refl)
starts_with-exists (x ∷ xs) [] h = cc
starts_with-exists (x ∷ xs) (y ∷ ys) h =
    let (zs, e) = starts_with-exists xs ys (ground arith) in (zs, ground arith)

read-marker : (q : ℕ) (text : List ℕ) → read 0 (drop 10 (marker q ++ text)) ≡ q
unfolding marker to_decimal
read-marker q text =
    ap (read 0) (append_assoc (to_decimal q) (b']' ∷ []) text)
    ∙ read-digits (q + 1) q (b']' ∷ text) (omega arith)

-- A text that begins with the marker of one question does not begin with that of another one.
pub starts_with-marker :
    (p q : ℕ) (text : List ℕ) → starts_with (marker p) (marker q ++ text) ≡ true → p ≡ q
starts_with-marker p q text h =
    let (zs, e) = starts_with-exists (marker p) (marker q ++ text) h in
    sym (read-marker p zs) ∙ ap (λ l. read 0 (drop 10 l)) (sym e) ∙ read-marker q text
