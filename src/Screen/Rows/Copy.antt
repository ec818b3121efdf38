-- ===== src/Screen/Rows/Copy.antt =====
-- screen.rs: copying and filling a part of a list, entry by entry.
use rill.Prelude.{
  ℕ, zero, suc, ◌+◌, ◌-◌, ◌<◌, ◌≤◌, ◌≡◌, ◌⊎◌, refl, ap, ◌∙◌, List, [], ◌∷◌, some, length, get_elem?,
  take, drop, length-take, length-drop, arith,
}
use rill.Screen.Cell.{overwrite, copy_within, fill}

module _ {A : Type 0} where
  pub overwrite_in :
      (xs : List A) (i : ℕ) (ys : List A) (j : ℕ)
      → i ≤ j
      → j < i + length ys
      → j < length xs
      → get_elem? (overwrite xs i ys) j ≡ get_elem? ys (j - i)
  unfolding overwrite
  overwrite_in [] i ys j lo hi fits = ground (arith, fits)
  overwrite_in (x ∷ xs) zero [] j lo hi fits = ground (arith, hi)
  overwrite_in (x ∷ xs) zero (y ∷ ys) zero lo hi fits = refl
  overwrite_in (x ∷ xs) zero (y ∷ ys) (suc j) lo hi fits =
      let same : suc (j - 0) ≡ suc j - 0 = omega arith in
      overwrite_in xs zero ys j (omega arith) (omega (arith, hi)) (omega (arith, fits))
      ∙ ap (get_elem? (y ∷ ys)) same
  overwrite_in (x ∷ xs) (suc i) ys zero lo hi fits = ground (arith, lo)
  overwrite_in (x ∷ xs) (suc i) ys (suc j) lo hi fits =
      overwrite_in xs i ys j (omega (arith, lo)) (omega (arith, hi)) (omega (arith, fits))
      ∙ ap (get_elem? ys) (omega arith)

  pub overwrite_out :
      (xs : List A) (i : ℕ) (ys : List A) (j : ℕ)
      → (j < i) ⊎ (i + length ys ≤ j)
      → get_elem? (overwrite xs i ys) j ≡ get_elem? xs j
  unfolding overwrite
  overwrite_out [] i ys j h = refl
  overwrite_out (x ∷ xs) zero [] j h = refl
  overwrite_out (x ∷ xs) zero (y ∷ ys) zero h = ground (arith, h)
  overwrite_out (x ∷ xs) zero (y ∷ ys) (suc j) h = overwrite_out xs zero ys j (omega (arith, h))
  overwrite_out (x ∷ xs) (suc i) ys zero h = refl
  overwrite_out (x ∷ xs) (suc i) ys (suc j) h = overwrite_out xs i ys j (omega (arith, h))

  pub fill_in :
      (xs : List A) (i n : ℕ) (c : A) (j : ℕ)
      → i ≤ j
      → j < i + n
      → j < length xs
      → get_elem? (fill xs i n c) j ≡ some c
  unfolding fill
  fill_in [] i n c j lo hi fits = ground (arith, fits)
  fill_in (x ∷ xs) zero zero c j lo hi fits = ground (arith, hi)
  fill_in (x ∷ xs) zero (suc n) c zero lo hi fits = refl
  fill_in (x ∷ xs) zero (suc n) c (suc j) lo hi fits =
      fill_in xs zero n c j (omega arith) (omega (arith, hi)) (omega (arith, fits))
  fill_in (x ∷ xs) (suc i) n c zero lo hi fits = ground (arith, lo)
  fill_in (x ∷ xs) (suc i) n c (suc j) lo hi fits =
      fill_in xs i n c j (omega (arith, lo)) (omega (arith, hi)) (omega (arith, fits))

  pub fill_out :
      (xs : List A) (i n : ℕ) (c : A) (j : ℕ)
      → (j < i) ⊎ (i + n ≤ j)
      → get_elem? (fill xs i n c) j ≡ get_elem? xs j
  unfolding fill
  fill_out [] i n c j h = refl
  fill_out (x ∷ xs) zero zero c j h = refl
  fill_out (x ∷ xs) zero (suc n) c zero h = ground (arith, h)
  fill_out (x ∷ xs) zero (suc n) c (suc j) h = fill_out xs zero n c j (omega (arith, h))
  fill_out (x ∷ xs) (suc i) n c zero h = refl
  fill_out (x ∷ xs) (suc i) n c (suc j) h = fill_out xs i n c j (omega (arith, h))

  get_elem?-drop : (s : ℕ) (xs : List A) (j : ℕ) → get_elem? (drop s xs) j ≡ get_elem? xs (s + j)
  get_elem?-drop zero xs j = (let same : j ≡ 0 + j = omega arith in ap (get_elem? xs) same)
  get_elem?-drop (suc s) [] j = refl
  get_elem?-drop (suc s) (x ∷ xs) j =
      (let same : suc (s + j) ≡ suc s + j = omega arith in
        get_elem?-drop s xs j ∙ ap (get_elem? (x ∷ xs)) same)

  get_elem?-take : (n : ℕ) (xs : List A) (j : ℕ) → j < n → get_elem? (take n xs) j ≡ get_elem? xs j
  get_elem?-take zero xs j h = ground (arith, h)
  get_elem?-take (suc n) [] j h = refl
  get_elem?-take (suc n) (x ∷ xs) zero h = refl
  get_elem?-take (suc n) (x ∷ xs) (suc j) h = get_elem?-take n xs j (omega (arith, h))

  module _ (xs : List A) (src n dst : ℕ) (room : src + n ≤ length xs) where
    length_copied : length (take n (drop src xs)) ≡ n
    length_copied = length-take n (drop src xs) ∙ omega (arith, length-drop src xs, room)

    pub copy_within_in :
        (j : ℕ)
        → dst ≤ j
        → j < dst + n
        → j < length xs
        → get_elem? (copy_within xs src n dst) j ≡ get_elem? xs (src + (j - dst))
    unfolding copy_within
    copy_within_in j lo hi fits =
        overwrite_in xs dst (take n (drop src xs)) j lo (omega (arith, hi, length_copied)) fits
        ∙ get_elem?-take n (drop src xs) (j - dst) (omega (arith, hi, lo))
        ∙ get_elem?-drop src xs (j - dst)

    pub copy_within_out :
        (j : ℕ)
        → (j < dst) ⊎ (dst + n ≤ j)
        → get_elem? (copy_within xs src n dst) j ≡ get_elem? xs j
    unfolding copy_within
    copy_within_out j h =
        overwrite_out xs dst (take n (drop src xs)) j (omega (arith, h, length_copied))
