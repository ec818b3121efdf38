-- ===== src/Prelude/Filter.antt =====
-- `filter`, `find` and their like, with a Boolean test.
use Prim.Native.Nat.{ℕ, suc, ◌+◌}
use mathlib.Core.Path.{◌≡◌, refl}
use mathlib.Core.Bool.{Bool}
use mathlib.Core.Option.{Option, none, some}
use mathlib.Core.List.{List, [], ◌∷◌, ◌++◌}
use native.Mathlib.Omega.{arith}
use rill.Prelude.Tests.{if◌then◌else◌}

module _ {ℓ} {A : Type ℓ} (p : A → Bool) where
  unfoldable pub filter : List A → List A
  filter [] = []
  filter (x ∷ xs) = if p x then x ∷ filter xs else filter xs

  unfoldable pub count : List A → ℕ
  count [] = 0
  count (x ∷ xs) = if p x then suc (count xs) else count xs

  unfoldable pub find : List A → Option A
  find [] = none
  find (x ∷ xs) = if p x then some x else find xs

  -- the first entry that passes goes
  unfoldable pub remove_first : List A → List A
  remove_first [] = []
  remove_first (x ∷ xs) = if p x then xs else x ∷ remove_first xs

  -- the first entry that passes is written over
  unfoldable pub modify_first : (A → A) → List A → List A
  modify_first f [] = []
  modify_first f (x ∷ xs) = if p x then f x ∷ xs else x ∷ modify_first f xs

  pub filter-append : (xs ys : List A) → filter (xs ++ ys) ≡ filter xs ++ filter ys
  unfolding filter
  filter-append [] ys = refl
  filter-append (x ∷ xs) ys = ground (arith, filter-append xs ys)

  pub count-append : (xs ys : List A) → count (xs ++ ys) ≡ count xs + count ys
  unfolding count
  count-append [] ys = omega arith
  count-append (x ∷ xs) ys = ground (arith, count-append xs ys)

  pub find-append :
      (xs ys : List A) → find (xs ++ ys) ≡ elim (find xs) [ some x ↦ some x | none ↦ find ys ]
  unfolding find
  find-append [] ys = refl
  find-append (x ∷ xs) ys = ground (arith, find-append xs ys)
