-- ===== src/Width/Tables.antt =====
-- The order of the two tables of east_asian_width.rs.
use rill.Prelude.{
  ℕ, zero, suc, ◌<◌, ◌≤◌, ◌≡◌, ◌↔◌, refl, subst, Bool, true, false, ◌&&◌, List, [], ◌∷◌, some, ltb,
  leb, ltb→lt, leb→le, get_elem?, arith,
}
use rill.Width.Wide.{wide_ranges}
use rill.Width.Mark.{mark_ranges}
use rill.Width.Search.{is_wide, is_mark}
use rill.Width.Order.{IsCovered, IsOrdered, contains-IsCovered, some-injective}

-- the first range, if there is one, starts behind `hi`
abbrev starts_after : ℕ → List (ℕ × ℕ) → Bool
starts_after hi [] = true
starts_after hi (r ∷ rs) = ltb hi r.0

-- each range is proper and ends before the next one
abbrev in_order : List (ℕ × ℕ) → Bool
in_order [] = true
in_order (r ∷ rs) = leb r.0 r.1 && starts_after r.1 rs && in_order rs

both : (b c d : Bool) → (b && c && d) ≡ true → (b ≡ true) × (c ≡ true) × (d ≡ true)
both true true true h = (refl, refl, refl)
both false c d h = cc
both true false d h = cc
both true true false h = cc

in_order_head :
    (r : ℕ × ℕ) (rs : List (ℕ × ℕ))
    → in_order (r ∷ rs) ≡ true
    → (r.0 ≤ r.1) × (starts_after r.1 rs ≡ true) × (in_order rs ≡ true)
in_order_head r rs h =
    let (proper, next, rest) = both (leb r.0 r.1) (starts_after r.1 rs) (in_order rs) h in
    (leb→le r.0 r.1 proper, next, rest)

-- what ends before the first range of an ordered table ends before all of them
starts_after_all :
    (hi : ℕ) (rs : List (ℕ × ℕ)) (i : ℕ) {b : ℕ × ℕ}
    → starts_after hi rs ≡ true
    → in_order rs ≡ true
    → get_elem? rs i ≡ some b
    → hi < b.0
starts_after_all hi [] i h o e = ground (arith, e)
starts_after_all hi (r ∷ rs) zero h o e = subst (λ r. hi < r.0) (some-injective e) (ltb→lt hi r.0 h)
starts_after_all hi (r ∷ rs) (suc i) h o e =
    let (proper, next, rest) = in_order_head r rs o in
    omega (arith, starts_after_all r.1 rs i next rest e, ltb→lt hi r.0 h, proper)

in_order-proper :
    (rs : List (ℕ × ℕ)) (i : ℕ) (a : ℕ × ℕ)
    → in_order rs ≡ true
    → get_elem? rs i ≡ some a
    → a.0 ≤ a.1
in_order-proper [] i a o e = ground (arith, e)
in_order-proper (r ∷ rs) zero a o e =
    subst (λ r. r.0 ≤ r.1) (some-injective e) ((in_order_head r rs o).0)
in_order-proper (r ∷ rs) (suc i) a o e = in_order-proper rs i a ((in_order_head r rs o).2) e

in_order-apart :
    (rs : List (ℕ × ℕ)) (i j : ℕ) (a b : ℕ × ℕ)
    → in_order rs ≡ true
    → i < j
    → get_elem? rs i ≡ some a
    → get_elem? rs j ≡ some b
    → a.1 < b.0
in_order-apart [] i j a b o h e f = ground (arith, e)
in_order-apart (r ∷ rs) zero zero a b o h e f = ground (arith, h)
in_order-apart (r ∷ rs) (suc i) zero a b o h e f = ground (arith, h)
in_order-apart (r ∷ rs) zero (suc j) a b o h e f =
    let (proper, next, rest) = in_order_head r rs o in
    subst (λ r. r.1 < b.0) (some-injective e) (starts_after_all r.1 rs j next rest f)
in_order-apart (r ∷ rs) (suc i) (suc j) a b o h e f =
    in_order-apart rs i j a b ((in_order_head r rs o).2) (omega (arith, h)) e f

pub in_order-IsOrdered : (rs : List (ℕ × ℕ)) → in_order rs ≡ true → IsOrdered rs
in_order-IsOrdered rs o = record {
  proper = λ i a. in_order-proper rs i a o;
  apart = λ i j a b. in_order-apart rs i j a b o;
}

-- A code point is wide exactly if a range of the table of wide code points has it, and a mark exactly
-- if a range of the table of marks has it.
pub is_wide-is_mark-IsCovered :
    (cp : ℕ)
    → ((is_wide cp ≡ true) ↔ IsCovered wide_ranges cp)
      × ((is_mark cp ≡ true) ↔ IsCovered mark_ranges cp)
unfolding is_wide is_mark
is_wide-is_mark-IsCovered cp = (
  contains-IsCovered wide_ranges cp (in_order-IsOrdered wide_ranges refl),
  contains-IsCovered mark_ranges cp (in_order-IsOrdered mark_ranges refl),
)
