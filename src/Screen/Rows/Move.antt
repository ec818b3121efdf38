-- ===== src/Screen/Rows/Move.antt =====
-- screen.rs: moving the rows of a grid up, entry by entry.
use rill.Prelude.{
  ℕ, zero, suc, ◌+◌, ◌-◌, ◌*◌, ◌<◌, ◌≤◌, ◌≡◌, ◌⊎◌, inl, inr, refl, ap, ◌∙◌, List, length, get_elem?,
  lt_or_le, arith,
}
use native.Mathlib.Nat.{mul_comm, mul-add}
use rill.Screen.Cell.{copy_within, move_up}
use rill.Screen.Valid.{length-copy_within}
use rill.Screen.Rows.Copy.{copy_within_in, copy_within_out}

pub add_mul : (a b c : ℕ) → (a + b) * c ≡ a * c + b * c
add_mul a b c = omega (arith, mul_comm (a + b) c, mul_comm a c, mul_comm b c, mul-add c a b)

module _ {A : Type 0} (cols : ℕ) where
  -- what a step of `move_up` copies fits in the grid
  step_room :
      (r count : ℕ) (xs : List A)
      → (r + 1 + suc count) * cols ≤ length xs
      → (r + 1) * cols + cols ≤ length xs
  step_room r count xs h = omega (arith, h, add_mul (r + 1) (suc count) cols, add_mul 1 count cols)

  step_next :
      (r count : ℕ) (xs : List A)
      → (r + 1 + suc count) * cols ≤ length xs
      → (r + 1 + 1 + count) * cols ≤ length (copy_within xs ((r + 1) * cols) cols (r * cols))
  step_next r count xs h =
      let same : r + 1 + suc count ≡ r + 1 + 1 + count = omega arith in
      omega
        (arith, h, ap (λ n. n * cols) same, length-copy_within xs ((r + 1) * cols) cols (r * cols))

  pub move_up_out :
      (r count : ℕ) (xs : List A) (j : ℕ)
      → (r + 1 + count) * cols ≤ length xs
      → (j < r * cols) ⊎ ((r + count) * cols ≤ j)
      → get_elem? (move_up cols 1 r count xs) j ≡ get_elem? xs j
  unfolding move_up
  move_up_out r zero xs j room h = refl
  move_up_out r (suc count) xs j room h =
      let copied = copy_within xs ((r + 1) * cols) cols (r * cols) in
      let same : r + suc count ≡ r + 1 + count = omega arith in
      let shift = ap (λ n. n * cols) same in
      move_up_out (r + 1) count copied j (step_next r count xs room)
        (omega (arith, h, shift, add_mul r 1 cols))
      ∙ copy_within_out xs ((r + 1) * cols) cols (r * cols) (step_room r count xs room) j
          (omega (arith, h, shift, add_mul r 1 cols, add_mul (r + 1) count cols))

  pub move_up_in :
      (r count : ℕ) (xs : List A) (j : ℕ)
      → (r + 1 + count) * cols ≤ length xs
      → r * cols ≤ j
      → j < (r + count) * cols
      → get_elem? (move_up cols 1 r count xs) j ≡ get_elem? xs (j + cols)
  unfolding move_up
  move_up_in r zero xs j room lo hi =
      let same : r + 0 ≡ r = omega arith in
      let no : ⊥ = omega (arith, lo, hi, ap (λ n. n * cols) same) in elim no [ ]
  move_up_in r (suc count) xs j room lo hi =
      let copied = copy_within xs ((r + 1) * cols) cols (r * cols) in
      let same : r + suc count ≡ r + 1 + count = omega arith in
      let shift = ap (λ n. n * cols) same in
      elim (lt_or_le j ((r + 1) * cols)) [
        | inl here ↦
            (let source : (r + 1) * cols + (j - r * cols) ≡ j + cols =
                omega (arith, lo, add_mul r 1 cols) in
              move_up_out (r + 1) count copied j (step_next r count xs room) (inl here)
              ∙ copy_within_in xs ((r + 1) * cols) cols (r * cols) (step_room r count xs room) j lo
                  (omega (arith, here, add_mul r 1 cols))
                  (omega (arith, here, step_room r count xs room))
              ∙ ap (get_elem? xs) source)
        | inr later ↦
            move_up_in (r + 1) count copied j (step_next r count xs room) later
              (omega (arith, hi, shift))
            ∙ copy_within_out xs ((r + 1) * cols) cols (r * cols) (step_room r count xs room)
                (j + cols) (omega (arith, later, add_mul r 1 cols))
      ]
