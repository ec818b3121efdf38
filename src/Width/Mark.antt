-- ===== src/Width/Mark.antt =====
-- The table of the non-spacing and enclosing marks, as the generator writes it, in three parts.
mod Low
mod Middle
mod High
use rill.Prelude.{ℕ, List, ◌++◌}
use Low.{low_marks}
use Middle.{middle_marks}
use High.{high_marks}

abbrev pub mark_ranges : List (ℕ × ℕ)
mark_ranges = low_marks ++ (middle_marks ++ high_marks)
