-- ===== src/Screen/Sgr.antt =====
-- `apply_sgr`: the pen's colours and attributes.
use rill.Prelude.{
  ℕ, zero, suc, ◌+◌, ◌-◌, ◌/◌, ◌%◌, min, List, [], ◌∷◌, Bool, ◌||◌, ◌==◌, in_range, if◌then◌else◌,
  length,
}
use rill.VtTypes.{Color, default_color, indexed_color, rgb_color}
use rill.Screen.State.{Screen}

-- `attrs |= bit` and `attrs &= !bit`, for a power of two
unfoldable pub set_bit : ℕ → ℕ → ℕ
set_bit bit attrs = if attrs / bit % 2 == 1 then attrs else attrs + bit

unfoldable pub clear_bit : ℕ → ℕ → ℕ
clear_bit bit attrs = if attrs / bit % 2 == 1 then attrs - bit else attrs

abbrev pub paint_indexed : ℕ → Color
paint_indexed n = indexed_color (min n 255)

unfoldable pub set_pen : Screen → Bool → Color → Screen
set_pen s fg c = if fg then record s { pen_fg = c } else record s { pen_bg = c }

-- a parameter that stands alone
unfoldable pub sgr_one : Screen → ℕ → Screen
sgr_one s n =
    if n == 0
    then record s { pen_attrs = 0; pen_fg = default_color; pen_bg = default_color }
    else if n == 1
    then record s { pen_attrs = set_bit 1 s.pen_attrs }
    else if n == 4
    then record s { pen_attrs = set_bit 2 s.pen_attrs }
    else if n == 7
    then record s { pen_attrs = set_bit 4 s.pen_attrs }
    else if n == 22
    then record s { pen_attrs = clear_bit 1 s.pen_attrs }
    else if n == 24
    then record s { pen_attrs = clear_bit 2 s.pen_attrs }
    else if n == 27
    then record s { pen_attrs = clear_bit 4 s.pen_attrs }
    else if in_range 30 37 n
    then record s { pen_fg = paint_indexed (n - 30) }
    else if in_range 90 97 n
    then record s { pen_fg = paint_indexed (n - 90 + 8) }
    else if in_range 40 47 n
    then record s { pen_bg = paint_indexed (n - 40) }
    else if in_range 100 107 n
    then record s { pen_bg = paint_indexed (n - 100 + 8) }
    else if n == 39
    then record s { pen_fg = default_color }
    else if n == 49
    then record s { pen_bg = default_color }
    else s

-- behind `38 ; 5` or `48 ; 5`
unfoldable pub sgr_indexed : Screen → Bool → List ℕ → Screen × List ℕ
sgr_indexed s fg [] = (s, [])
sgr_indexed s fg (n ∷ rest) = (set_pen s fg (paint_indexed n), rest)

-- behind `38 ; 2` or `48 ; 2`; with fewer than three parameters left none of them is taken
unfoldable pub sgr_rgb : Screen → Bool → List ℕ → Screen × List ℕ
sgr_rgb s fg (r ∷ g ∷ b ∷ rest) =
    (set_pen s fg (rgb_color (min r 255) (min g 255) (min b 255)), rest)
sgr_rgb s fg rest = (s, rest)

-- behind `38` or `48`
unfoldable pub sgr_extended : Screen → Bool → List ℕ → Screen × List ℕ
sgr_extended s fg [] = (s, [])
sgr_extended s fg (m ∷ rest) =
    if m == 5 then sgr_indexed s fg rest else if m == 2 then sgr_rgb s fg rest else (s, m ∷ rest)

-- a round of the loop: the screen, and the parameters left
unfoldable pub sgr_round : Screen → ℕ → List ℕ → Screen × List ℕ
sgr_round s n rest =
    if n == 38 || n == 48 then sgr_extended s (n == 38) rest else (sgr_one s n, rest)

-- A round takes at least one parameter, and has one unit of fuel.
unfoldable pub sgr_loop : ℕ → Screen → List ℕ → Screen
sgr_loop zero s params = s
sgr_loop (suc fuel) s [] = s
sgr_loop (suc fuel) s (n ∷ rest) = let (s', rest') = sgr_round s n rest in sgr_loop fuel s' rest'

unfoldable pub apply_sgr : Screen → List ℕ → Screen
apply_sgr s [] = sgr_loop 1 s (0 ∷ [])
apply_sgr s (n ∷ rest) = sgr_loop (length (n ∷ rest)) s (n ∷ rest)
