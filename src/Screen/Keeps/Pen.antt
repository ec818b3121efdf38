-- ===== src/Screen/Keeps/Pen.antt =====
-- screen.rs: setting the pen under the screen's invariant.
use rill.Prelude.{branch, ℕ, zero, suc, List, [], ◌∷◌, Bool, ◌==◌, ◌||◌, in_range, length}
use rill.VtTypes.{Color}
use rill.Screen.State.{Screen}
use rill.Screen.Sgr.{
  set_pen, sgr_one, sgr_indexed, sgr_rgb, sgr_extended, sgr_round, sgr_loop, apply_sgr,
}
use rill.Screen.Valid.{IsValid}
use rill.Screen.Keeps.{Keeps, keep, either}

set_pen-IsValid : (s : Screen) → IsValid s → (fg : Bool) (c : Color) → IsValid (set_pen s fg c)
unfolding set_pen
set_pen-IsValid s v fg c = branch fg IsValid v v

sgr_one-Keeps : (s : Screen) → IsValid s → (n : ℕ) → Keeps (sgr_one s n)
unfolding sgr_one
sgr_one-Keeps s v n = either (n == 0) (keep v) (
    either (n == 1) (keep v) (
      either (n == 4) (keep v) (
        either (n == 7) (keep v) (
          either (n == 22) (keep v) (
            either (n == 24) (keep v) (
              either (n == 27) (keep v) (
                either (in_range 30 37 n) (keep v) (
                  either (in_range 90 97 n) (keep v) (
                    either (in_range 40 47 n) (keep v) (
                      either (in_range 100 107 n) (keep v)
                        (either (n == 39) (keep v) (either (n == 49) (keep v) (keep v)))))))))))))

sgr_indexed-IsValid :
    (s : Screen) → IsValid s → (fg : Bool) (params : List ℕ) → IsValid ((sgr_indexed s fg params).0)
unfolding sgr_indexed
sgr_indexed-IsValid s v fg [] = v
sgr_indexed-IsValid s v fg (n ∷ rest) = set_pen-IsValid s v fg _

sgr_rgb-IsValid :
    (s : Screen) → IsValid s → (fg : Bool) (params : List ℕ) → IsValid ((sgr_rgb s fg params).0)
unfolding sgr_rgb
sgr_rgb-IsValid s v fg [] = v
sgr_rgb-IsValid s v fg (r ∷ []) = v
sgr_rgb-IsValid s v fg (r ∷ g ∷ []) = v
sgr_rgb-IsValid s v fg (r ∷ g ∷ b ∷ rest) = set_pen-IsValid s v fg _

sgr_extended-IsValid :
    (s : Screen)
    → IsValid s
    → (fg : Bool) (params : List ℕ) → IsValid ((sgr_extended s fg params).0)
unfolding sgr_extended
sgr_extended-IsValid s v fg [] = v
sgr_extended-IsValid s v fg (m ∷ rest) =
    branch (m == 5) (λ (r : Screen × List ℕ). IsValid (r.0)) (sgr_indexed-IsValid s v fg rest)
      (branch (m == 2) (λ (r : Screen × List ℕ). IsValid (r.0)) (sgr_rgb-IsValid s v fg rest) v)

sgr_round-IsValid :
    (s : Screen) → IsValid s → (n : ℕ) (rest : List ℕ) → IsValid ((sgr_round s n rest).0)
unfolding sgr_round
sgr_round-IsValid s v n rest =
    branch (n == 38 || n == 48) (λ (r : Screen × List ℕ). IsValid (r.0))
      (sgr_extended-IsValid s v (n == 38) rest) (sgr_one-Keeps s v n).valid

sgr_loop-IsValid :
    (fuel : ℕ) (s : Screen) → IsValid s → (params : List ℕ) → IsValid (sgr_loop fuel s params)
unfolding sgr_loop
sgr_loop-IsValid zero s v params = v
sgr_loop-IsValid (suc fuel) s v [] = v
sgr_loop-IsValid (suc fuel) s v (n ∷ rest) =
    sgr_loop-IsValid fuel ((sgr_round s n rest).0) (sgr_round-IsValid s v n rest)
      ((sgr_round s n rest).1)

pub apply_sgr-IsValid : (s : Screen) → IsValid s → (params : List ℕ) → IsValid (apply_sgr s params)
unfolding apply_sgr
apply_sgr-IsValid s v [] = sgr_loop-IsValid 1 s v _
apply_sgr-IsValid s v (n ∷ rest) = sgr_loop-IsValid (length (n ∷ rest)) s v (n ∷ rest)
