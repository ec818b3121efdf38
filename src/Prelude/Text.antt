-- ===== src/Prelude/Text.antt =====
-- Equality of texts, as a decision.
use Prim.Native.String.{String}
use mathlib.Core.Path.{◌≡◌, refl}
use mathlib.Core.Bool.{Bool, true, false}
use mathlib.Core.Logic.{ite}
use text.Mathlib.Text.{◌==◌ as str_eq}
use text.Mathlib.TextEquality.{eq_iff}

unfoldable pub string_discrete : Discrete String
string_discrete s t = go (str_eq s t) refl
  where
    differ : {b : Bool} → b ≡ true → b ≡ false → ⊥
    differ h k = cc

    go : (b : Bool) → str_eq s t ≡ b → Dec (s ≡ t)
    go true h = yes ((eq_iff s t).0 h)
    go false h = no (λ p. differ ((eq_iff s t).1 p) h)

-- `==` of texts
abbrev pub same_text : String → String → Bool
same_text s t = ite (string_discrete s t) true false

-- to tell two literals apart
pub str_eq→≢ : (s t : String) → str_eq s t ≡ false → ¬ (s ≡ t)
str_eq→≢ s t h p = cc ((eq_iff s t).1 p)
