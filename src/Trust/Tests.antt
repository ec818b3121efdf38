-- ===== src/Trust/Tests.antt =====
-- The store at a concrete input.
use rill.Prelude.{ℕ, ◌≡◌, ◌↔◌, true, some, List, [], ◌∷◌, string_discrete, String}
use rill.Trust.{is_trusted, content_digest}
use rill.Trust.Grants.{Change, grant, withdraw, changed, last_grant, is_trusted-changed}

-- two files are trusted, and one of them not any longer
abbrev three_changes : List (Change String)
three_changes = withdraw "b" ∷ grant "a" (b'x' ∷ []) ∷ grant "b" (b'y' ∷ []) ∷ []

is_trusted-changed_example :
    (is_trusted string_discrete "a" (b'x' ∷ []) (changed string_discrete three_changes) ≡ true) ↔ (
      (granted : List ℕ) × (last_grant string_discrete "a" three_changes ≡ some granted)
      × (content_digest granted ≡ content_digest (b'x' ∷ [])))
is_trusted-changed_example = is_trusted-changed string_discrete "a" (b'x' ∷ []) three_changes
