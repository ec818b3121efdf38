-- ===== src/Trust.antt =====
-- crates/rill-orchestrate/src/trust.rs: the store of trusted files. A path is of any type that tells
-- its values apart, as the keys of the source's map are.
pub mod Grants
mod Tests
use rill.Prelude.{ℕ, ◌==◌, Bool, false, Option, none, some, List, [], ◌∷◌, lookup, insert, remove}
use rill.Screen.Checkpoint.Hash.{fnv_offset, fnv_step}

-- the loop of `content_digest`
unfoldable pub digest_from : ℕ → List ℕ → ℕ
digest_from hash [] = hash
digest_from hash (b ∷ bytes) = digest_from (fnv_step hash b) bytes

unfoldable pub content_digest : List ℕ → ℕ
content_digest bytes = digest_from fnv_offset bytes

-- whether the digest of a grant is that of the content
abbrev pub matches : Option ℕ → List ℕ → Bool
matches none content = false
matches (some digest) content = digest == content_digest content

module _ {P : Type 0} (d : Discrete P) where
  unfoldable pub trust : P → List ℕ → List (P × ℕ) → List (P × ℕ)
  trust path content store = insert d path (content_digest content) store

  unfoldable pub revoke : P → List (P × ℕ) → List (P × ℕ)
  revoke path store = remove d path store

  unfoldable pub is_trusted : P → List ℕ → List (P × ℕ) → Bool
  is_trusted path content store = matches (lookup d path store) content
