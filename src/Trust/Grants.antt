-- ===== src/Trust/Grants.antt =====
-- trust.rs: what any run of grants and revocations leaves trusted.
use rill.Prelude.{
  ℕ, ◌≡◌, ◌↔◌, refl, ◌∙◌, true, ==→eq, ==-refl, Option, none, some, List, [], ◌∷◌, ite, if_pos,
  if_neg, lookup, lookup-insert, lookup-remove,
}
use mathlib.Core.Option.{some-injective}
use rill.Trust.{content_digest, trust, revoke, is_trusted, matches}

pub data Change (P : Type 0) : Type 0 where
  grant : P → List ℕ → Change P
  withdraw : P → Change P

abbrev pub digest_of : Option (List ℕ) → Option ℕ
digest_of none = none
digest_of (some content) = some (content_digest content)

module _ {P : Type 0} (d : Discrete P) where
  -- the store after the changes, the first one of the list last
  unfoldable pub changed : List (Change P) → List (P × ℕ)
  changed [] = []
  changed (grant path content ∷ cs) = trust d path content (changed cs)
  changed (withdraw path ∷ cs) = revoke d path (changed cs)

  -- the content of the last grant of a path, unless it was withdrawn since
  unfoldable pub last_grant : P → List (Change P) → Option (List ℕ)
  last_grant path [] = none
  last_grant path (grant q content ∷ cs) = ite (d q path) (some content) (last_grant path cs)
  last_grant path (withdraw q ∷ cs) = ite (d q path) none (last_grant path cs)

  lookup-changed :
      (path : P) (cs : List (Change P))
      → lookup d path (changed cs) ≡ digest_of (last_grant path cs)
  unfolding changed last_grant lookup trust revoke
  lookup-changed path [] = refl
  lookup-changed path (grant q content ∷ cs) =
      lookup-insert d path q (content_digest content) (changed cs) ∙ elim (d q path) [
        | yes p ↦ rw (if_pos _ p, if_pos _ p)
        | no p ↦ rw (if_neg _ p, if_neg _ p) (lookup-changed path cs)
      ]
  lookup-changed path (withdraw q ∷ cs) = lookup-remove d path q (changed cs) ∙ elim (d q path) [
    | yes p ↦ rw (if_pos _ p, if_pos _ p)
    | no p ↦ rw (if_neg _ p, if_neg _ p) (lookup-changed path cs)
  ]

-- a digest that is kept for the content of a grant
granted_digest :
    (o : Option (List ℕ)) (content : List ℕ)
    → (matches (digest_of o) content ≡ true) ↔ (
        (granted : List ℕ) × (o ≡ some granted) × (content_digest granted ≡ content_digest content))
granted_digest none content = (λ e. absurd cc, λ (granted, e, same). absurd cc)
granted_digest (some granted) content = (
  λ e. (granted, refl, ==→eq (content_digest granted) (content_digest content) e),
  λ (other, e, same).
      let is_other : granted ≡ other = some-injective granted other e in
      rw (is_other, same) (==-refl (content_digest content)),
)

-- After any run of grants and revocations, `is_trusted` answers yes exactly if the last of them on
-- the path was a grant, of a content that has the digest of the content that is asked about.
pub is_trusted-changed :
    {P : Type 0} (d : Discrete P) (path : P) (content : List ℕ) (cs : List (Change P))
    → (is_trusted d path content (changed d cs) ≡ true) ↔ (
        (granted : List ℕ) × (last_grant d path cs ≡ some granted)
        × (content_digest granted ≡ content_digest content))
unfolding is_trusted
is_trusted-changed d path content cs =
    rw (lookup-changed d path cs) (granted_digest (last_grant d path cs) content)
