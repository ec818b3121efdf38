-- ===== src/Transcript/Index.antt =====
-- The ledger's index of ids, and that storing an event keeps it.
use rill.Prelude.{
  ℕ, ◌≡◌, ◌≢◌, inl, inr, refl, sym, ap, subst, ◌∙◌, [], ◌∷◌, ◌++◌, Option, none, some, String,
  string_discrete, ite, arith, length, get_elem?, get_elem?-append_left, get_elem?-snoc,
  get_elem?-snoc_cases, lookup, lookup-insert,
}
use rill.Transcript.Event.{SemanticEvent}
use rill.Transcript.Ledger.{TranscriptLedger, with_max_events, commit}

abbrev pub lookup_id : TranscriptLedger → String → Option ℕ
lookup_id l k = lookup string_discrete k l.by_id

-- `by_id` maps exactly the ids of the events, each to its event's index.
pub record IsIndexed (l : TranscriptLedger) : Type 0 where
  pub known :
      (k : String) (i : ℕ)
      → lookup_id l k ≡ some i
      → (s : SemanticEvent) × (get_elem? l.events i ≡ some s) × (s.event_id ≡ k)
  pub stored :
      (i : ℕ) (s : SemanticEvent) → get_elem? l.events i ≡ some s → lookup_id l s.event_id ≡ some i

pub with_max_events-IsIndexed : (n : ℕ) → IsIndexed (with_max_events n)
unfolding with_max_events lookup
with_max_events-IsIndexed n = record { known = λ k i e. cc; stored = λ i s e. cc }

lookup-commit :
    (l : TranscriptLedger) (e : SemanticEvent) (k : String)
    → lookup_id (commit l e) k
      ≡ ite (string_discrete e.event_id k) (some (length l.events)) (lookup_id l k)
unfolding commit
lookup-commit l e k = lookup-insert string_discrete k e.event_id (length l.events) l.by_id

events-commit :
    (l : TranscriptLedger) (e : SemanticEvent) → (commit l e).events ≡ l.events ++ e ∷ []
unfolding commit
events-commit l e = refl

module _ (l : TranscriptLedger) (e : SemanticEvent) (v : IsIndexed l) where
  known-commit :
      (k : String) (i : ℕ)
      → ite (string_discrete e.event_id k) (some (length l.events)) (lookup_id l k) ≡ some i
      → (s : SemanticEvent) × (get_elem? (l.events ++ e ∷ []) i ≡ some s) × (s.event_id ≡ k)
  known-commit k i h = elim (string_discrete e.event_id k) [
    | yes same ↦
        let at : length l.events ≡ i = ground arith in
        (
          e,
          subst (λ n. get_elem? (l.events ++ e ∷ []) n ≡ some e) at (get_elem?-snoc l.events e),
          same,
        )
    | no other ↦
        let old : lookup_id l k ≡ some i = ground arith in
        let (s, g, q) = v.known k i old in (s, get_elem?-append_left l.events (e ∷ []) i g, q)
  ]

  stored-commit :
      (i : ℕ) (s : SemanticEvent)
      → lookup_id l e.event_id ≡ none
      → get_elem? (l.events ++ e ∷ []) i ≡ some s
      → ite
          (string_discrete e.event_id s.event_id)
          (some (length l.events))
          (lookup_id l s.event_id)
        ≡ some i
  stored-commit i s fresh h = elim (get_elem?-snoc_cases l.events e i h) [
    | inl old ↦
        let at = v.stored i s old in
        let other : e.event_id ≢ s.event_id = λ q. cc (ap (lookup_id l) q, fresh, at) in
        ground arith
    | inr (at, q) ↦
        let same : e.event_id ≡ s.event_id = ap (λ (x : SemanticEvent). x.event_id) q in
        ground arith
  ]

  pub commit-IsIndexed : lookup_id l e.event_id ≡ none → IsIndexed (commit l e)
  unfolding commit
  commit-IsIndexed fresh = record {
    known = λ k i h. known-commit k i (sym (lookup-commit l e k) ∙ h);
    stored = λ i s h. lookup-commit l e s.event_id ∙ stored-commit i s fresh h;
  }
