-- ===== src/Transcript/Identity.antt =====
-- What `append` does in each case.
use rill.Prelude.{
  ℕ, ◌≡◌, ◌≢◌, ◌⊎◌, inl, inr, refl, sym, ap, subst, ◌∙◌, none, some, Option-cases, ite, if_pos,
  if_neg, length, get_elem?, get_elem?-snoc, ok, err, Result-cases, bind-eq-ok, ◌>>◌,
}
use rill.Transcript.Event.{
  SemanticEvent, SemanticEvent-discrete, TranscriptError, conflicting_event_id, terminal_range,
}
use rill.Transcript.Ledger.{
  TranscriptLedger, Check, with_max_events, check_capacity, check_sequence, check_terminal, commit,
  committed, append_new, append_again, append_at, append,
}
use rill.Transcript.Order.{Passes, IsProper, IsOrdered, commit-IsOrdered, with_max_events-IsOrdered}
use rill.Transcript.Index.{lookup_id, IsIndexed, with_max_events-IsIndexed, commit-IsIndexed}

-- What `append` does with the event: a replay of a stored event, a conflict with a stored event of
-- the same id, a new event that is stored, or a new event that is refused.
pub data Outcome (l : TranscriptLedger) (e : SemanticEvent) : Type 0 where
  replayed : (i : ℕ) → get_elem? l.events i ≡ some e → append l e ≡ some (l, ok tt) → Outcome l e
  conflict :
      (i : ℕ) (s : SemanticEvent)
      → get_elem? l.events i ≡ some s
      → s.event_id ≡ e.event_id
      → s ≢ e
      → append l e ≡ some (l, err (conflicting_event_id e.event_id))
      → Outcome l e
  stored_new :
      lookup_id l e.event_id ≡ none
      → Passes l e
      → append l e ≡ some (commit l e, ok tt)
      → Outcome l e
  refused_new :
      lookup_id l e.event_id ≡ none
      → (x : TranscriptError) → append l e ≡ some (l, err x)
      → Outcome l e

checks : TranscriptLedger → SemanticEvent → Check
checks l e =
    check_capacity l
    >> check_sequence l.last_sequence e.sequence
    >> check_terminal l e (terminal_range e.payload)

checks-Passes : (l : TranscriptLedger) (e : SemanticEvent) → checks l e ≡ ok tt → Passes l e
unfolding checks
checks-Passes l e h =
    let (_, early, terminal) =
      bind-eq-ok (check_capacity l >> check_sequence l.last_sequence e.sequence)
        (λ _. check_terminal l e (terminal_range e.payload)) h in
    let (_, capacity, sequence) =
      bind-eq-ok (check_capacity l) (λ _. check_sequence l.last_sequence e.sequence) early in
    record { capacity = capacity; sequence = sequence; terminal = terminal }

new_event-Outcome :
    (l : TranscriptLedger) (e : SemanticEvent) → lookup_id l e.event_id ≡ none → Outcome l e
unfolding append append_at append_new checks
new_event-Outcome l e fresh = elim (Result-cases (checks l e)) [
  | inl (_, h) ↦
      stored_new fresh (checks-Passes l e h)
        (ap (append_at l e) fresh ∙ ap (λ c. some (committed l e c)) h)
  | inr (x, h) ↦ refused_new fresh x (ap (append_at l e) fresh ∙ ap (λ c. some (committed l e c)) h)
]

old_event-Outcome :
    (l : TranscriptLedger) (e : SemanticEvent) (i : ℕ)
    → IsIndexed l
    → lookup_id l e.event_id ≡ some i
    → Outcome l e
unfolding append append_at append_again
old_event-Outcome l e i v h =
    let (s, g, q) = v.known e.event_id i h in
    let found = ap (append_at l e) h ∙ ap (append_again l e) g in
    elim (SemanticEvent-discrete s e) [
      | yes same ↦
          replayed i (g ∙ ap some same)
            (found ∙ ap some (if_pos (SemanticEvent-discrete s e) same _ _))
      | no other ↦
          conflict i s g q other (found ∙ ap some (if_neg (SemanticEvent-discrete s e) other _ _))
    ]

pub append-Outcome : (l : TranscriptLedger) (e : SemanticEvent) → IsIndexed l → Outcome l e
append-Outcome l e v = elim (Option-cases (lookup_id l e.event_id)) [
  | inl fresh ↦ new_event-Outcome l e fresh
  | inr (i, h) ↦ old_event-Outcome l e i v h
]

-- `IsOrdered`, with the index of ids
pub record IsValid (l : TranscriptLedger) : Type 0 where
  pub ordered : IsOrdered l
  pub indexed : IsIndexed l

pub with_max_events-IsValid : (n : ℕ) → IsValid (with_max_events n)
with_max_events-IsValid n = record {
  ordered = with_max_events-IsOrdered n;
  indexed = with_max_events-IsIndexed n;
}

-- `append` returns on a valid ledger, and leaves a valid ledger: sequences rise along it, terminal
-- ranges are of one execution and do not overlap, the index finds every event, and the capacity is
-- kept. A call that fails leaves the ledger as it was. The event's own range, if it has one, has its
-- start below its end.
pub append-IsValid :
    (l : TranscriptLedger) (e : SemanticEvent)
    → IsValid l
    → IsProper (terminal_range e.payload)
    → (l' : TranscriptLedger) × (c : Check) × (append l e ≡ some (l', c))
      × IsValid l'
      × ((c ≡ ok tt) ⊎ (l' ≡ l))
append-IsValid l e v p = elim (append-Outcome l e v.indexed) [
  | replayed i g h ↦ (l, ok tt, h, v, inl refl)
  | conflict i s g q n h ↦ (l, err (conflicting_event_id e.event_id), h, v, inr refl)
  | stored_new fresh passed h ↦ (
    commit l e,
    ok tt,
    h,
    record {
      ordered = commit-IsOrdered passed p v.ordered;
      indexed = commit-IsIndexed l e v.indexed fresh;
    },
    inl refl,
  )
  | refused_new fresh x h ↦ (l, err x, h, v, inr refl)
]

accepted_at :
    (l l' : TranscriptLedger) (e : SemanticEvent)
    → IsIndexed l
    → append l e ≡ some (l', ok tt)
    → (i : ℕ) × (get_elem? l'.events i ≡ some e) × IsIndexed l'
accepted_at l l' e v h = elim (append-Outcome l e v) [
  | replayed i g k ↦
      let same : l ≡ l' = cc in
      (
        i,
        subst (λ (m : TranscriptLedger). get_elem? m.events i ≡ some e) same g,
        subst IsIndexed same v,
      )
  | conflict i s g q n k ↦ cc
  | stored_new fresh passed k ↦
      let same : commit l e ≡ l' = cc in
      (
        length l.events,
        subst (λ (m : TranscriptLedger). get_elem? m.events (length l.events) ≡ some e) same
            (unfold commit in get_elem?-snoc l.events e),
        subst IsIndexed same (commit-IsIndexed l e v fresh),
      )
  | refused_new fresh x k ↦ cc
]

-- an event against the stored one of its id
append_stored :
    (l : TranscriptLedger) (e x : SemanticEvent) (i : ℕ)
    → IsIndexed l
    → get_elem? l.events i ≡ some e
    → x.event_id ≡ e.event_id
    → append l x
      ≡ some
          (ite (SemanticEvent-discrete e x) (l, ok tt) (l, err (conflicting_event_id x.event_id)))
unfolding append append_at append_again
append_stored l e x i v g q =
    ap (append_at l x) (ap (lookup_id l) q ∙ v.stored i e g) ∙ ap (append_again l x) g

-- An event that was accepted is accepted again with no change; an event that shares its id and
-- differs from it is refused, with no change either. The ledger is valid before.
pub append_twice :
    (l l' : TranscriptLedger) (e other : SemanticEvent)
    → IsValid l
    → append l e ≡ some (l', ok tt)
    → other.event_id ≡ e.event_id
    → other ≢ e
    → (append l' e ≡ some (l', ok tt))
      × (append l' other ≡ some (l', err (conflicting_event_id e.event_id)))
append_twice l l' e other v h q n =
    let (i, g, v') = accepted_at l l' e v.indexed h in
    (
      append_stored l' e e i v' g refl ∙ ap some (if_pos (SemanticEvent-discrete e e) refl _ _),
      append_stored l' e other i v' g q
          ∙ ap some (
              if_neg (SemanticEvent-discrete e other) (λ p. n (sym p)) _ _
              ∙ ap (λ k. (l', err (conflicting_event_id k))) q),
    )
