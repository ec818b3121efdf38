-- ===== src/Transcript/Order.antt =====
-- The order of the ledger's events, and that `append` keeps it.
use rill.Prelude.{
  ℕ, ◌≤◌, ◌<◌, ◌≡◌, refl, [], ◌∷◌, Option, none, some, arith, length, length-append, All, AllPairs,
  All-map, All-append, AllPairs-snoc, ok,
}
use rill.Transcript.Event.{SemanticEvent, terminal_range}
use rill.Transcript.Ledger.{
  TranscriptLedger, with_max_events, check_capacity, check_sequence, check_generation,
  check_overlap, check_terminal, commit,
}

-- a range whose start is below its end, as `SemanticEvent::new` makes it
abbrev pub IsProper : Option (ℕ × ℕ) → Type 0
IsProper none = Unit
IsProper (some (start, end)) = start < end

-- Two terminal ranges, in the order of the ledger: one execution, and no byte twice.
abbrev pub RangesFollow : SemanticEvent → SemanticEvent → Option (ℕ × ℕ) → Option (ℕ × ℕ) → Type 0
RangesFollow x y (some (_, end)) (some (start, _)) =
    (x.execution_generation ≡ y.execution_generation) × (end ≤ start)
RangesFollow x y _ _ = Unit

-- `x` stands before `y` in the ledger.
abbrev pub Before : SemanticEvent → SemanticEvent → Type 0
Before x y =
    (x.sequence < y.sequence)
    × RangesFollow x y (terminal_range x.payload) (terminal_range y.payload)

abbrev pub AtMost : ℕ → Option ℕ → Type 0
AtMost n none = ⊥
AtMost n (some m) = n ≤ m

abbrev pub RangeCovered : TranscriptLedger → SemanticEvent → Option (ℕ × ℕ) → Type 0
RangeCovered l x none = Unit
RangeCovered l x (some (_, end)) =
    (l.execution_generation ≡ some x.execution_generation) × AtMost end l.last_terminal_end

-- The cursors of the ledger are past the event.
abbrev pub Covered : TranscriptLedger → SemanticEvent → Type 0
Covered l x = AtMost x.sequence l.last_sequence × RangeCovered l x (terminal_range x.payload)

pub record IsOrdered (l : TranscriptLedger) : Type 0 where
  pub pairs : AllPairs Before l.events
  pub covered : All (Covered l) l.events
  pub room : 1 ≤ l.max_events
  pub within : length l.events ≤ l.max_events

pub with_max_events-IsOrdered : (n : ℕ) → IsOrdered (with_max_events n)
unfolding with_max_events
with_max_events-IsOrdered n = record {
  pairs = tt;
  covered = tt;
  room = omega arith;
  within = omega arith;
}

-- the checks of `append` that an event has passed
pub record Passes (l : TranscriptLedger) (e : SemanticEvent) : Type 0 where
  pub capacity : check_capacity l ≡ ok tt
  pub sequence : check_sequence l.last_sequence e.sequence ≡ ok tt
  pub terminal : check_terminal l e (terminal_range e.payload) ≡ ok tt

module _ {l : TranscriptLedger} {e : SemanticEvent} (c : Passes l e) where
  sequence_before : (n : ℕ) → AtMost n l.last_sequence → n < e.sequence
  unfolding check_sequence
  sequence_before n h = let s = c.sequence in ground arith

  ranges_before :
      (x : SemanticEvent) (r s : Option (ℕ × ℕ))
      → check_terminal l e s ≡ ok tt
      → RangeCovered l x r
      → RangesFollow x e r s
  unfolding check_terminal check_generation check_overlap
  ranges_before x none s h k = tt
  ranges_before x (some r) none h k = tt
  ranges_before x (some r) (some s) h k = ground arith

  passed-Before : (x : SemanticEvent) → Covered l x → Before x e
  passed-Before x (s, r) = (
    sequence_before x.sequence s,
    ranges_before x (terminal_range x.payload) (terminal_range e.payload) c.terminal r,
  )

  -- the cursors after the event, for an earlier one and for itself
  ranges_after :
      (x : SemanticEvent) (r s : Option (ℕ × ℕ))
      → terminal_range e.payload ≡ s
      → check_terminal l e s ≡ ok tt
      → IsProper s
      → RangeCovered l x r
      → RangeCovered (commit l e) x r
  unfolding commit check_terminal check_generation check_overlap
  ranges_after x none s q h p k = tt
  ranges_after x (some r) none q h p k = ground arith
  ranges_after x (some r) (some s) q h p k = ground arith

  range_itself : (s : Option (ℕ × ℕ)) → terminal_range e.payload ≡ s → RangeCovered (commit l e) e s
  unfolding commit
  range_itself none q = tt
  range_itself (some s) q = ground arith

  sequence_after : (n : ℕ) → AtMost n l.last_sequence → AtMost n (commit l e).last_sequence
  unfolding commit
  sequence_after n h = let s = sequence_before n h in omega arith

  still_Covered :
      IsProper (terminal_range e.payload)
      → (x : SemanticEvent) → Covered l x
      → Covered (commit l e) x
  still_Covered p x (s, r) = (
    sequence_after x.sequence s,
    ranges_after x (terminal_range x.payload) (terminal_range e.payload) refl c.terminal p r,
  )

  itself_Covered : Covered (commit l e) e
  unfolding commit
  itself_Covered = (omega arith, range_itself (terminal_range e.payload) refl)

  pub commit-IsOrdered : IsProper (terminal_range e.payload) → IsOrdered l → IsOrdered (commit l e)
  unfolding commit check_capacity
  commit-IsOrdered p v = record {
    pairs =
        AllPairs-snoc Before l.events e v.pairs
          (All-map (Covered l) (λ x. Before x e) l.events passed-Before v.covered);
    covered =
        All-append (Covered (commit l e)) l.events (e ∷ [])
          (All-map (Covered l) (Covered (commit l e)) l.events (still_Covered p) v.covered)
          (itself_Covered, tt);
    room = ground (arith, v.room);
    within = ground (arith, c.capacity, length-append l.events (e ∷ []));
  }
