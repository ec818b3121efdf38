-- ===== src/Task/Gate.antt =====
-- Approvals and questions: what `decide` and `answer` do, and when a task is blocked.
use rill.Prelude.{
  ℕ, ◌<◌, ◌≡◌, inl, inr, refl, sym, ap, subst, Bool, true, false, not, List, [], ◌∷◌, ◌++◌, Option,
  none, some, Option-cases, ℕ_discrete, arith, insert, lookup-insert, find, modify_first,
  find-append, ok, All, AllPairs,
}
use mathlib.Core.Option
use rill.Task.Section.{Section, SectionKind, Decision, approval, question, result}
use rill.Task.State.{
  Task, Changed, has_index, section_at, new_section, append, write, shut, close, is_gate, last_gate,
  answered_by, any_answers, has_answer, gate_open, is_blocked, decide, answer, answer_text,
  decision_for, is_some,
}
use rill.Task.Valid.{Earlier, find-modify_first}

-- the gate's index and kind
abbrev pub gate : List Section → Option (ℕ × SectionKind)
gate ss = Option.map (λ (s : Section). (s.index, s.kind)) (last_gate ss)

pub gate-modify_first :
    (i : ℕ) (f : Section → Section)
    → ((s : Section) → ((f s).index ≡ s.index) × ((f s).kind ≡ s.kind))
    → (ss : List Section) → gate (modify_first (has_index i) f ss) ≡ gate ss
unfolding last_gate modify_first
gate-modify_first i f k [] = refl
gate-modify_first i f k (s ∷ ss) = ground (arith, k s, gate-modify_first i f k ss)

pub gate-append :
    (ss : List Section) (s : Section) → is_gate s.kind ≡ false → gate (ss ++ s ∷ []) ≡ gate ss
unfolding last_gate
gate-append [] s h = ground arith
gate-append (x ∷ ss) s h = ground (arith, gate-append ss s h)

-- whether the task is blocked, by its gate
abbrev pub blocked_by : Task → Option (ℕ × SectionKind) → Bool
blocked_by t none = false
blocked_by t (some (i, approval)) = not (is_some (decision_for t i))
blocked_by t (some (i, question)) = not (has_answer t i)
blocked_by t (some (i, _)) = false

pub is_blocked_lem : (t : Task) → is_blocked t ≡ blocked_by t (gate t.sections)
unfolding is_blocked gate_open
is_blocked_lem t = go (last_gate t.sections)
  where
    go :
        (o : Option Section)
        → (elim o [ none ↦ false | some s ↦ gate_open t s s.kind ])
          ≡ blocked_by t (Option.map (λ (s : Section). (s.index, s.kind)) o)
    go none = refl
    go (some s) = ground arith

abbrev pub decided_task : Task → ℕ → Decision → Task
decided_task t i d = write (record t { decisions = insert ℕ_discrete i d t.decisions }) i shut

pub decide_found :
    (t : Task) (i : ℕ) (d : Decision) {s : Section}
    → section_at t i ≡ some s
    → s.kind ≡ approval
    → decide t i d ≡ (decided_task t i d, ok tt)
unfolding decide close
decide_found t i d e k = ground arith

abbrev pub answered_task : Task → ℕ → List ℕ → Task
answered_task t q text = write (append t result (answer_text q text)) q shut

pub section_at-append_left :
    (t : Task) (kind : SectionKind) (content : List ℕ) (i : ℕ) {s : Section}
    → section_at t i ≡ some s
    → section_at (append t kind content) i ≡ some s
unfolding append
section_at-append_left t kind content i e =
    let e' = find-append (has_index i) t.sections (new_section t.next_index kind content ∷ []) in
    ground (arith, e')

pub answer_found :
    (t : Task) (q : ℕ) (text : List ℕ) {s : Section}
    → section_at t q ≡ some s
    → s.kind ≡ question
    → answer t q text ≡ (answered_task t q text, ok t.next_index)
unfolding answer close
answer_found t q text e k =
    let e' = section_at-append_left t result (answer_text q text) q e in ground arith

-- the section that is closed
pub section_at-shut :
    (t : Task) (i : ℕ) {s : Section}
    → section_at t i ≡ some s
    → section_at (write t i shut) i ≡ some (shut s)
section_at-shut t i {s} e =
    let w = find-modify_first i shut (λ s. refl) i t.sections in ground arith

pub any_answers-append :
    (q : ℕ) (ss : List Section) (s : Section)
    → answered_by q s ≡ true
    → any_answers q (ss ++ s ∷ []) ≡ true
unfolding any_answers
any_answers-append q [] s h = ground arith
any_answers-append q (x ∷ ss) s h = ground (arith, any_answers-append q ss s h)

pub any_answers-shut :
    (q i : ℕ) (ss : List Section)
    → any_answers q (modify_first (has_index i) shut ss) ≡ any_answers q ss
unfolding any_answers modify_first
any_answers-shut q i [] = refl
any_answers-shut q i (s ∷ ss) = ground (arith, any_answers-shut q i ss)

-- `decide` on an approval returns, records the decision and closes the section.
pub decide_lem :
    (t : Task) (i : ℕ) (d : Decision) (s : Section)
    → section_at t i ≡ some s
    → s.kind ≡ approval
    → let (after, returned) = decide t i d in
      (returned ≡ ok tt) × (decision_for after i ≡ some d) × (section_at after i ≡ some (shut s))
unfolding decision_for
decide_lem t i d s e k =
    let found = decide_found t i d e k in
    let closed = section_at-shut t i e in
    let recorded = lookup-insert ℕ_discrete i i d t.decisions in
    subst
      (λ (r : Changed (Unit {0})).
        (r.1 ≡ ok tt) × (decision_for r.0 i ≡ some d) × (section_at r.0 i ≡ some (shut s)))
      (sym found) (refl, ground arith, closed)

All-Later-find :
    (i : ℕ) (ss : List Section)
    → All (λ (s : Section). i < s.index) ss
    → find (has_index i) ss ≡ none
unfolding find
All-Later-find i [] h = refl
All-Later-find i (s ∷ ss) h = let e = All-Later-find i ss h.1 in ground arith

find_below :
    (x : Section) (ss : List Section) {s : Section}
    → All (λ (y : Section). x.index < y.index) ss
    → find (has_index s.index) ss ≡ some s
    → find (has_index s.index) (x ∷ ss) ≡ some s
unfolding find
find_below x ss {s} h e = elim (ℕ_discrete x.index s.index) [
  | yes q ↦
      let absent = All-Later-find x.index ss h in
      let present = ap (λ n. find (has_index n) ss) q in cc
  | no n ↦ ground arith
]

-- the gate is the section of its index
pub last_gate-find :
    (ss : List Section) {s : Section}
    → AllPairs Earlier ss
    → last_gate ss ≡ some s
    → find (has_index s.index) ss ≡ some s
unfolding last_gate find
last_gate-find [] h e = cc
last_gate-find (x ∷ ss) {s} h e = elim (Option-cases (last_gate ss)) [
  | inl none_later ↦ ground arith
  | inr (g, later) ↦
      let same : g ≡ s = ground arith in
      find_below x ss h.0 (
        subst (λ (y : Section). find (has_index y.index) ss ≡ some y) same
          (last_gate-find ss h.1 later))
]
