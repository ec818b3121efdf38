-- ===== src/Task/State.antt =====
-- `Task`, `PromptQueue` and `ReplayAdapter`. The section counter is a `u64` that is advanced by one,
-- written as a plain sum. `decisions` is an association list.
use rill.Prelude.{
  ℕ, ◌+◌, Bool, true, false, not, List, [], ◌∷◌, ◌++◌, Option, none, some, String, ℕ_discrete, leb,
  ◌==◌, if◌then◌else◌, lookup, insert, filter, find, modify_first, Result, ok, err,
}
use rill.Task.Marker.{marker, starts_with}
use rill.Task.Section.{
  SectionKind, approval, question, result, from_tag, Section, TaskError, unknown_section,
  section_closed, still_blocked, not_an_approval, not_a_question, Decision,
}

pub record Task : Type 0 where
  pub id : ℕ
  pub next_index : ℕ
  pub sections : List Section
  pub decisions : List (ℕ × Decision)

unfoldable pub new : ℕ → Task
new id = record { id = id; next_index = 0; sections = []; decisions = [] }

abbrev pub has_index : ℕ → Section → Bool
has_index i s = s.index == i

-- `self.sections.iter().find(|s| s.index == index)`
abbrev pub section_at : Task → ℕ → Option Section
section_at t i = find (has_index i) t.sections

abbrev pub new_section : ℕ → SectionKind → List ℕ → Section
new_section index kind content = record {
  index = index;
  kind = kind;
  content = content;
  closed = false;
}

-- the task after `append`, which returns the index before it
unfoldable pub append : Task → SectionKind → List ℕ → Task
append t kind content = record t {
  next_index = t.next_index + 1;
  sections = t.sections ++ new_section t.next_index kind content ∷ [];
}

-- the task after an operation, and what the operation returns
abbrev pub Changed : Type 0 → Type 0
Changed A = Task × Result TaskError A

-- `iter_mut().find(…)`, and a write to what is found
abbrev pub write : Task → ℕ → (Section → Section) → Task
write t i f = record t { sections = modify_first (has_index i) f t.sections }

abbrev pub shut : Section → Section
shut s = record s { closed = true }

unfoldable pub close : Task → ℕ → Changed (Unit {0})
close t i = elim (section_at t i) [
  | none ↦ (t, err unknown_section)
  | some s ↦ (write t i shut, ok tt)
]

abbrev pub set_content : List ℕ → Section → Section
set_content content s = record s { content = content }

unfoldable pub mutate_content : Task → ℕ → List ℕ → Changed (Unit {0})
mutate_content t i content = elim (section_at t i) [
  | none ↦ (t, err unknown_section)
  | some s ↦ if s.closed then (t, err section_closed) else (write t i (set_content content), ok tt)
]

abbrev pub is_approval : SectionKind → Bool
is_approval approval = true
is_approval _ = false

abbrev pub is_question : SectionKind → Bool
is_question question = true
is_question _ = false

-- `matches!(s.kind, SectionKind::Approval | SectionKind::Question)`
abbrev pub is_gate : SectionKind → Bool
is_gate approval = true
is_gate question = true
is_gate _ = false

-- the most recent gate, `iter().rev().find(…)`
unfoldable pub last_gate : List Section → Option Section
last_gate [] = none
last_gate (s ∷ ss) = elim (last_gate ss) [
  | some g ↦ some g
  | none ↦ if is_gate s.kind then some s else none
]

abbrev pub answered_by : ℕ → Section → Bool
answered_by q s = starts_with (marker q) s.content

unfoldable pub any_answers : ℕ → List Section → Bool
any_answers q [] = false
any_answers q (s ∷ ss) = if answered_by q s then true else any_answers q ss

unfoldable pub has_answer : Task → ℕ → Bool
has_answer t q = any_answers q t.sections

unfoldable pub decision_for : Task → ℕ → Option Decision
decision_for t i = lookup ℕ_discrete i t.decisions

abbrev pub is_some : Option Decision → Bool
is_some none = false
is_some (some d) = true

unfoldable pub gate_open : Task → Section → SectionKind → Bool
gate_open t s approval = not (is_some (decision_for t s.index))
gate_open t s question = not (has_answer t s.index)
gate_open t s _ = false

unfoldable pub is_blocked : Task → Bool
is_blocked t = elim (last_gate t.sections) [ none ↦ false | some s ↦ gate_open t s s.kind ]

unfoldable pub decide : Task → ℕ → Decision → Changed (Unit {0})
decide t i d = elim (section_at t i) [
  | none ↦ (t, err unknown_section)
  | some s ↦
      if is_approval s.kind
      then close (record t { decisions = insert ℕ_discrete i d t.decisions }) i
      else (t, err not_an_approval)
]

-- `format!("[answers #{question_index}] {}", answer)`
unfoldable pub answer_text : ℕ → List ℕ → List ℕ
answer_text q text = marker q ++ b' ' ∷ text

-- `self.close(question_index)?; Ok(idx)`
abbrev pub returning : ℕ → Changed (Unit {0}) → Changed ℕ
returning idx (t, ok _) = (t, ok idx)
returning idx (t, err e) = (t, err e)

unfoldable pub answer : Task → ℕ → List ℕ → Changed ℕ
answer t q text = elim (section_at t q) [
  | none ↦ (t, err unknown_section)
  | some s ↦
      if is_question s.kind
      then returning t.next_index (close (append t result (answer_text q text)) q)
      else (t, err not_a_question)
]

abbrev pub index_after : ℕ → List Section → ℕ
index_after n [] = n
index_after n (s ∷ ss) = index_after (s.index + 1) ss

unfoldable pub filter_keys : ℕ → List (ℕ × Decision) → List (ℕ × Decision)
filter_keys cut [] = []
filter_keys cut ((k, d) ∷ ds) =
    if leb k cut then (k, d) ∷ filter_keys cut ds else filter_keys cut ds

abbrev pub is_up_to : ℕ → Section → Bool
is_up_to cut s = leb s.index cut

unfoldable pub fork : Task → ℕ → ℕ → Task
fork t new_id cut =
    let kept = filter (is_up_to cut) t.sections in
    record {
      id = new_id;
      next_index = index_after 0 kept;
      sections = kept;
      decisions = filter_keys cut t.decisions;
    }

-- `PromptQueue::try_send` on the queue's items
unfoldable pub try_send : List (List ℕ) → Task → List (List ℕ) × Result TaskError (Option (List ℕ))
try_send items t =
    if is_blocked t
    then (items, err still_blocked)
    else (elim items [ [] ↦ ([], ok none) | x ∷ xs ↦ (xs, ok (some x)) ])

-- `PromptQueue::push`
abbrev pub push : List (List ℕ) → List ℕ → List (List ℕ)
push items prompt = items ++ prompt ∷ []

pub record ReplayEvent : Type 0 where
  pub tag : String
  pub content : List ℕ

-- `ReplayAdapter::drive` on the adapter's events: the task after it, and the count it returns; it
-- leaves the adapter empty.
unfoldable pub drive : List ReplayEvent → Task → Task × ℕ
drive [] t = (t, 0)
drive (ev ∷ evs) t = let (t', n) = drive evs (append t (from_tag ev.tag) ev.content) in (t', n + 1)
