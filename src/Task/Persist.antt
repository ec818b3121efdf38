-- ===== src/Task/Persist.antt =====
-- The persistence of a task and its prompt queue. The toml library is a parameter: its writer, which
-- may fail, and its reader.
use rill.Prelude.{
  ℕ, ◌≡◌, ◌≢◌, refl, sym, ap, ap₂, subst, ◌∙◌, Bool, List, [], ◌∷◌, ◌++◌, append_assoc, append-nil,
  map, Option, none, some, String, string_discrete, ite, ℕ_discrete, insert, AllPairs, All, arith,
}
use rill.Task.Section.{
  SectionKind, from_tag, as_str, Section, ApprovalDecision, approved, rejected, cancelled, Decision,
}
use rill.Task.State.{Task, push}
use rill.Task.Replay.{from_tag-as_str}

pub record SectionEntry : Type 0 where
  pub index : ℕ
  pub kind : String
  pub content : List ℕ
  pub closed : Bool

pub record DecisionEntry : Type 0 where
  pub section_index : ℕ
  pub decision : String
  pub actor : String
  pub at_unix_ms : ℕ

pub record SnapshotDoc : Type 0 where
  pub id : ℕ
  pub next_index : ℕ
  pub section : List SectionEntry
  pub decision : List DecisionEntry
  pub queue : List (List ℕ)

unfoldable pub decision_to_str : ApprovalDecision → String
decision_to_str approved = "approved"
decision_to_str rejected = "rejected"
decision_to_str cancelled = "cancelled"

unfoldable pub decision_from_str : String → ApprovalDecision
decision_from_str s =
    ite (string_discrete s "approved") approved
      (ite (string_discrete s "rejected") rejected cancelled)

abbrev pub section_entry : Section → SectionEntry
section_entry s = record {
  index = s.index;
  kind = as_str s.kind;
  content = s.content;
  closed = s.closed;
}

abbrev pub entry_section : SectionEntry → Section
entry_section e = record {
  index = e.index;
  kind = from_tag e.kind;
  content = e.content;
  closed = e.closed;
}

abbrev pub decision_entry : ℕ × Decision → DecisionEntry
decision_entry (i, d) = record {
  section_index = i;
  decision = decision_to_str d.decision;
  actor = d.actor;
  at_unix_ms = d.at_unix_ms;
}

abbrev pub entry_decision : DecisionEntry → ℕ × Decision
entry_decision e = (
  e.section_index,
  record { decision = decision_from_str e.decision; actor = e.actor; at_unix_ms = e.at_unix_ms },
)

unfoldable pub snapshot : Task → List (List ℕ) → SnapshotDoc
snapshot t items = record {
  id = t.id;
  next_index = t.next_index;
  section = map section_entry t.sections;
  decision = map decision_entry t.decisions;
  queue = items;
}

-- `collect` into a `HashMap`, entry by entry
unfoldable pub collect : List (ℕ × Decision) → List DecisionEntry → List (ℕ × Decision)
collect m [] = m
collect m (e ∷ es) = collect (insert ℕ_discrete e.section_index (entry_decision e).1 m) es

-- the pushes of the queue's prompts, one by one
unfoldable pub push_all : List (List ℕ) → List (List ℕ) → List (List ℕ)
push_all items [] = items
push_all items (p ∷ ps) = push_all (push items p) ps

unfoldable pub restored : SnapshotDoc → Task × List (List ℕ)
restored doc = (
  record {
    id = doc.id;
    next_index = doc.next_index;
    sections = map entry_section doc.section;
    decisions = collect [] doc.decision;
  },
  push_all [] doc.queue,
)

-- the document for a text that cannot be read
abbrev pub blank : ℕ → SnapshotDoc
blank id = record { id = id; next_index = 0; section = []; decision = []; queue = [] }

abbrev pub unwrap_or {ℓ} : {A : Type ℓ} → A → Option A → A
unwrap_or d none = d
unwrap_or d (some a) = a

unfoldable pub persist_task_and_queue :
    (SnapshotDoc → Option (List ℕ)) → Task → List (List ℕ) → List ℕ
persist_task_and_queue to_toml t items = unwrap_or [] (to_toml (snapshot t items))

unfoldable pub restore_task_and_queue :
    (List ℕ → Option SnapshotDoc) → ℕ → List ℕ → Task × List (List ℕ)
restore_task_and_queue from_toml id text = restored (unwrap_or (blank id) (from_toml text))

decision_from_str-decision_to_str :
    (d : ApprovalDecision) → decision_from_str (decision_to_str d) ≡ d
unfolding decision_from_str decision_to_str string_discrete
decision_from_str-decision_to_str approved = refl
decision_from_str-decision_to_str rejected = refl
decision_from_str-decision_to_str cancelled = refl

sections_back : (ss : List Section) → map entry_section (map section_entry ss) ≡ ss
sections_back [] = refl
sections_back (s ∷ ss) =
    ap₂ (λ (k : SectionKind) (l : List Section). record s { kind = k } ∷ l) (from_tag-as_str s.kind)
      (sections_back ss)

push_all-append : (items ps : List (List ℕ)) → push_all items ps ≡ items ++ ps
unfolding push_all
push_all-append items [] = sym (append-nil items)
push_all-append items (p ∷ ps) = push_all-append (push items p) ps ∙ append_assoc items (p ∷ []) ps

-- the keys of a `HashMap` are distinct
abbrev pub Distinct : ℕ × Decision → ℕ × Decision → Type 0
Distinct x y = x.0 ≢ y.0

insert-fresh :
    (m : List (ℕ × Decision)) (x : ℕ × Decision)
    → All (λ y. Distinct y x) m
    → insert ℕ_discrete x.0 x.1 m ≡ m ++ x ∷ []
unfolding insert
insert-fresh [] x h = refl
insert-fresh (y ∷ m) x h = let e = insert-fresh m x h.1 in let n = h.0 in ground (arith, e, n)

head_of :
    (P : ℕ × Decision → Type 0) (m ds : List (ℕ × Decision)) {x : ℕ × Decision}
    → All P (m ++ x ∷ ds)
    → P x
head_of P [] ds h = h.0
head_of P (y ∷ m) ds h = head_of P m ds h.1

before_Distinct :
    (m ds : List (ℕ × Decision)) (x : ℕ × Decision)
    → AllPairs Distinct (m ++ x ∷ ds)
    → All (λ y. Distinct y x) m
before_Distinct [] ds x h = tt
before_Distinct (y ∷ m) ds x h = (head_of (Distinct y) m ds h.0, before_Distinct m ds x h.1)

decision_back : (x : ℕ × Decision) → (entry_decision (decision_entry x)).1 ≡ x.1
decision_back (i, d) =
    ap (λ k. record d { decision = k }) (decision_from_str-decision_to_str d.decision)

collect-back :
    (m ds : List (ℕ × Decision))
    → AllPairs Distinct (m ++ ds)
    → collect m (map decision_entry ds) ≡ m ++ ds
unfolding collect
collect-back m [] h = sym (append-nil m)
collect-back m (x ∷ ds) h =
    let stored =
      ap (λ d. insert ℕ_discrete x.0 d m) (decision_back x)
      ∙ insert-fresh m x (before_Distinct m ds x h) in
    ap (λ l. collect l (map decision_entry ds)) stored
    ∙ collect-back (m ++ x ∷ []) ds (subst (AllPairs Distinct) (sym (append_assoc m (x ∷ []) ds)) h)
    ∙ append_assoc m (x ∷ []) ds

-- A task and its queue survive a restart: what is persisted is restored as it was. The toml library
-- reads what it wrote and can write this task, and no index has two decisions.
pub restore-persist :
    (to_toml : SnapshotDoc → Option (List ℕ)) (from_toml : List ℕ → Option SnapshotDoc)
    → ((doc : SnapshotDoc) (text : List ℕ) → to_toml doc ≡ some text → from_toml text ≡ some doc)
    → (id : ℕ) (t : Task) (items : List (List ℕ)) (text : List ℕ)
    → to_toml (snapshot t items) ≡ some text
    → AllPairs Distinct t.decisions
    → restore_task_and_queue from_toml id (persist_task_and_queue to_toml t items) ≡ (t, items)
unfolding restore_task_and_queue persist_task_and_queue restored snapshot
restore-persist to_toml from_toml reads id t items text w h =
    ap (λ o. restored (unwrap_or (blank id) (from_toml (unwrap_or [] o)))) w
    ∙ ap (λ o. restored (unwrap_or (blank id) o)) (reads (snapshot t items) text w)
    ∙ ap₂ (λ (s : Task) (q : List (List ℕ)). (s, q))
        (ap₂
          (λ (ss : List Section) (ds : List (ℕ × Decision)). record t {
            sections = ss;
            decisions = ds;
          })
          (sections_back t.sections) (collect-back [] t.decisions h))
        (push_all-append [] items)
