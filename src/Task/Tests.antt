-- ===== src/Task/Tests.antt =====
-- The theorems about tasks at a concrete task: a prompt, an approval and a question.
use rill.Prelude.{
  Option, ite, if_pos, if_neg, ap, sym, ℕ_discrete, string_discrete, insert, ℕ, ◌≡◌, refl, false,
  List, [], ◌∷◌, none, some, find,
}
use rill.Task.Section.{Section, approval, question, Decision, approved}
use rill.Task.State.{
  close, Task, new, append, new_section, shut, section_at, decide, answer, is_blocked, last_gate,
  ReplayEvent,
}
use rill.Task.Valid.{IsValid, new-IsValid}
use rill.Task.Gate.{decide_lem}
use rill.Task.Blocked.{decide-is_blocked, answer-is_blocked}
use rill.Task.Run.{apply_all, appends, decides, mutates, apply, apply_all-IsValid, apply_all-closed}
use rill.Task.Persist.{
  SectionEntry, DecisionEntry, SnapshotDoc, snapshot, persist_task_and_queue,
  restore_task_and_queue, restore-persist,
}

abbrev asks : Section
asks = new_section 0 approval (b'?' ∷ [])

abbrev wonders : Section
wonders = new_section 0 question (b'?' ∷ [])

-- a task that waits for an approval
abbrev waiting : Task
waiting = append (new 1) approval (b'?' ∷ [])

-- a task that waits for an answer
abbrev wondering : Task
wondering = append (new 1) question (b'?' ∷ [])

abbrev yes_please : Decision
yes_please = record { decision = approved; actor = "user"; at_unix_ms = 5 }

waiting-IsValid : IsValid waiting
unfolding apply_all apply
waiting-IsValid = apply_all-IsValid (new 1) (appends approval (b'?' ∷ []) ∷ []) (new-IsValid 1)

wondering-IsValid : IsValid wondering
unfolding apply_all apply
wondering-IsValid = apply_all-IsValid (new 1) (appends question (b'?' ∷ []) ∷ []) (new-IsValid 1)

apply_all-IsValid_example :
    IsValid
      (apply_all (new 1) (appends approval (b'?' ∷ []) ∷ decides 0 yes_please ∷ mutates 0 [] ∷ []))
apply_all-IsValid_example =
    apply_all-IsValid (new 1)
      (appends approval (b'?' ∷ []) ∷ decides 0 yes_please ∷ mutates 0 [] ∷ []) (new-IsValid 1)

apply_all-closed_example :
    section_at (apply_all (decide waiting 0 yes_please).0 (mutates 0 (b'!' ∷ []) ∷ [])) 0
    ≡ some (shut asks)
unfolding find append new
apply_all-closed_example =
    apply_all-closed (decide waiting 0 yes_please).0 0 (shut asks) (mutates 0 (b'!' ∷ []) ∷ [])
      (decide_lem waiting 0 yes_please asks refl refl).2 refl

decide-is_blocked_example : is_blocked (decide waiting 0 yes_please).0 ≡ false
unfolding append new last_gate
decide-is_blocked_example = decide-is_blocked waiting asks yes_please waiting-IsValid refl refl

answer-is_blocked_example : is_blocked (answer wondering 0 (b'!' ∷ [])).0 ≡ false
unfolding append new last_gate
answer-is_blocked_example =
    answer-is_blocked wondering wonders (b'!' ∷ []) wondering-IsValid refl refl

abbrev queued : List (List ℕ)
queued = (b'g' ∷ []) ∷ []

abbrev recorded : List ReplayEvent
recorded =
    record { tag = "plan"; content = b'p' ∷ [] } ∷ record { tag = "?"; content = b'q' ∷ [] } ∷ []

SectionEntry-discrete : Discrete SectionEntry
SectionEntry-discrete = hlevel (ℕ_discrete, string_discrete)

DecisionEntry-discrete : Discrete DecisionEntry
DecisionEntry-discrete = hlevel (ℕ_discrete, string_discrete)

SnapshotDoc-discrete : Discrete SnapshotDoc
SnapshotDoc-discrete =
    hlevel (ℕ_discrete, string_discrete, SectionEntry-discrete, DecisionEntry-discrete)

-- a decided approval, and a prompt in the queue
abbrev decided : Task
decided = (decide waiting 0 yes_please).0

abbrev saved : SnapshotDoc
saved = snapshot decided queued

-- a writer and a reader of one document
abbrev write_saved : SnapshotDoc → Option (List ℕ)
write_saved doc = ite (SnapshotDoc-discrete doc saved) (some (b'1' ∷ [])) none

abbrev read_saved : List ℕ → Option SnapshotDoc
read_saved text = some saved

read_saved-write_saved :
    (doc : SnapshotDoc) (text : List ℕ) → write_saved doc ≡ some text → read_saved text ≡ some doc
read_saved-write_saved doc text h = elim (SnapshotDoc-discrete doc saved) [
  | yes e ↦ ap some (sym e)
  | no n ↦
      cc
        (h, if_neg {C = Option (List ℕ)} (SnapshotDoc-discrete doc saved) n (some (b'1' ∷ [])) none)
]

restore-persist_example :
    restore_task_and_queue read_saved 9 (persist_task_and_queue write_saved decided queued)
    ≡ (decided, queued)
unfolding append new find decide close insert
restore-persist_example =
    restore-persist write_saved read_saved read_saved-write_saved 9 decided queued (b'1' ∷ [])
      (if_pos (SnapshotDoc-discrete saved saved) refl (some (b'1' ∷ [])) none) (tt, tt)
