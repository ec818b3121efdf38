-- ===== src/Attention/Queue.antt =====
-- `AttentionQueue` and its operations. Ids and sequence numbers are written as plain sums: `u64`
-- counters that are advanced by one.
use rill.Prelude.{
  ℕ, ◌+◌, Bool, true, false, not, ◌&&◌, List, [], ◌∷◌, ◌++◌, Option, none, some, String, same_text,
  ltb, leb, ◌==◌, if◌then◌else◌, filter, count, find, remove_first, modify_first,
}

-- in ascending order of priority
pub data AttentionState : Type 0 where
  completed_unread disconnected failed needs_input approval : AttentionState

-- the derived order
unfoldable pub rank : AttentionState → ℕ
rank completed_unread = 0
rank disconnected = 1
rank failed = 2
rank needs_input = 3
rank approval = 4

unfoldable pub is_actionable : AttentionState → Bool
is_actionable needs_input = true
is_actionable approval = true
is_actionable _ = false

pub record AttentionEntry : Type 0 where
  pub id : ℕ
  pub target : String
  pub state : AttentionState
  pub origin : String
  pub seq : ℕ
  pub at_unix_ms : ℕ
  pub read : Bool

pub record ViewEvent : Type 0 where
  pub visible : Bool
  pub key : Bool
  pub dwell_ms : ℕ

abbrev pub min_dwell_ms : ℕ
min_dwell_ms = 250

pub record AttentionQueue : Type 0 where
  pub entries : List AttentionEntry
  pub next_id : ℕ
  pub next_seq : ℕ
  pub cap_per_target : ℕ

unfoldable pub new : ℕ → AttentionQueue
new cap_per_target = record {
  entries = [];
  next_id = 1;
  next_seq = 1;
  cap_per_target = cap_per_target;
}

abbrev pub is_for : String → AttentionEntry → Bool
is_for target e = same_text e.target target

-- an entry for the target that may be dropped for capacity
abbrev pub is_droppable : String → AttentionEntry → Bool
is_droppable target e = is_for target e && not (is_actionable e.state)

abbrev pub new_entry : AttentionQueue → String → AttentionState → String → ℕ → AttentionEntry
new_entry q target state origin at_unix_ms = record {
  id = q.next_id;
  target = target;
  state = state;
  origin = origin;
  seq = q.next_seq;
  at_unix_ms = at_unix_ms;
  read = false;
}

-- the overflow rule, on the entries with the new one
unfoldable pub drop_overflow : ℕ → String → List AttentionEntry → List AttentionEntry
drop_overflow cap target es =
    if ltb cap (count (is_for target) es) then remove_first (is_droppable target) es else es

-- the queue after `enqueue`, and the id it returns
unfoldable pub enqueue : AttentionQueue → String → AttentionState → String → ℕ → AttentionQueue × ℕ
enqueue q target state origin at_unix_ms = (
  record q {
    entries =
        drop_overflow q.cap_per_target target
          (q.entries ++ new_entry q target state origin at_unix_ms ∷ []);
    next_id = q.next_id + 1;
    next_seq = q.next_seq + 1;
  },
  q.next_id,
)

-- `targets.contains`
unfoldable pub contains : List String → String → Bool
contains [] t = false
contains (s ∷ ss) t = if same_text s t then true else contains ss t

-- `Iterator::max` of states
unfoldable pub max_state : List AttentionEntry → Option AttentionState
max_state [] = none
max_state (e ∷ es) = elim (max_state es) [
  | none ↦ some e.state
  | some s ↦ if ltb (rank s) (rank e.state) then some e.state else some s
]

abbrev pub is_unread_in : List String → AttentionEntry → Bool
is_unread_in targets e = contains targets e.target && not e.read

unfoldable pub rollup : AttentionQueue → List String → Option AttentionState
rollup q targets = max_state (filter (is_unread_in targets) q.entries)

unfoldable pub clears : ViewEvent → Bool
clears view = view.visible && view.key && leb min_dwell_ms view.dwell_ms

abbrev pub has_id : ℕ → AttentionEntry → Bool
has_id id e = e.id == id

abbrev pub mark_read : AttentionEntry → AttentionEntry
mark_read e = record e { read = true }

unfoldable pub observe_view : AttentionQueue → ℕ → ViewEvent → AttentionQueue
observe_view q id view =
    if clears view then record q { entries = modify_first (has_id id) mark_read q.entries } else q

-- the flag of the entry that was found
abbrev pub read_or_false : Option AttentionEntry → Bool
read_or_false none = false
read_or_false (some e) = e.read

unfoldable pub is_read : AttentionQueue → ℕ → Bool
is_read q id = read_or_false (find (has_id id) q.entries)

abbrev pub is_unread_for : String → AttentionEntry → Bool
is_unread_for target e = is_for target e && not e.read

unfoldable pub badge_count : AttentionQueue → String → ℕ
badge_count q target = count (is_unread_for target) q.entries

unfoldable pub mailbox_entries : AttentionQueue → String → List AttentionEntry
mailbox_entries q target = filter (is_unread_for target) q.entries
