-- ===== src/Task/Replay.antt =====
-- The replay adapter and the tags of the sections.
use rill.Prelude.{
  ℕ, ◌+◌, ◌≡◌, refl, sym, ◌∙◌, List, [], ◌∷◌, ◌++◌, append-nil, append_assoc, string_discrete,
  arith, length,
}
use rill.Task.Section.{
  SectionKind, prompt, plan, tool, command, output, approval, diff, result, question, Section,
  from_tag, as_str,
}
use rill.Task.State.{Task, append, new_section, ReplayEvent, drive}

-- the sections of a transcript, numbered from an index
abbrev pub replayed : ℕ → List ReplayEvent → List Section
replayed n [] = []
replayed n (ev ∷ evs) = new_section n (from_tag ev.tag) ev.content ∷ replayed (n + 1) evs

-- Driving a task from a transcript appends a section for each event, in order, with the event's
-- content, the kind of its tag and the next index, and nothing else; it returns how many.
pub drive_lem :
    (evs : List ReplayEvent) (t : Task)
    → ((drive evs t).0.sections ≡ t.sections ++ replayed t.next_index evs)
      × ((drive evs t).0.next_index ≡ t.next_index + length evs)
      × ((drive evs t).0.decisions ≡ t.decisions)
      × ((drive evs t).1 ≡ length evs)
unfolding drive append
drive_lem [] t = (sym (append-nil t.sections), omega arith, refl, refl)
drive_lem (ev ∷ evs) t =
    let s = new_section t.next_index (from_tag ev.tag) ev.content in
    let (sections, next, decisions, n) = drive_lem evs (append t (from_tag ev.tag) ev.content) in
    (
      sections ∙ append_assoc t.sections (s ∷ []) (replayed (t.next_index + 1) evs),
      omega arith,
      decisions,
      omega arith,
    )

-- The tag that a kind is written as is read as that kind.
pub from_tag-as_str : (k : SectionKind) → from_tag (as_str k) ≡ k
unfolding from_tag as_str string_discrete
from_tag-as_str prompt = refl
from_tag-as_str plan = refl
from_tag-as_str tool = refl
from_tag-as_str command = refl
from_tag-as_str output = refl
from_tag-as_str approval = refl
from_tag-as_str diff = refl
from_tag-as_str result = refl
from_tag-as_str question = refl
