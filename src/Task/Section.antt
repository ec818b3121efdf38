-- ===== src/Task/Section.antt =====
-- `SectionKind`, `Section` and the errors of a task. A tag is a `String`; contents are code points,
-- since their first ones are read.
use rill.Prelude.{ℕ, Bool, List, String, string_discrete, ite}

pub data SectionKind : Type 0 where
  prompt plan tool command output approval diff result question : SectionKind

unfoldable pub from_tag : String → SectionKind
from_tag tag = ite (string_discrete tag "prompt") prompt (
    ite (string_discrete tag "plan") plan (
      ite (string_discrete tag "tool") tool (
        ite (string_discrete tag "command") command (
          ite (string_discrete tag "output") output (
            ite (string_discrete tag "approval") approval (
              ite (string_discrete tag "diff") diff (
                ite (string_discrete tag "result") result
                  (ite (string_discrete tag "question") question output))))))))

unfoldable pub as_str : SectionKind → String
as_str prompt = "prompt"
as_str plan = "plan"
as_str tool = "tool"
as_str command = "command"
as_str output = "output"
as_str approval = "approval"
as_str diff = "diff"
as_str result = "result"
as_str question = "question"

pub record Section : Type 0 where
  pub index : ℕ
  pub kind : SectionKind
  pub content : List ℕ
  pub closed : Bool

pub data TaskError : Type 0 where
  unknown_section section_closed still_blocked not_an_approval not_a_question : TaskError

pub data ApprovalDecision : Type 0 where
  approved rejected cancelled : ApprovalDecision

pub record Decision : Type 0 where
  pub decision : ApprovalDecision
  pub actor : String
  pub at_unix_ms : ℕ
