-- ===== src/Task/Blocked.antt =====
-- What blocks a task and what ends it.
use rill.Prelude.{
  ℕ, ◌≡◌, ◌⊎◌, refl, ap, ◌∙◌, true, false, List, [], ◌∷◌, ◌++◌, none, some, ℕ_discrete, arith,
  lookup-insert, ok, err,
}
use mathlib.Core.Option
use rill.Task.Marker.{marker, starts_with, starts_with-append}
use rill.Task.Section.{Section, SectionKind, Decision, approval, question, result, still_blocked}
use rill.Task.State.{
  Task, Changed, new_section, append, shut, is_gate, last_gate, answered_by, any_answers,
  has_answer, is_blocked, decide, answer, answer_text, decision_for, try_send,
}
use rill.Task.Valid.{IsValid}
use rill.Task.Gate.{
  gate, blocked_by, gate-modify_first, gate-append, is_blocked_lem, decided_task, answered_task,
  decide_found, answer_found, any_answers-append, any_answers-shut, last_gate-find,
}

-- the gate of a task is open
blocked_at :
    (t : Task) {i : ℕ} {k : SectionKind}
    → gate t.sections ≡ some (i, k)
    → is_blocked t ≡ blocked_by t (some (i, k))
blocked_at t e = is_blocked_lem t ∙ ap (blocked_by t) e

any_answers-more :
    (q : ℕ) (ss : List Section) (s : Section)
    → answered_by q s ≡ false
    → any_answers q (ss ++ s ∷ []) ≡ any_answers q ss
unfolding any_answers
any_answers-more q [] s h = ground arith
any_answers-more q (x ∷ ss) s h = ground (arith, any_answers-more q ss s h)

module _ (t : Task) (s : Section) (e : last_gate t.sections ≡ some s) where
  gate_lem : gate t.sections ≡ some (s.index, s.kind)
  gate_lem = ap (Option.map (λ (x : Section). (x.index, x.kind))) e

  gate_decided : (d : Decision) → gate (decided_task t s.index d).sections ≡ some (s.index, s.kind)
  gate_decided d = gate-modify_first s.index shut (λ x. (refl, refl)) t.sections ∙ gate_lem

  gate_more :
      (kind : SectionKind) (content : List ℕ)
      → is_gate kind ≡ false
      → gate (append t kind content).sections ≡ some (s.index, s.kind)
  unfolding append
  gate_more kind content h =
      gate-append t.sections (new_section t.next_index kind content) h ∙ gate_lem

  gate_answered :
      (text : List ℕ) → gate (answered_task t s.index text).sections ≡ some (s.index, s.kind)
  gate_answered text =
      gate-modify_first s.index shut (λ x. (refl, refl))
        (append t result (answer_text s.index text)).sections
      ∙ gate_more result (answer_text s.index text) refl

-- A decision on the most recent gate of a task, an approval, ends the block. The task is valid.
pub decide-is_blocked :
    (t : Task) (s : Section) (d : Decision)
    → IsValid t
    → last_gate t.sections ≡ some s
    → s.kind ≡ approval
    → is_blocked (decide t s.index d).0 ≡ false
unfolding decision_for
decide-is_blocked t s d v e k =
    let found = decide_found t s.index d (last_gate-find t.sections v.ascending e) k in
    let at = blocked_at (decided_task t s.index d) (gate_decided t s e d) in
    let recorded = lookup-insert ℕ_discrete s.index s.index d t.decisions in
    ap (λ (r : Changed (Unit {0})). is_blocked r.0) found ∙ at ∙ ground arith

-- An answer to the most recent gate of a task, a question, ends the block. The task is valid.
pub answer-is_blocked :
    (t : Task) (s : Section) (text : List ℕ)
    → IsValid t
    → last_gate t.sections ≡ some s
    → s.kind ≡ question
    → is_blocked (answer t s.index text).0 ≡ false
unfolding has_answer append answer_text
answer-is_blocked t s text v e k =
    let found = answer_found t s.index text (last_gate-find t.sections v.ascending e) k in
    let at = blocked_at (answered_task t s.index text) (gate_answered t s e text) in
    let content = answer_text s.index text in
    let heard =
      any_answers-append s.index t.sections (new_section t.next_index result content)
        (starts_with-append (marker s.index) (b' ' ∷ text)) in
    let kept = any_answers-shut s.index s.index (append t result content).sections in
    ap (λ (r : Changed ℕ). is_blocked r.0) found ∙ at ∙ ground arith

-- A section that is appended to a blocked task leaves it blocked, unless it is a new gate or its
-- content begins with the answer marker of the gate.
pub append-is_blocked :
    (t : Task) (s : Section) (kind : SectionKind) (content : List ℕ)
    → is_blocked t ≡ true
    → last_gate t.sections ≡ some s
    → is_gate kind ≡ false
    → starts_with (marker s.index) content ≡ false
    → is_blocked (append t kind content) ≡ true
unfolding has_answer append decision_for
append-is_blocked t s kind content b e h m =
    let before = blocked_at t (gate_lem t s e) in
    let after = blocked_at (append t kind content) (gate_more t s e kind content h) in
    let unheard = any_answers-more s.index t.sections (new_section t.next_index kind content) m in
    ground arith

-- `try_send` fails exactly for a blocked task, with the queue as it was; otherwise it takes the
-- prompt at the front, if there is one.
pub try_send_lem :
    (items : List (List ℕ)) (t : Task)
    → ((is_blocked t ≡ true) × (try_send items t ≡ (items, err still_blocked)))
      ⊎ ((is_blocked t ≡ false)
          × (((items ≡ []) × (try_send items t ≡ ([], ok none)))
              ⊎ ((x : List ℕ) × (xs : List (List ℕ)) × (items ≡ x ∷ xs)
                  × (try_send items t ≡ (xs, ok (some x))))))
unfolding try_send
try_send_lem items t = ground arith
