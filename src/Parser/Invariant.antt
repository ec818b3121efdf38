-- ===== src/Parser/Invariant.antt =====
-- Every handler of parser.rs keeps the bounds of its buffers.
use rill.Prelude.{ℕ, ◌≡◌, ◌≢◌, ◌∙◌, refl, Bool, true, false, List, [], if◌then◌else◌, arith}
use rill.Parser.State.{
  Parser, State, Out, Action, escape, escape_intermediate, csi_entry, csi_param, csi_intermediate,
  csi_ignore, osc_string, osc_escape, dcs_passthrough, dcs_escape, sos_pm_apc, sos_escape, goto,
  reset_seq, push_inter, push_digit, finish_param,
}
use rill.Parser.Utf8.{start_utf8, abort_utf8}
use rill.Parser.Sequences.{
  to_ground, restart, ground_byte, on_ground, on_escape, on_escape_intermediate, dispatch_csi,
  on_csi_entry, on_csi_param, on_csi_intermediate, on_csi_ignore,
}
use rill.Parser.Strings.{
  abandon, on_osc_string, on_osc_escape, on_dcs_passthrough, on_dcs_escape, on_sos, on_sos_escape,
}
use rill.Parser.Step.{dispatch, abort_outside_ground, step}
use rill.Parser.Bounds.{
  IsValid, goto-IsValid, reset_seq-IsValid, push_inter-IsValid, push_digit-IsValid,
  finish_param-IsValid, push_osc-IsValid, ground_utf8-IsValid, needed-push_inter, needed-push_digit,
  needed-finish_param, needed-reset_seq,
}

module _ {p : Parser} (b : ℕ) where
  ground_byte-IsValid :
      p.state ≡ State.ground → p.utf8_needed ≡ 0 → IsValid p → IsValid (ground_byte p b).0
  unfolding ground_byte start_utf8 reset_seq
  ground_byte-IsValid g n v = ground arith

  on_ground-IsValid : p.state ≡ State.ground → IsValid p → IsValid (on_ground p b).0
  unfolding on_ground
  on_ground-IsValid g v = ground (arith, ground_utf8-IsValid b g v, ground_byte-IsValid g)

-- A handler's result is within the bounds; each `if` is split by `branch`.
record Keeps (o : Out) : Type 0 where
  valid : IsValid o.0

keep : {p : Parser} {acts : List Action} → IsValid p → Keeps (p, acts)
keep v = record { valid = v }

branch : (c : Bool) {x y : Out} → Keeps x → Keeps y → Keeps (if c then x else y)
branch true h k = h
branch false h k = k

module _ {p : Parser} (n : p.utf8_needed ≡ 0) (v : IsValid p) where
  to_ground-IsValid : IsValid (to_ground p)
  to_ground-IsValid = reset_seq-IsValid (goto-IsValid State.ground n v)

  restart-IsValid : (s : State) → IsValid (restart p s)
  restart-IsValid s = goto-IsValid s (needed-reset_seq p ∙ n) (reset_seq-IsValid v)

  inter-IsValid : (s : State) (b : ℕ) → IsValid (goto (push_inter p b) s)
  inter-IsValid s b = goto-IsValid s (needed-push_inter p b ∙ n) (push_inter-IsValid b v)

  digit-IsValid : (s : State) (b : ℕ) → IsValid (goto (push_digit p b) s)
  digit-IsValid s b = goto-IsValid s (needed-push_digit p b ∙ n) (push_digit-IsValid b v)

  finish-IsValid : (s : State) → IsValid (goto (finish_param p) s)
  finish-IsValid s = goto-IsValid s (needed-finish_param p ∙ n) (finish_param-IsValid v)

  dispatch_csi-Keeps : (b : ℕ) → Keeps (dispatch_csi p b)
  unfolding dispatch_csi
  dispatch_csi-Keeps b = keep to_ground-IsValid

  ignored-IsValid : (s : State) → IsValid (record p { ignore = true; state = s })
  ignored-IsValid s = ground arith

  abandon-IsValid : (b : ℕ) → IsValid (abandon p b)
  unfolding reset_seq
  abandon-IsValid b = ground arith

ruleset keeps = (
  keep, branch, goto-IsValid, reset_seq-IsValid, push_inter-IsValid, push_digit-IsValid,
  finish_param-IsValid, push_osc-IsValid, to_ground-IsValid, restart-IsValid, inter-IsValid,
  digit-IsValid, finish-IsValid, dispatch_csi-Keeps, ignored-IsValid, abandon-IsValid,
)

module _ {p : Parser} (b : ℕ) (n : p.utf8_needed ≡ 0) (v : IsValid p) where
  on_escape-Keeps : Keeps (on_escape p b)
  unfolding on_escape
  on_escape-Keeps = search keeps depth 16

  on_escape_intermediate-Keeps : Keeps (on_escape_intermediate p b)
  unfolding on_escape_intermediate
  on_escape_intermediate-Keeps = search keeps depth 10

  on_csi_entry-Keeps : Keeps (on_csi_entry p b)
  unfolding on_csi_entry
  on_csi_entry-Keeps = search keeps depth 16

  on_csi_param-Keeps : Keeps (on_csi_param p b)
  unfolding on_csi_param
  on_csi_param-Keeps = search (keeps, needed-finish_param p ∙ n) depth 16

  on_csi_intermediate-Keeps : Keeps (on_csi_intermediate p b)
  unfolding on_csi_intermediate
  on_csi_intermediate-Keeps = search keeps depth 12

  on_csi_ignore-Keeps : Keeps (on_csi_ignore p b)
  unfolding on_csi_ignore
  on_csi_ignore-Keeps = search keeps depth 10

  on_osc_string-Keeps : Keeps (on_osc_string p b)
  unfolding on_osc_string
  on_osc_string-Keeps = search keeps depth 10

  on_escapes-Keeps :
      Keeps (on_osc_escape p b) × Keeps (on_dcs_escape p b) × Keeps (on_sos_escape p b)
  unfolding on_osc_escape on_dcs_escape on_sos_escape
  on_escapes-Keeps = search keeps

  on_skips-Keeps : Keeps (on_dcs_passthrough p b) × Keeps (on_sos p b)
  unfolding on_dcs_passthrough on_sos
  on_skips-Keeps = search keeps depth 8

-- Outside the ground state no character is incomplete.
pub needed_outside : {p : Parser} → IsValid p → p.state ≢ State.ground → p.utf8_needed ≡ 0
needed_outside v h = ground arith

-- What `step` does first changes nothing in a parser within its bounds.
pub abort_outside_ground-silent :
    (p : Parser) → IsValid p → abort_outside_ground p.state p ≡ (p, [])
unfolding abort_outside_ground abort_utf8
abort_outside_ground-silent p v = ground arith

dispatch-IsValid :
    {p : Parser} (s : State) (b : ℕ) → p.state ≡ s → IsValid p → IsValid (dispatch s p b).0
unfolding dispatch
dispatch-IsValid State.ground b e v = on_ground-IsValid b e v
dispatch-IsValid escape b e v = (on_escape-Keeps b (ground arith) v).valid
dispatch-IsValid escape_intermediate b e v = (on_escape_intermediate-Keeps b (ground arith) v).valid
dispatch-IsValid csi_entry b e v = (on_csi_entry-Keeps b (ground arith) v).valid
dispatch-IsValid csi_param b e v = (on_csi_param-Keeps b (ground arith) v).valid
dispatch-IsValid csi_intermediate b e v = (on_csi_intermediate-Keeps b (ground arith) v).valid
dispatch-IsValid csi_ignore b e v = (on_csi_ignore-Keeps b (ground arith) v).valid
dispatch-IsValid osc_string b e v = (on_osc_string-Keeps b (ground arith) v).valid
dispatch-IsValid osc_escape b e v = (on_escapes-Keeps b (ground arith) v).0.valid
dispatch-IsValid dcs_passthrough b e v = (on_skips-Keeps b (ground arith) v).0.valid
dispatch-IsValid dcs_escape b e v = (on_escapes-Keeps b (ground arith) v).1.valid
dispatch-IsValid sos_pm_apc b e v = (on_skips-Keeps b (ground arith) v).1.valid
dispatch-IsValid sos_escape b e v = (on_escapes-Keeps b (ground arith) v).2.valid

pub step_lem : (p : Parser) (b : ℕ) → IsValid p → step p b ≡ dispatch p.state p b
unfolding step
step_lem p b v = rw (abort_outside_ground-silent p v)

-- One byte keeps the parser within its bounds, whatever the byte is.
pub step-IsValid : (p : Parser) (b : ℕ) → IsValid p → IsValid (step p b).0
step-IsValid p b v = rw (step_lem p b v) (dispatch-IsValid p.state b refl v)
