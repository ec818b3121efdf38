-- ===== src/Parser/Putback.antt =====
-- Which handlers of parser.rs put their byte back: those that end an incomplete character or
-- string, and the byte is then taken for good by the next round.
use rill.Prelude.{
  ℕ, Bool, true, false, if◌then◌else◌, ltb, Bool-cases, ◌≡◌, ◌⊎◌, inl, inr, refl, ap, ◌∙◌, List,
  none, some, arith,
}
use rill.Parser.State.{
  Parser, State, escape, escape_intermediate, csi_entry, csi_param, csi_intermediate, csi_ignore,
  osc_string, osc_escape, dcs_passthrough, dcs_escape, sos_pm_apc, sos_escape, Action, Out,
  reset_seq, push_inter, push_digit, finish_param, push_osc,
}
use rill.Parser.Utf8.{start_utf8, finish_utf8, abort_utf8}
use rill.Parser.Sequences.{
  to_ground, ground_utf8, ground_byte, on_ground, on_escape, on_escape_intermediate, dispatch_csi,
  on_csi_entry, on_csi_param, on_csi_intermediate, on_csi_ignore,
}
use rill.Parser.Strings.{
  on_osc_string, on_osc_escape, on_dcs_passthrough, on_dcs_escape, on_sos, on_sos_escape,
}
use rill.Parser.Step.{dispatch, step}
use rill.Parser.Bounds.{IsValid}
use rill.Parser.Invariant.{step_lem}

-- the result of a handler that takes its byte
record Takes (o : Out) : Type 0 where
  taken : o.0.putback ≡ none

takes : {p : Parser} {acts : List Action} → p.putback ≡ none → Takes (p, acts)
takes e = record { taken = e }

branch : (c : Bool) {x y : Out} → Takes x → Takes y → Takes (if c then x else y)
branch true h k = h
branch false h k = k

module _ (p : Parser) (e : p.putback ≡ none) where
  putback-reset_seq : (reset_seq p).putback ≡ none
  unfolding reset_seq
  putback-reset_seq = e

  putback-push_inter : (b : ℕ) → (push_inter p b).putback ≡ none
  unfolding push_inter
  putback-push_inter b = ground arith

  putback-push_digit : (b : ℕ) → (push_digit p b).putback ≡ none
  unfolding push_digit
  putback-push_digit b = e

  putback-finish_param : (finish_param p).putback ≡ none
  unfolding finish_param
  putback-finish_param = ground arith

  putback-push_osc : (b : ℕ) → (push_osc p b).putback ≡ none
  unfolding push_osc
  putback-push_osc b = ground arith

  putback-start_utf8 : (b n : ℕ) → (start_utf8 p b n).putback ≡ none
  unfolding start_utf8
  putback-start_utf8 b n = e

  putback-to_ground : (to_ground p).putback ≡ none
  unfolding reset_seq
  putback-to_ground = e

  dispatch_csi-Takes : (b : ℕ) → Takes (dispatch_csi p b)
  unfolding dispatch_csi
  dispatch_csi-Takes b = takes putback-to_ground

ruleset took = (
  takes, branch, putback-reset_seq, putback-push_inter, putback-push_digit, putback-finish_param,
  putback-push_osc, putback-start_utf8, putback-to_ground, dispatch_csi-Takes,
)

module _ (p : Parser) (b : ℕ) (e : p.putback ≡ none) where
  ground_byte-Takes : Takes (ground_byte p b)
  unfolding ground_byte
  ground_byte-Takes = search took depth 16

  on_escape-Takes : Takes (on_escape p b)
  unfolding on_escape
  on_escape-Takes = search took depth 16

  on_escape_intermediate-Takes : Takes (on_escape_intermediate p b)
  unfolding on_escape_intermediate
  on_escape_intermediate-Takes = search took depth 12

  on_csi_entry-Takes : Takes (on_csi_entry p b)
  unfolding on_csi_entry
  on_csi_entry-Takes = search took depth 16

  on_csi_param-Takes : Takes (on_csi_param p b)
  unfolding on_csi_param
  on_csi_param-Takes = search took depth 16

  on_csi_intermediate-Takes : Takes (on_csi_intermediate p b)
  unfolding on_csi_intermediate
  on_csi_intermediate-Takes = search took depth 12

  on_csi_ignore-Takes : Takes (on_csi_ignore p b)
  unfolding on_csi_ignore
  on_csi_ignore-Takes = search took depth 10

  on_strings-Takes : Takes (on_osc_string p b) × Takes (on_dcs_passthrough p b) × Takes (on_sos p b)
  unfolding on_osc_string on_dcs_passthrough on_sos
  on_strings-Takes = search took depth 10

-- A parser whose next byte is taken: between characters, or after an ESC.
abbrev pub Settled : Parser → Type 0
Settled p = ((p.state ≡ State.ground) × (p.utf8_needed ≡ 0)) ⊎ (p.state ≡ escape)

-- what a step leaves for the next round: nothing, or its byte, which will then be taken
abbrev pub Quiet : ℕ → Parser → Type 0
Quiet b p = (p.putback ≡ none) ⊎ ((p.putback ≡ some b) × Settled p)

module _ (p : Parser) (b : ℕ) (e : p.putback ≡ none) where
  ground_utf8-Quiet : p.state ≡ State.ground → Quiet b (ground_utf8 p b).0
  unfolding ground_utf8 finish_utf8 abort_utf8
  ground_utf8-Quiet g = ground arith

  on_ground-Quiet : p.state ≡ State.ground → Quiet b (on_ground p b).0
  unfolding on_ground
  on_ground-Quiet g = elim (Bool-cases (ltb 0 p.utf8_needed)) [
    | inl t ↦ rw t (ground_utf8-Quiet g)
    | inr f ↦ rw f (inl (ground_byte-Takes p b e).taken)
  ]

  on_escapes-Quiet :
      Quiet b (on_osc_escape p b).0 × Quiet b (on_dcs_escape p b).0 × Quiet b (on_sos_escape p b).0
  unfolding on_osc_escape on_dcs_escape on_sos_escape reset_seq
  on_escapes-Quiet = ground arith

  on_ground-Takes : p.utf8_needed ≡ 0 → Takes (on_ground p b)
  unfolding on_ground
  on_ground-Takes n =
      let between : ltb 0 p.utf8_needed ≡ false = ground arith in
      rw between (ground_byte-Takes p b e)

dispatch-Quiet :
    (p : Parser) (s : State) (b : ℕ) → p.state ≡ s → p.putback ≡ none → Quiet b (dispatch s p b).0
unfolding dispatch
dispatch-Quiet p State.ground b g e = on_ground-Quiet p b e g
dispatch-Quiet p escape b g e = inl (on_escape-Takes p b e).taken
dispatch-Quiet p escape_intermediate b g e = inl (on_escape_intermediate-Takes p b e).taken
dispatch-Quiet p csi_entry b g e = inl (on_csi_entry-Takes p b e).taken
dispatch-Quiet p csi_param b g e = inl (on_csi_param-Takes p b e).taken
dispatch-Quiet p csi_intermediate b g e = inl (on_csi_intermediate-Takes p b e).taken
dispatch-Quiet p csi_ignore b g e = inl (on_csi_ignore-Takes p b e).taken
dispatch-Quiet p osc_string b g e = inl (on_strings-Takes p b e).0.taken
dispatch-Quiet p osc_escape b g e = (on_escapes-Quiet p b e).0
dispatch-Quiet p dcs_passthrough b g e = inl (on_strings-Takes p b e).1.taken
dispatch-Quiet p dcs_escape b g e = (on_escapes-Quiet p b e).1
dispatch-Quiet p sos_pm_apc b g e = inl (on_strings-Takes p b e).2.taken
dispatch-Quiet p sos_escape b g e = (on_escapes-Quiet p b e).2

-- One round takes its byte, or puts it back in a state where the next round takes it.
pub step-Quiet : (p : Parser) (b : ℕ) → IsValid p → p.putback ≡ none → Quiet b (step p b).0
step-Quiet p b v e = rw (step_lem p b v) (dispatch-Quiet p p.state b refl e)

pub step-Settled :
    (p : Parser) (b : ℕ) → IsValid p → p.putback ≡ none → Settled p → (step p b).0.putback ≡ none
unfolding dispatch
step-Settled p b v e (inl (g, n)) =
    rw (step_lem p b v) (ap (λ s. (dispatch s p b).0.putback) g ∙ (on_ground-Takes p b e n).taken)
step-Settled p b v e (inr g) =
    rw (step_lem p b v) (ap (λ s. (dispatch s p b).0.putback) g ∙ (on_escape-Takes p b e).taken)
