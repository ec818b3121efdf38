-- ===== src/Parser/Strings.antt =====
-- The handlers of parser.rs for the string sequences: OSC, DCS, and SOS, PM, APC.
use rill.Prelude.{ℕ, [], ◌∷◌, ◌==◌, if◌then◌else◌}
use rill.Parser.State.{
  Parser, escape, osc_escape, dcs_escape, sos_escape, execute, osc, Out, silent, goto, reprocess,
  push_osc, osc_slice, is_cancel, reset_seq,
}
use rill.Parser.Sequences.{to_ground}

-- An ESC that no `\` follows abandons the string: the byte goes on to the escape state.
abbrev pub abandon : Parser → ℕ → Parser
abandon p b = reprocess (reset_seq (goto p escape)) b

unfoldable pub on_osc_string : Parser → ℕ → Out
on_osc_string p b =
    if b == 0x07
    then (to_ground p, osc (osc_slice p) ∷ [])
    else if b == 0x1b
    then silent (goto p osc_escape)
    else if is_cancel b
    then (to_ground p, execute b ∷ [])
    else silent (push_osc p b)

unfoldable pub on_osc_escape : Parser → ℕ → Out
on_osc_escape p b =
    if b == b'\\' then (to_ground p, osc (osc_slice p) ∷ []) else silent (abandon p b)

unfoldable pub on_dcs_passthrough : Parser → ℕ → Out
on_dcs_passthrough p b =
    if b == 0x1b
    then silent (goto p dcs_escape)
    else if is_cancel b
    then (to_ground p, execute b ∷ [])
    else silent p

unfoldable pub on_dcs_escape : Parser → ℕ → Out
on_dcs_escape p b = if b == b'\\' then silent (to_ground p) else silent (abandon p b)

unfoldable pub on_sos : Parser → ℕ → Out
on_sos p b =
    if b == 0x1b
    then silent (goto p sos_escape)
    else if is_cancel b
    then silent (to_ground p)
    else silent p

unfoldable pub on_sos_escape : Parser → ℕ → Out
on_sos_escape p b = if b == b'\\' then silent (to_ground p) else silent (abandon p b)
