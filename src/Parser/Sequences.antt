-- ===== src/Parser/Sequences.antt =====
-- The handlers of parser.rs for the ground state, escape sequences and control sequences.
use rill.Prelude.{ℕ, ◌+◌, Bool, true, ◌||◌, [], ◌∷◌, ltb, ◌==◌, in_range, if◌then◌else◌, set}
use rill.Parser.State.{
  Parser, State, escape, escape_intermediate, csi_entry, csi_param, csi_intermediate, csi_ignore,
  osc_string, dcs_passthrough, sos_pm_apc, print, execute, csi, esc, Out, silent, goto, reprocess,
  reset_seq, push_inter, push_digit, finish_param, param_slice, inter_slice, is_c0, is_cancel,
}
use rill.Parser.Utf8.{is_continuation, replacement, abort_utf8, start_utf8, finish_utf8}

-- `ground` while a character is incomplete
unfoldable pub ground_utf8 : Parser → ℕ → Out
ground_utf8 p b =
    if is_continuation b
    then (let p' = record p { utf8 = set p.utf8 p.utf8_len b; utf8_len = p.utf8_len + 1 } in
        if p'.utf8_len == p'.utf8_needed then finish_utf8 p' else silent p')
    else (let (p', out) = abort_utf8 p in (reprocess p' b, out))

-- `ground` between characters
unfoldable pub ground_byte : Parser → ℕ → Out
ground_byte p b =
    if is_c0 b
    then (p, execute b ∷ [])
    else if is_cancel b
    then (goto (reset_seq p) State.ground, execute b ∷ [])
    else if b == 0x1b
    then silent (goto (reset_seq p) escape)
    else if in_range 0x20 0x7e b
    then (p, print b ∷ [])
    else if b == 0x7f
    then silent p
    else if in_range 0x80 0xc1 b
    then (p, print replacement ∷ [])
    else if in_range 0xc2 0xdf b
    then silent (start_utf8 p b 2)
    else if in_range 0xe0 0xef b
    then silent (start_utf8 p b 3)
    else if in_range 0xf0 0xf4 b
    then silent (start_utf8 p b 4)
    else (p, print replacement ∷ [])

unfoldable pub on_ground : Parser → ℕ → Out
on_ground p b = if ltb 0 p.utf8_needed then ground_utf8 p b else ground_byte p b

-- `self.state = State::Ground; self.reset_seq();`
abbrev pub to_ground : Parser → Parser
to_ground p = reset_seq (goto p State.ground)

-- `self.reset_seq(); self.state = s;`
abbrev pub restart : Parser → State → Parser
restart p s = goto (reset_seq p) s

-- `0x30..=0x4f | 0x51..=0x57 | 0x59 | 0x5a | 0x5c | 0x60..=0x7e`
abbrev pub is_escape_final : ℕ → Bool
is_escape_final b =
    in_range 0x30 0x4f b
    || in_range 0x51 0x57 b
    || b == 0x59
    || b == 0x5a
    || b == 0x5c
    || in_range 0x60 0x7e b

unfoldable pub on_escape : Parser → ℕ → Out
on_escape p b =
    if is_c0 b
    then (p, execute b ∷ [])
    else if is_cancel b
    then (goto p State.ground, execute b ∷ [])
    else if b == 0x1b
    then silent (reset_seq p)
    else if in_range 0x20 0x2f b
    then silent (goto (push_inter p b) escape_intermediate)
    else if is_escape_final b
    then (to_ground p, esc (inter_slice p) b ∷ [])
    else if b == 0x50
    then silent (restart p dcs_passthrough)
    else if b == 0x58 || b == 0x5e || b == 0x5f
    then silent (restart p sos_pm_apc)
    else if b == 0x5b
    then silent (restart p csi_entry)
    else if b == 0x5d
    then silent (restart p osc_string)
    else if b == 0x7f
    then silent p
    else silent (to_ground p)

unfoldable pub on_escape_intermediate : Parser → ℕ → Out
on_escape_intermediate p b =
    if is_c0 b
    then (p, execute b ∷ [])
    else if is_cancel b
    then (goto p State.ground, execute b ∷ [])
    else if b == 0x1b
    then silent (restart p escape)
    else if in_range 0x20 0x2f b
    then silent (push_inter p b)
    else if in_range 0x30 0x7e b
    then (to_ground p, esc (inter_slice p) b ∷ [])
    else silent (to_ground p)

unfoldable pub dispatch_csi : Parser → ℕ → Out
dispatch_csi p b = (to_ground p, csi (param_slice p) (inter_slice p) p.ignore b ∷ [])

unfoldable pub on_csi_entry : Parser → ℕ → Out
on_csi_entry p b =
    if is_c0 b
    then (p, execute b ∷ [])
    else if is_cancel b
    then (goto p State.ground, execute b ∷ [])
    else if b == 0x1b
    then silent (restart p escape)
    else if in_range 0x20 0x2f b
    then silent (goto (push_inter p b) csi_intermediate)
    else if in_range 0x30 0x39 b
    then silent (goto (push_digit p b) csi_param)
    else if b == 0x3a || b == 0x3b
    then silent (goto (finish_param p) csi_param)
    else if in_range 0x3c 0x3f b
    then silent (goto (push_inter p b) csi_param)
    else if in_range 0x40 0x7e b
    then dispatch_csi p b
    else if b == 0x7f
    then silent p
    else silent (record p { ignore = true; state = csi_param })

unfoldable pub on_csi_param : Parser → ℕ → Out
on_csi_param p b =
    if is_c0 b
    then (p, execute b ∷ [])
    else if is_cancel b
    then (goto p State.ground, execute b ∷ [])
    else if b == 0x1b
    then silent (restart p escape)
    else if in_range 0x20 0x2f b
    then silent (goto (push_inter (finish_param p) b) csi_intermediate)
    else if in_range 0x30 0x39 b
    then silent (push_digit p b)
    else if b == 0x3a || b == 0x3b
    then silent (finish_param p)
    else if in_range 0x3c 0x3f b
    then silent (goto p csi_ignore)
    else if in_range 0x40 0x7e b
    then dispatch_csi (finish_param p) b
    else if b == 0x7f
    then silent p
    else silent (record p { ignore = true })

unfoldable pub on_csi_intermediate : Parser → ℕ → Out
on_csi_intermediate p b =
    if is_c0 b
    then (p, execute b ∷ [])
    else if is_cancel b
    then (goto p State.ground, execute b ∷ [])
    else if b == 0x1b
    then silent (restart p escape)
    else if in_range 0x20 0x2f b
    then silent (push_inter p b)
    else if in_range 0x30 0x3f b
    then silent (goto p csi_ignore)
    else if in_range 0x40 0x7e b
    then dispatch_csi p b
    else silent (record p { ignore = true; state = csi_ignore })

unfoldable pub on_csi_ignore : Parser → ℕ → Out
on_csi_ignore p b =
    if is_c0 b
    then (p, execute b ∷ [])
    else if is_cancel b
    then (goto p State.ground, execute b ∷ [])
    else if b == 0x1b
    then silent (restart p escape)
    else if in_range 0x40 0x7e b
    then silent (to_ground p)
    else silent p
