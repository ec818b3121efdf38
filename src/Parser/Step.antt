-- ===== src/Parser/Step.antt =====
-- `step`, `feed` and `is_idle` of parser.rs.
use rill.Prelude.{
  ℕ, zero, suc, ◌+◌, ◌*◌, Bool, true, false, ◌&&◌, List, [], ◌∷◌, ◌++◌, Option, none, some, ◌==◌,
  length,
}
use rill.Parser.State.{
  Parser, State, escape, escape_intermediate, csi_entry, csi_param, csi_intermediate, csi_ignore,
  osc_string, osc_escape, dcs_passthrough, dcs_escape, sos_pm_apc, sos_escape, Action, Out,
}
use rill.Parser.Utf8.{abort_utf8}
use rill.Parser.Sequences.{
  on_ground, on_escape, on_escape_intermediate, on_csi_entry, on_csi_param, on_csi_intermediate,
  on_csi_ignore,
}
use rill.Parser.Strings.{
  on_osc_string, on_osc_escape, on_dcs_passthrough, on_dcs_escape, on_sos, on_sos_escape,
}

-- `match self.state`
unfoldable pub dispatch : State → Parser → ℕ → Out
dispatch State.ground p b = on_ground p b
dispatch escape p b = on_escape p b
dispatch escape_intermediate p b = on_escape_intermediate p b
dispatch csi_entry p b = on_csi_entry p b
dispatch csi_param p b = on_csi_param p b
dispatch csi_intermediate p b = on_csi_intermediate p b
dispatch csi_ignore p b = on_csi_ignore p b
dispatch osc_string p b = on_osc_string p b
dispatch osc_escape p b = on_osc_escape p b
dispatch dcs_passthrough p b = on_dcs_passthrough p b
dispatch dcs_escape p b = on_dcs_escape p b
dispatch sos_pm_apc p b = on_sos p b
dispatch sos_escape p b = on_sos_escape p b

-- what `step` does first: an incomplete character ends where another state has taken over
unfoldable pub abort_outside_ground : State → Parser → Out
abort_outside_ground State.ground p = (p, [])
abort_outside_ground _ p = abort_utf8 p

unfoldable pub step : Parser → ℕ → Out
step p b =
    let (p', aborted) = abort_outside_ground p.state p in
    let (p'', out) = dispatch p'.state p' b in (p'', aborted ++ out)

-- the actions of a round, before those of the rounds that follow
abbrev pub then_out : List Action → Option Out → Option Out
then_out out none = none
then_out out (some (q, rest)) = some (q, out ++ rest)

-- `self.putback.take()`, or else the next byte of the input; `none` ends the loop
unfoldable pub next_byte : Option ℕ → Parser → List ℕ → Option (ℕ × Parser × List ℕ)
next_byte (some b) p bytes = some (b, record p { putback = none }, bytes)
next_byte none p [] = none
next_byte none p (b ∷ bytes) = some (b, p, bytes)

-- one round of the loop of `feed`, before the rounds `loop`
unfoldable pub round :
    (Parser → List ℕ → Option Out) → Parser → Option (ℕ × Parser × List ℕ) → Option Out
round loop p none = some (p, [])
round loop p (some (b, q, bytes)) = let (p', out) = step q b in then_out out (loop p' bytes)

-- A round for each unit of fuel; `none` is out of fuel.
unfoldable pub feed_loop : ℕ → Parser → List ℕ → Option Out
unfolding next_byte round
feed_loop zero p bytes = none
feed_loop (suc n) p bytes = round (feed_loop n) p (next_byte p.putback p bytes)

-- `feed`: every byte costs two rounds at most, since a byte is put back once at most.
unfoldable pub feed : Parser → List ℕ → Option Out
feed p bytes = feed_loop (2 * length bytes + 1) p bytes

abbrev pub is_none {ℓ} : {A : Type ℓ} → Option A → Bool
is_none none = true
is_none (some _) = false

abbrev pub is_ground : State → Bool
is_ground State.ground = true
is_ground _ = false

unfoldable pub is_idle : Parser → Bool
is_idle p = is_ground p.state && (p.utf8_len == 0) && is_none p.putback
