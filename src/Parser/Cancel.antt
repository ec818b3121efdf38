-- ===== src/Parser/Cancel.antt =====
-- CAN and SUB: the parser is idle after one of them, whatever came before.
use rill.Prelude.{
  ℕ, ◌≡◌, ◌⊎◌, inl, inr, refl, false, subst, sym, [], ◌∷◌, none, some, arith, ltb, Bool-cases,
}
use rill.Parser.State.{
  Parser, State, escape, escape_intermediate, csi_entry, csi_param, csi_intermediate, csi_ignore,
  osc_string, osc_escape, dcs_passthrough, dcs_escape, sos_pm_apc, sos_escape, Out, reset_seq,
}
use rill.Parser.Utf8.{abort_utf8}
use rill.Parser.Sequences.{
  ground_utf8, ground_byte, on_ground, on_escape, on_escape_intermediate, on_csi_entry,
  on_csi_param, on_csi_intermediate, on_csi_ignore,
}
use rill.Parser.Strings.{
  on_osc_string, on_osc_escape, on_dcs_passthrough, on_dcs_escape, on_sos, on_sos_escape,
}
use rill.Parser.Step.{dispatch, step, feed}
use rill.Parser.Bounds.{IsValid}
use rill.Parser.Invariant.{step_lem, step-IsValid}
use rill.Parser.Feed.{IsReady, cleared, cleared-IsReady, rounds, feed_byte, feed_all, feed_total}
use rill.Parser.Csi.{IsIdle}

-- a handler at CAN or SUB: idle, or about to take the byte in a state that makes it so
abbrev Cancels : ℕ → Parser → Type 0
Cancels b q =
    (q.utf8_needed ≡ 0) × ((q.state ≡ State.ground) ⊎ ((q.state ≡ escape) × (q.putback ≡ some b)))

record AtGround (q : Parser) : Type 0 where
  whole : q.utf8_needed ≡ 0
  here : q.state ≡ State.ground

at_ground : {b : ℕ} {q : Parser} → AtGround q → Cancels b q
at_ground a = (a.whole, inl a.here)

module _ (p : Parser) (b : ℕ) (c : (b ≡ 0x18) ⊎ (b ≡ 0x1a)) where
  ground_byte-AtGround : p.utf8_needed ≡ 0 → AtGround (ground_byte p b).0
  unfolding ground_byte reset_seq
  ground_byte-AtGround n = ground arith

  module _ (n : p.utf8_needed ≡ 0) where
    on_escapes-AtGround : AtGround (on_escape p b).0 × AtGround (on_escape_intermediate p b).0
    unfolding on_escape on_escape_intermediate
    on_escapes-AtGround = ground arith

    on_csi-AtGround :
        AtGround (on_csi_entry p b).0
        × AtGround (on_csi_param p b).0
        × AtGround (on_csi_intermediate p b).0
        × AtGround (on_csi_ignore p b).0
    unfolding on_csi_entry on_csi_param on_csi_intermediate on_csi_ignore
    on_csi-AtGround = ground arith

    on_strings-AtGround :
        AtGround (on_osc_string p b).0
        × AtGround (on_dcs_passthrough p b).0
        × AtGround (on_sos p b).0
    unfolding on_osc_string on_dcs_passthrough on_sos reset_seq
    on_strings-AtGround = ground arith

    on_ends-Cancels :
        Cancels b (on_osc_escape p b).0
        × Cancels b (on_dcs_escape p b).0
        × Cancels b (on_sos_escape p b).0
    unfolding on_osc_escape on_dcs_escape on_sos_escape reset_seq
    on_ends-Cancels = ground arith

  on_ground-Cancels : p.state ≡ State.ground → Cancels b (on_ground p b).0
  unfolding on_ground ground_utf8 abort_utf8
  on_ground-Cancels g = elim (Bool-cases (ltb 0 p.utf8_needed)) [
    | inl t ↦ rw t (ground arith)
    | inr f ↦ rw f (at_ground (ground_byte-AtGround (ground arith)))
  ]

  on_ground-AtGround : p.utf8_needed ≡ 0 → AtGround (on_ground p b).0
  unfolding on_ground
  on_ground-AtGround n =
      let between : ltb 0 p.utf8_needed ≡ false = ground arith in
      rw between (ground_byte-AtGround n)

dispatch-Cancels :
    (p : Parser) (s : State) (b : ℕ)
    → (b ≡ 0x18) ⊎ (b ≡ 0x1a)
    → p.state ≡ s
    → IsValid p
    → Cancels b (dispatch s p b).0
unfolding dispatch
dispatch-Cancels p State.ground b c g v = on_ground-Cancels p b c g
dispatch-Cancels p escape b c g v = at_ground (on_escapes-AtGround p b c (ground arith)).0
dispatch-Cancels p escape_intermediate b c g v =
    at_ground (on_escapes-AtGround p b c (ground arith)).1
dispatch-Cancels p csi_entry b c g v = at_ground (on_csi-AtGround p b c (ground arith)).0
dispatch-Cancels p csi_param b c g v = at_ground (on_csi-AtGround p b c (ground arith)).1
dispatch-Cancels p csi_intermediate b c g v = at_ground (on_csi-AtGround p b c (ground arith)).2
dispatch-Cancels p csi_ignore b c g v = at_ground (on_csi-AtGround p b c (ground arith)).3
dispatch-Cancels p osc_string b c g v = at_ground (on_strings-AtGround p b c (ground arith)).0
dispatch-Cancels p osc_escape b c g v = (on_ends-Cancels p b c (ground arith)).0
dispatch-Cancels p dcs_passthrough b c g v = at_ground (on_strings-AtGround p b c (ground arith)).1
dispatch-Cancels p dcs_escape b c g v = (on_ends-Cancels p b c (ground arith)).1
dispatch-Cancels p sos_pm_apc b c g v = at_ground (on_strings-AtGround p b c (ground arith)).2
dispatch-Cancels p sos_escape b c g v = (on_ends-Cancels p b c (ground arith)).2

-- the second round, on the byte put back
again-AtGround :
    (q : Parser) (b : ℕ)
    → (b ≡ 0x18) ⊎ (b ≡ 0x1a)
    → IsValid q
    → Cancels b q
    → AtGround (step (cleared q) b).0
unfolding cleared dispatch
again-AtGround q b c v (n, at) =
    rw (step_lem (cleared q) b (cleared-IsReady q v).bounds) (round_two at)
  where
    round_two :
        (q.state ≡ State.ground) ⊎ ((q.state ≡ escape) × (q.putback ≡ some b))
        → AtGround (dispatch q.state (cleared q) b).0
    round_two (inl g) =
        subst (λ s. AtGround (dispatch s (cleared q) b).0) (sym g)
          (on_ground-AtGround (cleared q) b c n)
    round_two (inr (g, _)) =
        subst (λ s. AtGround (dispatch s (cleared q) b).0) (sym g)
          (on_escapes-AtGround (cleared q) b c n).0

feed_byte-AtGround :
    (p : Parser) (b : ℕ) → (b ≡ 0x18) ⊎ (b ≡ 0x1a) → IsReady p → AtGround (feed_byte p b).0
feed_byte-AtGround p b c v =
    let first : Cancels b (step p b).0 =
      rw (step_lem p b v.bounds) (dispatch-Cancels p p.state b c refl v.bounds) in
    elim (rounds p b v) [
      | inl o ↦ rw o.result (settled first o.none_left)
      | inr t ↦ rw t.result (again-AtGround (step p b).0 b c (step-IsValid p b v.bounds) first)
    ]
  where
    settled : {q : Parser} → Cancels b q → q.putback ≡ none → AtGround q
    settled f e = ground arith

-- CAN or SUB makes the parser idle, from any state between two calls of `feed`: inside a sequence,
-- a string or an incomplete character.
pub feed_cancel :
    (p : Parser) (b : ℕ)
    → (b ≡ 0x18) ⊎ (b ≡ 0x1a)
    → IsReady p
    → (r : Out) × (feed p (b ∷ []) ≡ some r) × IsIdle r.0
unfolding feed_all
feed_cancel p b c v =
    let (e, ready) = feed_total p (b ∷ []) v in
    let a = feed_byte-AtGround p b c v in
    (feed_all p (b ∷ []), e, record { ready = ready; at_ground = a.here; whole = a.whole })
