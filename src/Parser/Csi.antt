-- ===== src/Parser/Csi.antt =====
-- Control sequences: what a well-formed one dispatches.
use rill.Prelude.{
  ℕ, ◌+◌, ◌≤◌, ◌<◌, ◌≡◌, refl, sym, subst, ◌∙◌, false, List, [], ◌∷◌, ◌++◌, map, some, arith,
  length, ltb,
}
use rill.Parser.State.{
  Parser, State, escape, csi_entry, csi_param, max_params, Out, goto, silent, reset_seq, push_digit,
  finish_param,
}
use rill.Parser.Sequences.{restart, on_ground, ground_byte, on_escape, on_csi_entry}
use rill.Parser.Step.{dispatch, feed}
use rill.Parser.Bounds.{goto-IsValid}
use rill.Parser.Feed.{IsReady, feed_byte, feed_all, feed_all_next, feed_all-after, feed_total}
use rill.Parser.Params.{
  AreDigits, write_digits, saturate-decimal, rest_of, AllDigits, value, IsReading, Dispatches,
  on_digit, on_separator, read_params,
}

-- between characters and sequences
pub record IsIdle (p : Parser) : Type 0 where
  pub ready : IsReady p
  pub at_ground : p.state ≡ State.ground
  pub whole : p.utf8_needed ≡ 0

-- the parser after `ESC [`, and the same one as if inside the parameters
entered : Parser → Parser
entered p = restart (restart p escape) csi_entry

inside : Parser → Parser
unfolding entered
inside p = goto (entered p) csi_param

on_introducer :
    {p : Parser} (bs : List ℕ)
    → IsIdle p
    → (feed_all p (0x1b ∷ b'[' ∷ bs) ≡ feed_all (entered p) bs) × IsReady (entered p)
unfolding dispatch on_ground ground_byte on_escape entered reset_seq
on_introducer {p} bs v =
    let (e, r) =
      feed_all_next State.ground 0x1b (silent (restart p escape)) v.ready v.at_ground
        (let between : ltb 0 p.utf8_needed ≡ false = ground (arith, v.whole) in rw between)
        v.ready.settled in
    let (e', r') = feed_all_next escape b'[' (silent (entered p)) r refl refl v.ready.settled in
    (feed_all-after p 0x1b (b'[' ∷ bs) e ∙ feed_all-after (restart p escape) b'[' bs e', r')

inside-IsReading : {p : Parser} → IsIdle p → IsReady (entered p) → IsReading (inside p)
unfolding inside reset_seq
inside-IsReading v r = record {
  ready = record { bounds = goto-IsValid csi_param v.whole r.bounds; settled = r.settled };
  reading = refl;
  plain = refl;
  kept = refl;
  whole = v.whole;
}

-- The first byte of the parameters does the same on entry as inside them.
entry_digit :
    (p : Parser) (d : ℕ)
    → d < 10
    → IsReady (entered p)
    → IsReading (inside p)
    → feed_byte (entered p) (b'0' + d) ≡ feed_byte (inside p) (b'0' + d)
unfolding inside dispatch on_csi_entry push_digit
entry_digit p d lt r v =
    let o : Out = silent (push_digit (inside p) (b'0' + d)) in
    (feed_all_next csi_entry (b'0' + d) o r refl (ground arith) r.settled).0
    ∙ sym (on_digit v d lt).0

entry_separator :
    (p : Parser)
    → IsReady (entered p)
    → IsReading (inside p)
    → feed_byte (entered p) b';' ≡ feed_byte (inside p) b';'
unfolding inside dispatch on_csi_entry finish_param reset_seq
entry_separator p r v =
    let o : Out = silent (finish_param (inside p)) in
    (feed_all_next csi_entry b';' o r refl refl r.settled).0 ∙ sym (on_separator v (omega arith)).0

abbrev introduced : List ℕ → List (List ℕ) → ℕ → List ℕ
introduced ds more f = write_digits ds ++ rest_of more f

entry_params :
    (p : Parser) (ds : List ℕ) (more : List (List ℕ)) (f : ℕ)
    → 0 < length ds + length more
    → AreDigits ds
    → IsReady (entered p)
    → IsReading (inside p)
    → feed_all (entered p) (introduced ds more f) ≡ feed_all (inside p) (introduced ds more f)
entry_params p [] [] f some_text h r v = absurd (omega arith)
entry_params p [] (ds ∷ more) f some_text h r v =
    feed_all-after (entered p) b';' _ (entry_separator p r v)
    ∙ sym (feed_all-after (inside p) b';' _ refl)
entry_params p (d ∷ ds) more f some_text h r v =
    feed_all-after (entered p) (b'0' + d) _ (entry_digit p d h.0 r v)
    ∙ sym (feed_all-after (inside p) (b'0' + d) _ refl)

-- A control sequence `ESC [ p1 ; p2 ; … f`, of at most 32 parameters in decimal, not all of whose
-- text is empty, is dispatched as one call of `csi`, with the parameters' values (an empty one is 0,
-- and a value past `u16::MAX` is `u16::MAX`), no intermediates, and the final byte `f`; it leaves
-- the parser idle. The parser is idle before.
pub feed_csi :
    {p : Parser} (ds : List ℕ) (more : List (List ℕ)) (f : ℕ)
    → IsIdle p
    → 0x40 ≤ f
    → f ≤ 0x7e
    → 0 < length ds + length more
    → length more < max_params
    → AreDigits ds
    → AllDigits more
    → (r : Out) × (feed p (0x1b ∷ b'[' ∷ (write_digits ds ++ rest_of more f)) ≡ some r)
      × Dispatches (map value (ds ∷ more)) f r
unfolding inside entered reset_seq
feed_csi {p} ds more f v lo hi some_text room h hs =
    let input : List ℕ = 0x1b ∷ b'[' ∷ introduced ds more f in
    let (e, r) = on_introducer (introduced ds more f) v in
    let reading = inside-IsReading v r in
    let read = read_params ds more f reading lo hi (omega arith) h hs in
    (
      feed_all p input,
      (feed_total p input v.ready).0,
      rw (e ∙ entry_params p ds more f some_text h r reading) (
          subst
            (λ n. Dispatches (n ∷ map value more) f (feed_all (inside p) (introduced ds more f)))
            (saturate-decimal 0 ds) read),
    )
