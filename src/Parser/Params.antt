-- ===== src/Parser/Params.antt =====
-- Inside a control sequence: how the parameters are read.
use rill.Prelude.{
  ℕ, ◌+◌, ◌*◌, ◌≤◌, ◌<◌, min, ◌≡◌, refl, sym, ap, ap₂, ◌∙◌, false, List, [], ◌∷◌, ◌++◌,
  append_assoc, map, none, arith, length, take-set,
}
use mathlib.Core.Path.{subst₂}
use rill.Parser.State.{
  Parser, State, csi_param, csi, u16_max, max_params, Out, silent, reset_seq, push_digit,
  finish_param, param_slice,
}
use rill.Parser.Sequences.{on_csi_param, dispatch_csi}
use rill.Parser.Step.{dispatch}
use rill.Parser.Feed.{IsReady, feed_byte, feed_all, feed_all_next, feed_all-after}

-- digits of a number, the first one first, before a number read so far
abbrev pub decimal : ℕ → List ℕ → ℕ
decimal n [] = n
decimal n (d ∷ ds) = decimal (n * 10 + d) ds

abbrev pub AreDigits : List ℕ → Type 0
AreDigits [] = Unit {0}
AreDigits (d ∷ ds) = (d < 10) × AreDigits ds

abbrev pub write_digits : List ℕ → List ℕ
write_digits [] = []
write_digits (d ∷ ds) = (b'0' + d) ∷ write_digits ds

abbrev saturate : ℕ → List ℕ → ℕ
saturate n [] = n
saturate n (d ∷ ds) = saturate (min u16_max (n * 10 + d)) ds

pub saturate-decimal :
    (n : ℕ) (ds : List ℕ) → saturate (min u16_max n) ds ≡ min u16_max (decimal n ds)
saturate-decimal n [] = refl
saturate-decimal n (d ∷ ds) =
    ap (λ k. saturate k ds) {y = min u16_max (n * 10 + d)} (omega arith)
    ∙ saturate-decimal (n * 10 + d) ds

-- `ESC [`-sequence text behind the first parameter, up to the final byte
abbrev pub rest_of : List (List ℕ) → ℕ → List ℕ
rest_of [] f = f ∷ []
rest_of (ds ∷ more) f = b';' ∷ (write_digits ds ++ rest_of more f)

abbrev pub AllDigits : List (List ℕ) → Type 0
AllDigits [] = Unit {0}
AllDigits (ds ∷ more) = AreDigits ds × AllDigits more

-- a parameter's value: its decimal number, at most `u16::MAX`
abbrev pub value : List ℕ → ℕ
value ds = min u16_max (decimal 0 ds)

-- the parser is inside a control sequence with no intermediate byte
pub record IsReading (p : Parser) : Type 0 where
  pub ready : IsReady p
  pub reading : p.state ≡ csi_param
  pub plain : p.inter_len ≡ 0
  pub kept : p.ignore ≡ false
  pub whole : p.utf8_needed ≡ 0

-- `r` is one dispatch of the sequence, and the ground state.
pub record Dispatches (params : List ℕ) (f : ℕ) (r : Out) : Type 0 where
  pub actions : r.1 ≡ csi params [] false f ∷ []
  pub idle : r.0.state ≡ State.ground
  pub whole : r.0.utf8_needed ≡ 0

digit-IsReading :
    {p : Parser} (d : ℕ) → IsReading p → IsReady (push_digit p d) → IsReading (push_digit p d)
unfolding push_digit
digit-IsReading d v r = record {
  ready = r;
  reading = v.reading;
  plain = v.plain;
  kept = v.kept;
  whole = v.whole;
}

finish-IsReading :
    {p : Parser}
    → IsReading p
    → p.param_len < max_params
    → IsReady (finish_param p)
    → IsReading (finish_param p)
unfolding finish_param
finish-IsReading v lt r = record {
  ready = r;
  reading = ground arith;
  plain = ground arith;
  kept = ground arith;
  whole = ground arith;
}

-- one digit, one separator and the final byte
module _ {p : Parser} (v : IsReading p) where
  pub on_digit :
      (d : ℕ)
      → d < 10
      → (feed_byte p (b'0' + d) ≡ silent (push_digit p (b'0' + d)))
        × IsReading (push_digit p (b'0' + d))
  unfolding dispatch on_csi_param
  on_digit d lt =
      let (e, r) =
        feed_all_next csi_param (b'0' + d) (silent (push_digit p (b'0' + d))) v.ready v.reading
          (ground arith) (unfold push_digit in v.ready.settled) in
      (e, digit-IsReading (b'0' + d) v r)

  putback-finish_param : (finish_param p).putback ≡ none
  unfolding finish_param
  putback-finish_param = ground (arith, v.ready.settled)

  pub on_separator :
      p.param_len < max_params
      → (feed_byte p b';' ≡ silent (finish_param p)) × IsReading (finish_param p)
  unfolding dispatch on_csi_param
  on_separator lt =
      let (e, r) =
        feed_all_next csi_param b';' (silent (finish_param p)) v.ready v.reading refl
          putback-finish_param in
      (e, finish-IsReading v lt r)

  param_slice-finish_param :
      p.param_len < max_params
      → (param_slice (finish_param p) ≡ param_slice p ++ p.param_acc ∷ [])
        × ((finish_param p).param_len ≡ p.param_len + 1)
        × ((finish_param p).param_acc ≡ 0)
  unfolding finish_param
  param_slice-finish_param lt =
      let bounds = v.ready.bounds in
      let acc : min p.param_acc u16_max ≡ p.param_acc = omega arith in
      ground (arith, acc, take-set p.params p.param_len p.param_acc)

  on_final :
      (f : ℕ)
      → 0x40 ≤ f
      → f ≤ 0x7e
      → p.param_len < max_params
      → Dispatches (param_slice p ++ p.param_acc ∷ []) f (feed_byte p f)
  unfolding dispatch on_csi_param dispatch_csi reset_seq
  on_final f lo hi lt =
      let fin = (on_separator lt).1 in
      let (slice, _, _) = param_slice-finish_param lt in
      let (e, r) =
        feed_all_next csi_param f (dispatch_csi (finish_param p) f) v.ready v.reading (ground arith)
          putback-finish_param in
      rw e (record {
        actions = ground (arith, slice, fin.plain, fin.kept);
        idle = refl;
        whole = fin.whole;
      })

  acc-push_digit :
      (d : ℕ) → d < 10 → (push_digit p (b'0' + d)).param_acc ≡ min u16_max (p.param_acc * 10 + d)
  unfolding push_digit
  acc-push_digit d lt = let bounds = v.ready.bounds in ground arith

-- From inside a sequence: the parameter being read goes on with `ds`, and `more` follow.
pub read_params :
    (ds : List ℕ) (more : List (List ℕ)) (f : ℕ) {p : Parser}
    → IsReading p
    → 0x40 ≤ f
    → f ≤ 0x7e
    → p.param_len + length more < max_params
    → AreDigits ds
    → AllDigits more
    → Dispatches
        (param_slice p ++ saturate p.param_acc ds ∷ map value more)
        f
        (feed_all p (write_digits ds ++ rest_of more f))
unfolding feed_all push_digit
read_params [] [] f {p} v lo hi room h hs =
    let d = on_final v f lo hi (omega arith) in
    record { actions = ap (λ l. l ++ []) d.actions; idle = d.idle; whole = d.whole }
read_params [] (ds ∷ more) f {p} v lo hi room h hs =
    let (e, r) = on_separator v (omega arith) in
    let (slice, len, acc) = param_slice-finish_param v (omega arith) in
    let later = read_params ds more f r lo hi (omega arith) hs.0 hs.1 in
    let shown : param_slice (finish_param p)
          ++ saturate (finish_param p).param_acc ds ∷ map value more
        ≡ param_slice p ++ p.param_acc ∷ value ds ∷ map value more =
      ap₂ (λ xs n. xs ++ saturate n ds ∷ map value more) slice acc
      ∙ append_assoc (param_slice p) (p.param_acc ∷ []) (saturate 0 ds ∷ map value more)
      ∙ ap (λ n. param_slice p ++ p.param_acc ∷ n ∷ map value more) (saturate-decimal 0 ds) in
    subst₂ (λ xs t. Dispatches xs f t) shown
      (sym (feed_all-after p b';' (write_digits ds ++ rest_of more f) e)) later
read_params (d ∷ ds) more f {p} v lo hi room h hs =
    let (e, r) = on_digit v d h.0 in
    let later = read_params ds more f r lo hi room h.1 hs in
    subst₂ (λ n t. Dispatches (param_slice p ++ saturate n ds ∷ map value more) f t)
      (acc-push_digit v d h.0)
      (sym (feed_all-after p (b'0' + d) (write_digits ds ++ rest_of more f) e)) later
