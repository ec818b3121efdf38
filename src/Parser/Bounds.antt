-- ===== src/Parser/Bounds.antt =====
-- The invariant of the parser: no array of parser.rs is read or written out of range, and an
-- incomplete character is pending in the ground state only.
use rill.Prelude.{
  ℕ, min, ◌≤◌, ◌<◌, ◌≡◌, refl, ◌⊎◌, inl, arith, length, length-set, length-replicate,
}
use rill.Parser.State.{
  Parser, State, max_params, max_inter, max_osc, max_utf8, u16_max, new, goto, reset_seq,
  push_inter, push_digit, finish_param, push_osc,
}
use rill.Parser.Utf8.{start_utf8, finish_utf8, abort_utf8}
use rill.Parser.Sequences.{ground_utf8}

pub record IsValid (p : Parser) : Type 0 where
  pub params_room : length p.params ≡ max_params
  pub params_in : p.param_len ≤ max_params
  pub acc_in : p.param_acc ≤ u16_max
  pub inter_room : length p.intermediates ≡ max_inter
  pub inter_in : p.inter_len ≤ max_inter
  pub osc_room : length p.osc_buf ≡ max_osc
  pub osc_in : p.osc_len ≤ max_osc
  pub utf8_room : length p.utf8 ≡ max_utf8
  pub utf8_in : p.utf8_needed ≤ max_utf8
  pub utf8_pending : (p.utf8_needed ≡ 0) ⊎ ((p.utf8_len < p.utf8_needed) × (p.state ≡ State.ground))

pub new-IsValid : IsValid new
unfolding new
new-IsValid = record {
  params_room = refl;
  params_in = omega arith;
  acc_in = omega arith;
  inter_room = refl;
  inter_in = omega arith;
  osc_room = length-replicate {A = ℕ} max_osc 0;
  osc_in = omega arith;
  utf8_room = refl;
  utf8_in = omega arith;
  utf8_pending = inl refl;
}

module _ {p : Parser} where
  pub goto-IsValid : (s : State) → p.utf8_needed ≡ 0 → IsValid p → IsValid (goto p s)
  goto-IsValid s n v = ground arith

  pub reset_seq-IsValid : IsValid p → IsValid (reset_seq p)
  unfolding reset_seq
  reset_seq-IsValid v = ground arith

  pub push_inter-IsValid : (b : ℕ) → IsValid p → IsValid (push_inter p b)
  unfolding push_inter
  push_inter-IsValid b v = ground (arith, length-set p.intermediates p.inter_len b)

  pub push_digit-IsValid : (b : ℕ) → IsValid p → IsValid (push_digit p b)
  unfolding push_digit
  push_digit-IsValid b v = ground arith

  pub finish_param-IsValid : IsValid p → IsValid (finish_param p)
  unfolding finish_param
  finish_param-IsValid v = ground (arith, length-set p.params p.param_len (min p.param_acc u16_max))

  pub push_osc-IsValid : (b : ℕ) → IsValid p → IsValid (push_osc p b)
  unfolding push_osc
  push_osc-IsValid b v = ground (arith, length-set p.osc_buf p.osc_len b)

  pub start_utf8-IsValid :
      (b n : ℕ)
      → p.state ≡ State.ground
      → 1 < n
      → n ≤ max_utf8
      → IsValid p
      → IsValid (start_utf8 p b n)
  unfolding start_utf8
  start_utf8-IsValid b n g lo hi v = ground arith

  pub abort_utf8-IsValid : IsValid p → IsValid (abort_utf8 p).0
  unfolding abort_utf8
  abort_utf8-IsValid v = ground arith

  pub ground_utf8-IsValid :
      (b : ℕ) → p.state ≡ State.ground → IsValid p → IsValid (ground_utf8 p b).0
  unfolding ground_utf8 finish_utf8 abort_utf8
  ground_utf8-IsValid b g v = ground (arith, length-set p.utf8 p.utf8_len b)

-- The writes to the buffers leave an incomplete character as it is.
module _ (p : Parser) where
  pub needed-push_inter : (b : ℕ) → (push_inter p b).utf8_needed ≡ p.utf8_needed
  unfolding push_inter
  needed-push_inter b = ground arith

  pub needed-push_digit : (b : ℕ) → (push_digit p b).utf8_needed ≡ p.utf8_needed
  unfolding push_digit
  needed-push_digit b = refl

  pub needed-finish_param : (finish_param p).utf8_needed ≡ p.utf8_needed
  unfolding finish_param
  needed-finish_param = ground arith

  pub needed-reset_seq : (reset_seq p).utf8_needed ≡ p.utf8_needed
  unfolding reset_seq
  needed-reset_seq = refl
