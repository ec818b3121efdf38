-- ===== src/Parser/State.antt =====
-- The parser's fields, and the helpers that write its buffers (parser.rs, without the `mutate`
-- feature, as the default build has it).
use rill.Prelude.{
  ℕ, ◌+◌, ◌*◌, ◌-◌, ◌^◌, min, Bool, true, false, ◌||◌, List, [], Option, none, some, ltb, ◌==◌,
  in_range, if◌then◌else◌, take, set, replicate,
}

-- A call of the trait `Actions`. Characters are code points.
pub data Action : Type 0 where
  print : ℕ → Action
  execute : ℕ → Action
  csi : List ℕ → List ℕ → Bool → ℕ → Action
  esc : List ℕ → ℕ → Action
  osc : List ℕ → Action

pub data State : Type 0 where
  ground escape escape_intermediate : State
  csi_entry csi_param csi_intermediate csi_ignore : State
  osc_string osc_escape dcs_passthrough dcs_escape sos_pm_apc sos_escape : State

abbrev pub max_params : ℕ
max_params = 32

abbrev pub max_inter : ℕ
max_inter = 2

abbrev pub max_osc : ℕ
max_osc = 1024

abbrev pub max_utf8 : ℕ
max_utf8 = 4

abbrev pub u16_max : ℕ
u16_max = 2 ^ 16 - 1

abbrev pub u32_max : ℕ
u32_max = 2 ^ 32 - 1

-- The arrays are lists of their full length, the first `…_len` entries of which are in use.
pub record Parser : Type 0 where
  pub state : State
  pub params : List ℕ
  pub param_len : ℕ
  pub param_acc : ℕ
  pub intermediates : List ℕ
  pub inter_len : ℕ
  pub ignore : Bool
  pub osc_buf : List ℕ
  pub osc_len : ℕ
  pub utf8 : List ℕ
  pub utf8_len : ℕ
  pub utf8_needed : ℕ
  pub putback : Option ℕ

unfoldable pub new : Parser
new = record {
  state = ground;
  params = replicate max_params 0;
  param_len = 0;
  param_acc = 0;
  intermediates = replicate max_inter 0;
  inter_len = 0;
  ignore = false;
  osc_buf = replicate max_osc 0;
  osc_len = 0;
  utf8 = replicate max_utf8 0;
  utf8_len = 0;
  utf8_needed = 0;
  putback = none;
}

-- what a handler does: the parser after it, and the actions it calls
abbrev pub Out : Type 0
Out = Parser × List Action

abbrev pub silent : Parser → Out
silent p = (p, [])

abbrev pub goto : Parser → State → Parser
goto p s = record p { state = s }

abbrev pub reprocess : Parser → ℕ → Parser
reprocess p b = record p { putback = some b }

unfoldable pub reset_seq : Parser → Parser
reset_seq p = record p {
  params = replicate max_params 0;
  param_len = 0;
  param_acc = 0;
  intermediates = replicate max_inter 0;
  inter_len = 0;
  ignore = false;
  osc_len = 0;
}

-- A write past the end of an array would panic; Parser.Bounds says what keeps it from happening.
unfoldable pub push_inter : Parser → ℕ → Parser
push_inter p b =
    if ltb p.inter_len max_inter
    then record p { intermediates = set p.intermediates p.inter_len b; inter_len = p.inter_len + 1 }
    else record p { ignore = true }

-- `u32` arithmetic saturates; `b - b'0'` is only taken of a digit.
unfoldable pub push_digit : Parser → ℕ → Parser
push_digit p b =
    let acc = min u32_max (min u32_max (p.param_acc * 10) + (b - b'0')) in
    record p { param_acc = if ltb u16_max acc then u16_max else acc }

unfoldable pub finish_param : Parser → Parser
finish_param p =
    if ltb p.param_len max_params
    then record p {
      params = set p.params p.param_len (min p.param_acc u16_max);
      param_len = p.param_len + 1;
      param_acc = 0;
    }
    else record p { ignore = true; param_acc = 0 }

unfoldable pub push_osc : Parser → ℕ → Parser
push_osc p b =
    if ltb p.osc_len max_osc
    then record p { osc_buf = set p.osc_buf p.osc_len b; osc_len = p.osc_len + 1 }
    else record p { ignore = true }

-- the slices that the actions are given
abbrev pub param_slice : Parser → List ℕ
param_slice p = take p.param_len p.params

abbrev pub inter_slice : Parser → List ℕ
inter_slice p = take p.inter_len p.intermediates

abbrev pub osc_slice : Parser → List ℕ
osc_slice p = take p.osc_len p.osc_buf

-- `0x00..=0x17 | 0x19 | 0x1c..=0x1f`
abbrev pub is_c0 : ℕ → Bool
is_c0 b = in_range 0 0x17 b || b == 0x19 || in_range 0x1c 0x1f b

-- `0x18 | 0x1a`
abbrev pub is_cancel : ℕ → Bool
is_cancel b = b == 0x18 || b == 0x1a
