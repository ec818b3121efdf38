-- ===== src/Automation/Event.antt =====
-- automation.rs: the kinds of events and their class, and the policy of the host.
use rill.Prelude.{ℕ, Bool, true, false}

pub data EventClass : Type 0 where
  v1 future not_allowed : EventClass

pub data RillEventKind : Type 0 where
  workspace_opened workspace_closed tab_created tab_focused pane_created : RillEventKind
  pane_focused cwd_changed command_started command_completed bell : RillEventKind
  agent_started agent_completed agent_attention attention_created config_reloaded : RillEventKind

unfoldable pub maturity : RillEventKind → EventClass
maturity agent_started = future
maturity agent_completed = future
maturity agent_attention = future
maturity attention_created = future
maturity _ = v1

pub record LuaHostPolicy : Type 0 where
  pub enabled : Bool
  pub safe_mode : Bool
  pub max_actions_per_event : ℕ
  pub timeout_ms : ℕ
  pub queue_limit : ℕ

-- `LuaHostPolicy::default`
abbrev pub default_policy : LuaHostPolicy
default_policy = record {
  enabled = false;
  safe_mode = true;
  max_actions_per_event = 16;
  timeout_ms = 50;
  queue_limit = 256;
}
