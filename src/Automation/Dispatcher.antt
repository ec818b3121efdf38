-- ===== src/Automation/Dispatcher.antt =====
-- automation.rs: `ActionDispatcher`, the bounded queue of valid actions.
use rill.Prelude.{ℕ, max, leb, if◌then◌else◌, List, [], ◌∷◌, ◌++◌, length, Result, ok, err}
use rill.Automation.Action.{RillAction, ActionValidationError, validate}

pub data ActionDispatchError : Type 0 where
  queue_full : ℕ → ActionDispatchError
  validation : ActionValidationError → ActionDispatchError

pub record ActionDispatcher : Type 0 where
  pub queue : List RillAction
  pub limit : ℕ

unfoldable pub new : ℕ → ActionDispatcher
new limit = record { queue = []; limit = max limit 1 }

abbrev pub Dispatched : Type 0
Dispatched = ActionDispatcher × Result ActionDispatchError (Unit {0})

-- a valid action, if there is room
abbrev pub push : ActionDispatcher → RillAction → Dispatched
push d action =
    if leb d.limit (length d.queue)
    then (d, err (queue_full d.limit))
    else (record d { queue = d.queue ++ action ∷ [] }, ok tt)

unfoldable pub enqueue : ActionDispatcher → RillAction → Dispatched
enqueue d action = elim (validate action) [ err e ↦ (d, err (validation e)) | ok _ ↦ push d action ]

-- the loop of `drain` takes the queue from the front
unfoldable pub drain : ActionDispatcher → ActionDispatcher × List RillAction
drain d = (record d { queue = [] }, d.queue)
