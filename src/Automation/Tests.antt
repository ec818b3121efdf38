-- ===== src/Automation/Tests.antt =====
-- The dispatcher at a concrete input.
use rill.Prelude.{◌≡◌, max, List, [], ◌∷◌, none, take, filter}
use rill.Automation.Action.{RillAction, close_tab, run_command}
use rill.Automation.Dispatcher.{new, drain}
use rill.Automation.Queue.{is_valid, enqueue_all, drain-enqueue_all}

-- the second one names no tab
abbrev three_actions : List RillAction
three_actions =
    close_tab (b't' ∷ []) ∷ close_tab (b' ' ∷ []) ∷ run_command (b'l' ∷ b's' ∷ []) none ∷ []

drain-enqueue_all_example :
    ((drain (enqueue_all (new 2) three_actions)).1 ≡ take (max 2 1) (filter is_valid three_actions))
    × ((drain (enqueue_all (new 2) three_actions)).0.queue ≡ [])
drain-enqueue_all_example = drain-enqueue_all 2 three_actions
