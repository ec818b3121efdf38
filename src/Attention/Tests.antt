-- ===== src/Attention/Tests.antt =====
-- The theorems about the attention queue at a concrete queue.
use rill.Prelude.{str_eq→≢, ◌≡◌, refl, true, filter}
use rill.Attention.Queue.{
  AttentionQueue, approval, failed, needs_input, new, enqueue, is_for, ViewEvent,
}
use rill.Attention.Overflow.{
  actionable, pushed, IsBounded, new-IsBounded, enqueue-filter, enqueue-IsBounded,
}

-- two entries of pane "a" and one of pane "b", a cap of one
abbrev busy : AttentionQueue
busy =
    (enqueue (enqueue (enqueue (new 1) "a" approval "agent" 10).0 "a" failed "job" 20).0 "b"
      needs_input "agent" 30).0

enqueue-filter_example :
    (filter actionable (enqueue busy "a" failed "job" 40).0.entries
      ≡ filter actionable (pushed busy "a" failed "job" 40))
    × (filter (is_for "b") (enqueue busy "a" failed "job" 40).0.entries
        ≡ filter (is_for "b") busy.entries)
enqueue-filter_example = enqueue-filter busy "a" "b" failed "job" 40 (str_eq→≢ "b" "a" refl)

enqueue-IsBounded_example : IsBounded (enqueue (new 1) "a" approval "agent" 10).0
enqueue-IsBounded_example = enqueue-IsBounded (new 1) "a" approval "agent" 10 (new-IsBounded 1)

abbrev view : ViewEvent
view = record { visible = true; key = true; dwell_ms = 250 }
