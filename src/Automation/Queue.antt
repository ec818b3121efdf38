-- ===== src/Automation/Queue.antt =====
-- automation.rs: what comes out of the queue.
use rill.Prelude.{
  ℕ, ◌≤◌, ◌≡◌, refl, sym, ap, ◌∙◌, max, Bool, true, false, leb, List, [], ◌∷◌, ◌++◌, length, take,
  take_all, take-append, filter, if_taken, if_skipped, ok, err, Result-cases, Bool-cases, inl, inr,
  arith, append_assoc, append-nil, length-append,
}
use rill.Automation.Action.{RillAction, ActionValidationError, validate}
use rill.Automation.Dispatcher.{ActionDispatcher, Dispatched, new, push, enqueue, drain}

unfoldable pub is_valid : RillAction → Bool
is_valid action = elim (validate action) [ ok _ ↦ true | err e ↦ false ]

-- the dispatcher after actions, some of which it refuses
unfoldable pub enqueue_all : ActionDispatcher → List RillAction → ActionDispatcher
enqueue_all d [] = d
enqueue_all d (a ∷ actions) = enqueue_all (enqueue d a).0 actions

valid : (a : RillAction) {u : Unit} → validate a ≡ ok u → is_valid a ≡ true
unfolding is_valid
valid a e = rw (is_valid, e)

invalid : (a : RillAction) {x : ActionValidationError} → validate a ≡ err x → is_valid a ≡ false
unfolding is_valid
invalid a e = rw (is_valid, e)

-- the three ways `enqueue` ends
enqueue-invalid :
    (d : ActionDispatcher) (a : RillAction) {x : ActionValidationError}
    → validate a ≡ err x
    → (enqueue d a).0 ≡ d
unfolding enqueue
enqueue-invalid d a e = rw (enqueue, e)

enqueue-push :
    (d : ActionDispatcher) (a : RillAction) {u : Unit}
    → validate a ≡ ok u
    → (enqueue d a).0 ≡ (push d a).0
unfolding enqueue
enqueue-push d a e = rw (enqueue, e)

push-full :
    (d : ActionDispatcher) (a : RillAction) → leb d.limit (length d.queue) ≡ true → (push d a).0 ≡ d
push-full d a full = ap (λ (r : Dispatched). r.0) (if_taken (leb d.limit (length d.queue)) _ full)

push-room :
    (d : ActionDispatcher) (a : RillAction)
    → leb d.limit (length d.queue) ≡ false
    → (push d a).0 ≡ record d { queue = d.queue ++ a ∷ [] }
push-room d a room = ap (λ (r : Dispatched). r.0) (if_skipped (leb d.limit (length d.queue)) _ room)

-- a queue that is full keeps what it has
take-full : (n : ℕ) (xs ys : List RillAction) → length xs ≡ n → take n (xs ++ ys) ≡ xs
take-full n xs ys e = ap (λ k. take k (xs ++ ys)) (sym e) ∙ take-append xs ys

enqueue_all-queue :
    (d : ActionDispatcher) (actions : List RillAction)
    → length d.queue ≤ d.limit
    → (enqueue_all d actions).queue ≡ take d.limit (d.queue ++ filter is_valid actions)
unfolding enqueue_all filter
enqueue_all-queue d [] le =
    sym (ap (take d.limit) (append-nil d.queue) ∙ take_all d.queue d.limit le)
enqueue_all-queue d (a ∷ actions) le = elim (Result-cases (validate a)) [
  | inr (x, e) ↦
      rw (enqueue_all, enqueue-invalid d a e, invalid a e) (enqueue_all-queue d actions le)
  | inl (_, e) ↦ elim (Bool-cases (leb d.limit (length d.queue))) [
    | inl full ↦
        let same : length d.queue ≡ d.limit = ground arith in
        rw (enqueue_all, enqueue-push d a e, push-full d a full, valid a e)
          (enqueue_all-queue d actions le
            ∙ take-full d.limit d.queue (filter is_valid actions) same
            ∙ sym (take-full d.limit d.queue (a ∷ filter is_valid actions) same))
    | inr room ↦
        let fits : length (d.queue ++ a ∷ []) ≤ d.limit =
          ground (arith, length-append d.queue (a ∷ [])) in
        rw (enqueue_all, enqueue-push d a e, push-room d a room, valid a e)
          (enqueue_all-queue (record d { queue = d.queue ++ a ∷ [] }) actions fits
            ∙ ap (take d.limit) (append_assoc d.queue (a ∷ []) (filter is_valid actions)))
  ]
]

-- Whatever actions are enqueued in a new dispatcher, draining it gives the valid ones among them, in
-- their order, as many as the limit allows (one at least), and leaves an empty queue.
pub drain-enqueue_all :
    (limit : ℕ) (actions : List RillAction)
    → let drained = drain (enqueue_all (new limit) actions) in
      (drained.1 ≡ take (max limit 1) (filter is_valid actions)) × (drained.0.queue ≡ [])
unfolding drain new
drain-enqueue_all limit actions = (enqueue_all-queue (new limit) actions (omega arith), refl)
