-- ===== src/Kernel/Session/Order.antt =====
-- session.rs: the order in which the input and a new size reach the terminal.
use rill.Prelude.{
  ℕ, zero, suc, ◌+◌, ◌-◌, ◌≤◌, ◌<◌, ◌==◌, ◌≡◌, refl, sym, ap, subst, ◌∙◌, false, List, [], ◌∷◌,
  ◌++◌, length, drop, length-append, length-drop, append-nil, append_assoc, drop-append_le,
  drop-drop, arith, Bool-cases, branch, ==→eq, inl, inr, ok, Result-cases, err-not-ok,
}
use rill.Kernel.Session.Quiet.{on_option-Keeps}
use rill.Attach.Frame.{resize_frame}
use rill.Kernel.Session.State.{
  Session, Terminal, Winsize, IoEvent, and_then, record_event, room, winsize, pty_write,
  journal_cap,
}
use rill.Kernel.Session.Input.{
  expire_input_lease_if_due, lease_blocks, lease_blocks_input, flush, flush_input, sent,
}
use rill.Kernel.Session.Frames.{on_frame, on_resize, set_size}
use rill.Kernel.Session.Observed.{Seen, sized, observed}
use rill.Kernel.Session.Effects.{written, expire-done, resize-done}

-- the events of a journal, without their numbers
abbrev pub events : List (ℕ × IoEvent) → List IoEvent
events [] = []
events (x ∷ j) = x.1 ∷ events j

-- the last `journal_cap` events
abbrev pub recent : List IoEvent → List IoEvent
recent es = drop (length es - journal_cap) es

length-events : (j : List (ℕ × IoEvent)) → length (events j) ≡ length j
length-events [] = refl
length-events (x ∷ j) = ap suc (length-events j)

events-append : (j k : List (ℕ × IoEvent)) → events (j ++ k) ≡ events j ++ events k
events-append [] k = refl
events-append (x ∷ j) k = ap (◌∷◌ x.1) (events-append j k)

events-drop : (n : ℕ) (j : List (ℕ × IoEvent)) → events (drop n j) ≡ drop n (events j)
events-drop zero j = refl
events-drop (suc n) [] = refl
events-drop (suc n) (x ∷ j) = events-drop n j

-- what is forgotten first does not matter
recent-recent-append : (xs ys : List IoEvent) → recent (recent xs ++ ys) ≡ recent (xs ++ ys)
recent-recent-append xs ys =
    let k = length xs - journal_cap in
    let a = length (drop k (xs ++ ys)) - journal_cap in
    let joined = drop-append_le k xs ys (omega arith) in
    let total = length-append xs ys in
    let left = length-drop k (xs ++ ys) in
    ap recent (sym joined)
    ∙ drop-drop a k (xs ++ ys)
    ∙ ap (λ n. drop n (xs ++ ys)) {y = length (xs ++ ys) - journal_cap} (omega arith)

-- a journal after further events
record Adds (before : List IoEvent) (es : List IoEvent) (journal : List (ℕ × IoEvent))
    : Type 0 where
  short : length journal ≤ journal_cap
  shown : events journal ≡ recent (before ++ es)

-- one more event in a journal that has at most `journal_cap`
one_more :
    (j : List (ℕ × IoEvent)) (x : ℕ × IoEvent)
    → length j ≤ journal_cap
    → (length (room j ++ x ∷ []) ≤ journal_cap)
      × (events (room j ++ x ∷ []) ≡ recent (events j ++ x.1 ∷ []))
one_more j x short = elim (Bool-cases (length j == journal_cap)) [
  | inl full ↦
      let is_full : length j ≡ journal_cap = ==→eq (length j) journal_cap full in
      rw full (
        omega (arith, length-append (drop 1 j) (x ∷ []), length-drop 1 j),
        events-append (drop 1 j) (x ∷ [])
            ∙ ap (λ es. es ++ x.1 ∷ []) (events-drop 1 j)
            ∙ sym (drop-append_le 1 (events j) (x.1 ∷ []) (omega (arith, length-events j)))
            ∙ ap (λ n. drop n (events j ++ x.1 ∷ [])) {x = 1}
                {y = length (events j ++ x.1 ∷ []) - journal_cap}
                (omega (arith, length-events j, length-append (events j) (x.1 ∷ []))),
      )
  | inr space ↦
      let fits : length j < journal_cap = ground arith in
      rw space (
        omega (arith, length-append j (x ∷ [])),
        events-append j (x ∷ [])
            ∙ ap (λ n. drop n (events j ++ x.1 ∷ [])) {x = 0}
                {y = length (events j ++ x.1 ∷ []) - journal_cap}
                (omega (arith, length-events j, length-append (events j) (x.1 ∷ []))),
      )
]

record_event-Adds :
    {W : Type 0} {before es : List IoEvent} (e : IoEvent) (s : Session W)
    → Adds before es s.journal
    → Adds before (es ++ e ∷ []) (record_event e s).journal
unfolding record_event
record_event-Adds {W} {before} {es} e s v =
    let written = one_more s.journal (s.seq + 1, e) v.short in
    record {
      short = written.0;
      shown =
          written.1
          ∙ ap (λ xs. recent (xs ++ e ∷ [])) v.shown
          ∙ recent-recent-append (before ++ es) (e ∷ [])
          ∙ ap recent (append_assoc before es (e ∷ []));
    }

-- the events of a queue that is written
abbrev pub writes : List (List ℕ) → List IoEvent
writes [] = []
writes (buf ∷ queue) = pty_write (length buf) ∷ writes queue

module _ {W : Type 0} (t : Terminal W) where
  flush-Adds :
      (s : Session W) (before es : List IoEvent) (queue : List (List ℕ))
      → Adds before es s.journal
      → (flush t queue s).1 ≡ ok tt
      → Adds before (es ++ writes queue) (flush t queue s).0.journal
        × ((flush t queue s).0.pending_input ≡ [])
  unfolding flush
  flush-Adds s before es [] v done =
      (subst (λ es. Adds before es s.journal) (sym (append-nil es)) v, refl)
  flush-Adds s before es (buf ∷ queue) v done = elim (Result-cases (t.write_all buf s.pty).1) [
    | inl (_, e) ↦
        let s' = record s { pty = (t.write_all buf s.pty).0; pending_input = queue } in
        let rest =
          flush-Adds (sent t buf s') before (es ++ pty_write (length buf) ∷ []) queue
            (record_event-Adds (pty_write (length buf)) s' v) (rw e at done) in
        rw (e, ← append_assoc es (pty_write (length buf) ∷ []) (writes queue)) rest
    | inr (x, e) ↦ err-not-ok (rw e at done)
  ]

  -- looking at the lease leaves the input and the journal alone
  expire-journal : (s : Session W) → (expire_input_lease_if_due t s).journal ≡ s.journal
  unfolding expire_input_lease_if_due
  expire-journal s =
      on_option-Keeps (λ (s' : Session W). s'.journal ≡ s.journal) s.lease_until s _ refl
        (λ until. branch _ (λ (s' : Session W). s'.journal ≡ s.journal) refl refl)

  expire-pending : (s : Session W) → (expire_input_lease_if_due t s).pending_input ≡ s.pending_input
  unfolding expire_input_lease_if_due
  expire-pending s =
      on_option-Keeps (λ (s' : Session W). s'.pending_input ≡ s.pending_input) s.lease_until s _
        refl (λ until. branch _ (λ (s' : Session W). s'.pending_input ≡ s.pending_input) refl refl)

  set_size-Adds :
      (s : Session W) (before es : List IoEvent) (size : Winsize)
      → Adds before es s.journal
      → s.pending_input ≡ []
      → (set_size t size s).1 ≡ ok tt
      → Adds before (es ++ winsize size ∷ []) (set_size t size s).0.journal
        × ((set_size t size s).0.pending_input ≡ [])
        × ((set_size t size s).0.size ≡ size)
  unfolding record_event
  set_size-Adds s before es size v none_left done =
      elim (Result-cases (t.set_winsize size s.pty).1) [
        | inl (_, e) ↦ rw e (
          record_event-Adds (winsize size)
              (record s { size = size; pty = (t.set_winsize size s.pty).0 }) v,
          none_left,
          refl,
        )
        | inr (x, e) ↦ err-not-ok (rw e at done)
      ]

  -- the input, and then the size
  run_resize :
      (s : Session W) (before : List IoEvent) (size : Winsize)
      → Adds before [] s.journal
      → (and_then (flush t s.pending_input s) (λ s done. set_size t size s)).1 ≡ ok tt
      → Adds before
          (writes s.pending_input ++ winsize size ∷ [])
          (and_then (flush t s.pending_input s) (λ s done. set_size t size s)).0.journal
        × ((and_then (flush t s.pending_input s) (λ s done. set_size t size s)).0.pending_input
            ≡ [])
        × ((and_then (flush t s.pending_input s) (λ s done. set_size t size s)).0.size ≡ size)
  run_resize s before size v done = elim (Result-cases (flush t s.pending_input s).1) [
    | inl (_, e) ↦
        let flushed = flush-Adds s before [] s.pending_input v e in
        rw e (
          set_size-Adds (flush t s.pending_input s).0 before (writes s.pending_input) size flushed.0
            flushed.1 (rw e at done))
    | inr (x, e) ↦ err-not-ok (rw e at done)
  ]

-- a journal before any further event
start : (j : List (ℕ × IoEvent)) → length j ≤ journal_cap → Adds (events j) [] j
start j short = record {
  short = short;
  shown =
      sym (append-nil (events j))
      ∙ ap (λ n. drop n (events j ++ [])) {x = 0} {y = length (events j ++ []) - journal_cap}
          (omega (arith, length-events j, length-append (events j) []));
}

-- What a new size leaves: what the terminal accepted, the journal, the queue and the size.
pub record IsResized {W : Type 0} (s : Session (Seen W)) (size : Winsize) (s' : Session (Seen W))
    : Type 0 where
  pub reached : s'.pty.done ≡ s.pty.done ++ (written s.pending_input ++ sized size ∷ [])
  pub shown :
      events s'.journal ≡ recent (events s.journal ++ (writes s.pending_input ++ winsize size ∷ []))
  pub empty : s'.pending_input ≡ []
  pub sized_to : s'.size ≡ size

-- A new size reaches the terminal behind all the input that was queued before it: if the lease does
-- not block and the call succeeds, the terminal accepted each queued buffer, whole and in order, then
-- the new size, and nothing else was written or set. The journal has one write for each buffer and
-- the new size behind them, the oldest events forgotten; nothing stays queued, and the session has
-- the new size. The journal had at most 4096 events.
pub on_frame-resize-IsResized :
    {W : Type 0} (t : Terminal W) (s : Session (Seen W)) (cols rows px_w px_h : ℕ)
    → length s.journal ≤ journal_cap
    → lease_blocks (observed t) (expire_input_lease_if_due (observed t) s) ≡ false
    → (on_frame (observed t) (resize_frame cols rows px_w px_h) s).1 ≡ ok tt
    → IsResized s
        (record { cols = cols; rows = rows; px_w = px_w; px_h = px_h })
        (on_frame (observed t) (resize_frame cols rows px_w px_h) s).0
unfolding on_frame on_resize lease_blocks_input flush_input
on_frame-resize-IsResized t s cols rows px_w px_h short unblocked done =
    let s1 = expire_input_lease_if_due (observed t) s in
    let size : Winsize = record { cols = cols; rows = rows; px_w = px_w; px_h = px_h } in
    let same = expire-pending (observed t) s in
    let run =
      run_resize (observed t) s1 (events s.journal) size
        (subst (λ j. Adds (events s.journal) [] j) (sym (expire-journal (observed t) s))
          (start s.journal short))
        (rw unblocked at done) in
    rw unblocked (record {
      reached =
          resize-done t size s1 (rw unblocked at done)
          ∙ ap (λ es. es ++ (written s1.pending_input ++ sized size ∷ [])) (expire-done t s)
          ∙ ap (λ q. s.pty.done ++ (written q ++ sized size ∷ [])) same;
      shown =
          run.0.shown ∙ ap (λ q. recent (events s.journal ++ (writes q ++ winsize size ∷ []))) same;
      empty = run.1;
      sized_to = run.2;
    })
