-- ===== src/Kernel/Session/Effects.antt =====
-- session.rs: what `flush_input` and a resize do to the terminal.
use rill.Prelude.{
  ℕ, ◌≡◌, refl, sym, ap, ◌∙◌, List, [], ◌∷◌, ◌++◌, append-nil, append_assoc, branch, ok,
}
use rill.Kernel.Session.State.{Session, Terminal, Winsize, on_pty, and_then, record_event}
use rill.Kernel.Session.Input.{expire_input_lease_if_due, flush, sent}
use rill.Kernel.Session.Frames.{set_size}
use rill.Kernel.Session.Quiet.{on_option-Keeps}
use rill.Kernel.Session.Observed.{Seen, Effect, wrote, sized, observed, done_of, and_then-Succeeds}

-- the queue, as writes that the terminal accepted
abbrev pub written : List (List ℕ) → List Effect
written [] = []
written (buf ∷ queue) = wrote buf ∷ written queue

module _ {W : Type 0} (t : Terminal W) where
  -- a clock that is read writes nothing
  pub expire-done :
      (s : Session (Seen W)) → (expire_input_lease_if_due (observed t) s).pty.done ≡ s.pty.done
  unfolding expire_input_lease_if_due
  expire-done s =
      on_option-Keeps (λ (s' : Session (Seen W)). s'.pty.done ≡ s.pty.done) s.lease_until s _ refl
        (λ until. branch _ (λ (s' : Session (Seen W)). s'.pty.done ≡ s.pty.done) refl refl)

  flush-done :
      (queue : List (List ℕ)) (s : Session (Seen W))
      → (flush (observed t) queue s).1 ≡ ok tt
      → (flush (observed t) queue s).0.pty.done ≡ s.pty.done ++ written queue
  unfolding flush record_event
  flush-done [] s done = sym (append-nil s.pty.done)
  flush-done (buf ∷ queue) s done =
      let first = on_pty ((observed t).write_all buf) (record s { pending_input = queue }) in
      and_then-Succeeds
        (λ (s' : Session (Seen W)). s'.pty.done ≡ s.pty.done ++ (wrote buf ∷ written queue)) first _
        done
        (λ a e done.
          flush-done queue (sent (observed t) buf first.0) done
          ∙ ap (λ r. (s.pty.done ++ done_of r (wrote buf)) ++ written queue) e
          ∙ append_assoc s.pty.done (wrote buf ∷ []) (written queue))

  set_size-done :
      (size : Winsize) (s : Session (Seen W))
      → (set_size (observed t) size s).1 ≡ ok tt
      → (set_size (observed t) size s).0.pty.done ≡ s.pty.done ++ sized size ∷ []
  unfolding record_event
  set_size-done size s done =
      and_then-Succeeds (λ (s' : Session (Seen W)). s'.pty.done ≡ s.pty.done ++ sized size ∷ [])
        (on_pty ((observed t).set_winsize size) (record s { size = size })) _ done
        (λ a e done. ap (λ r. s.pty.done ++ done_of r (sized size)) e)

  -- the queued input, and then the size
  pub resize-done :
      (size : Winsize) (s : Session (Seen W))
      → (and_then (flush (observed t) s.pending_input s) (λ s done. set_size (observed t) size s)).1
        ≡ ok tt
      → (and_then
          (flush (observed t) s.pending_input s)
          (λ s done. set_size (observed t) size s)).0.pty.done
        ≡ s.pty.done ++ (written s.pending_input ++ sized size ∷ [])
  resize-done size s done =
      let queue = s.pending_input in
      let first = flush (observed t) queue s in
      and_then-Succeeds
        (λ (s' : Session (Seen W)). s'.pty.done ≡ s.pty.done ++ (written queue ++ sized size ∷ []))
        first (λ s done. set_size (observed t) size s) done
        (λ a e done.
          set_size-done size first.0 done
          ∙ ap (λ es. es ++ sized size ∷ []) (flush-done queue s e)
          ∙ append_assoc s.pty.done (written queue) (sized size ∷ []))
