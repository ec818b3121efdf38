-- ===== src/Kernel/Session/Tests.antt =====
-- The session at concrete inputs, on a terminal that accepts all input and prints `hi` at each read.
use rill.Prelude.{
  ℕ, zero, suc, ◌+◌, ◌*◌, ◌≡◌, ◌≤◌, refl, false, none, some, List, [], ◌∷◌, take, length, filter,
  ok, ok-injective, arith, subst,
}
use rill.Attach.Frame.{bytes_frame, credit_frame, resize_frame, exit_frame, attach_frame}
use rill.Kernel.Checkpoint.{stored}
use rill.Kernel.Session.State.{
  Session, Terminal, Winsize, spawned, recovery, attached, is_some, enqueue_outbound,
}
use rill.Kernel.Session.Input.{
  detach, take_input_lease, expire_input_lease_if_due, flush, flush_input, lease_blocks_input,
}
use rill.Kernel.Session.Output.{read_buf, on_pty_readable}
use rill.Kernel.Session.Frames.{on_frame, on_resize, on_attach, input_with_lease}
use rill.Kernel.Session.Observed.{Seen, observed, Tracks}
use rill.Kernel.Session.Sound.{spawned-IsSound}
use rill.Kernel.Session.Run.{calls, calls-Extends, frame_call, readable_call, drain_call}
use rill.Kernel.Session.Reads.{IsBounded, Extends}
use rill.Kernel.Session.Order.{IsResized, on_frame-resize-IsResized}
use rill.Kernel.Session.Promise.{
  IsSpent, IsReported, recovered, control, recovery-recovered, on_pty_readable-IsSpent,
  detach-on_frame-IsReported, input_with_lease-take_input_lease,
}

abbrev greeting : List ℕ
greeting = b'h' ∷ b'i' ∷ []

-- the machine counts the calls of the clock
abbrev echo : Terminal ℕ
echo = record {
  write_all = λ bytes w. (w, ok tt);
  read = λ n w. (w, ok (take n greeting));
  set_winsize = λ size w. (w, ok tt);
  try_wait = λ w. (w, ok none);
  terminate = λ w. (w, ok tt);
  fg_cwd = λ w. (w, ok "/");
  child_id = λ w. 7;
  now = λ w. (w + 1, w);
  grace_variable = none;
}

length-take_le : (n : ℕ) (xs : List ℕ) → length (take n xs) ≤ n
length-take_le zero xs = omega arith
length-take_le (suc n) [] = omega arith
length-take_le (suc n) (x ∷ xs) = omega (arith, length-take_le n xs)

echo-IsBounded : IsBounded echo
echo-IsBounded n w bytes e =
    subst (λ bs. length bs ≤ n) (ok-injective e) (length-take_le n greeting)

abbrev window : Winsize
window = record { cols = 80; rows = 24; px_w = 640; px_h = 384 }

abbrev shell : Session ℕ
shell = spawned 0 window false

-- the same, on a terminal whose calls are written down
abbrev fresh : Seen ℕ
fresh = record { machine = 0; heard = []; done = [] }

abbrev watched : Session (Seen ℕ)
watched = spawned fresh window false

watched-Tracks : Tracks [] watched
unfolding spawned
watched-Tracks = (refl, spawned-IsSound fresh window false)

calls-Extends_example : Extends (4 * read_buf) [] (
    calls (observed echo) watched (
      frame_call (attach_frame 1 none 1 false)
      ∷ frame_call (credit_frame 5)
      ∷ readable_call
      ∷ drain_call none
      ∷ []))
calls-Extends_example =
    calls-Extends echo watched []
      (frame_call (attach_frame 1 none 1 false)
        ∷ frame_call (credit_frame 5)
        ∷ readable_call
        ∷ drain_call none
        ∷ [])
      echo-IsBounded (omega arith) watched-Tracks

-- two buffers wait for the child
abbrev typing : Session (Seen ℕ)
typing = record watched { pending_input = greeting ∷ (b'!' ∷ []) ∷ [] }

on_frame-resize-IsResized_example :
    IsResized typing
      (record { cols = 100; rows = 30; px_w = 800; px_h = 480 })
      (on_frame (observed echo) (resize_frame 100 30 800 480) typing).0
unfolding spawned on_frame on_resize lease_blocks_input flush_input flush expire_input_lease_if_due
on_frame-resize-IsResized_example =
    on_frame-resize-IsResized echo typing 100 30 800 480 (omega arith) refl refl

abbrev granted : Session (Seen ℕ)
granted = record watched { credit = 5; observers = 1 }

on_pty_readable-IsSpent_example : IsSpent [] 5 0 2 (on_pty_readable (observed echo) granted).0
unfolding spawned on_pty_readable
on_pty_readable-IsSpent_example =
    on_pty_readable-IsSpent echo granted 2 echo-IsBounded (omega arith) refl

-- a checkpoint at the start of the history
abbrev marked : Session ℕ
marked = record shell { checkpoint = some (stored 0 9 []) }

recovery-recovered_example : recovery marked ≡ recovered [] (some (stored 0 9 []))
recovery-recovered_example = recovery-recovered [] marked (spawned-IsSound 0 window false)

-- the child died, and a frame of output waits
abbrev dying : Session ℕ
dying = record shell {
  child_exit = some 9;
  attach_generation = some 1;
  outbound = bytes_frame greeting ∷ exit_frame 9 ∷ [];
}

detach-on_frame-IsReported_example :
    IsReported
      (filter control (bytes_frame greeting ∷ exit_frame 9 ∷ []))
      2
      9
      (on_frame echo (attach_frame 2 none 1 false) (detach echo dying)).0
detach-on_frame-IsReported_example = detach-on_frame-IsReported echo dying 2 9 1 none refl

input_with_lease-take_input_lease_example :
    input_with_lease echo 3 greeting (take_input_lease echo 4 shell)
    ≡ (expire_input_lease_if_due echo (take_input_lease echo 4 shell), ok tt)
input_with_lease-take_input_lease_example =
    input_with_lease-take_input_lease echo shell 3 4 greeting (omega arith)

-- the client that learns of the death a second time
twice_reported :
    (on_frame echo (attach_frame 2 none 1 false) (detach echo dying)).0.outbound
    ≡ exit_frame 9 ∷ exit_frame 9 ∷ []
unfolding on_frame on_attach detach spawned take_input_lease filter attached is_some
    enqueue_outbound
twice_reported = refl
