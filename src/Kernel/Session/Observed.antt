-- ===== src/Kernel/Session/Observed.antt =====
-- session.rs on a terminal whose calls are written down: what its reads returned, and which writes and
-- sizes it accepted. `observed t` answers as `t` does.
use rill.Prelude.{ℕ, ◌+◌, ◌≤◌, ◌≡◌, refl, List, [], ◌∷◌, ◌++◌, length, Result, ok, err, err-not-ok}
use rill.Kernel.Error.{Error}
use rill.Kernel.Session.State.{Session, Terminal, Winsize, Answer, IoEvent, record_event, and_then}
use rill.Kernel.Session.Output.{store}
use rill.Kernel.Session.Sound.{IsSound, record_event-IsSound, store-IsSound}
use rill.Ring.{u64_max}

pub data Effect : Type 0 where
  wrote : List ℕ → Effect
  sized : Winsize → Effect

-- the machine, the bytes that its reads returned, and the writes and sizes that succeeded, in order
pub record Seen (W : Type 0) : Type 0 where
  pub machine : W
  pub heard : List ℕ
  pub done : List Effect

-- what a read returned
abbrev pub heard_of : Result Error (List ℕ) → List ℕ
heard_of (ok bytes) = bytes
heard_of (err e) = []

-- what a call did, if it succeeded
abbrev pub done_of : Result Error (Unit {0}) → Effect → List Effect
done_of (ok x) e = e ∷ []
done_of (err x) e = []

-- the terminal's answer, with the machine's next state
abbrev quiet : {W A : Type 0} → Seen W → W × A → Seen W × A
quiet w out = (record { machine = out.0; heard = w.heard; done = w.done }, out.1)

abbrev acts :
    {W : Type 0} → Effect → Seen W → W × Result Error (Unit {0}) → Seen W × Result Error (Unit {0})
acts e w out =
    (record { machine = out.0; heard = w.heard; done = w.done ++ done_of out.1 e }, out.1)

abbrev hears : {W : Type 0} → Seen W → W × Result Error (List ℕ) → Seen W × Result Error (List ℕ)
hears w out = (record { machine = out.0; heard = w.heard ++ heard_of out.1; done = w.done }, out.1)

abbrev pub observed : {W : Type 0} → Terminal W → Terminal (Seen W)
observed t = record {
  write_all = λ bytes w. acts (wrote bytes) w (t.write_all bytes w.machine);
  read = λ n w. hears w (t.read n w.machine);
  set_winsize = λ size w. acts (sized size) w (t.set_winsize size w.machine);
  try_wait = λ w. quiet w (t.try_wait w.machine);
  terminate = λ w. quiet w (t.terminate w.machine);
  fg_cwd = λ w. quiet w (t.fg_cwd w.machine);
  child_id = λ w. t.child_id w.machine;
  now = λ w. quiet w (t.now w.machine);
  grace_variable = t.grace_variable;
}

-- the session is sound for the history `h`, and `h` is all that the terminal's reads returned
abbrev pub Tracks : {W : Type 0} → List ℕ → Session (Seen W) → Type 0
Tracks h s = (s.pty.heard ≡ h) × IsSound h s

module _ {W : Type 0} {h : List ℕ} where
  pub record_event-Tracks :
      (e : IoEvent) (s : Session (Seen W)) → Tracks h s → Tracks h (record_event e s)
  unfolding record_event
  record_event-Tracks e s v = (v.0, record_event-IsSound e s v.1)

  -- the bytes that were read, and then stored
  pub store-Tracks :
      (bytes : List ℕ) (s : Session (Seen W))
      → length h + length bytes ≤ u64_max
      → s.pty.heard ≡ h ++ bytes
      → IsSound h s
      → Tracks (h ++ bytes) (store bytes s)
  unfolding store record_event
  store-Tracks bytes s fits e v = (e, store-IsSound bytes s fits v)

-- what a call and the rest of the method leave, whether the call succeeds or fails
pub and_then-Cases :
    {W A B : Type 0} (P : Session W → Type 0) (r : Answer W A) (k : Session W → A → Answer W B)
    → ((a : A) → r.1 ≡ ok a → P (k r.0 a).0)
    → ((e : Error) → r.1 ≡ err e → P r.0)
    → P (and_then r k).0
and_then-Cases P (s, ok a) k v w = v a refl
and_then-Cases P (s, err e) k v w = w e refl

-- a method that succeeds did so after its first call did
pub and_then-Succeeds :
    {W A B : Type 0} (P : Session W → Type 0) (r : Answer W A) (k : Session W → A → Answer W B)
    {b : B}
    → (and_then r k).1 ≡ ok b
    → ((a : A) → r.1 ≡ ok a → (k r.0 a).1 ≡ ok b → P (k r.0 a).0)
    → P (and_then r k).0
and_then-Succeeds P (s, ok a) k e v = v a refl e
and_then-Succeeds P (s, err x) k e v = err-not-ok e
