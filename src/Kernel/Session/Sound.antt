-- ===== src/Kernel/Session/Sound.antt =====
-- session.rs: what a session keeps whatever is called, and the calls that leave it alone.
use rill.Prelude.{ℕ, ◌+◌, ◌≤◌, ◌≡◌, refl, ◌∙◌, Bool, List, [], ◌++◌, length, length-append, arith}
use rill.Ring.{new, ByteRing, u64_max, append, saturating_add}
use rill.Ring.History.{Holds, append-Holds, cap-append, new-Holds}
use rill.Kernel.Session.State.{Session, Winsize, IoEvent, ring_cap, spawned, record_event, pty_read}
use rill.Kernel.Session.Output.{store}
use rill.Kernel.Session.Journal.{IsNumbered, record_event-IsNumbered, empty-IsNumbered}

-- the history of `h`, of which the ring has the last `ring_cap` bytes, and the journal's numbers
pub record Keeps (h : List ℕ) (ring : ByteRing) (delivered seq : ℕ) (journal : List (ℕ × IoEvent))
    : Type 0 where
  pub held : Holds h ring
  pub cap_is : ring.cap ≡ ring_cap
  pub counted : delivered ≡ length h
  pub numbered : IsNumbered seq journal

abbrev pub IsSound : {W : Type 0} → List ℕ → Session W → Type 0
IsSound h s = Keeps h s.ring s.bytes_delivered s.seq s.journal

pub spawned-IsSound :
    {W : Type 0} (w : W) (size : Winsize) (e : Bool) → IsSound [] (spawned w size e)
unfolding spawned new
spawned-IsSound w size e = record {
  held = new-Holds ring_cap;
  cap_is = refl;
  counted = refl;
  numbered = empty-IsNumbered;
}

pub record_event-IsSound :
    {W : Type 0} {h : List ℕ} (e : IoEvent) (s : Session W)
    → IsSound h s
    → IsSound h (record_event e s)
unfolding record_event
record_event-IsSound e s v = record {
  held = v.held;
  cap_is = v.cap_is;
  counted = v.counted;
  numbered = record_event-IsNumbered s.seq s.journal e v.numbered;
}

-- the bytes that are read join the history
pub store-IsSound :
    {W : Type 0} {h : List ℕ} (bytes : List ℕ) (s : Session W)
    → length h + length bytes ≤ u64_max
    → IsSound h s
    → IsSound (h ++ bytes) (store bytes s)
unfolding store
store-IsSound {W} {h} bytes s fits v =
    record_event-IsSound (pty_read (length bytes)) stored (record {
      held = append-Holds bytes v.held fits;
      cap_is = cap-append s.ring bytes ∙ v.cap_is;
      counted = omega (arith, v.counted, length-append h bytes);
      numbered = v.numbered;
    })
  where
    stored : Session W
    stored = record s {
      ring = append s.ring bytes;
      bytes_delivered = saturating_add s.bytes_delivered (length bytes);
    }
