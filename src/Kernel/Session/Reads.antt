-- ===== src/Kernel/Session/Reads.antt =====
-- session.rs: the reads of the terminal, and the history behind them.
use rill.Prelude.{
  ℕ, ◌+◌, ◌-◌, ◌≤◌, ◌==◌, ◌≡◌, sym, ap, subst, ◌∙◌, min, Option, none, some, List, [], ◌∷◌, ◌++◌,
  length, append-nil, arith, Bool-cases, inl, inr, ok,
}
use rill.Ring.{u64_max}
use rill.Kernel.Session.State.{
  Session, Terminal, Answer, and_then, on_pty, is_some, enqueue_outbound, has_listeners,
  note_stalled_read,
}
use rill.Kernel.Session.Output.{
  read_buf, drained, received, forward, read_limit, drain_pty_at_most, on_pty_readable,
}
use rill.Kernel.Session.Sound.{IsSound}
use rill.Kernel.Session.Observed.{Seen, observed, heard_of, Tracks, store-Tracks, and_then-Cases}

-- `read` fills the buffer that it is given at most
abbrev pub IsBounded : {W : Type 0} → Terminal W → Type 0
IsBounded {W} t = (n : ℕ) (w : W) (bytes : List ℕ) → (t.read n w).1 ≡ ok bytes → length bytes ≤ n

pub observed-IsBounded : {W : Type 0} (t : Terminal W) → IsBounded t → IsBounded (observed t)
observed-IsBounded t bounded n w bytes e = bounded n w.machine bytes e

-- the history after a call: what the terminal's reads returned in it, at most `n` bytes, follows what
-- was there, and the session is sound for both
pub record Extends {W : Type 0} (n : ℕ) (h : List ℕ) (s : Session (Seen W)) : Type 0 where
  pub more : List ℕ
  pub few : length more ≤ n
  pub tracked : Tracks (h ++ more) s

pub quiet-Extends :
    {W : Type 0} (n : ℕ) {h : List ℕ} (s : Session (Seen W)) → Tracks h s → Extends n h s
quiet-Extends n {h} s v = record {
  more = [];
  few = omega arith;
  tracked = subst (λ h. Tracks h s) (sym (append-nil h)) v;
}

-- the terminal has returned `bytes` behind the history that the session is sound for
abbrev Hears : {W : Type 0} → List ℕ → List ℕ → Session (Seen W) → Type 0
Hears h bytes s = (s.pty.heard ≡ h ++ bytes) × IsSound h s

-- nothing was returned
heard_nothing :
    {W : Type 0} (n : ℕ) {h : List ℕ} (s : Session (Seen W)) → Hears h [] s → Extends n h s
heard_nothing n {h} s v = quiet-Extends n s (v.0 ∙ append-nil h, v.1)

drained-Extends :
    {W : Type 0} {h : List ℕ} (n : ℕ) (s : Session (Seen W)) (bytes : List ℕ)
    → length bytes ≤ n
    → length h + n ≤ u64_max
    → Hears h bytes s
    → Extends n h (drained s bytes).0
drained-Extends n s [] few fits v = heard_nothing n s v
drained-Extends n s (b ∷ bytes) few fits v = record {
  more = b ∷ bytes;
  few = few;
  tracked = store-Tracks (b ∷ bytes) s (omega arith) v.0 v.1;
}

forward-Extends :
    {W : Type 0} {h : List ℕ} (n : ℕ) (bytes : List ℕ) (s : Session (Seen W))
    → Extends n h s
    → Extends n h (forward bytes s)
unfolding enqueue_outbound
forward-Extends n bytes s v = elim (Bool-cases (has_listeners s)) [
  | inl e ↦ rw e (record { more = v.more; few = v.few; tracked = v.tracked })
  | inr e ↦ rw e v
]

received-Extends :
    {W : Type 0} {h : List ℕ} (n : ℕ) (s : Session (Seen W)) (bytes : List ℕ)
    → length bytes ≤ n
    → length h + n ≤ u64_max
    → Hears h bytes s
    → Extends n h (received s bytes).0
received-Extends n s [] few fits v = heard_nothing n s v
received-Extends n s (b ∷ bytes) few fits v = forward-Extends n (b ∷ bytes) _ (record {
  more = b ∷ bytes;
  few = few;
  tracked =
      store-Tracks (b ∷ bytes) (record s { credit = s.credit - length (b ∷ bytes) }) (omega arith)
        v.0 v.1;
})

widen :
    {W : Type 0} {n m : ℕ} {h : List ℕ} (s : Session (Seen W))
    → n ≤ m
    → Extends n h s
    → Extends m h s
widen s le v = record { more = v.more; few = omega (arith, v.few); tracked = v.tracked }

module _ {W : Type 0} (t : Terminal W) (bounded : IsBounded t) where
  -- a read, and what the method does with what it read
  read-Extends :
      {A : Type 0} {h : List ℕ} (n : ℕ) (s : Session (Seen W))
      (k : Session (Seen W) → List ℕ → Answer (Seen W) A)
      → Tracks h s
      → ((s : Session (Seen W))
          → (bytes : List ℕ) → length bytes ≤ n
          → Hears h bytes s
          → Extends n h (k s bytes).0)
      → Extends n h (and_then (on_pty ((observed t).read n) s) k).0
  read-Extends {h = h} n s k v next =
      and_then-Cases (Extends n h) (on_pty ((observed t).read n) s) k
        (λ bytes e.
          next (on_pty ((observed t).read n) s).0 bytes (bounded n s.pty.machine bytes e)
            (ap (λ r. s.pty.heard ++ heard_of r) e ∙ ap (λ h. h ++ bytes) v.0, v.1))
        (λ x e.
          heard_nothing n (on_pty ((observed t).read n) s).0
            (ap (λ r. s.pty.heard ++ heard_of r) e ∙ ap (λ h. h ++ []) v.0, v.1))

  pub on_pty_readable-Extends :
      {h : List ℕ} (s : Session (Seen W))
      → length h + read_buf ≤ u64_max
      → Tracks h s
      → Extends read_buf h (on_pty_readable (observed t) s).0
  unfolding on_pty_readable note_stalled_read
  on_pty_readable-Extends s fits v = elim (Bool-cases (s.credit == 0)) [
    | inl e ↦ rw e (quiet-Extends read_buf _ v)
    | inr e ↦
        let n = min s.credit read_buf in
        rw e (
          widen _ (omega arith) (
            read-Extends n s received v
              (λ s bytes few v. received-Extends n s bytes few (omega arith) v)))
  ]

  pub drain_pty_at_most-Extends :
      {h : List ℕ} (limit : Option ℕ) (s : Session (Seen W))
      → length h + read_buf ≤ u64_max
      → Tracks h s
      → Extends read_buf h (drain_pty_at_most (observed t) limit s).0
  unfolding drain_pty_at_most note_stalled_read
  drain_pty_at_most-Extends limit s fits v = elim (Bool-cases (is_some s.child_exit)) [
    | inl e ↦ rw e (quiet-Extends read_buf _ v)
    | inr e ↦ elim (Bool-cases (read_limit limit == 0)) [
      | inl z ↦ rw (e, z) (quiet-Extends read_buf _ v)
      | inr z ↦
          let n = read_limit limit in
          rw (e, z)
            (widen _ (within limit) (
              read-Extends n s drained v
                (λ s bytes few v. drained-Extends n s bytes few (omega (arith, within limit)) v)))
    ]
  ]
    where
      within : (o : Option ℕ) → read_limit o ≤ read_buf
      within none = omega arith
      within (some m) = omega arith
