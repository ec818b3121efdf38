-- ===== src/Content/Retention.antt =====
-- What the retention policies guarantee of the timeline and of the durable transcript.
use rill.Prelude.{
  ℕ, ◌≤◌, ◌≡◌, ◌⊎◌, inl, inr, refl, sym, ap, subst, Option, none, some, arith, lt_or_le,
  Result-cases, ok, err, ◌>>◌, if◌then◌else◌, not,
}
use rill.Ring.{saturating_add}
use rill.Content.Event.{ContentEvent, size_hint, capture_disabled}
use rill.Content.Policy.{RetentionPolicy, disabled, allows_capture}
use rill.Content.Timeline.{
  ContentTimeline, check_screen, check_id, check_order, store, Stored, stored, append,
  append_within, append_with_policy, capture, DurableTranscript, refused,
}

-- the bytes are within the limit, if there is one
abbrev pub Within : Option ℕ → ℕ → Type 0
Within none n = Unit
Within (some limit) n = n ≤ limit

-- what a call that may store an event leaves
abbrev Kept : ContentTimeline → Option ℕ → Stored → Type 0
Kept t limit r = ((r.1 ≡ ok tt) × Within limit r.0.bytes_used) ⊎ (r.0 ≡ t)

append-Kept :
    (t : ContentTimeline) (e : ContentEvent) (limit : Option ℕ)
    → Within limit (saturating_add t.bytes_used (size_hint e))
    → Kept t limit (append t e)
unfolding append store
append-Kept t e limit h =
    elim (Result-cases (check_screen t e >> check_id t e >> check_order t.last_sequence e)) [
      | inl (_, q) ↦ subst (Kept t limit) (ap (stored t e) (sym q)) (inl (refl, h))
      | inr (x, q) ↦ subst (Kept t limit) (ap (stored t e) (sym q)) (inr refl)
    ]

-- Under a policy a call either stores the event, and the bytes counted are then within the policy's
-- limit, or leaves the timeline as it was.
pub append_with_policy-Within :
    (t : ContentTimeline) (p : RetentionPolicy) (e : ContentEvent)
    → let r = append_with_policy t p e in
      ((r.1 ≡ ok tt) × Within p.limit_bytes r.0.bytes_used) ⊎ (r.0 ≡ t)
unfolding append_with_policy append_within
append_with_policy-Within t p e = go p.limit_bytes
  where
    go :
        (limit : Option ℕ)
        → Kept t limit
            (if not (allows_capture p) then (t, err capture_disabled) else append_within limit t e)
    go none = let k = append-Kept t e none tt in ground arith
    go (some limit) = elim (lt_or_le limit (saturating_add t.bytes_used (size_hint e))) [
      | inr le ↦ let k = append-Kept t e (some limit) le in ground arith
      | inl lt ↦ ground arith
    ]

-- A disabled policy keeps nothing: neither the timeline nor the durable transcript changes.
pub disabled-keeps_nothing :
    (t : ContentTimeline) (d : DurableTranscript) (e : ContentEvent) (limit : Option ℕ)
    → d.policy.mode ≡ disabled
    → (append_with_policy t (record { mode = disabled; limit_bytes = limit }) e
        ≡ (t, err capture_disabled))
      × (capture d e ≡ (d, refused))
unfolding append_with_policy capture allows_capture
disabled-keeps_nothing t d e limit h = (refl, ground arith)
