-- ===== src/Content/Policy.antt =====
-- `RetentionPolicy`, and how two policies are resolved.
use rill.Prelude.{ℕ, ◌≡◌, min, Bool, true, false, refl, arith, Option, none, some}
use rill.Ring.{u64_max}

pub data RetentionMode : Type 0 where
  disabled memory_only durable : RetentionMode

pub record RetentionPolicy : Type 0 where
  pub mode : RetentionMode
  pub limit_bytes : Option ℕ

unfoldable pub allows_capture : RetentionPolicy → Bool
allows_capture p = elim p.mode [ disabled ↦ false | memory_only ↦ true | durable ↦ true ]

-- `limit_bytes.unwrap_or(u64::MAX)`
abbrev pub cap : RetentionPolicy → ℕ
cap p = elim p.limit_bytes [ none ↦ u64_max | some limit ↦ limit ]

-- the smaller of the limits, for policies of one mode
abbrev pub smaller : RetentionMode → RetentionPolicy → RetentionPolicy → RetentionPolicy
smaller mode p q = record { mode = mode; limit_bytes = some (min (cap p) (cap q)) }

unfoldable pub resolve :
    RetentionMode → RetentionMode → RetentionPolicy → RetentionPolicy → RetentionPolicy
resolve disabled _ p q = p
resolve memory_only disabled p q = q
resolve memory_only memory_only p q = smaller memory_only p q
resolve memory_only durable p q = p
resolve durable disabled p q = q
resolve durable memory_only p q = q
resolve durable durable p q = smaller durable p q

unfoldable pub restrictive_wins : RetentionPolicy → RetentionPolicy → RetentionPolicy
restrictive_wins p q = resolve p.mode q.mode p q

-- how much a mode keeps
unfoldable pub reach : RetentionMode → ℕ
reach disabled = 0
reach memory_only = 1
reach durable = 2

resolve-reach :
    (m n : RetentionMode) (p q : RetentionPolicy)
    → p.mode ≡ m
    → q.mode ≡ n
    → reach (resolve m n p q).mode ≡ min (reach m) (reach n)
unfolding resolve reach
resolve-reach disabled n p q e f = ground arith
resolve-reach memory_only disabled p q e f = ground arith
resolve-reach memory_only memory_only p q e f = refl
resolve-reach memory_only durable p q e f = ground arith
resolve-reach durable disabled p q e f = ground arith
resolve-reach durable memory_only p q e f = ground arith
resolve-reach durable durable p q e f = refl

-- Neither policy can widen the other's mode: the resolved mode is the more restrictive one, whichever
-- comes first.
pub restrictive_wins-reach :
    (p q : RetentionPolicy)
    → (reach (restrictive_wins p q).mode ≡ min (reach p.mode) (reach q.mode))
      × (reach (restrictive_wins q p).mode ≡ min (reach p.mode) (reach q.mode))
unfolding restrictive_wins
restrictive_wins-reach p q = (
  resolve-reach p.mode q.mode p q refl refl,
  (let r = resolve-reach q.mode p.mode q p refl refl in omega arith),
)

-- Between a policy for memory and a durable one the limit is that of the first, however small the
-- limit of the second is.
pub restrictive_wins-limit :
    (limit : Option ℕ) (q : RetentionPolicy)
    → q.mode ≡ durable
    → (restrictive_wins (record { mode = memory_only; limit_bytes = limit }) q).limit_bytes ≡ limit
unfolding restrictive_wins resolve
restrictive_wins-limit limit q e = ground arith
