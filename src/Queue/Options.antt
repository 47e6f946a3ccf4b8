-- ===== src/Queue/Options.antt =====
-- The options of the consumer of internal/queue/redis_streams.go.
use durable_work_flow_engine.Prelude.{zero, suc, ◌≡◌, refl, ℤ, pos, negsuc}
use durable_work_flow_engine.Queue.{ConsumeOptions, or_if_not_positive, normalize_consume_options}

abbrev pub IsPositive : ℤ → Type 0
IsPositive (pos zero) = ⊥
IsPositive (pos (suc n)) = Unit
IsPositive (negsuc n) = ⊥

-- The option that is used for one that was given: itself if it is positive, and else the default.
abbrev pub IsNormalized : ℤ → ℤ → ℤ → Type 0
IsNormalized fallback given used =
    IsPositive used × (IsPositive given → used ≡ given) × (¬ IsPositive given → used ≡ fallback)

or_if_not_positive-IsNormalized :
    (fallback z : ℤ) → IsPositive fallback → IsNormalized fallback z (or_if_not_positive fallback z)
or_if_not_positive-IsNormalized fallback (pos zero) h = (h, λ given. absurd given, λ no. refl)
or_if_not_positive-IsNormalized fallback (pos (suc n)) h = (tt, λ given. refl, λ no. absurd (no tt))
or_if_not_positive-IsNormalized fallback (negsuc n) h = (h, λ given. absurd given, λ no. refl)

-- Whatever options a worker gives, each of the four that `Consume` works with is positive: it is the
-- given one where that is positive, whatever the others are, and else its default, which is 30 seconds,
-- 10 entries, 1 entry and 5 seconds.
pub normalize_consume_options-IsNormalized :
    (opts : ConsumeOptions)
    → IsNormalized
        (pos 30000000000)
        opts.reclaim_min_idle
        (normalize_consume_options opts).reclaim_min_idle
      × IsNormalized (pos 10) opts.reclaim_count (normalize_consume_options opts).reclaim_count
      × IsNormalized (pos 1) opts.read_count (normalize_consume_options opts).read_count
      × IsNormalized (pos 5000000000) opts.block (normalize_consume_options opts).block
unfolding normalize_consume_options
normalize_consume_options-IsNormalized opts = (
  or_if_not_positive-IsNormalized (pos 30000000000) opts.reclaim_min_idle tt,
  or_if_not_positive-IsNormalized (pos 10) opts.reclaim_count tt,
  or_if_not_positive-IsNormalized (pos 1) opts.read_count tt,
  or_if_not_positive-IsNormalized (pos 5000000000) opts.block tt,
)
