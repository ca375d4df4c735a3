-- ===== src/Realtime/Backpressure.antt =====
-- apps/server/src/modules/realtime/backpressure.ts. A `number` is a safe non-negative integer or
-- something else (negative, fractional, NaN, too large), which the code treats alike.
use learning_orbit.Prelude.{ℕ, ◌≤◌, ◌<◌, ◌≡◌, Bool, true, false, leb, if◌then◌else◌, arith, ◌↔◌}

pub data Number : Type 0 where
  safe : ℕ → Number
  unsafe : Number

pub data BackpressureState : Type 0 where
  ok warn close : BackpressureState

pub record BackpressureThresholds : Type 0 where
  pub warn : Number
  pub close : Number

abbrev pub defaults : BackpressureThresholds
defaults = record { warn = safe 256_000; close = safe 1_000_000 }

-- The state, and whether `socket.close(1013)` was called.
by_amount : ℕ → ℕ → ℕ → BackpressureState × Bool
by_amount warn_at close_at n =
    if leb close_at n then (close, true) else (if leb warn_at n then warn else ok, false)

by_thresholds : Number → Number → ℕ → BackpressureState × Bool
by_thresholds (safe w) (safe c) n = if leb c w then (close, false) else by_amount w c n
by_thresholds _ _ n = (close, false)

unfoldable pub enforce_backpressure : BackpressureThresholds → Number → BackpressureState × Bool
unfolding by_amount by_thresholds
enforce_backpressure t unsafe = (close, false)
enforce_backpressure t (safe n) = by_thresholds t.warn t.close n

-- For valid thresholds the verdict partitions the buffered amounts: below `warn` is ok, from `warn`
-- up to but not including `close` is a warning, and from `close` on the socket is closed.
pub enforce_backpressure_partition :
    (w c n : ℕ)
    → w < c
    → let v = enforce_backpressure (record { warn = safe w; close = safe c }) (safe n) in
      ((v.0 ≡ ok) ↔ (n < w))
      × ((v.0 ≡ warn) ↔ ((w ≤ n) × (n < c)))
      × ((v.0 ≡ close) ↔ (c ≤ n))
      × ((v.1 ≡ true) ↔ (c ≤ n))
unfolding enforce_backpressure
enforce_backpressure_partition w c n h = (ground arith, ground arith, ground arith, ground arith)
