-- ===== src/Bft/Laws/Freshness.antt =====
-- isTimestampFresh (engine.go), on int64 bit patterns.
use jmdn.Base.{ℕ, ◌+◌, ◌^◌, ◌≤◌, ◌<◌, ◌≡◌, ◌≢◌, true, ◌↔◌, ◌⊎◌, arith}
use jmdn.Bft.Engine.{is_timestamp_fresh}

-- With a clock that is not negative as an int64, and any bit pattern of a timestamp, the timestamp
-- passes exactly when it is not zero and one of three holds: the pattern lies within 30 of the clock
-- on both sides; the timestamp is negative, read as pattern minus 2^64, and the clock is at most 30
-- seconds after it; or the pattern is the one 2^63 above the clock.
pub is_timestamp_fresh_iff :
    (now ts : ℕ)
    → now < 2 ^ 63
    → ts < 2 ^ 64
    → (is_timestamp_fresh now ts ≡ true) ↔ (
        (ts ≢ 0)
        × (((ts ≤ now + 30) × (now ≤ ts + 30)) ⊎ ((now + 2 ^ 64 ≤ ts + 30) ⊎ (ts ≡ now + 2 ^ 63))))
unfolding is_timestamp_fresh
is_timestamp_fresh_iff now ts k l = (λ e. ground arith, λ e. ground arith)
