-- ===== src/Timestamp.antt =====
-- timestamp.rs: the test on the age of a request. The reading of the clock is the argument `now`.
use zenth_dht.Prelude.{ℕ, ◌+◌, ◌-◌, ◌≤◌, ◌≡◌, ◌↔◌, Bool, true, arith, leb, ltb, if◌then◌else◌}

abbrev pub timestamp_tolerance_secs : ℕ
timestamp_tolerance_secs = 900

-- `a.abs_diff(b)`
abbrev abs_diff : ℕ → ℕ → ℕ
abs_diff a b = if ltb a b then b - a else a - b

unfoldable pub is_timestamp_fresh : ℕ → ℕ → Bool
is_timestamp_fresh now ts = leb (abs_diff now ts) timestamp_tolerance_secs

-- A timestamp is fresh exactly when it is at most 900 seconds, which is 15 minutes, before or after
-- the server's time.
pub is_timestamp_fresh_iff :
    (now ts : ℕ) → (is_timestamp_fresh now ts ≡ true) ↔ ((now ≤ ts + 900) × (ts ≤ now + 900))
unfolding is_timestamp_fresh
is_timestamp_fresh_iff now ts = ground arith
