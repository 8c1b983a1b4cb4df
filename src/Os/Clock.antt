-- ===== src/Os/Clock.antt =====
-- src/common/hzl_CommonOsTime.c: `hzl_OsCurrentTime` for Windows and for Unix.
use hazelnet.Base.{ℕ, ◌+◌, ◌-◌, ◌*◌, ◌/◌, ◌%◌, ◌^◌, ◌≤◌, ◌<◌, ◌≡◌, arith, Option, some, none}
use hazelnet.Err.{Err, ok, cannot_get_current_time}
use hazelnet.Timing.{time_delta}

-- Of the two halves of the `FILETIME`, a count of 100 ns.
unfoldable pub current_time_windows : ℕ → ℕ → Err × ℕ
current_time_windows high low = (ok, (high * 2 ^ 32 + low) / 10000 % 2 ^ 32)

-- `gettimeofday` gives seconds and microseconds, or nothing if it fails; `timestamp` is the old value.
unfoldable pub current_time_unix : Option (ℕ × ℕ) → ℕ → Err × ℕ
current_time_unix none timestamp = (cannot_get_current_time, timestamp)
current_time_unix (some now) timestamp =
    let seconds = now.0 % 2 ^ 32 * 1000 % 2 ^ 32 in (ok, (seconds + now.1 % 2 ^ 32 / 1000) % 2 ^ 32)

abbrev pub millis_of : ℕ → ℕ → ℕ
millis_of sec usec = sec * 1000 + usec / 1000

-- A timestamp of a Unix clock is the count of milliseconds modulo 2 ^ 32.
current_time_unix_lem :
    (sec usec old : ℕ)
    → usec < 1000000
    → (current_time_unix (some (sec, usec)) old).1 ≡ millis_of sec usec % 2 ^ 32
unfolding current_time_unix
current_time_unix_lem sec usec old fits = omega arith

-- The difference of two rolling timestamps that are less than 2 ^ 32 ms apart.
time_delta-rolling :
    (a b : ℕ) → a ≤ b → b < a + 2 ^ 32 → time_delta (a % 2 ^ 32) (b % 2 ^ 32) ≡ b - a
unfolding time_delta
time_delta-rolling a b le lt = ground arith

-- The time between two timestamps of `hzl_OsCurrentTime` that are less than 2 ^ 32 milliseconds
-- apart is the number of whole milliseconds of the later instant less that of the earlier one, on
-- Unix, where the microseconds are fewer than a million, and on Windows; the roll-over of the 32-bit
-- timestamps does not show.
pub time_delta-current_time :
    (sec usec sec' usec' old old' : ℕ)
    → usec < 1000000
    → usec' < 1000000
    → (high low high' low' : ℕ)
    → let ticks = high * 2 ^ 32 + low in
      let ticks' = high' * 2 ^ 32 + low' in
      (millis_of sec usec ≤ millis_of sec' usec'
        → millis_of sec' usec' < millis_of sec usec + 2 ^ 32
        → time_delta
            (current_time_unix (some (sec, usec)) old).1
            (current_time_unix (some (sec', usec')) old').1
          ≡ millis_of sec' usec' - millis_of sec usec)
      × (ticks / 10000 ≤ ticks' / 10000
          → ticks' / 10000 < ticks / 10000 + 2 ^ 32
          → time_delta (current_time_windows high low).1 (current_time_windows high' low').1
            ≡ ticks' / 10000 - ticks / 10000)
unfolding current_time_windows
time_delta-current_time sec usec sec' usec' old old' fits fits' high low high' low' = (
  (λ le lt.
      rw (current_time_unix_lem sec usec old fits, current_time_unix_lem sec' usec' old' fits')
        (time_delta-rolling (millis_of sec usec) (millis_of sec' usec') le lt)),
  (λ le lt.
      time_delta-rolling ((high * 2 ^ 32 + low) / 10000) ((high' * 2 ^ 32 + low') / 10000) le lt),
)
