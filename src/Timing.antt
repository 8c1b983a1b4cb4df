-- ===== src/Timing.antt =====
-- src/common/hzl_CommonTimeDelta.c and src/common/hzl_CommonCtrDelay.c: differences of rolling
-- 32-bit timestamps, and the tolerance on the age of a counter nonce.
pub mod Bounds
use hazelnet.Base.{ℕ, ◌+◌, ◌-◌, ◌%◌, ◌^◌, Bool, ltb, leb, if◌then◌else◌}
use hazelnet.Payload.{timestamp_domain_size}
use hazelnet.Platform.{Platform}

-- `end - start` runs only at `start < end`; the cast takes the other difference modulo 2 ^ 32.
unfoldable pub time_delta : ℕ → ℕ → ℕ
time_delta start end =
    if ltb start end then end - start else (timestamp_domain_size - start + end) % 2 ^ 32

module _ (p : Platform) where
  open p.floats use {Float, of_uint, div, mul, sub, less, trunc}

  -- `hzl_CeilUint32`
  unfoldable pub ceil_uint32 : Float → ℕ
  ceil_uint32 x =
      let floored = trunc x in (floored + (if less (of_uint floored) x then 1 else 0)) % 2 ^ 32

  unfoldable pub ctr_delay : ℕ → ℕ → ℕ → ℕ → ℕ
  ctr_delay last_valid_rx_msg_instant evaluation_instant max_ctrnonce_delay max_silence_interval =
      let since_last_msg = time_delta last_valid_rx_msg_instant evaluation_instant in
      if leb max_silence_interval since_last_msg
      then 0
      else (let elapsed = div (of_uint since_last_msg) (of_uint max_silence_interval) in
          let delay = mul (of_uint max_ctrnonce_delay) (sub (of_uint 1) elapsed) in
          ceil_uint32 delay)
