-- ===== src/Timing/Bounds.antt =====
-- The time difference is exact modulo the roll-around, and the tolerance stays in its bound.
use hazelnet.Base.{ℕ, ◌+◌, ◌%◌, ◌^◌, ◌≤◌, ◌<◌, ◌≡◌, refl, false, inl, inr, arith, leb, Bool-cases}
use hazelnet.Platform.{Platform, FloatLaws}
use hazelnet.Timing.{time_delta, ceil_uint32, ctr_delay}

-- For two 32-bit timestamps the difference is a 32-bit number, and counting it on from the start
-- modulo 2 ^ 32 gives the end, whether the clock rolled around or not.
pub time_delta_exact :
    (start end : ℕ)
    → start < 2 ^ 32
    → end < 2 ^ 32
    → (time_delta start end < 2 ^ 32) × ((start + time_delta start end) % 2 ^ 32 ≡ end)
unfolding time_delta
time_delta_exact s e hs he = ground arith

-- Counting n milliseconds on from a 32-bit start, the measured difference is n modulo 2 ^ 32.
pub time_delta_elapsed :
    (start n : ℕ) → start < 2 ^ 32 → time_delta start ((start + n) % 2 ^ 32) ≡ n % 2 ^ 32
unfolding time_delta
time_delta_elapsed s n hs = ground arith

module _ (p : Platform) (laws : FloatLaws p.floats) where
  open p.floats use {Float, of_uint, div, mul, sub, less, trunc}

  ceil_uint32_le :
      (m : ℕ) (x : Float) → m < 2 ^ 24 → less (of_uint m) x ≡ false → ceil_uint32 p x ≤ m
  unfolding ceil_uint32
  ceil_uint32_le m x hm h =
      ground (arith, laws.trunc_le m x hm h, laws.lt_of_less (trunc x) m x hm h)

  -- Under the laws of `float`, with a maximum below 2 ^ 24 and a silence interval of 16 bits: the
  -- tolerance never exceeds the maximum, and it is 0 once the silence interval has passed.
  pub ctr_delay_bounds :
      (last now max silence : ℕ)
      → max < 2 ^ 24
      → silence < 2 ^ 16
      → (ctr_delay p last now max silence ≤ max)
        × (silence ≤ time_delta last now → ctr_delay p last now max silence ≡ 0)
  unfolding ctr_delay
  ctr_delay_bounds last now max silence hm hs =
      elim (Bool-cases (leb silence (time_delta last now))) [
        | inl late ↦ rw late (omega arith, λ _. refl)
        | inr early ↦ rw early (
          ceil_uint32_le max delay hm (
              laws.mul_le max fraction hm
                (laws.sub-div_le_one (time_delta last now) silence (ground arith) (omega arith))),
          λ h. absurd (ground arith),
        )
      ]
    where
      fraction : Float
      fraction = sub (of_uint 1) (div (of_uint (time_delta last now)) (of_uint silence))

      delay : Float
      delay = mul (of_uint max) fraction
