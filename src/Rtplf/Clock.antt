-- ===== src/Rtplf/Clock.antt =====
-- The clock of src/rtplf/x64-linux/src/rtplf.c. `gettimeofday` is a parameter: what it returns, and
-- the seconds and microseconds that it stores; `W` is the state of the system.
use rtsys.Base.{
  ℕ, ◌+◌, ◌-◌, ◌*◌, ◌%◌, ◌^◌, ◌<◌, ◌≡◌, ap, arith, ℤ, pos, is_zero, Outcome, done, ◌>>◌, assert,
}

-- `RTTickFrequency_Hz`
unfoldable pub tick_frequency : ℕ
tick_frequency = 1000000

module _ {W : Type 0} (gettimeofday : W → (ℤ × ℕ × ℕ) × W) where
  -- `RTNow_tick`
  unfoldable pub now_tick : W → Outcome (ℕ × W)
  now_tick w = do
    let ((ret, tv_sec, tv_usec), w') = gettimeofday w
    assert (is_zero ret)
    done ((tv_sec % 2 ^ 32 * 1000000 % 2 ^ 32 + tv_usec % 2 ^ 32) % 2 ^ 32, w')

  -- `RTNow_us`
  unfoldable pub now_us : W → Outcome (ℕ × W)
  now_us w = now_tick w

  -- The clock is read at two times.
  pub record Read (w : W) (tv_sec tv_usec : ℕ) : Type 0 where
    pub stored : (gettimeofday w).0 ≡ (pos 0, tv_sec, tv_usec)

  ticks-at :
      (w : W) (s u : ℕ)
      → Read w s u
      → now_tick w ≡ done ((s * tick_frequency + u) % 2 ^ 32, (gettimeofday w).1)
  unfolding now_tick tick_frequency
  ticks-at w s u r = simp r.stored (ap (λ t. done (t, (gettimeofday w).1)) (omega arith))

  -- The difference, modulo 2 ^ 32, of what `RTNow_tick` and `RTNow_us` return at two times,
  -- `gettimeofday` having succeeded, is the number of microseconds between them, if that is
  -- below 2 ^ 32.
  pub now_tick-elapsed :
      (before after : W) (s u s' u' elapsed : ℕ)
      → Read before s u
      → Read after s' u'
      → s' * tick_frequency + u' ≡ s * tick_frequency + u + elapsed
      → elapsed < 2 ^ 32
      → (t t' : ℕ) × (now_tick before ≡ done (t, (gettimeofday before).1))
        × (now_us after ≡ done (t', (gettimeofday after).1))
        × ((t' + (2 ^ 32 - t)) % 2 ^ 32 ≡ elapsed)
  unfolding now_us
  now_tick-elapsed before after s u s' u' elapsed r r' e h = (
    (s * tick_frequency + u) % 2 ^ 32,
    (s' * tick_frequency + u') % 2 ^ 32,
    ticks-at before s u r,
    ticks-at after s' u' r',
    difference (s * tick_frequency + u) (s' * tick_frequency + u') e,
  )
    where
      difference :
          (a b : ℕ) → b ≡ a + elapsed → (b % 2 ^ 32 + (2 ^ 32 - a % 2 ^ 32)) % 2 ^ 32 ≡ elapsed
      difference a b k = omega (arith, h)
