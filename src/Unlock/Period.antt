-- ===== src/Unlock/Period.antt =====
-- kernel-module/unlock.c: the delay after which the timer is started again.
use ucsma_rate_control.Base.{ℕ, ◌+◌, ◌-◌, ◌*◌, ◌%◌, ◌^◌, ◌≤◌, ◌<◌, ◌≡◌, arith, ltb, if◌then◌else◌}
use ucsma_rate_control.Kernel.{u32}
use ucsma_rate_control.Kernel.Time.{Timespec, TimespecSub}
use ucsma_rate_control.Unlock.{Unlock, IrqInputs, first_delay, less_backoff, next_timer}

-- For two u32 values the floor at 0 never takes effect: the delay less the backoff is their
-- difference, and a backoff beyond the delay wraps to 2 ^ 32 more.
pub less_backoff-wraps :
    (next backoff : ℕ)
    → next < 2 ^ 32
    → backoff < 2 ^ 32
    → less_backoff next backoff
      ≡ (if ltb next backoff then next + 2 ^ 32 - backoff else next - backoff)
unfolding less_backoff
less_backoff-wraps next backoff hn hb = ground arith

first_delay_bounds :
    (d : Timespec) (period rng : ℕ)
    → rng ≤ period
    → period + rng < 2 ^ 32
    → (period ≤ first_delay d period rng + rng) × (first_delay d period rng ≤ period + rng)
unfolding first_delay
first_delay_bounds d period rng h k = ground arith

module _ (ts : TimespecSub) (inp : IrqInputs) (s : Unlock) where
  -- With Delta positive, 4 Delta at most T, and T + 2 Delta at most 4294967, the timer is started
  -- from 4 Delta before to 2 Delta after one period, and the delay in nanoseconds fits a u32.
  pub next_timer_bounds :
      0 < s.delta
      → 4 * s.delta ≤ s.period
      → s.period + 2 * s.delta ≤ 4294967
      → (s.period ≤ next_timer ts inp s + 4 * s.delta)
        × (next_timer ts inp s < s.period + 2 * s.delta)
        × (u32 (next_timer ts inp s * 1000) ≡ next_timer ts inp s * 1000)
  unfolding next_timer less_backoff
  next_timer_bounds hd h4 hp = ground (
    arith,
    first_delay_bounds (ts.sub s.last_unlock s.last_unlock_2nd) s.period
        (inp.rng % u32 (s.delta + s.delta)),
  )
