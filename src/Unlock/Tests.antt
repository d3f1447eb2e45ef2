-- ===== src/Unlock/Tests.antt =====
-- kernel-module/unlock.c at concrete inputs.
use ucsma_rate_control.Base.{
  Option, ℕ, ◌+◌, ◌*◌, ◌/◌, ◌%◌, ◌≤◌, ◌<◌, ◌≡◌, refl, inl, true, false, some, none, List, [], ◌∷◌,
  ◌++◌, arith, if◌then◌else◌,
}
use ucsma_rate_control.Base.Int.{pos, is_zero, to_int, to_short}
use ucsma_rate_control.Kernel.{u32}
use ucsma_rate_control.Kernel.Time.{Timespec}
use ucsma_rate_control.Kernel.Clock.{clock, at}
use ucsma_rate_control.Kernel.Ledger.{Ledger, nothing_held, replay}
use ucsma_rate_control.Unlock.{
  Unlock, IrqInputs, InitInputs, IrqReturn, irq_handled, unlock_init, unlock_exit,
  unlock_r_irq_handler, unlock_timer_handler, next_timer, cw_val, get_buf_size, set_window,
  publish_size,
}
use ucsma_rate_control.Unlock.Window.{same_window, set_window-fields}
use ucsma_rate_control.Unlock.Period.{next_timer_bounds}
use ucsma_rate_control.Unlock.Irq.{
  after_relay, dropped_calls, irq_relays, irq_drops, irq_unloaded_deadlock,
}
use ucsma_rate_control.Unlock.Lifecycle.{running, init-replay}
use ucsma_rate_control.Unlock.Lockout.{Event, irq, expiry, LockedOut, lockout_permanent}
use ucsma_rate_control.Unlock.Running.{here}
use ucsma_rate_control.Unlock.Life.{module_life}

-- T is 20000, Delta is 100, and the driver has three buffers.
abbrev loaded_with : Option (List ℕ) → Unlock
loaded_with txbuf = record {
  exports = record { txbuf_fff = txbuf; buf_counter = pos 0; has_changed = 0 };
  period = 20000;
  delta = 100;
  last_unlock = at 5 0;
  last_unlock_2nd = at 4 980_000_000;
  unlock_irq = pos 40;
  slottime_clock = 0;
  sifs_clock = 0;
  eifs_clock = 0;
  unlocked = false;
  last_force_quiet_restore = at 0 0;
  unlocking_logging = false;
  force_quiet_bit_restore = false;
  max_timing_count = 0;
}

abbrev three : List ℕ
three = 1 ∷ 2 ∷ 3 ∷ []

abbrev ready : Unlock
ready = loaded_with (some three)

abbrev fresh : Unlock
fresh = loaded_with none

abbrev irq_at : Timespec → IrqInputs
irq_at now = record { now = now; rng = 1234; backoff = 77; restore = now }

abbrev answers : InitInputs
answers = record {
  slot = 9;
  sifs = 16;
  eifs = 90;
  now = at 5 0;
  gpios = pos 0;
  irq = pos 40;
  request = pos 0;
}

-- Twenty milliseconds after the last unlocking.
irq_relays_example :
    let o = unlock_r_irq_handler clock (irq_at (at 5 20_000_000)) ready in
    (o.result ≡ irq_handled)
    × (o.state.last_unlock ≡ at 5 20_000_000)
    × (o.state.last_unlock_2nd ≡ at 5 0)
    × (o.state.has_changed ≡ 1)
    × (o.state.unlocked ≡ true)
    × (replay o.calls nothing_held ≡ some (after_relay nothing_held))
irq_relays_example =
    irq_relays clock (irq_at (at 5 20_000_000)) ready three 20_000_000 nothing_held refl
      (omega arith) (omega arith) (omega arith) (omega arith) (omega arith) refl

-- Five milliseconds after it.
irq_drops_example :
    let o = unlock_r_irq_handler clock (irq_at (at 5 5_000_000)) ready in
    (o.result ≡ irq_handled)
    × (o.state ≡ publish_size three ready)
    × (replay o.calls nothing_held ≡ some nothing_held)
    × (v : ℕ) × (o.calls ≡ dropped_calls clock (irq_at (at 5 5_000_000)) ready three v)
    × (v % 1024 ≡ cw_val (to_int (get_buf_size three)))
    × (v / 1024 ≡ cw_val (to_int (get_buf_size three)))
irq_drops_example =
    irq_drops clock (irq_at (at 5 5_000_000)) ready three 5_000_000 nothing_held refl (omega arith)
      (omega arith) (inl (omega arith)) refl

irq_unloaded_deadlock_example :
    ((unlock_r_irq_handler clock (irq_at (at 6 0)) fresh).result ≡ IrqReturn.no_value)
    × (replay
          ((unlock_r_irq_handler clock (irq_at (at 6 0)) fresh).calls
            ++ (unlock_r_irq_handler clock (irq_at (at 7 0)) ready).calls)
          nothing_held
        ≡ none)
irq_unloaded_deadlock_example =
    irq_unloaded_deadlock clock (irq_at (at 6 0)) (irq_at (at 7 0)) fresh ready nothing_held refl
      refl

-- Two interrupts, a second and more after the last unlocking, and an expiry between them.
abbrev quiet_history : List Event
quiet_history = irq (irq_at (at 6 0)) ∷ expiry ∷ irq (irq_at (at 6 30_000_000)) ∷ []

lockout_permanent_example : LockedOut clock quiet_history (at 5 0) ready nothing_held
lockout_permanent_example =
    lockout_permanent clock quiet_history ready three nothing_held refl (omega arith) refl
      ((1_000_000_000, omega arith, omega arith), ((1_030_000_000, omega arith, omega arith), tt))

next_timer_bounds_example :
    (20000 ≤ next_timer clock (irq_at (at 5 20_000_000)) ready + 4 * 100)
    × (next_timer clock (irq_at (at 5 20_000_000)) ready < 20000 + 2 * 100)
    × (u32 (next_timer clock (irq_at (at 5 20_000_000)) ready * 1000)
        ≡ next_timer clock (irq_at (at 5 20_000_000)) ready * 1000)
next_timer_bounds_example =
    next_timer_bounds clock (irq_at (at 5 20_000_000)) ready (omega arith) (omega arith)
      (omega arith)

module_life_example :
    (replay (unlock_init answers ready).calls nothing_held
      ≡ some (running (unlock_init answers ready).state.unlock_irq 0))
    × ((i : IrqInputs)
        → (k : Ledger) × (replay
              (unlock_r_irq_handler clock i (unlock_init answers ready).state).calls
              (running (unlock_init answers ready).state.unlock_irq 0)
            ≡ some k))
    × ((k : Ledger) × (replay
            (unlock_timer_handler (unlock_init answers ready).state).calls
            (record (running (unlock_init answers ready).state.unlock_irq 0) { timer = false })
          ≡ some k))
    × ((n : ℕ) × (replay
            (unlock_exit (unlock_init answers ready).state).calls
            (running (unlock_init answers ready).state.unlock_irq 0)
          ≡ some (record nothing_held { pulses = n })))
unfolding unlock_init to_short
module_life_example =
    module_life clock answers ready three
      (record {
        vars = (unlock_init answers ready).state;
        held = running (unlock_init answers ready).state.unlock_irq 0;
      })
      refl (omega arith) refl here

set_window-fields_example :
    (v : ℕ) × (set_window three ≡ same_window 8 0 v)
    × (v % 1024 ≡ cw_val (to_int (get_buf_size three)))
    × (v / 1024 ≡ cw_val (to_int (get_buf_size three)))
set_window-fields_example = set_window-fields three

init-replay_example :
    replay (unlock_init answers ready).calls nothing_held
    ≡ some (
        if is_zero (unlock_init answers ready).result
        then running (unlock_init answers ready).state.unlock_irq 0
        else nothing_held)
init-replay_example = init-replay answers ready

cw_values : cw_val (pos 80) ≡ 1023
unfolding cw_val
cw_values = refl
