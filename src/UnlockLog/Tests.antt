-- ===== src/UnlockLog/Tests.antt =====
-- kernel-module/unlock_with_log.c at concrete inputs.
use ucsma_rate_control.Base.{
  ◌+◌, ◌≤◌, ◌≡◌, refl, false, some, List, [], ◌∷◌, arith, replicate, length, length-replicate,
}
use ucsma_rate_control.Base.Int.{pos}
use ucsma_rate_control.Kernel.Clock.{clock, at}
use ucsma_rate_control.Kernel.Ledger.{Ledger, nothing_held, replay}
use ucsma_rate_control.UnlockLog.{UnlockLog, GpioLog, record_count}
use ucsma_rate_control.UnlockLog.Logged.{IsLog}
use ucsma_rate_control.UnlockLog.Counts.{Event, irq, expiry, all_states, all_calls, history_logs}

empty_entry : GpioLog
empty_entry = record { time = at 0 0; triggered_by_timer = false }

-- One entry short of a full log.
abbrev nearly_full : UnlockLog
nearly_full = record {
  period = 20000;
  delta = 100;
  last_unlock = at 5 0;
  last_unlock_2nd = at 4 980_000_000;
  unlock_irq = pos 40;
  log = replicate record_count empty_entry;
  cur_count = 999;
}

nearly_full-IsLog : IsLog nearly_full
nearly_full-IsLog = record { whole = length-replicate record_count empty_entry; used = omega arith }

-- The expiry fills the log; the interrupt is relayed without a pulse.
abbrev last_entry : List Event
last_entry =
    expiry (at 5 10_000_000)
    ∷ irq (record { now = at 5 20_000_000; time = at 5 20_000_000; rng = 1234; backoff = 77 })
    ∷ []

history_logs_example :
    let t = all_states clock last_entry nearly_full in
    (k : Ledger) × (replay (all_calls clock last_entry nearly_full) nothing_held ≡ some k)
    × (k.pulses + 999 ≡ 0 + t.cur_count)
    × (t.cur_count ≤ record_count)
    × (length t.log ≡ record_count)
    × (k.locked ≡ false)
history_logs_example =
    history_logs clock last_entry nearly_full nothing_held nearly_full-IsLog (omega arith) refl
