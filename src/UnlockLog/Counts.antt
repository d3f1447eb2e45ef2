-- ===== src/UnlockLog/Counts.antt =====
-- kernel-module/unlock_with_log.c: histories of interrupts and expiries.
use ucsma_rate_control.Base.{
  ◌+◌, ◌≤◌, ◌≡◌, ◌≢◌, ◌∙◌, inl, inr, refl, sym, true, false, some, List, [], ◌∷◌, ◌++◌, arith,
  length, ◌==◌, Bool-cases,
}
use ucsma_rate_control.Kernel.{u32, Call}
use ucsma_rate_control.Kernel.Time.{Timespec, TimespecSub}
use ucsma_rate_control.Kernel.Ledger.{Ledger, enter, replay, replays, replay_nil, replay-append}
use ucsma_rate_control.Unlock.{is_ignored}
use ucsma_rate_control.UnlockLog.{
  UnlockLog, record_count, unlock_timer_handler, relay, unlock_r_irq_handler, IrqInputs,
}
use ucsma_rate_control.UnlockLog.Logged.{IsLog, Adds, log_pulse-replay, log_pulse-Adds, after_log}

pub data Event : Type 0 where
  irq : IrqInputs → Event
  expiry : (time : Timespec) → Event

module _ (ts : TimespecSub) where
  pub state_after : Event → UnlockLog → UnlockLog
  state_after (irq inp) s = (unlock_r_irq_handler ts inp s).state
  state_after (expiry time) s = (unlock_timer_handler time s).state

  pub calls_of : Event → UnlockLog → List Call
  calls_of (irq inp) s = (unlock_r_irq_handler ts inp s).calls
  calls_of (expiry time) s = (unlock_timer_handler time s).calls

  pub all_states : List Event → UnlockLog → UnlockLog
  unfolding state_after
  all_states [] s = s
  all_states (e ∷ events) s = all_states events (state_after e s)

  pub all_calls : List Event → UnlockLog → List Call
  unfolding calls_of state_after
  all_calls [] s = []
  all_calls (e ∷ events) s = calls_of e s ++ all_calls events (state_after e s)

-- A replay that goes through, with what it adds.
abbrev pub Goes : List Call → UnlockLog → UnlockLog → Ledger → Type 0
Goes calls s t h = (k : Ledger) × (replay calls h ≡ some k) × Adds s t h k

Adds-trans : {s t u : UnlockLog} {h k l : Ledger} → Adds s t h k → Adds t u k l → Adds s u h l
Adds-trans a b = record {
  ok = b.ok;
  delta_same = b.delta_same ∙ a.delta_same;
  counted = omega (arith, a.counted, b.counted);
  lock_same = b.lock_same ∙ a.lock_same;
}

expiry-Goes :
    (time : Timespec) (s : UnlockLog) (h : Ledger)
    → IsLog s
    → Goes (unlock_timer_handler time s).calls s (unlock_timer_handler time s).state h
unfolding unlock_timer_handler enter
expiry-Goes time s h ok =
    let a = log_pulse-Adds true time s h ok in
    (
      record (after_log s h) { timer = true },
      simp (replays, log_pulse-replay),
      record { ok = a.ok; delta_same = a.delta_same; counted = a.counted; lock_same = a.lock_same },
    )

irq-Goes :
    (ts : TimespecSub) (inp : IrqInputs) (s : UnlockLog) (h : Ledger)
    → IsLog s
    → u32 (s.delta + s.delta) ≢ 0
    → h.locked ≡ false
    → Goes (unlock_r_irq_handler ts inp s).calls s (unlock_r_irq_handler ts inp s).state h
unfolding unlock_r_irq_handler relay enter
irq-Goes ts inp s h ok nonzero free =
    elim (Bool-cases (is_ignored (ts.sub inp.now s.last_unlock) s.period)) [
      | inl ignored ↦ rw ignored (
        h,
        simp (replays, free) (ground arith),
        record { ok = ok; delta_same = refl; counted = refl; lock_same = refl },
      )
      | inr taken ↦
          let go : (u32 (s.delta + s.delta) == 0) ≡ false = ground arith in
          let taking = record h { locked = true; timer = false } in
          let a = log_pulse-Adds false inp.time s taking ok in
          let held : (after_log s taking).locked ≡ true = a.lock_same in
          rw (taken, go)
            (
              record (after_log s taking) { locked = false; timer = true; quiet = false },
              simp (replays, free, log_pulse-replay, held),
              record {
                ok = record { whole = a.ok.whole; used = a.ok.used };
                delta_same = a.delta_same;
                counted = a.counted;
                lock_same = sym free;
              },
            )
    ]

history-Goes :
    (ts : TimespecSub) (events : List Event) (s : UnlockLog) (h : Ledger)
    → IsLog s
    → u32 (s.delta + s.delta) ≢ 0
    → h.locked ≡ false
    → Goes (all_calls ts events s) s (all_states ts events s) h
unfolding all_calls all_states
history-Goes ts [] s h ok nonzero free =
    (h, replay_nil h, record { ok = ok; delta_same = refl; counted = refl; lock_same = refl })
history-Goes ts (irq inp ∷ events) s h ok nonzero free =
    let first = irq-Goes ts inp s h ok nonzero free in
    let a = first.2 in
    let rest =
      history-Goes ts events (unlock_r_irq_handler ts inp s).state first.0 (a.ok)
        (rw (a.delta_same) nonzero) (a.lock_same ∙ free) in
    (rest.0, rw (replay-append, first.1) (rest.1), Adds-trans a (rest.2))
history-Goes ts (expiry time ∷ events) s h ok nonzero free =
    let first = expiry-Goes time s h ok in
    let a = first.2 in
    let rest =
      history-Goes ts events (unlock_timer_handler time s).state first.0 (a.ok)
        (rw (a.delta_same) nonzero) (a.lock_same ∙ free) in
    (rest.0, rw (replay-append, first.1) (rest.1), Adds-trans a (rest.2))

-- With a log of 1000 entries, Delta + Delta not 0 in a u32 and the lock free, over any history of
-- interrupts and expiries the pulses of the output are as many as the entries added to the log,
-- of which there are never more than 1000, and the lock is free at the end.
pub history_logs :
    (ts : TimespecSub) (events : List Event) (s : UnlockLog) (h : Ledger)
    → IsLog s
    → u32 (s.delta + s.delta) ≢ 0
    → h.locked ≡ false
    → let t = all_states ts events s in
      (k : Ledger) × (replay (all_calls ts events s) h ≡ some k)
      × (k.pulses + s.cur_count ≡ h.pulses + t.cur_count)
      × (t.cur_count ≤ record_count)
      × (length t.log ≡ record_count)
      × (k.locked ≡ false)
history_logs ts events s h ok nonzero free =
    let g = history-Goes ts events s h ok nonzero free in
    let a = g.2 in (g.0, g.1, a.counted, a.ok.used, a.ok.whole, a.lock_same ∙ free)
