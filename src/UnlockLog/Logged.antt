-- ===== src/UnlockLog/Logged.antt =====
-- kernel-module/unlock_with_log.c: one pulse and its entry.
use ucsma_rate_control.Base.{
  ◌+◌, ◌≤◌, ◌≡◌, ◌∙◌, inl, inr, refl, Bool, true, false, some, List, [], ◌∷◌, arith, ltb,
  if◌then◌else◌, length, length-set, Bool-cases,
}
use ucsma_rate_control.Kernel.Time.{Timespec}
use ucsma_rate_control.Kernel.Ledger.{Ledger, enter, replay, replays, replay_nil}
use ucsma_rate_control.UnlockLog.{GpioLog, UnlockLog, record_count, print_log, log_pulse}

print_log-replay : (entries : List GpioLog) (h : Ledger) → replay (print_log entries) h ≡ some h
unfolding print_log enter
print_log-replay [] h = replay_nil h
print_log-replay (e ∷ entries) h = simp replays (print_log-replay entries h)

-- The log has its 1000 entries, of which `cur_count` are in use.
pub record IsLog (s : UnlockLog) : Type 0 where
  pub whole : length s.log ≡ record_count
  pub used : s.cur_count ≤ record_count

-- What a step adds to the log is what it adds to the pulses.
pub record Adds (s t : UnlockLog) (h k : Ledger) : Type 0 where
  pub ok : IsLog t
  pub delta_same : t.delta ≡ s.delta
  pub counted : k.pulses + s.cur_count ≡ h.pulses + t.cur_count
  pub lock_same : k.locked ≡ h.locked

abbrev pub after_log : UnlockLog → Ledger → Ledger
after_log s h =
    if ltb s.cur_count record_count then record h { raised = false; pulses = h.pulses + 1 } else h

tail-replay :
    (full : Bool) (entries : List GpioLog) (h : Ledger)
    → replay (if full then print_log entries else []) h ≡ some h
tail-replay true entries h = print_log-replay entries h
tail-replay false entries h = replay_nil h

pub log_pulse-replay :
    (by_timer : Bool) (time : Timespec) (s : UnlockLog) (h : Ledger)
    → replay (log_pulse by_timer time s).calls h ≡ some (after_log s h)
unfolding log_pulse enter
log_pulse-replay by_timer time s h = elim (Bool-cases (ltb s.cur_count record_count)) [
  | inl room ↦ rw room (simp (replays, tail-replay))
  | inr full ↦ rw full (replay_nil h)
]

pub log_pulse-Adds :
    (by_timer : Bool) (time : Timespec) (s : UnlockLog) (h : Ledger)
    → IsLog s
    → Adds s (log_pulse by_timer time s).state h (after_log s h)
unfolding log_pulse
log_pulse-Adds by_timer time s h ok = elim (Bool-cases (ltb s.cur_count record_count)) [
  | inl room ↦ rw room (record {
    ok = record { whole = length-set s.log s.cur_count _ ∙ ok.whole; used = ground arith };
    delta_same = refl;
    counted = ground arith;
    lock_same = refl;
  })
  | inr full ↦ rw full (record { ok = ok; delta_same = refl; counted = refl; lock_same = refl })
]
