-- ===== src/UnlockLog.antt =====
-- kernel-module/unlock_with_log.c: the unlocking module with a log of its pulses. It has no list of
-- buffers and sets no window; its delays are computed by the same lines as in unlock.c.
pub mod Logged
pub mod Counts
mod Tests
use ucsma_rate_control.Base.{
  ℕ, zero, suc, ◌+◌, ◌*◌, ◌%◌, Bool, true, false, not, List, [], ◌∷◌, ◌++◌, map, ltb, ◌==◌,
  if◌then◌else◌, set,
}
use ucsma_rate_control.Base.Int.{ℤ, pos, is_zero, is_negative, to_short}
use ucsma_rate_control.Kernel.{
  u32, pcu_misc, force_quiet_coll, Call, spin_lock_irqsave, spin_unlock_irqrestore, ndelay,
  getnstimeofday, get_random_bytes, reg_set_bit, reg_clr_bit, hrtimer_init, hrtimer_cancel,
  hrtimer_start, hrtimer_forward_now, gpio_request_array, gpio_free_array, gpio_to_irq, request_irq,
  free_irq, print_record, Outcome,
}
use ucsma_rate_control.Kernel.Time.{Timespec, TimespecSub}
use ucsma_rate_control.Unlock.{is_ignored, first_delay, less_backoff, pulse, unlock_in}

abbrev pub record_count : ℕ
record_count = 1000

pub record GpioLog : Type 0 where
  pub time : Timespec
  pub triggered_by_timer : Bool

-- The module's variables; the log is an array of `record_count` entries.
pub record UnlockLog : Type 0 where
  pub period : ℕ
  pub delta : ℕ
  pub last_unlock : Timespec
  pub last_unlock_2nd : Timespec
  pub unlock_irq : ℤ
  pub log : List GpioLog
  pub cur_count : ℕ

pub print_log : List GpioLog → List Call
print_log [] = []
print_log (e ∷ entries) = print_record e.triggered_by_timer e.time ∷ print_log entries

pub record Pulsed : Type 0 where
  pub state : UnlockLog
  pub calls : List Call

-- The pulse and its entry, while the log has room; the whole log is printed when it is full.
pub log_pulse : (by_timer : Bool) (time : Timespec) → UnlockLog → Pulsed
unfolding print_log
log_pulse by_timer time s =
    let log = set s.log s.cur_count (record { time = time; triggered_by_timer = by_timer }) in
    let count = u32 (s.cur_count + 1) in
    if ltb s.cur_count record_count
    then record {
      state = record s { log = log; cur_count = count };
      calls = getnstimeofday time ∷ pulse ++ (if count == record_count then print_log log else []);
    }
    else record { state = s; calls = [] }

pub data TimerReturn : Type 0 where
  norestart : TimerReturn

pub unlock_timer_handler : (time : Timespec) → UnlockLog → Outcome UnlockLog TimerReturn
unfolding log_pulse
unlock_timer_handler time s =
    let logged = log_pulse true time s in
    record {
      state = logged.state;
      calls = logged.calls ++ hrtimer_forward_now (u32 (s.period * 1000)) ∷ [];
      result = norestart;
    }

-- What the kernel answers during one interrupt: the time, the time of the entry, two random words.
pub record IrqInputs : Type 0 where
  pub now : Timespec
  pub time : Timespec
  pub rng : ℕ
  pub backoff : ℕ

pub data IrqReturn : Type 0 where
  irq_handled divided_by_zero : IrqReturn

module _ (ts : TimespecSub) where
  pub next_timer : IrqInputs → UnlockLog → ℕ
  next_timer inp s =
      less_backoff
        (first_delay (ts.sub s.last_unlock s.last_unlock_2nd) s.period
          (inp.rng % u32 (s.delta + s.delta)))
        (inp.backoff % u32 (s.delta + s.delta))

  -- From the test of the time on.
  pub relay : IrqInputs → UnlockLog → Outcome UnlockLog IrqReturn
  unfolding log_pulse next_timer
  relay inp s =
      let logged = log_pulse false inp.time s in
      let calls = hrtimer_cancel ∷ logged.calls ++ get_random_bytes inp.rng ∷ [] in
      if u32 (s.delta + s.delta) == 0
      then record { state = logged.state; calls = calls; result = divided_by_zero }
      else record {
        state = record logged.state { last_unlock_2nd = s.last_unlock; last_unlock = inp.now };
        calls =
            calls
            ++ (get_random_bytes inp.backoff
                ∷ reg_set_bit pcu_misc force_quiet_coll
                ∷ ndelay (u32 (inp.backoff % u32 (s.delta + s.delta) * 1000))
                ∷ reg_clr_bit pcu_misc force_quiet_coll
                ∷ hrtimer_start (u32 (next_timer inp s * 1000))
                ∷ spin_unlock_irqrestore
                ∷ []);
        result = irq_handled;
      }

  pub unlock_r_irq_handler : IrqInputs → UnlockLog → Outcome UnlockLog IrqReturn
  unfolding relay
  unlock_r_irq_handler inp s =
      let r = relay inp s in
      if is_ignored (ts.sub inp.now s.last_unlock) s.period
      then record {
        state = s;
        calls = spin_lock_irqsave ∷ getnstimeofday inp.now ∷ spin_unlock_irqrestore ∷ [];
        result = irq_handled;
      }
      else record r { calls = spin_lock_irqsave ∷ getnstimeofday inp.now ∷ r.calls }

-- What the kernel answers while the module is loaded.
pub record InitInputs : Type 0 where
  pub now : Timespec
  pub gpios : ℤ
  pub irq : ℤ
  pub request : ℤ

pub unlock_init : InitInputs → UnlockLog → Outcome UnlockLog ℤ
unlock_init inp s =
    let ready = record s { last_unlock = inp.now } in
    let irq = to_short inp.irq in
    let mapped = record ready { unlock_irq = irq } in
    let asked = hrtimer_init ∷ getnstimeofday inp.now ∷ gpio_request_array inp.gpios ∷ [] in
    let asked' = asked ++ gpio_to_irq unlock_in inp.irq ∷ [] in
    let asked'' = asked' ++ request_irq irq inp.request ∷ [] in
    if not (is_zero inp.gpios)
    then record { state = ready; calls = asked; result = inp.gpios }
    else if is_negative irq
    then record { state = mapped; calls = asked' ++ gpio_free_array ∷ []; result = irq }
    else if not (is_zero inp.request)
    then record { state = mapped; calls = asked'' ++ gpio_free_array ∷ []; result = inp.request }
    else record {
      state = mapped;
      calls = asked'' ++ hrtimer_start (u32 (s.period * 1000)) ∷ [];
      result = pos 0;
    }

pub unlock_exit : UnlockLog → List Call
unlock_exit s = hrtimer_cancel ∷ free_irq s.unlock_irq ∷ gpio_free_array ∷ []
