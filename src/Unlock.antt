-- ===== src/Unlock.antt =====
-- kernel-module/unlock.c: the module that sends, relays and times the unlocking signal, and sets
-- the contention window from the number of transmit buffers.
pub mod Buffers
pub mod Window
pub mod Period
pub mod Irq
pub mod Expiry
pub mod Lifecycle
pub mod Lockout
pub mod Running
pub mod Life
mod Tests
use ucsma_rate_control.Base.{
  ℕ, zero, suc, ◌+◌, ◌-◌, ◌*◌, ◌%◌, ◌^◌, bit_and, bit_or, Bool, true, false, not, ◌||◌, none, some,
  List, [], ◌∷◌, ◌++◌, ltb, leb, ◌==◌, if◌then◌else◌,
}
use ucsma_rate_control.Base.Int.{ℤ, pos, is_zero, is_negative, int_gt, to_int, to_short}
use ucsma_rate_control.Exports.{Exports}
use ucsma_rate_control.Kernel.{
  u32, dlcl_ifs, pcu_misc, gbl_ifs_slot, gbl_ifs_sifs, gbl_ifs_eifs, force_quiet_coll, Call,
  spin_lock_irqsave, spin_unlock_irqrestore, gpio_set_value, udelay, ndelay, getnstimeofday,
  get_random_bytes, reg_read, reg_write, reg_set_bit, reg_clr_bit, hrtimer_init, hrtimer_cancel,
  hrtimer_start, hrtimer_forward_now, gpio_request_array, gpio_free_array, gpio_to_irq, request_irq,
  free_irq, Outcome,
}
use ucsma_rate_control.Kernel.Time.{Timespec, TimespecSub}

-- The number of nodes on a list, counted in a u32.
count_nodes : List ℕ → ℕ → ℕ
count_nodes [] size = size
count_nodes (p ∷ rest) size = count_nodes rest (u32 (size + 1))

pub get_buf_size : List ℕ → ℕ
unfolding count_nodes
get_buf_size txbuf = count_nodes txbuf 0

-- The ladder of `buf_size`, which the two handlers both have.
unfoldable pub cw_val : ℤ → ℕ
cw_val buf_size =
    if int_gt buf_size 70
    then 1023
    else if int_gt buf_size 65
    then 511
    else if int_gt buf_size 60
    then 511
    else if int_gt buf_size 50
    then 255
    else if int_gt buf_size 40
    then 63
    else if int_gt buf_size 20
    then 15
    else if int_gt buf_size 10
    then 7
    else if int_gt buf_size 5
    then 3
    else 1

-- One round: `tmp <<= 10; window_size |= tmp`.
pub widen : ℕ → ℕ
widen window_size = bit_or window_size (u32 (window_size * 2 ^ 10))

pub write_windows : (rounds qnum window_size : ℕ) → List Call
write_windows zero qnum window_size = []
write_windows (suc rounds) qnum window_size =
    let wide = widen window_size in
    reg_write (dlcl_ifs qnum) (bit_and 0x000fffff wide) ∷ write_windows rounds (qnum + 1) wide

pub edit_contention_window : ℕ → List Call
unfolding write_windows widen
edit_contention_window window_size = write_windows 8 0 window_size

-- The module's variables, the module parameters T (`period`) and Delta, and the fields of `ath_hw`
-- that it writes.
pub record Unlock : Type 0 where
  pub exports : Exports
  pub open exports use *
  pub period : ℕ
  pub delta : ℕ
  pub last_unlock : Timespec
  pub last_unlock_2nd : Timespec
  pub unlock_irq : ℤ
  pub slottime_clock : ℕ
  pub sifs_clock : ℕ
  pub eifs_clock : ℕ
  pub unlocked : Bool
  pub last_force_quiet_restore : Timespec
  pub unlocking_logging : Bool
  pub force_quiet_bit_restore : Bool
  pub max_timing_count : ℕ

abbrev pub unlock_out : ℕ
unlock_out = 21

abbrev pub unlock_in : ℕ
unlock_in = 22

abbrev pub pulse : List Call
pulse = gpio_set_value unlock_out 1 ∷ udelay 1 ∷ gpio_set_value unlock_out 0 ∷ []

-- Both handlers publish the size of the list before they set the window.
pub publish_size : List ℕ → Unlock → Unlock
publish_size txbuf s = record s {
  exports = record s.exports { buf_counter = to_int (get_buf_size txbuf) };
}

pub raise_changed : Unlock → Unlock
raise_changed s = record s { exports = record s.exports { has_changed = 1 } }

-- The calls that set the window for a list of buffers.
pub set_window : List ℕ → List Call
set_window txbuf = edit_contention_window (cw_val (to_int (get_buf_size txbuf)))

-- `no_value` is a return statement with no value in a function that has one.
pub data TimerReturn : Type 0 where
  restart no_value : TimerReturn

pub unlock_timer_handler : Unlock → Outcome Unlock TimerReturn
unfolding publish_size raise_changed set_window
unlock_timer_handler s = elim s.txbuf_fff [
  | none ↦ record { state = s; calls = pulse; result = no_value }
  | some txbuf ↦ record {
    state = raise_changed (publish_size txbuf s);
    calls = pulse ++ (set_window txbuf ++ hrtimer_forward_now (u32 (s.period * 1000)) ∷ []);
    result = restart;
  }
]

-- What the kernel answers during one interrupt: the time, two random words, and the time when the
-- quiet bit is cleared.
pub record IrqInputs : Type 0 where
  pub now : Timespec
  pub rng : ℕ
  pub backoff : ℕ
  pub restore : Timespec

-- `divided_by_zero` is `rng %= (Delta + Delta)` where the sum is 0 in a u32.
pub data IrqReturn : Type 0 where
  irq_handled no_value divided_by_zero : IrqReturn

-- Lines 96 and 147: too long ago, or too recent.
pub is_ignored : (diff : Timespec) (period : ℕ) → Bool
is_ignored diff period = not (is_zero diff.tv_sec) || ltb diff.tv_nsec (u32 (period * 500))

pub first_delay : (diff : Timespec) (period rng : ℕ) → ℕ
first_delay diff period rng =
    if not (is_zero diff.tv_sec) || leb diff.tv_nsec (u32 (period * 1000))
    then u32 (period + rng)
    else u32 (period + 2 ^ 32 - rng)

-- `next_timer -= backoff; if (next_timer < 0) next_timer = 0;` on an unsigned int.
pub less_backoff : (next_timer backoff : ℕ) → ℕ
less_backoff next_timer backoff =
    let rest = u32 (next_timer + 2 ^ 32 - backoff) in if ltb rest 0 then 0 else rest

module _ (ts : TimespecSub) where
  pub next_timer : IrqInputs → Unlock → ℕ
  unfolding first_delay less_backoff
  next_timer inp s =
      less_backoff
        (first_delay (ts.sub s.last_unlock s.last_unlock_2nd) s.period
          (inp.rng % u32 (s.delta + s.delta)))
        (inp.backoff % u32 (s.delta + s.delta))

  -- From `hrtimer_cancel` on.
  pub relay : IrqInputs → Unlock → List Call → Outcome Unlock IrqReturn
  unfolding next_timer raise_changed
  relay inp s before =
      let s' = raise_changed s in
      let calls = before ++ (hrtimer_cancel ∷ pulse ++ get_random_bytes inp.rng ∷ []) in
      if u32 (s.delta + s.delta) == 0
      then record { state = s'; calls = calls; result = divided_by_zero }
      else record {
        state = record s' {
          last_unlock_2nd = s.last_unlock;
          last_unlock = inp.now;
          unlocked = true;
          last_force_quiet_restore = inp.restore;
        };
        calls =
            calls
            ++ (get_random_bytes inp.backoff
                ∷ reg_set_bit pcu_misc force_quiet_coll
                ∷ ndelay (u32 (inp.backoff % u32 (s.delta + s.delta) * 1000))
                ∷ getnstimeofday inp.restore
                ∷ reg_clr_bit pcu_misc force_quiet_coll
                ∷ hrtimer_start (u32 (next_timer inp s * 1000))
                ∷ spin_unlock_irqrestore
                ∷ []);
        result = irq_handled;
      }

  pub unlock_r_irq_handler : IrqInputs → Unlock → Outcome Unlock IrqReturn
  unfolding relay publish_size set_window is_ignored
  unlock_r_irq_handler inp s = elim s.txbuf_fff [
    | none ↦ record { state = s; calls = spin_lock_irqsave ∷ []; result = no_value }
    | some txbuf ↦
        let s' = publish_size txbuf s in
        let calls = spin_lock_irqsave ∷ set_window txbuf ++ getnstimeofday inp.now ∷ [] in
        if is_ignored (ts.sub inp.now s.last_unlock) s.period
        then record {
          state = s';
          calls = calls ++ spin_unlock_irqrestore ∷ [];
          result = irq_handled;
        }
        else relay inp s' calls
  ]

-- What the kernel answers while the module is loaded.
pub record InitInputs : Type 0 where
  pub slot : ℕ
  pub sifs : ℕ
  pub eifs : ℕ
  pub now : Timespec
  pub gpios : ℤ
  pub irq : ℤ
  pub request : ℤ

pub unlock_init : InitInputs → Unlock → Outcome Unlock ℤ
unlock_init inp s =
    let ready = record s {
      unlocking_logging = true;
      force_quiet_bit_restore = true;
      max_timing_count = 10;
      slottime_clock = inp.slot;
      sifs_clock = inp.sifs;
      eifs_clock = inp.eifs;
      last_unlock = inp.now;
    } in
    let asked =
      reg_read gbl_ifs_slot inp.slot
      ∷ reg_read gbl_ifs_sifs inp.sifs
      ∷ reg_read gbl_ifs_eifs inp.eifs
      ∷ hrtimer_init
      ∷ getnstimeofday inp.now
      ∷ gpio_request_array inp.gpios
      ∷ [] in
    if not (is_zero inp.gpios)
    then record { state = ready; calls = asked; result = inp.gpios }
    else let irq = to_short inp.irq in
      let mapped = record ready { unlock_irq = irq } in
      let asked' = asked ++ gpio_to_irq unlock_in inp.irq ∷ [] in
      if is_negative irq
      then record { state = mapped; calls = asked' ++ gpio_free_array ∷ []; result = irq }
      else let asked'' = asked' ++ request_irq irq inp.request ∷ [] in
        if not (is_zero inp.request)
        then record {
          state = mapped;
          calls = asked'' ++ gpio_free_array ∷ [];
          result = inp.request;
        }
        else record {
          state = mapped;
          calls = asked'' ++ (hrtimer_start (u32 (s.period * 1000)) ∷ edit_contention_window 15);
          result = pos 0;
        }

pub unlock_exit : Unlock → Outcome Unlock (Unit {0})
unlock_exit s = record {
  state = record s {
    unlocking_logging = false;
    unlocked = false;
    force_quiet_bit_restore = false;
    max_timing_count = 0;
  };
  calls = hrtimer_cancel ∷ free_irq s.unlock_irq ∷ gpio_free_array ∷ [];
  result = tt;
}
