-- ===== src/Kernel/Ledger.antt =====
-- What a list of calls leaves acquired, by the rules of the kernel's interface: what an acquiring
-- call that succeeded holds, a releasing call gives back. `none` is a misuse: a release of what is
-- not held, a lock taken twice, or a write to a pin that is no output. `raised` is the level last written to the output pin, `quiet` the
-- FORCE_QUIET_COLL bit, `timer` an armed timer, and `pulses` counts
-- the times that the output was raised.
use ucsma_rate_control.Base.{
  ℕ, ◌+◌, ◌≡◌, refl, Bool, true, false, not, ◌==◌, Option, none, some, List, [], ◌∷◌, ◌++◌,
  if◌then◌else◌, arith,
}
pub use ucsma_rate_control.Base.Replay.{and_then}
use ucsma_rate_control.Base.Replay.{replay_by, replay_by-append}
use ucsma_rate_control.Base.Int.{ℤ, eq_ℤ, eq_ℤ_refl, is_zero, is_negative}
use ucsma_rate_control.Kernel.Defs.{
  Call, spin_lock_irqsave, spin_unlock_irqrestore, hrtimer_cancel, hrtimer_start,
  hrtimer_forward_now, gpio_request_array, gpio_free_array, request_irq, free_irq,
  request_any_context_irq, gpio_set_value, reg_set_bit, reg_clr_bit, force_quiet_coll, mod_timer,
  del_timer, add_timer, del_timer_sync,
}

pub record Ledger : Type 0 where
  pub locked : Bool
  pub gpios : Bool
  pub irqs : List ℤ
  pub timer : Bool
  pub raised : Bool
  pub quiet : Bool
  pub pulses : ℕ

-- The pin that every module has as its output.
abbrev output_pin : ℕ
output_pin = 21

abbrev pub nothing_held : Ledger
nothing_held = record {
  locked = false;
  gpios = false;
  irqs = [];
  timer = false;
  raised = false;
  quiet = false;
  pulses = 0;
}

unfoldable pub drop_irq : ℤ → List ℤ → Option (List ℤ)
drop_irq irq [] = none
drop_irq irq (i ∷ rest) =
    if eq_ℤ irq i
    then some rest
    else elim (drop_irq irq rest) [ none ↦ none | some kept ↦ some (i ∷ kept) ]

abbrev pub keep_irqs : Option (List ℤ) → Ledger → Option Ledger
keep_irqs none h = none
keep_irqs (some kept) h = some (record h { irqs = kept })

unfoldable pub enter : Call → Ledger → Option Ledger
enter spin_lock_irqsave h = if h.locked then none else some (record h { locked = true })
enter spin_unlock_irqrestore h = if h.locked then some (record h { locked = false }) else none
enter (gpio_set_value pin value) h =
    let written : Ledger = record h {
      raised = not (value == 0);
      pulses = if value == 0 then h.pulses else h.pulses + 1;
    } in
    if pin == output_pin then some written else none
enter (reg_set_bit reg force_quiet_coll) h = some (record h { quiet = true })
enter (reg_clr_bit reg force_quiet_coll) h = some (record h { quiet = false })
enter (mod_timer jiffies) h = some (record h { timer = true })
enter del_timer h = some (record h { timer = false })
enter add_timer h = some (record h { timer = true })
enter del_timer_sync h = some (record h { timer = false })
enter hrtimer_cancel h = some (record h { timer = false })
enter (hrtimer_start ns) h = some (record h { timer = true })
enter (hrtimer_forward_now ns) h = some (record h { timer = true })
enter (gpio_request_array r) h =
    if is_zero r then (if h.gpios then none else some (record h { gpios = true })) else some h
enter gpio_free_array h = if h.gpios then some (record h { gpios = false }) else none
enter (request_irq irq r) h = if is_zero r then some (record h { irqs = irq ∷ h.irqs }) else some h
enter (request_any_context_irq irq r) h =
    if is_negative r then some h else some (record h { irqs = irq ∷ h.irqs })
enter (free_irq irq) h = keep_irqs (drop_irq irq h.irqs) h
enter _ h = some h

unfoldable pub replay : List Call → Ledger → Option Ledger
unfolding enter replay_by
replay calls h = replay_by enter calls h

-- The calls that follow start from what the first calls leave.
pub replay-append :
    (xs ys : List Call) (h : Ledger) → replay (xs ++ ys) h ≡ and_then (replay xs h) (replay ys)
unfolding replay
replay-append xs ys h = replay_by-append enter xs ys h

pub replay_cons :
    (c : Call) (calls : List Call) (h : Ledger)
    → replay (c ∷ calls) h ≡ and_then (enter c h) (replay calls)
unfolding replay
replay_cons c calls h = refl

pub replay_nil : (h : Ledger) → replay [] h ≡ some h
unfolding replay
replay_nil h = refl

-- The last interrupt registered can be given back.
pub drop_irq-head : (irq : ℤ) (rest : List ℤ) → drop_irq irq (irq ∷ rest) ≡ some rest
unfolding drop_irq
drop_irq-head irq rest = ground (arith, eq_ℤ_refl irq)

pub ruleset replays = (replay-append, replay_cons, replay_nil, drop_irq-head)
