-- ===== src/Modules/NodeTwo.antt =====
-- kernel-module/interrupt_test_node2.c: the node that answers an interrupt with a pulse.
use ucsma_rate_control.Base.{
  ℕ, ◌+◌, ◌-◌, ◌%◌, ◌^◌, ◌<◌, ◌≡◌, refl, false, some, List, [], ◌∷◌, arith, leb, if◌then◌else◌,
  Bool-cases, inl, inr,
}
use ucsma_rate_control.Base.Int.{ℤ}
use ucsma_rate_control.Kernel.{
  u32, Call, spin_lock_irqsave, spin_unlock_irqrestore, gpio_set_value, udelay, Outcome,
}
use ucsma_rate_control.Kernel.Ledger.{Ledger, enter, replay, replays, replay_nil}
use ucsma_rate_control.Modules.Watch.{Answers, watch_init, watch_exit}

-- `last_interrupt_time` is a long, kept as the pattern of its 32 bits.
pub record NodeTwo : Type 0 where
  pub unlock_irq : ℤ
  pub last_interrupt_time : ℕ

pub record Relayed : Type 0 where
  pub state : NodeTwo
  pub calls : List Call

-- `jiffies` is read once at the start, and once more after the pulse.
pub unlock_r_irq_handler : (jiffies after : ℕ) → NodeTwo → Relayed
unlock_r_irq_handler jiffies after s =
    if leb (u32 (jiffies + 2 ^ 32 - s.last_interrupt_time)) 1
    then record { state = s; calls = [] }
    else record {
      state = record s { last_interrupt_time = after };
      calls =
          spin_lock_irqsave
          ∷ gpio_set_value 21 1
          ∷ udelay 1
          ∷ gpio_set_value 21 0
          ∷ spin_unlock_irqrestore
          ∷ [];
    }

pub node_two_init : Answers → NodeTwo → Outcome NodeTwo ℤ
node_two_init a s =
    let l = watch_init a s.unlock_irq in
    record { state = record s { unlock_irq = l.unlock_irq }; calls = l.calls; result = l.result }

pub node_two_exit : NodeTwo → List Call
node_two_exit s = watch_exit s.unlock_irq

-- For an interrupt e ticks after the last pulse, with e below 2 ^ 32 and the lock free: up to one
-- tick nothing happens; after more the output is pulsed once, the lock is free again, and the
-- time is kept.
pub node_two_relays :
    (last e after : ℕ) (s : NodeTwo) (h : Ledger)
    → s.last_interrupt_time ≡ last % 2 ^ 32
    → e < 2 ^ 32
    → h.locked ≡ false
    → let r = unlock_r_irq_handler ((last + e) % 2 ^ 32) after s in
      (r.state ≡ (if leb e 1 then s else record s { last_interrupt_time = after }))
      × (replay r.calls h
          ≡ some (
              if leb e 1
              then h
              else record h { locked = false; raised = false; pulses = h.pulses + 1 }))
unfolding unlock_r_irq_handler enter
node_two_relays last e after s h kept small free =
    let same : u32 ((last + e) % 2 ^ 32 + 2 ^ 32 - s.last_interrupt_time) ≡ e = omega arith in
    elim (Bool-cases (leb e 1)) [
      | inl soon ↦ rw (same, soon) (refl, replay_nil h)
      | inr late ↦ rw (same, late) (refl, simp (replays, free))
    ]
