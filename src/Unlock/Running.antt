-- ===== src/Unlock/Running.antt =====
-- kernel-module/unlock.c as a machine: interrupts, expiries, and what the rest of the system does
-- between them, in any order.
use ucsma_rate_control.Base.{
  ℕ, ◌+◌, ◌≡◌, ◌≢◌, ◌⊎◌, refl, inl, inr, false, Option, some, List, arith, Bool-cases, Option-cases,
  ◌==◌, ap, ◌∙◌,
}
use ucsma_rate_control.Kernel.{u32, Call}
use ucsma_rate_control.Kernel.Time.{TimespecSub}
use ucsma_rate_control.Kernel.Ledger.{Ledger, replay}
use ucsma_rate_control.Unlock.{
  Unlock, IrqInputs, unlock_r_irq_handler, unlock_timer_handler, is_ignored, relay, publish_size,
  raise_changed,
}
use ucsma_rate_control.Unlock.Irq.{
  handler-relay, handler-ignored, ignored-replay, relay-replay, after_relay, before_relay,
}
use ucsma_rate_control.Unlock.Expiry.{after_timer, expiry_restarts}
use ucsma_rate_control.Unlock.Lifecycle.{running}

-- The variables, and what the calls so far have left acquired.
pub record Machine : Type 0 where
  pub vars : Unlock
  pub held : Ledger

module _ (ts : TimespecSub) where
  -- An expiry finds the timer fired. The driver may change the list of buffers, and the user the two
  -- parameters, with Delta + Delta not 0 in a u32.
  pub data Step (m : Machine) : Machine → Type 0 where
    interrupt :
        (inp : IrqInputs) {h : Ledger}
        → replay (unlock_r_irq_handler ts inp m.vars).calls m.held ≡ some h
        → Step m (record { vars = (unlock_r_irq_handler ts inp m.vars).state; held = h })
    expire :
        {h : Ledger}
        → replay (unlock_timer_handler m.vars).calls (record m.held { timer = false }) ≡ some h
        → Step m (record { vars = (unlock_timer_handler m.vars).state; held = h })
    change_buffers :
        (txbuf : List ℕ)
        → Step m (record m {
          vars = record m.vars { exports = record m.vars.exports { txbuf_fff = some txbuf } };
        })
    set_parameters :
        (period delta : ℕ)
        → u32 (delta + delta) ≢ 0
        → Step m (record m { vars = record m.vars { period = period; delta = delta } })

  pub data Reach (m : Machine) : Machine → Type 0 where
    here : Reach m m
    next : {n k : Machine} → Reach m n → Step n k → Reach m k

-- A frame has been sent, Delta is usable, and the module holds what it got when it was loaded.
pub record IsRunning (m : Machine) : Type 0 where
  pub txbuf : List ℕ
  pub loaded : m.vars.txbuf_fff ≡ some txbuf
  pub nonzero : u32 (m.vars.delta + m.vars.delta) ≢ 0
  pub pulses : ℕ
  pub holds : m.held ≡ running m.vars.unlock_irq pulses

-- The variables that an interrupt leaves alone.
pub SameSetup : Unlock → Unlock → Type 0
SameSetup s t = (t.txbuf_fff ≡ s.txbuf_fff) × (t.delta ≡ s.delta) × (t.unlock_irq ≡ s.unlock_irq)

publish-SameSetup : (txbuf : List ℕ) (s : Unlock) → SameSetup s (publish_size txbuf s)
unfolding publish_size SameSetup
publish-SameSetup txbuf s = (refl, refl, refl)

relay-SameSetup :
    (ts : TimespecSub) (inp : IrqInputs) (s : Unlock) (before : List Call)
    → u32 (s.delta + s.delta) ≢ 0
    → SameSetup s (relay ts inp s before).state
unfolding relay raise_changed SameSetup
relay-SameSetup ts inp s before nonzero =
    let go : (u32 (s.delta + s.delta) == 0) ≡ false = ground arith in rw go (refl, refl, refl)

expiry-SameSetup : (s : Unlock) → SameSetup s (unlock_timer_handler s).state
unfolding unlock_timer_handler publish_size raise_changed SameSetup
expiry-SameSetup s = elim (Option-cases s.txbuf_fff) [
  | inl e ↦ ground arith
  | inr (txbuf, e) ↦ ground arith
]

-- What one interrupt leaves, by whether it is relayed.
pub irq_outcome :
    (ts : TimespecSub) (inp : IrqInputs) (s : Unlock) (txbuf : List ℕ) (h : Ledger)
    → s.txbuf_fff ≡ some txbuf
    → u32 (s.delta + s.delta) ≢ 0
    → h.locked ≡ false
    → let o = unlock_r_irq_handler ts inp s in
      SameSetup s o.state
      × ((replay o.calls h ≡ some h) ⊎ (replay o.calls h ≡ some (after_relay h)))
unfolding publish_size SameSetup
irq_outcome ts inp s txbuf h loaded nonzero free =
    elim (Bool-cases (is_ignored (ts.sub inp.now s.last_unlock) s.period)) [
      | inl ig ↦
          rw (handler-ignored ts inp s txbuf loaded ig)
            (publish-SameSetup txbuf s, inl (ignored-replay ts inp s txbuf h free))
      | inr tk ↦ rw (handler-relay ts inp s txbuf loaded tk) (
        relay-SameSetup ts inp (publish_size txbuf s) (before_relay ts inp s txbuf) nonzero,
        inr (relay-replay ts inp s txbuf (publish_size txbuf s) h free nonzero),
      )
    ]

some-inj : {h k : Ledger} {o : Option Ledger} → o ≡ some h → o ≡ some k → k ≡ h
some-inj p q = cc

module _ (ts : TimespecSub) where
  interrupt-IsRunning :
      {m : Machine} (inp : IrqInputs) (h : Ledger)
      → IsRunning m
      → replay (unlock_r_irq_handler ts inp m.vars).calls m.held ≡ some h
      → IsRunning (record { vars = (unlock_r_irq_handler ts inp m.vars).state; held = h })
  unfolding SameSetup
  interrupt-IsRunning {m} inp h run eq =
      let got =
        irq_outcome ts inp m.vars run.txbuf m.held run.loaded run.nonzero
          (ap (λ k. k.locked) run.holds) in
      let (txbuf_same, delta_same, irq_same) = got.0 in
      elim (got.1) [
        | inl same ↦ record {
          txbuf = run.txbuf;
          loaded = txbuf_same ∙ run.loaded;
          nonzero = rw delta_same run.nonzero;
          pulses = run.pulses;
          holds = rw irq_same (some-inj same eq ∙ run.holds);
        }
        | inr relayed ↦ record {
          txbuf = run.txbuf;
          loaded = txbuf_same ∙ run.loaded;
          nonzero = rw delta_same run.nonzero;
          pulses = run.pulses + 1;
          holds = rw irq_same (some-inj relayed eq ∙ ap after_relay run.holds);
        }
      ]

  expire-IsRunning :
      {m : Machine} (h : Ledger)
      → IsRunning m
      → replay (unlock_timer_handler m.vars).calls (record m.held { timer = false }) ≡ some h
      → IsRunning (record { vars = (unlock_timer_handler m.vars).state; held = h })
  unfolding SameSetup
  expire-IsRunning {m} h run eq =
      let (txbuf_same, delta_same, irq_same) = expiry-SameSetup m.vars in
      let fired = expiry_restarts m.vars run.txbuf (record m.held { timer = false }) run.loaded in
      record {
        txbuf = run.txbuf;
        loaded = txbuf_same ∙ run.loaded;
        nonzero = rw delta_same run.nonzero;
        pulses = run.pulses + 1;
        holds = rw irq_same (some-inj (fired.5) eq ∙ ap after_timer run.holds);
      }

  Step-IsRunning : {m n : Machine} → Step ts m n → IsRunning m → IsRunning n
  Step-IsRunning (interrupt inp {h} eq) run = interrupt-IsRunning inp h run eq
  Step-IsRunning (expire {h} eq) run = expire-IsRunning h run eq
  Step-IsRunning (change_buffers txbuf) run = record {
    txbuf = txbuf;
    loaded = refl;
    nonzero = run.nonzero;
    pulses = run.pulses;
    holds = run.holds;
  }
  Step-IsRunning (set_parameters period delta ok) run = record {
    txbuf = run.txbuf;
    loaded = run.loaded;
    nonzero = ok;
    pulses = run.pulses;
    holds = run.holds;
  }

  -- Every machine that interrupts, expiries, the driver and the user can reach holds the same as
  -- at the start: the lock free, the timer armed, the output low and the quiet bit clear.
  pub Reach-IsRunning : {m n : Machine} → IsRunning m → Reach ts m n → IsRunning n
  Reach-IsRunning run here = run
  Reach-IsRunning run (next r st) = Step-IsRunning st (Reach-IsRunning run r)
