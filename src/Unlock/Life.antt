-- ===== src/Unlock/Life.antt =====
-- kernel-module/unlock.c from loading to unloading.
use ucsma_rate_control.Base.{
  ℕ, ◌+◌, ◌≡◌, ◌≢◌, refl, inl, inr, ap, ◌∙◌, false, some, List, Bool-cases,
}
use ucsma_rate_control.Base.Int.{pos, is_zero, is_negative, to_short}
use ucsma_rate_control.Kernel.{u32}
use ucsma_rate_control.Kernel.Time.{TimespecSub}
use ucsma_rate_control.Kernel.Ledger.{Ledger, nothing_held, replay}
use ucsma_rate_control.Unlock.{
  Unlock, IrqInputs, InitInputs, unlock_init, unlock_exit, unlock_r_irq_handler,
  unlock_timer_handler,
}
use ucsma_rate_control.Unlock.Lifecycle.{running, init-replay, exit-replay}
use ucsma_rate_control.Unlock.Expiry.{after_timer, expiry_restarts}
use ucsma_rate_control.Unlock.Irq.{after_relay}
use ucsma_rate_control.Unlock.Running.{Machine, Reach, IsRunning, Reach-IsRunning, irq_outcome}

init-keeps :
    (inp : InitInputs) (s : Unlock)
    → ((unlock_init inp s).state.txbuf_fff ≡ s.txbuf_fff)
      × ((unlock_init inp s).state.delta ≡ s.delta)
unfolding unlock_init
init-keeps inp s = elim (Bool-cases (is_zero inp.gpios)) [
  | inr refused ↦ rw refused (refl, refl)
  | inl granted ↦ rw granted (elim (Bool-cases (is_negative (to_short inp.irq))) [
    | inl negative ↦ rw negative (refl, refl)
    | inr mapped ↦ rw mapped (elim (Bool-cases (is_zero inp.request)) [
      | inl registered ↦ rw registered (refl, refl)
      | inr failed ↦ rw failed (refl, refl)
    ])
  ])
]

start-IsRunning :
    (inp : InitInputs) (s : Unlock) (txbuf : List ℕ)
    → s.txbuf_fff ≡ some txbuf
    → u32 (s.delta + s.delta) ≢ 0
    → IsRunning (record {
      vars = (unlock_init inp s).state;
      held = running (unlock_init inp s).state.unlock_irq 0;
    })
start-IsRunning inp s txbuf loaded nonzero =
    let (txbuf_same, delta_same) = init-keeps inp s in
    record {
      txbuf = txbuf;
      loaded = txbuf_same ∙ loaded;
      nonzero = rw delta_same nonzero;
      pulses = 0;
      holds = refl;
    }

-- Loading that succeeds holds the pins, the interrupt and the timer; after any history of
-- interrupts, expiries and changes from outside that starts when a frame has been sent and Delta
-- + Delta is not 0 in a u32, each handler can run with no misuse, and unloading gives everything
-- back.
pub module_life :
    (ts : TimespecSub) (inp : InitInputs) (s : Unlock) (txbuf : List ℕ) (m : Machine)
    → s.txbuf_fff ≡ some txbuf
    → u32 (s.delta + s.delta) ≢ 0
    → (unlock_init inp s).result ≡ pos 0
    → Reach ts
        (record {
          vars = (unlock_init inp s).state;
          held = running (unlock_init inp s).state.unlock_irq 0;
        })
        m
    → (replay (unlock_init inp s).calls nothing_held
        ≡ some (running (unlock_init inp s).state.unlock_irq 0))
      × ((i : IrqInputs)
          → (k : Ledger) × (replay (unlock_r_irq_handler ts i m.vars).calls m.held ≡ some k))
      × ((k : Ledger) × (replay
              (unlock_timer_handler m.vars).calls
              (record m.held { timer = false })
            ≡ some k))
      × ((n : ℕ) × (replay (unlock_exit m.vars).calls m.held
            ≡ some (record nothing_held { pulses = n })))
module_life ts inp s txbuf m loaded nonzero ok reach =
    let run = Reach-IsRunning ts (start-IsRunning inp s txbuf loaded nonzero) reach in
    (
      rw (init-replay inp s, ok) refl,
      λ i.
          elim ((irq_outcome ts i m.vars run.txbuf m.held run.loaded run.nonzero
            (ap (λ k. k.locked) run.holds)).1) [
              | inl same ↦ (m.held, same)
              | inr relayed ↦ (after_relay m.held, relayed)
            ],
      (
        after_timer (record m.held { timer = false }),
        (expiry_restarts m.vars run.txbuf (record m.held { timer = false }) run.loaded).5,
      ),
      (run.pulses, rw (run.holds) (exit-replay m.vars run.pulses)),
    )
