-- ===== src/Unlock/Lifecycle.antt =====
-- kernel-module/unlock.c: loading the module, running it, and unloading it.
use ucsma_rate_control.Base.{
  ℕ, ◌≡◌, inl, inr, true, false, some, [], ◌∷◌, arith, if◌then◌else◌, Bool-cases,
}
use ucsma_rate_control.Base.Int.{ℤ, is_zero, is_negative, to_short}
use ucsma_rate_control.Kernel.Ledger.{Ledger, nothing_held, enter, replay, replays}
use ucsma_rate_control.Unlock.{Unlock, InitInputs, unlock_init, unlock_exit}
use ucsma_rate_control.Unlock.Window.{edit-replay}

-- What the module holds while it runs: the pins, its interrupt and the armed timer.
abbrev pub running : ℤ → ℕ → Ledger
running irq pulses = record {
  locked = false;
  gpios = true;
  irqs = irq ∷ [];
  timer = true;
  raised = false;
  quiet = false;
  pulses = pulses;
}

negative-nonzero : (z : ℤ) → is_negative z ≡ true → is_zero z ≡ false
negative-nonzero z h = ground arith

-- Loading holds the pins, the interrupt and the timer if it returns 0, and nothing on every
-- failure.
pub init-replay :
    (inp : InitInputs) (s : Unlock)
    → let o = unlock_init inp s in
      replay o.calls nothing_held
      ≡ some (if is_zero o.result then running o.state.unlock_irq 0 else nothing_held)
unfolding unlock_init enter
init-replay inp s = elim (Bool-cases (is_zero inp.gpios)) [
  | inr refused ↦ rw refused (simp (replays, refused))
  | inl granted ↦ rw granted (elim (Bool-cases (is_negative (to_short inp.irq))) [
    | inl negative ↦ rw negative (
        let nonzero = negative-nonzero (to_short inp.irq) negative in
        simp (replays, granted, nonzero))
    | inr mapped ↦ rw mapped (elim (Bool-cases (is_zero inp.request)) [
      | inl registered ↦ rw registered (simp (replays, granted, registered, edit-replay))
      | inr failed ↦ rw failed (simp (replays, granted, failed))
    ])
  ])
]

pub exit-replay :
    (s : Unlock) (pulses : ℕ)
    → replay (unlock_exit s).calls (running s.unlock_irq pulses)
      ≡ some (record nothing_held { pulses = pulses })
unfolding unlock_exit enter
exit-replay s pulses = simp replays
