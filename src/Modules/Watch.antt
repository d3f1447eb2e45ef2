-- ===== src/Modules/Watch.antt =====
-- kernel-module/interrupt_test_node2.c and kernel-module/record_gpio_event.c: the loading and the
-- unloading, which are the same in both files but for the line numbers.
use ucsma_rate_control.Base.{
  ◌≡◌, ◌⊎◌, refl, inl, inr, Bool, true, false, not, Option, none, some, List, [], ◌∷◌, ◌++◌, arith,
  if◌then◌else◌, Bool-cases,
}
use ucsma_rate_control.Base.Int.{ℤ, pos, is_zero, is_negative, to_short}
use ucsma_rate_control.Kernel.{
  Call, gpio_request_array, gpio_free_array, gpio_to_irq, request_any_context_irq, free_irq,
}
use ucsma_rate_control.Kernel.Ledger.{Ledger, nothing_held, enter, replay, replays}

-- What the kernel answers while a module is loaded.
pub record Answers : Type 0 where
  pub gpios : ℤ
  pub irq : ℤ
  pub request : ℤ

-- `unlock_irq` is left as it is where the pins are refused.
pub record Loaded : Type 0 where
  pub unlock_irq : ℤ
  pub calls : List Call
  pub result : ℤ

pub watch_init : Answers → (unlock_irq : ℤ) → Loaded
watch_init a unlock_irq =
    let irq = to_short a.irq in
    let asked = gpio_request_array a.gpios ∷ [] in
    let asked' = asked ++ gpio_to_irq 22 a.irq ∷ [] in
    let asked'' = asked' ++ request_any_context_irq irq a.request ∷ [] in
    if not (is_zero a.gpios)
    then record { unlock_irq = unlock_irq; calls = asked ++ gpio_free_array ∷ []; result = a.gpios }
    else if is_negative irq
    then record { unlock_irq = irq; calls = asked' ++ gpio_free_array ∷ []; result = irq }
    else if not (is_zero a.request)
    then record { unlock_irq = irq; calls = asked'' ++ gpio_free_array ∷ []; result = a.request }
    else record { unlock_irq = irq; calls = asked''; result = pos 0 }

pub watch_exit : (unlock_irq : ℤ) → List Call
watch_exit unlock_irq = free_irq unlock_irq ∷ gpio_free_array ∷ []

-- The pins and some interrupts.
abbrev pub watching : Bool → List ℤ → Ledger
watching pins irqs = record nothing_held { gpios = pins; irqs = irqs }

-- What loading leaves: a misuse where the pins are refused, since it frees them all the same; nothing
-- where the pin has no interrupt; and the interrupt with no pins where the request succeeds with the
-- positive answer of a nested interrupt, which the code takes for a failure.
abbrev pub left_by : Answers → Option Ledger
left_by a =
    if not (is_zero a.gpios)
    then none
    else if is_negative (to_short a.irq)
    then some nothing_held
    else if is_negative a.request
    then some nothing_held
    else some (watching (is_zero a.request) (to_short a.irq ∷ []))

negative-nonzero : (z : ℤ) → is_negative z ≡ true → is_zero z ≡ false
negative-nonzero z h = ground arith

request-cases :
    (z : ℤ)
    → ((is_zero z ≡ true) × (is_negative z ≡ false))
      ⊎ (((is_zero z ≡ false) × (is_negative z ≡ true))
          ⊎ ((is_zero z ≡ false) × (is_negative z ≡ false)))
request-cases z = ground arith

-- Loading is a misuse where the pins are refused, leaves nothing where the pin has no interrupt
-- or the request fails, and leaves the interrupt with no pins where the request gives the
-- positive answer of a nested interrupt.
pub watch_init-replay :
    (a : Answers) (unlock_irq : ℤ) → replay (watch_init a unlock_irq).calls nothing_held ≡ left_by a
unfolding watch_init enter
watch_init-replay a unlock_irq = elim (Bool-cases (is_zero a.gpios)) [
  | inr refused ↦ rw refused (simp (replays, refused))
  | inl granted ↦ rw granted (elim (Bool-cases (is_negative (to_short a.irq))) [
    | inl negative ↦ rw negative (simp (replays, granted))
    | inr mapped ↦ rw mapped (elim (request-cases a.request) [
      | inl (e, n) ↦ rw (e, n) (simp (replays, granted, n))
      | inr (inl (e, n)) ↦ rw (e, n) (simp (replays, granted, n))
      | inr (inr (e, n)) ↦ rw (e, n) (simp (replays, granted, n))
    ])
  ])
]

zero-nonnegative : (z : ℤ) → is_zero z ≡ true → is_negative z ≡ false
zero-nonnegative z h = ground arith

-- With the pins granted, an interrupt for the pin and a request that answers 0, loading returns 0,
-- and loading and then unloading leaves nothing held.
pub watch-replay :
    (a : Answers) (unlock_irq : ℤ)
    → is_zero a.gpios ≡ true
    → is_negative (to_short a.irq) ≡ false
    → is_zero a.request ≡ true
    → let l = watch_init a unlock_irq in
      (l.result ≡ pos 0)
      × (replay (l.calls ++ watch_exit l.unlock_irq) nothing_held ≡ some nothing_held)
unfolding watch_init watch_exit enter
watch-replay a unlock_irq granted mapped registered =
    let n = zero-nonnegative a.request registered in
    rw (granted, mapped, registered) (refl, simp (replays, granted, n))
