-- ===== src/Modules/Timeline.antt =====
-- kernel-module/gpio_timeline.c: the module that prints the edges of three pins.
use ucsma_rate_control.Base.{
  ℕ, ◌≡◌, ◌⊎◌, inl, inr, Bool, true, false, not, some, List, [], ◌∷◌, ◌++◌, arith, if◌then◌else◌,
  Bool-cases,
}
use ucsma_rate_control.Base.Int.{ℤ, pos, is_zero, is_negative, to_short}
use ucsma_rate_control.Kernel.{
  Call, spin_lock_irqsave, spin_unlock_irqrestore, gpio_get_value, print_edge, gpio_request_array,
  gpio_free_array, gpio_to_irq, request_any_context_irq, free_irq,
}
use ucsma_rate_control.Kernel.Ledger.{Ledger, nothing_held, enter, replay, replays}

-- `rising` is the level that is read, and what is printed.
pub txinfo_r_irq_handler : (pin : ℕ) (rising : Bool) → List Call
txinfo_r_irq_handler pin rising =
    spin_lock_irqsave
    ∷ gpio_get_value pin rising
    ∷ print_edge rising pin
    ∷ spin_unlock_irqrestore
    ∷ []

-- The interrupts of the three pins; they are 0 before the module is loaded.
pub record Irqs : Type 0 where
  pub first : ℤ
  pub second : ℤ
  pub third : ℤ

-- What the kernel answers while the module is loaded.
pub record Answers : Type 0 where
  pub gpios : ℤ
  pub irq1 : ℤ
  pub irq2 : ℤ
  pub irq3 : ℤ
  pub request1 : ℤ
  pub request2 : ℤ
  pub request3 : ℤ

pub record Loaded : Type 0 where
  pub irqs : Irqs
  pub calls : List Call
  pub result : ℤ

-- From the first request of an interrupt on; the numbers are already known.
pub request_all : Answers → Irqs → (asked : List Call) → Loaded
request_all a irqs asked =
    let one = asked ++ request_any_context_irq irqs.first a.request1 ∷ [] in
    let two = one ++ request_any_context_irq irqs.second a.request2 ∷ [] in
    let three = two ++ request_any_context_irq irqs.third a.request3 ∷ [] in
    if not (is_zero a.request1)
    then record { irqs = irqs; calls = one ++ gpio_free_array ∷ []; result = a.request1 }
    else if not (is_zero a.request2)
    then record {
      irqs = irqs;
      calls = two ++ free_irq irqs.first ∷ gpio_free_array ∷ [];
      result = a.request2;
    }
    else if not (is_zero a.request3)
    then record {
      irqs = irqs;
      calls = three ++ free_irq irqs.second ∷ free_irq irqs.first ∷ gpio_free_array ∷ [];
      result = a.request3;
    }
    else record { irqs = irqs; calls = three; result = pos 0 }

pub txinfo_init : Answers → Irqs → Loaded
unfolding request_all
txinfo_init a irqs =
    let first = record irqs { first = to_short a.irq1 } in
    let second = record first { second = to_short a.irq2 } in
    let third = record second { third = to_short a.irq3 } in
    let asked = gpio_request_array a.gpios ∷ [] in
    let one = asked ++ gpio_to_irq 20 a.irq1 ∷ [] in
    let two = one ++ gpio_to_irq 21 a.irq2 ∷ [] in
    let three = two ++ gpio_to_irq 22 a.irq3 ∷ [] in
    if not (is_zero a.gpios)
    then record { irqs = irqs; calls = asked; result = a.gpios }
    else if is_negative first.first
    then record { irqs = first; calls = one ++ gpio_free_array ∷ []; result = first.first }
    else if is_negative second.second
    then record { irqs = second; calls = two ++ gpio_free_array ∷ []; result = second.second }
    else if is_negative third.third
    then record { irqs = third; calls = three ++ gpio_free_array ∷ []; result = third.third }
    else request_all a third three

pub txinfo_exit : Irqs → List Call
txinfo_exit irqs =
    free_irq irqs.first ∷ free_irq irqs.second ∷ free_irq irqs.third ∷ gpio_free_array ∷ []

-- The pins and the three interrupts, the last one requested first.
abbrev pub listening : Irqs → Ledger
listening irqs = record nothing_held {
  gpios = true;
  irqs = irqs.third ∷ irqs.second ∷ irqs.first ∷ [];
}

-- A request answers 0 or an error, which is negative.
abbrev pub IsPlain : ℤ → Type 0
IsPlain z = (is_zero z ≡ true) ⊎ (is_negative z ≡ true)

plain_cases :
    (z : ℤ)
    → IsPlain z
    → ((is_zero z ≡ true) × (is_negative z ≡ false))
      ⊎ ((is_zero z ≡ false) × (is_negative z ≡ true))
plain_cases z h = ground arith

negative-nonzero : (z : ℤ) → is_negative z ≡ true → is_zero z ≡ false
negative-nonzero z h = ground arith

request_all-replay :
    (a : Answers) (irqs : Irqs) (asked : List Call)
    → IsPlain a.request1
    → IsPlain a.request2
    → IsPlain a.request3
    → replay asked nothing_held ≡ some (record nothing_held { gpios = true })
    → let l = request_all a irqs asked in
      replay l.calls nothing_held
      ≡ some (if is_zero l.result then listening l.irqs else nothing_held)
unfolding request_all enter
request_all-replay a irqs asked p1 p2 p3 before = elim (plain_cases a.request1 p1) [
  | inr (e1, n1) ↦ rw e1 (simp (replays, before, e1, n1))
  | inl (e1, n1) ↦ rw e1 (elim (plain_cases a.request2 p2) [
    | inr (e2, n2) ↦ rw e2 (simp (replays, before, e2, n1, n2))
    | inl (e2, n2) ↦ rw e2 (elim (plain_cases a.request3 p3) [
      | inr (e3, n3) ↦ rw e3 (simp (replays, before, e3, n1, n2, n3))
      | inl (e3, n3) ↦ rw e3 (simp (replays, before, n1, n2, n3))
    ])
  ])
]

-- Where a request of an interrupt answers 0 or an error, loading holds the pins and all three
-- interrupts if it returns 0, and nothing on every failure.
pub txinfo_init-replay :
    (a : Answers) (irqs : Irqs)
    → IsPlain a.request1
    → IsPlain a.request2
    → IsPlain a.request3
    → let l = txinfo_init a irqs in
      replay l.calls nothing_held
      ≡ some (if is_zero l.result then listening l.irqs else nothing_held)
unfolding txinfo_init enter
txinfo_init-replay a irqs p1 p2 p3 = elim (Bool-cases (is_zero a.gpios)) [
  | inr refused ↦ rw refused (simp (replays, refused))
  | inl granted ↦ rw granted (elim (Bool-cases (is_negative (to_short a.irq1))) [
    | inl n1 ↦ rw n1 (simp (replays, granted, negative-nonzero (to_short a.irq1) n1))
    | inr m1 ↦ rw m1 (elim (Bool-cases (is_negative (to_short a.irq2))) [
      | inl n2 ↦ rw n2 (simp (replays, granted, negative-nonzero (to_short a.irq2) n2))
      | inr m2 ↦ rw m2 (elim (Bool-cases (is_negative (to_short a.irq3))) [
        | inl n3 ↦ rw n3 (simp (replays, granted, negative-nonzero (to_short a.irq3) n3))
        | inr m3 ↦ rw m3 (
            request_all-replay a
              (record {
                first = to_short a.irq1;
                second = to_short a.irq2;
                third = to_short a.irq3;
              })
              (gpio_request_array a.gpios
                ∷ gpio_to_irq 20 a.irq1
                ∷ gpio_to_irq 21 a.irq2
                ∷ gpio_to_irq 22 a.irq3
                ∷ [])
              p1 p2 p3 (simp (replays, granted)))
      ])
    ])
  ])
]
