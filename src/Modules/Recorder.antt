-- ===== src/Modules/Recorder.antt =====
-- kernel-module/record_gpio_event.c: a record of the times of the first 1000 interrupts.
use ucsma_rate_control.Base.{
  ℕ, suc, ◌+◌, ◌≤◌, ◌<◌, ◌≡◌, ◌∙◌, refl, sym, ap, true, false, List, [], ◌∷◌, ◌++◌, arith, ltb,
  ◌==◌, if◌then◌else◌, length, set, take, length-set, take-set,
}
use ucsma_rate_control.Base.Int.{ℤ}
use ucsma_rate_control.Kernel.{
  u32, Call, spin_lock_irqsave, spin_unlock_irqrestore, getnstimeofday, print_record, Outcome,
}
use ucsma_rate_control.Kernel.Time.{Timespec}
use ucsma_rate_control.Modules.Watch.{Answers, watch_init, watch_exit}

abbrev pub record_count : ℕ
record_count = 1000

pub record Recorder : Type 0 where
  pub records : List Timespec
  pub cur_count : ℕ
  pub unlock_irq : ℤ

print_records : List Timespec → List Call
print_records [] = []
print_records (t ∷ records) = print_record false t ∷ print_records records

pub record Recorded : Type 0 where
  pub state : Recorder
  pub calls : List Call

-- The handler always returns IRQ_HANDLED.
pub unlock_r_irq_handler : (now : Timespec) → Recorder → Recorded
unfolding print_records
unlock_r_irq_handler now s =
    let records = set s.records s.cur_count now in
    let count = u32 (s.cur_count + 1) in
    if ltb s.cur_count record_count
    then record {
      state = record s { records = records; cur_count = count };
      calls =
          spin_lock_irqsave
            ∷ getnstimeofday now
            ∷ (if count == record_count then print_records records else [])
          ++ spin_unlock_irqrestore ∷ [];
    }
    else record { state = s; calls = spin_lock_irqsave ∷ spin_unlock_irqrestore ∷ [] }

pub recorder_init : Answers → Recorder → Outcome Recorder ℤ
recorder_init a s =
    let l = watch_init a s.unlock_irq in
    record { state = record s { unlock_irq = l.unlock_irq }; calls = l.calls; result = l.result }

pub recorder_exit : Recorder → List Call
recorder_exit s = watch_exit s.unlock_irq

-- The state after interrupts at the given times.
pub record_all : List Timespec → Recorder → Recorder
unfolding unlock_r_irq_handler
record_all [] s = s
record_all (now ∷ times) s = record_all times (unlock_r_irq_handler now s).state

append_assoc_one :
    (xs : List Timespec) (x : Timespec) (ys : List Timespec) → (xs ++ x ∷ []) ++ ys ≡ xs ++ x ∷ ys
append_assoc_one [] x ys = refl
append_assoc_one (z ∷ xs) x ys = ap (◌∷◌ z) (append_assoc_one xs x ys)

append_none : (xs : List Timespec) → xs ++ [] ≡ xs
append_none [] = refl
append_none (z ∷ xs) = ap (◌∷◌ z) (append_none xs)

record_step :
    (now : Timespec) (s : Recorder)
    → s.cur_count < record_count
    → (unlock_r_irq_handler now s).state
      ≡ record s { records = set s.records s.cur_count now; cur_count = suc s.cur_count }
unfolding unlock_r_irq_handler
record_step now s h =
    let room : ltb s.cur_count record_count ≡ true = ground arith in
    let small : u32 (s.cur_count + 1) ≡ suc s.cur_count = omega arith in rw (room, small) refl

-- The first interrupts are recorded in order behind what is there, as long as the array of 1000
-- entries has room for them.
pub record_all-take :
    (times : List Timespec) (s : Recorder)
    → length s.records ≡ record_count
    → s.cur_count + length times ≤ record_count
    → let t = record_all times s in
      (take t.cur_count t.records ≡ take s.cur_count s.records ++ times)
      × (t.cur_count ≡ s.cur_count + length times)
unfolding record_all
record_all-take [] s whole room = (sym (append_none (take s.cur_count s.records)), omega arith)
record_all-take (now ∷ times) s whole room =
    let rest =
      record_all-take times
        (record s { records = set s.records s.cur_count now; cur_count = suc s.cur_count })
        (length-set s.records s.cur_count now ∙ whole) (omega arith) in
    rw (record_all, record_step now s (omega arith))
      (
        rest.0
            ∙ ap (λ l. l ++ times) (take-set s.records s.cur_count now (omega arith))
            ∙ append_assoc_one (take s.cur_count s.records) now times,
        omega (arith, rest.1),
      )

-- A full array stays as it is.
pub record_all-full :
    (times : List Timespec) (s : Recorder) → record_count ≤ s.cur_count → record_all times s ≡ s
unfolding record_all unlock_r_irq_handler
record_all-full [] s full = refl
record_all-full (now ∷ times) s full =
    let no_room : ltb s.cur_count record_count ≡ false = ground arith in
    rw no_room (record_all-full times s full)
