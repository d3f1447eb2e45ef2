-- ===== src/Driver/Device/Events.antt =====
-- ath9k/main.c: interrupts, tasklets and resets in any order.
use ucsma_rate_control.Base.{
  ◌≡◌, refl, some_inj, arith, ◌∙◌, sym, ◌⊎◌, Bool, true, false, Option, none, some, subst,
  if◌then◌else◌,
}
use ucsma_rate_control.Driver.State.{PowerMode}
use ucsma_rate_control.Driver.Device.{Device, Ran, Answers, ath_reset_work}
use ucsma_rate_control.Driver.Device.Isr.{IsrInputs, ath_isr}
use ucsma_rate_control.Driver.Device.Tasklet.{TaskletInputs, ath9k_tasklet}
use ucsma_rate_control.Driver.Device.Gate.{Gate, replay}
use ucsma_rate_control.Driver.Device.Sound.{IsSound}
use ucsma_rate_control.Driver.Device.Outcomes.{Leaves, isr_outcome}
use ucsma_rate_control.Driver.Device.Served.{tasklet_outcome}
use ucsma_rate_control.Driver.Device.Restored.{work_outcome}

-- The kernel calls the interrupt handler, or runs the tasklet or the reset work that waits.
pub data Event : Type 0 where
  interrupt : IsrInputs → Event
  tasklet : TaskletInputs → Event
  reset_work : Answers → Event

-- A chip that may not interrupt has no interrupt pending (the line may be shared), what runs was
-- waiting, and receiving starts again after a reset.
abbrev pub CanHappen : Event → Gate → Type 0
CanHappen (interrupt inp) g = (inp.pending ≡ false) ⊎ (g.on ≡ true)
CanHappen (tasklet inp) g = g.tasklet ≡ true
CanHappen (reset_work a) g = (g.work ≡ true) × (a.recv_started ≡ true)

-- What runs waits no more.
abbrev pub taken : Event → Gate → Gate
taken (interrupt inp) g = g
taken (tasklet inp) g = record g { tasklet = false }
taken (reset_work a) g = record g { work = false }

-- The driver, and what its calls have left of the interrupts.
pub record Point : Type 0 where
  pub device : Device
  pub gate : Option Gate

-- The calls were allowed, the driver is sound after them, and the interrupts are on.
pub record Recovers (p : Point) : Type 0 where
  pub on_gate : Gate
  pub left : p.gate ≡ some on_gate
  pub on : on_gate.on ≡ true
  pub sound : IsSound p.device on_gate

-- Either branch of a test.
on_if :
    (P : Point → Type 0) (b : Bool) (x y : Point)
    → (b ≡ true → P x)
    → (b ≡ false → P y)
    → P (if b then x else y)
on_if P true x y f h = f refl
on_if P false x y f h = h refl

module _ (setpower : PowerMode → PowerMode → PowerMode) (btcoex : Bool) where
  unfoldable pub run_event : Event → Device → Ran
  run_event (interrupt inp) d =
      let r = ath_isr setpower inp d in record { state = r.state; calls = r.calls }
  run_event (tasklet inp) d = ath9k_tasklet setpower btcoex inp d
  run_event (reset_work a) d = ath_reset_work setpower btcoex a d

  -- The states that events lead to, as far as the calls are allowed.
  pub data Reach (d : Device) (g : Gate) : Device → Gate → Type 0 where
    here : Reach d g d g
    next :
        {t : Device} {h : Gate}
        → Reach d g t h
        → (e : Event) → CanHappen e h
        → (k : Gate) → replay (run_event e t).calls (taken e h) ≡ some k
        → Reach d g (run_event e t).state k

  -- In a sound state every event that can happen gives back no more than was taken, and leaves a
  -- sound state.
  pub event-Leaves :
      (e : Event) (d : Device) (g : Gate)
      → IsSound d g
      → CanHappen e g
      → Leaves (run_event e d).state (replay (run_event e d).calls (taken e g))
  unfolding run_event
  event-Leaves (interrupt inp) d g v may = isr_outcome setpower inp d g v may
  event-Leaves (tasklet inp) d g v waiting =
      (tasklet_outcome setpower btcoex inp d g v waiting).leaves
  event-Leaves (reset_work a) d g v (waiting, started) =
      (work_outcome setpower btcoex a d g v started).leaves

  -- From a sound state of the running driver, over any sequence of interrupts, tasklets and
  -- resets of the chip in which a chip whose interrupts are off has none pending, what runs was
  -- waiting, and receiving starts again after every reset that runs: the references to the
  -- interrupts that are taken are those of the waiting tasklet, and a chip whose interrupts are
  -- off has the tasklet or a reset waiting.
  pub Reach-IsSound :
      {d : Device} {g : Gate} {t : Device} {h : Gate} → IsSound d g → Reach d g t h → IsSound t h
  Reach-IsSound v here = v
  Reach-IsSound v (next {t} {h} past e may k left) =
      let out = event-Leaves e t h (Reach-IsSound v past) may in
      let (inj, back) = some_inj {a = k} {b = out.gate} in rw (inj (sym left ∙ out.left)) out.sound

  -- The tasklet, where it waits; `inp` is what the chip answers to it.
  pub run_tasklet : TaskletInputs → Device → Gate → Point
  unfolding run_event
  run_tasklet inp d g =
      let r = run_event (tasklet inp) d in
      if g.tasklet
      then record { device = r.state; gate = replay r.calls (taken (tasklet inp) g) }
      else record { device = d; gate = some g }

  -- The reset work, where it waits; `a` is what the chip answers to it.
  pub run_work : Answers → Device → Option Gate → Point
  unfolding run_event
  run_work a d none = record { device = d; gate = none }
  run_work a d (some g) =
      let r = run_event (reset_work a) d in
      if g.work
      then record { device = r.state; gate = replay r.calls (taken (reset_work a) g) }
      else record { device = d; gate = some g }

  -- The one and then the other.
  pub recover : TaskletInputs → Answers → Device → Gate → Point
  unfolding run_tasklet run_work
  recover inp a d g = let settled = run_tasklet inp d g in run_work a settled.device settled.gate

  work-Recovers :
      (a : Answers) (t : Device) (h : Gate)
      → a.recv_started ≡ true
      → IsSound t h
      → h.tasklet ≡ false
      → Recovers (run_work a t (some h))
  unfolding run_event run_work
  work-Recovers a t h started v settled =
      on_if Recovers h.work _ _
        (λ work.
          let out = work_outcome setpower btcoex a t h v started in
          record {
            on_gate = out.leaves.gate;
            left = out.leaves.left;
            on = ground (arith, out.opened, settled);
            sound = out.leaves.sound;
          })
        (λ idle. record {
          on_gate = h;
          left = refl;
          on = ground (arith, v.alive, settled, idle);
          sound = v;
        })

  -- From every sound state, the tasklet, if it waits, and then the reset work, if it waits by
  -- then, make no misuse and leave a sound state with the interrupts on, whatever the chip
  -- answers to each of them but that receiving starts again after the reset.
  pub sound-Recovers :
      (inp : TaskletInputs) (a : Answers) (d : Device) (g : Gate)
      → a.recv_started ≡ true
      → IsSound d g
      → Recovers (recover inp a d g)
  unfolding run_event run_tasklet recover
  sound-Recovers inp a d g started v =
      on_if (λ p. Recovers (run_work a p.device p.gate)) g.tasklet _ _
        (λ waiting.
          let out = tasklet_outcome setpower btcoex inp d g v waiting in
          let t = (run_event (tasklet inp) d).state in
          subst (λ o. Recovers (run_work a t o)) (sym out.leaves.left)
            (work-Recovers a t out.leaves.gate started out.leaves.sound out.settled))
        (λ settled. work-Recovers a d g started v settled)
