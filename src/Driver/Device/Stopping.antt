-- ===== src/Driver/Device/Stopping.antt =====
-- ath9k/main.c: what `ath9k_stop` leaves of the interrupts, the tasklet and the reset work.
use ucsma_rate_control.Base.{
  ◌+◌, ◌≡◌, refl, ap, ◌∙◌, Bool, true, false, Option, none, some, sym, [], ◌∷◌, ◌++◌, arith,
  if◌then◌else◌,
}
use ucsma_rate_control.Driver.State.{
  PowerMode, lock_mutex, unlock_mutex, kill_beacon_tasklet, cancel_reset_work,
}
use ucsma_rate_control.Driver.Power.{ps_wakeup, ps_restore}
use ucsma_rate_control.Driver.Device.{
  Device, Ran, Answers, on_softc, ath_cancel_work, cancel_work_except_reset, ath_prepare_reset,
}
use ucsma_rate_control.Driver.Device.StartStop.{
  silence, kill_tasklets, halt, stop_present, ath9k_stop,
}
use ucsma_rate_control.Driver.Device.Tasklet.{TaskletInputs, ath9k_tasklet}
use ucsma_rate_control.Driver.Device.Served.{wants_reset, served, skipped, tasklet-Ends}
use ucsma_rate_control.Driver.Device.Isr.{IsrInputs, irq_none, ath_isr}
use ucsma_rate_control.Driver.Device.Gate.{
  Gate, enter, replay, replay-append, replay_idle, and_then, wakeup-replay, restore-replay,
}
use ucsma_rate_control.Driver.Device.Restored.{cancel-replay, idle_first}

cancel_all-replay :
    (d : Device) (g : Gate) → replay (ath_cancel_work d) g ≡ some (record g { work = false })
unfolding ath_cancel_work replay enter
cancel_all-replay d g =
    idle_first (cancel_work_except_reset d) (cancel_reset_work ∷ []) g (cancel-replay d g)

silence-replay :
    (d : Device) (g : Gate)
    → replay (silence d).calls g ≡ some (record g { off = g.off + 1; on = false })
unfolding silence replay enter
silence-replay d g = refl

-- Whether stopping leaves a reset waiting, that of a tasklet that was waiting.
abbrev pub leaves_reset : (waiting : Option TaskletInputs) → Device → Bool
leaves_reset none d = false
leaves_reset (some inp) d = wants_reset inp d.intrstatus d

abbrev pub is_waiting : Option TaskletInputs → Bool
is_waiting none = false
is_waiting (some inp) = true

-- The chip may not interrupt, no tasklet waits, and a reset waits only where it is `wanted`.
pub record Stopped (wanted : Bool) (o : Option Gate) : Type 0 where
  pub gate : Gate
  pub left : o ≡ some gate
  pub dark : gate.on ≡ false
  pub no_tasklet : gate.tasklet ≡ false
  pub reset_left : gate.work ≡ wanted

-- A tasklet that runs while the interrupts are masked.
masked-Stopped :
    (setpower : PowerMode → PowerMode → PowerMode) (btcoex : Bool) (inp : TaskletInputs)
    (d : Device) (g : Gate)
    → d.imask.global ≡ false
    → g.work ≡ false
    → Stopped (wants_reset inp d.intrstatus d) (
        replay
          (ath9k_tasklet setpower btcoex inp d).calls
          (record g { off = g.off + 1; on = false; tasklet = false }))
unfolding enter
masked-Stopped setpower btcoex inp d g masked idle =
    let dark : Gate = record g { off = g.off + 1; on = false; tasklet = false } in
    elim (tasklet-Ends setpower btcoex inp d dark) [
      | served ran global invalid hw no' ↦ record {
        gate = dark;
        left = ran ∙ rw masked refl;
        dark = refl;
        no_tasklet = refl;
        reset_left = idle ∙ sym no';
      }
      | skipped ran global invalid yes' ↦ record {
        gate = record dark { off = g.off; work = true };
        left = ran ∙ ground arith;
        dark = refl;
        no_tasklet = refl;
        reset_left = sym yes';
      }
    ]

kill-Stopped :
    (setpower : PowerMode → PowerMode → PowerMode) (btcoex : Bool) (waiting : Option TaskletInputs)
    (d : Device) (g : Gate)
    → d.imask.global ≡ false
    → g.work ≡ false
    → Stopped (leaves_reset waiting d) (
        replay
          (kill_tasklets setpower btcoex waiting d).calls
          (record g { off = g.off + 1; on = false }))
unfolding kill_tasklets replay enter
kill-Stopped setpower btcoex none d g masked idle = record {
  gate = record g { off = g.off + 1; on = false; tasklet = false };
  left = refl;
  dark = refl;
  no_tasklet = refl;
  reset_left = idle;
}
kill-Stopped setpower btcoex (some inp) d g masked idle =
    let ran = masked-Stopped setpower btcoex inp d g masked idle in
    record {
      gate = ran.gate;
      left =
          replay_idle (ath9k_tasklet setpower btcoex inp d).calls (kill_beacon_tasklet ∷ [])
            (record g { off = g.off + 1; on = false; tasklet = false }) (λ h. refl)
          ∙ ran.left;
      dark = ran.dark;
      no_tasklet = ran.no_tasklet;
      reset_left = ran.reset_left;
    }

halt-replay :
    (a : Answers) (d : Device) (g : Gate)
    → replay (halt a d).calls g ≡ some (record g { off = g.off + 1; on = false })
unfolding halt ath_prepare_reset replay enter
halt-replay a d g = ground arith

-- Neither waking nor masking changes what the tasklet reads.
leaves_kept :
    (setpower : PowerMode → PowerMode → PowerMode) (waiting : Option TaskletInputs) (d : Device)
    → leaves_reset waiting (silence (on_softc (ps_wakeup setpower) d).state).state
      ≡ leaves_reset waiting d
unfolding silence
leaves_kept setpower none d = refl
leaves_kept setpower (some inp) d = refl

present-Stopped :
    (setpower : PowerMode → PowerMode → PowerMode) (btcoex : Bool) (waiting : Option TaskletInputs)
    (a : Answers) (d : Device) (g : Gate)
    → g.work ≡ false
    → Stopped (leaves_reset waiting d) (replay (stop_present setpower btcoex waiting a d).calls g)
unfolding stop_present silence
present-Stopped setpower btcoex waiting a d g idle =
    let up = on_softc (ps_wakeup setpower) d in
    let silent = silence up.state in
    let killed = kill_tasklets setpower btcoex waiting silent.state in
    let halted = halt a killed.state in
    let down = ps_restore setpower btcoex halted.state.softc in
    let settled = kill-Stopped setpower btcoex waiting silent.state g refl idle in
    record {
      gate = record settled.gate { off = settled.gate.off + 1; on = false };
      left =
          replay_idle (((up.calls ++ silent.calls) ++ killed.calls) ++ halted.calls) down.calls g
            (λ h. restore-replay setpower halted.state.softc h btcoex)
          ∙ replay-append ((up.calls ++ silent.calls) ++ killed.calls) halted.calls g
          ∙ ap (λ o. and_then o (replay halted.calls))
              (replay-append (up.calls ++ silent.calls) killed.calls g
                ∙ ap (λ o. and_then o (replay killed.calls))
                    (idle_first up.calls silent.calls g (wakeup-replay setpower d.softc g)
                      ∙ silence-replay up.state g)
                ∙ settled.left)
          ∙ halt-replay a killed.state settled.gate;
      dark = refl;
      no_tasklet = settled.no_tasklet;
      reset_left = settled.reset_left ∙ leaves_kept setpower waiting d;
    }

-- The branch taken where a test fails.
on_else :
    {A : Type 0} (P : A → Type 0) (b : Bool) (x y : A) → b ≡ false → P y → P (if b then x else y)
on_else P true x y h p = ground (arith, h)
on_else P false x y h p = p

-- Stopping a driver that runs leaves the chip with its interrupts off and no tasklet waiting, and
-- the interrupt handler then answers that the interrupt is not its own and calls nothing. A reset
-- that waited before waits no more, but one waits afterwards exactly where the tasklet waited,
-- ran as it was killed, and wanted a reset.
pub stop_silences :
    (setpower : PowerMode → PowerMode → PowerMode) (btcoex : Bool) (waiting : Option TaskletInputs)
    (a : Answers) (inp : IsrInputs) (d : Device) (g : Gate)
    → d.op_invalid ≡ false
    → g.tasklet ≡ is_waiting waiting
    → let r = ath9k_stop setpower btcoex waiting a d in
      Stopped (leaves_reset waiting d) (replay r.calls g)
      × (ath_isr setpower inp r.state ≡ record { state = r.state; calls = []; result = irq_none })
unfolding ath9k_stop stop_present ath_isr replay enter
stop_silences setpower btcoex waiting a inp d g present same =
    let stopped = stop_present setpower btcoex waiting a d in
    let start = lock_mutex ∷ ath_cancel_work d in
    let rest = stopped.calls ++ (unlock_mutex ∷ []) in
    let idle : Gate = record g { work = false } in
    let end = present-Stopped setpower btcoex waiting a d idle refl in
    on_else
      (λ (r : Ran).
        Stopped (leaves_reset waiting d) (replay r.calls g)
        × (ath_isr setpower inp r.state
            ≡ record { state = r.state; calls = []; result = irq_none }))
      d.op_invalid _ _ present
      (
        record {
          gate = end.gate;
          left =
              replay-append start rest g
              ∙ ap (λ o. and_then o (replay rest)) (cancel_all-replay d g)
              ∙ replay_idle stopped.calls (unlock_mutex ∷ []) idle (λ h. refl)
              ∙ end.left;
          dark = end.dark;
          no_tasklet = end.no_tasklet;
          reset_left = end.reset_left;
        },
        refl,
      )
