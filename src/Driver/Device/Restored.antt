-- ===== src/Driver/Device/Restored.antt =====
-- ath9k/main.c: what a reset and its work leave of the interrupts.
use ucsma_rate_control.Base.{
  ℕ, ◌+◌, ◌≡◌, refl, ap, ◌∙◌, ◌⊎◌, Bool, true, false, not, ◌&&◌, ◌||◌, Option, some, List, [], ◌∷◌,
  ◌++◌, arith, ◌==◌, if◌then◌else◌,
}
use ucsma_rate_control.Base.Int.{is_zero}
use ucsma_rate_control.Driver.State.{
  PowerMode, Call, lock_pcu, unlock_pcu, tasklet_disable, tasklet_enable, mci_set_txpower,
  wake_queues, p2p_ps_timer, enable_interrupts, hw_reset,
}
use ucsma_rate_control.Driver.Power.{ps_wakeup, ps_restore}
use ucsma_rate_control.Driver.Queues.{Txq}
use ucsma_rate_control.Driver.Device.{
  Device, Ran, Answers, Reset, on_softc, cancel_work_except_reset, ath_restart_work, schedule_all,
  resume, ath_prepare_reset, ath_complete_reset, reset_locked, ath_reset_internal, ath_reset,
  ath_reset_work, ath9k_queue_reset,
}
use ucsma_rate_control.Driver.Device.Gate.{
  Gate, enter, replay, replay-append, replay_idle, and_then_idle, and_then, wakeup-replay,
  restore-replay,
}
use ucsma_rate_control.Driver.Device.Sound.{IsSound, SameRun}
use ucsma_rate_control.Driver.Device.Outcomes.{Leaves}

schedule-replay : (queues : List Txq) (i : ℕ) (g : Gate) → replay (schedule_all queues i) g ≡ some g
unfolding schedule_all replay enter
schedule-replay [] i g = refl
schedule-replay (q ∷ queues) i g = ground (arith, schedule-replay queues (i + 1) g)

again-replay :
    (d : Device) (g : Gate) → replay (ath_restart_work d ++ schedule_all d.txqs 0) g ≡ some g
unfolding ath_restart_work replay enter
again-replay d g =
    replay-append (ath_restart_work d) (schedule_all d.txqs 0) g
    ∙ ground (arith, schedule-replay d.txqs 0 g)

resume-replay : (d : Device) (g : Gate) → replay (resume d).calls g ≡ some g
unfolding resume replay enter
resume-replay d g = ground (arith, again-replay d g)

resume-SameRun : (d : Device) → SameRun d (resume d).state
unfolding resume
resume-SameRun d = record {
  same_global = ground arith;
  same_invalid = ground arith;
  same_reset = ground arith;
}

-- A reset that completes turns the interrupts on if nothing else holds them off.
pub complete-replay :
    (a : Answers) (start : Bool) (d : Device) (g : Gate)
    → a.recv_started ≡ true
    → replay (ath_complete_reset a start d).calls g ≡ enter (enable_interrupts d.imask.global) g
unfolding ath_complete_reset replay enter
complete-replay a start d g started =
    let cleared = record d { curtxpow = a.txpow; op_hw_reset = false } in
    let resumed = resume cleared in
    let more : Ran =
      if not d.offchannel && start
      then record { state = resumed.state; calls = resumed.calls }
      else record { state = cleared; calls = [] } in
    let idle : ((h : Gate) → replay more.calls h ≡ some h) =
      λ h. ground (arith, resume-replay cleared h) in
    rw started (
      and_then_idle (enter (enable_interrupts d.imask.global) g)
        (replay (more.calls ++ wake_queues ∷ p2p_ps_timer ∷ []))
        (λ h. replay_idle more.calls (wake_queues ∷ p2p_ps_timer ∷ []) h (λ k. refl) ∙ idle h))

pub complete-SameRun :
    (a : Answers) (start : Bool) (d : Device)
    → a.recv_started ≡ true
    → let t = (ath_complete_reset a start d).state in
      (t.imask.global ≡ d.imask.global) × (t.op_invalid ≡ d.op_invalid) × (t.op_hw_reset ≡ false)
unfolding ath_complete_reset
complete-SameRun a start d started =
    let cleared = record d { curtxpow = a.txpow; op_hw_reset = false } in
    let same = resume-SameRun cleared in
    rw started (
      ground (arith, same.same_global),
      ground (arith, same.same_invalid),
      ground (arith, same.same_reset),
    )

complete_done :
    (a : Answers) (start : Bool) (d : Device)
    → a.recv_started ≡ true
    → (ath_complete_reset a start d).done ≡ true
unfolding ath_complete_reset
complete_done a start d started = rw started refl

-- A reset in which receiving starts again: the interrupts are on if nothing else holds them off, and
-- the driver is not marked, or the reset waits to run again.
pub record ResetEnd (d t : Device) (o : Option Gate) (g : Gate) : Type 0 where
  pub again : Bool
  pub ended : o ≡ some (record g { on = g.off == 0; work = g.work || again })
  pub kept_global : t.imask.global ≡ d.imask.global
  pub kept_invalid : t.op_invalid ≡ d.op_invalid
  pub kept_marked : t.op_hw_reset ≡ again

if-ResetEnd :
    (b : Bool) (d : Device) (x y : Reset) (g : Gate)
    → (b ≡ true → ResetEnd d x.state (replay x.calls g) g)
    → (b ≡ false → ResetEnd d y.state (replay y.calls g) g)
    → ResetEnd d (if b then x else y).state (replay (if b then x else y).calls g) g
if-ResetEnd true d x y g f h = f refl
if-ResetEnd false d x y g f h = h refl

-- Calls before others that leave the interrupts alone.
pub idle_first :
    (xs ys : List Call) (g : Gate) → replay xs g ≡ some g → replay (xs ++ ys) g ≡ replay ys g
idle_first xs ys g idle = replay-append xs ys g ∙ ap (λ o. and_then o (replay ys)) idle

pub prepared-replay :
    (a : Answers) (fastcc : Bool) (d : Device) (g : Gate)
    → replay (ath_prepare_reset a d ++ hw_reset fastcc a.reset_status ∷ []) g
      ≡ some (record g { off = g.off + 1; on = false })
unfolding ath_prepare_reset replay enter
prepared-replay a fastcc d g = refl

locked-ResetEnd :
    (a : Answers) (hchan_given : Bool) (d : Device) (g : Gate)
    → a.recv_started ≡ true
    → d.imask.global ≡ true
    → let r = reset_locked a hchan_given d in ResetEnd d r.state (replay r.calls g) g
unfolding reset_locked ath9k_queue_reset enter replay
locked-ResetEnd a hchan_given d g started asked =
    let fastcc = d.offchannel && hchan_given && (a.drained && a.recv_stopped) in
    let start = ath_prepare_reset a d ++ hw_reset fastcc a.reset_status ∷ [] in
    let completed = ath_complete_reset a true d in
    let mci = if d.mci_enabled && d.offchannel then mci_set_txpower ∷ [] else [] in
    let (global, invalid, marked) = complete-SameRun a true d started in
    let failed = enable_interrupts d.imask.global ∷ (ath9k_queue_reset d).calls in
    let dark = record g { off = g.off + 1; on = false } in
    let after : ((ys : List Call) → replay (start ++ ys) g ≡ replay ys dark) = λ ys.
      replay-append start ys g ∙ ap (λ o. and_then o (replay ys)) (prepared-replay a fastcc d g) in
    if-ResetEnd (not (is_zero a.reset_status)) d _ _ g
      (λ bad. record {
        again = true;
        ended = after failed ∙ rw asked (ground arith);
        kept_global = refl;
        kept_invalid = refl;
        kept_marked = refl;
      })
      (λ good.
        if-ResetEnd (not completed.done) d _ _ g
          (λ undone. ground (arith, undone, complete_done a true d started))
          (λ done. record {
            again = false;
            ended =
                after (mci ++ completed.calls)
                ∙ idle_first mci completed.calls dark (ground arith)
                ∙ complete-replay a true d dark started
                ∙ rw asked (ground arith);
            kept_global = global;
            kept_invalid = invalid;
            kept_marked = marked;
          }))

pub cancel-replay : (d : Device) (g : Gate) → replay (cancel_work_except_reset d) g ≡ some g
unfolding cancel_work_except_reset replay enter
cancel-replay d g = ground arith

pub internal_calls :
    (a : Answers) (hchan_given : Bool) (d : Device)
    → (ath_reset_internal a hchan_given d).calls
      ≡ cancel_work_except_reset d
        ++ (tasklet_disable
            ∷ lock_pcu
            ∷ ((reset_locked a hchan_given d).calls ++ (unlock_pcu ∷ tasklet_enable ∷ [])))
unfolding ath_reset_internal
internal_calls a hchan_given d = refl

-- Locks around other calls.
pub locked-replay :
    (calls : List Call) (g : Gate)
    → replay (tasklet_disable ∷ lock_pcu ∷ (calls ++ (unlock_pcu ∷ tasklet_enable ∷ []))) g
      ≡ replay calls g
unfolding replay enter
locked-replay calls g = replay_idle calls (unlock_pcu ∷ tasklet_enable ∷ []) g (λ h. refl)

internal-ResetEnd :
    (a : Answers) (hchan_given : Bool) (d : Device) (g : Gate)
    → a.recv_started ≡ true
    → d.imask.global ≡ true
    → let r = ath_reset_internal a hchan_given d in ResetEnd d r.state (replay r.calls g) g
unfolding ath_reset_internal
internal-ResetEnd a hchan_given d g started asked =
    let r = reset_locked a hchan_given d in
    let closing = unlock_pcu ∷ tasklet_enable ∷ [] in
    let rest = tasklet_disable ∷ lock_pcu ∷ (r.calls ++ closing) in
    let end = locked-ResetEnd a hchan_given d g started asked in
    record {
      again = end.again;
      ended =
          ap (λ cs. replay cs g) (internal_calls a hchan_given d)
          ∙ idle_first (cancel_work_except_reset d) rest g (cancel-replay d g)
          ∙ locked-replay r.calls g
          ∙ end.ended;
      kept_global = end.kept_global;
      kept_invalid = end.kept_invalid;
      kept_marked = end.kept_marked;
    }

pub reset_calls :
    (setpower : PowerMode → PowerMode → PowerMode) (btcoex : Bool) (a : Answers) (d : Device)
    → let up = on_softc (ps_wakeup setpower) d in
      let r = ath_reset_internal a false up.state in
      (ath_reset setpower btcoex a d).calls
      ≡ up.calls ++ (r.calls ++ (ps_restore setpower btcoex r.state.softc).calls)
unfolding ath_reset
reset_calls setpower btcoex a d = refl

reset-ResetEnd :
    (setpower : PowerMode → PowerMode → PowerMode) (btcoex : Bool) (a : Answers) (d : Device)
    (g : Gate)
    → a.recv_started ≡ true
    → d.imask.global ≡ true
    → let r = ath_reset setpower btcoex a d in ResetEnd d r.state (replay r.calls g) g
unfolding ath_reset
reset-ResetEnd setpower btcoex a d g started asked =
    let up = on_softc (ps_wakeup setpower) d in
    let r = ath_reset_internal a false up.state in
    let down = (ps_restore setpower btcoex r.state.softc).calls in
    let end = internal-ResetEnd a false up.state g started asked in
    record {
      again = end.again;
      ended =
          ap (λ cs. replay cs g) (reset_calls setpower btcoex a d)
          ∙ idle_first up.calls (r.calls ++ down) g (wakeup-replay setpower d.softc g)
          ∙ replay_idle r.calls down g (λ h. restore-replay setpower r.state.softc h btcoex)
          ∙ end.ended;
      kept_global = end.kept_global;
      kept_invalid = end.kept_invalid;
      kept_marked = end.kept_marked;
    }

-- The work has run: with no tasklet waiting the interrupts are on.
pub record Reopens (d : Device) (o : Option Gate) (g : Gate) : Type 0 where
  pub leaves : Leaves d o
  pub opened : (g.tasklet ≡ true) ⊎ (leaves.gate.on ≡ true)

-- With the reset work waiting and run, and receiving started again, the interrupts are on, the
-- tasklet waits, or the work waits again.
pub work_outcome :
    (setpower : PowerMode → PowerMode → PowerMode) (btcoex : Bool) (a : Answers) (d : Device)
    (g : Gate)
    → IsSound d g
    → a.recv_started ≡ true
    → let r = ath_reset_work setpower btcoex a d in
      Reopens r.state (replay r.calls (record g { work = false })) g
unfolding ath_reset_work
work_outcome setpower btcoex a d g v started =
    let end = reset-ResetEnd setpower btcoex a d (record g { work = false }) started v.asked in
    let r = ath_reset_work setpower btcoex a d in
    let leaves : Leaves r.state (replay r.calls (record g { work = false })) = record {
      gate = record g { work = end.again; on = g.off == 0 };
      left = end.ended;
      sound = record {
        asked = end.kept_global ∙ v.asked;
        present = end.kept_invalid ∙ v.present;
        balanced = v.balanced;
        alive = ground (arith, v.balanced);
        apart = ground (arith, v.balanced);
        marked = ground (arith, end.kept_marked);
      };
    } in
    record { leaves = leaves; opened = ground (arith, v.balanced, v.apart) }
