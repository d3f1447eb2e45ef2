-- ===== src/Driver/Device/Gate.antt =====
-- What the driver's calls leave of the interrupts, by the rules that the comments of ath9k/main.c give:
-- turning the interrupts off is counted, and only the call that brings the count back to 0 turns them
-- on; `inc_intr_ref` gives one count back and turns nothing on; a reset of the chip leaves them off.
-- `none` gives back what was not taken. `off` is the count, `on` whether the chip may interrupt, and
-- `tasklet` and `work` whether the tasklet and the reset work are waiting to run. `kill_tasklet` takes
-- a waiting tasklet from the queue; what it then calls, before the killing ends, stands after the call.
use ucsma_rate_control.Base.{
  ℕ, ◌+◌, ◌-◌, ◌≡◌, refl, ◌∙◌, Bool, true, false, ◌&&◌, ◌||◌, Option, none, some, List, [], ◌∷◌,
  ◌++◌, arith, ◌==◌, if◌then◌else◌,
}
pub use ucsma_rate_control.Base.Replay.{and_then}
use ucsma_rate_control.Base.Replay.{replay_by, replay_by-append}
use ucsma_rate_control.Driver.State.{
  PowerMode, Call, disable_interrupts, enable_interrupts, kill_interrupts, inc_intr_ref,
  reset_intr_ref, schedule_tasklet, kill_tasklet, queue_reset_work, cancel_reset_work, hw_reset,
  Softc,
}
use ucsma_rate_control.Driver.Power.{ps_wakeup, ps_restore}

pub record Gate : Type 0 where
  pub off : ℕ
  pub on : Bool
  pub tasklet : Bool
  pub work : Bool

abbrev pub give_back : (turn_on : Bool) → Gate → Option Gate
give_back turn_on g =
    if g.off == 0
    then none
    else some (record g { off = g.off - 1; on = g.on || (turn_on && (g.off == 1)) })

unfoldable pub enter : Call → Gate → Option Gate
enter (disable_interrupts global) g = some (record g { off = g.off + 1; on = false })
enter (enable_interrupts global) g = if global then give_back true g else some g
enter inc_intr_ref g = give_back false g
enter kill_interrupts g = some (record g { on = false })
enter reset_intr_ref g = some (record g { off = 1; on = false })
enter (hw_reset fastcc status) g = some (record g { on = false })
enter schedule_tasklet g = some (record g { tasklet = true })
enter kill_tasklet g = some (record g { tasklet = false })
enter queue_reset_work g = some (record g { work = true })
enter cancel_reset_work g = some (record g { work = false })
enter _ g = some g

unfoldable pub replay : List Call → Gate → Option Gate
unfolding enter replay_by
replay calls g = replay_by enter calls g

pub and_then_idle :
    (o : Option Gate) (f : Gate → Option Gate) → ((h : Gate) → f h ≡ some h) → and_then o f ≡ o
and_then_idle none f idle = refl
and_then_idle (some h) f idle = idle h

pub replay-append :
    (xs ys : List Call) (g : Gate) → replay (xs ++ ys) g ≡ and_then (replay xs g) (replay ys)
unfolding replay
replay-append xs ys g = replay_by-append enter xs ys g

-- Calls that leave the interrupts alone, after others.
pub replay_idle :
    (xs ys : List Call) (g : Gate)
    → ((h : Gate) → replay ys h ≡ some h)
    → replay (xs ++ ys) g ≡ replay xs g
replay_idle xs ys g idle = replay-append xs ys g ∙ and_then_idle (replay xs g) (replay ys) idle

pub replay_cons :
    (c : Call) (calls : List Call) (g : Gate)
    → replay (c ∷ calls) g ≡ and_then (enter c g) (replay calls)
unfolding replay
replay_cons c calls g = refl

pub replay_nil : (g : Gate) → replay [] g ≡ some g
unfolding replay
replay_nil g = refl

pub ruleset replays = (replay-append, replay_cons, replay_nil)

-- Power saving leaves the interrupts alone.
module _ (setpower : PowerMode → PowerMode → PowerMode) (sc : Softc) (g : Gate) where
  pub wakeup-replay : replay (ps_wakeup setpower sc).calls g ≡ some g
  unfolding ps_wakeup replay
  wakeup-replay = ground arith

  pub restore-replay : (btcoex : Bool) → replay (ps_restore setpower btcoex sc).calls g ≡ some g
  unfolding ps_restore replay
  restore-replay btcoex = ground arith
