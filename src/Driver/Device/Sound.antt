-- ===== src/Driver/Device/Sound.antt =====
-- ath9k/main.c: interrupts, tasklets and resets in any order.
use ucsma_rate_control.Base.{
  ◌+◌, ◌≡◌, ◌⊎◌, inl, inr, Bool, true, false, ◌&&◌, ◌||◌, some, [], arith, if◌then◌else◌,
  Bool-cases,
}
use ucsma_rate_control.Driver.State.{PowerMode, enable_interrupts}
use ucsma_rate_control.Driver.Device.{Ints, Device}
use ucsma_rate_control.Driver.Device.Isr.{
  dispatch_isr, finish_isr, handle_now, note_tim_timer, is_sched, is_any, Isr, irq_handled,
}
use ucsma_rate_control.Driver.Device.Tasklet.{serve}
use ucsma_rate_control.Driver.Device.Gate.{Gate, enter, replay, replays, replay_nil}

-- The driver runs, the count is that of the waiting tasklet, a chip that may not interrupt has a
-- tasklet or a reset waiting, and a reset that is marked is waiting.
pub record IsSound (d : Device) (g : Gate) : Type 0 where
  pub asked : d.imask.global ≡ true
  pub present : d.op_invalid ≡ false
  pub balanced : g.off ≡ (if g.tasklet then 1 else 0)
  pub alive : (g.on ≡ true) ⊎ ((g.tasklet ≡ true) ⊎ (g.work ≡ true))
  pub apart : (g.on ≡ false) ⊎ (g.tasklet ≡ false)
  pub marked : (d.op_hw_reset ≡ false) ⊎ (g.work ≡ true)

pub serve-replay :
    (s : Ints) (d : Device) (g : Gate)
    → replay (serve s d).calls g ≡ enter (enable_interrupts d.imask.global) g
unfolding serve replay
serve-replay s d g = ground arith

now-replay :
    (setpower : PowerMode → PowerMode → PowerMode) (s : Ints) (d : Device) (g : Gate)
    → replay (handle_now setpower s d).calls g ≡ some g
unfolding handle_now replay
now-replay setpower s d g = ground arith

-- What the handler leaves where it schedules the tasklet.
abbrev pub scheduled : Bool → Gate → Gate
scheduled sched g = if sched then record g { off = g.off + 1; on = false; tasklet = true } else g

finish-replay :
    (setpower : PowerMode → PowerMode → PowerMode) (s : Ints) (r : Isr) (g : Gate)
    → replay r.calls g ≡ some g
    → replay (finish_isr setpower s r).calls g ≡ some (scheduled (is_sched s) g)
unfolding finish_isr enter
finish-replay setpower s r g same = elim (Bool-cases (is_sched s)) [
  | inl yes' ↦ rw yes' (simp (replays, same))
  | inr no' ↦ rw no' (simp (replays, same))
]

-- The bits that the invariant reads are left alone by a dispatch.
pub record SameRun (d t : Device) : Type 0 where
  pub same_global : t.imask.global ≡ d.imask.global
  pub same_invalid : t.op_invalid ≡ d.op_invalid
  pub same_reset : t.op_hw_reset ≡ d.op_hw_reset

pub dispatch-SameRun :
    (setpower : PowerMode → PowerMode → PowerMode) (s : Ints) (d : Device)
    → SameRun d (dispatch_isr setpower s d).state
unfolding dispatch_isr finish_isr handle_now note_tim_timer
dispatch-SameRun setpower s d = record {
  same_global = ground arith;
  same_invalid = ground arith;
  same_reset = ground arith;
}

not_any : (s : Ints) → is_any s ≡ false → is_sched s ≡ false
unfolding is_any is_sched
not_any s h = ground arith

pub dispatch-replay :
    (setpower : PowerMode → PowerMode → PowerMode) (s : Ints) (d : Device) (g : Gate)
    → replay (dispatch_isr setpower s d).calls g ≡ some (scheduled (is_sched s) g)
unfolding dispatch_isr
dispatch-replay setpower s d g =
    let cached = record d { intrstatus = s } in
    let skipped : Isr = record { state = cached; calls = []; result = irq_handled } in
    elim (Bool-cases (is_any s)) [
      | inr none' ↦ rw (none', not_any s none') (replay_nil g)
      | inl any ↦ rw any (elim (Bool-cases (s.fatal || (d.hang_watchdog && s.bb_watchdog))) [
        | inl hung ↦ rw hung (finish-replay setpower s skipped g (replay_nil g))
        | inr fine ↦ rw fine (
            finish-replay setpower s (handle_now setpower s cached) g
              (now-replay setpower s cached g))
      ])
    ]
