-- ===== src/Driver/Device/Served.antt =====
-- ath9k/main.c: what the tasklet and the reset work leave of the interrupts.
use ucsma_rate_control.Base.{
  ◌+◌, ◌%◌, ◌≡◌, refl, ap, ◌∙◌, inl, inr, Bool, true, false, not, ◌&&◌, ◌||◌, Option, subst, some,
  List, [], ◌∷◌, ◌++◌, arith, if◌then◌else◌, leb,
}
use ucsma_rate_control.Driver.State.{
  PowerMode, Call, enable_interrupts, lock_cc, unlock_cc, update_cycle_counters, check_watchdog,
  check_alive, lock_pcu, unlock_pcu,
}
use ucsma_rate_control.Driver.Power.{ps_wakeup, ps_restore}
use ucsma_rate_control.Driver.Device.{Ints, Device, Ran, on_softc, only, ◌then_run◌}
use ucsma_rate_control.Driver.Device.Tasklet.{
  TaskletInputs, max_gtt_cnt, ath9k_tasklet, tasklet_locked, after_fatal, after_watchdog, serve,
  skip_interrupts,
}
use ucsma_rate_control.Driver.Device.Gate.{
  Gate, enter, replay, replay_idle, replay-append, and_then, give_back, wakeup-replay,
  restore-replay,
}
use ucsma_rate_control.Driver.Device.Sound.{IsSound, SameRun, serve-replay}
use ucsma_rate_control.Driver.Device.Outcomes.{Leaves}

-- The transmit timeouts, with this one the fifth in a row or more, find the chip dead.
abbrev timed_out : TaskletInputs → Ints → Device → Bool
timed_out inp s d = s.gtt && (leb 5 ((d.gtt_cnt + 1) % 256) && not inp.alive)

-- The status is fatal, the watchdog wants a reset, or the transmit timeouts find the chip dead.
abbrev pub wants_reset : TaskletInputs → Ints → Device → Bool
wants_reset inp s d =
    s.fatal || (((d.hang_watchdog && s.bb_watchdog) && inp.watchdog_fired) || timed_out inp s d)

-- From the flags `global`, `invalid` and `marked`: the interrupts are turned on and the flags are left;
-- or, where it is `wanted`, a reset is queued and the interrupts stay off.
pub data TaskletEnd (wanted global invalid marked : Bool) (t : Device) (o : Option Gate) (g : Gate)
    : Type 0 where
  served :
      o ≡ enter (enable_interrupts global) g
      → t.imask.global ≡ global
      → t.op_invalid ≡ invalid
      → t.op_hw_reset ≡ marked
      → wanted ≡ false
      → TaskletEnd wanted global invalid marked t o g
  skipped :
      o ≡ give_back false (record g { work = true })
      → t.imask.global ≡ global
      → t.op_invalid ≡ invalid
      → wanted ≡ true
      → TaskletEnd wanted global invalid marked t o g

abbrev Ends : Bool → Device → Ran → Gate → Type 0
Ends wanted d r g =
    TaskletEnd wanted d.imask.global d.op_invalid d.op_hw_reset r.state (replay r.calls g) g

skip-Ends : (d : Device) (g : Gate) → Ends true d (skip_interrupts d) g
unfolding skip_interrupts replay enter
skip-Ends d g = skipped (ground arith) refl refl refl

serve-Ends : (s : Ints) (d : Device) (g : Gate) → Ends false d (serve s d) g
unfolding serve
serve-Ends s d g = served (serve-replay s d g) (ground arith) (ground arith) (ground arith) refl

-- Either branch of a test.
if-Ends :
    (b v w : Bool) (d : Device) (x y : Ran) (g : Gate)
    → Ends v d x g
    → Ends w d y g
    → Ends (if b then v else w) d (if b then x else y) g
if-Ends true v w d x y g f h = f
if-Ends false v w d x y g f h = h

-- Calls before it that leave the interrupts alone.
only-Ends :
    (b : Bool) (calls : List Call) (d e : Device) (f : Device → Ran) (g : Gate)
    → replay calls g ≡ some g
    → Ends b e (f d) g
    → Ends b e (only calls d then_run f) g
only-Ends b calls d e f g idle (served same global invalid hw no') =
    served
      (replay-append calls (f d).calls g ∙ ap (λ o. and_then o (replay (f d).calls)) idle ∙ same)
      global invalid hw no'
only-Ends b calls d e f g idle (skipped same global invalid yes') =
    skipped
      (replay-append calls (f d).calls g ∙ ap (λ o. and_then o (replay (f d).calls)) idle ∙ same)
      global invalid yes'

watchdog-Ends :
    (inp : TaskletInputs) (s : Ints) (d : Device) (g : Gate)
    → Ends (timed_out inp s d) d (after_watchdog inp s d) g
unfolding after_watchdog replay enter
watchdog-Ends inp s d g =
    let counted = record d { gtt_cnt = (d.gtt_cnt + 1) % 256 } in
    let hung = leb max_gtt_cnt counted.gtt_cnt in
    let same : (if not s.gtt then false else if hung && not inp.alive then true else false)
        ≡ timed_out inp s d =
      ground arith in
    subst (λ b. Ends b d (after_watchdog inp s d) g) same
      (if-Ends (not s.gtt) false _ d _ _ g (serve-Ends s d g) (
        if-Ends (hung && not inp.alive) true false d _ _ g
          (only-Ends true (check_alive ∷ []) counted d skip_interrupts g refl (skip-Ends counted g))
          (only-Ends false (if hung then check_alive ∷ [] else []) counted d (serve s) g
            (ground arith) (serve-Ends s counted g))))

or_if : (a b : Bool) → (if a then true else b) ≡ (a || b)
or_if true b = refl
or_if false b = refl

or_split : (a b c : Bool) → (if not a then c else if b then true else c) ≡ ((a && b) || c)
or_split true true c = refl
or_split true false c = refl
or_split false b c = refl

fatal-Ends :
    (inp : TaskletInputs) (s : Ints) (d : Device) (g : Gate)
    → Ends
        (((d.hang_watchdog && s.bb_watchdog) && inp.watchdog_fired) || timed_out inp s d)
        d
        (after_fatal inp s d)
        g
unfolding after_fatal replay enter
fatal-Ends inp s d g =
    let debug = lock_cc ∷ update_cycle_counters ∷ unlock_cc ∷ check_watchdog ∷ [] in
    let late = timed_out inp s d in
    let same : (if not (d.hang_watchdog && s.bb_watchdog)
          then late
          else if inp.watchdog_fired
          then true
          else late)
        ≡ (((d.hang_watchdog && s.bb_watchdog) && inp.watchdog_fired) || late) =
      or_split (d.hang_watchdog && s.bb_watchdog) inp.watchdog_fired late in
    subst (λ b. Ends b d (after_fatal inp s d) g) same
      (if-Ends (not (d.hang_watchdog && s.bb_watchdog)) late _ d _ _ g (watchdog-Ends inp s d g) (
        if-Ends inp.watchdog_fired true late d _ _ g
          (only-Ends true debug d d skip_interrupts g refl (skip-Ends d g))
          (only-Ends late debug d d (after_watchdog inp s) g refl (watchdog-Ends inp s d g))))

locked-Ends :
    (inp : TaskletInputs) (s : Ints) (d : Device) (g : Gate)
    → Ends (wants_reset inp s d) d (tasklet_locked inp s d) g
unfolding tasklet_locked
locked-Ends inp s d g =
    subst (λ b. Ends b d (tasklet_locked inp s d) g) (or_if s.fatal _)
      (if-Ends s.fatal true _ d _ _ g (skip-Ends d g) (fatal-Ends inp s d g))

-- A function followed by one that changes neither the flags nor the interrupts.
then-Ends :
    (b : Bool) (d : Device) (r : Ran) (f : Device → Ran) (g : Gate)
    → ((h : Gate) → replay (f r.state).calls h ≡ some h)
    → SameRun r.state (f r.state).state
    → Ends b d r g
    → Ends b d (r then_run f) g
then-Ends b d r f g idle same (served ran global invalid hw no') =
    served (replay_idle r.calls (f r.state).calls g idle ∙ ran) (same.same_global ∙ global)
      (same.same_invalid ∙ invalid) (same.same_reset ∙ hw) no'
then-Ends b d r f g idle same (skipped ran global invalid yes') =
    skipped (replay_idle r.calls (f r.state).calls g idle ∙ ran) (same.same_global ∙ global)
      (same.same_invalid ∙ invalid) yes'

pub tasklet-Ends :
    (setpower : PowerMode → PowerMode → PowerMode) (btcoex : Bool) (inp : TaskletInputs)
    (d : Device) (g : Gate)
    → TaskletEnd
        (wants_reset inp d.intrstatus d)
        d.imask.global
        d.op_invalid
        d.op_hw_reset
        (ath9k_tasklet setpower btcoex inp d).state
        (replay (ath9k_tasklet setpower btcoex inp d).calls g)
        g
unfolding ath9k_tasklet replay enter
tasklet-Ends setpower btcoex inp d g =
    let up = on_softc (ps_wakeup setpower) d in
    let locked : Ran = record { state = up.state; calls = up.calls ++ lock_pcu ∷ [] } in
    let idle : replay (locked.calls) g ≡ some g =
      replay_idle up.calls (lock_pcu ∷ []) g (λ h. refl) ∙ wakeup-replay setpower d.softc g in
    let ran = only locked.calls up.state then_run tasklet_locked inp d.intrstatus in
    let done =
      only-Ends (wants_reset inp d.intrstatus d) locked.calls up.state up.state
        (tasklet_locked inp d.intrstatus) g idle (locked-Ends inp d.intrstatus up.state g) in
    let unlocked = ran then_run only (unlock_pcu ∷ []) in
    then-Ends _ d unlocked (on_softc (ps_restore setpower btcoex)) g
      (λ h. restore-replay setpower unlocked.state.softc h btcoex)
      (record { same_global = refl; same_invalid = refl; same_reset = refl })
      (then-Ends _ d ran (only (unlock_pcu ∷ [])) g (λ h. refl)
        (record { same_global = refl; same_invalid = refl; same_reset = refl }) done)

-- The tasklet has run, and waits no more.
pub record Settles (d : Device) (o : Option Gate) : Type 0 where
  pub leaves : Leaves d o
  pub settled : leaves.gate.tasklet ≡ false

-- With the tasklet waiting and run, the interrupts are on again, or a reset is waiting.
pub tasklet_outcome :
    (setpower : PowerMode → PowerMode → PowerMode) (btcoex : Bool) (inp : TaskletInputs)
    (d : Device) (g : Gate)
    → IsSound d g
    → g.tasklet ≡ true
    → let r = ath9k_tasklet setpower btcoex inp d in
      Settles r.state (replay r.calls (record g { tasklet = false }))
unfolding enter
tasklet_outcome setpower btcoex inp d g v waiting =
    let r = ath9k_tasklet setpower btcoex inp d in
    let one : g.off ≡ 1 = v.balanced ∙ (rw waiting refl) in
    let dark : g.on ≡ false = ground (arith, v.apart, waiting) in
    elim (tasklet-Ends setpower btcoex inp d (record g { tasklet = false })) [
      | served ran global invalid hw no' ↦ record {
        leaves = record {
          gate = record g { tasklet = false; off = 0; on = true };
          left = ran ∙ rw (v.asked, one, dark) refl;
          sound = record {
            asked = global ∙ v.asked;
            present = invalid ∙ v.present;
            balanced = refl;
            alive = inl refl;
            apart = inr refl;
            marked = rw hw v.marked;
          };
        };
        settled = refl;
      }
      | skipped ran global invalid yes' ↦ record {
        leaves = record {
          gate = record g { tasklet = false; off = 0; work = true };
          left = ran ∙ rw (one, dark) refl;
          sound = record {
            asked = global ∙ v.asked;
            present = invalid ∙ v.present;
            balanced = refl;
            alive = inr (inr refl);
            apart = inr refl;
            marked = inr refl;
          };
        };
        settled = refl;
      }
    ]
