-- ===== src/Driver/Device/Halting.antt =====
-- ath9k/main.c: starting, and a reset after which receiving does not start.
use ucsma_rate_control.Base.{
  ◌+◌, ◌≡◌, refl, ap, ◌∙◌, inl, inr, Bool, true, false, ◌&&◌, some, [], ◌∷◌, ◌++◌, arith,
  if◌then◌else◌,
}
use ucsma_rate_control.Base.Int.{is_zero, negsuc}
use ucsma_rate_control.Driver.State.{
  PowerMode, lock_mutex, unlock_mutex, get_channel, config_pci, lock_pcu, unlock_pcu, led_on,
  tasklet_disable, tasklet_enable, mci_set_txpower, start_recv, init_crypto, reset_tsf,
  reset_intr_ref, hw_reset, mci_enable,
}
use ucsma_rate_control.Driver.Power.{ps_wakeup, ps_restore}
use ucsma_rate_control.Driver.Device.{
  Device, Answers, on_softc, ath_complete_reset, cancel_work_except_reset, ath_prepare_reset,
  ath_reset, ath_reset_work, ath_reset_internal, reset_locked,
}
use ucsma_rate_control.Driver.Device.StartStop.{start_mask, start_locked, ath9k_start}
use ucsma_rate_control.Driver.Device.Gate.{
  Gate, enter, replay, replay-append, replay_idle, and_then, wakeup-replay, restore-replay,
}
use ucsma_rate_control.Driver.Device.Sound.{IsSound}
use ucsma_rate_control.Driver.Device.Restored.{
  cancel-replay, reset_calls, prepared-replay, internal_calls, locked-replay, complete-replay,
  complete-SameRun, idle_first,
}

-- The interrupts after a start.
abbrev opened : Gate → Gate
opened g = record g { off = 0; on = true }

start_locked-replay :
    (a : Answers) (d : Device) (g : Gate)
    → a.recv_started ≡ true
    → replay (start_locked a d).calls g ≡ some (opened g)
unfolding start_locked start_mask replay enter
start_locked-replay a d g started =
    let masked = record d {
      imask = start_mask d;
      op_invalid = false;
      is_monitoring = false;
      reset_power_on = d.reset_power_on && is_zero a.reset_status;
    } in
    let completed = ath_complete_reset a false masked in
    let closing = (if d.has_led then led_on ∷ [] else []) ++ init_crypto ∷ reset_tsf ∷ [] in
    replay_idle (reset_intr_ref ∷ hw_reset false a.reset_status ∷ mci_enable ∷ completed.calls)
      closing g (λ h. ground arith)
    ∙ complete-replay a false masked (record g { off = 1; on = false }) started

start-replay :
    (setpower : PowerMode → PowerMode → PowerMode) (btcoex : Bool) (a : Answers) (d : Device)
    (g : Gate)
    → a.recv_started ≡ true
    → replay (ath9k_start setpower btcoex a d).calls g ≡ some (opened g)
unfolding ath9k_start replay enter
start-replay setpower btcoex a d g started =
    let up = on_softc (ps_wakeup setpower) d in
    let before = lock_mutex ∷ get_channel ∷ config_pci false ∷ lock_pcu ∷ [] in
    let locked = start_locked a up.state in
    replay_idle ((up.calls ++ before ++ locked.calls) ++ (unlock_pcu ∷ unlock_mutex ∷ []))
      (ps_restore setpower btcoex locked.state.softc).calls g
      (λ h. restore-replay setpower locked.state.softc h btcoex)
    ∙ replay_idle (up.calls ++ before ++ locked.calls) (unlock_pcu ∷ unlock_mutex ∷ []) g
        (λ h. refl)
    ∙ idle_first (up.calls ++ before) locked.calls g
        (replay_idle up.calls before g (λ h. refl) ∙ wakeup-replay setpower d.softc g)
    ∙ start_locked-replay a up.state g started

-- A start in which receiving starts, with no tasklet waiting, leaves a sound state with the
-- interrupts on, whatever the count of the references was before and whether or not the chip was
-- reset.
pub start_outcome :
    (setpower : PowerMode → PowerMode → PowerMode) (btcoex : Bool) (a : Answers) (d : Device)
    (g : Gate)
    → a.recv_started ≡ true
    → g.tasklet ≡ false
    → let r = ath9k_start setpower btcoex a d in
      (replay r.calls g ≡ some (opened g)) × IsSound r.state (opened g)
unfolding ath9k_start start_locked start_mask
start_outcome setpower btcoex a d g started settled =
    let up = on_softc (ps_wakeup setpower) d in
    let masked = record up.state {
      imask = start_mask up.state;
      op_invalid = false;
      is_monitoring = false;
      reset_power_on = d.reset_power_on && is_zero a.reset_status;
    } in
    let (global, invalid, marked) = complete-SameRun a false masked started in
    (
      start-replay setpower btcoex a d g started,
      record {
        asked = global;
        present = invalid;
        balanced = rw settled refl;
        alive = inl refl;
        apart = inr settled;
        marked = inl marked;
      },
    )

-- A chip that resets, and then receiving that does not start: the count that the reset took is not
-- given back, the chip may not interrupt, and no new reset waits.
stuck : Gate → Gate
stuck g = record g { off = g.off + 1; on = false }

stuck_locked :
    (a : Answers) (hchan_given : Bool) (d : Device) (g : Gate)
    → is_zero a.reset_status ≡ true
    → a.recv_started ≡ false
    → let r = reset_locked a hchan_given d in
      (replay r.calls g ≡ some (stuck g)) × (r.result ≡ negsuc 4) × (r.state ≡ d)
unfolding reset_locked ath_complete_reset stuck replay enter
stuck_locked a hchan_given d g good broken =
    let fastcc = d.offchannel && hchan_given && (a.drained && a.recv_stopped) in
    let start = ath_prepare_reset a d ++ hw_reset fastcc a.reset_status ∷ [] in
    let mci = if d.mci_enabled && d.offchannel then mci_set_txpower ∷ [] else [] in
    let rest = mci ++ (start_recv false ∷ []) in
    rw (good, broken)
      (
        replay-append start rest g
            ∙ ap (λ o. and_then o (replay rest)) (prepared-replay a fastcc d g)
            ∙ ground arith,
        refl,
        refl,
      )

-- After a reset by the work that the chip takes but after which receiving does not start, the
-- interrupts are off with one reference more than before, the reset schedules neither the tasklet
-- nor itself, and the mark of a reset stays as it was.
pub reset_stuck :
    (setpower : PowerMode → PowerMode → PowerMode) (btcoex : Bool) (a : Answers) (d : Device)
    (g : Gate)
    → is_zero a.reset_status ≡ true
    → a.recv_started ≡ false
    → let r = ath_reset_work setpower btcoex a d in
      (replay r.calls g ≡ some (record g { off = g.off + 1; on = false }))
      × (r.state.op_hw_reset ≡ d.op_hw_reset)
unfolding ath_reset_work ath_reset ath_reset_internal stuck
reset_stuck setpower btcoex a d g good broken =
    let up = on_softc (ps_wakeup setpower) d in
    let r = ath_reset_internal a false up.state in
    let locked = reset_locked a false up.state in
    let down = (ps_restore setpower btcoex r.state.softc).calls in
    let rest = tasklet_disable ∷ lock_pcu ∷ (locked.calls ++ (unlock_pcu ∷ tasklet_enable ∷ [])) in
    let (replayed, result, same) = stuck_locked a false up.state g good broken in
    (
      ap (λ cs. replay cs g) (reset_calls setpower btcoex a d)
          ∙ idle_first up.calls (r.calls ++ down) g (wakeup-replay setpower d.softc g)
          ∙ replay_idle r.calls down g (λ h. restore-replay setpower r.state.softc h btcoex)
          ∙ ap (λ cs. replay cs g) (internal_calls a false up.state)
          ∙ idle_first (cancel_work_except_reset up.state) rest g (cancel-replay up.state g)
          ∙ locked-replay locked.calls g
          ∙ replayed,
      ap (λ t. t.op_hw_reset) same,
    )
