-- ===== src/Driver/Device/Count.antt =====
-- ath9k/main.c: a reset and the count of users.
use ucsma_rate_control.Base.{◌+◌, ◌<◌, ◌^◌, ◌≡◌, ◌∙◌, Bool, true, false, arith}
use ucsma_rate_control.Driver.State.{PowerMode}
use ucsma_rate_control.Driver.Power.{ps_wakeup, wakeup-count, restore-count}
use ucsma_rate_control.Driver.Device.{
  Device, Answers, on_softc, resume, ath_complete_reset, reset_locked, ath_reset_internal,
  ath_reset, ath9k_queue_reset,
}

-- A reset leaves the count of users alone.
resume-count : (d : Device) → (resume d).state.softc.ps_usecount ≡ d.softc.ps_usecount
unfolding resume
resume-count d = ground arith

complete-count :
    (a : Answers) (start : Bool) (d : Device)
    → (ath_complete_reset a start d).state.softc.ps_usecount ≡ d.softc.ps_usecount
unfolding ath_complete_reset
complete-count a start d =
    let cleared = record d { curtxpow = a.txpow; op_hw_reset = false } in
    ground (arith, resume-count cleared)

pub internal-count :
    (a : Answers) (hchan_given : Bool) (d : Device)
    → (ath_reset_internal a hchan_given d).state.softc.ps_usecount ≡ d.softc.ps_usecount
unfolding ath_reset_internal reset_locked ath9k_queue_reset
internal-count a hchan_given d = ground (arith, complete-count a true d)

module _ (setpower : PowerMode → PowerMode → PowerMode) (btcoex : Bool) where
  pub reset-count :
      (a : Answers) (d : Device)
      → d.softc.ps_usecount + 1 < 2 ^ 32
      → (ath_reset setpower btcoex a d).state.softc.ps_usecount ≡ d.softc.ps_usecount
  unfolding ath_reset
  reset-count a d h =
      let up = (on_softc (ps_wakeup setpower) d).state in
      restore-count setpower btcoex (ath_reset_internal a false up).state.softc d.softc.ps_usecount
        (internal-count a false up ∙ wakeup-count setpower d.softc h) h
