-- ===== src/Driver/Channel/Users.antt =====
-- ath9k/main.c: the count of users while the channel is set.
use ucsma_rate_control.Base.{ℕ, ◌+◌, ◌<◌, ◌^◌, ◌≡◌, Bool, true, Option, arith}
use ucsma_rate_control.Driver.State.{PowerMode}
use ucsma_rate_control.Driver.Power.{ps_wakeup, ps_restore, wakeup-count, restore-count}
use ucsma_rate_control.Driver.Device.{Device, Answers, on_softc, ath_reset_internal}
use ucsma_rate_control.Driver.Device.Count.{internal-count}
use ucsma_rate_control.Driver.Channel.{
  ChannelConf, Surveys, switch_survey, ath9k_spectral_scan_trigger, after_reset, ath_set_channel,
}

module _ (setpower : PowerMode → PowerMode → PowerMode) (btcoex : Bool)
    (measure : Surveys → Surveys) (measure_nf : (old : ℕ) → Surveys → Surveys) where
  scan-count :
      (conf : ChannelConf) (d : Device)
      → d.softc.ps_usecount + 2 < 2 ^ 32
      → (ath9k_spectral_scan_trigger setpower btcoex measure measure_nf conf
          d).state.softc.ps_usecount
        ≡ d.softc.ps_usecount
  unfolding ath9k_spectral_scan_trigger
  scan-count conf d fits =
      let up = (on_softc (ps_wakeup setpower) d).state in
      let again = (on_softc (ps_wakeup setpower) up).state in
      let down = (on_softc (ps_restore setpower btcoex) again).state in
      let one = wakeup-count setpower d.softc (omega arith) in
      let two = wakeup-count setpower up.softc (omega (arith, one)) in
      let back =
        restore-count setpower btcoex again.softc (d.softc.ps_usecount + 1)
          (omega (arith, one, two)) (omega arith) in
      let last = restore-count setpower btcoex down.softc d.softc.ps_usecount back (omega arith) in
      ground (arith, last)

  after-count :
      (conf : ChannelConf) (old : Option ℕ) (v : Surveys) (d : Device)
      → d.softc.ps_usecount + 2 < 2 ^ 32
      → (after_reset setpower btcoex measure measure_nf conf old v d).device.softc.ps_usecount
        ≡ d.softc.ps_usecount
  unfolding after_reset
  after-count conf old v d fits = ground (arith, scan-count conf d fits)

  pub channel-count :
      (a : Answers) (conf : ChannelConf) (chan : ℕ) (old : Option ℕ) (v : Surveys) (d : Device)
      → d.softc.ps_usecount + 2 < 2 ^ 32
      → (ath_set_channel setpower btcoex measure measure_nf a conf chan old v
          d).device.softc.ps_usecount
        ≡ d.softc.ps_usecount
  unfolding ath_set_channel
  channel-count a conf chan old v d fits =
      let tuned = record d { offchannel = conf.offchannel } in
      let switched = switch_survey conf.offchannel chan (measure v) in
      let r = ath_reset_internal a true tuned in
      let kept = internal-count a true tuned in
      let after = after-count conf old switched r.state (omega (arith, kept, fits)) in
      ground (arith, kept, after)
