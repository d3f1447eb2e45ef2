-- ===== src/Driver/Configure.antt =====
-- ath9k/main.c: `ath9k_config`. `txpowlimit` is a u16, and `txpow` is the power that the hardware has
-- after it was set.
use ucsma_rate_control.Base.{
  ℕ, ◌+◌, ◌*◌, ◌/◌, ◌%◌, ◌<◌, ◌^◌, ◌≡◌, ◌∙◌, Bool, true, false, not, ◌&&◌, ◌||◌, Option, List, [],
  ◌∷◌, ◌++◌, arith, if◌then◌else◌,
}
use ucsma_rate_control.Base.Int.{ℤ, pos, negsuc, is_negative, pattern_of}
use ucsma_rate_control.Driver.State.{
  PowerMode, Call, lock_mutex, unlock_mutex, lock_pm, unlock_pm, start_btcoex, stop_btcoex,
  update_txpow, log_error,
}
use ucsma_rate_control.Driver.Power.{ps_wakeup, ps_restore, wakeup-count, restore-count}
use ucsma_rate_control.Driver.Device.{Device, Ran, Answers, on_softc, ath_cancel_work}
use ucsma_rate_control.Driver.Config.{
  ath9k_enable_ps, ath9k_disable_ps, enable-count, disable-count,
}
use ucsma_rate_control.Driver.Channel.{ChannelConf, Surveys, Tuned, ath_set_channel}
use ucsma_rate_control.Driver.Channel.Users.{channel-count}

-- What changed, and what it changed to; `power_level` is in dBm.
pub record Conf : Type 0 where
  pub change_idle : Bool
  pub change_ps : Bool
  pub change_monitor : Bool
  pub change_channel : Bool
  pub change_power : Bool
  pub idle : Bool
  pub ps : Bool
  pub monitor : Bool
  pub power_level : ℤ
  pub max_antenna_gain : ℕ
  pub chip_fullsleep : Bool
  pub channel : ChannelConf
  pub chan : ℕ
  pub old_chan : Option ℕ

pub record Configured : Type 0 where
  pub device : Device
  pub surveys : Surveys
  pub calls : List Call
  pub result : ℤ

pub set_idle : Conf → Device → Ran
set_idle c d =
    let rested = record d { softc = record d.softc { ps_idle = c.idle } } in
    if not c.change_idle then record { state = d; calls = [] } else record {
      state = rested;
      calls = if c.idle then ath_cancel_work d ++ (stop_btcoex ∷ []) else start_btcoex ∷ [];
    }

pub set_ps : (PowerMode → PowerMode → PowerMode) → Conf → Device → Ran
set_ps setpower c d =
    let set : Ran = if c.ps then ath9k_enable_ps d else ath9k_disable_ps setpower d in
    if not c.change_ps
    then record { state = d; calls = [] }
    else record { state = set.state; calls = lock_pm ∷ set.calls ++ (unlock_pm ∷ []) }

pub set_monitor : Conf → Device → Device
set_monitor c d = if c.change_monitor then record d { is_monitoring = c.monitor } else d

-- `txpow` is the power that the hardware then has.
pub set_power_level : Conf → (txpow : ℕ) → Device → Ran
set_power_level c txpow d =
    if c.change_power
    then record {
      state = record d {
        max_antenna_gain = c.max_antenna_gain;
        txpowlimit = 2 * pattern_of (2 ^ 16) c.power_level % 2 ^ 16;
        curtxpow = txpow;
        cur_power_level = txpow / 2;
      };
      calls = update_txpow ∷ [];
    }
    else record { state = d; calls = [] }

module _ (setpower : PowerMode → PowerMode → PowerMode) (btcoex : Bool)
    (measure : Surveys → Surveys) (measure_nf : (old : ℕ) → Surveys → Surveys) where
  -- The channel, if it changes or if a chip in full sleep is no longer idle.
  retune : Answers → Conf → Surveys → Device → Tuned
  retune a c v d =
      let reset_channel = c.change_idle && not c.idle && c.chip_fullsleep in
      let tuned =
        ath_set_channel setpower btcoex measure measure_nf a c.channel c.chan c.old_chan v d in
      if c.change_channel || reset_channel
      then tuned
      else record { device = d; surveys = v; calls = []; result = pos 0 }

  -- -EINVAL where the channel is not set; the power is left as it was then.
  pub ath9k_config : Answers → (txpow : ℕ) → Conf → Surveys → Device → Configured
  unfolding set_idle set_ps set_monitor set_power_level retune
  ath9k_config a txpow c v d =
      let up = on_softc (ps_wakeup setpower) d in
      let idled = set_idle c up.state in
      let saved = set_ps setpower c idled.state in
      let tuned = retune a c v (set_monitor c saved.state) in
      let powered = set_power_level c txpow tuned.device in
      let before = up.calls ++ (lock_mutex ∷ (idled.calls ++ (saved.calls ++ tuned.calls))) in
      let failed = on_softc (ps_restore setpower btcoex) tuned.device in
      let done = on_softc (ps_restore setpower btcoex) powered.state in
      if is_negative tuned.result
      then record {
        device = failed.state;
        surveys = tuned.surveys;
        calls = before ++ (log_error ∷ unlock_mutex ∷ failed.calls);
        result = negsuc 21;
      }
      else record {
        device = done.state;
        surveys = tuned.surveys;
        calls = before ++ (powered.calls ++ (unlock_mutex ∷ done.calls));
        result = pos 0;
      }

idle-count : (c : Conf) (d : Device) → (set_idle c d).state.softc.ps_usecount ≡ d.softc.ps_usecount
unfolding set_idle
idle-count c d = ground arith

ps-count :
    (setpower : PowerMode → PowerMode → PowerMode) (c : Conf) (d : Device)
    → (set_ps setpower c d).state.softc.ps_usecount ≡ d.softc.ps_usecount
unfolding set_ps
ps-count setpower c d = ground (arith, enable-count d, disable-count setpower d)

monitor-count : (c : Conf) (d : Device) → (set_monitor c d).softc.ps_usecount ≡ d.softc.ps_usecount
unfolding set_monitor
monitor-count c d = ground arith

-- A property of both branches of a test.
on_either : {A : Type 0} (b : Bool) (P : A → Type 0) (x y : A) → P x → P y → P (if b then x else y)
on_either true P x y p q = p
on_either false P x y p q = q

power-count :
    (c : Conf) (txpow : ℕ) (d : Device)
    → (set_power_level c txpow d).state.softc.ps_usecount ≡ d.softc.ps_usecount
unfolding set_power_level
power-count c txpow d = ground arith

module _ (setpower : PowerMode → PowerMode → PowerMode) (btcoex : Bool)
    (measure : Surveys → Surveys) (measure_nf : (old : ℕ) → Surveys → Surveys) where
  retune-count :
      (a : Answers) (c : Conf) (v : Surveys) (d : Device)
      → d.softc.ps_usecount + 2 < 2 ^ 32
      → (retune setpower btcoex measure measure_nf a c v d).device.softc.ps_usecount
        ≡ d.softc.ps_usecount
  unfolding retune
  retune-count a c v d fits = ground (
    arith,
    channel-count setpower btcoex measure measure_nf a c.channel c.chan c.old_chan v d fits,
  )

  -- Whatever changes, and whether or not the channel could be set, a configuration leaves the
  -- count of users as it found it, if three more fit.
  pub config_balanced :
      (a : Answers) (txpow : ℕ) (c : Conf) (v : Surveys) (d : Device)
      → d.softc.ps_usecount + 3 < 2 ^ 32
      → (ath9k_config setpower btcoex measure measure_nf a txpow c v d).device.softc.ps_usecount
        ≡ d.softc.ps_usecount
  unfolding ath9k_config
  config_balanced a txpow c v d fits =
      let up = (on_softc (ps_wakeup setpower) d).state in
      let idled = (set_idle c up).state in
      let saved = (set_ps setpower c idled).state in
      let watched = set_monitor c saved in
      let tuned = retune setpower btcoex measure measure_nf a c v watched in
      let powered = (set_power_level c txpow tuned.device).state in
      let one : saved.softc.ps_usecount ≡ d.softc.ps_usecount + 1 =
        ps-count setpower c idled ∙ idle-count c up ∙ wakeup-count setpower d.softc (omega arith) in
      let same = monitor-count c saved ∙ one in
      let set : tuned.device.softc.ps_usecount ≡ d.softc.ps_usecount + 1 =
        retune-count a c v watched (omega (arith, same)) ∙ same in
      let failed =
        restore-count setpower btcoex tuned.device.softc d.softc.ps_usecount set (omega arith) in
      let done =
        restore-count setpower btcoex powered.softc d.softc.ps_usecount
          (power-count c txpow tuned.device ∙ set) (omega arith) in
      on_either (is_negative tuned.result)
        (λ (r : Configured). r.device.softc.ps_usecount ≡ d.softc.ps_usecount) _ _ failed done
