-- ===== src/Driver/Tests/Settings.antt =====
-- ath9k/main.c: antennas, interfaces, keys and the configuration at concrete inputs.
use ucsma_rate_control.Base.{
  zero, suc, ◌≡◌, ◌⊎◌, refl, true, false, some, [], ◌∷◌, ◌++◌, replicate, arith, ◌&&◌,
  if◌then◌else◌,
}
use ucsma_rate_control.Base.Int.{pos, pos_part, int_gt}
use ucsma_rate_control.Driver.Antenna.{
  fill_chainmask, set_bits, deposit, fill_chainmask-deposit, Antennas,
}
use ucsma_rate_control.Driver.Interfaces.{
  ap_if, station_if, Vif, Radio, ath9k_calculate_summary_state, ath9k_add_interface,
  ath9k_remove_interface,
}
use ucsma_rate_control.Driver.Interfaces.Summary.{ModeEnd, summary-ModeEnd}
use ucsma_rate_control.Driver.Interfaces.Lifecycle.{Undone, add_remove-Undone}
use ucsma_rate_control.Driver.Keys.{Station, Key, ccmp, KeyMode, ath9k_sta_add, ath9k_sta_remove}
use ucsma_rate_control.Driver.Keys.Laws.{add_remove_station}
use ucsma_rate_control.Driver.State.{key_delete, node_cleanup}
use ucsma_rate_control.Driver.Channel.{ChannelConf, Surveys, is_current, switch_survey}
use ucsma_rate_control.Driver.Channel.InUse.{InUse, switch_survey-InUse}
use ucsma_rate_control.Driver.Configure.{Conf, ath9k_config, config_balanced}
use ucsma_rate_control.Driver.Tests.{obedient}
use ucsma_rate_control.Driver.Tests.Running.{running, good}

fill_chainmask-deposit_example : fill_chainmask 5 3 ≡ some (deposit (set_bits 32 0 5) 3)
fill_chainmask-deposit_example = fill_chainmask-deposit 5 3 (omega arith)

-- The hardware has the chains 0 and 2; asked for two, it uses both.
two_chains : fill_chainmask 5 3 ≡ some 5
unfolding fill_chainmask
two_chains = refl

abbrev three_chains : Antennas
three_chains = record {
  is_ar9300 = true;
  is_ar9100 = false;
  caps_rx = 7;
  caps_tx = 5;
  ant_rx = 7;
  ant_tx = 7;
  rxchainmask = 7;
  txchainmask = 5;
}

abbrev pub first_vif : Vif
first_vif = record {
  number = 1;
  if_type = station_if;
  addr = replicate 47 false ++ (true ∷ []);
  primary_sta_vif = true;
  bssid = replicate 48 true;
  aid = 1;
}

abbrev pub second_vif : Vif
second_vif = record first_vif {
  number = 2;
  if_type = ap_if;
  addr = replicate 46 false ++ (true ∷ true ∷ []);
}

abbrev pub radio : Radio
radio = record {
  device = running;
  macaddr = replicate 48 false;
  bssidmask = replicate 48 true;
  nvifs = 1;
  tsfadjust = false;
  curbssid = replicate 48 false;
  curaid = 0;
  rssi_unknown = false;
  p2p_ps_vif = 0;
}

summary-ModeEnd_example :
    ModeEnd
      (first_vif ∷ second_vif ∷ [])
      (ath9k_calculate_summary_state (first_vif ∷ []) (second_vif ∷ []) radio).state
summary-ModeEnd_example = summary-ModeEnd (first_vif ∷ []) (second_vif ∷ []) radio

add_remove-Undone_example :
    let added = (ath9k_add_interface obedient false second_vif (first_vif ∷ []) radio).state in
    ModeEnd (second_vif ∷ first_vif ∷ []) added
    × Undone obedient false
        (first_vif ∷ [])
        radio
        (ath9k_remove_interface obedient false second_vif (first_vif ∷ []) added).state
add_remove-Undone_example =
    add_remove-Undone obedient false second_vif (first_vif ∷ []) radio (omega arith) (omega arith)

-- A station whose entries hold what was there before it.
abbrev newcomer : Station
newcomer = record { ps_key = 0; key_idx = 9 ∷ 4 ∷ 0 ∷ 0 ∷ []; sleeping = false }

abbrev pub pair_key : Key
pair_key = record {
  cipher = ccmp;
  pairwise = true;
  hw_key_idx = 0;
  generate_iv = false;
  generate_mmic = false;
  sw_mgmt_tx = false;
}

abbrev pub key_mode : KeyMode
key_mode = record { nohwcrypt = false; is_ibss = false; sw_mgmt_crypto = true }

abbrev surveys : Surveys
surveys = record {
  table =
      record { in_use = false; stats = 3 }
      ∷ record { in_use = true; stats = 8 }
      ∷ record { in_use = false; stats = 1 }
      ∷ [];
  cur_survey = some 1;
}

surveys_InUse : InUse surveys
unfolding InUse
surveys_InUse zero = refl
surveys_InUse (suc zero) = refl
surveys_InUse (suc (suc zero)) = refl
surveys_InUse (suc (suc (suc i))) = ground arith

switch_survey-InUse_example :
    InUse (switch_survey false 2 surveys)
    × ((false ≡ true) ⊎ (is_current (switch_survey false 2 surveys).cur_survey 2 ≡ true))
switch_survey-InUse_example = switch_survey-InUse false 2 surveys surveys_InUse

abbrev away : ChannelConf
away = record { offchannel = true; radar_enabled = false; chan_scan = true; has_spectral = true }

abbrev conf : Conf
conf = record {
  change_idle = true;
  change_ps = true;
  change_monitor = true;
  change_channel = true;
  change_power = true;
  idle = false;
  ps = true;
  monitor = true;
  power_level = pos 20;
  max_antenna_gain = 3;
  chip_fullsleep = true;
  channel = away;
  chan = 2;
  old_chan = some 1;
}

config_balanced_example :
    (ath9k_config obedient false
      (λ v. v)
      (λ i v. v)
      good
      30
      conf
      surveys
      running).device.softc.ps_usecount
    ≡ 0
config_balanced_example =
    config_balanced obedient false (λ v. v) (λ i v. v) good 30 conf surveys running (omega arith)

add_remove_station_example :
    let removed = ath9k_sta_remove (ath9k_sta_add true (pos 7) newcomer).state in
    (removed.state.ps_key ≡ 0)
    × (removed.state.key_idx ≡ 0 ∷ 0 ∷ 0 ∷ 0 ∷ [])
    × (removed.calls
        ≡ (if true && int_gt (pos 7) 0 then key_delete (pos_part (pos 7)) ∷ [] else [])
          ++ (node_cleanup ∷ []))
add_remove_station_example = add_remove_station true (pos 7) newcomer refl refl
