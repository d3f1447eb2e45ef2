-- ===== src/Driver/Channel.antt =====
-- ath9k/main.c: `ath_set_channel` and the scan of the spectrum, in the mode that scans channels. The option TX99 is off.
pub mod InUse
pub mod Users
use ucsma_rate_control.Base.{
  ℕ, zero, suc, ◌+◌, ◌*◌, ◌/◌, ◌<◌, ◌^◌, ◌≡◌, refl, ◌∙◌, Bool, true, false, not, ◌&&◌, ◌||◌, Option,
  none, some, List, [], ◌∷◌, ◌++◌, arith, ◌==◌, if◌then◌else◌,
}
use ucsma_rate_control.Base.Int.{ℤ, pos, negsuc, is_zero, is_negative}
use ucsma_rate_control.Driver.State.{
  PowerMode, Softc, Call, lock_cc, unlock_cc, lock_mutex, unlock_mutex, lock_pm, unlock_pm,
  get_channel, update_survey, update_survey_nf, set_radar_params, set_rxfilter, spectral_config,
  spectral_trigger, start_btcoex, stop_btcoex, update_txpow, log_error,
}
use ucsma_rate_control.Driver.Power.{ps_wakeup, ps_restore, wakeup-count, restore-count}
use ucsma_rate_control.Driver.Device.{
  Device, Ran, Answers, Reset, on_softc, only, ◌then_run◌, ath_cancel_work, ath_reset_internal,
}

-- A channel's statistics: whether the channel is in use, and what else was measured.
pub record Survey : Type 0 where
  pub in_use : Bool
  pub stats : ℕ

abbrev pub no_survey : Survey
no_survey = record { in_use = false; stats = 0 }

-- Each entry of the table at an index.
abbrev pub change_at : (Survey → Survey) → List Survey → ℕ → List Survey
change_at f [] i = []
change_at f (s ∷ table) zero = f s ∷ table
change_at f (s ∷ table) (suc i) = s ∷ change_at f table i

abbrev pub in_use_at : List Survey → ℕ → Bool
in_use_at [] i = false
in_use_at (s ∷ table) zero = s.in_use
in_use_at (s ∷ table) (suc i) = in_use_at table i

pub release_survey : Survey → Survey
release_survey s = record s { in_use = false }

pub claim_survey : Survey → Survey
claim_survey s = record { in_use = true; stats = 0 }

pub clear_survey : Survey → Survey
clear_survey s = no_survey

-- The table with the index of the channel in use, if any.
pub record Surveys : Type 0 where
  pub table : List Survey
  pub cur_survey : Option ℕ

abbrev pub is_current : Option ℕ → ℕ → Bool
is_current none i = false
is_current (some c) i = c == i

pub release_current : Option ℕ → List Survey → List Survey
unfolding release_survey
release_current none table = table
release_current (some c) table = change_at release_survey table c

-- The flags when the channel changes to `chan`.
pub switch_survey : (offchannel : Bool) (chan : ℕ) → Surveys → Surveys
unfolding release_current claim_survey clear_survey
switch_survey offchannel chan v =
    let claimed : Surveys = record {
      table = change_at claim_survey (release_current v.cur_survey v.table) chan;
      cur_survey = some chan;
    } in
    let cleared : Surveys = record v { table = change_at clear_survey v.table chan } in
    if not offchannel && not (is_current v.cur_survey chan)
    then claimed
    else if not (in_use_at v.table chan)
    then cleared
    else v

-- What the configuration says besides: whether the radio is off the operating channel, whether radar is
-- looked for, and whether a scan of the spectrum is on.
pub record ChannelConf : Type 0 where
  pub offchannel : Bool
  pub radar_enabled : Bool
  pub chan_scan : Bool
  pub has_spectral : Bool

pub record Tuned : Type 0 where
  pub device : Device
  pub surveys : Surveys
  pub calls : List Call
  pub result : ℤ

-- `measure` and `measure_nf` are what the two functions that read the chip's counters make of the table.
module _ (setpower : PowerMode → PowerMode → PowerMode) (btcoex : Bool)
    (measure : Surveys → Surveys) (measure_nf : (old : ℕ) → Surveys → Surveys) where
  -- The scan is configured and triggered, with users of its own.
  unfoldable pub ath9k_spectral_scan_trigger : ChannelConf → Device → Ran
  ath9k_spectral_scan_trigger conf d =
      let up = on_softc (ps_wakeup setpower) d in
      let again = on_softc (ps_wakeup setpower) up.state in
      let down = on_softc (ps_restore setpower btcoex) again.state in
      let last = on_softc (ps_restore setpower btcoex) down.state in
      if not conf.has_spectral then record { state = d; calls = log_error ∷ [] } else record {
        state = last.state;
        calls =
            up.calls
            ++ (set_rxfilter
                ∷ (again.calls
                    ++ (spectral_config ∷ (down.calls ++ (spectral_trigger ∷ last.calls)))));
      }

  -- After the reset, on the table of before.
  unfoldable pub after_reset : ChannelConf → (old : Option ℕ) → Surveys → Device → Tuned
  unfolding ath9k_spectral_scan_trigger
  after_reset conf old v d =
      let scan = ath9k_spectral_scan_trigger conf d in
      let noted : Surveys × List Call = elim old [
        | none ↦ (v, [])
        | some i ↦ (measure_nf i v, update_survey_nf ∷ [])
      ] in
      let (table, first) = noted in
      if conf.radar_enabled
      then record {
        device = d;
        surveys = table;
        calls = first ++ (set_radar_params ∷ set_rxfilter ∷ []);
        result = pos 0;
      }
      else if conf.chan_scan
      then record {
        device = scan.state;
        surveys = table;
        calls = first ++ scan.calls;
        result = pos 0;
      }
      else record { device = d; surveys = table; calls = first; result = pos 0 }

  -- `old` is the index of the channel that the chip is on.
  unfoldable pub ath_set_channel :
      Answers → ChannelConf → (chan : ℕ) (old : Option ℕ) → Surveys → Device → Tuned
  unfolding switch_survey after_reset
  ath_set_channel a conf chan old v d =
      let tuned = record d { offchannel = conf.offchannel } in
      let switched = switch_survey conf.offchannel chan (measure v) in
      let r = ath_reset_internal a true tuned in
      let done = after_reset conf old switched r.state in
      let start = lock_cc ∷ update_survey ∷ unlock_cc ∷ get_channel ∷ r.calls in
      if d.op_invalid
      then record { device = d; surveys = v; calls = []; result = negsuc 4 }
      else if not (is_zero r.result)
      then record { device = r.state; surveys = switched; calls = start; result = r.result }
      else record {
        device = done.device;
        surveys = done.surveys;
        calls = start ++ done.calls;
        result = pos 0;
      }
