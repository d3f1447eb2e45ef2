-- ===== src/Driver/Operations.antt =====
-- ath9k/main.c: the shorter operations that mac80211 calls, each with the driver kept awake. The option
-- TX99 is off.
pub mod Laws
use ucsma_rate_control.Base.{
  ℕ, zero, suc, ◌+◌, ◌-◌, ◌*◌, ◌%◌, ◌^◌, Bool, true, false, not, ◌&&◌, ◌||◌, Option, none, some,
  List, [], ◌∷◌, ◌++◌, ◌==◌, ltb, leb, if◌then◌else◌, get_elem?, length,
}
use ucsma_rate_control.Base.Int.{ℤ, pos, negsuc, is_zero}
use ucsma_rate_control.Kernel.{u32}
use ucsma_rate_control.Driver.State.{
  PowerMode, Softc, Call, lock_mutex, unlock_mutex, lock_cc, unlock_cc, update_max_aggr, txq_update,
  write_eifs, log_error, set_rxfilter, read_tsf, set_tsf, reset_tsf, init_global_settings,
  aggr_start, aggr_stop, aggr_resume, start_ba_cb, stop_ba_cb, update_survey_stats,
  process_descriptor, tasklet_disable_beacon, tasklet_enable_beacon,
}
use ucsma_rate_control.Driver.Power.{Done, ps_wakeup, ps_restore}

-- `ath9k_parse_mpdudensity`
unfoldable pub parse_mpdudensity : ℕ → ℕ
parse_mpdudensity d =
    if d == 0
    then 0
    else if leb d 3
    then 1
    else if d == 4
    then 2
    else if d == 5
    then 4
    else if d == 6
    then 8
    else if d == 7
    then 16
    else 0

-- What mac80211 asks for a queue; `params->aifs` is a u8 and the rest u16.
pub record TxParams : Type 0 where
  pub aifs : ℕ
  pub cw_min : ℕ
  pub cw_max : ℕ
  pub txop : ℕ

pub record OpRun : Type 0 where
  pub softc : Softc
  pub calls : List Call
  pub result : ℤ

module _ (setpower : PowerMode → PowerMode → PowerMode) (btcoex : Bool) where
  -- `calls` between waking the driver and letting it sleep.
  unfoldable pub awake_for : List Call → Softc → Done
  awake_for calls sc =
      let up = ps_wakeup setpower sc in
      let down = ps_restore setpower btcoex up.state in
      record { state = down.state; calls = up.calls ++ (calls ++ down.calls) }

  -- `IEEE80211_AC_BE`, with the registers for the inter-frame spaces as the hardware has them.
  abbrev pub eifs_calls :
      (queue : ℕ) (eifs_equal_to_aifs : Bool) (sifs slottime aifs : ℕ) → List Call
  eifs_calls queue eifs_equal_to_aifs sifs slottime aifs =
      if queue == 2 && eifs_equal_to_aifs
      then write_eifs (u32 (sifs + aifs * slottime)) ∷ []
      else []

  -- `txq_map` holds the hardware queue of each class, `updated` is what `ath_txq_update` returns, and
  -- `IEEE80211_NUM_ACS` is 4. The map has an entry for each class.
  unfoldable pub conf_tx :
      (txq_map : List ℕ) (eifs_equal_to_aifs : Bool) (sifs slottime : ℕ) (updated : ℤ) (queue : ℕ)
      → TxParams
      → Softc
      → OpRun
  unfolding awake_for
  conf_tx txq_map eifs_equal_to_aifs sifs slottime updated queue p sc =
      let burst = p.txop * 32 in
      let qnum : ℕ = elim (get_elem? txq_map queue) [ none ↦ 0 | some q ↦ q ] in
      let calls =
        lock_mutex
          ∷ update_max_aggr burst
          ∷ txq_update qnum p.aifs p.cw_min p.cw_max burst
          ∷ (if is_zero updated then [] else log_error ∷ [])
        ++ (eifs_calls queue eifs_equal_to_aifs sifs slottime p.aifs ++ (unlock_mutex ∷ [])) in
      let done = awake_for calls sc in
      if leb 4 queue
      then record { softc = sc; calls = []; result = pos 0 }
      else record { softc = done.state; calls = done.calls; result = updated }

  unfoldable pub set_coverage_class : Softc → Done
  unfolding awake_for
  set_coverage_class sc =
      let done = awake_for (init_global_settings ∷ []) sc in
      record { state = done.state; calls = lock_mutex ∷ (done.calls ++ (unlock_mutex ∷ [])) }

  unfoldable pub configure_filter : Softc → Done
  unfolding awake_for
  configure_filter sc = awake_for (set_rxfilter ∷ []) sc

-- The actions on the aggregates of a station.
pub data AmpduAction : Type 0 where
  rx_start rx_stop tx_start tx_stop_cont tx_stop_flush tx_stop_flush_cont tx_operational :
      AmpduAction
  unknown_action : AmpduAction

module _ (setpower : PowerMode → PowerMode → PowerMode) (btcoex : Bool) where
  abbrev locked : Done → (result : ℤ) → OpRun
  locked done result = record {
    softc = done.state;
    calls = lock_mutex ∷ (done.calls ++ (unlock_mutex ∷ []));
    result = result;
  }

  abbrev pub quiet : List Call → Softc → Done
  quiet calls sc = record { state = sc; calls = calls }

  -- `started` is what `ath_tx_aggr_start` returns.
  unfoldable pub ampdu_action : AmpduAction → (started : ℤ) → Softc → OpRun
  unfolding awake_for
  ampdu_action rx_start started sc = locked (quiet [] sc) (pos 0)
  ampdu_action rx_stop started sc = locked (quiet [] sc) (pos 0)
  ampdu_action tx_start started sc =
      locked
        (awake_for setpower btcoex (aggr_start ∷ (if is_zero started then start_ba_cb ∷ [] else []))
          sc)
        started
  ampdu_action tx_stop_cont started sc =
      locked (awake_for setpower btcoex (aggr_stop ∷ stop_ba_cb ∷ []) sc) (pos 0)
  ampdu_action tx_stop_flush started sc =
      locked (awake_for setpower btcoex (aggr_stop ∷ []) sc) (pos 0)
  ampdu_action tx_stop_flush_cont started sc =
      locked (awake_for setpower btcoex (aggr_stop ∷ []) sc) (pos 0)
  ampdu_action tx_operational started sc =
      locked (awake_for setpower btcoex (aggr_resume ∷ []) sc) (pos 0)
  ampdu_action unknown_action started sc = locked (quiet (log_error ∷ []) sc) (pos 0)

  -- The three operations on the clock; a clock is a u64.
  unfoldable pub get_tsf : Softc → OpRun
  unfolding awake_for
  get_tsf sc = locked (awake_for setpower btcoex (read_tsf ∷ []) sc) (pos 0)

  unfoldable pub ath9k_set_tsf : Softc → OpRun
  unfolding awake_for
  ath9k_set_tsf sc = locked (awake_for setpower btcoex (set_tsf ∷ []) sc) (pos 0)

  unfoldable pub ath9k_reset_tsf : Softc → OpRun
  unfolding awake_for
  ath9k_reset_tsf sc = locked (awake_for setpower btcoex (reset_tsf ∷ []) sc) (pos 0)

-- A band: the places of its channels in the table of statistics.
pub record SurveyRun : Type 0 where
  pub channel : Option ℕ
  pub calls : List Call

abbrev pub not_past : (idx : ℕ) → Option (List ℕ) → Option (List ℕ)
not_past idx none = none
not_past idx (some channels) = if leb (length channels) idx then none else some channels

abbrev pub past_band : (idx : ℕ) → Option (List ℕ) → ℕ
past_band idx none = idx
past_band idx (some channels) = if leb (length channels) idx then idx - length channels else idx

abbrev pub first_band : Option (List ℕ) → Option (List ℕ) → Option (List ℕ)
first_band none other = other
first_band (some channels) other = some channels

abbrev pub in_band : (idx : ℕ) → Option (List ℕ) → Option ℕ
in_band idx none = none
in_band idx (some channels) = get_elem? channels idx

-- The place whose statistics are copied, `none` for -ENOENT.
unfoldable pub get_survey : (idx : ℕ) (band_2ghz band_5ghz : Option (List ℕ)) → SurveyRun
get_survey idx band_2ghz band_5ghz = record {
  channel = in_band (past_band idx band_2ghz) (first_band (not_past idx band_2ghz) band_5ghz);
  calls = lock_cc ∷ (if idx == 0 then update_survey_stats ∷ [] else []) ++ (unlock_cc ∷ []);
}

-- `sc->beacon`, with the first slot: whether its interface beacons and has a beacon's frame.
pub record BeaconState : Type 0 where
  pub tx_processed : Bool
  pub tx_last : Bool

pub record Slot : Type 0 where
  pub enable_beacon : Bool
  pub has_frame : Bool

pub record BeaconRun : Type 0 where
  pub beacon : BeaconState
  pub calls : List Call
  pub last : Bool

-- `in_progress` and `failed` are what the descriptor of the beacon says.
unfoldable pub tx_last_beacon :
    (edma in_progress failed : Bool) → Option Slot → BeaconState → BeaconRun
tx_last_beacon edma in_progress failed none b = record { beacon = b; calls = []; last = false }
tx_last_beacon edma in_progress failed (some s) b =
    let seen : BeaconState =
      if s.has_frame && not in_progress
      then record { tx_processed = true; tx_last = not failed }
      else b in
    let looked =
      tasklet_disable_beacon ∷ (if s.has_frame then process_descriptor ∷ [] else [])
      ++ (tasklet_enable_beacon ∷ []) in
    if not s.enable_beacon
    then record { beacon = b; calls = []; last = false }
    else if not b.tx_processed && not edma
    then record { beacon = seen; calls = looked; last = seen.tx_last }
    else record { beacon = b; calls = []; last = b.tx_last }

-- The counters that the hardware keeps and those that mac80211 asks for; each is a u32.
pub record MibStats : Type 0 where
  pub ackrcv_bad : ℕ
  pub rts_bad : ℕ
  pub fcs_bad : ℕ
  pub rts_good : ℕ

pub record LowLevelStats : Type 0 where
  pub dot11_ack_failure_count : ℕ
  pub dot11_rts_failure_count : ℕ
  pub dot11_fcs_error_count : ℕ
  pub dot11_rts_success_count : ℕ

unfoldable pub get_stats : MibStats → LowLevelStats
get_stats m = record {
  dot11_ack_failure_count = m.ackrcv_bad;
  dot11_rts_failure_count = m.rts_bad;
  dot11_fcs_error_count = m.fcs_bad;
  dot11_rts_success_count = m.rts_good;
}
