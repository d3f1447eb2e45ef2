-- ===== src/Driver/Tests.antt =====
-- ath9k/main.c at concrete inputs.
mod Running
mod Settings
mod Bringing
mod Network
use ucsma_rate_control.Base.{
  ◌+◌, ◌≤◌, ◌≡◌, ◌⊎◌, refl, true, false, not, ◌&&◌, ◌||◌, none, List, [], ◌∷◌, arith, ltb,
  if◌then◌else◌,
}
use ucsma_rate_control.Base.Int.{pos, negsuc}
use ucsma_rate_control.Unlock.{cw_val}
use ucsma_rate_control.Driver.State.{
  PowerMode, awake, network_sleep, PsFlags, Softc, get_txq_props, set_txq_props, reset_tx_queue,
}
use ucsma_rate_control.Driver.Window.{
  cw_for, ath_cw_update, returned, cw_for-cw_val, ath_cw_update_lem,
}
use ucsma_rate_control.Driver.Power.{
  is_awake, must_wait, ps_restore, Op, wakeup, restore, expire, apply_all, users_after, IsServed,
  apply_all-IsServed, restore_waiting,
}
use ucsma_rate_control.Driver.Transmit.{Frame, handed_over, freed, is_full_sleep, ath9k_tx}
use ucsma_rate_control.Driver.Transmit.Once.{frees, starts, failures, tx_fate}
use ucsma_rate_control.Driver.Transmit.Waking.{tx_wakes}

-- Hardware that takes every mode asked for.
abbrev pub obedient : PowerMode → PowerMode → PowerMode
obedient requested current = requested

pub obedient_wakes : (m : PowerMode) → is_awake (obedient awake m) ≡ true
obedient_wakes m = refl

abbrev pub no_flags : PsFlags
no_flags = record {
  wait_for_beacon = false;
  wait_for_cab = false;
  wait_for_pspoll_data = false;
  wait_for_tx_ack = false;
  beacon_sync = false;
  wait_for_ani = false;
}

abbrev pub asleep : Softc
asleep = record {
  ps_usecount = 0;
  ps_flags = no_flags;
  ps_enabled = true;
  ps_idle = false;
  power_mode = network_sleep;
  sleep_timer = true;
  cap_autosleep = false;
  exports = record { txbuf_fff = none; buf_counter = pos 0; has_changed = 0 };
}

abbrev data_frame : Frame
data_frame = record {
  is_data = true;
  is_nullfunc = false;
  has_pm = false;
  is_pspoll = false;
  priority = 0;
}

abbrev two_users : List Op
two_users = wakeup ∷ expire ∷ wakeup ∷ restore false ∷ []

apply_all-IsServed_example :
    IsServed (apply_all obedient two_users asleep) (users_after two_users 0)
apply_all-IsServed_example =
    apply_all-IsServed obedient obedient_wakes two_users asleep (omega arith) refl

tx_fate_example :
    let t = ath9k_tx obedient false (1 ∷ 2 ∷ []) false data_frame asleep in
    let down = is_full_sleep t.state.power_mode in
    (starts t.calls ≡ (if down then 0 else 1))
    × (frees t.calls ≡ (if not down && false then 0 else 1))
    × (failures t.calls ≡ (if down || false then 0 else 1))
    × (t.fate ≡ (if not down && false then handed_over else freed))
tx_fate_example = tx_fate obedient false false (1 ∷ 2 ∷ []) data_frame asleep

tx_wakes_example :
    let t = ath9k_tx obedient false (1 ∷ 2 ∷ []) true data_frame asleep in
    (is_awake t.state.power_mode ≡ true)
    × (starts t.calls ≡ 1)
    × (t.fate ≡ (if true then handed_over else freed))
tx_wakes_example =
    tx_wakes obedient false true (1 ∷ 2 ∷ []) data_frame asleep obedient_wakes refl refl

cw_for-cw_val_example :
    (cw_for 66 ≡ (if ltb 40 66 then 511 else cw_val (pos 66)))
    × ((cw_for 66 ≡ 1)
        ⊎ ((cw_for 66 ≡ 3) ⊎ ((cw_for 66 ≡ 7) ⊎ ((cw_for 66 ≡ 15) ⊎ (cw_for 66 ≡ 511)))))
cw_for-cw_val_example = cw_for-cw_val 66
