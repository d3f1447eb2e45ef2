-- ===== src/Driver/Device/StartStop.antt =====
-- ath9k/main.c: `ath9k_start` and `ath9k_stop`.
use ucsma_rate_control.Base.{
  Bool, true, false, not, ◌&&◌, Option, none, some, [], ◌∷◌, ◌++◌, if◌then◌else◌,
}
use ucsma_rate_control.Base.Int.{is_zero}
use ucsma_rate_control.Driver.State.{
  PowerMode, lock_mutex, unlock_mutex, lock_pcu, unlock_pcu, config_pci, get_channel,
  reset_intr_ref, hw_reset, mci_enable, led_on, led_off, init_crypto, reset_tsf, disable_interrupts,
  synchronize_irq, kill_tasklet, kill_beacon_tasklet, free_frag, phy_disable,
}
use ucsma_rate_control.Driver.Power.{ps_wakeup, ps_restore}
use ucsma_rate_control.Driver.Device.{
  Ints, Device, Ran, Answers, on_softc, only, ath_cancel_work, ath_prepare_reset,
  ath_complete_reset, ◌then_run◌,
}
use ucsma_rate_control.Driver.Device.Tasklet.{TaskletInputs, ath9k_tasklet}

-- The interrupts asked for when the driver starts.
unfoldable pub start_mask : Device → Ints
start_mask d = record {
  global = true;
  fatal = true;
  bb_watchdog = d.hang_watchdog;
  rxorn = true;
  rxeol = true;
  rx = not d.cap_edma;
  rxlp = d.cap_edma;
  rxhp = d.cap_edma;
  tx = true;
  bmiss = false;
  cst = d.cap_ht;
  gtt = d.is_ar9300;
  tsfoor = false;
  gentimer = false;
  mci = false;
  swba = false;
  txurn = false;
  tim_timer = false;
}

-- Between the locks; the function returns 0 whatever the reset answered.
unfoldable pub start_locked : Answers → Device → Ran
unfolding start_mask ath_complete_reset
start_locked a d =
    let masked = record d {
      imask = start_mask d;
      op_invalid = false;
      is_monitoring = false;
      reset_power_on = d.reset_power_on && is_zero a.reset_status;
    } in
    let completed = ath_complete_reset a false masked in
    record {
      state = record completed.state {
        reset_power_on = completed.state.reset_power_on && completed.done;
      };
      calls =
          reset_intr_ref ∷ hw_reset false a.reset_status ∷ mci_enable ∷ completed.calls
          ++ ((if d.has_led then led_on ∷ [] else []) ++ init_crypto ∷ reset_tsf ∷ []);
    }

module _ (setpower : PowerMode → PowerMode → PowerMode) (btcoex : Bool) where
  unfoldable pub ath9k_start : Answers → Device → Ran
  unfolding start_locked
  ath9k_start a d =
      on_softc (ps_wakeup setpower) d
      then_run only (lock_mutex ∷ get_channel ∷ config_pci false ∷ lock_pcu ∷ [])
      then_run start_locked a
      then_run only (unlock_pcu ∷ unlock_mutex ∷ [])
      then_run on_softc (ps_restore setpower btcoex)

-- From `ps_idle = true` on, up to the release of the lock.
unfoldable pub halt : Answers → Device → Ran
unfolding ath_prepare_reset
halt a d = record {
  state = record d {
    softc = record d.softc { ps_idle = true };
    rx_frag = false;
    has_curchan = true;
  };
  calls =
      lock_pcu ∷ (if d.has_led then led_off ∷ [] else [])
      ++ (ath_prepare_reset a d
          ++ ((if d.rx_frag then free_frag ∷ [] else [])
              ++ ((if d.has_curchan then [] else get_channel ∷ [])
                  ++ hw_reset false a.reset_status
                    ∷ phy_disable
                    ∷ config_pci true
                    ∷ unlock_pcu
                    ∷ [])));
}

-- The interrupts are masked and off before anything else, and a handler that runs has ended.
unfoldable pub silence : Device → Ran
silence d = record {
  state = record d { imask = record d.imask { global = false } };
  calls = lock_pcu ∷ disable_interrupts false ∷ unlock_pcu ∷ synchronize_irq ∷ [];
}

module _ (setpower : PowerMode → PowerMode → PowerMode) (btcoex : Bool) where
  -- `waiting` is there where the tasklet waits, and is what the chip answers to it: the kernel lets a
  -- waiting tasklet run before it kills it.
  unfoldable pub kill_tasklets : (waiting : Option TaskletInputs) → Device → Ran
  kill_tasklets none d = only (kill_tasklet ∷ kill_beacon_tasklet ∷ []) d
  kill_tasklets (some inp) d =
      only (kill_tasklet ∷ []) d
      then_run ath9k_tasklet setpower btcoex inp
      then_run only (kill_beacon_tasklet ∷ [])

  unfoldable pub stop_present : (waiting : Option TaskletInputs) → Answers → Device → Ran
  unfolding silence kill_tasklets halt
  stop_present waiting a d =
      let r =
        on_softc (ps_wakeup setpower) d
        then_run silence
        then_run kill_tasklets waiting
        then_run halt a
        then_run on_softc (ps_restore setpower btcoex) in
      record r {
        state = record r.state {
          op_invalid = true;
          softc = record r.state.softc { ps_idle = d.softc.ps_idle };
        };
      }

  unfoldable pub ath9k_stop : (waiting : Option TaskletInputs) → Answers → Device → Ran
  unfolding stop_present ath_cancel_work
  ath9k_stop waiting a d =
      let stopped = stop_present waiting a d in
      let start = lock_mutex ∷ ath_cancel_work d in
      if d.op_invalid
      then record { state = d; calls = start ++ unlock_mutex ∷ [] }
      else record { state = stopped.state; calls = start ++ (stopped.calls ++ unlock_mutex ∷ []) }
