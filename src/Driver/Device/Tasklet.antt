-- ===== src/Driver/Device/Tasklet.antt =====
-- ath9k/main.c: `ath9k_tasklet`, which does the work of an interrupt.
use ucsma_rate_control.Base.{
  ℕ, ◌+◌, ◌%◌, Bool, true, false, not, ◌&&◌, ◌||◌, [], ◌∷◌, ◌++◌, leb, if◌then◌else◌,
}
use ucsma_rate_control.Driver.State.{
  PowerMode, lock_pm, unlock_pm, lock_pcu, unlock_pcu, lock_cc, unlock_cc, update_cycle_counters,
  check_watchdog, check_alive, inc_intr_ref, rx_tasklet, tx_tasklet, tx_edma_tasklet, wake_tx_wait,
  gen_timer_isr, btcoex_interrupt, enable_interrupts,
}
use ucsma_rate_control.Driver.Power.{ps_wakeup, ps_restore}
use ucsma_rate_control.Driver.Device.{
  Ints, Device, Ran, on_softc, only, ath9k_queue_reset, ◌then_run◌,
}

-- What the chip answers: whether the watchdog wants a reset, and whether it is alive.
pub record TaskletInputs : Type 0 where
  pub watchdog_fired : Bool
  pub alive : Bool

abbrev pub max_gtt_cnt : ℕ
max_gtt_cnt = 5

-- A reset is queued, and the reference of the interrupts is given back without enabling them.
unfoldable pub skip_interrupts : Device → Ran
unfolding ath9k_queue_reset
skip_interrupts d =
    let queued = ath9k_queue_reset d in
    record { state = queued.state; calls = queued.calls ++ inc_intr_ref ∷ [] }

sync_beacon : Ints → Device → Device
sync_beacon s d =
    if s.tsfoor && d.softc.ps_enabled
    then record d {
      softc = record d.softc {
        ps_flags = record d.softc.ps_flags { wait_for_beacon = true; beacon_sync = true };
      };
    }
    else d

has_rx : Bool → Ints → Bool
has_rx edma s = if edma then s.rxhp || s.rxlp || s.rxeol || s.rxorn else s.rx || s.rxeol || s.rxorn

-- Receiving, sending and the timers, and the interrupts on again.
unfoldable pub serve : Ints → Device → Ran
unfolding sync_beacon has_rx
serve s d =
    let synced = sync_beacon s d in
    record {
      state = if s.tx && d.cap_edma then record synced { gtt_cnt = 0 } else synced;
      calls =
          lock_pm
            ∷ unlock_pm
            ∷ (if has_rx d.cap_edma s
                then (if d.cap_edma && s.rxhp then rx_tasklet true ∷ [] else [])
                  ++ rx_tasklet false ∷ []
                else [])
          ++ ((if s.tx
                then (if d.cap_edma then tx_edma_tasklet else tx_tasklet) ∷ wake_tx_wait ∷ []
                else [])
              ++ ((if s.gentimer then gen_timer_isr ∷ [] else [])
                  ++ btcoex_interrupt ∷ enable_interrupts d.imask.global ∷ []));
    }

-- The test of the transmit timeouts, whose count is a u8.
unfoldable pub after_watchdog : TaskletInputs → Ints → Device → Ran
unfolding skip_interrupts serve
after_watchdog inp s d =
    let counted = record d { gtt_cnt = (d.gtt_cnt + 1) % 256 } in
    let hung = leb max_gtt_cnt counted.gtt_cnt in
    if not s.gtt
    then serve s d
    else if hung && not inp.alive
    then only (check_alive ∷ []) counted then_run skip_interrupts
    else only (if hung then check_alive ∷ [] else []) counted then_run serve s

-- The test of the watchdog.
unfoldable pub after_fatal : TaskletInputs → Ints → Device → Ran
unfolding skip_interrupts after_watchdog
after_fatal inp s d =
    let debug = lock_cc ∷ update_cycle_counters ∷ unlock_cc ∷ check_watchdog ∷ [] in
    if not (d.hang_watchdog && s.bb_watchdog)
    then after_watchdog inp s d
    else if inp.watchdog_fired
    then only debug d then_run skip_interrupts
    else only debug d then_run after_watchdog inp s

-- Between the locks, on the status that the interrupt handler cached.
unfoldable pub tasklet_locked : TaskletInputs → Ints → Device → Ran
unfolding skip_interrupts after_fatal
tasklet_locked inp s d = if s.fatal then skip_interrupts d else after_fatal inp s d

module _ (setpower : PowerMode → PowerMode → PowerMode) (btcoex : Bool) where
  unfoldable pub ath9k_tasklet : TaskletInputs → Device → Ran
  unfolding tasklet_locked
  ath9k_tasklet inp d =
      on_softc (ps_wakeup setpower) d
      then_run only (lock_pcu ∷ [])
      then_run tasklet_locked inp d.intrstatus
      then_run only (unlock_pcu ∷ [])
      then_run on_softc (ps_restore setpower btcoex)
