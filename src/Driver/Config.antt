-- ===== src/Driver/Config.antt =====
-- ath9k/main.c: turning power saving on and off. The option TX99 is off.
use ucsma_rate_control.Base.{◌≡◌, ◌⊎◌, Bool, true, false, [], ◌∷◌, ◌++◌, arith, if◌then◌else◌}
use ucsma_rate_control.Driver.State.{
  PowerMode, awake, PsFlags, set_power, set_rx_abort, set_interrupts,
}
use ucsma_rate_control.Driver.Power.{ps_restore, is_awake}
use ucsma_rate_control.Driver.Device.{Device, Ran}

-- The timer interrupt of the beacons is asked for, or no more.
with_tim : Bool → Device → Device
with_tim on d = record d { imask = record d.imask { tim_timer = on } }

pub ath9k_enable_ps : Device → Ran
unfolding with_tim
ath9k_enable_ps d =
    let enabled = record d { softc = record d.softc { ps_enabled = true } } in
    if d.softc.cap_autosleep
    then record { state = enabled; calls = [] }
    else if d.imask.tim_timer
    then record { state = enabled; calls = set_rx_abort true ∷ [] }
    else record { state = with_tim true enabled; calls = set_interrupts ∷ set_rx_abort true ∷ [] }

-- The flags of what is awaited, but not that of the calibration.
wait_no_more : PsFlags → PsFlags
wait_no_more f = record f {
  wait_for_beacon = false;
  wait_for_cab = false;
  wait_for_pspoll_data = false;
  wait_for_tx_ack = false;
}

module _ (setpower : PowerMode → PowerMode → PowerMode) where
  pub ath9k_disable_ps : Device → Ran
  unfolding with_tim wait_no_more
  ath9k_disable_ps d =
      let woken = record d {
        softc = record d.softc {
          ps_enabled = false;
          power_mode = setpower awake d.softc.power_mode;
        };
      } in
      let free = record woken {
        softc = record woken.softc { ps_flags = wait_no_more woken.softc.ps_flags };
      } in
      let start = set_power awake ∷ [] in
      if d.softc.cap_autosleep
      then record { state = woken; calls = start }
      else if d.imask.tim_timer
      then record {
        state = with_tim false free;
        calls = start ++ (set_rx_abort false ∷ set_interrupts ∷ []);
      }
      else record { state = free; calls = start ++ (set_rx_abort false ∷ []) }

-- The interrupt of the timer is asked for exactly while power saving is on, on a chip that does not sleep
-- by itself.
pub TimFollows : Device → Type 0
TimFollows d = (d.softc.cap_autosleep ≡ true) ⊎ (d.imask.tim_timer ≡ d.softc.ps_enabled)

-- With hardware that is awake when it was asked to be, and unless the chip sleeps by itself,
-- turning power saving on or off leaves the timer's interrupt asked for exactly while it is on;
-- turning it off wakes the chip, the next restore does not put it to sleep, and the count of
-- users is unchanged by the turning off.
pub ps_toggle :
    (setpower : PowerMode → PowerMode → PowerMode) (btcoex : Bool) (d : Device)
    → ((m : PowerMode) → is_awake (setpower awake m) ≡ true)
    → let off = (ath9k_disable_ps setpower d).state in
      TimFollows (ath9k_enable_ps d).state
      × TimFollows off
      × (is_awake (ps_restore setpower btcoex off.softc).state.power_mode ≡ true)
      × (off.softc.ps_usecount ≡ d.softc.ps_usecount)
unfolding TimFollows ath9k_enable_ps ath9k_disable_ps with_tim wait_no_more ps_restore
ps_toggle setpower btcoex d wakes =
    (ground arith, ground arith, ground (arith, wakes d.softc.power_mode), ground arith)

-- Neither changes the count of users.
pub enable-count : (d : Device) → (ath9k_enable_ps d).state.softc.ps_usecount ≡ d.softc.ps_usecount
unfolding ath9k_enable_ps with_tim
enable-count d = ground arith

pub disable-count :
    (setpower : PowerMode → PowerMode → PowerMode) (d : Device)
    → (ath9k_disable_ps setpower d).state.softc.ps_usecount ≡ d.softc.ps_usecount
unfolding ath9k_disable_ps with_tim wait_no_more
disable-count setpower d = ground arith
