-- ===== src/Driver/Tests/Running.antt =====
-- ath9k/main.c: interrupts, resets and the flush at concrete inputs.
use ucsma_rate_control.Base.{◌≡◌, refl, inl, inr, true, false, some, [], ◌∷◌}
use ucsma_rate_control.Base.Int.{pos}
use ucsma_rate_control.Driver.Device.{Ints, station, Device, Answers, ath_reset_work}
use ucsma_rate_control.Driver.Device.Isr.{IsrInputs, irq_none, ath_isr}
use ucsma_rate_control.Driver.Device.Tasklet.{TaskletInputs}
use ucsma_rate_control.Driver.Device.StartStop.{ath9k_start, ath9k_stop}
use ucsma_rate_control.Driver.Device.Gate.{Gate, enter, replay}
use ucsma_rate_control.Driver.Device.Sound.{IsSound}
use ucsma_rate_control.Driver.Device.Outcomes.{Leaves}
use ucsma_rate_control.Driver.Device.Events.{
  interrupt, run_event, Reach, here, next, event-Leaves, Reach-IsSound, Recovers, recover,
  sound-Recovers,
}
use ucsma_rate_control.Driver.Device.Halting.{start_outcome, reset_stuck}
use ucsma_rate_control.Driver.Device.Stopping.{Stopped, stop_silences}
use ucsma_rate_control.Driver.Tests.{obedient, asleep}

abbrev no_ints : Ints
no_ints = record {
  global = true;
  fatal = false;
  bb_watchdog = false;
  rxorn = false;
  rxeol = false;
  rx = false;
  rxlp = false;
  rxhp = false;
  tx = false;
  bmiss = false;
  cst = false;
  gtt = false;
  tsfoor = false;
  gentimer = false;
  mci = false;
  swba = false;
  txurn = false;
  tim_timer = false;
}

abbrev pub running : Device
running = record {
  softc = asleep;
  op_invalid = false;
  op_hw_reset = false;
  op_beacons = true;
  op_prim_sta_vif = true;
  diag_trigger_error = false;
  imask = record no_ints { rx = true; tx = true; fatal = true };
  intrstatus = no_ints;
  gtt_cnt = 0;
  opmode = station;
  offchannel = false;
  curtxpow = 40;
  txpowlimit = 60;
  max_antenna_gain = 3;
  cur_power_level = 20;
  txqs = record { is_setup = true; axq_depth = 2; acq_empty = true } ∷ [];
  cap_edma = false;
  cap_ht = true;
  hang_watchdog = true;
  is_ar9300 = false;
  has_pll_work = true;
  mci_enabled = false;
  has_led = true;
  has_curchan = true;
  rx_frag = false;
  reset_power_on = true;
  is_monitoring = false;
}

abbrev pub good : Answers
good = record {
  drained = true;
  recv_stopped = true;
  reset_status = pos 0;
  recv_started = true;
  txpow = 40;
}

abbrev deaf : Answers
deaf = record good { recv_started = false }

abbrev open_gate : Gate
open_gate = record { off = 0; on = true; tasklet = false; work = false }

running-IsSound : IsSound running open_gate
running-IsSound = record {
  asked = refl;
  present = refl;
  balanced = refl;
  alive = inl refl;
  apart = inr refl;
  marked = inl refl;
}

abbrev fatal_interrupt : IsrInputs
fatal_interrupt = record { pending = true; status = record no_ints { fatal = true } }

abbrev calm : TaskletInputs
calm = record { watchdog_fired = false; alive = true }

-- A fatal interrupt turns the interrupts off and schedules the tasklet.
abbrev seen : Device
seen = (run_event obedient false (interrupt fatal_interrupt) running).state

abbrev waiting_gate : Gate
waiting_gate = record { off = 1; on = false; tasklet = true; work = false }

fatal_seen :
    replay (run_event obedient false (interrupt fatal_interrupt) running).calls open_gate
    ≡ some waiting_gate
unfolding run_event ath_isr replay enter
fatal_seen = refl

one_interrupt : Reach obedient false running open_gate seen waiting_gate
one_interrupt = next here (interrupt fatal_interrupt) (inr refl) waiting_gate fatal_seen

Reach-IsSound_example : IsSound seen waiting_gate
Reach-IsSound_example = Reach-IsSound obedient false running-IsSound one_interrupt

event-Leaves_example :
    Leaves
      (run_event obedient false (interrupt fatal_interrupt) running).state
      (replay (run_event obedient false (interrupt fatal_interrupt) running).calls open_gate)
event-Leaves_example =
    event-Leaves obedient false (interrupt fatal_interrupt) running open_gate running-IsSound
      (inr refl)

seen-IsSound : IsSound seen waiting_gate
seen-IsSound = Reach-IsSound obedient false running-IsSound one_interrupt

sound-Recovers_example : Recovers (recover obedient false calm good seen waiting_gate)
sound-Recovers_example = sound-Recovers obedient false calm good seen waiting_gate refl seen-IsSound

abbrev cold_gate : Gate
cold_gate = record { off = 3; on = false; tasklet = false; work = false }

start_outcome_example :
    let r = ath9k_start obedient false good (record running { op_invalid = true }) in
    (replay r.calls cold_gate ≡ some (record cold_gate { off = 0; on = true }))
    × IsSound r.state (record cold_gate { off = 0; on = true })
start_outcome_example =
    start_outcome obedient false good (record running { op_invalid = true }) cold_gate refl refl

-- The tasklet of the fatal interrupt still waits, and leaves a reset.
stop_silences_example :
    let r = ath9k_stop obedient false (some calm) good seen in
    Stopped true (replay r.calls waiting_gate)
    × (ath_isr obedient fatal_interrupt r.state
        ≡ record { state = r.state; calls = []; result = irq_none })
unfolding run_event ath_isr
stop_silences_example =
    stop_silences obedient false (some calm) good fatal_interrupt seen waiting_gate refl refl

reset_stuck_example :
    let r = ath_reset_work obedient false deaf running in
    (replay r.calls open_gate ≡ some (record open_gate { off = 1; on = false }))
    × (r.state.op_hw_reset ≡ false)
reset_stuck_example = reset_stuck obedient false deaf running open_gate refl refl
