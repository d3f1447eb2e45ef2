-- ===== src/Driver/Device/Isr.antt =====
-- ath9k/main.c: `ath_isr`, the interrupt handler.
use ucsma_rate_control.Base.{Bool, true, false, not, ◌&&◌, ◌||◌, List, [], ◌∷◌, ◌++◌, if◌then◌else◌}
use ucsma_rate_control.Driver.State.{
  PowerMode, awake, Call, lock_pm, unlock_pm, set_power, set_rx_abort, kill_interrupts, get_isr,
  schedule_beacon_tasklet, update_trig_level, set_interrupts, disable_interrupts, schedule_tasklet,
}
use ucsma_rate_control.Driver.Device.{Ints, Device}

-- `status &= ah->imask`.
unfoldable pub masked : Ints → Ints → Ints
masked s m = record {
  global = s.global && m.global;
  fatal = s.fatal && m.fatal;
  bb_watchdog = s.bb_watchdog && m.bb_watchdog;
  rxorn = s.rxorn && m.rxorn;
  rxeol = s.rxeol && m.rxeol;
  rx = s.rx && m.rx;
  rxlp = s.rxlp && m.rxlp;
  rxhp = s.rxhp && m.rxhp;
  tx = s.tx && m.tx;
  bmiss = s.bmiss && m.bmiss;
  cst = s.cst && m.cst;
  gtt = s.gtt && m.gtt;
  tsfoor = s.tsfoor && m.tsfoor;
  gentimer = s.gentimer && m.gentimer;
  mci = s.mci && m.mci;
  swba = s.swba && m.swba;
  txurn = s.txurn && m.txurn;
  tim_timer = s.tim_timer && m.tim_timer;
}

-- `SCHED_INTR`: the bits that the tasklet is scheduled for.
unfoldable pub is_sched : Ints → Bool
is_sched s =
    s.fatal || s.bb_watchdog || s.rxorn || s.rxeol || s.rx || s.rxlp || s.rxhp || s.tx || s.bmiss
    || s.cst || s.gtt || s.tsfoor || s.gentimer || s.mci

unfoldable pub is_any : Ints → Bool
unfolding is_sched
is_any s = is_sched s || s.global || s.swba || s.txurn || s.tim_timer

-- Whether the chip says that it has an interrupt, and the reasons that it gives.
pub record IsrInputs : Type 0 where
  pub pending : Bool
  pub status : Ints

pub data IrqReturn : Type 0 where
  irq_none irq_handled : IrqReturn

pub record Isr : Type 0 where
  pub state : Device
  pub calls : List Call
  pub result : IrqReturn

-- Power management is told of a timer interrupt: the chip wakes and waits for the beacon.
module _ (setpower : PowerMode → PowerMode → PowerMode) where
  unfoldable pub note_tim_timer : Device → Device
  note_tim_timer d = record d {
    softc = record d.softc {
      power_mode = setpower awake d.softc.power_mode;
      ps_flags = record d.softc.ps_flags { wait_for_beacon = true };
    };
  }

  -- The reasons that the handler deals with itself, in the order of its tests.
  unfoldable pub handle_now : Ints → Device → Isr
  unfolding note_tim_timer
  handle_now s d =
      let unmasked =
        if s.rxeol
        then record d { imask = record d.imask { rxeol = false; rxorn = false } }
        else d in
      let tim = not d.softc.cap_autosleep && s.tim_timer && not d.softc.ps_idle in
      record {
        state = if tim then note_tim_timer unmasked else unmasked;
        calls =
            (if s.swba then schedule_beacon_tasklet ∷ [] else [])
            ++ ((if s.txurn then update_trig_level ∷ [] else [])
                ++ ((if s.rxeol then set_interrupts ∷ [] else [])
                    ++ (if tim
                        then lock_pm
                          ∷ set_power awake
                          ∷ unlock_pm
                          ∷ lock_pm
                          ∷ set_rx_abort false
                          ∷ unlock_pm
                          ∷ []
                        else [])));
        result = irq_handled;
      }

  -- From the label `chip_reset` on.
  unfoldable pub finish_isr : Ints → Isr → Isr
  unfolding is_sched
  finish_isr s r = record r {
    calls =
        r.calls
        ++ (if is_sched s
            then disable_interrupts r.state.imask.global ∷ schedule_tasklet ∷ []
            else []);
  }

  -- From the reading of the status on; `FATAL` and a watchdog that is watched for skip the rest.
  unfoldable pub dispatch_isr : Ints → Device → Isr
  unfolding handle_now finish_isr is_any
  dispatch_isr s d =
      let cached = record d { intrstatus = s } in
      let skipped : Isr = record { state = cached; calls = []; result = irq_handled } in
      let now = handle_now s cached in
      if not (is_any s)
      then record { state = d; calls = []; result = irq_none }
      else if s.fatal || (d.hang_watchdog && s.bb_watchdog)
      then finish_isr s skipped
      else finish_isr s now

  unfoldable pub ath_isr : IsrInputs → Device → Isr
  unfolding dispatch_isr masked
  ath_isr inp d =
      let seen = masked inp.status d.imask in
      let forced = if d.diag_trigger_error then record seen { fatal = true } else seen in
      let read = dispatch_isr forced (record d { diag_trigger_error = false }) in
      if d.op_invalid || not inp.pending
      then record { state = d; calls = []; result = irq_none }
      else if d.op_hw_reset
      then record { state = d; calls = kill_interrupts ∷ []; result = irq_handled }
      else record read { calls = get_isr ∷ read.calls }
