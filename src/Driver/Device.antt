-- ===== src/Driver/Device.antt =====
-- ath9k/main.c: resetting the chip, and the state that resets and interrupts read and write. The
-- options WOW, BTCOEX and DEBUGFS are off; what the chip and the other files of the driver answer are
-- arguments.
pub mod Isr
pub mod Tasklet
pub mod StartStop
pub mod Gate
pub mod Sound
pub mod Outcomes
pub mod Served
pub mod Restored
pub mod Events
pub mod Halting
pub mod Stopping
pub mod Count
use ucsma_rate_control.Base.{
  ℕ, ◌+◌, ◌/◌, ◌≡◌, Bool, true, false, not, ◌&&◌, ◌||◌, List, [], ◌∷◌, ◌++◌, if◌then◌else◌,
}
use ucsma_rate_control.Base.Int.{ℤ, pos, negsuc, is_zero}
use ucsma_rate_control.Driver.State.{
  PowerMode, PsFlags, Softc, Call, lock_pm, unlock_pm, lock_pcu, unlock_pcu, lock_txq, unlock_txq,
  cancel_paprd_work, cancel_tx_work, cancel_pll_work, cancel_mci_work, cancel_reset_work,
  queue_tx_work, queue_pll_work, queue_reset_work, start_ani, stop_ani, stop_queues, wake_queues,
  set_beacon, p2p_ps_timer, txq_schedule, drain_txqs, stop_recv, start_recv, update_txpow,
  mci_set_txpower, tasklet_disable, tasklet_enable, hw_reset, disable_interrupts, enable_interrupts,
  set_interrupts,
}
use ucsma_rate_control.Driver.Queues.{Txq}
use ucsma_rate_control.Driver.Power.{Done, ps_wakeup, ps_restore}

-- The bits of an interrupt status or mask that the file names.
pub record Ints : Type 0 where
  pub global : Bool
  pub fatal : Bool
  pub bb_watchdog : Bool
  pub rxorn : Bool
  pub rxeol : Bool
  pub rx : Bool
  pub rxlp : Bool
  pub rxhp : Bool
  pub tx : Bool
  pub bmiss : Bool
  pub cst : Bool
  pub gtt : Bool
  pub tsfoor : Bool
  pub gentimer : Bool
  pub mci : Bool
  pub swba : Bool
  pub txurn : Bool
  pub tim_timer : Bool

pub data Opmode : Type 0 where
  station ap adhoc mesh_point : Opmode

abbrev pub is_station : Opmode → Bool
is_station station = true
is_station _ = false

-- The flags of `op_flags` and the other fields of the driver and the chip that are read or written.
pub record Device : Type 0 where
  pub softc : Softc
  pub op_invalid : Bool
  pub op_hw_reset : Bool
  pub op_beacons : Bool
  pub op_prim_sta_vif : Bool
  pub diag_trigger_error : Bool
  pub imask : Ints
  pub intrstatus : Ints
  pub gtt_cnt : ℕ
  pub opmode : Opmode
  pub offchannel : Bool
  pub curtxpow : ℕ
  pub txpowlimit : ℕ
  pub max_antenna_gain : ℕ
  pub cur_power_level : ℕ
  pub txqs : List Txq
  pub cap_edma : Bool
  pub cap_ht : Bool
  pub hang_watchdog : Bool
  pub is_ar9300 : Bool
  pub has_pll_work : Bool
  pub mci_enabled : Bool
  pub has_led : Bool
  pub has_curchan : Bool
  pub rx_frag : Bool
  pub reset_power_on : Bool
  pub is_monitoring : Bool

-- What a function leaves, and the calls that it makes.
pub record Ran : Type 0 where
  pub state : Device
  pub calls : List Call

-- One function after another.
infixl 5 ◌then_run◌
abbrev pub ◌then_run◌ : Ran → (Device → Ran) → Ran
◌then_run◌ r next = record { state = (next r.state).state; calls = r.calls ++ (next r.state).calls }

-- A function of `ps_usecount` and its neighbours, run on the whole state.
abbrev pub on_softc : (Softc → Done) → Device → Ran
on_softc f d = record { state = record d { softc = (f d.softc).state }; calls = (f d.softc).calls }

abbrev pub only : List Call → Device → Ran
only calls d = record { state = d; calls = calls }

-- `__ath_cancel_work`, which leaves the reset work alone, and `ath_cancel_work`.
pub cancel_work_except_reset : Device → List Call
cancel_work_except_reset d =
    cancel_paprd_work
    ∷ cancel_tx_work
    ∷ cancel_pll_work
    ∷ (if d.mci_enabled then cancel_mci_work ∷ [] else [])

pub ath_cancel_work : Device → List Call
unfolding cancel_work_except_reset
ath_cancel_work d = cancel_work_except_reset d ++ cancel_reset_work ∷ []

pub ath_restart_work : Device → List Call
ath_restart_work d =
    queue_tx_work ∷ (if d.has_pll_work then queue_pll_work ∷ [] else []) ++ start_ani ∷ []

pub ath9k_queue_reset : Device → Ran
ath9k_queue_reset d = record {
  state = record d { op_hw_reset = true };
  calls = queue_reset_work ∷ [];
}

-- What the chip and the rest of the driver answer during a reset: whether the queues were drained and
-- receiving stopped, the status of the reset, whether receiving started again (`ath_startrecv` is 0),
-- and the power that is then set.
pub record Answers : Type 0 where
  pub drained : Bool
  pub recv_stopped : Bool
  pub reset_status : ℤ
  pub recv_started : Bool
  pub txpow : ℕ

pub ath_prepare_reset : Answers → Device → List Call
ath_prepare_reset a d =
    stop_queues
    ∷ stop_ani
    ∷ disable_interrupts d.imask.global
    ∷ drain_txqs a.drained
    ∷ stop_recv a.recv_stopped
    ∷ []

schedule_all : List Txq → (i : ℕ) → List Call
schedule_all [] i = []
schedule_all (q ∷ queues) i =
    let rest = schedule_all queues (i + 1) in
    if q.is_setup then lock_txq ∷ txq_schedule i ∷ unlock_txq ∷ rest else rest

unfoldable pub await_beacon : Softc → Softc
await_beacon sc = record sc {
  ps_flags = record sc.ps_flags { beacon_sync = true; wait_for_beacon = true };
}

-- The part under `start`: the beacon, the work and the queues.
pub resume : Device → Ran
unfolding schedule_all ath_restart_work await_beacon
resume d =
    let again = ath_restart_work d ++ schedule_all d.txqs 0 in
    if not d.op_beacons
    then record { state = d; calls = again }
    else if is_station d.opmode && d.op_prim_sta_vif
    then record {
      state = record d { softc = await_beacon d.softc };
      calls = lock_pm ∷ unlock_pm ∷ again;
    }
    else record { state = d; calls = set_beacon ∷ again }

pub record Completed : Type 0 where
  pub state : Device
  pub calls : List Call
  pub done : Bool

pub ath_complete_reset : Answers → (start : Bool) → Device → Completed
unfolding resume
ath_complete_reset a start d =
    let cleared = record d { curtxpow = a.txpow; op_hw_reset = false } in
    let resumed = resume cleared in
    let more : Ran =
      if not d.offchannel && start
      then record { state = resumed.state; calls = resumed.calls }
      else record { state = cleared; calls = [] } in
    if not a.recv_started
    then record { state = d; calls = start_recv false ∷ []; done = false }
    else record {
      state = record more.state { gtt_cnt = 0 };
      calls =
          start_recv true
            ∷ update_txpow
            ∷ set_interrupts
            ∷ enable_interrupts d.imask.global
            ∷ more.calls
          ++ wake_queues ∷ p2p_ps_timer ∷ [];
      done = true;
    }

pub record Reset : Type 0 where
  pub state : Device
  pub calls : List Call
  pub result : ℤ

-- Between the two locks. `hchan_given` is whether the caller named a channel.
pub reset_locked : Answers → (hchan_given : Bool) → Device → Reset
unfolding ath_prepare_reset ath_complete_reset ath9k_queue_reset
reset_locked a hchan_given d =
    let prepared = a.drained && a.recv_stopped in
    let fastcc = d.offchannel && hchan_given && prepared in
    let start = ath_prepare_reset a d ++ hw_reset fastcc a.reset_status ∷ [] in
    let queued = ath9k_queue_reset d in
    let completed = ath_complete_reset a true d in
    let mci = if d.mci_enabled && d.offchannel then mci_set_txpower ∷ [] else [] in
    if not (is_zero a.reset_status)
    then record {
      state = queued.state;
      calls = start ++ (enable_interrupts d.imask.global ∷ queued.calls);
      result = a.reset_status;
    }
    else if not completed.done
    then record {
      state = completed.state;
      calls = start ++ (mci ++ completed.calls);
      result = negsuc 4;
    }
    else record {
      state = record completed.state { cur_power_level = completed.state.curtxpow / 2 };
      calls = start ++ (mci ++ completed.calls);
      result = pos 0;
    }

pub ath_reset_internal : Answers → (hchan_given : Bool) → Device → Reset
unfolding reset_locked cancel_work_except_reset
ath_reset_internal a hchan_given d =
    let r = reset_locked a hchan_given d in
    record {
      state = r.state;
      calls =
          cancel_work_except_reset d
          ++ (tasklet_disable ∷ lock_pcu ∷ (r.calls ++ (unlock_pcu ∷ tasklet_enable ∷ [])));
      result = r.result;
    }

module _ (setpower : PowerMode → PowerMode → PowerMode) (btcoex : Bool) where
  -- The reset takes a user of its own.
  pub ath_reset : Answers → Device → Ran
  unfolding ath_reset_internal
  ath_reset a d =
      let up = on_softc (ps_wakeup setpower) d in
      let r = ath_reset_internal a false up.state in
      let down = on_softc (ps_restore setpower btcoex) r.state in
      record { state = down.state; calls = up.calls ++ (r.calls ++ down.calls) }

  -- The function of the reset work.
  pub ath_reset_work : Answers → Device → Ran
  unfolding ath_reset
  ath_reset_work a d = ath_reset a d
