-- ===== src/Driver/Transmit.antt =====
-- ath9k/main.c: `ath9k_tx`, which hands one frame to the hardware queue. What mac80211 says of the
-- frame and whether `ath_tx_start` takes it are arguments.
pub mod Once
pub mod Waking
use ucsma_rate_control.Base.{
  ℕ, zero, suc, ◌+◌, ◌-◌, ◌≤◌, ◌<◌, ◌≡◌, ◌≢◌, refl, Bool, true, false, not, ◌&&◌, ◌||◌, Option,
  none, some, List, [], ◌∷◌, ◌++◌, arith, if◌then◌else◌, Bool-cases, inl, inr,
}
use ucsma_rate_control.Exports.{Exports}
use ucsma_rate_control.Driver.State.{
  PowerMode, awake, full_sleep, network_sleep, undefined, Softc, Call, lock_pm, unlock_pm,
  set_rx_abort, start_tx, count_tx_failed, free_skb,
}
use ucsma_rate_control.Driver.Power.{ps_wakeup, ps_restore, must_wait, is_awake, restore_waiting}

pub record Frame : Type 0 where
  pub is_data : Bool
  pub is_nullfunc : Bool
  pub has_pm : Bool
  pub is_pspoll : Bool
  pub priority : ℕ

pub data Fate : Type 0 where
  handed_over freed : Fate

pub record Sent : Type 0 where
  pub state : Softc
  pub frame : Frame
  pub calls : List Call
  pub fate : Fate

abbrev pub is_network_sleep : PowerMode → Bool
is_network_sleep network_sleep = true
is_network_sleep awake = false
is_network_sleep full_sleep = false
is_network_sleep undefined = false

abbrev pub is_full_sleep : PowerMode → Bool
is_full_sleep full_sleep = true
is_full_sleep awake = false
is_full_sleep network_sleep = false
is_full_sleep undefined = false

-- `txbuf_fff = &sc->tx.txbuf` on the first frame; `txbuf` is the list there.
pub publish_list : (txbuf : List ℕ) → Softc → Softc
publish_list txbuf sc = record sc {
  exports = record sc.exports {
    txbuf_fff = elim sc.txbuf_fff [ none ↦ some txbuf | some l ↦ some l ];
  };
}

-- The PM bit of a data frame while power saving is on.
mark_pm : (ps_enabled : Bool) → Frame → Frame
mark_pm ps_enabled f = record f {
  priority = 3;
  has_pm = f.has_pm || (ps_enabled && (f.is_data && (not f.is_nullfunc && not f.has_pm)));
}

-- The flag that keeps the hardware awake until the frame is done.
pub await_frame : (is_pspoll : Bool) → Softc → Softc
await_frame is_pspoll sc =
    if is_pspoll
    then record sc { ps_flags = record sc.ps_flags { wait_for_pspoll_data = true } }
    else record sc { ps_flags = record sc.ps_flags { wait_for_tx_ack = true } }

-- The calls made while the flag is set.
pub note_frame : (cap_autosleep : Bool) → List Call
note_frame cap_autosleep =
    lock_pm ∷ (if cap_autosleep then [] else set_rx_abort false ∷ []) ++ unlock_pm ∷ []

pub record Awake : Type 0 where
  pub state : Softc
  pub calls : List Call

module _ (setpower : PowerMode → PowerMode → PowerMode) (btcoex : Bool) where
  -- Waking the hardware where it is in network sleep.
  pub wake_for : (is_pspoll : Bool) → Softc → Awake
  unfolding await_frame note_frame
  wake_for is_pspoll sc =
      let woken = ps_wakeup setpower sc in
      let waiting = await_frame is_pspoll woken.state in
      let rested = ps_restore setpower btcoex waiting in
      if is_network_sleep sc.power_mode
      then record {
        state = rested.state;
        calls = woken.calls ++ (note_frame sc.cap_autosleep ++ rested.calls);
      }
      else record { state = sc; calls = [] }

  -- `accepted` is whether `ath_tx_start` returns 0.
  pub ath9k_tx : (txbuf : List ℕ) (accepted : Bool) → Frame → Softc → Sent
  unfolding wake_for publish_list mark_pm
  ath9k_tx txbuf accepted f sc =
      let marked = mark_pm sc.ps_enabled f in
      let up = wake_for f.is_pspoll (publish_list txbuf sc) in
      if is_full_sleep up.state.power_mode
      then record {
        state = up.state;
        frame = marked;
        calls = up.calls ++ free_skb ∷ [];
        fate = freed;
      }
      else if accepted
      then record {
        state = up.state;
        frame = marked;
        calls = up.calls ++ start_tx ∷ [];
        fate = handed_over;
      }
      else record {
        state = up.state;
        frame = marked;
        calls = up.calls ++ start_tx ∷ count_tx_failed ∷ free_skb ∷ [];
        fate = freed;
      }
