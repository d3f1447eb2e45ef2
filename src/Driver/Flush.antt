-- ===== src/Driver/Flush.antt =====
-- ath9k/main.c: `ath9k_flush`, which waits for the queues to empty and may drop what is left.
use ucsma_rate_control.Base.{
  ◌+◌, ◌<◌, ◌^◌, ◌≡◌, ◌∙◌, Bool, true, false, not, ◌&&◌, [], ◌∷◌, ◌++◌, arith, if◌then◌else◌,
}
use ucsma_rate_control.Base.Int.{ℤ, int_gt}
use ucsma_rate_control.Driver.State.{
  PowerMode, lock_mutex, unlock_mutex, cancel_tx_work, wait_tx, drain_all, wake_queues,
  queue_tx_work, lock_pcu, unlock_pcu,
}
use ucsma_rate_control.Driver.Power.{ps_wakeup, ps_restore, wakeup-count, restore-count}
use ucsma_rate_control.Driver.Device.Count.{reset-count}
use ucsma_rate_control.Driver.Device.{Device, Ran, Answers, on_softc, ath_reset}

module _ (setpower : PowerMode → PowerMode → PowerMode) (btcoex : Bool) where
  -- The part under `if (drop)`; `drained` is what `ath_drain_all_txq` returns.
  pub drop_all : (drained : Bool) → Answers → Device → Ran
  drop_all drained a d =
      let up = on_softc (ps_wakeup setpower) d in
      let reset = ath_reset setpower btcoex a up.state in
      let after : Ran = if drained then record { state = up.state; calls = [] } else reset in
      let down = on_softc (ps_restore setpower btcoex) after.state in
      record {
        state = down.state;
        calls =
            up.calls
            ++ (lock_pcu ∷ drain_all ∷ unlock_pcu ∷ after.calls
                ++ (down.calls ++ (wake_queues ∷ [])));
      }

  -- `waited` is what `wait_event_timeout` returns.
  pub ath9k_flush : (unplugged : Bool) (waited : ℤ) (drained drop : Bool) → Answers → Device → Ran
  unfolding drop_all
  ath9k_flush unplugged waited drained drop a d =
      let dropped = drop_all drained a d in
      let start = lock_mutex ∷ cancel_tx_work ∷ [] in
      let skipped : Ran = record { state = d; calls = start ++ unlock_mutex ∷ [] } in
      let waited_only : Ran = record {
        state = d;
        calls = start ++ wait_tx ∷ queue_tx_work ∷ unlock_mutex ∷ [];
      } in
      let dropping : Ran = record {
        state = dropped.state;
        calls = start ++ (wait_tx ∷ dropped.calls ++ queue_tx_work ∷ unlock_mutex ∷ []);
      } in
      if unplugged
      then skipped
      else if d.op_invalid
      then skipped
      else if drop && not (int_gt waited 0)
      then dropping
      else waited_only

module _ (setpower : PowerMode → PowerMode → PowerMode) (btcoex : Bool) where
  drop-count :
      (drained : Bool) (a : Answers) (d : Device)
      → d.softc.ps_usecount + 2 < 2 ^ 32
      → (drop_all setpower btcoex drained a d).state.softc.ps_usecount ≡ d.softc.ps_usecount
  unfolding drop_all
  drop-count true a d h =
      restore-count setpower btcoex (ps_wakeup setpower d.softc).state d.softc.ps_usecount
        (wakeup-count setpower d.softc (omega arith)) (omega arith)
  drop-count false a d h =
      let up = (on_softc (ps_wakeup setpower) d).state in
      let counted = wakeup-count setpower d.softc (omega arith) in
      let again = reset-count setpower btcoex a up (omega (arith, counted)) in
      restore-count setpower btcoex (ath_reset setpower btcoex a up).state.softc d.softc.ps_usecount
        (again ∙ counted) (omega arith)

-- On every path the flush leaves the count of users as it found it, if two more fit.
pub flush_balanced :
    (setpower : PowerMode → PowerMode → PowerMode) (btcoex unplugged drained drop : Bool)
    (waited : ℤ) (a : Answers) (d : Device)
    → d.softc.ps_usecount + 2 < 2 ^ 32
    → (ath9k_flush setpower btcoex unplugged waited drained drop a d).state.softc.ps_usecount
      ≡ d.softc.ps_usecount
unfolding ath9k_flush
flush_balanced setpower btcoex unplugged drained drop waited a d h =
    ground (arith, drop-count setpower btcoex drained a d h)
