-- ===== src/Driver/Transmit/Waking.antt =====
-- ath9k/main.c: a frame that finds the hardware asleep.
use ucsma_rate_control.Base.{
  ℕ, ◌≡◌, refl, Bool, true, false, List, [], ◌∷◌, arith, if◌then◌else◌, Bool-cases, inl, inr,
}
use ucsma_rate_control.Driver.State.{
  PowerMode, awake, network_sleep, Softc, start_tx, count_tx_failed, free_skb,
}
use ucsma_rate_control.Driver.Power.{ps_wakeup, must_wait, is_awake, restore_waiting}
use ucsma_rate_control.Driver.Transmit.{
  Frame, handed_over, freed, is_network_sleep, is_full_sleep, publish_list, await_frame, wake_for,
  ath9k_tx,
}
use ucsma_rate_control.Driver.Transmit.Once.{starts, counts-append, wake_for-counts}

awaits :
    (is_pspoll : Bool) (sc : Softc)
    → (must_wait (await_frame is_pspoll sc).ps_flags ≡ true)
      × ((await_frame is_pspoll sc).power_mode ≡ sc.power_mode)
unfolding must_wait await_frame
awaits is_pspoll sc = ground arith

wakeup_first :
    (setpower : PowerMode → PowerMode → PowerMode) (sc : Softc)
    → sc.ps_usecount ≡ 0
    → (ps_wakeup setpower sc).state.power_mode ≡ setpower awake sc.power_mode
unfolding ps_wakeup
wakeup_first setpower sc h = ground arith

wake_for-awake :
    (setpower : PowerMode → PowerMode → PowerMode) (btcoex is_pspoll : Bool) (sc : Softc)
    → ((m : PowerMode) → is_awake (setpower awake m) ≡ true)
    → sc.ps_usecount ≡ 0
    → sc.power_mode ≡ network_sleep
    → is_awake (wake_for setpower btcoex is_pspoll sc).state.power_mode ≡ true
unfolding wake_for
wake_for-awake setpower btcoex is_pspoll sc wakes unused asleep =
    let woken = ps_wakeup setpower sc in
    let waiting = await_frame is_pspoll woken.state in
    let asleep' : is_network_sleep sc.power_mode ≡ true = rw asleep in
    let same = restore_waiting setpower btcoex waiting (awaits is_pspoll woken.state).0 in
    rw (asleep', same, (awaits is_pspoll woken.state).1, wakeup_first setpower sc unused)
      (wakes sc.power_mode)

not_full_sleep : (m : PowerMode) → is_awake m ≡ true → is_full_sleep m ≡ false
not_full_sleep m h = ground arith

publish_list-power :
    (txbuf : List ℕ) (sc : Softc)
    → ((publish_list txbuf sc).power_mode ≡ sc.power_mode)
      × ((publish_list txbuf sc).ps_usecount ≡ sc.ps_usecount)
unfolding publish_list
publish_list-power txbuf sc = (refl, refl)

-- With hardware that is awake when it was asked to be, a frame that finds it in network sleep
-- with no user wakes it, and it stays awake after the count drops again; the frame is offered to
-- the queue once, and its fate is the queue's answer.
pub tx_wakes :
    (setpower : PowerMode → PowerMode → PowerMode) (btcoex accepted : Bool) (txbuf : List ℕ)
    (f : Frame) (sc : Softc)
    → ((m : PowerMode) → is_awake (setpower awake m) ≡ true)
    → sc.ps_usecount ≡ 0
    → sc.power_mode ≡ network_sleep
    → let t = ath9k_tx setpower btcoex txbuf accepted f sc in
      (is_awake t.state.power_mode ≡ true)
      × (starts t.calls ≡ 1)
      × (t.fate ≡ (if accepted then handed_over else freed))
unfolding ath9k_tx
tx_wakes setpower btcoex accepted txbuf f sc wakes unused asleep =
    let up = wake_for setpower btcoex f.is_pspoll (publish_list txbuf sc) in
    let same = publish_list-power txbuf sc in
    let lit : is_awake up.state.power_mode ≡ true =
      wake_for-awake setpower btcoex f.is_pspoll (publish_list txbuf sc) wakes (rw (same.1) unused)
        (rw (same.0) asleep) in
    let ready : is_full_sleep up.state.power_mode ≡ false =
      not_full_sleep up.state.power_mode lit in
    let none_yet = wake_for-counts setpower btcoex f.is_pspoll (publish_list txbuf sc) in
    rw ready (elim (Bool-cases accepted) [
      | inl taken ↦
          rw taken (lit, omega (arith, none_yet, counts-append up.calls (start_tx ∷ [])), refl)
      | inr refused ↦ rw refused (
        lit,
        omega
            (arith, none_yet, counts-append up.calls (start_tx ∷ count_tx_failed ∷ free_skb ∷ [])),
        refl,
      )
    ])
