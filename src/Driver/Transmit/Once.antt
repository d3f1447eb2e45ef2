-- ===== src/Driver/Transmit/Once.antt =====
-- ath9k/main.c: what becomes of a frame in `ath9k_tx`.
use ucsma_rate_control.Base.{
  ℕ, ◌+◌, ◌≡◌, refl, Bool, true, false, not, ◌&&◌, ◌||◌, if◌then◌else◌, List, [], ◌∷◌, ◌++◌, arith,
  Bool-cases, inl, inr,
}
use ucsma_rate_control.Driver.State.{PowerMode, Softc, Call, start_tx, count_tx_failed, free_skb}
use ucsma_rate_control.Driver.Power.{ps_wakeup, ps_restore}
use ucsma_rate_control.Driver.Transmit.{
  Frame, handed_over, freed, is_network_sleep, is_full_sleep, publish_list, await_frame, note_frame,
  wake_for, ath9k_tx,
}

-- How often a list of calls gives the frame up, and how often it hands it over.
abbrev frees_of : Call → ℕ
frees_of free_skb = 1
frees_of _ = 0

abbrev starts_of : Call → ℕ
starts_of start_tx = 1
starts_of _ = 0

abbrev failures_of : Call → ℕ
failures_of count_tx_failed = 1
failures_of _ = 0

abbrev pub frees : List Call → ℕ
frees [] = 0
frees (c ∷ calls) = frees_of c + frees calls

abbrev pub starts : List Call → ℕ
starts [] = 0
starts (c ∷ calls) = starts_of c + starts calls

abbrev pub failures : List Call → ℕ
failures [] = 0
failures (c ∷ calls) = failures_of c + failures calls

pub counts-append :
    (xs ys : List Call)
    → (frees (xs ++ ys) ≡ frees xs + frees ys)
      × (starts (xs ++ ys) ≡ starts xs + starts ys)
      × (failures (xs ++ ys) ≡ failures xs + failures ys)
counts-append [] ys = omega arith
counts-append (x ∷ xs) ys = omega (arith, counts-append xs ys)

note_frame-counts :
    (autosleep : Bool)
    → (frees (note_frame autosleep) ≡ 0)
      × (starts (note_frame autosleep) ≡ 0)
      × (failures (note_frame autosleep) ≡ 0)
unfolding note_frame
note_frame-counts true = (refl, refl, refl)
note_frame-counts false = (refl, refl, refl)

module _ (setpower : PowerMode → PowerMode → PowerMode) (btcoex : Bool) where
  wakeup-counts :
      (sc : Softc)
      → (frees (ps_wakeup setpower sc).calls ≡ 0)
        × (starts (ps_wakeup setpower sc).calls ≡ 0)
        × (failures (ps_wakeup setpower sc).calls ≡ 0)
  unfolding ps_wakeup
  wakeup-counts sc = ground arith

  restore-counts :
      (sc : Softc)
      → (frees (ps_restore setpower btcoex sc).calls ≡ 0)
        × (starts (ps_restore setpower btcoex sc).calls ≡ 0)
        × (failures (ps_restore setpower btcoex sc).calls ≡ 0)
  unfolding ps_restore
  restore-counts sc = ground arith

  pub wake_for-counts :
      (is_pspoll : Bool) (sc : Softc)
      → (frees (wake_for setpower btcoex is_pspoll sc).calls ≡ 0)
        × (starts (wake_for setpower btcoex is_pspoll sc).calls ≡ 0)
        × (failures (wake_for setpower btcoex is_pspoll sc).calls ≡ 0)
  unfolding wake_for
  wake_for-counts is_pspoll sc = elim (Bool-cases (is_network_sleep sc.power_mode)) [
    | inl asleep ↦ rw asleep (
        let woken = ps_wakeup setpower sc in
        let rested = ps_restore setpower btcoex (await_frame is_pspoll woken.state) in
        omega (
          arith,
          counts-append woken.calls (note_frame sc.cap_autosleep ++ rested.calls),
          counts-append (note_frame sc.cap_autosleep) rested.calls,
          wakeup-counts sc,
          restore-counts (await_frame is_pspoll woken.state),
          note_frame-counts sc.cap_autosleep,
        ))
    | inr up ↦ rw up (refl, refl, refl)
  ]

-- In full sleep after the waking the frame is given up, once, and never offered. Otherwise it is
-- offered to the queue, once: a frame that the queue takes is not given up, and a frame that it
-- refuses is given up, once, after the failure was counted, once. The fate says which it was.
pub tx_fate :
    (setpower : PowerMode → PowerMode → PowerMode) (btcoex accepted : Bool) (txbuf : List ℕ)
    (f : Frame) (sc : Softc)
    → let t = ath9k_tx setpower btcoex txbuf accepted f sc in
      let down = is_full_sleep t.state.power_mode in
      (starts t.calls ≡ (if down then 0 else 1))
      × (frees t.calls ≡ (if not down && accepted then 0 else 1))
      × (failures t.calls ≡ (if down || accepted then 0 else 1))
      × (t.fate ≡ (if not down && accepted then handed_over else freed))
unfolding ath9k_tx
tx_fate setpower btcoex accepted txbuf f sc =
    let up = wake_for setpower btcoex f.is_pspoll (publish_list txbuf sc) in
    let none_yet = wake_for-counts setpower btcoex f.is_pspoll (publish_list txbuf sc) in
    let refusal = start_tx ∷ count_tx_failed ∷ free_skb ∷ [] in
    elim (Bool-cases (is_full_sleep up.state.power_mode)) [
      | inl down ↦
          let counts = counts-append up.calls (free_skb ∷ []) in
          rw down (ground (arith, down, none_yet, counts))
      | inr ready ↦ rw ready (elim (Bool-cases accepted) [
        | inl taken ↦
            let counts = counts-append up.calls (start_tx ∷ []) in
            rw taken (ground (arith, ready, none_yet, counts))
        | inr refused ↦
            let counts = counts-append up.calls refusal in
            rw refused (ground (arith, ready, none_yet, counts))
      ])
    ]
