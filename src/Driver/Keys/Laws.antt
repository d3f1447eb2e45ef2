-- ===== src/Driver/Keys/Laws.antt =====
-- ath9k/main.c: what the stations' keys come to.
use ucsma_rate_control.Base.{
  ℕ, zero, suc, ◌%◌, ◌<◌, ◌≡◌, refl, ap, ◌∙◌, inl, inr, Bool, true, false, not, Bool-cases, ==_refl,
  ◌&&◌, ◌||◌, some, List, [], ◌∷◌, ◌++◌, arith, ◌==◌, ltb, if◌then◌else◌,
}
use ucsma_rate_control.Base.Int.{ℤ, pos, negsuc, pos_part, int_gt}
use ucsma_rate_control.Driver.State.{
  PowerMode, Softc, Call, node_cleanup, key_delete, aggr_wakeup, set_tx_filter,
}
use ucsma_rate_control.Driver.Keys.{
  Station, put_key, has_free, drop_key, ath_node_attach, ath9k_sta_add, ath9k_del_ps_key,
  ath9k_sta_remove, ath9k_sta_set_tx_filter, NotifyCmd, notify_sleep, notify_awake,
  ath9k_sta_notify, Key, set_cmd, disable_cmd, KeyMode, ath9k_set_key, run_cmd, set_case,
  disable_case, key_accepted, enter_key, forget_key,
}

-- Some entry is the key.
abbrev pub holds : ℕ → List ℕ → Bool
holds k [] = false
holds k (slot ∷ slots) = (slot == k) || holds k slots

drop-put :
    (k : ℕ) (slots : List ℕ)
    → has_free slots ≡ true
    → holds k slots ≡ false
    → drop_key k (put_key k slots) ≡ slots
drop-put k [] free apart = refl
drop-put k (slot ∷ slots) free apart =
    let other : (slot == k) ≡ false = ground (arith, apart) in
    let apart' : holds k slots ≡ false = ground (arith, apart) in
    elim (Bool-cases (slot == 0)) [
      | inl empty ↦
          let zero' : slot ≡ 0 = ground (arith, empty) in rw empty (rw (==_refl k) (rw zero' refl))
      | inr used ↦
          let free' : has_free slots ≡ true = ground (arith, free, used) in
          rw used (rw other (ap (λ rest. slot ∷ rest) (drop-put k slots free' apart')))
    ]

-- The filters of the hardware after the calls, from those before; other calls leave them alone.
abbrev pub apply_filter : Call → (ℕ → Bool) → ℕ → Bool
apply_filter (set_tx_filter index filtered) f k = if k == index then filtered else f k
apply_filter _ f k = f k

abbrev pub filters_after : List Call → (ℕ → Bool) → ℕ → Bool
filters_after [] f k = f k
filters_after (c ∷ calls) f k = filters_after calls (apply_filter c f) k

abbrev pub is_sleep : NotifyCmd → Bool
is_sleep notify_sleep = true
is_sleep notify_awake = false

set-filters :
    (filtered : Bool) (keys : List ℕ) (f : ℕ → Bool) (k : ℕ)
    → filters_after (ath9k_sta_set_tx_filter filtered keys) f k
      ≡ (if holds k keys && not (k == 0) then filtered else f k)
unfolding ath9k_sta_set_tx_filter
set-filters filtered [] f k = refl
set-filters filtered (key ∷ keys) f k =
    let same = set-filters filtered keys f k in
    let next = set-filters filtered keys (apply_filter (set_tx_filter key filtered) f) k in
    elim (Bool-cases (key == 0)) [
      | inl empty ↦ rw empty (same ∙ ground (arith, empty))
      | inr used ↦ rw used (next ∙ ground (arith, used))
    ]

filters_last :
    (calls : List Call) (f : ℕ → Bool) (k : ℕ)
    → filters_after (calls ++ (aggr_wakeup ∷ [])) f k ≡ filters_after calls f k
filters_last [] f k = refl
filters_last (c ∷ calls) f k = filters_last calls (apply_filter c f) k

-- A station that falls asleep has the filter of each of its keys set, and one that wakes up has
-- them cleared; the other filters stay as they were.
pub notify_filters :
    (cmd : NotifyCmd) (an : Station) (f : ℕ → Bool) (k : ℕ)
    → filters_after (ath9k_sta_notify cmd an).calls f k
      ≡ (if holds k an.key_idx && not (k == 0) then is_sleep cmd else f k)
unfolding ath9k_sta_notify
notify_filters notify_sleep an f k = set-filters true an.key_idx f k
notify_filters notify_awake an f k =
    filters_last (ath9k_sta_set_tx_filter false an.key_idx) f k ∙ set-filters false an.key_idx f k

-- A station with no key of its own that is added and removed again has no keys, and the key that
-- was configured for it, if any, is deleted, for a place in the hardware that is a byte.
pub add_remove_station :
    (is_ap_type : Bool) (configured : ℤ) (an : Station)
    → an.ps_key ≡ 0
    → int_gt configured 255 ≡ false
    → let removed = ath9k_sta_remove (ath9k_sta_add is_ap_type configured an).state in
      (removed.state.ps_key ≡ 0)
      × (removed.state.key_idx ≡ 0 ∷ 0 ∷ 0 ∷ 0 ∷ [])
      × (removed.calls
          ≡ (if is_ap_type && int_gt configured 0
              then key_delete (pos_part configured) ∷ []
              else [])
            ++ (node_cleanup ∷ []))
unfolding ath9k_sta_add ath9k_sta_remove ath9k_del_ps_key ath_node_attach
add_remove_station false configured an no_key byte = rw no_key (refl, refl, refl)
add_remove_station true (negsuc n) an no_key byte = rw no_key (refl, refl, refl)
add_remove_station true (pos zero) an no_key byte = rw no_key (refl, refl, refl)
add_remove_station true (pos (suc n)) an no_key byte =
    let same : suc n % 256 ≡ suc n = ground (arith, byte) in
    let used : (suc n == 0) ≡ false = ground arith in
    let some_key : ltb 0 (suc n) ≡ true = ground arith in
    rw same (rw some_key (rw used (refl, refl, refl)))

-- The same for the cases of the command alone.
cmd_round :
    (sw : Bool) (index : ℕ) (later : ℤ) (an : Station) (k : Key)
    → 0 < index % 256
    → has_free (ath9k_del_ps_key an).state.key_idx ≡ true
    → holds (index % 256) (ath9k_del_ps_key an).state.key_idx ≡ false
    → let one = run_cmd set_cmd sw (pos index) (some an) k in
      let two = run_cmd disable_cmd sw later one.sta one.key in
      (one.result ≡ pos 0)
      × (two.result ≡ pos 0)
      × (two.sta ≡ some (ath9k_del_ps_key an).state)
      × (two.key.hw_key_idx ≡ 0)
unfolding run_cmd set_case disable_case key_accepted enter_key forget_key
cmd_round sw index later an k used free apart =
    let freed = (ath9k_del_ps_key an).state in
    let some_place : (index % 256 == 0) ≡ false = ground (arith, used) in
    (
      refl,
      refl,
      rw some_place (
          ap (λ slots. some (record freed { key_idx = slots }))
            (drop-put (index % 256) freed.key_idx free apart)),
      refl,
    )

-- With hardware crypto and outside ad hoc networks, a key that is set for a station with an empty
-- entry, at a place that no entry holds, and that is then disabled: both calls return 0, the
-- station is as it was once its own key was deleted, and the key has no place.
pub set_disable_key :
    (setpower : PowerMode → PowerMode → PowerMode) (btcoex : Bool) (m : KeyMode) (index : ℕ)
    (later : ℤ) (an : Station) (k : Key) (sc : Softc)
    → m.nohwcrypt ≡ false
    → m.is_ibss ≡ false
    → 0 < index % 256
    → has_free (ath9k_del_ps_key an).state.key_idx ≡ true
    → holds (index % 256) (ath9k_del_ps_key an).state.key_idx ≡ false
    → let one = ath9k_set_key setpower btcoex m set_cmd (pos index) (some an) k sc in
      let two =
        ath9k_set_key setpower btcoex m disable_cmd later one.run.sta one.run.key one.softc in
      (one.run.result ≡ pos 0)
      × (two.run.result ≡ pos 0)
      × (two.run.sta ≡ some (ath9k_del_ps_key an).state)
      × (two.run.key.hw_key_idx ≡ 0)
unfolding ath9k_set_key
set_disable_key setpower btcoex m index later an k sc crypt infra used free apart =
    let (done, again, back, gone) = cmd_round m.sw_mgmt_crypto index later an k used free apart in
    rw (crypt, infra) (done, again, back, gone)
