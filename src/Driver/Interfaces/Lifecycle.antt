-- ===== src/Driver/Interfaces/Lifecycle.antt =====
-- ath9k/main.c: adding an interface and removing it again.
use ucsma_rate_control.Base.{
  ◌+◌, ◌-◌, ◌%◌, ◌^◌, ◌<◌, ◌≡◌, refl, ◌∙◌, Bool, true, false, ◌&&◌, List, [], ◌∷◌, ◌++◌, arith,
  ◌==◌, ltb, if◌then◌else◌,
}
use ucsma_rate_control.Driver.State.{PowerMode}
use ucsma_rate_control.Driver.Power.{ps_wakeup, wakeup-count, restore-count}
use ucsma_rate_control.Driver.Device.{on_softc, is_station, await_beacon}
use ucsma_rate_control.Driver.Interfaces.{
  Vif, calculate_iter_data, Radio, RadioRun, pick_opmode, is_ap, is_sta_if, ath9k_set_assoc_state,
  iterate_sta, ath9k_calculate_summary_state, summarise, ath9k_add_interface,
  ath9k_remove_interface,
}
use ucsma_rate_control.Driver.Interfaces.Summary.{ModeEnd, summary-ModeEnd}

-- What a summary leaves alone.
record Left (r t : Radio) : Type 0 where
  left_nvifs : t.nvifs ≡ r.nvifs
  left_users : t.device.softc.ps_usecount ≡ r.device.softc.ps_usecount
  left_p2p : t.p2p_ps_vif ≡ r.p2p_ps_vif

assoc-Left : (v : Vif) (r : Radio) → Left r (ath9k_set_assoc_state v r).state
unfolding ath9k_set_assoc_state await_beacon
assoc-Left v r = record {
  left_nvifs = ground arith;
  left_users = ground arith;
  left_p2p = ground arith;
}

sta-Left : (vifs : List Vif) (r : Radio) → Left r (iterate_sta vifs r).state
unfolding iterate_sta
sta-Left [] r = record { left_nvifs = refl; left_users = refl; left_p2p = refl }
sta-Left (v ∷ vifs) r =
    let primary = is_sta_if v.if_type && v.primary_sta_vif in
    let set = ath9k_set_assoc_state v r in
    let here : RadioRun = if primary then set else record { state = r; calls = [] } in
    let one = assoc-Left v r in
    let rest = sta-Left vifs here.state in
    record {
      left_nvifs = rest.left_nvifs ∙ ground (arith, one.left_nvifs);
      left_users = rest.left_users ∙ ground (arith, one.left_users);
      left_p2p = rest.left_p2p ∙ ground (arith, one.left_p2p);
    }

if-Left :
    (b : Bool) (r : Radio) (x y : RadioRun)
    → Left r x.state
    → Left r y.state
    → Left r (if b then x else y).state
if-Left true r x y f h = f
if-Left false r x y f h = h

summary-Left :
    (given active : List Vif) (r : Radio)
    → Left r (ath9k_calculate_summary_state given active r).state
unfolding ath9k_calculate_summary_state
summary-Left given active r =
    let it = calculate_iter_data given active in
    let summed = record r {
      device = record r.device {
        opmode = pick_opmode it;
        imask = record r.device.imask { tsfoor = ltb 0 (it.nstations + it.nadhocs + it.nmeshes) };
      };
      macaddr = it.hw_macaddr;
      bssidmask = it.mask;
      tsfadjust = ltb 0 it.naps;
    } in
    let synced = sta-Left active summed in
    if-Left (is_station (pick_opmode it) && is_ap r.device.opmode && r.device.op_prim_sta_vif) r _ _
      (record {
        left_nvifs = synced.left_nvifs;
        left_users = synced.left_users;
        left_p2p = synced.left_p2p;
      })
      (record { left_nvifs = refl; left_users = refl; left_p2p = refl })

module _ (setpower : PowerMode → PowerMode → PowerMode) (btcoex : Bool) where
  -- With a user of its own a summary leaves the count of users, and the mode that it finds.
  record Summed (vifs : List Vif) (r t : Radio) : Type 0 where
    mode : ModeEnd vifs t
    same_nvifs : t.nvifs ≡ r.nvifs
    same_users : t.device.softc.ps_usecount ≡ r.device.softc.ps_usecount

  summarise-Summed :
      (given active : List Vif) (r : Radio)
      → r.device.softc.ps_usecount + 1 < 2 ^ 32
      → Summed (given ++ active) r (summarise setpower btcoex given active r).state
  unfolding summarise
  summarise-Summed given active r fits =
      let up = record r { device = (on_softc (ps_wakeup setpower) r.device).state } in
      let s = ath9k_calculate_summary_state given active up in
      let found = summary-ModeEnd given active up in
      let left = summary-Left given active up in
      record {
        mode = record { asked = found.asked; adjusts = found.adjusts; listens = found.listens };
        same_nvifs = left.left_nvifs;
        same_users =
            restore-count setpower btcoex s.state.device.softc r.device.softc.ps_usecount
              (left.left_users ∙ wakeup-count setpower r.device.softc fits) fits;
      }

  -- What is left after an interface was added and removed.
  pub record Undone (active : List Vif) (r t : Radio) : Type 0 where
    pub mode_again : ModeEnd active t
    pub nvifs_again : t.nvifs ≡ r.nvifs
    pub users_again : t.device.softc.ps_usecount ≡ r.device.softc.ps_usecount

  -- If the number of interfaces and one more user fit, after an interface is added the mode is
  -- that of all of them with it; removing it again gives back the number of interfaces and the
  -- count of users, and the mode that the active interfaces ask for.
  pub add_remove-Undone :
      (v : Vif) (active : List Vif) (r : Radio)
      → r.nvifs < 2 ^ 16
      → r.device.softc.ps_usecount + 1 < 2 ^ 32
      → let added = (ath9k_add_interface setpower btcoex v active r).state in
        ModeEnd (v ∷ active) added
        × Undone active r (ath9k_remove_interface setpower btcoex v active added).state
  unfolding ath9k_add_interface ath9k_remove_interface
  add_remove-Undone v active r small fits =
      let more = record r { nvifs = (r.nvifs + 1) % 2 ^ 16 } in
      let one = summarise-Summed (v ∷ []) active more fits in
      let added = (summarise setpower btcoex (v ∷ []) active more).state in
      let fewer = record added {
        p2p_ps_vif = if added.p2p_ps_vif == v.number then 0 else added.p2p_ps_vif;
        nvifs = (added.nvifs + 2 ^ 16 - 1) % 2 ^ 16;
      } in
      let two = summarise-Summed [] active fewer (omega (arith, fits, one.same_users)) in
      (
        one.mode,
        record {
          mode_again = two.mode;
          nvifs_again = two.same_nvifs ∙ omega (arith, small, one.same_nvifs);
          users_again = two.same_users ∙ one.same_users;
        },
      )
