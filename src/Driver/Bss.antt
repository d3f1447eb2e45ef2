-- ===== src/Driver/Bss.antt =====
-- ath9k/main.c: `ath9k_bss_info_changed`, and which interface is the primary station.
pub mod Primary
use ucsma_rate_control.Base.{
  ℕ, zero, suc, Bool, true, false, not, ◌&&◌, ◌||◌, Option, none, some, List, [], ◌∷◌, ◌++◌,
  if◌then◌else◌, get_elem?, set, replicate,
}
use ucsma_rate_control.Driver.State.{
  PowerMode, Call, lock_mutex, unlock_mutex, lock_pcu, unlock_pcu, lock_pm, unlock_pm,
  write_associd, mci_update, beacon_config, init_global_settings, check_ani,
}
use ucsma_rate_control.Driver.Power.{ps_wakeup, ps_restore}
use ucsma_rate_control.Driver.Device.{Device, on_softc, is_station}
use ucsma_rate_control.Driver.Interfaces.{
  IfType, ap_if, is_sta_if, Vif, Radio, RadioRun, ath9k_set_assoc_state,
}
use ucsma_rate_control.Driver.PeerToPeer.{Noa, FollowRun, update_p2p_ps}

-- The bits `BSS_CHANGED_…` that the function reads.
pub record Changed : Type 0 where
  pub assoc_changed : Bool
  pub ibss : Bool
  pub beacon_enabled : Bool
  pub beacon_int : Bool
  pub erp_slot : Bool
  pub p2p_ps : Bool

-- An interface with what mac80211 keeps of its network: `vif->bss_conf` as it is after the change.
pub record BssVif : Type 0 where
  pub vif : Vif
  pub assoc : Bool
  pub use_short_slot : Bool
  pub p2p : Bool

-- The driver with its interfaces, and the slot times of `sc->beacon` and of `ah`.
pub record Bss : Type 0 where
  pub radio : Radio
  pub vifs : List BssVif
  pub beacon_slottime : ℕ
  pub updateslot : Bool
  pub ah_slottime : ℕ

pub record BssRun : Type 0 where
  pub state : Bss
  pub calls : List Call

-- What the timer's part is given: the parser of the notice, whether there is a timer, two readings of
-- the clock, and the notice before.
pub record P2pInputs : Type 0 where
  pub parse : Noa → ℕ → Noa
  pub has_timer : Bool
  pub tsf_first : ℕ
  pub tsf_second : ℕ
  pub noa_before : Noa

abbrev pub with_primary : (primary : Bool) → BssVif → BssVif
with_primary primary v = record v { vif = record v.vif { primary_sta_vif = primary } }

-- The interfaces and the driver after `ath9k_bss_assoc_iter` has seen each.
pub record AssocRun : Type 0 where
  pub radio : Radio
  pub vifs : List BssVif
  pub calls : List Call

unfoldable pub assoc_iter : List BssVif → Radio → AssocRun
assoc_iter [] r = record { radio = r; vifs = []; calls = [] }
assoc_iter (v ∷ vifs) r =
    let assoc = ath9k_set_assoc_state v.vif r in
    let taken = not r.device.op_prim_sta_vif && v.assoc in
    let here : RadioRun = if taken then assoc else record { state = r; calls = [] } in
    let rest = assoc_iter vifs here.state in
    record {
      radio = rest.radio;
      vifs = (if taken then with_primary true v else v) ∷ rest.vifs;
      calls = here.calls ++ rest.calls;
    }

-- `if (avp->primary_sta_vif && !bss_conf->assoc)`, for the interface at `i`.
unfoldable pub drop_primary : (i : ℕ) → BssVif → Bss → Bss
drop_primary i v b =
    if v.vif.primary_sta_vif && not v.assoc
    then record b {
      vifs = set b.vifs i (with_primary false v);
      radio = record b.radio {
        device = record b.radio.device {
          op_prim_sta_vif = false;
          op_beacons =
              if is_station b.radio.device.opmode then false else b.radio.device.op_beacons;
        };
      };
    }
    else b

-- The part under `changed & BSS_CHANGED_ASSOC`.
unfoldable pub change_assoc : (i : ℕ) → BssVif → Bss → BssRun
unfolding assoc_iter drop_primary
change_assoc i v b =
    let dropped = drop_primary i v b in
    let found = assoc_iter dropped.vifs dropped.radio in
    let kept = record dropped { radio = found.radio; vifs = found.vifs } in
    if not found.radio.device.op_prim_sta_vif && is_station found.radio.device.opmode
    then record {
      state = record kept {
        radio = record found.radio { curbssid = replicate 48 false; curaid = 0 };
      };
      calls =
          found.calls
          ++ (write_associd ∷ (if found.radio.device.mci_enabled then mci_update ∷ [] else []));
    }
    else record { state = kept; calls = found.calls }

unfoldable pub change_ibss : BssVif → Bss → BssRun
change_ibss v b = record {
  state = record b { radio = record b.radio { curbssid = v.vif.bssid; curaid = v.vif.aid } };
  calls = write_associd ∷ [];
}

abbrev pub is_ap_if : IfType → Bool
is_ap_if ap_if = true
is_ap_if _ = false

unfoldable pub change_slot : BssVif → Bss → BssRun
change_slot v b =
    let slottime : ℕ = if v.use_short_slot then 9 else 20 in
    if is_ap_if v.vif.if_type
    then record { state = record b { beacon_slottime = slottime; updateslot = true }; calls = [] }
    else record { state = record b { ah_slottime = slottime }; calls = init_global_settings ∷ [] }

unfoldable pub change_p2p : P2pInputs → BssVif → Bss → BssRun
unfolding update_p2p_ps
change_p2p inp v b =
    let f =
      update_p2p_ps inp.parse inp.has_timer (is_sta_if v.vif.if_type) v.p2p false inp.tsf_first
        inp.tsf_second inp.noa_before in
    let followed : BssRun = record {
      state = record b {
        radio = record b.radio {
          p2p_ps_vif = if f.follows then v.vif.number else b.radio.p2p_ps_vif;
        };
      };
      calls = f.follow_calls;
    } in
    if b.radio.device.softc.ps_flags.beacon_sync
    then record { state = b; calls = lock_pcu ∷ lock_pm ∷ unlock_pm ∷ unlock_pcu ∷ [] }
    else record followed {
      calls = lock_pcu ∷ lock_pm ∷ (followed.calls ++ (unlock_pm ∷ unlock_pcu ∷ []));
    }

-- One part of the function, where its bit is set.
abbrev pub when : Bool → (Bss → BssRun) → Bss → BssRun
when b part s = if b then part s else record { state = s; calls = [] }

abbrev pub then_part : BssRun → (Bss → BssRun) → BssRun
then_part r part = record { state = (part r.state).state; calls = r.calls ++ (part r.state).calls }

abbrev pub on_device : (Device → Device) → Bss → Bss
on_device f b = record b { radio = record b.radio { device = f b.radio.device } }

-- Between the two ends of the function.
unfoldable pub change_parts : P2pInputs → Changed → (i : ℕ) → BssVif → Bss → BssRun
unfolding change_assoc change_ibss change_slot change_p2p
change_parts inp c i v b =
    let assoc = when c.assoc_changed (change_assoc i v) b in
    let ibss = then_part assoc (when c.ibss (change_ibss v)) in
    let beacon = record ibss {
      calls = ibss.calls ++ (if c.beacon_enabled || c.beacon_int then beacon_config ∷ [] else []);
    } in
    let slot = then_part beacon (when c.erp_slot (change_slot v)) in
    let p2p = then_part slot (when c.p2p_ps (change_p2p inp v)) in
    record p2p {
      calls =
          p2p.calls
          ++ (if c.assoc_changed || c.ibss || c.beacon_enabled then check_ani ∷ [] else []);
    }

module _ (setpower : PowerMode → PowerMode → PowerMode) (btcoex : Bool) where
  -- `i` is the place of the interface among the driver's; there is always one.
  unfoldable pub bss_info_changed : P2pInputs → Changed → (i : ℕ) → Bss → BssRun
  unfolding change_parts
  bss_info_changed inp c i b =
      let up = on_softc (ps_wakeup setpower) b.radio.device in
      let awake = on_device (λ (d : Device). up.state) b in
      let done : BssRun = elim (get_elem? b.vifs i) [
        | none ↦ record { state = awake; calls = [] }
        | some v ↦ change_parts inp c i v awake
      ] in
      let down = on_softc (ps_restore setpower btcoex) done.state.radio.device in
      record {
        state = on_device (λ (d : Device). down.state) done.state;
        calls = up.calls ++ (lock_mutex ∷ (done.calls ++ (unlock_mutex ∷ down.calls)));
      }
