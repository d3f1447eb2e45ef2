-- ===== src/Driver/Interfaces.antt =====
-- ath9k/main.c: the virtual interfaces, and what the driver reads off all of them. The option TX99 is
-- off, and the interfaces over which mac80211 iterates are a list. An address is its 48 bits.
pub mod Summary
pub mod Match
pub mod Address
pub mod Lifecycle
use ucsma_rate_control.Base.{
  ℕ, ◌+◌, ◌-◌, ◌%◌, ◌^◌, ◌<◌, ◌≡◌, Bool, true, false, not, ◌&&◌, ◌||◌, List, [], ◌∷◌, ◌++◌,
  replicate, arith, ◌==◌, ltb, if◌then◌else◌,
}
use ucsma_rate_control.Driver.State.{
  PowerMode, Call, lock_mutex, unlock_mutex, lock_pcu, unlock_pcu, lock_pm, unlock_pm,
  set_tsfadjust, set_bssidmask, set_opmode, set_interrupts, assign_slot, remove_slot, node_init,
  node_cleanup, write_associd, mci_update,
}
use ucsma_rate_control.Driver.Power.{ps_wakeup, ps_restore}
use ucsma_rate_control.Driver.Device.{
  Ints, Opmode, station, ap, adhoc, mesh_point, is_station, Device, Ran, on_softc, await_beacon,
}

-- The types that the file names; `other_type` is any other.
pub data IfType : Type 0 where
  ap_if station_if adhoc_if mesh_if wds_if other_type : IfType

unfoldable pub uses_beacons : IfType → Bool
uses_beacons ap_if = true
uses_beacons adhoc_if = true
uses_beacons mesh_if = true
uses_beacons station_if = false
uses_beacons wds_if = false
uses_beacons other_type = false

-- An interface: its type, its address, and whether it is the primary station.
pub record Vif : Type 0 where
  pub number : ℕ
  pub if_type : IfType
  pub addr : List Bool
  pub primary_sta_vif : Bool
  pub bssid : List Bool
  pub aid : ℕ

pub record IterData : Type 0 where
  pub hw_macaddr : List Bool
  pub mask : List Bool
  pub has_hw_macaddr : Bool
  pub naps : ℕ
  pub nmeshes : ℕ
  pub nstations : ℕ
  pub nwds : ℕ
  pub nadhocs : ℕ

-- `~(a ^ b)` on one bit.
abbrev pub agree : Bool → Bool → Bool
agree true b = b
agree false b = not b

-- The loop that keeps the bits of the mask in which two addresses agree.
unfoldable pub narrow : (mask hw mac : List Bool) → List Bool
narrow (m ∷ mask) (h ∷ hw) (a ∷ mac) = (m && agree h a) ∷ narrow mask hw mac
narrow (m ∷ mask) (h ∷ hw) [] = m ∷ mask
narrow (m ∷ mask) [] mac = m ∷ mask
narrow [] hw mac = []

abbrev pub is_sta_if : IfType → Bool
is_sta_if station_if = true
is_sta_if _ = false

unfoldable pub count_if : IfType → IterData → IterData
count_if ap_if data' = record data' { naps = data'.naps + 1 }
count_if station_if data' = record data' { nstations = data'.nstations + 1 }
count_if adhoc_if data' = record data' { nadhocs = data'.nadhocs + 1 }
count_if mesh_if data' = record data' { nmeshes = data'.nmeshes + 1 }
count_if wds_if data' = record data' { nwds = data'.nwds + 1 }
count_if other_type data' = data'

unfoldable pub ath9k_vif_iter : IterData → Vif → IterData
unfolding narrow count_if
ath9k_vif_iter data' v =
    let seen =
      if data'.has_hw_macaddr
      then record data' { mask = narrow data'.mask data'.hw_macaddr v.addr }
      else record data' { hw_macaddr = v.addr; has_hw_macaddr = true } in
    count_if v.if_type seen

unfoldable pub iterate : List Vif → IterData → IterData
unfolding ath9k_vif_iter
iterate [] data' = data'
iterate (v ∷ vifs) data' = iterate vifs (ath9k_vif_iter data' v)

-- What the iteration starts with: zeros, and a mask of ones.
abbrev pub no_data : IterData
no_data = record {
  hw_macaddr = replicate 48 false;
  mask = replicate 48 true;
  has_hw_macaddr = false;
  naps = 0;
  nmeshes = 0;
  nstations = 0;
  nwds = 0;
  nadhocs = 0;
}

-- The interface that the caller names comes before the active ones.
unfoldable pub calculate_iter_data : (given active : List Vif) → IterData
unfolding iterate
calculate_iter_data given active = iterate active (iterate given no_data)

-- The driver with what it keeps of the interfaces; `rssi_unknown` is the marker of `last_rssi` and
-- `avgbrssi`, `nvifs` is a short that is read as unsigned, and `p2p_ps_vif` is an interface's number, or 0.
pub record Radio : Type 0 where
  pub device : Device
  pub macaddr : List Bool
  pub bssidmask : List Bool
  pub nvifs : ℕ
  pub tsfadjust : Bool
  pub curbssid : List Bool
  pub curaid : ℕ
  pub rssi_unknown : Bool
  pub p2p_ps_vif : ℕ

pub record RadioRun : Type 0 where
  pub state : Radio
  pub calls : List Call

unfoldable pub pick_opmode : IterData → Opmode
pick_opmode it =
    if ltb 0 it.naps
    then ap
    else if ltb 0 it.nmeshes
    then mesh_point
    else if ltb 0 it.nwds
    then ap
    else if ltb 0 it.nadhocs
    then adhoc
    else station

abbrev pub is_ap : Opmode → Bool
is_ap ap = true
is_ap _ = false

unfoldable pub ath9k_set_assoc_state : Vif → Radio → RadioRun
unfolding await_beacon
ath9k_set_assoc_state v r =
    let primary = record r.device { op_prim_sta_vif = true } in
    let synced = record r {
      device = record primary { softc = await_beacon primary.softc };
      curbssid = v.bssid;
      curaid = v.aid;
      rssi_unknown = true;
    } in
    if is_station r.device.opmode
    then record {
      state = synced;
      calls =
          write_associd
          ∷ lock_pm
          ∷ unlock_pm
          ∷ (if r.device.mci_enabled then mci_update ∷ [] else []);
    }
    else record { state = record r { device = primary }; calls = [] }

-- `ath9k_sta_vif_iter` over the interfaces.
unfoldable pub iterate_sta : List Vif → Radio → RadioRun
unfolding ath9k_set_assoc_state
iterate_sta [] r = record { state = r; calls = [] }
iterate_sta (v ∷ vifs) r =
    let set = ath9k_set_assoc_state v r in
    let is_primary = is_sta_if v.if_type && v.primary_sta_vif in
    let here : RadioRun = if is_primary then set else record { state = r; calls = [] } in
    let rest = iterate_sta vifs here.state in
    record { state = rest.state; calls = here.calls ++ rest.calls }

unfoldable pub ath9k_calculate_summary_state : (given active : List Vif) → Radio → RadioRun
unfolding calculate_iter_data pick_opmode iterate_sta
ath9k_calculate_summary_state given active r =
    let it = calculate_iter_data given active in
    let opmode = pick_opmode it in
    let listens = ltb 0 (it.nstations + it.nadhocs + it.nmeshes) in
    let summed = record r {
      device = record r.device {
        opmode = opmode;
        imask = record r.device.imask { tsfoor = listens };
      };
      macaddr = it.hw_macaddr;
      bssidmask = it.mask;
      tsfadjust = ltb 0 it.naps;
    } in
    let calls = set_bssidmask ∷ set_tsfadjust (ltb 0 it.naps) ∷ set_opmode ∷ set_interrupts ∷ [] in
    let synced = iterate_sta active summed in
    if is_station opmode && is_ap r.device.opmode && r.device.op_prim_sta_vif
    then record { state = synced.state; calls = calls ++ synced.calls }
    else record { state = summed; calls = calls }

-- The summary, with a user of its own.
module _ (setpower : PowerMode → PowerMode → PowerMode) (btcoex : Bool) where
  unfoldable pub summarise : (given active : List Vif) → Radio → RadioRun
  unfolding ath9k_calculate_summary_state
  summarise given active r =
      let up = on_softc (ps_wakeup setpower) r.device in
      let s = ath9k_calculate_summary_state given active (record r { device = up.state }) in
      let down = on_softc (ps_restore setpower btcoex) s.state.device in
      record {
        state = record s.state { device = down.state };
        calls = up.calls ++ (s.calls ++ down.calls);
      }

  unfoldable pub ath9k_add_interface : Vif → (active : List Vif) → Radio → RadioRun
  unfolding summarise uses_beacons
  ath9k_add_interface v active r =
      let s = summarise (v ∷ []) active (record r { nvifs = (r.nvifs + 1) % 2 ^ 16 }) in
      record {
        state = s.state;
        calls =
            lock_mutex ∷ s.calls
            ++ ((if uses_beacons v.if_type then assign_slot ∷ [] else [])
                ++ (node_init ∷ unlock_mutex ∷ []));
      }

  -- `active` is the list after the change of the type.
  unfoldable pub ath9k_change_interface :
      Vif → (new_type : IfType) → (active : List Vif) → Radio → RadioRun
  unfolding summarise uses_beacons
  ath9k_change_interface v new_type active r =
      let changed = record v { if_type = new_type } in
      let s = summarise (changed ∷ []) active r in
      record {
        state = s.state;
        calls =
            lock_mutex ∷ (if uses_beacons v.if_type then remove_slot ∷ [] else [])
            ++ (s.calls
                ++ ((if uses_beacons new_type then assign_slot ∷ [] else [])
                    ++ (unlock_mutex ∷ [])));
      }

  unfoldable pub ath9k_remove_interface : Vif → (active : List Vif) → Radio → RadioRun
  unfolding summarise uses_beacons
  ath9k_remove_interface v active r =
      let forgotten = record r {
        p2p_ps_vif = if r.p2p_ps_vif == v.number then 0 else r.p2p_ps_vif;
        nvifs = (r.nvifs + 2 ^ 16 - 1) % 2 ^ 16;
      } in
      let s = summarise [] active forgotten in
      record {
        state = s.state;
        calls =
            lock_mutex
              ∷ lock_pcu
              ∷ unlock_pcu
              ∷ (if uses_beacons v.if_type then remove_slot ∷ [] else [])
            ++ (s.calls ++ (node_cleanup ∷ unlock_mutex ∷ []));
      }
