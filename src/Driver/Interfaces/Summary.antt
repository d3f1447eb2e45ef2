-- ===== src/Driver/Interfaces/Summary.antt =====
-- ath9k/main.c: the mode that the interfaces ask for, and adding and removing one.
use ucsma_rate_control.Base.{
  ◌+◌, ◌≡◌, refl, sym, subst, Bool, true, false, ◌&&◌, ◌||◌, List, [], ◌∷◌, ◌++◌, arith, ltb,
  if◌then◌else◌,
}
use ucsma_rate_control.Driver.Device.{Opmode, station, ap, adhoc, mesh_point, is_station}
use ucsma_rate_control.Driver.Interfaces.{
  IfType, ap_if, station_if, adhoc_if, mesh_if, wds_if, other_type, Vif, IterData, narrow, count_if,
  ath9k_vif_iter, iterate, no_data, calculate_iter_data, Radio, RadioRun, pick_opmode, is_ap,
  ath9k_set_assoc_state, iterate_sta, is_sta_if, ath9k_calculate_summary_state,
}
use ucsma_rate_control.Driver.Interfaces.Address.{iterate_append}

abbrev pub same_type : IfType → IfType → Bool
same_type ap_if ap_if = true
same_type station_if station_if = true
same_type adhoc_if adhoc_if = true
same_type mesh_if mesh_if = true
same_type wds_if wds_if = true
same_type other_type other_type = true
same_type _ _ = false

-- Some interface has the type.
abbrev pub has_type : IfType → List Vif → Bool
has_type t [] = false
has_type t (v ∷ vifs) = same_type t v.if_type || has_type t vifs

-- The mode, from the types that there are.
abbrev pub asked_mode : List Vif → Opmode
asked_mode vifs =
    if has_type ap_if vifs
    then ap
    else if has_type mesh_if vifs
    then mesh_point
    else if has_type wds_if vifs
    then ap
    else if has_type adhoc_if vifs
    then adhoc
    else station

-- A count is positive where it was or where there is such an interface.
record Counts (d e : IterData) (vifs : List Vif) : Type 0 where
  aps : ltb 0 e.naps ≡ (ltb 0 d.naps || has_type ap_if vifs)
  meshes : ltb 0 e.nmeshes ≡ (ltb 0 d.nmeshes || has_type mesh_if vifs)
  stations : ltb 0 e.nstations ≡ (ltb 0 d.nstations || has_type station_if vifs)
  wdss : ltb 0 e.nwds ≡ (ltb 0 d.nwds || has_type wds_if vifs)
  adhocs : ltb 0 e.nadhocs ≡ (ltb 0 d.nadhocs || has_type adhoc_if vifs)

count-Counts :
    (t : IfType) (d : IterData) (v : Vif) → v.if_type ≡ t → Counts d (count_if t d) (v ∷ [])
unfolding count_if
count-Counts t d v same = rw same (record {
  aps = ground arith;
  meshes = ground arith;
  stations = ground arith;
  wdss = ground arith;
  adhocs = ground arith;
})

iter-Counts : (d : IterData) (v : Vif) → Counts d (ath9k_vif_iter d v) (v ∷ [])
unfolding ath9k_vif_iter
iter-Counts d v =
    let seen =
      if d.has_hw_macaddr
      then record d { mask = narrow d.mask d.hw_macaddr v.addr }
      else record d { hw_macaddr = v.addr; has_hw_macaddr = true } in
    let one = count-Counts v.if_type seen v refl in
    record {
      aps = ground (arith, one.aps);
      meshes = ground (arith, one.meshes);
      stations = ground (arith, one.stations);
      wdss = ground (arith, one.wdss);
      adhocs = ground (arith, one.adhocs);
    }

iterate-Counts : (vifs : List Vif) (d : IterData) → Counts d (iterate vifs d) vifs
unfolding iterate
iterate-Counts [] d = record {
  aps = ground arith;
  meshes = ground arith;
  stations = ground arith;
  wdss = ground arith;
  adhocs = ground arith;
}
iterate-Counts (v ∷ vifs) d =
    let one = iter-Counts d v in
    let rest = iterate-Counts vifs (ath9k_vif_iter d v) in
    record {
      aps = ground (arith, one.aps, rest.aps);
      meshes = ground (arith, one.meshes, rest.meshes);
      stations = ground (arith, one.stations, rest.stations);
      wdss = ground (arith, one.wdss, rest.wdss);
      adhocs = ground (arith, one.adhocs, rest.adhocs);
    }

all-Counts :
    (given active : List Vif) → Counts no_data (calculate_iter_data given active) (given ++ active)
unfolding calculate_iter_data
all-Counts given active =
    subst (λ it. Counts no_data it (given ++ active)) (sym (iterate_append given active no_data))
      (iterate-Counts (given ++ active) no_data)

-- What the summary leaves of the mode.
pub record ModeEnd (vifs : List Vif) (r : Radio) : Type 0 where
  pub asked : r.device.opmode ≡ asked_mode vifs
  pub adjusts : r.tsfadjust ≡ has_type ap_if vifs
  pub listens :
      r.device.imask.tsfoor
      ≡ (has_type station_if vifs || has_type adhoc_if vifs || has_type mesh_if vifs)

iterate_sta-ModeEnd :
    (all vifs : List Vif) (r : Radio) → ModeEnd all r → ModeEnd all (iterate_sta vifs r).state
unfolding iterate_sta ath9k_set_assoc_state
iterate_sta-ModeEnd all [] r m = m
iterate_sta-ModeEnd all (v ∷ vifs) r m =
    let primary = is_sta_if v.if_type && v.primary_sta_vif in
    let here : RadioRun =
      if primary then ath9k_set_assoc_state v r else record { state = r; calls = [] } in
    iterate_sta-ModeEnd all vifs here.state (record {
      asked = ground (arith, m.asked);
      adjusts = ground (arith, m.adjusts);
      listens = ground (arith, m.listens);
    })

mode_of :
    (it : IterData) (vifs : List Vif) → Counts no_data it vifs → pick_opmode it ≡ asked_mode vifs
unfolding pick_opmode
mode_of it vifs c = rw (c.aps, c.meshes, c.wdss, c.adhocs) refl

some_listens :
    (it : IterData) (vifs : List Vif)
    → Counts no_data it vifs
    → ltb 0 (it.nstations + it.nadhocs + it.nmeshes)
      ≡ (has_type station_if vifs || has_type adhoc_if vifs || has_type mesh_if vifs)
some_listens it vifs c = ground (arith, c.stations, c.adhocs, c.meshes)

if-ModeEnd :
    (b : Bool) (vifs : List Vif) (x y : RadioRun)
    → ModeEnd vifs x.state
    → ModeEnd vifs y.state
    → ModeEnd vifs (if b then x else y).state
if-ModeEnd true vifs x y f h = f
if-ModeEnd false vifs x y f h = h

-- The mode is that of an access point where there is one, else that of a mesh point, that of an
-- access point for a WDS, that of an ad hoc network, or that of a station, in this order; the
-- timestamps are adjusted exactly where there is an access point, and timestamps out of range
-- interrupt exactly where there is a station, an ad hoc network or a mesh point.
pub summary-ModeEnd :
    (given active : List Vif) (r : Radio)
    → ModeEnd (given ++ active) (ath9k_calculate_summary_state given active r).state
unfolding ath9k_calculate_summary_state pick_opmode
summary-ModeEnd given active r =
    let vifs = given ++ active in
    let it = calculate_iter_data given active in
    let c = all-Counts given active in
    let summed = record r {
      device = record r.device {
        opmode = pick_opmode it;
        imask = record r.device.imask { tsfoor = ltb 0 (it.nstations + it.nadhocs + it.nmeshes) };
      };
      macaddr = it.hw_macaddr;
      bssidmask = it.mask;
      tsfadjust = ltb 0 it.naps;
    } in
    let here : ModeEnd vifs summed = record {
      asked = mode_of it vifs c;
      adjusts = c.aps;
      listens = some_listens it vifs c;
    } in
    if-ModeEnd (is_station (pick_opmode it) && is_ap r.device.opmode && r.device.op_prim_sta_vif)
      vifs _ _ (iterate_sta-ModeEnd vifs active summed here) here
