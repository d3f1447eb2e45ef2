-- ===== src/Driver/Bss/Primary.antt =====
-- ath9k/main.c: the flag for a primary station and the interfaces that carry it.
use ucsma_rate_control.Base.{
  ℕ, zero, suc, ◌+◌, ◌≡◌, refl, ap, ◌∙◌, inl, inr, Bool, true, false, not, Bool-cases, ◌&&◌, ◌||◌,
  some, some_inj, List, [], ◌∷◌, arith, if◌then◌else◌, get_elem?, set,
}
use ucsma_rate_control.Driver.State.{PowerMode}
use ucsma_rate_control.Driver.Power.{ps_wakeup}
use ucsma_rate_control.Driver.Device.{Device, on_softc}
use ucsma_rate_control.Driver.Interfaces.{Vif, Radio, ath9k_set_assoc_state}
use ucsma_rate_control.Driver.Bss.{
  on_device, BssVif, Bss, BssRun, P2pInputs, Changed, with_primary, assoc_iter, drop_primary,
  change_assoc, change_ibss, change_slot, change_p2p, when, change_parts, bss_info_changed,
}

abbrev pub one_if : Bool → ℕ
one_if b = if b then 1 else 0

abbrev pub primaries : List BssVif → ℕ
primaries [] = 0
primaries (v ∷ vifs) = one_if v.vif.primary_sta_vif + primaries vifs

abbrev pub any_assoc : List BssVif → Bool
any_assoc [] = false
any_assoc (v ∷ vifs) = v.assoc || any_assoc vifs

-- One interface is the primary station if the flag is set, and none if it is not.
abbrev pub IsOnePrimary : Bss → Type 0
IsOnePrimary b = primaries b.vifs ≡ one_if b.radio.device.op_prim_sta_vif

assoc_state_primary :
    (v : Vif) (r : Radio) → (ath9k_set_assoc_state v r).state.device.op_prim_sta_vif ≡ true
unfolding ath9k_set_assoc_state
assoc_state_primary v r = ground arith

-- Once the flag is set, the iteration changes nothing.
iter_done :
    (vifs : List BssVif) (r : Radio)
    → r.device.op_prim_sta_vif ≡ true
    → ((assoc_iter vifs r).vifs ≡ vifs) × ((assoc_iter vifs r).radio.device.op_prim_sta_vif ≡ true)
unfolding assoc_iter
iter_done [] r set' = (refl, set')
iter_done (v ∷ vifs) r set' =
    let (same, still) = iter_done vifs r set' in
    (ground (arith, same, set'), ground (arith, still, set'))

-- From a clear flag, the first interface that is associated becomes the primary one.
iter_finds :
    (vifs : List BssVif) (r : Radio)
    → r.device.op_prim_sta_vif ≡ false
    → primaries vifs ≡ 0
    → let found = assoc_iter vifs r in
      (primaries found.vifs ≡ one_if found.radio.device.op_prim_sta_vif)
      × (found.radio.device.op_prim_sta_vif ≡ any_assoc vifs)
      × (any_assoc found.vifs ≡ any_assoc vifs)
unfolding assoc_iter
iter_finds [] r clear no_primary = (ground (arith, clear), clear, refl)
iter_finds (v ∷ vifs) r clear no_primary =
    let next_state = (ath9k_set_assoc_state v.vif r).state in
    let (kept, on) = iter_done vifs next_state (assoc_state_primary v.vif r) in
    let (one, found, same) = iter_finds vifs r clear (ground (arith, no_primary)) in
    let no_later : primaries vifs ≡ 0 = ground (arith, no_primary) in
    elim (Bool-cases v.assoc) [
      | inl here ↦ (
        ground (arith, kept, on, no_primary, clear, here),
        ground (arith, on, clear, here),
        ground (arith, kept, clear, here),
      )
      | inr away ↦ (
        ground (arith, one, no_primary, clear, away),
        ground (arith, found, clear, away),
        ground (arith, same, clear, away),
      )
    ]

-- An interface that was the primary station and no longer is.
set_primary :
    (vifs : List BssVif) (i : ℕ) (v : BssVif)
    → get_elem? vifs i ≡ some v
    → v.vif.primary_sta_vif ≡ true
    → primaries (set vifs i (with_primary false v)) + 1 ≡ primaries vifs
set_primary [] i v there primary = absurd (cc)
set_primary (w ∷ vifs) zero v there primary =
    let same : w ≡ v = some_inj.0 there in
    let p : w.vif.primary_sta_vif ≡ true = ap (λ u. u.vif.primary_sta_vif) same ∙ primary in
    ground (arith, p)
set_primary (w ∷ vifs) (suc i) v there primary = omega (arith, set_primary vifs i v there primary)

if-OnePrimary :
    (c : Bool) (x y : Bss)
    → (c ≡ true → IsOnePrimary x)
    → (c ≡ false → IsOnePrimary y)
    → IsOnePrimary (if c then x else y)
if-OnePrimary true x y p q = p refl
if-OnePrimary false x y p q = q refl

drop-OnePrimary :
    (i : ℕ) (v : BssVif) (b : Bss)
    → get_elem? b.vifs i ≡ some v
    → IsOnePrimary b
    → IsOnePrimary (drop_primary i v b)
unfolding drop_primary
drop-OnePrimary i v b there one =
    if-OnePrimary (v.vif.primary_sta_vif && not v.assoc) _ b
      (λ gone.
        let primary : v.vif.primary_sta_vif ≡ true = ground (arith, gone) in
        ground (arith, set_primary b.vifs i v there primary, one))
      (λ kept. one)

-- What the iteration leaves, from either state of the flag.
iter-OnePrimary :
    (vifs : List BssVif) (r : Radio)
    → primaries vifs ≡ one_if r.device.op_prim_sta_vif
    → let found = assoc_iter vifs r in
      (primaries found.vifs ≡ one_if found.radio.device.op_prim_sta_vif)
      × ((any_assoc found.vifs && not found.radio.device.op_prim_sta_vif) ≡ false)
iter-OnePrimary vifs r one = elim (Bool-cases r.device.op_prim_sta_vif) [
  | inl set' ↦
      let (same, still) = iter_done vifs r set' in
      (ground (arith, same, still, one, set'), ground (arith, still))
  | inr clear ↦
      let (counted, found, same) = iter_finds vifs r clear (ground (arith, one, clear)) in
      (counted, ground (arith, found, same))
]

-- There is one primary station, and no interface is associated without one.
abbrev AreSettled : Bss → Type 0
AreSettled b = IsOnePrimary b × ((any_assoc b.vifs && not b.radio.device.op_prim_sta_vif) ≡ false)

if-AreSettled :
    (c : Bool) (x y : BssRun)
    → AreSettled x.state
    → AreSettled y.state
    → AreSettled (if c then x else y).state
if-AreSettled true x y p q = p
if-AreSettled false x y p q = q

assoc-AreSettled :
    (i : ℕ) (v : BssVif) (b : Bss)
    → get_elem? b.vifs i ≡ some v
    → IsOnePrimary b
    → AreSettled (change_assoc i v b).state
unfolding change_assoc
assoc-AreSettled i v b there one =
    let dropped = drop_primary i v b in
    let settled = iter-OnePrimary dropped.vifs dropped.radio (drop-OnePrimary i v b there one) in
    if-AreSettled _ _ _ settled settled

-- As much as is known after the first part.
abbrev IsKept : (assoc_changed : Bool) → Bss → Type 0
IsKept assoc_changed b =
    IsOnePrimary b
    × ((assoc_changed && (any_assoc b.vifs && not b.radio.device.op_prim_sta_vif)) ≡ false)

if-IsKept :
    (ac c : Bool) (x y : BssRun)
    → IsKept ac x.state
    → IsKept ac y.state
    → IsKept ac (if c then x else y).state
if-IsKept ac true x y p q = p
if-IsKept ac false x y p q = q

first-IsKept :
    (ac : Bool) (i : ℕ) (v : BssVif) (b : Bss)
    → get_elem? b.vifs i ≡ some v
    → IsOnePrimary b
    → IsKept ac (when ac (change_assoc i v) b).state
first-IsKept true i v b there one = assoc-AreSettled i v b there one
first-IsKept false i v b there one = (one, refl)

module _ (ac : Bool) (v : BssVif) (b : Bss) (kept : IsKept ac b) where
  ibss-IsKept : (c : Bool) → IsKept ac (when c (change_ibss v) b).state
  unfolding change_ibss
  ibss-IsKept c = if-IsKept ac c _ _ kept kept

  slot-IsKept : (c : Bool) → IsKept ac (when c (change_slot v) b).state
  unfolding change_slot
  slot-IsKept c = if-IsKept ac c _ _ (if-IsKept ac _ _ _ kept kept) kept

  p2p-IsKept : (inp : P2pInputs) (c : Bool) → IsKept ac (when c (change_p2p inp v) b).state
  unfolding change_p2p
  p2p-IsKept inp c = if-IsKept ac c _ _ (if-IsKept ac _ _ _ kept kept) kept

parts-IsKept :
    (inp : P2pInputs) (c : Changed) (i : ℕ) (v : BssVif) (b : Bss)
    → get_elem? b.vifs i ≡ some v
    → IsOnePrimary b
    → IsKept c.assoc_changed (change_parts inp c i v b).state
unfolding change_parts
parts-IsKept inp c i v b there one =
    let ac = c.assoc_changed in
    let first = when ac (change_assoc i v) b in
    let second = when c.ibss (change_ibss v) first.state in
    let third = when c.erp_slot (change_slot v) second.state in
    let k1 = first-IsKept ac i v b there one in
    let k2 = ibss-IsKept ac v first.state k1 c.ibss in
    p2p-IsKept ac v third.state (slot-IsKept ac v second.state k2 c.erp_slot) inp c.p2p_ps

-- For an interface of the driver, whatever changed of its network, the flag for a primary station
-- is set afterwards just when one interface carries the mark, and no two do, if that was so
-- before; and after a change of the association no interface is associated without a primary one.
pub bss-OnePrimary :
    (setpower : PowerMode → PowerMode → PowerMode) (btcoex : Bool) (inp : P2pInputs) (c : Changed)
    (i : ℕ) (v : BssVif) (b : Bss)
    → get_elem? b.vifs i ≡ some v
    → IsOnePrimary b
    → let after = (bss_info_changed setpower btcoex inp c i b).state in
      IsOnePrimary after
      × ((c.assoc_changed && (any_assoc after.vifs && not after.radio.device.op_prim_sta_vif))
          ≡ false)
unfolding bss_info_changed
bss-OnePrimary setpower btcoex inp c i v b there one =
    let up = on_softc (ps_wakeup setpower) b.radio.device in
    rw there (parts-IsKept inp c i v (on_device (λ (d : Device). up.state) b) there one)
