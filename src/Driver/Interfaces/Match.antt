-- ===== src/Driver/Interfaces/Match.antt =====
-- ath9k/main.c: the mask under which the addresses of the interfaces are the same.
use ucsma_rate_control.Base.{
  ℕ, suc, ◌≡◌, refl, sym, subst, ap, ◌∙◌, Bool, true, false, not, ◌&&◌, ◌||◌, List, [], ◌∷◌, arith,
  length,
}
use ucsma_rate_control.Driver.Interfaces.{
  IfType, ap_if, station_if, adhoc_if, mesh_if, wds_if, other_type, Vif, IterData, agree, narrow,
  count_if, ath9k_vif_iter, iterate,
}

-- Two addresses of the mask's length are the same where the mask has its bits.
abbrev pub same_under : (mask a b : List Bool) → Bool
same_under (m ∷ mask) (x ∷ a) (y ∷ b) = (not m || agree x y) && same_under mask a b
same_under [] [] [] = true
same_under _ _ _ = false

-- Every bit of the first mask is one of the second.
abbrev pub within : (mask other : List Bool) → Bool
within (m ∷ mask) (n ∷ other) = (not m || n) && within mask other
within [] [] = true
within _ _ = false

narrow_same :
    (mask hw mac : List Bool)
    → length hw ≡ length mask
    → length mac ≡ length mask
    → same_under (narrow mask hw mac) hw mac ≡ true
unfolding narrow
narrow_same [] [] [] p q = refl
narrow_same [] (h ∷ hw) mac p q = ground (arith, p)
narrow_same [] [] (a ∷ mac) p q = ground (arith, q)
narrow_same (m ∷ mask) [] mac p q = ground (arith, p)
narrow_same (m ∷ mask) (h ∷ hw) [] p q = ground (arith, q)
narrow_same (m ∷ mask) (h ∷ hw) (a ∷ mac) p q =
    let rest = narrow_same mask hw mac (omega (arith, p)) (omega (arith, q)) in ground (arith, rest)

within_refl : (mask : List Bool) → within mask mask ≡ true
within_refl [] = refl
within_refl (m ∷ mask) = ground (arith, within_refl mask)

within_trans : (a b c : List Bool) → within a b ≡ true → within b c ≡ true → within a c ≡ true
within_trans [] [] [] p q = refl
within_trans [] [] (z ∷ c) p q = ground (arith, q)
within_trans [] (y ∷ b) c p q = ground (arith, p)
within_trans (x ∷ a) [] c p q = ground (arith, p)
within_trans (x ∷ a) (y ∷ b) [] p q = ground (arith, q)
within_trans (x ∷ a) (y ∷ b) (z ∷ c) p q =
    let rest = within_trans a b c (ground (arith, p)) (ground (arith, q)) in
    ground (arith, p, q, rest)

same_within :
    (p q a b : List Bool) → within p q ≡ true → same_under q a b ≡ true → same_under p a b ≡ true
same_within [] [] a b w s = s
same_within [] (n ∷ q) a b w s = ground (arith, w)
same_within (m ∷ p) [] a b w s = ground (arith, w)
same_within (m ∷ p) (n ∷ q) [] b w s = ground (arith, s)
same_within (m ∷ p) (n ∷ q) (x ∷ a) [] w s = ground (arith, s)
same_within (m ∷ p) (n ∷ q) (x ∷ a) (y ∷ b) w s =
    let rest = same_within p q a b (ground (arith, w)) (ground (arith, s)) in
    ground (arith, w, s, rest)

narrow-within : (mask hw mac : List Bool) → within (narrow mask hw mac) mask ≡ true
unfolding narrow
narrow-within [] hw mac = refl
narrow-within (m ∷ mask) [] mac = within_refl (m ∷ mask)
narrow-within (m ∷ mask) (h ∷ hw) [] = within_refl (m ∷ mask)
narrow-within (m ∷ mask) (h ∷ hw) (a ∷ mac) = ground (arith, narrow-within mask hw mac)

narrow_greatest :
    (p mask hw mac : List Bool)
    → within p mask ≡ true
    → same_under p hw mac ≡ true
    → within p (narrow mask hw mac) ≡ true
unfolding narrow
narrow_greatest [] [] hw mac w s = refl
narrow_greatest [] (m ∷ mask) hw mac w s = ground (arith, w)
narrow_greatest (n ∷ p) [] hw mac w s = ground (arith, w)
narrow_greatest (n ∷ p) (m ∷ mask) [] mac w s = w
narrow_greatest (n ∷ p) (m ∷ mask) (h ∷ hw) [] w s = w
narrow_greatest (n ∷ p) (m ∷ mask) (h ∷ hw) (a ∷ mac) w s =
    let rest = narrow_greatest p mask hw mac (ground (arith, w)) (ground (arith, s)) in
    ground (arith, w, s, rest)

length-narrow : (mask hw mac : List Bool) → length (narrow mask hw mac) ≡ length mask
unfolding narrow
length-narrow [] hw mac = refl
length-narrow (m ∷ mask) [] mac = refl
length-narrow (m ∷ mask) (h ∷ hw) [] = refl
length-narrow (m ∷ mask) (h ∷ hw) (a ∷ mac) = ap suc (length-narrow mask hw mac)

-- The count leaves the addresses alone.
pub record Kept (d e : IterData) : Type 0 where
  pub kept_hw : e.hw_macaddr ≡ d.hw_macaddr
  pub kept_mask : e.mask ≡ d.mask
  pub kept_has : e.has_hw_macaddr ≡ d.has_hw_macaddr

count-Kept : (t : IfType) (d : IterData) → Kept d (count_if t d)
unfolding count_if
count-Kept ap_if d = record { kept_hw = refl; kept_mask = refl; kept_has = refl }
count-Kept station_if d = record { kept_hw = refl; kept_mask = refl; kept_has = refl }
count-Kept adhoc_if d = record { kept_hw = refl; kept_mask = refl; kept_has = refl }
count-Kept mesh_if d = record { kept_hw = refl; kept_mask = refl; kept_has = refl }
count-Kept wds_if d = record { kept_hw = refl; kept_mask = refl; kept_has = refl }
count-Kept other_type d = record { kept_hw = refl; kept_mask = refl; kept_has = refl }

-- One interface after the first.
iter_next :
    (d : IterData) (v : Vif)
    → d.has_hw_macaddr ≡ true
    → Kept (record d { mask = narrow d.mask d.hw_macaddr v.addr }) (ath9k_vif_iter d v)
unfolding ath9k_vif_iter
iter_next d v has = rw has (
    count-Kept v.if_type
      (record d { mask = narrow d.mask d.hw_macaddr v.addr; has_hw_macaddr = true }))

-- The first interface.
pub iter_first :
    (d : IterData) (v : Vif)
    → d.has_hw_macaddr ≡ false
    → Kept (record d { hw_macaddr = v.addr; has_hw_macaddr = true }) (ath9k_vif_iter d v)
unfolding ath9k_vif_iter
iter_first d v none_yet =
    rw none_yet (count-Kept v.if_type (record d { hw_macaddr = v.addr; has_hw_macaddr = true }))

-- Addresses of the size of a mask.
abbrev pub InSize : List Vif → ℕ → Type 0
InSize [] n = Unit
InSize (v ∷ vifs) n = (length v.addr ≡ n) × InSize vifs n

abbrev pub all_same : (mask hw : List Bool) → List Vif → Bool
all_same mask hw [] = true
all_same mask hw (v ∷ vifs) = same_under mask hw v.addr && all_same mask hw vifs

pub record Narrowed (d e : IterData) (vifs : List Vif) : Type 0 where
  pub narrowed_hw : e.hw_macaddr ≡ d.hw_macaddr
  pub narrowed_mask : within e.mask d.mask ≡ true
  pub narrowed_same : all_same e.mask d.hw_macaddr vifs ≡ true

pub iterate-Narrowed :
    (vifs : List Vif) (d : IterData)
    → d.has_hw_macaddr ≡ true
    → length d.hw_macaddr ≡ length d.mask
    → InSize vifs (length d.mask)
    → Narrowed d (iterate vifs d) vifs
unfolding iterate
iterate-Narrowed [] d has size sizes = record {
  narrowed_hw = refl;
  narrowed_mask = within_refl d.mask;
  narrowed_same = refl;
}
iterate-Narrowed (v ∷ vifs) d has size (this, sizes) =
    let next = ath9k_vif_iter d v in
    let mask = narrow d.mask d.hw_macaddr v.addr in
    let kept = iter_next d v has in
    let len : length next.mask ≡ length d.mask =
      ap length kept.kept_mask ∙ length-narrow d.mask d.hw_macaddr v.addr in
    let rest =
      iterate-Narrowed vifs next (kept.kept_has ∙ has) (ap length kept.kept_hw ∙ size ∙ sym len)
        (subst (InSize vifs) (sym len) sizes) in
    let end = iterate vifs next in
    let inner : within end.mask mask ≡ true =
      subst (λ m. within end.mask m ≡ true) kept.kept_mask rest.narrowed_mask in
    let others : all_same end.mask d.hw_macaddr vifs ≡ true =
      subst (λ h. all_same end.mask h vifs ≡ true) kept.kept_hw rest.narrowed_same in
    let here =
      same_within end.mask mask d.hw_macaddr v.addr inner
        (narrow_same d.mask d.hw_macaddr v.addr size this) in
    record {
      narrowed_hw = rest.narrowed_hw ∙ kept.kept_hw;
      narrowed_mask =
          within_trans end.mask mask d.mask inner (narrow-within d.mask d.hw_macaddr v.addr);
      narrowed_same = rw (here, others) refl;
    }

pub iterate_greatest :
    (p : List Bool) (vifs : List Vif) (d : IterData)
    → d.has_hw_macaddr ≡ true
    → within p d.mask ≡ true
    → all_same p d.hw_macaddr vifs ≡ true
    → within p (iterate vifs d).mask ≡ true
unfolding iterate
iterate_greatest p [] d has w s = w
iterate_greatest p (v ∷ vifs) d has w s =
    let next = ath9k_vif_iter d v in
    let kept = iter_next d v has in
    let here : same_under p d.hw_macaddr v.addr ≡ true = ground (arith, s) in
    let others : all_same p d.hw_macaddr vifs ≡ true = ground (arith, s) in
    iterate_greatest p vifs next (kept.kept_has ∙ has)
      (subst (λ m. within p m ≡ true) (sym kept.kept_mask)
        (narrow_greatest p d.mask d.hw_macaddr v.addr w here))
      (subst (λ h. all_same p h vifs ≡ true) (sym kept.kept_hw) others)
