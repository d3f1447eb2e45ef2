-- ===== src/Driver/Interfaces/Address.antt =====
-- ath9k/main.c: the hardware's address and the mask, over all the interfaces.
use ucsma_rate_control.Base.{
  ℕ, zero, suc, ◌≡◌, refl, sym, subst, ap, ◌∙◌, Bool, true, List, [], ◌∷◌, ◌++◌, replicate, arith,
  length,
}
use ucsma_rate_control.Driver.Interfaces.{
  Vif, IterData, ath9k_vif_iter, iterate, no_data, calculate_iter_data,
}
use ucsma_rate_control.Driver.Interfaces.Match.{
  within, InSize, all_same, iter_first, iterate-Narrowed, iterate_greatest,
}

pub iterate_append :
    (given active : List Vif) (d : IterData)
    → iterate active (iterate given d) ≡ iterate (given ++ active) d
unfolding iterate
iterate_append [] active d = refl
iterate_append (v ∷ given) active d = iterate_append given active (ath9k_vif_iter d v)

-- The interfaces that are counted, the caller's first.
abbrev pub StartsWith : (given active : List Vif) (first : Vif) (rest : List Vif) → Type 0
StartsWith given active first rest = given ++ active ≡ first ∷ rest

one_by_one :
    (given active : List Vif) (first : Vif) (rest : List Vif)
    → StartsWith given active first rest
    → iterate active (iterate given no_data) ≡ iterate rest (ath9k_vif_iter no_data first)
unfolding iterate
one_by_one given active first rest starts =
    iterate_append given active no_data ∙ ap (λ vifs. iterate vifs no_data) starts

within_ones : (p : List Bool) (n : ℕ) → length p ≡ n → within p (replicate n true) ≡ true
within_ones [] zero e = refl
within_ones [] (suc n) e = ground (arith, e)
within_ones (m ∷ p) zero e = ground (arith, e)
within_ones (m ∷ p) (suc n) e =
    let rest = within_ones p n (omega (arith, e)) in ground (arith, rest)

-- What the iteration over several interfaces leaves of the addresses.
pub record AddressEnd (first : Vif) (rest : List Vif) (it : IterData) : Type 0 where
  pub is_first : it.hw_macaddr ≡ first.addr
  pub all_match : all_same it.mask first.addr rest ≡ true

-- For interfaces with addresses of 48 bits, the hardware takes the address of the first, the
-- caller's if it names one, and under the mask the addresses of all the others are the same as
-- that one.
pub iter_data_address :
    (given active : List Vif) (first : Vif) (rest : List Vif)
    → StartsWith given active first rest
    → InSize (first ∷ rest) 48
    → AddressEnd first rest (calculate_iter_data given active)
unfolding calculate_iter_data
iter_data_address given active first rest starts (this, sizes) =
    let one = ath9k_vif_iter no_data first in
    let kept = iter_first no_data first refl in
    let len : length one.mask ≡ 48 = ap length kept.kept_mask in
    let narrowed =
      iterate-Narrowed rest one kept.kept_has (ap length kept.kept_hw ∙ this ∙ sym len)
        (subst (InSize rest) (sym len) sizes) in
    let end = iterate rest one in
    subst (AddressEnd first rest) (sym (one_by_one given active first rest starts)) (record {
      is_first = narrowed.narrowed_hw ∙ kept.kept_hw;
      all_match = subst (λ h. all_same end.mask h rest ≡ true) kept.kept_hw narrowed.narrowed_same;
    })

-- Any mask of 48 bits under which they are all the same is within the mask that the driver takes.
pub iter_data_greatest :
    (p : List Bool) (given active : List Vif) (first : Vif) (rest : List Vif)
    → StartsWith given active first rest
    → length p ≡ 48
    → all_same p first.addr rest ≡ true
    → within p (calculate_iter_data given active).mask ≡ true
unfolding calculate_iter_data
iter_data_greatest p given active first rest starts size same =
    let one = ath9k_vif_iter no_data first in
    let kept = iter_first no_data first refl in
    subst (λ it. within p it.mask ≡ true) (sym (one_by_one given active first rest starts))
      (iterate_greatest p rest one kept.kept_has
        (subst (λ m. within p m ≡ true) (sym kept.kept_mask) (within_ones p 48 size))
        (subst (λ h. all_same p h rest ≡ true) (sym kept.kept_hw) same))
