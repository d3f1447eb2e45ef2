-- ===== src/Driver/Dma/Laws.antt =====
-- ath9k/init.c: `ath_descdma_setup` ends, and what it lays out.
use ucsma_rate_control.Base.{
  ℕ, zero, suc, ◌+◌, ◌*◌, ◌%◌, ◌≤◌, ◌<◌, ◌≡◌, refl, ap, ◌∙◌, inl, inr, Bool, true, false,
  Bool-cases, some, List, [], ◌∷◌, ◌==◌, leb, arith, length,
}
use ucsma_rate_control.Base.Int.{pos}
use ucsma_rate_control.Kernel.{u32}
use ucsma_rate_control.Driver.Dma.{
  DescDma, bound_check, num_skipped, ds2phys, extend_len, Place, placed, bug, out_of_fuel,
  skip_bound, place, Buffer, Setup, returned, crashed, unfinished, buffer_at, add_first, lay_out,
}

pub small_product : (s d : ℕ) → d < 4096 → s * d ≤ s * 4095
small_product zero d h = omega arith
small_product (suc s) d h = omega (arith, small_product s d h)

pub fewer_skipped : (s d : ℕ) → d < 4096 → 0 < s → num_skipped (u32 (s * d)) < s
fewer_skipped s d h some_left = omega (arith, small_product s d h)

pub extend_more :
    (fuel d s len : ℕ)
    → let dma_len = u32 (suc s * d) in
      extend_len (suc fuel) d (suc s) len
      ≡ extend_len fuel d (num_skipped dma_len) (u32 (len + dma_len))
unfolding extend_len
extend_more fuel d s len =
    let some_left : (suc s == 0) ≡ false = ground arith in rw (some_left, extend_len) refl

-- Each round skips fewer descriptors than the last, so as many rounds as there are are enough.
pub extend-returns :
    (fuel d s len : ℕ) → d < 4096 → s < fuel → (total : ℕ) × (extend_len fuel d s len ≡ some total)
unfolding extend_len
extend-returns zero d s len small enough = absurd (omega arith)
extend-returns (suc fuel) d zero len small enough = (len, refl)
extend-returns (suc fuel) d (suc s) len small enough =
    let fewer = fewer_skipped (suc s) d small (omega arith) in
    let (total, rest) =
      extend-returns fuel d (num_skipped (u32 (suc s * d))) (u32 (len + u32 (suc s * d))) small
        (omega arith) in
    (total, extend_more fuel d s len ∙ rest)

-- Thirty-two double words from the address on lie in one page.
abbrev pub InPage : (daddr : ℕ) → Type 0
InPage daddr = daddr % 4096 + 128 ≤ 4096

abbrev pub GoodPlace : Bool → DescDma → (ds : ℕ) → Place → Type 0
GoodPlace splittrans dd ds (placed at) = (ds ≤ at) × (splittrans ≡ false → InPage (ds2phys dd at))
GoodPlace splittrans dd ds bug = Unit
GoodPlace splittrans dd ds out_of_fuel = ⊥

pub weaken_place :
    (splittrans : Bool) (dd : DescDma) (ds later : ℕ) (p : Place)
    → ds ≤ later
    → GoodPlace splittrans dd later p
    → GoodPlace splittrans dd ds p
weaken_place splittrans dd ds later (placed at) h (from, page) = (omega arith, page)
weaken_place splittrans dd ds later bug h g = tt
weaken_place splittrans dd ds later out_of_fuel h g = g

pub bound-InPage : (daddr : ℕ) → bound_check daddr ≡ false → InPage daddr
bound-InPage daddr h = ground (arith, h)

module _ (fuel : ℕ) (dd : DescDma) (step ds : ℕ) where
  pub skip_good : bound_check (ds2phys dd ds) ≡ false → skip_bound (suc fuel) dd step ds ≡ placed ds
  unfolding skip_bound
  skip_good good = rw (good, skip_bound) refl

  pub skip_past :
      bound_check (ds2phys dd ds) ≡ true
      → leb (dd.dd_desc + dd.dd_desc_len) ds ≡ true
      → skip_bound (suc fuel) dd step ds ≡ bug
  unfolding skip_bound
  skip_past crossing past = rw (crossing, skip_bound) (rw past refl)

  pub skip_inside :
      bound_check (ds2phys dd ds) ≡ true
      → leb (dd.dd_desc + dd.dd_desc_len) ds ≡ false
      → skip_bound (suc fuel) dd step ds ≡ skip_bound fuel dd step (ds + step)
  unfolding skip_bound
  skip_inside crossing inside = rw (crossing, skip_bound) (rw inside refl)

pub skip-GoodPlace :
    (fuel : ℕ) (dd : DescDma) (step ds : ℕ)
    → 0 < step
    → 0 < fuel
    → dd.dd_desc + dd.dd_desc_len < ds + fuel
    → GoodPlace false dd ds (skip_bound fuel dd step ds)
skip-GoodPlace zero dd step ds forward some_fuel enough = absurd (omega arith)
skip-GoodPlace (suc fuel) dd step ds forward some_fuel enough =
    elim (Bool-cases (bound_check (ds2phys dd ds))) [
      | inr good ↦
          let page = bound-InPage (ds2phys dd ds) good in
          rw (GoodPlace, skip_good fuel dd step ds good) (omega arith, λ whole. page)
      | inl crossing ↦ elim (Bool-cases (leb (dd.dd_desc + dd.dd_desc_len) ds)) [
        | inl past ↦ rw (GoodPlace, skip_past fuel dd step ds crossing past) tt
        | inr outside ↦
            let below : ds < dd.dd_desc + dd.dd_desc_len = ground (arith, outside) in
            rw (skip_inside fuel dd step ds crossing outside) (
              weaken_place false dd ds (ds + step) (skip_bound fuel dd step (ds + step))
                (omega arith)
                (skip-GoodPlace fuel dd step (ds + step) forward (omega arith) (omega arith)))
      ]
    ]

pub place-GoodPlace :
    (splittrans : Bool) (dd : DescDma) (step ds : ℕ)
    → 0 < step
    → dd.dd_desc ≤ ds
    → GoodPlace splittrans dd ds (place splittrans dd step ds)
unfolding place
place-GoodPlace true dd step ds forward inside = (omega arith, λ split. absurd (cc))
place-GoodPlace false dd step ds forward inside =
    skip-GoodPlace (suc dd.dd_desc_len) dd step ds forward (omega arith) (omega arith)

-- Buffers from the address `ds` on, at least `step` apart, each with the bus address of its
-- descriptor, and in one page where the chip does not split transfers.
abbrev pub Spaced : Bool → DescDma → (step ds : ℕ) → List Buffer → Type 0
Spaced splittrans dd step ds [] = Unit
Spaced splittrans dd step ds (bf ∷ rest) =
    (ds ≤ bf.bf_desc)
    × (bf.bf_daddr ≡ ds2phys dd bf.bf_desc)
    × (splittrans ≡ false → InPage bf.bf_daddr)
    × Spaced splittrans dd step (bf.bf_desc + step) rest

abbrev pub LaysOut : Bool → DescDma → (step nbuf ds : ℕ) → Setup → Type 0
LaysOut splittrans dd step nbuf ds (returned result dd' head) =
    (result ≡ pos 0) × (dd' ≡ dd) × (length head ≡ nbuf) × Spaced splittrans dd step ds head
LaysOut splittrans dd step nbuf ds crashed = splittrans ≡ false
LaysOut splittrans dd step nbuf ds unfinished = ⊥

pub add_first-LaysOut :
    (splittrans : Bool) (dd : DescDma) (step nbuf ds at : ℕ) (rest : Setup)
    → ds ≤ at
    → (splittrans ≡ false → InPage (ds2phys dd at))
    → LaysOut splittrans dd step nbuf (at + step) rest
    → LaysOut splittrans dd step (suc nbuf) ds (add_first (buffer_at dd at) rest)
add_first-LaysOut splittrans dd step nbuf ds at (returned result dd' head) from page
      (ok, same, count, spaced) =
    (ok, same, ap suc count, (from, refl, page, spaced))
add_first-LaysOut splittrans dd step nbuf ds at crashed from page split = split
add_first-LaysOut splittrans dd step nbuf ds at unfinished from page never = never

pub bug-LaysOut :
    (splittrans : Bool) (dd : DescDma) (step ds : ℕ)
    → place splittrans dd step ds ≡ bug
    → splittrans ≡ false
unfolding place
bug-LaysOut true dd step ds h = absurd (cc)
bug-LaysOut false dd step ds h = refl

pub lay_out-LaysOut :
    (splittrans : Bool) (dd : DescDma) (step nbuf ds : ℕ)
    → 0 < step
    → dd.dd_desc ≤ ds
    → LaysOut splittrans dd step nbuf ds (lay_out splittrans dd step nbuf ds)
unfolding lay_out
lay_out-LaysOut splittrans dd step zero ds forward inside = (refl, refl, refl, tt)
lay_out-LaysOut splittrans dd step (suc nbuf) ds forward inside =
    let good = place-GoodPlace splittrans dd step ds forward inside in
    elim (place splittrans dd step ds)
        as (λ p.
          place splittrans dd step ds ≡ p
          → GoodPlace splittrans dd ds p
          → LaysOut splittrans dd step (suc nbuf) ds (elim p [
            | placed at ↦ add_first (buffer_at dd at) (lay_out splittrans dd step nbuf (at + step))
            | bug ↦ crashed
            | out_of_fuel ↦ unfinished
          ])) [
            | placed at ↦ λ e (from, page).
                add_first-LaysOut splittrans dd step nbuf ds at _ from page
                  (lay_out-LaysOut splittrans dd step nbuf (at + step) forward (omega arith))
            | bug ↦ λ e g. bug-LaysOut splittrans dd step ds e
            | out_of_fuel ↦ λ e g. g
          ]
      refl good
