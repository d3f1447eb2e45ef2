-- ===== src/Driver/Dma.antt =====
-- ath9k/init.c: `ath_descdma_setup`, which lays the descriptors of a queue out in one block of DMA
-- memory, with the macros of ath9k.h. Addresses are natural numbers.
pub mod Laws
pub mod Outcome
use ucsma_rate_control.Base.{
  ℕ, zero, suc, ◌+◌, ◌-◌, ◌*◌, ◌/◌, ◌%◌, Bool, true, false, not, Option, none, some, List, [], ◌∷◌,
  ◌==◌, ltb, leb, if◌then◌else◌,
}
use ucsma_rate_control.Base.Int.{ℤ, pos, negsuc}
use ucsma_rate_control.Kernel.{u32}

-- `dd_desc` is 0 for NULL.
pub record DescDma : Type 0 where
  pub dd_desc : ℕ
  pub dd_desc_paddr : ℕ
  pub dd_desc_len : ℕ

-- `ATH_DESC_4KB_BOUND_CHECK`; `& 0xFFF` is the remainder by 4096, and 0xF7F is 3967.
abbrev pub bound_check : (daddr : ℕ) → Bool
bound_check daddr = ltb 3967 (daddr % 4096)

-- `ATH_DESC_4KB_BOUND_NUM_SKIPPED`
abbrev pub num_skipped : (len : ℕ) → ℕ
num_skipped len = len / 4096

-- `DS2PHYS`
abbrev pub ds2phys : DescDma → (ds : ℕ) → ℕ
ds2phys dd ds = dd.dd_desc_paddr + (ds - dd.dd_desc)

-- `while (ndesc_skipped)`: the length with the room for skipped descriptors, `none` without fuel.
unfoldable pub extend_len : (fuel desc_len ndesc_skipped dd_desc_len : ℕ) → Option ℕ
extend_len zero desc_len ndesc_skipped dd_desc_len = none
extend_len (suc fuel) desc_len ndesc_skipped dd_desc_len =
    let dma_len = u32 (ndesc_skipped * desc_len) in
    elim (ndesc_skipped == 0) [
      | true ↦ some dd_desc_len
      | false ↦ extend_len fuel desc_len (num_skipped dma_len) (u32 (dd_desc_len + dma_len))
    ]

-- Where a descriptor is put, the BUG_ON, or no fuel left.
pub data Place : Type 0 where
  placed : (ds : ℕ) → Place
  bug : Place
  out_of_fuel : Place

-- `while (ATH_DESC_4KB_BOUND_CHECK(bf->bf_daddr))`
unfoldable pub skip_bound : (fuel : ℕ) → DescDma → (step ds : ℕ) → Place
skip_bound zero dd step ds = out_of_fuel
skip_bound (suc fuel) dd step ds = elim (bound_check (ds2phys dd ds)) [
  | false ↦ placed ds
  | true ↦ elim (leb (dd.dd_desc + dd.dd_desc_len) ds) [
    | true ↦ bug
    | false ↦ skip_bound fuel dd step (ds + step)
  ]
]

-- Every round but the last starts below the end of the block, and takes a step of at least 1.
unfoldable pub place : (splittrans : Bool) → DescDma → (step ds : ℕ) → Place
unfolding skip_bound
place splittrans dd step ds =
    if splittrans then placed ds else skip_bound (suc dd.dd_desc_len) dd step ds

-- `ath_buf` and `ath_rxbuf`, as far as they are set here.
pub record Buffer : Type 0 where
  pub bf_desc : ℕ
  pub bf_daddr : ℕ

-- `crashed` is a BUG_ON that fires.
pub data Setup : Type 0 where
  returned : (result : ℤ) → DescDma → (head : List Buffer) → Setup
  crashed : Setup
  unfinished : Setup

abbrev pub buffer_at : DescDma → (ds : ℕ) → Buffer
buffer_at dd ds = record { bf_desc = ds; bf_daddr = ds2phys dd ds }

abbrev pub add_first : Buffer → Setup → Setup
add_first bf (returned result dd head) = returned result dd (bf ∷ head)
add_first bf crashed = crashed
add_first bf unfinished = unfinished

-- The loop over the buffers, the same for both kinds of buffer.
unfoldable pub lay_out : (splittrans : Bool) → DescDma → (step nbuf ds : ℕ) → Setup
unfolding place
lay_out splittrans dd step zero ds = returned (pos 0) dd []
lay_out splittrans dd step (suc nbuf) ds = elim (place splittrans dd step ds) [
  | placed at ↦ add_first (buffer_at dd at) (lay_out splittrans dd step nbuf (at + step))
  | bug ↦ crashed
  | out_of_fuel ↦ unfinished
]

-- The block that `dmam_alloc_coherent` returns.
pub record Block : Type 0 where
  pub desc : ℕ
  pub paddr : ℕ

-- What the chip and the kernel answer: `caps.tx_desc_len`, `sizeof(struct ath_desc)`, the capability
-- of splitting at 4 KB, the descriptors, and whether `devm_kzalloc` returns memory.
pub record DmaInputs : Type 0 where
  pub tx_desc_len : ℕ
  pub rx_desc_len : ℕ
  pub splittrans : Bool
  pub block : Option Block
  pub buffers : Bool

-- -ENOMEM
abbrev pub enomem : ℤ
enomem = negsuc 11

abbrev pub desc_len_of : DmaInputs → (is_tx : Bool) → ℕ
desc_len_of inp is_tx = if is_tx then inp.tx_desc_len else inp.rx_desc_len

-- `dd_desc_len` once the skipped descriptors are counted.
unfoldable pub block_len : (splittrans : Bool) (desc_len nbuf ndesc : ℕ) → Option ℕ
unfolding extend_len
block_len splittrans desc_len nbuf ndesc =
    let len = u32 (desc_len * nbuf * ndesc) in
    if splittrans
    then some len
    else extend_len (suc (num_skipped len)) desc_len (num_skipped len) len

-- From the allocations on.
unfoldable pub allocate_both : DmaInputs → (step nbuf len : ℕ) → Option Block → Setup
unfolding lay_out
allocate_both inp step nbuf len none =
    returned enomem (record { dd_desc = 0; dd_desc_paddr = 0; dd_desc_len = len }) []
allocate_both inp step nbuf len (some b) =
    let dd : DescDma = record { dd_desc = b.desc; dd_desc_paddr = b.paddr; dd_desc_len = len } in
    if not inp.buffers then returned enomem dd [] else lay_out inp.splittrans dd step nbuf b.desc

abbrev pub with_len : DmaInputs → (step nbuf : ℕ) → Option ℕ → Setup
unfolding allocate_both
with_len inp step nbuf none = unfinished
with_len inp step nbuf (some len) = allocate_both inp step nbuf len inp.block

unfoldable pub ath_descdma_setup : (nbuf ndesc : ℕ) (is_tx : Bool) → DmaInputs → Setup
unfolding block_len allocate_both
ath_descdma_setup nbuf ndesc is_tx inp =
    let desc_len = desc_len_of inp is_tx in
    if not (desc_len % 4 == 0)
    then crashed
    else with_len inp (desc_len * ndesc) nbuf (block_len inp.splittrans desc_len nbuf ndesc)
