-- ===== src/Driver/Dma/Outcome.antt =====
-- ath9k/init.c: what a call of `ath_descdma_setup` comes to.
use ucsma_rate_control.Base.{
  ℕ, suc, ◌*◌, ◌%◌, ◌<◌, ◌≡◌, refl, ◌⊎◌, inl, inr, Bool, true, false, not, Option, none, some, [],
  ◌==◌, arith, if◌then◌else◌, length,
}
use ucsma_rate_control.Base.Int.{pos, negsuc}
use ucsma_rate_control.Kernel.{u32}
use ucsma_rate_control.Driver.Dma.{
  DescDma, num_skipped, Setup, returned, crashed, unfinished, Block, DmaInputs, enomem, desc_len_of,
  block_len, allocate_both, ath_descdma_setup,
}
use ucsma_rate_control.Driver.Dma.Laws.{extend-returns, Spaced, LaysOut, lay_out-LaysOut}

block_len-returns :
    (splittrans : Bool) (desc_len nbuf ndesc : ℕ)
    → desc_len < 4096
    → (len : ℕ) × (block_len splittrans desc_len nbuf ndesc ≡ some len)
unfolding block_len
block_len-returns true desc_len nbuf ndesc small = (u32 (desc_len * nbuf * ndesc), refl)
block_len-returns false desc_len nbuf ndesc small =
    let len = u32 (desc_len * nbuf * ndesc) in
    extend-returns (suc (num_skipped len)) desc_len (num_skipped len) len small (omega arith)

-- What a set-up comes to.
abbrev pub SetsUp : (nbuf ndesc desc_len : ℕ) → DmaInputs → Setup → Type 0
SetsUp nbuf ndesc desc_len inp (returned (pos r) dd head) =
    (r ≡ 0)
    × (length head ≡ nbuf)
    × (inp.block ≡ some (record { desc = dd.dd_desc; paddr = dd.dd_desc_paddr }))
    × Spaced inp.splittrans dd (desc_len * ndesc) dd.dd_desc head
SetsUp nbuf ndesc desc_len inp (returned (negsuc e) dd head) =
    (negsuc e ≡ enomem) × (head ≡ []) × ((inp.block ≡ none) ⊎ (inp.buffers ≡ false))
SetsUp nbuf ndesc desc_len inp crashed = ((desc_len % 4 == 0) ≡ false) ⊎ (inp.splittrans ≡ false)
SetsUp nbuf ndesc desc_len inp unfinished = ⊥

laid-SetsUp :
    (nbuf ndesc desc_len : ℕ) (inp : DmaInputs) (dd : DescDma) (s : Setup)
    → inp.block ≡ some (record { desc = dd.dd_desc; paddr = dd.dd_desc_paddr })
    → LaysOut inp.splittrans dd (desc_len * ndesc) nbuf dd.dd_desc s
    → SetsUp nbuf ndesc desc_len inp s
laid-SetsUp nbuf ndesc desc_len inp dd (returned (pos r) dd' head) e (ok, same, count, spaced) =
    rw same (ground (arith, ok), count, e, spaced)
laid-SetsUp nbuf ndesc desc_len inp dd (returned (negsuc n) dd' head) e (ok, same, count, spaced) =
    absurd (cc)
laid-SetsUp nbuf ndesc desc_len inp dd crashed e split = inr split
laid-SetsUp nbuf ndesc desc_len inp dd unfinished e never = never

if-SetsUp :
    (nbuf ndesc desc_len : ℕ) (inp : DmaInputs) (b : Bool) (x y : Setup)
    → (b ≡ true → SetsUp nbuf ndesc desc_len inp x)
    → (b ≡ false → SetsUp nbuf ndesc desc_len inp y)
    → SetsUp nbuf ndesc desc_len inp (if b then x else y)
if-SetsUp nbuf ndesc desc_len inp true x y whole other = whole refl
if-SetsUp nbuf ndesc desc_len inp false x y whole other = other refl

allocate-SetsUp :
    (nbuf ndesc desc_len len : ℕ) (inp : DmaInputs) (block : Option Block)
    → inp.block ≡ block
    → 0 < desc_len * ndesc
    → SetsUp nbuf ndesc desc_len inp (allocate_both inp (desc_len * ndesc) nbuf len block)
unfolding allocate_both
allocate-SetsUp nbuf ndesc desc_len len inp none e forward = (refl, refl, inl e)
allocate-SetsUp nbuf ndesc desc_len len inp (some b) e forward =
    let dd : DescDma = record { dd_desc = b.desc; dd_desc_paddr = b.paddr; dd_desc_len = len } in
    let laid =
      lay_out-LaysOut inp.splittrans dd (desc_len * ndesc) nbuf b.desc forward (omega arith) in
    if-SetsUp nbuf ndesc desc_len inp (not inp.buffers) _ _
      (λ refused. (refl, refl, inr (ground (arith, refused))))
      (λ got. laid-SetsUp nbuf ndesc desc_len inp dd _ e laid)

-- For descriptors of 1 to 4095 bytes and at least one to a buffer, the set-up of the DMA memory
-- ends: it lays out as many buffers as asked for, in order and apart, each with the bus address
-- of its descriptor and, where the chip does not split transfers, with 128 bytes in one page; or
-- it returns -ENOMEM with no buffer because an allocation failed; or a BUG_ON fires, only for a
-- length that is no multiple of 4 or a chip that does not split.
pub setup_lays_out :
    (nbuf ndesc : ℕ) (is_tx : Bool) (inp : DmaInputs)
    → 0 < desc_len_of inp is_tx * ndesc
    → desc_len_of inp is_tx < 4096
    → SetsUp nbuf ndesc (desc_len_of inp is_tx) inp (ath_descdma_setup nbuf ndesc is_tx inp)
unfolding ath_descdma_setup
setup_lays_out nbuf ndesc is_tx inp forward small =
    let desc_len = desc_len_of inp is_tx in
    let (len, sized) = block_len-returns inp.splittrans desc_len nbuf ndesc small in
    let allocated = allocate-SetsUp nbuf ndesc desc_len len inp inp.block refl forward in
    if-SetsUp nbuf ndesc desc_len inp (not (desc_len % 4 == 0)) _ _
      (λ odd. inl (ground (arith, odd))) (λ aligned. rw sized allocated)
