-- ===== src/Driver/Queues.antt =====
-- ath9k/main.c: the hardware queues, and the two tests for frames that wait on them.
use ucsma_rate_control.Base.{
  ℕ, ◌≡◌, refl, Bool, true, false, not, ◌&&◌, ◌||◌, List, [], ◌∷◌, arith, ◌==◌, if◌then◌else◌,
}

-- A queue as far as it is looked at: whether it is set up, its depth, and whether `axq_acq` is empty.
pub record Txq : Type 0 where
  pub is_setup : Bool
  pub axq_depth : ℕ
  pub acq_empty : Bool

pub has_pending_frames : Txq → Bool
has_pending_frames q = not (q.axq_depth == 0) || not q.acq_empty

-- The loop of `ath9k_has_tx_pending`, which stops at the first queue with frames.
pub has_tx_pending : List Txq → Bool
unfolding has_pending_frames
has_tx_pending [] = false
has_tx_pending (q ∷ queues) =
    let rest = has_tx_pending queues in
    if not q.is_setup
    then rest
    else if q.axq_depth == 0
    then rest
    else if has_pending_frames q
    then true
    else rest

-- The loop of `ath9k_tx_frames_pending`.
pub tx_frames_pending : List Txq → Bool
unfolding has_pending_frames
tx_frames_pending [] = false
tx_frames_pending (q ∷ queues) =
    let rest = tx_frames_pending queues in
    if not q.is_setup then rest else if has_pending_frames q then true else rest

-- Some queue that is set up has a depth, or holds frames on `axq_acq`.
abbrev pub some_depth : List Txq → Bool
some_depth [] = false
some_depth (q ∷ queues) = (q.is_setup && not (q.axq_depth == 0)) || some_depth queues

abbrev pub some_acq : List Txq → Bool
some_acq [] = false
some_acq (q ∷ queues) = (q.is_setup && not q.acq_empty) || some_acq queues

-- The test that the flush waits for sees exactly the queues with a depth; the one that mac80211 asks
-- also sees frames that only wait on `axq_acq`.
pub pending_tests :
    (queues : List Txq)
    → (has_tx_pending queues ≡ some_depth queues)
      × (tx_frames_pending queues ≡ some_depth queues || some_acq queues)
unfolding has_tx_pending tx_frames_pending has_pending_frames
pending_tests [] = (refl, refl)
pending_tests (q ∷ queues) = ground (arith, pending_tests queues)
