-- ===== src/Driver/Window.antt =====
-- ath9k/main.c: the driver's own ladder of contention windows.
use ucsma_rate_control.Base.{
  ℕ, ◌≡◌, ◌⊎◌, Bool, true, false, not, List, [], ◌∷◌, ◌++◌, arith, ltb, ◌==◌, ==_refl,
  if◌then◌else◌,
}
use ucsma_rate_control.Base.Int.{ℤ, pos, negsuc}
use ucsma_rate_control.Driver.State.{Call, get_txq_props, set_txq_props, reset_tx_queue}
use ucsma_rate_control.Unlock.{cw_val}

-- The ladder of `buf_size`, in the order of its branches; both windows are set to the result.
pub cw_for : ℕ → ℕ
cw_for buf_size =
    if ltb 40 buf_size
    then 511
    else if ltb 65 buf_size
    then 255
    else if ltb 60 buf_size
    then 255
    else if ltb 50 buf_size
    then 255
    else if ltb 40 buf_size
    then 63
    else if ltb 20 buf_size
    then 15
    else if ltb 10 buf_size
    then 7
    else if ltb 5 buf_size
    then 3
    else 1

-- `BUG_ON` stops the kernel; otherwise the function returns 0 or -EIO.
pub data Updated : Type 0 where
  bug : Updated
  returned : (calls : List Call) (error : ℤ) → Updated

-- `axq_qnum` is the number that the queue holds, `accepted` what `ath9k_hw_set_txq_props` answers.
pub ath_cw_update : (axq_qnum qnum buf_size : ℕ) (accepted : Bool) → Updated
ath_cw_update axq_qnum qnum buf_size accepted =
    if not (axq_qnum == qnum)
    then bug
    else let calls =
        get_txq_props qnum ∷ set_txq_props qnum (cw_for buf_size) (cw_for buf_size) ∷ [] in
      if accepted
      then returned (calls ++ reset_tx_queue qnum ∷ []) (pos 0)
      else returned calls (negsuc 4)

-- Up to 40 buffers the driver's ladder is the unlock module's; beyond, its first branch takes
-- every number, and the branches below it for more than 40 buffers are never reached.
pub cw_for-cw_val :
    (n : ℕ)
    → (cw_for n ≡ (if ltb 40 n then 511 else cw_val (pos n)))
      × ((cw_for n ≡ 1)
          ⊎ ((cw_for n ≡ 3) ⊎ ((cw_for n ≡ 7) ⊎ ((cw_for n ≡ 15) ⊎ (cw_for n ≡ 511)))))
unfolding cw_for cw_val
cw_for-cw_val n = (ground arith, ground arith)

-- On the queue that was asked for, the update writes the ladder's value as minimum and maximum,
-- and resets the queue exactly when the hardware accepts it; otherwise it returns -EIO.
pub ath_cw_update_lem :
    (qnum buf_size : ℕ) (accepted : Bool)
    → ath_cw_update qnum qnum buf_size accepted
      ≡ returned
          (get_txq_props qnum
            ∷ set_txq_props qnum (cw_for buf_size) (cw_for buf_size)
            ∷ (if accepted then reset_tx_queue qnum ∷ [] else []))
          (if accepted then pos 0 else negsuc 4)
unfolding ath_cw_update
ath_cw_update_lem qnum buf_size true = rw (==_refl qnum)
ath_cw_update_lem qnum buf_size false = rw (==_refl qnum)
