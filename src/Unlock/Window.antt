-- ===== src/Unlock/Window.antt =====
-- kernel-module/unlock.c: the contention window that a number of buffers gives, and the registers.
use ucsma_rate_control.Base.{
  ℕ, zero, suc, ◌+◌, ◌*◌, ◌/◌, ◌%◌, ◌≤◌, ◌<◌, ◌≡◌, refl, Bool, true, ◌&&◌, List, [], ◌∷◌, bit_and,
  arith, some, ◌==◌, ==_iff,
}
use ucsma_rate_control.Base.Int.{ℤ, ◌≤ℤ◌, to_int}
use ucsma_rate_control.Base.Table.{table, table_entry}
use ucsma_rate_control.Kernel.{Call, dlcl_ifs, reg_write}
use ucsma_rate_control.Kernel.Ledger.{Ledger, enter, replay, replays, replay_nil}
use ucsma_rate_control.Unlock.{
  get_buf_size, cw_val, edit_contention_window, write_windows, widen, set_window,
}

-- More buffers never give a smaller contention window.
pub cw_val_mono : (a b : ℤ) → a ≤ℤ b → cw_val a ≤ cw_val b
unfolding cw_val
cw_val_mono a b h = ground arith

pub cw_val-lt : (a : ℤ) → cw_val a < 1024
unfolding cw_val
cw_val-lt a = ground arith

-- The same value to each of `rounds` queues from `qnum` on.
abbrev pub same_window : (rounds qnum value : ℕ) → List Call
same_window zero qnum value = []
same_window (suc rounds) qnum value =
    reg_write (dlcl_ifs qnum) value ∷ same_window rounds (qnum + 1) value

stays_at : (rounds window_size value : ℕ) → Bool
stays_at zero window_size value = true
stays_at (suc rounds) window_size value =
    (bit_and 0x000fffff (widen window_size) == value) && stays_at rounds (widen window_size) value

write_windows-same :
    (rounds qnum window_size value : ℕ)
    → stays_at rounds window_size value ≡ true
    → write_windows rounds qnum window_size ≡ same_window rounds qnum value
unfolding stays_at write_windows
write_windows-same zero qnum window_size value h = refl
write_windows-same (suc rounds) qnum window_size value h = ground (
  arith,
  write_windows-same rounds (qnum + 1) (widen window_size) value,
  ==_iff (bit_and 0x000fffff (widen window_size)) value,
)

windows_checked : table (λ w. stays_at 8 w (w * 1025)) 1024 ≡ true
unfolding table stays_at widen
windows_checked = refl

-- Every queue of the eight gets the same register: minimum and maximum window both `w`, and 0 in the
-- fields above them, however often the loop has widened its argument.
pub edit_contention_window-same :
    (w : ℕ) → w < 1024 → edit_contention_window w ≡ same_window 8 0 (w * 1025)
unfolding edit_contention_window
edit_contention_window-same w h =
    write_windows-same 8 0 w (w * 1025) (table_entry _ w 1024 h windows_checked)

pub windows-replay :
    (rounds qnum window_size : ℕ) (h : Ledger)
    → replay (write_windows rounds qnum window_size) h ≡ some h
unfolding write_windows enter
windows-replay zero qnum window_size h = replay_nil h
windows-replay (suc rounds) qnum window_size h =
    simp replays (windows-replay rounds (qnum + 1) (widen window_size) h)

-- Setting windows acquires and releases nothing.
pub edit-replay : (w : ℕ) (h : Ledger) → replay (edit_contention_window w) h ≡ some h
unfolding edit_contention_window
edit-replay w h = windows-replay 8 0 w h

pub set_window-replay : (txbuf : List ℕ) (h : Ledger) → replay (set_window txbuf) h ≡ some h
unfolding set_window
set_window-replay txbuf h = edit-replay _ h

-- For any list of buffers, each of the eight queues gets one register value, in which the minimum
-- and the maximum window are the ladder's entry for the number of buffers, and the bits above
-- them are 0.
pub set_window-fields :
    (txbuf : List ℕ)
    → (v : ℕ) × (set_window txbuf ≡ same_window 8 0 v)
      × (v % 1024 ≡ cw_val (to_int (get_buf_size txbuf)))
      × (v / 1024 ≡ cw_val (to_int (get_buf_size txbuf)))
unfolding set_window
set_window-fields txbuf =
    let w = cw_val (to_int (get_buf_size txbuf)) in
    let small = cw_val-lt (to_int (get_buf_size txbuf)) in
    (w * 1025, edit_contention_window-same w small, omega (arith, small), omega (arith, small))
