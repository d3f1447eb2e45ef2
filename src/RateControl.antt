-- ===== src/RateControl.antt =====
-- The path of the number of buffers: kernel-module/unlock.c counts them, the device hands the counter
-- to user space, and packetspammer/packetspammer.c pauses by it.
mod Tests
pub mod Probed
use ucsma_rate_control.Base.{
  ℕ, ◌+◌, ◌-◌, ◌*◌, ◌^◌, ◌≤◌, ◌<◌, ◌≡◌, refl, ap, ◌∙◌, Option, some, List, [], ◌∷◌, arith, length,
}
use ucsma_rate_control.Base.Int.{ℤ, pos, negsuc, to_int}
use ucsma_rate_control.Exports.{Exports}
use ucsma_rate_control.Unlock.{Unlock, unlock_timer_handler, get_buf_size}
use ucsma_rate_control.Unlock.Buffers.{size-length}
use ucsma_rate_control.Unlock.Expiry.{expiry_restarts}
use ucsma_rate_control.Kernel.Ledger.{nothing_held}
use ucsma_rate_control.BufferDevice.{Device, read_device}
use ucsma_rate_control.BufferDevice.Laws.{int_of_bytes, read_back}
use ucsma_rate_control.Spammer.Pace.{wait, wait_in_range}

-- What the sender waits after a read of the device, with the counter as an expiry leaves it.
abbrev pub waits_after : Unlock → (len : ℕ) → Device → Option ℤ
waits_after s len d =
    wait (int_of_bytes (read_device (unlock_timer_handler s).state.buf_counter len 0 d).copied)

-- With at most 80 transmit buffers free when the timer of the unlocking module expires, a read of
-- the device that copies makes the sender wait 100 microseconds for each buffer in use.
pub expiry_paces :
    (s : Unlock) (txbuf : List ℕ) (len : ℕ) (d : Device)
    → s.txbuf_fff ≡ some txbuf
    → length txbuf ≤ 80
    → waits_after s len d ≡ some (pos (100 * (80 - length txbuf)))
expiry_paces s txbuf len d loaded few =
    let published : (unlock_timer_handler s).state.buf_counter ≡ pos (length txbuf) =
      (expiry_restarts s txbuf nothing_held loaded).1 ∙ size-length txbuf (omega arith) in
    let read : int_of_bytes (read_device (pos (length txbuf)) len 0 d).copied ≡ pos (length txbuf) =
      (read_back (pos (length txbuf)) len d (omega arith) (omega arith)).0 in
    rw (published, read) (wait_in_range (length txbuf) few)
