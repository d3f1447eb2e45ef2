-- ===== src/Unlock/Expiry.antt =====
-- kernel-module/unlock.c: what one expiry of the timer does.
use ucsma_rate_control.Base.{ℕ, ◌+◌, ◌≡◌, refl, true, false, some, none, List}
use ucsma_rate_control.Base.Int.{to_int}
use ucsma_rate_control.Kernel.Ledger.{Ledger, enter, replay, replays}
use ucsma_rate_control.Unlock.{
  Unlock, unlock_timer_handler, get_buf_size, publish_size, raise_changed, restart, TimerReturn,
}
use ucsma_rate_control.Unlock.Window.{set_window-replay}

-- The hardware after an expiry of the timer: armed again, and the output low after one pulse.
abbrev pub after_timer : Ledger → Ledger
after_timer h = record h { timer = true; raised = false; pulses = h.pulses + 1 }

-- With the buffer list known, an expiry publishes the number of buffers, raises the flag, pulses
-- the output once and arms the timer again; the times of unlocking stay.
pub expiry_restarts :
    (s : Unlock) (txbuf : List ℕ) (h : Ledger)
    → s.txbuf_fff ≡ some txbuf
    → let o = unlock_timer_handler s in
      (o.result ≡ restart)
      × (o.state.buf_counter ≡ to_int (get_buf_size txbuf))
      × (o.state.has_changed ≡ 1)
      × (o.state.last_unlock ≡ s.last_unlock)
      × (o.state.last_unlock_2nd ≡ s.last_unlock_2nd)
      × (replay o.calls h ≡ some (after_timer h))
unfolding unlock_timer_handler publish_size raise_changed enter
expiry_restarts s txbuf h loaded =
    rw loaded (refl, refl, refl, refl, refl, simp (replays, set_window-replay))

-- Before the driver has sent a frame the output is pulsed, the timer is not armed again, and the
-- handler returns with no value.
pub expiry_unloaded :
    (s : Unlock) (h : Ledger)
    → s.txbuf_fff ≡ none
    → let o = unlock_timer_handler s in
      (o.result ≡ TimerReturn.no_value)
      × (o.state ≡ s)
      × (replay o.calls h ≡ some (record h { raised = false; pulses = h.pulses + 1 }))
unfolding unlock_timer_handler enter
expiry_unloaded s h unloaded = rw unloaded (refl, refl, simp replays)
