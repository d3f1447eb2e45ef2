-- ===== src/Exports.antt =====
-- The variables that ath9k/main.c exports to the modules beside it: the list of transmit buffers
-- (`none` is NULL, before the first frame), the counter that user space reads, and a flag.
use ucsma_rate_control.Base.{ℕ, Option, List}
use ucsma_rate_control.Base.Int.{ℤ}

pub record Exports : Type 0 where
  pub txbuf_fff : Option (List ℕ)
  pub buf_counter : ℤ
  pub has_changed : ℕ
