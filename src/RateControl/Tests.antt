-- ===== src/RateControl/Tests.antt =====
-- The path of the number of buffers at concrete inputs.
use ucsma_rate_control.Base.{◌-◌, ◌*◌, ◌≡◌, refl, some, List, [], ◌∷◌, arith, true, false, drop}
use ucsma_rate_control.Base.Int.{pos}
use ucsma_rate_control.Kernel.Clock.{at}
use ucsma_rate_control.Unlock.{Unlock}
use ucsma_rate_control.BufferDevice.{Device}
use ucsma_rate_control.Driver.Dma.{
  DescDma, Buffer, Setup, returned, crashed, unfinished, DmaInputs, ath_descdma_setup,
}
use ucsma_rate_control.Driver.Init.Probe.{tx_buffers}
use ucsma_rate_control.RateControl.Probed.{addresses, probed_paces}
use ucsma_rate_control.RateControl.{waits_after, expiry_paces}

abbrev module_state : Unlock
module_state = record {
  exports = record { txbuf_fff = some (1 ∷ 2 ∷ 3 ∷ []); buf_counter = pos 0; has_changed = 0 };
  period = 20000;
  delta = 100;
  last_unlock = at 5 0;
  last_unlock_2nd = at 4 0;
  unlock_irq = pos 40;
  slottime_clock = 0;
  sifs_clock = 0;
  eifs_clock = 0;
  unlocked = false;
  last_force_quiet_restore = at 0 0;
  unlocking_logging = false;
  force_quiet_bit_restore = false;
  max_timing_count = 0;
}

abbrev device : Device
device = record { major_number = pos 240; size_of_message = pos 0; number_opens = 1; message = [] }

-- Three of the 80 buffers are free.
expiry_paces_example : waits_after module_state 4 device ≡ some (pos (100 * (80 - 3)))
expiry_paces_example = expiry_paces module_state (1 ∷ 2 ∷ 3 ∷ []) 4 device refl (omega arith)

-- Descriptors of 128 bytes in a block that starts a page.
abbrev dma : DmaInputs
dma = record {
  tx_desc_len = 128;
  rx_desc_len = 128;
  splittrans = true;
  block = some (record { desc = 8192; paddr = 1048576 });
  buffers = true;
}

abbrev head_of : Setup → List Buffer
head_of (returned result dd head) = head
head_of crashed = []
head_of unfinished = []

abbrev dma_block : DescDma
dma_block = record { dd_desc = 8192; dd_desc_paddr = 1048576; dd_desc_len = 10240 }

abbrev laid : List Buffer
laid = head_of (ath_descdma_setup 80 1 true dma)

laid_out : ath_descdma_setup tx_buffers 1 true dma ≡ returned (pos 0) dma_block laid
unfolding ath_descdma_setup
laid_out = refl

-- Three of the buffers are taken.
abbrev probed_state : Unlock
probed_state = record module_state {
  exports = record {
    txbuf_fff = some (drop 3 (addresses laid));
    buf_counter = pos 0;
    has_changed = 0;
  };
}

probed_paces_example : waits_after probed_state 4 device ≡ some (pos (100 * 3))
probed_paces_example =
    probed_paces 1 3 0 4 dma dma_block laid probed_state device (omega arith) (omega arith) laid_out
      (omega arith) refl
