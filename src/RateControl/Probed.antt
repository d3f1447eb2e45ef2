-- ===== src/RateControl/Probed.antt =====
-- The path from the probe of ath9k/init.c, which lays out the transmit buffers, to the pause of
-- packetspammer/packetspammer.c.
use ucsma_rate_control.Base.{
  ℕ, ◌-◌, ◌*◌, ◌<◌, ◌≤◌, ◌≡◌, refl, subst, ap, ◌∙◌, some, true, List, [], ◌∷◌, map, arith, length,
  drop, length-drop,
}
use ucsma_rate_control.Base.Int.{pos}
use ucsma_rate_control.Driver.Dma.{DescDma, Buffer, DmaInputs, returned, ath_descdma_setup}
use ucsma_rate_control.Driver.Dma.Outcome.{SetsUp, setup_lays_out}
use ucsma_rate_control.Driver.Init.Probe.{tx_buffers}
use ucsma_rate_control.Unlock.{Unlock}
use ucsma_rate_control.BufferDevice.{Device}
use ucsma_rate_control.RateControl.{waits_after, expiry_paces}

-- The list of the buffers, each by the address of its descriptor.
abbrev pub addresses : List Buffer → List ℕ
addresses head = map (λ (bf : Buffer). bf.bf_desc) head

length-addresses : (head : List Buffer) → length (addresses head) ≡ length head
length-addresses [] = refl
length-addresses (bf ∷ head) = omega (arith, length-addresses head)

-- For descriptors of 1 to 4095 bytes, if the set-up of the 80 transmit buffers returns 0 and the
-- driver has taken some of them off the list when the timer of the unlocking module expires, then
-- a read of the device that copies makes the sender wait 100 microseconds for each of those.
pub probed_paces :
    (ndesc taken r len : ℕ) (inp : DmaInputs) (dd : DescDma) (head : List Buffer) (s : Unlock)
    (d : Device)
    → 0 < inp.tx_desc_len * ndesc
    → inp.tx_desc_len < 4096
    → ath_descdma_setup tx_buffers ndesc true inp ≡ returned (pos r) dd head
    → taken ≤ tx_buffers
    → s.txbuf_fff ≡ some (drop taken (addresses head))
    → waits_after s len d ≡ some (pos (100 * taken))
probed_paces ndesc taken r len inp dd head s d forward small done few loaded =
    let laid : SetsUp tx_buffers ndesc inp.tx_desc_len inp (returned (pos r) dd head) =
      subst (λ o. SetsUp tx_buffers ndesc inp.tx_desc_len inp o) done
        (setup_lays_out tx_buffers ndesc true inp forward small) in
    let free : length (drop taken (addresses head)) ≡ 80 - taken =
      length-drop taken (addresses head) ∙ ap (λ n. n - taken) (length-addresses head ∙ laid.1) in
    let used : 80 - length (drop taken (addresses head)) ≡ taken = omega (arith, free, few) in
    expiry_paces s (drop taken (addresses head)) len d loaded (omega (arith, free))
    ∙ ap (λ n. some (pos (100 * n))) used
