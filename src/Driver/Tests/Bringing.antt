-- ===== src/Driver/Tests/Bringing.antt =====
-- ath9k/init.c at concrete inputs.
use ucsma_rate_control.Base.{
  ℕ, ◌+◌, ◌≡◌, refl, Bool, true, false, none, some, List, [], ◌∷◌, ◌++◌, arith, replicate,
  if◌then◌else◌, leb,
}
use ucsma_rate_control.Base.Int.{pos, negsuc, is_zero}
use ucsma_rate_control.Driver.Dma.{
  DmaInputs, ath_descdma_setup, Setup, returned, crashed, unfinished, Buffer,
}
use ucsma_rate_control.Driver.Dma.Outcome.{SetsUp, setup_lays_out}
use ucsma_rate_control.Driver.Init.Defs.{PciData, HwCaps, Pdata, Attached}
use ucsma_rate_control.Driver.Init.Attach.{
  AttachInputs, fresh_fields, zeroed_caps, zeroed_config, init_softc,
}
use ucsma_rate_control.Driver.Init.Capabilities.{Wiphy}
use ucsma_rate_control.Driver.Init.Probe.{ProbeInputs, init_device, deinit_device}
use ucsma_rate_control.Driver.Init.Held.{nothing, replay}
use ucsma_rate_control.Driver.Init.Accounts.{softc_leftover}
use ucsma_rate_control.Driver.Init.Undone.{running, device-replay, init_deinit}

-- Descriptors of 96 bytes in a block that starts a page.
abbrev dma : DmaInputs
dma = record {
  tx_desc_len = 96;
  rx_desc_len = 96;
  splittrans = false;
  block = some (record { desc = 8192; paddr = 1048576 });
  buffers = true;
}

setup_lays_out_example : SetsUp 80 1 96 dma (ath_descdma_setup 80 1 true dma)
setup_lays_out_example = setup_lays_out 80 1 true dma (omega arith) (omega arith)

-- Whether every buffer's descriptor ends within the block.
abbrev within : (end step : ℕ) → List Buffer → Bool
within end step [] = true
within end step (bf ∷ rest) = if leb (bf.bf_desc + step) end then within end step rest else false

abbrev fits : (step : ℕ) → Setup → Bool
fits step (returned result dd head) = within (dd.dd_desc + dd.dd_desc_len) step head
fits step crashed = false
fits step unfinished = false

-- Eighty descriptors of 96 bytes fit the block; of 112 bytes, the last lies beyond its end.
eighty_fit : fits 96 (ath_descdma_setup 80 1 true dma) ≡ true
unfolding ath_descdma_setup
eighty_fit = refl

eighty_overrun : fits 112 (ath_descdma_setup 80 1 true (record dma { tx_desc_len = 112 })) ≡ false
unfolding ath_descdma_setup
eighty_overrun = refl

abbrev plain_card : PciData
plain_card = record {
  cus198 = false;
  cus230 = false;
  ar9565_1ant = false;
  ar9565_2ant = false;
  pci_bt_ant_div = false;
  d3_l1_war = false;
  pci_no_pll_pwrsave = false;
}

abbrev board : Pdata
board = record {
  use_eeprom = false;
  eeprom_name = true;
  pd_tx_gain_buffalo = false;
  pd_gpio_mask = 0;
  pd_gpio_val = 0;
  pd_led_pin = pos 1;
  pd_is_clk_25mhz = false;
  pd_disable_2ghz = false;
  pd_disable_5ghz = false;
  endian_check = true;
  pd_macaddr = none;
}

abbrev two_bands : HwCaps → HwCaps
two_bands caps = record caps { band_2ghz = true; band_5ghz = true; ht = true }

abbrev good_attach : AttachInputs
good_attach = record {
  ah_allocated = true;
  detector = true;
  pdata = some board;
  pci = plain_card;
  pcoem = true;
  is_pci = false;
  has_aspm_init = false;
  firmware = pos 0;
  blob = true;
  cachesize = 8;
  gpio = pos 0;
  hw = pos 0;
  hw_caps = two_bands;
  hw_macaddr = replicate 6 2;
  data_queue = λ ac. ac;
  btcoex = pos 0;
  rates = pos 0;
  timer = true;
  btcoex_enable = pos 0;
  ant_diversity = false;
}

-- The driver's memory before the probe.
abbrev blank : Attached
blank = record {
  unlock_fields = fresh_fields;
  ah_use_eeprom = false;
  no_eep_swap = false;
  gpio_mask = 0;
  gpio_val = 0;
  led_pin = pos 0;
  is_clk_25mhz = false;
  disable_2ghz = false;
  disable_5ghz = false;
  caps = zeroed_caps;
  config = zeroed_config;
  ant_comb = record { low_rssi_thresh = 0; fast_div_bias = 0; comb_count = 0 };
  dfs_detector = false;
  p2p_ps_timer = false;
  eeprom_blob = false;
  btcoex_enabled = false;
  bt_ant_diversity = false;
  cachelsz = 0;
  macaddr = replicate 6 0;
  bssidmask = replicate 6 0;
  txq_map = replicate 4 0;
  mac80211_qnum = λ queue. 0;
  txq_max_pending = replicate 4 0;
  slottime = 0;
  txpowlimit = 0;
  curtxpow = 0;
  bslots = replicate 8 false;
  spec_config = record {
    enabled = false;
    short_repeat = false;
    spec_count = 0;
    endless = false;
    period = 0;
    fft_period = 0;
  };
  op_invalid = false;
}

abbrev no_wiphy : Wiphy
no_wiphy = record {
  flags = [];
  have_stbc = false;
  interface_modes = [];
  iface_combination = [];
  max_interfaces = 0;
  ps_on_by_default = true;
  queues = 0;
  max_rates = 0;
  max_rate_tries = 0;
  available_antennas_rx = 0;
  available_antennas_tx = 0;
  band_2ghz_set = false;
  band_5ghz_set = false;
  perm_addr = [];
}

abbrev good_probe : ProbeInputs
good_probe = record {
  attach = good_attach;
  chip = record {
    is_9280_20 = true;
    is_9160_10 = true;
    max_rxchains = 2;
    max_txchains = 2;
    mesh = true;
    tx99 = false;
    ps_enable = false;
    nohwcrypt = false;
  };
  wiphy_before = no_wiphy;
  regd = pos 0;
  tx = pos 0;
  rx = pos 0;
  channels_2ghz = 0 ∷ 1 ∷ [];
  channels_5ghz = 14 ∷ [];
  curchan_before = none;
  leds = true;
  register = pos 0;
  debug = pos 0;
  world_regd = false;
  hint = pos 0;
}

-- The pin is taken by another driver.
abbrev refused_pin : ProbeInputs
refused_pin = record good_probe { attach = record good_attach { gpio = negsuc 15 } }

device-replay_example :
    replay (init_device refused_pin blank).calls nothing
    ≡ some (
        if is_zero (init_device refused_pin blank).result
        then running (init_device refused_pin blank).state
        else if is_zero (init_softc refused_pin.attach blank).result
        then nothing
        else softc_leftover refused_pin.attach)
device-replay_example = device-replay refused_pin blank

comes_up : is_zero (init_device good_probe blank).result ≡ true
unfolding init_device init_softc
comes_up = refl

init_deinit_example :
    (replay (init_device good_probe blank).calls nothing
      ≡ some (running (init_device good_probe blank).state))
    × (replay
          ((init_device good_probe blank).calls
            ++ deinit_device (init_device good_probe blank).state)
          nothing
        ≡ some nothing)
init_deinit_example = init_deinit good_probe blank comes_up

-- The content of the EEPROM and the detector are left over.
leaks : softc_leftover refused_pin.attach ≡ record nothing { detector = true; firmware = true }
leaks = refl
