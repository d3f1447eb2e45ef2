-- ===== src/Driver/Init/Defs.antt =====
-- ath9k/init.c: the state that bringing the device up writes, and the calls that it makes. What the
-- kernel, mac80211 and the driver's other files answer are arguments.
use ucsma_rate_control.Base.{ℕ, Bool, Option, List}
use ucsma_rate_control.Base.Int.{ℤ}

-- Calls of the other parts of the driver and of the kernel, with what they returned where the code
-- looks at it.
pub data Call : Type 0 where
  -- Whether a detector was returned.
  dfs_init : (got : Bool) → Call
  dfs_exit : Call
  request_firmware : (result : ℤ) → Call
  -- The loader's callback has run; whether it brought the file.
  wait_for_firmware : (loaded : Bool) → Call
  release_firmware : Call
  read_cachesize : Call
  -- The pin of the transmission status.
  gpio_request_one : (result : ℤ) → Call
  gpio_free : Call
  hw_init : (result : ℤ) → Call
  hw_deinit : Call
  beaconq_setup cabq_setup uapsdq_setup cabq_update : Call
  data_txq_setup : (ac : ℕ) → Call
  cleanup_txqs : Call
  init_btcoex : (result : ℤ) → Call
  deinit_btcoex : Call
  init_channels_rates : (result : ℤ) → Call
  gen_timer_alloc : (got : Bool) → Call
  gen_timer_free : Call
  init_crypto fill_led_pin aspm_init : Call
  free_tx99_skb : Call
  del_sleep_timer : Call
  init_wow reload_chainmask : Call
  regd_init : (result : ℤ) → Call
  tx_init : (nbufs : ℕ) (result : ℤ) → Call
  rx_init : (nbufs : ℕ) (result : ℤ) → Call
  rx_cleanup : Call
  -- The channel's index in `ah->channels`.
  set_txpowerlimit : (channel : ℕ) → Call
  create_led_trigger : Call
  hw_reset get_adc_entropy add_randomness : Call
  register_hw : (result : ℤ) → Call
  unregister_hw : Call
  init_debug : (result : ℤ) → Call
  deinit_debug : Call
  regulatory_hint : (result : ℤ) → Call
  init_leds deinit_leds : Call
  start_rfkill_poll stop_rfkill_poll : Call
  ps_wakeup ps_restore : Call
  log_error : Call

-- `ATH9K_PCI_…`, the bits of `sc->driver_data`.
pub record PciData : Type 0 where
  pub cus198 : Bool
  pub cus230 : Bool
  pub ar9565_1ant : Bool
  pub ar9565_2ant : Bool
  pub pci_bt_ant_div : Bool
  pub d3_l1_war : Bool
  pub pci_no_pll_pwrsave : Bool

-- The bits of `caps.hw_caps` that the file reads or writes.
pub record HwCaps : Type 0 where
  pub ant_div_comb : Bool
  pub bt_ant_div : Bool
  pub band_2ghz : Bool
  pub band_5ghz : Bool
  pub ht : Bool

-- `ah->config`, as far as the file writes it.
pub record HwConfig : Type 0 where
  pub xlna_gpio : ℕ
  pub xatten_margin_cfg : Bool
  pub alt_mingainidx : Bool
  pub ant_ctrl_comm2g_switch_enable : ℕ
  pub pcie_waen : ℕ
  pub no_pll_pwrsave : Bool
  pub tx_gain_buffalo : Bool

-- `sc->ant_comb`
pub record AntComb : Type 0 where
  pub low_rssi_thresh : ℕ
  pub fast_div_bias : ℕ
  pub comb_count : ℕ

-- What the project added to `struct ath_hw`.
pub record UnlockFields : Type 0 where
  pub force_quiet_bit_delay : ℕ
  pub force_quiet_bit_restore : Bool
  pub force_quiet_bit_restore_in : ℕ
  pub current_timing_count : ℕ
  pub max_timing_count : ℕ
  pub eifs_equal_to_aifs : Bool
  pub unlocking_logging : Bool
  pub unlocked : Bool
  pub max_cca_pwr : ℕ

-- `dev->platform_data`; `eeprom_name` is whether there is a name.
pub record Pdata : Type 0 where
  pub use_eeprom : Bool
  pub eeprom_name : Bool
  pub pd_tx_gain_buffalo : Bool
  pub pd_gpio_mask : ℕ
  pub pd_gpio_val : ℕ
  pub pd_led_pin : ℤ
  pub pd_is_clk_25mhz : Bool
  pub pd_disable_2ghz : Bool
  pub pd_disable_5ghz : Bool
  pub endian_check : Bool
  pub pd_macaddr : Option (List ℕ)

-- `sc->spec_config`
pub record SpecConfig : Type 0 where
  pub enabled : Bool
  pub short_repeat : Bool
  pub spec_count : ℕ
  pub endless : Bool
  pub period : ℕ
  pub fft_period : ℕ

-- `struct ath_hw` and `ath_softc` with what they point to, as far as the file writes them.
-- `txq_map` holds the hardware queue of each class, `mac80211_qnum` is by hardware queue, and
-- `bslots` says whether each slot is taken.
pub record Attached : Type 0 where
  pub unlock_fields : UnlockFields
  pub ah_use_eeprom : Bool
  pub no_eep_swap : Bool
  pub gpio_mask : ℕ
  pub gpio_val : ℕ
  pub led_pin : ℤ
  pub is_clk_25mhz : Bool
  pub disable_2ghz : Bool
  pub disable_5ghz : Bool
  pub caps : HwCaps
  pub config : HwConfig
  pub ant_comb : AntComb
  pub dfs_detector : Bool
  pub p2p_ps_timer : Bool
  pub eeprom_blob : Bool
  pub btcoex_enabled : Bool
  pub bt_ant_diversity : Bool
  pub cachelsz : ℕ
  pub macaddr : List ℕ
  pub bssidmask : List ℕ
  pub txq_map : List ℕ
  pub mac80211_qnum : ℕ → ℕ
  pub txq_max_pending : List ℕ
  pub slottime : ℕ
  pub txpowlimit : ℕ
  pub curtxpow : ℕ
  pub bslots : List Bool
  pub spec_config : SpecConfig
  pub op_invalid : Bool

-- What is left by a function that may fail.
pub record Outcome : Type 0 where
  pub state : Attached
  pub calls : List Call
  pub result : ℤ
