-- ===== src/Driver/Init/Attach.antt =====
-- ath9k/init.c: `ath9k_init_softc` with its cascade of failures, and `ath9k_deinit_softc`.
use ucsma_rate_control.Base.{
  ℕ, zero, suc, ◌+◌, ◌*◌, Bool, true, false, not, ◌&&◌, Option, none, some, List, [], ◌∷◌, ◌++◌,
  ◌==◌, if◌then◌else◌, replicate, set,
}
use ucsma_rate_control.Base.Int.{ℤ, pos, negsuc, is_zero}
use ucsma_rate_control.Driver.Dma.{enomem}
use ucsma_rate_control.Driver.Init.Defs.{
  Call, dfs_init, dfs_exit, release_firmware, read_cachesize, gpio_request_one, gpio_free, hw_init,
  hw_deinit, beaconq_setup, cabq_setup, uapsdq_setup, cabq_update, data_txq_setup, cleanup_txqs,
  init_btcoex, deinit_btcoex, init_channels_rates, gen_timer_alloc, gen_timer_free, init_crypto,
  fill_led_pin, aspm_init, free_tx99_skb, del_sleep_timer, PciData, HwCaps, HwConfig, UnlockFields,
  Pdata, Attached, Outcome,
}
use ucsma_rate_control.Driver.Init.Platform.{init_pcoem_platform, init_soc_platform}

-- `ATH_MAX_QDEPTH`: `ATH_TXBUF / 4 - ATH_TXBUF_RESERVE`, that is 512 / 4 - 5.
abbrev pub ath_max_qdepth : ℕ
ath_max_qdepth = 123

-- What the kernel and the driver's other files answer. `hw_caps` and `hw_macaddr` are what
-- `ath9k_hw_init` makes of the capabilities and of the address. `data_queue` is the hardware queue that
-- `ath_txq_setup` returns for a class; the module's parameters are the last three fields.
pub record AttachInputs : Type 0 where
  pub ah_allocated : Bool
  pub detector : Bool
  pub pdata : Option Pdata
  pub pci : PciData
  pub pcoem : Bool
  pub is_pci : Bool
  pub has_aspm_init : Bool
  pub firmware : ℤ
  pub blob : Bool
  pub cachesize : ℕ
  pub gpio : ℤ
  pub hw : ℤ
  pub hw_caps : HwCaps → HwCaps
  pub hw_macaddr : List ℕ
  pub data_queue : ℕ → ℕ
  pub btcoex : ℤ
  pub rates : ℤ
  pub timer : Bool
  pub btcoex_enable : ℤ
  pub ant_diversity : Bool

-- The rounds from class `i` on.
unfoldable pub map_queues : (rounds i : ℕ) (data_queue : ℕ → ℕ) → Attached → Attached
map_queues zero i data_queue sc = sc
map_queues (suc rounds) i data_queue sc =
    let q = data_queue i in
    map_queues rounds (i + 1) data_queue (record sc {
      txq_map = set sc.txq_map i q;
      mac80211_qnum = λ queue. if queue == q then i else sc.mac80211_qnum queue;
      txq_max_pending = set sc.txq_max_pending i ath_max_qdepth;
    })

-- The queues are set up for the traffic after a beacon, for U-APSD, and for the four classes.
unfoldable pub init_queues : (data_queue : ℕ → ℕ) → Attached → Outcome
unfolding map_queues
init_queues data_queue sc = record {
  state = map_queues 4 0 data_queue sc;
  calls =
      beaconq_setup
      ∷ cabq_setup
      ∷ cabq_update
      ∷ uapsdq_setup
      ∷ data_txq_setup 0
      ∷ data_txq_setup 1
      ∷ data_txq_setup 2
      ∷ data_txq_setup 3
      ∷ [];
  result = pos 0;
}

abbrev pub ath_txpower_max : ℕ
ath_txpower_max = 100

-- `ATH_ANT_DIV_COMB_INIT_COUNT` is 95, and `ATH9K_SLOT_TIME_9` is 9; `ATH_BCBUF` slots.
unfoldable pub init_misc : Attached → Attached
init_misc sc = record sc {
  txpowlimit = ath_txpower_max;
  bssidmask = replicate 6 255;
  slottime = 9;
  bslots = replicate 8 false;
  ant_comb = if sc.caps.ant_div_comb then record sc.ant_comb { comb_count = 95 } else sc.ant_comb;
  spec_config = record {
    enabled = false;
    short_repeat = true;
    spec_count = 8;
    endless = false;
    period = 255;
    fft_period = 15;
  };
}

abbrev pub fresh_fields : UnlockFields
fresh_fields = record {
  force_quiet_bit_delay = 0;
  force_quiet_bit_restore = true;
  force_quiet_bit_restore_in = 0;
  current_timing_count = 0;
  max_timing_count = 0;
  eifs_equal_to_aifs = true;
  unlocking_logging = false;
  unlocked = false;
  max_cca_pwr = 115;
}

-- `if (!pdata || pdata->use_eeprom)`
unfoldable pub take_pdata : Option Pdata → Attached → Attached
take_pdata none sc = record sc { ah_use_eeprom = true; led_pin = negsuc 0 }
take_pdata (some p) sc =
    if p.use_eeprom then record sc { ah_use_eeprom = true; led_pin = negsuc 0 } else record sc {
      gpio_mask = p.pd_gpio_mask;
      gpio_val = p.pd_gpio_val;
      led_pin = p.pd_led_pin;
      is_clk_25mhz = p.pd_is_clk_25mhz;
      disable_2ghz = p.pd_disable_2ghz;
      disable_5ghz = p.pd_disable_5ghz;
      no_eep_swap = if p.endian_check then sc.no_eep_swap else true;
    }

abbrev pub take_macaddr : Option Pdata → Attached → Attached
take_macaddr none sc = sc
take_macaddr (some p) sc = elim p.pd_macaddr [ none ↦ sc | some mac ↦ record sc { macaddr = mac } ]

abbrev pub zeroed_caps : HwCaps
zeroed_caps = record {
  ant_div_comb = false;
  bt_ant_div = false;
  band_2ghz = false;
  band_5ghz = false;
  ht = false;
}

abbrev pub zeroed_config : HwConfig
zeroed_config = record {
  xlna_gpio = 0;
  xatten_margin_cfg = false;
  alt_mingainidx = false;
  ant_ctrl_comm2g_switch_enable = 0;
  pcie_waen = 0;
  no_pll_pwrsave = false;
  tx_gain_buffalo = false;
}

-- `devm_kzalloc` zeroes `struct ath_hw`, and with it the `ath_common` that is a part of it; the fields
-- of `struct ath_softc` stay.
unfoldable pub new_ah : Attached → Attached
new_ah sc = record sc {
  unlock_fields = fresh_fields;
  ah_use_eeprom = false;
  no_eep_swap = false;
  gpio_mask = 0;
  gpio_val = 0;
  led_pin = pos 0;
  is_clk_25mhz = false;
  disable_2ghz = false;
  disable_5ghz = false;
  caps = zeroed_caps;
  config = zeroed_config;
  eeprom_blob = false;
  btcoex_enabled = false;
  bt_ant_diversity = false;
  cachelsz = 0;
  macaddr = replicate 6 0;
  bssidmask = replicate 6 0;
  op_invalid = false;
}

-- The fields up to the platform's part.
unfoldable pub first_fields : AttachInputs → Attached → Attached
unfolding take_pdata init_pcoem_platform new_ah
first_fields inp sc =
    let started = take_pdata inp.pdata (record (new_ah sc) { dfs_detector = inp.detector }) in
    init_pcoem_platform inp.pcoem inp.is_pci inp.pci (record started {
      btcoex_enabled = elim inp.btcoex_enable [ pos n ↦ n == 1 | negsuc n ↦ false ];
    })

-- The antennas' diversity and the size of a cache line, in bytes.
unfoldable pub second_fields : AttachInputs → Attached → Attached
second_fields inp sc = record sc {
  bt_ant_diversity =
      if not sc.btcoex_enabled && inp.ant_diversity && sc.caps.bt_ant_div
      then true
      else sc.bt_ant_diversity;
  cachelsz = 4 * inp.cachesize;
}

-- The labels at the end, from the last to the first.
abbrev pub err_hw : List Call
err_hw = release_firmware ∷ free_tx99_skb ∷ gpio_free ∷ []

abbrev pub err_queues : List Call
err_queues = hw_deinit ∷ err_hw

abbrev pub err_btcoex : List Call
err_btcoex = cleanup_txqs ∷ err_queues

abbrev pub aspm_calls : Bool → List Call
aspm_calls has = if has then aspm_init ∷ [] else []

-- From the set-up of the queues on.
unfoldable pub attach_queues : AttachInputs → Attached → Outcome
unfolding init_queues init_misc
attach_queues inp sc =
    let queues = init_queues inp.data_queue sc in
    let st = queues.state in
    if not (is_zero inp.btcoex)
    then record {
      state = st;
      calls = queues.calls ++ (init_btcoex inp.btcoex ∷ err_btcoex);
      result = inp.btcoex;
    }
    else if not (is_zero inp.rates)
    then record {
      state = st;
      calls = queues.calls ++ (init_btcoex inp.btcoex ∷ init_channels_rates inp.rates ∷ err_btcoex);
      result = inp.rates;
    }
    else record {
      state = init_misc (record st { p2p_ps_timer = inp.timer });
      calls =
          queues.calls
          ++ (init_btcoex inp.btcoex
              ∷ init_channels_rates inp.rates
              ∷ gen_timer_alloc inp.timer
              ∷ init_crypto
              ∷ fill_led_pin
              ∷ aspm_calls inp.has_aspm_init);
      result = pos 0;
    }

abbrev pub after : List Call → Outcome → Outcome
after calls o = record o { calls = calls ++ o.calls }

-- From the size of a cache line on.
unfoldable pub attach_hw : AttachInputs → Attached → Outcome
unfolding attach_queues second_fields
attach_hw inp sc =
    let st = second_fields inp sc in
    let front = read_cachesize ∷ gpio_request_one inp.gpio ∷ [] in
    if not (is_zero inp.gpio)
    then record { state = st; calls = front; result = inp.gpio }
    else if not (is_zero inp.hw)
    then record { state = st; calls = front ++ (hw_init inp.hw ∷ err_hw); result = inp.hw }
    else after (front ++ (hw_init inp.hw ∷ [])) (
        attach_queues inp (
          take_macaddr inp.pdata
            (record st { caps = inp.hw_caps st.caps; macaddr = inp.hw_macaddr })))

unfoldable pub init_softc : AttachInputs → Attached → Outcome
unfolding attach_hw first_fields init_soc_platform
init_softc inp sc =
    let soc = init_soc_platform inp.firmware inp.blob inp.pdata (first_fields inp sc) in
    if not inp.ah_allocated
    then record { state = sc; calls = []; result = enomem }
    else if not (is_zero soc.result)
    then record soc { calls = dfs_init inp.detector ∷ soc.calls }
    else after (dfs_init inp.detector ∷ soc.calls) (attach_hw inp soc.state)

unfoldable pub deinit_softc : Attached → List Call
deinit_softc sc =
    (if sc.p2p_ps_timer then gen_timer_free ∷ [] else [])
    ++ (deinit_btcoex
          ∷ cleanup_txqs
          ∷ del_sleep_timer
          ∷ hw_deinit
          ∷ (if sc.dfs_detector then dfs_exit ∷ [] else [])
        ++ (release_firmware ∷ gpio_free ∷ []))
