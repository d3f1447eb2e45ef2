-- ===== src/Driver/Init/Platform.antt =====
-- ath9k/init.c: the quirks of a platform and the EEPROM that it keeps in a file.
use ucsma_rate_control.Base.{
  Bool, true, false, not, ◌&&◌, ◌||◌, Option, none, some, [], ◌∷◌, if◌then◌else◌,
}
use ucsma_rate_control.Base.Int.{ℤ, pos, negsuc, is_zero, is_negative}
use ucsma_rate_control.Driver.Init.Defs.{
  request_firmware, wait_for_firmware, log_error, PciData, HwCaps, HwConfig, Pdata, Attached,
  Outcome,
}

-- The part for the CUS198 and CUS230 cards; 0x000BBB88 is 768904.
unfoldable pub card_quirks : PciData → Attached → Attached
card_quirks pci sc =
    if pci.cus198 || pci.cus230
    then record sc {
      config = record sc.config {
        xlna_gpio = 9;
        xatten_margin_cfg = true;
        alt_mingainidx = true;
        ant_ctrl_comm2g_switch_enable = 768904;
      };
      ant_comb = record sc.ant_comb { low_rssi_thresh = 20; fast_div_bias = 3 };
    }
    else sc

-- The capabilities after the two tests on the diversity of the antennas.
unfoldable pub diversity_caps : PciData → HwCaps → HwCaps
diversity_caps pci caps =
    let removed : HwCaps =
      if (pci.ar9565_1ant || pci.ar9565_2ant) && not pci.pci_bt_ant_div
      then record caps { ant_div_comb = false }
      else caps in
    if pci.pci_bt_ant_div then record removed { bt_ant_div = true } else removed

-- 0x0040473b is 4212539.
unfoldable pub power_quirks : PciData → HwConfig → HwConfig
power_quirks pci config =
    let aspm : HwConfig = if pci.d3_l1_war then record config { pcie_waen = 4212539 } else config in
    if pci.pci_no_pll_pwrsave then record aspm { no_pll_pwrsave = true } else aspm

-- `pcoem` is the option CPTCFG_ATH9K_PCOEM, and `is_pci` the bus's type; the messages are left out.
unfoldable pub init_pcoem_platform : (pcoem is_pci : Bool) → PciData → Attached → Attached
unfolding card_quirks diversity_caps power_quirks
init_pcoem_platform pcoem is_pci pci sc =
    let quirky = card_quirks pci sc in
    if pcoem && is_pci
    then record quirky {
      caps = diversity_caps pci quirky.caps;
      config = power_quirks pci quirky.config;
    }
    else sc

-- -EINVAL
abbrev pub einval : ℤ
einval = negsuc 21

-- The loader's callback; `blob` is whether it was given the file.
abbrev pub eeprom_request_cb : (blob : Bool) → Attached → Attached
eeprom_request_cb blob sc = if blob then record sc { eeprom_blob = true } else sc

-- `err` is what `request_firmware_nowait` returns.
unfoldable pub eeprom_request : (err : ℤ) (blob : Bool) → Attached → Outcome
eeprom_request err blob sc =
    let loaded = eeprom_request_cb blob sc in
    if is_negative err
    then record { state = sc; calls = request_firmware err ∷ log_error ∷ []; result = err }
    else if loaded.eeprom_blob
    then record {
      state = loaded;
      calls = request_firmware err ∷ wait_for_firmware blob ∷ [];
      result = pos 0;
    }
    else record {
      state = loaded;
      calls = request_firmware err ∷ wait_for_firmware blob ∷ log_error ∷ [];
      result = einval;
    }

abbrev pub with_gain : Pdata → Outcome → Outcome
with_gain pdata o =
    if is_zero o.result && pdata.pd_tx_gain_buffalo
    then record o {
      state = record o.state { config = record o.state.config { tx_gain_buffalo = true } };
    }
    else o

unfoldable pub init_soc_platform : (err : ℤ) (blob : Bool) → Option Pdata → Attached → Outcome
unfolding eeprom_request
init_soc_platform err blob none sc = record { state = sc; calls = []; result = pos 0 }
init_soc_platform err blob (some pdata) sc = with_gain pdata (
    if pdata.eeprom_name
    then eeprom_request err blob sc
    else record { state = sc; calls = []; result = pos 0 })
