-- ===== src/Driver/Init/Probe.antt =====
-- ath9k/init.c: `ath9k_init_device`, `ath9k_deinit_device`, and the module's own start and end.
use ucsma_rate_control.Base.{
  ℕ, Bool, true, false, not, ◌&&◌, Option, List, [], ◌∷◌, ◌++◌, if◌then◌else◌,
}
use ucsma_rate_control.Base.Int.{ℤ, pos, negsuc, is_zero, is_negative}
use ucsma_rate_control.Driver.Init.Defs.{
  Call, regd_init, tx_init, rx_init, rx_cleanup, create_led_trigger, hw_reset, get_adc_entropy,
  add_randomness, register_hw, unregister_hw, init_debug, deinit_debug, log_error, regulatory_hint,
  init_leds, deinit_leds, start_rfkill_poll, stop_rfkill_poll, ps_wakeup, ps_restore, Attached,
  Outcome,
}
use ucsma_rate_control.Driver.Init.Attach.{AttachInputs, init_softc, deinit_softc, after}
use ucsma_rate_control.Driver.Init.Capabilities.{
  ChipInputs, Wiphy, set_hw_capab, init_txpower_limits,
}

-- What the kernel, mac80211 and the driver's other files answer. `leds` is CPTCFG_MAC80211_LEDS, and
-- `world_regd` what `ath_is_world_regd` returns.
pub record ProbeInputs : Type 0 where
  pub attach : AttachInputs
  pub chip : ChipInputs
  pub wiphy_before : Wiphy
  pub regd : ℤ
  pub tx : ℤ
  pub rx : ℤ
  pub channels_2ghz : List ℕ
  pub channels_5ghz : List ℕ
  pub curchan_before : Option ℕ
  pub leds : Bool
  pub register : ℤ
  pub debug : ℤ
  pub world_regd : Bool
  pub hint : ℤ

abbrev pub get_initial_entropy : List Call
get_initial_entropy = hw_reset ∷ get_adc_entropy ∷ add_randomness ∷ []

-- The labels at the end, from the last to the first.
abbrev pub at_deinit : Attached → List Call
at_deinit sc = deinit_softc sc

abbrev pub at_rx_cleanup : Attached → List Call
at_rx_cleanup sc = rx_cleanup ∷ at_deinit sc

abbrev pub at_unregister : Attached → List Call
at_unregister sc = unregister_hw ∷ at_rx_cleanup sc

abbrev pub at_debug_cleanup : Attached → List Call
at_debug_cleanup sc = deinit_debug ∷ at_unregister sc

-- From the hint on the regulatory domain on.
unfoldable pub probe_last : ProbeInputs → Attached → Outcome
probe_last inp sc =
    let hint = if inp.world_regd then [] else regulatory_hint inp.hint ∷ [] in
    if not inp.world_regd && not (is_zero inp.hint)
    then record { state = sc; calls = hint ++ at_debug_cleanup sc; result = inp.hint }
    else record { state = sc; calls = hint ++ (init_leds ∷ start_rfkill_poll ∷ []); result = pos 0 }

-- From the registration on.
unfoldable pub probe_register : ProbeInputs → Attached → Outcome
unfolding probe_last
probe_register inp sc =
    let registered = register_hw inp.register ∷ [] in
    if not (is_zero inp.register)
    then record { state = sc; calls = registered ++ at_rx_cleanup sc; result = inp.register }
    else if not (is_zero inp.debug)
    then record {
      state = sc;
      calls = registered ++ (init_debug inp.debug ∷ log_error ∷ at_unregister sc);
      result = inp.debug;
    }
    else after (registered ++ (init_debug inp.debug ∷ [])) (probe_last inp sc)

-- The buffers that the project allocates, in place of `ATH_TXBUF`, and `ATH_RXBUF`.
abbrev pub tx_buffers : ℕ
tx_buffers = 80

abbrev pub ath_rxbuf : ℕ
ath_rxbuf = 256

-- Between the set-up of the DMA and the registration.
unfoldable pub before_register : ProbeInputs → Attached → List Call
before_register inp sc =
    (init_txpower_limits sc inp.channels_2ghz inp.channels_5ghz inp.curchan_before).limit_calls
    ++ ((if inp.leds then create_led_trigger ∷ [] else []) ++ get_initial_entropy)

-- From the regulatory domain on.
unfoldable pub probe_dma : ProbeInputs → Attached → Outcome
unfolding probe_register before_register
probe_dma inp sc =
    let regd = regd_init inp.regd ∷ [] in
    let tx = regd ++ (tx_init tx_buffers inp.tx ∷ []) in
    let rx = tx ++ (rx_init ath_rxbuf inp.rx ∷ []) in
    if not (is_zero inp.regd)
    then record { state = sc; calls = regd ++ at_deinit sc; result = inp.regd }
    else if not (is_zero inp.tx)
    then record { state = sc; calls = tx ++ at_deinit sc; result = inp.tx }
    else if not (is_zero inp.rx)
    then record { state = sc; calls = rx ++ at_deinit sc; result = inp.rx }
    else after (rx ++ before_register inp sc) (probe_register inp sc)

unfoldable pub init_device : ProbeInputs → Attached → Outcome
unfolding probe_dma set_hw_capab
init_device inp sc =
    let attached = init_softc inp.attach sc in
    let capab = set_hw_capab inp.chip attached.state inp.wiphy_before in
    if not (is_zero attached.result)
    then attached
    else after (attached.calls ++ capab.capab_calls)
        (probe_dma inp (record attached.state { op_invalid = true }))

unfoldable pub deinit_device : Attached → List Call
deinit_device sc =
    ps_wakeup
    ∷ stop_rfkill_poll
    ∷ deinit_leds
    ∷ ps_restore
    ∷ deinit_debug
    ∷ unregister_hw
    ∷ rx_cleanup
    ∷ deinit_softc sc

-- The module: which of the two buses' drivers are registered.
pub record Buses : Type 0 where
  pub ahb : Bool
  pub pci : Bool
  pub is_ath9k_unloaded : Bool

pub record LoadedModule : Type 0 where
  pub buses : Buses
  pub loaded_result : ℤ

-- -ENODEV
abbrev pub enodev : ℤ
enodev = negsuc 18

-- `ahb` and `pci` are what the two buses' functions return.
unfoldable pub ath9k_init : (ahb pci : ℤ) → Buses → LoadedModule
ath9k_init ahb pci b =
    if is_negative ahb
    then record { buses = b; loaded_result = enodev }
    else if is_negative pci
    then record { buses = record b { ahb = false }; loaded_result = enodev }
    else record { buses = record b { ahb = true; pci = true }; loaded_result = pos 0 }

unfoldable pub ath9k_exit : Buses → Buses
ath9k_exit b = record b { is_ath9k_unloaded = true; ahb = false; pci = false }
