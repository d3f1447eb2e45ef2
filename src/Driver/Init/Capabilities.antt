-- ===== src/Driver/Init/Capabilities.antt =====
-- ath9k/init.c: what the driver tells mac80211 about the device, and the limits of power.
use ucsma_rate_control.Base.{
  ℕ, ◌-◌, ◌^◌, Bool, true, false, ◌&&◌, ◌||◌, Option, none, some, List, [], ◌∷◌, ◌++◌,
  if◌then◌else◌,
}
use ucsma_rate_control.Driver.Init.Defs.{
  Call, init_wow, reload_chainmask, set_txpowerlimit, Attached,
}

-- `IEEE80211_HW_…`, without the prefix.
pub data HwFlag : Type 0 where
  rx_includes_fcs host_broadcast_ps_buffering signal_dbm ps_nullfunc_stack spectrum_mgmt : HwFlag
  reports_tx_ack_status supports_rc_table supports_ht_cck_rates supports_ps : HwFlag
  ampdu_aggregation mfp_capable : HwFlag

-- `NL80211_IFTYPE_…`
pub data IfaceType : Type 0 where
  p2p_go p2p_client ap wds station adhoc mesh_point : IfaceType

-- One entry of `if_limits`.
pub record IfaceLimit : Type 0 where
  pub max : ℕ
  pub types : List IfaceType

-- `struct ieee80211_hw` and its wiphy, as far as the file writes them. `ps_on_by_default` is the bit
-- of the wiphy's flags that is cleared; the bits that are always set are left out. CPTCFG_ATH9K_DFS_CERTIFIED is off.
pub record Wiphy : Type 0 where
  pub flags : List HwFlag
  pub have_stbc : Bool
  pub interface_modes : List IfaceType
  pub iface_combination : List IfaceLimit
  pub max_interfaces : ℕ
  pub ps_on_by_default : Bool
  pub queues : ℕ
  pub max_rates : ℕ
  pub max_rate_tries : ℕ
  pub available_antennas_rx : ℕ
  pub available_antennas_tx : ℕ
  pub band_2ghz_set : Bool
  pub band_5ghz_set : Bool
  pub perm_addr : List ℕ

-- What the chip answers and the options of the build: the revisions `AR_SREV_9280_20_OR_LATER` and
-- `AR_SREV_9160_10_OR_LATER`, and CPTCFG_MAC80211_MESH and CPTCFG_ATH9K_TX99.
pub record ChipInputs : Type 0 where
  pub is_9280_20 : Bool
  pub is_9160_10 : Bool
  pub max_rxchains : ℕ
  pub max_txchains : ℕ
  pub mesh : Bool
  pub tx99 : Bool
  pub ps_enable : Bool
  pub nohwcrypt : Bool

abbrev pub if_limits : (mesh : Bool) → List IfaceLimit
if_limits mesh =
    record { max = 2048; types = station ∷ wds ∷ [] }
    ∷ record { max = 8; types = if mesh then mesh_point ∷ ap ∷ [] else ap ∷ [] }
    ∷ record { max = 1; types = p2p_client ∷ p2p_go ∷ [] }
    ∷ record { max = 1; types = adhoc ∷ [] }
    ∷ []

abbrev pub optional : Bool → HwFlag → List HwFlag
optional b flag = if b then flag ∷ [] else []

-- What the function leaves: the masks of the antennas of `struct ath_softc` beside `hw`.
pub record Announced : Type 0 where
  pub wiphy : Wiphy
  pub ant_rx : ℕ
  pub ant_tx : ℕ
  pub capab_calls : List Call

-- `BIT(max_rxchains) - 1`, or two antennas for a chain that combines them.
abbrev pub rx_antennas : ChipInputs → Attached → ℕ
rx_antennas chip sc = if sc.caps.ant_div_comb then 3 else 2 ^ chip.max_rxchains - 1

unfoldable pub set_hw_capab : ChipInputs → Attached → Wiphy → Announced
set_hw_capab chip sc hw = record {
  wiphy = record {
    flags =
        rx_includes_fcs
        ∷ host_broadcast_ps_buffering
        ∷ signal_dbm
        ∷ ps_nullfunc_stack
        ∷ spectrum_mgmt
        ∷ reports_tx_ack_status
        ∷ supports_rc_table
        ∷ supports_ht_cck_rates
        ∷ (optional chip.ps_enable supports_ps
            ++ (optional sc.caps.ht ampdu_aggregation
                ++ optional (chip.is_9160_10 || chip.nohwcrypt) mfp_capable));
    have_stbc = if sc.caps.ht && chip.is_9280_20 then true else hw.have_stbc;
    interface_modes =
        if chip.tx99
        then hw.interface_modes
        else p2p_go ∷ p2p_client ∷ ap ∷ wds ∷ station ∷ adhoc ∷ mesh_point ∷ [];
    iface_combination = if chip.tx99 then hw.iface_combination else if_limits chip.mesh;
    max_interfaces = if chip.tx99 then hw.max_interfaces else 2048;
    ps_on_by_default = false;
    queues = 4;
    max_rates = 4;
    max_rate_tries = 10;
    available_antennas_rx = rx_antennas chip sc;
    available_antennas_tx = 2 ^ chip.max_txchains - 1;
    band_2ghz_set = if sc.caps.band_2ghz then true else hw.band_2ghz_set;
    band_5ghz_set = if sc.caps.band_5ghz then true else hw.band_5ghz_set;
    perm_addr = sc.macaddr;
  };
  ant_rx = rx_antennas chip sc;
  ant_tx = 2 ^ chip.max_txchains - 1;
  capab_calls = init_wow ∷ reload_chainmask ∷ [];
}

-- The channels of a band, by their index in `ah->channels`, and `ah->curchan` after them.
pub record Limited : Type 0 where
  pub curchan : Option ℕ
  pub limit_calls : List Call

unfoldable pub init_band_txpower : (channels : List ℕ) → Option ℕ → Limited
init_band_txpower [] curchan = record { curchan = curchan; limit_calls = [] }
init_band_txpower (c ∷ channels) curchan =
    let rest = init_band_txpower channels (some c) in
    record rest { limit_calls = set_txpowerlimit c ∷ rest.limit_calls }

abbrev pub band_if : (has : Bool) (channels : List ℕ) → Option ℕ → Limited
band_if has channels curchan =
    if has
    then init_band_txpower channels curchan
    else record { curchan = curchan; limit_calls = [] }

-- `if (curchan) ah->curchan = curchan;`
abbrev pub restored : Option ℕ → Option ℕ → Option ℕ
restored none last = last
restored (some before) last = some before

unfoldable pub init_txpower_limits :
    Attached → (channels_2ghz channels_5ghz : List ℕ) → (curchan : Option ℕ) → Limited
unfolding init_band_txpower
init_txpower_limits sc channels_2ghz channels_5ghz curchan =
    let low = band_if sc.caps.band_2ghz channels_2ghz curchan in
    let high = band_if sc.caps.band_5ghz channels_5ghz low.curchan in
    record {
      curchan = restored curchan high.curchan;
      limit_calls = low.limit_calls ++ high.limit_calls;
    }
