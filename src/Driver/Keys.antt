-- ===== src/Driver/Keys.antt =====
-- ath9k/main.c: the stations, their keys, and their sleep. A key's place in the hardware is a u8, and
-- `ps_key` is the same byte read as signed. What `ath_key_config` returns is an argument.
pub mod Laws
pub mod Slots
pub mod Refine
use ucsma_rate_control.Base.{
  ℕ, zero, suc, ◌%◌, ◌≡◌, Bool, true, false, not, ◌&&◌, ◌||◌, Option, none, some, List, [], ◌∷◌,
  ◌++◌, arith, ◌==◌, ltb, if◌then◌else◌,
}
use ucsma_rate_control.Base.Int.{ℤ, pos, negsuc, pos_part, int_gt}
use ucsma_rate_control.Driver.State.{
  PowerMode, Softc, Call, lock_mutex, unlock_mutex, node_init, node_cleanup, aggr_sleep,
  aggr_wakeup, key_config, key_delete, set_tx_filter, warn_no_slot,
}
use ucsma_rate_control.Driver.Power.{ps_wakeup, ps_restore}

-- `key_idx` has four entries, and 0 is an empty one.
pub record Station : Type 0 where
  pub ps_key : ℕ
  pub key_idx : List ℕ
  pub sleeping : Bool

pub record StationRun : Type 0 where
  pub state : Station
  pub calls : List Call

-- `key_idx[0] = k`.
abbrev pub first_slot : ℕ → List ℕ → List ℕ
first_slot k [] = []
first_slot k (slot ∷ slots) = k ∷ slots

-- The loops over `key_idx` that enter a key in the first empty entry, and that empty the first entry
-- that holds it.
abbrev pub put_key : ℕ → List ℕ → List ℕ
put_key k [] = []
put_key k (slot ∷ slots) =
    let rest = put_key k slots in if slot == 0 then k ∷ slots else slot ∷ rest

abbrev pub has_free : List ℕ → Bool
has_free [] = false
has_free (slot ∷ slots) = (slot == 0) || has_free slots

abbrev pub drop_key : ℕ → List ℕ → List ℕ
drop_key k [] = []
drop_key k (slot ∷ slots) =
    let rest = drop_key k slots in if slot == k then 0 ∷ slots else slot ∷ rest

unfoldable pub ath_node_attach : Station → StationRun
ath_node_attach an = record {
  state = record an { key_idx = 0 ∷ 0 ∷ 0 ∷ 0 ∷ [] };
  calls = node_init ∷ [];
}

-- `is_ap_type` is whether the interface is an access point or a VLAN of one.
unfoldable pub ath9k_sta_add : (is_ap_type : Bool) (configured : ℤ) → Station → StationRun
unfolding ath_node_attach
ath9k_sta_add is_ap_type configured an =
    let attached = ath_node_attach an in
    let index = pos_part configured % 256 in
    let keyed : StationRun = record {
      state = record attached.state {
        ps_key = index;
        key_idx = first_slot index attached.state.key_idx;
      };
      calls = attached.calls ++ (key_config ∷ []);
    } in
    if not is_ap_type
    then attached
    else if int_gt configured 0
    then keyed
    else record { state = attached.state; calls = attached.calls ++ (key_config ∷ []) }

unfoldable pub ath9k_del_ps_key : Station → StationRun
ath9k_del_ps_key an = if an.ps_key == 0 then record { state = an; calls = [] } else record {
  state = record an { ps_key = 0; key_idx = first_slot 0 an.key_idx };
  calls = key_delete an.ps_key ∷ [];
}

unfoldable pub ath9k_sta_remove : Station → StationRun
unfolding ath9k_del_ps_key
ath9k_sta_remove an =
    let r = ath9k_del_ps_key an in
    record { state = r.state; calls = r.calls ++ (node_cleanup ∷ []) }

-- The loop over `key_idx`.
unfoldable pub ath9k_sta_set_tx_filter : (filtered : Bool) (keys : List ℕ) → List Call
ath9k_sta_set_tx_filter filtered [] = []
ath9k_sta_set_tx_filter filtered (k ∷ keys) =
    let rest = ath9k_sta_set_tx_filter filtered keys in
    if k == 0 then rest else set_tx_filter k filtered ∷ rest

pub data NotifyCmd : Type 0 where
  notify_sleep notify_awake : NotifyCmd

unfoldable pub ath9k_sta_notify : NotifyCmd → Station → StationRun
unfolding ath9k_sta_set_tx_filter
ath9k_sta_notify notify_sleep an = record {
  state = record an { sleeping = true };
  calls = aggr_sleep ∷ ath9k_sta_set_tx_filter true an.key_idx;
}
ath9k_sta_notify notify_awake an = record {
  state = record an { sleeping = false };
  calls = ath9k_sta_set_tx_filter false an.key_idx ++ (aggr_wakeup ∷ []);
}

pub data Cipher : Type 0 where
  tkip ccmp other_cipher : Cipher

abbrev pub is_tkip : Cipher → Bool
is_tkip tkip = true
is_tkip _ = false

abbrev pub is_ccmp : Cipher → Bool
is_ccmp ccmp = true
is_ccmp _ = false

pub record Key : Type 0 where
  pub cipher : Cipher
  pub pairwise : Bool
  pub hw_key_idx : ℕ
  pub generate_iv : Bool
  pub generate_mmic : Bool
  pub sw_mgmt_tx : Bool

pub data KeyCmd : Type 0 where
  set_cmd disable_cmd other_cmd : KeyCmd

-- The station that the call names, the key, and what they become.
pub record KeyRun : Type 0 where
  pub sta : Option Station
  pub key : Key
  pub calls : List Call
  pub result : ℤ

-- The part under `ret >= 0`.
key_accepted : (sw_mgmt_crypto : Bool) (index : ℕ) → Key → Key
key_accepted sw_mgmt_crypto index k = record k {
  hw_key_idx = index % 256;
  generate_iv = true;
  generate_mmic = k.generate_mmic || is_tkip k.cipher;
  sw_mgmt_tx = k.sw_mgmt_tx || (sw_mgmt_crypto && is_ccmp k.cipher);
}

-- The key of the station, after the key was configured.
enter_key : Key → Station → StationRun
enter_key k an = if k.hw_key_idx == 0 then record { state = an; calls = [] } else record {
  state = record an { key_idx = put_key k.hw_key_idx an.key_idx };
  calls = if has_free an.key_idx then [] else warn_no_slot ∷ [];
}

pub record StaRun : Type 0 where
  pub sta : Option Station
  pub calls : List Call

-- A function of the station, where the call names one.
abbrev pub on_sta : (Station → StationRun) → Option Station → StaRun
on_sta f none = record { sta = none; calls = [] }
on_sta f (some an) = record { sta = some (f an).state; calls = (f an).calls }

-- The three cases of the command. `configured` is what `ath_key_config` returns.
set_case : (sw_mgmt_crypto : Bool) (configured : ℤ) → Option Station → Key → KeyRun
unfolding key_accepted enter_key ath9k_del_ps_key
set_case sw_mgmt_crypto (pos index) sta k =
    let freed = on_sta ath9k_del_ps_key sta in
    let taken = key_accepted sw_mgmt_crypto index k in
    let entered = on_sta (enter_key taken) freed.sta in
    record {
      sta = entered.sta;
      key = taken;
      calls = freed.calls ++ (key_config ∷ entered.calls);
      result = pos 0;
    }
set_case sw_mgmt_crypto (negsuc error) sta k =
    let freed = on_sta ath9k_del_ps_key sta in
    record {
      sta = freed.sta;
      key = record k { hw_key_idx = 0 };
      calls = freed.calls ++ (key_config ∷ []);
      result = negsuc error;
    }

forget_key : Key → Station → StationRun
forget_key k an = record {
  state = record an { key_idx = drop_key k.hw_key_idx an.key_idx };
  calls = [];
}

disable_case : Option Station → Key → KeyRun
unfolding forget_key
disable_case sta k = record {
  sta = (on_sta (forget_key k) sta).sta;
  key = record k { hw_key_idx = 0 };
  calls = key_delete k.hw_key_idx ∷ [];
  result = pos 0;
}

run_cmd : KeyCmd → (sw_mgmt_crypto : Bool) (configured : ℤ) → Option Station → Key → KeyRun
unfolding set_case disable_case
run_cmd set_cmd sw configured sta k = set_case sw configured sta k
run_cmd disable_cmd sw configured sta k = disable_case sta k
run_cmd other_cmd sw configured sta k = record {
  sta = sta;
  key = k;
  calls = [];
  result = negsuc 21;
}

-- What the driver and the interface say: no hardware crypto, an ad hoc or mesh interface, and
-- management frames encrypted in software.
pub record KeyMode : Type 0 where
  pub nohwcrypt : Bool
  pub is_ibss : Bool
  pub sw_mgmt_crypto : Bool

pub record SetKey : Type 0 where
  pub softc : Softc
  pub run : KeyRun

module _ (setpower : PowerMode → PowerMode → PowerMode) (btcoex : Bool) where
  unfoldable pub ath9k_set_key :
      KeyMode → KeyCmd → (configured : ℤ) → Option Station → Key → Softc → SetKey
  unfolding run_cmd
  ath9k_set_key m cmd configured sta k sc =
      let up = ps_wakeup setpower sc in
      let done = run_cmd cmd m.sw_mgmt_crypto configured sta k in
      let down = ps_restore setpower btcoex up.state in
      let refused : ℕ → SetKey = λ e. record {
        softc = sc;
        run = record { sta = sta; key = k; calls = []; result = negsuc e };
      } in
      if m.nohwcrypt
      then refused 27
      else if m.is_ibss && (is_tkip k.cipher || is_ccmp k.cipher) && not k.pairwise
      then refused 94
      else record {
        softc = down.state;
        run = record done {
          calls = lock_mutex ∷ up.calls ++ (done.calls ++ (down.calls ++ (unlock_mutex ∷ [])));
        };
      }
