-- ===== src/Driver/Init/Laws.antt =====
-- ath9k/init.c: what bringing the device up and down leaves acquired, on every path.
use ucsma_rate_control.Base.{
  ◌≡◌, refl, Bool, true, false, not, ◌&&◌, ◌||◌, Option, none, some, arith, if◌then◌else◌,
}
use ucsma_rate_control.Base.Int.{ℤ, is_zero, is_negative}
use ucsma_rate_control.Driver.Init.Defs.{Pdata, Attached}
use ucsma_rate_control.Driver.Init.Platform.{
  card_quirks, diversity_caps, eeprom_request, init_soc_platform, init_pcoem_platform,
}
use ucsma_rate_control.Driver.Init.Attach.{
  AttachInputs, map_queues, init_queues, init_misc, attach_queues, attach_hw, second_fields,
  first_fields, take_macaddr, take_pdata, new_ah,
}
use ucsma_rate_control.Driver.Init.Held.{Held, nothing, enter, replay}

-- What is held once the chip has been set up.
abbrev pub with_chip : (detector firmware : Bool) → Held
with_chip detector firmware = record nothing {
  detector = detector;
  firmware = firmware;
  pin = true;
  chip = true;
}

abbrev pub all_attached : (detector firmware timer : Bool) → Held
all_attached detector firmware timer = record (with_chip detector firmware) {
  queues = true;
  btcoex = true;
  timer = timer;
}

-- What is left over.
abbrev pub leftover : (detector firmware btcoex : Bool) → Held
leftover detector firmware btcoex = record nothing {
  detector = detector;
  firmware = firmware;
  btcoex = btcoex;
}

pub queues-replay :
    (inp : AttachInputs) (sc : Attached) (detector firmware : Bool)
    → let o = attach_queues inp sc in
      replay o.calls (with_chip detector firmware)
      ≡ some (
          if is_zero o.result
          then all_attached detector firmware inp.timer
          else leftover detector false (is_zero inp.btcoex))
unfolding attach_queues init_queues enter replay
queues-replay inp sc detector firmware = ground arith

-- What is left over of a failure from the pin on: the detector on every path, the file if the pin is
-- refused, and the coexistence with Bluetooth if it was set up.
abbrev pub hw_leftover : (inp : AttachInputs) (detector firmware : Bool) → Held
hw_leftover inp detector firmware =
    leftover detector (firmware && not (is_zero inp.gpio))
      (is_zero inp.gpio && is_zero inp.hw && is_zero inp.btcoex)

pub hw-replay :
    (inp : AttachInputs) (sc : Attached) (detector firmware : Bool)
    → let o = attach_hw inp sc in
      replay o.calls (leftover detector firmware false)
      ≡ some (
          if is_zero o.result
          then all_attached detector firmware inp.timer
          else hw_leftover inp detector firmware)
unfolding attach_hw enter replay
hw-replay inp sc detector firmware = ground (
  arith,
  queues-replay inp
      (take_macaddr inp.pdata (record (second_fields inp sc) {
        caps = inp.hw_caps (second_fields inp sc).caps;
        macaddr = inp.hw_macaddr;
      }))
      detector firmware,
)

-- Whether the platform names a file with the EEPROM's content and the loader brings it.
abbrev pub loads : (err : ℤ) (blob : Bool) → Option Pdata → Bool
loads err blob none = false
loads err blob (some p) = p.eeprom_name && not (is_negative err) && blob

pub soc-replay :
    (err : ℤ) (blob : Bool) (pdata : Option Pdata) (sc : Attached) (detector : Bool)
    → sc.eeprom_blob ≡ false
    → replay (init_soc_platform err blob pdata sc).calls (leftover detector false false)
      ≡ some (leftover detector (loads err blob pdata) false)
unfolding init_soc_platform eeprom_request enter replay
soc-replay err blob none sc detector fresh = refl
soc-replay err blob (some p) sc detector fresh = ground (arith, fresh)

-- The state that the ledger is compared with.
module _ (err : ℤ) (blob : Bool) where
  pub soc_blob :
      (pdata : Option Pdata) (sc : Attached)
      → sc.eeprom_blob ≡ false
      → (init_soc_platform err blob pdata sc).state.eeprom_blob ≡ loads err blob pdata
  unfolding init_soc_platform eeprom_request
  soc_blob none sc fresh = fresh
  soc_blob (some p) sc fresh = ground (arith, fresh)

  pub soc_detector :
      (pdata : Option Pdata) (sc : Attached)
      → (init_soc_platform err blob pdata sc).state.dfs_detector ≡ sc.dfs_detector
  unfolding init_soc_platform eeprom_request
  soc_detector none sc = refl
  soc_detector (some p) sc = ground arith

pub first_detector :
    (inp : AttachInputs) (sc : Attached) → (first_fields inp sc).dfs_detector ≡ inp.detector
unfolding first_fields take_pdata new_ah init_pcoem_platform
first_detector inp sc = ground arith

pub first_blob : (inp : AttachInputs) (sc : Attached) → (first_fields inp sc).eeprom_blob ≡ false
unfolding first_fields take_pdata new_ah init_pcoem_platform
first_blob inp sc = ground arith

-- Before the hardware is set up no capability of combining the antennas is there to be removed.
pub first_ant_div :
    (inp : AttachInputs) (sc : Attached) → (first_fields inp sc).caps.ant_div_comb ≡ false
unfolding first_fields take_pdata new_ah init_pcoem_platform card_quirks diversity_caps
first_ant_div inp sc = ground arith

-- What a device that is attached holds, by its own fields.
abbrev pub held_by : Attached → Held
held_by sc = all_attached sc.dfs_detector sc.eeprom_blob sc.p2p_ps_timer

-- Once attached the device holds what its fields say.
pub attached-held :
    (inp : AttachInputs) (sc : Attached)
    → let o = attach_hw inp sc in
      is_zero o.result ≡ true
      → held_by o.state ≡ all_attached sc.dfs_detector sc.eeprom_blob inp.timer
unfolding attach_hw attach_queues init_queues init_misc second_fields map_queues
attached-held inp sc done = ground (arith, done)

-- Whether the platform's part succeeds.
abbrev pub platform_ok : (err : ℤ) (blob : Bool) → Option Pdata → Bool
platform_ok err blob none = true
platform_ok err blob (some p) = not p.eeprom_name || (not (is_negative err) && blob)

pub soc_ok :
    (err : ℤ) (blob : Bool) (pdata : Option Pdata) (sc : Attached)
    → sc.eeprom_blob ≡ false
    → is_zero (init_soc_platform err blob pdata sc).result ≡ platform_ok err blob pdata
unfolding init_soc_platform eeprom_request
soc_ok err blob none sc fresh = refl
soc_ok err blob (some p) sc fresh = ground (arith, fresh)

pub not_ok-loads :
    (err : ℤ) (blob : Bool) (pdata : Option Pdata)
    → platform_ok err blob pdata ≡ false
    → loads err blob pdata ≡ false
not_ok-loads err blob none h = absurd (cc)
not_ok-loads err blob (some p) h = ground (arith, h)
