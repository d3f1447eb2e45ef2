-- ===== src/Driver/Tests/Network.antt =====
-- ath9k/main.c: the keys as a set, the network and the clock at concrete inputs.
use ucsma_rate_control.Base.{
  ℕ, ◌+◌, ◌%◌, ◌^◌, ◌≤◌, ◌<◌, ◌≡◌, refl, true, false, not, ◌&&◌, some, List, [], ◌∷◌, ◌++◌, arith,
  if◌then◌else◌, get_elem?, ◌==◌,
}
use ucsma_rate_control.Base.Int.{pos, negsuc}
use ucsma_rate_control.Driver.Keys.{Station}
use ucsma_rate_control.Driver.Keys.Refine.{
  KeySet, Represents, install, withdraw, KeyStep, set_steps, key_steps, Shows, key_steps-Shows,
}
use ucsma_rate_control.Driver.PeerToPeer.{
  Noa, update_p2p_ps_timer, from_to, target, stop_time, in_reach, timer_start_bounds,
}
use ucsma_rate_control.Driver.Bss.{BssVif, Bss, P2pInputs, Changed, bss_info_changed}
use ucsma_rate_control.Driver.Bss.Primary.{IsOnePrimary, any_assoc, bss-OnePrimary}
use ucsma_rate_control.Driver.Operations.{get_survey}
use ucsma_rate_control.Driver.Operations.Laws.{channels_of, get_survey-append}
use ucsma_rate_control.Driver.Tests.{obedient, asleep}
use ucsma_rate_control.Driver.Tests.Settings.{first_vif, second_vif, radio, pair_key, key_mode}

abbrev newcomer : Station
newcomer = record { ps_key = 0; key_idx = 0 ∷ 4 ∷ 0 ∷ 0 ∷ []; sleeping = false }

abbrev one_key : KeySet
one_key = record { member = λ j. j == 4; size = 1 }

newcomer-Represents : Represents newcomer one_key
newcomer-Represents = record {
  no_own = refl;
  four = refl;
  distinct = refl;
  counted = refl;
  members = λ j. ground arith;
}

-- A key at place 7, a key that the hardware refuses, and the key at place 4 taken away.
abbrev key_calls : List KeyStep
key_calls =
    install (pos 263) pair_key
    ∷ install (negsuc 27) pair_key
    ∷ withdraw (record pair_key { hw_key_idx = 4 })
    ∷ []

key_steps-Shows_example :
    Shows
      (key_steps obedient false key_mode key_calls (some newcomer) asleep)
      (set_steps key_calls one_key)
key_steps-Shows_example =
    key_steps-Shows obedient false key_mode key_calls newcomer one_key asleep refl refl
      newcomer-Represents (refl, (tt, (tt, tt)))

-- The notice is for shortly after the clock's wrap-around, and the clock stands before it.
abbrev notice : Noa
notice = record { has_next_tsf = true; next_tsf = 5000; absent = false }

timer_start_bounds_example :
    (at : ℕ) × ((update_p2p_ps_timer 4294966296 (some notice)).started ≡ some at)
    × (stop_time ≤ from_to 4294966296 at)
    × (from_to 4294966296 at < 2 ^ 31)
    × (at ≡ (
        if in_reach (from_to 4294966296 (target notice))
        then target notice
        else (4294966296 + stop_time) % 2 ^ 32))
timer_start_bounds_example = timer_start_bounds 4294966296 notice (omega arith) (omega arith) refl

abbrev left_network : BssVif
left_network = record { vif = first_vif; assoc = false; use_short_slot = true; p2p = false }

abbrev joined_network : BssVif
joined_network = record left_network {
  vif = record second_vif { primary_sta_vif = false };
  assoc = true;
}

abbrev two_networks : Bss
two_networks = record {
  radio = record radio { device = record radio.device { op_prim_sta_vif = true } };
  vifs = left_network ∷ joined_network ∷ [];
  beacon_slottime = 20;
  updateslot = false;
  ah_slottime = 20;
}

abbrev association : Changed
association = record {
  assoc_changed = true;
  ibss = false;
  beacon_enabled = false;
  beacon_int = false;
  erp_slot = true;
  p2p_ps = true;
}

abbrev p2p_inputs : P2pInputs
p2p_inputs = record {
  parse = λ (noa : Noa) (tsf : ℕ). noa;
  has_timer = true;
  tsf_first = 0;
  tsf_second = 1;
  noa_before = notice;
}

bss-OnePrimary_example :
    let after = (bss_info_changed obedient false p2p_inputs association 0 two_networks).state in
    IsOnePrimary after
    × ((true && (any_assoc after.vifs && not after.radio.device.op_prim_sta_vif)) ≡ false)
bss-OnePrimary_example =
    bss-OnePrimary obedient false p2p_inputs association 0 left_network two_networks refl refl

get_survey-append_example :
    (get_survey 3 (some (0 ∷ 1 ∷ [])) (some (14 ∷ 15 ∷ []))).channel
    ≡ get_elem? (channels_of (some (0 ∷ 1 ∷ [])) ++ channels_of (some (14 ∷ 15 ∷ []))) 3
get_survey-append_example = get_survey-append 3 (some (0 ∷ 1 ∷ [])) (some (14 ∷ 15 ∷ []))
