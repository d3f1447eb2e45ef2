-- ===== src/Driver/PeerToPeer.antt =====
-- ath9k/main.c: the timer that follows a peer-to-peer group owner's absences. A time is a u32, and the
-- s32 arithmetic on it wraps, as the kernel is compiled.
use ucsma_rate_control.Base.{
  ℕ, ◌+◌, ◌-◌, ◌%◌, ◌^◌, ◌≤◌, ◌<◌, ◌≡◌, refl, inl, inr, Bool-cases, Bool, true, false, not, ◌&&◌,
  ◌||◌, Option, none, some, List, [], ◌∷◌, ◌++◌, arith, ltb, leb, if◌then◌else◌,
}
use ucsma_rate_control.Driver.State.{
  Call, stop_gen_timer, read_tsf, start_gen_timer, parse_noa, find_station, lock_rcu, unlock_rcu,
  aggr_sleep, aggr_wakeup,
}

-- `avp->noa`; `absent` as a truth value.
pub record Noa : Type 0 where
  pub has_next_tsf : Bool
  pub next_tsf : ℕ
  pub absent : Bool

-- `ATH_P2P_PS_STOP_TIME`
abbrev pub stop_time : ℕ
stop_time = 1000

-- `b - a` of two u32.
abbrev pub from_to : (a b : ℕ) → ℕ
from_to a b = (b + 2 ^ 32 - a) % 2 ^ 32

-- The comparison of an s32, by its bits, with a small constant.
abbrev pub s32_less : (pattern k : ℕ) → Bool
s32_less pattern k = leb (2 ^ 31) pattern || ltb pattern k

-- `target_tsf` before it is compared with the time.
abbrev pub target : Noa → ℕ
target noa = if noa.absent then noa.next_tsf else from_to stop_time noa.next_tsf

-- The time that the timer is started for, if it is, and the calls.
pub record TimerRun : Type 0 where
  pub started : Option ℕ
  pub calls : List Call

-- `none` is no interface.
unfoldable pub update_p2p_ps_timer : (tsf : ℕ) → Option Noa → TimerRun
update_p2p_ps_timer tsf none = record { started = none; calls = [] }
update_p2p_ps_timer tsf (some noa) =
    let at =
      if s32_less (from_to tsf (target noa)) stop_time
      then (tsf + stop_time) % 2 ^ 32
      else target noa in
    if not noa.has_next_tsf
    then record { started = none; calls = [] }
    else record { started = some at; calls = stop_gen_timer ∷ read_tsf ∷ start_gen_timer at ∷ [] }

-- The interface and its station after the timer, which does nothing where no interface is set. `sleeping` is `none` where there is no station.
pub record P2pRun : Type 0 where
  pub noa : Noa
  pub sleeping : Option Bool
  pub p2p_started : Option ℕ
  pub p2p_calls : List Call

abbrev pub same : Bool → Bool → Bool
same true b = b
same false b = not b

-- The station's part, under the lock.
unfoldable pub follow_absence : (absent : Bool) → (sleeping : Option Bool) → Option Bool
follow_absence absent none = none
follow_absence absent (some sleeping) = some absent

abbrev pub absence_calls : (absent : Bool) → (sleeping : Option Bool) → List Call
absence_calls absent none = []
absence_calls absent (some sleeping) =
    if same sleeping absent then [] else (if absent then aggr_sleep else aggr_wakeup) ∷ []

-- `tsf_first` and `tsf_second` are the two readings of the clock, and `update_p2p_noa` what mac80211's
-- function of that name makes of the notice.
module _ (update_p2p_noa : Noa → ℕ → Noa) where
  abbrev pub noa_at : (tsf_first : ℕ) → Noa → Noa
  noa_at tsf_first noa =
      let tsf = if noa.absent then tsf_first else (tsf_first + stop_time) % 2 ^ 32 in
      if not noa.has_next_tsf || ltb (2 ^ 31) (from_to tsf noa.next_tsf)
      then update_p2p_noa noa tsf
      else noa

  unfoldable pub ath9k_p2p_ps_timer :
      (tsf_first tsf_second : ℕ) → Noa → (sleeping : Option Bool) → P2pRun
  unfolding update_p2p_ps_timer follow_absence
  ath9k_p2p_ps_timer tsf_first tsf_second noa sleeping =
      let now = noa_at tsf_first noa in
      let timer = update_p2p_ps_timer tsf_second (some now) in
      record {
        noa = now;
        sleeping = follow_absence now.absent sleeping;
        p2p_started = timer.started;
        p2p_calls =
            read_tsf ∷ timer.calls
            ++ (lock_rcu ∷ find_station ∷ (absence_calls now.absent sleeping ++ (unlock_rcu ∷ [])));
      }

-- What `ath9k_update_p2p_ps` leaves: whether the interface is the one that the timer follows.
pub record FollowRun : Type 0 where
  pub follows : Bool
  pub noa_now : Noa
  pub follow_calls : List Call

-- `parse` is what mac80211's parser makes of the notice at a time.
unfoldable pub update_p2p_ps :
    (parse : Noa → ℕ → Noa) (has_timer is_station_type p2p follows : Bool)
    (tsf_first tsf_second : ℕ)
    → Noa
    → FollowRun
unfolding update_p2p_ps_timer
update_p2p_ps parse has_timer is_station_type p2p follows tsf_first tsf_second noa =
    let parsed = parse noa tsf_first in
    if not has_timer || (not is_station_type || not p2p)
    then record { follows = follows; noa_now = noa; follow_calls = [] }
    else record {
      follows = true;
      noa_now = parsed;
      follow_calls = read_tsf ∷ parse_noa ∷ (update_p2p_ps_timer tsf_second (some parsed)).calls;
    }

abbrev pub in_reach : (ahead : ℕ) → Bool
in_reach ahead = leb stop_time ahead && ltb ahead (2 ^ 31)

-- With a next absence known and both times u32, the timer is started for a time that is at least
-- 1000 and less than 2 ^ 31 microseconds ahead, also across the wrap-around: for the target if
-- the target is, and else for 1000 microseconds ahead.
pub timer_start_bounds :
    (tsf : ℕ) (noa : Noa)
    → tsf < 2 ^ 32
    → noa.next_tsf < 2 ^ 32
    → noa.has_next_tsf ≡ true
    → (at : ℕ) × ((update_p2p_ps_timer tsf (some noa)).started ≡ some at)
      × (stop_time ≤ from_to tsf at)
      × (from_to tsf at < 2 ^ 31)
      × (at ≡ (
          if in_reach (from_to tsf (target noa)) then target noa else (tsf + stop_time) % 2 ^ 32))
unfolding update_p2p_ps_timer
timer_start_bounds tsf noa now next has =
    let soon : from_to tsf ((tsf + stop_time) % 2 ^ 32) ≡ stop_time = omega arith in
    elim (Bool-cases (s32_less (from_to tsf (target noa)) stop_time)) [
      | inl late ↦ (
        (tsf + stop_time) % 2 ^ 32,
        rw (has, late) refl,
        ground (arith, soon),
        ground (arith, soon),
        ground (arith, late),
      )
      | inr good ↦ (
        target noa,
        rw (has, good) refl,
        ground (arith, good),
        ground (arith, good),
        ground (arith, good),
      )
    ]

-- After the timer the station sleeps just when the owner is absent, and the frames are held or let go
-- just when that is a change.
pub p2p_follows :
    (update_p2p_noa : Noa → ℕ → Noa) (tsf_first tsf_second : ℕ) (noa : Noa) (sleeping : Bool)
    → let r = ath9k_p2p_ps_timer update_p2p_noa tsf_first tsf_second noa (some sleeping) in
      (r.sleeping ≡ some r.noa.absent)
      × (r.p2p_started ≡ (update_p2p_ps_timer tsf_second (some r.noa)).started)
unfolding ath9k_p2p_ps_timer follow_absence
p2p_follows update_p2p_noa tsf_first tsf_second noa sleeping = (refl, refl)
