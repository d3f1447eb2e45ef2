-- ===== src/Driver/Power.antt =====
-- ath9k/main.c: waking the hardware and letting it sleep, by a count of users.
use ucsma_rate_control.Base.{
  ℕ, ◌+◌, ◌-◌, ◌<◌, ◌^◌, ◌%◌, ◌≡◌, ◌⊎◌, inl, refl, Bool, true, false, not, ◌&&◌, ◌||◌, List, [],
  ◌∷◌, ◌++◌, arith, ◌==◌, if◌then◌else◌,
}
use ucsma_rate_control.Driver.State.{
  PowerMode, awake, full_sleep, network_sleep, undefined, PsFlags, Softc, Call, lock_pm, unlock_pm,
  lock_cc, unlock_cc, del_sleep_timer, mod_sleep_timer, set_power, update_cycle_counters,
  clear_cycle_counters, stop_gen_timer, stop_dma_recv, set_rx_abort,
}

pub record Done : Type 0 where
  pub state : Softc
  pub calls : List Call

abbrev pub is_awake : PowerMode → Bool
is_awake awake = true
is_awake full_sleep = false
is_awake network_sleep = false
is_awake undefined = false

-- `ps_usecount` is an unsigned long of 32 bits.
abbrev pub ulong : ℕ → ℕ
ulong n = n % 2 ^ 32

-- Something that a sleep would miss.
unfoldable pub must_wait : PsFlags → Bool
must_wait f =
    f.wait_for_beacon || f.wait_for_cab || f.wait_for_pspoll_data || f.wait_for_tx_ack
    || f.wait_for_ani

-- `setpower requested current` is the mode that `ath9k_hw_setpower` leaves.
module _ (setpower : PowerMode → PowerMode → PowerMode) where
  -- The function that the timer runs.
  unfoldable pub ps_full_sleep : Softc → Done
  ps_full_sleep sc = record {
    state = record sc { power_mode = setpower full_sleep sc.power_mode };
    calls =
        lock_cc
        ∷ update_cycle_counters
        ∷ unlock_cc
        ∷ set_rx_abort true
        ∷ stop_dma_recv
        ∷ set_power full_sleep
        ∷ [];
  }

  unfoldable pub ps_wakeup : Softc → Done
  ps_wakeup sc =
      let users = ulong (sc.ps_usecount + 1) in
      let counted = record sc { ps_usecount = users } in
      if not (users == 1)
      then record { state = counted; calls = lock_pm ∷ unlock_pm ∷ [] }
      else record {
        state = record counted { power_mode = setpower awake sc.power_mode; sleep_timer = false };
        calls =
            lock_pm
              ∷ del_sleep_timer
              ∷ set_power awake
              ∷ (if is_awake sc.power_mode
                  then []
                  else lock_cc ∷ update_cycle_counters ∷ clear_cycle_counters ∷ unlock_cc ∷ [])
            ++ unlock_pm ∷ [];
      }

  -- `btcoex` is what `ath9k_hw_btcoex_is_enabled` answers.
  unfoldable pub ps_restore : (btcoex : Bool) → Softc → Done
  unfolding must_wait
  ps_restore btcoex sc =
      let users = ulong (sc.ps_usecount + 2 ^ 32 - 1) in
      let counted = record sc { ps_usecount = users } in
      if not (users == 0)
      then record { state = counted; calls = lock_pm ∷ unlock_pm ∷ [] }
      else if sc.ps_idle
      then record {
        state = record counted { sleep_timer = true };
        calls = lock_pm ∷ mod_sleep_timer ∷ unlock_pm ∷ [];
      }
      else if sc.ps_enabled && not (must_wait sc.ps_flags)
      then record {
        state = record counted { power_mode = setpower network_sleep sc.power_mode };
        calls =
            lock_pm ∷ (if btcoex then stop_gen_timer ∷ [] else [])
            ++ lock_cc
              ∷ update_cycle_counters
              ∷ unlock_cc
              ∷ set_power network_sleep
              ∷ unlock_pm
              ∷ [];
      }
      else record { state = counted; calls = lock_pm ∷ unlock_pm ∷ [] }

pub data Op : Type 0 where
  wakeup expire : Op
  restore : (btcoex : Bool) → Op

module _ (setpower : PowerMode → PowerMode → PowerMode) where
  pub apply : Op → Softc → Softc
  apply wakeup sc = (ps_wakeup setpower sc).state
  apply expire sc =
      if sc.sleep_timer
      then (ps_full_sleep setpower (record sc { sleep_timer = false })).state
      else sc
  apply (restore btcoex) sc = (ps_restore setpower btcoex sc).state

  pub apply_all : List Op → Softc → Softc
  unfolding apply
  apply_all [] sc = sc
  apply_all (op ∷ ops) sc = apply_all ops (apply op sc)

-- Each restore follows a wakeup of its own, and the number of users fits; the timer may expire at any
-- time.
abbrev pub InPairs : List Op → ℕ → Type 0
InPairs [] users = Unit
InPairs (expire ∷ ops) users = InPairs ops users
InPairs (wakeup ∷ ops) users = (users + 1 < 2 ^ 32) × InPairs ops (users + 1)
InPairs (restore btcoex ∷ ops) users = (0 < users) × InPairs ops (users - 1)

abbrev pub users_after : List Op → ℕ → ℕ
users_after [] users = users
users_after (expire ∷ ops) users = users_after ops users
users_after (wakeup ∷ ops) users = users_after ops (users + 1)
users_after (restore btcoex ∷ ops) users = users_after ops (users - 1)

-- The count is that of the users, and with a user the hardware is awake and the timer is off.
pub record IsServed (sc : Softc) (users : ℕ) : Type 0 where
  pub counted : sc.ps_usecount ≡ users
  pub fits : users < 2 ^ 32
  pub served : (users ≡ 0) ⊎ ((is_awake sc.power_mode ≡ true) × (sc.sleep_timer ≡ false))

module _ (setpower : PowerMode → PowerMode → PowerMode)
    (wakes : (m : PowerMode) → is_awake (setpower awake m) ≡ true) where
  wakeup-IsServed :
      (sc : Softc) (users : ℕ)
      → users + 1 < 2 ^ 32
      → IsServed sc users
      → IsServed (ps_wakeup setpower sc).state (users + 1)
  unfolding ps_wakeup
  wakeup-IsServed sc users h v = ground (arith, wakes sc.power_mode)

  restore-IsServed :
      (btcoex : Bool) (sc : Softc) (users : ℕ)
      → 0 < users
      → IsServed sc users
      → IsServed (ps_restore setpower btcoex sc).state (users - 1)
  unfolding ps_restore
  restore-IsServed btcoex sc users h v = ground arith

  expire-IsServed :
      (sc : Softc) (users : ℕ) → IsServed sc users → IsServed (apply setpower expire sc) users
  unfolding apply ps_full_sleep
  expire-IsServed sc users v = ground arith

  apply-IsServed :
      (ops : List Op) (sc : Softc) (users : ℕ)
      → InPairs ops users
      → IsServed sc users
      → IsServed (apply_all setpower ops sc) (users_after ops users)
  unfolding apply_all
  apply-IsServed [] sc users pairs v = v
  apply-IsServed (expire ∷ ops) sc users pairs v =
      apply-IsServed ops (apply setpower expire sc) users pairs (expire-IsServed sc users v)
  apply-IsServed (wakeup ∷ ops) sc users (fits, pairs) v =
      apply-IsServed ops (ps_wakeup setpower sc).state (users + 1) pairs
        (wakeup-IsServed sc users fits v)
  apply-IsServed (restore btcoex ∷ ops) sc users (some_user, pairs) v =
      apply-IsServed ops (ps_restore setpower btcoex sc).state (users - 1) pairs
        (restore-IsServed btcoex sc users some_user v)

  -- With hardware that is awake when it was asked to be, over every sequence of wakeups, restores
  -- and expiries of the sleep timer in which each restore has a wakeup of its own and the count
  -- fits, starting with no user, the count is the number of users, and while there is one the
  -- hardware is awake and the timer is off.
  pub apply_all-IsServed :
      (ops : List Op) (sc : Softc)
      → InPairs ops 0
      → sc.ps_usecount ≡ 0
      → IsServed (apply_all setpower ops sc) (users_after ops 0)
  apply_all-IsServed ops sc pairs none_yet =
      apply-IsServed ops sc 0 pairs
        (record { counted = none_yet; fits = omega arith; served = inl refl })

-- The hardware stays as it is unless the last user leaves, the driver is not idle, power saving is on
-- and nothing is awaited; a frame that is awaited keeps it awake.
pub restore_waiting :
    (setpower : PowerMode → PowerMode → PowerMode) (btcoex : Bool) (sc : Softc)
    → must_wait sc.ps_flags ≡ true
    → (ps_restore setpower btcoex sc).state.power_mode ≡ sc.power_mode
unfolding ps_restore
restore_waiting setpower btcoex sc h = ground arith

-- What a wakeup and a restore make of the count.
pub wakeup-count :
    (setpower : PowerMode → PowerMode → PowerMode) (sc : Softc)
    → sc.ps_usecount + 1 < 2 ^ 32
    → (ps_wakeup setpower sc).state.ps_usecount ≡ sc.ps_usecount + 1
unfolding ps_wakeup
wakeup-count setpower sc h = ground arith

pub restore-count :
    (setpower : PowerMode → PowerMode → PowerMode) (btcoex : Bool) (sc : Softc) (n : ℕ)
    → sc.ps_usecount ≡ n + 1
    → n + 1 < 2 ^ 32
    → (ps_restore setpower btcoex sc).state.ps_usecount ≡ n
unfolding ps_restore
restore-count setpower btcoex sc n e h = ground arith
