-- ===== src/Unlock/Lockout.antt =====
-- kernel-module/unlock.c over a sequence of interrupts and expiries: once a second has passed since
-- the last relay, no interrupt is relayed any more.
use ucsma_rate_control.Base.{
  ℕ, suc, ◌+◌, ◌*◌, ◌^◌, ◌≤◌, ◌<◌, ◌≡◌, refl, inr, false, some, List, [], ◌∷◌, ◌++◌, arith,
}
use ucsma_rate_control.Kernel.{Call}
use ucsma_rate_control.Kernel.Time.{Timespec, TimespecSub, nsec_per_sec, IsAfter}
use ucsma_rate_control.Kernel.Ledger.{Ledger, replay, replay-append, replay_nil}
use ucsma_rate_control.Unlock.{
  Unlock, IrqInputs, unlock_r_irq_handler, unlock_timer_handler, publish_size, raise_changed,
}
use ucsma_rate_control.Unlock.Irq.{irq_drops}
use ucsma_rate_control.Unlock.Expiry.{after_timer, expiry_restarts}

pub data Event : Type 0 where
  irq : IrqInputs → Event
  expiry : Event

-- The variables and the calls of a history.
module _ (ts : TimespecSub) where
  pub vars_after : List Event → Unlock → Unlock
  vars_after [] s = s
  vars_after (irq inp ∷ events) s = vars_after events (unlock_r_irq_handler ts inp s).state
  vars_after (expiry ∷ events) s = vars_after events (unlock_timer_handler s).state

  pub calls_of : List Event → Unlock → List Call
  calls_of [] s = []
  calls_of (irq inp ∷ events) s =
      (unlock_r_irq_handler ts inp s).calls ++ calls_of events (unlock_r_irq_handler ts inp s).state
  calls_of (expiry ∷ events) s =
      (unlock_timer_handler s).calls ++ calls_of events (unlock_timer_handler s).state

-- Every interrupt comes a second or more after `past`.
abbrev pub AllLate : Timespec → List Event → Type 0
AllLate past [] = Unit
AllLate past (irq inp ∷ events) =
    ((e : ℕ) × IsAfter past inp.now e × (nsec_per_sec ≤ e)) × AllLate past events
AllLate past (expiry ∷ events) = AllLate past events

abbrev pub expiries : List Event → ℕ
expiries [] = 0
expiries (irq inp ∷ events) = expiries events
expiries (expiry ∷ events) = suc (expiries events)

-- What the events need of the variables, and what they leave alone.
abbrev pub IsLoaded : List ℕ → Timespec → Unlock → Type 0
IsLoaded txbuf past s =
    (s.txbuf_fff ≡ some txbuf) × (s.period * 500 < 2 ^ 32) × (s.last_unlock ≡ past)

publish-IsLoaded :
    (txbuf : List ℕ) (past : Timespec) (s : Unlock)
    → IsLoaded txbuf past s
    → IsLoaded txbuf past (publish_size txbuf s)
unfolding publish_size
publish-IsLoaded txbuf past s h = h

expiry-IsLoaded :
    (txbuf : List ℕ) (past : Timespec) (s : Unlock)
    → IsLoaded txbuf past s
    → IsLoaded txbuf past (unlock_timer_handler s).state
unfolding unlock_timer_handler publish_size raise_changed
expiry-IsLoaded txbuf past s h = rw (h.0) (refl, h.1, h.2)

-- What holds after a locked out history: the time of the last relay stays, the lock is free, and
-- only the expiries have pulsed the output.
abbrev pub LockedOut : TimespecSub → List Event → Timespec → Unlock → Ledger → Type 0
LockedOut ts events past s h =
    ((vars_after ts events s).last_unlock ≡ past)
    × (h' : Ledger) × (replay (calls_of ts events s) h ≡ some h')
    × (h'.locked ≡ false)
    × (h'.pulses ≡ h.pulses + expiries events)

lockout_step :
    (ts : TimespecSub) (events : List Event) (past : Timespec) (s : Unlock) (txbuf : List ℕ)
    (h : Ledger)
    → IsLoaded txbuf past s
    → h.locked ≡ false
    → AllLate past events
    → LockedOut ts events past s h
unfolding vars_after calls_of
lockout_step ts [] past s txbuf h ok free late = (ok.2, h, replay_nil h, free, omega arith)
lockout_step ts (irq inp ∷ events) past s txbuf h ok free ((e, after, far), late) =
    let after' : IsAfter s.last_unlock inp.now e = rw (ok.2) after in
    let drop = irq_drops ts inp s txbuf e h (ok.0) (ok.1) after' (inr far) free in
    let ok' : IsLoaded txbuf past (unlock_r_irq_handler ts inp s).state =
      rw (drop.1) (publish-IsLoaded txbuf past s ok) in
    let ih =
      lockout_step ts events past (unlock_r_irq_handler ts inp s).state txbuf h ok' free late in
    (ih.0, ih.1, rw (replay-append, drop.2) (ih.2), ih.3, ih.4)
lockout_step ts (expiry ∷ events) past s txbuf h ok free late =
    let fired = expiry_restarts s txbuf h (ok.0) in
    let ih =
      lockout_step ts events past (unlock_timer_handler s).state txbuf (after_timer h)
        (expiry-IsLoaded txbuf past s ok) free late in
    (ih.0, ih.1, rw (replay-append, fired.5) (ih.2), ih.3, omega (arith, ih.4))

-- With the buffer list known, 500 T within a u32 and the lock free, over any history of expiries
-- and of interrupts a second or more after the last relay, no interrupt is relayed: the time of
-- the last relay stays, and only expiries pulse the output.
pub lockout_permanent :
    (ts : TimespecSub) (events : List Event) (s : Unlock) (txbuf : List ℕ) (h : Ledger)
    → s.txbuf_fff ≡ some txbuf
    → s.period * 500 < 2 ^ 32
    → h.locked ≡ false
    → AllLate s.last_unlock events
    → LockedOut ts events s.last_unlock s h
lockout_permanent ts events s txbuf h loaded fits free late =
    lockout_step ts events s.last_unlock s txbuf h (loaded, fits, refl) free late
