-- ===== src/Unlock/Irq.antt =====
-- kernel-module/unlock.c: what one interrupt and one expiry of the timer do.
use ucsma_rate_control.Base.{
  ℕ, ◌+◌, ◌*◌, ◌/◌, ◌%◌, ◌^◌, ◌≤◌, ◌<◌, ◌≡◌, ◌≢◌, ◌⊎◌, ◌↔◌, inl, inr, true, false, none, some, List,
  ◌++◌, [], ◌∷◌, arith, ◌==◌, Bool-cases, Option-cases, refl,
}
use ucsma_rate_control.Kernel.{u32, Call, spin_lock_irqsave, spin_unlock_irqrestore, getnstimeofday}
use ucsma_rate_control.Kernel.Time.{
  Timespec, TimespecSub, nsec_per_sec, IsAfter, IsDifference, difference_lem,
}
use ucsma_rate_control.Kernel.Ledger.{Ledger, enter, replay, replays, replay-append}
use ucsma_rate_control.Unlock.{
  Unlock, IrqInputs, is_ignored, unlock_r_irq_handler, relay, publish_size, raise_changed,
  set_window, IrqReturn, irq_handled, cw_val, get_buf_size,
}
use ucsma_rate_control.Base.Int.{to_int}
use ucsma_rate_control.Unlock.Window.{set_window-replay, same_window, set_window-fields}

-- The hardware and the lock after a relay: the lock free, the timer armed, the output low after one
-- pulse, and the quiet bit clear.
abbrev pub after_relay : Ledger → Ledger
after_relay h = record h {
  locked = false;
  timer = true;
  raised = false;
  quiet = false;
  pulses = h.pulses + 1;
}

is_ignored_lem :
    (past now d : Timespec) (period e : ℕ)
    → period * 500 < 2 ^ 32
    → IsDifference now past d
    → IsAfter past now e
    → (is_ignored d period ≡ false) ↔ ((period * 500 ≤ e) × (e < nsec_per_sec))
unfolding is_ignored
is_ignored_lem past now d period e h diff after = elim (difference_lem past now d e diff after) [
  | inl near ↦ ground arith
  | inr far ↦ ground arith
]

module _ (ts : TimespecSub) (inp : IrqInputs) (s : Unlock) (txbuf : List ℕ) where
  pub before_relay : List Call
  before_relay = spin_lock_irqsave ∷ set_window txbuf ++ getnstimeofday inp.now ∷ []

  pub handler-relay :
      s.txbuf_fff ≡ some txbuf
      → is_ignored (ts.sub inp.now s.last_unlock) s.period ≡ false
      → unlock_r_irq_handler ts inp s ≡ relay ts inp (publish_size txbuf s) before_relay
  unfolding unlock_r_irq_handler before_relay
  handler-relay loaded taken = rw (loaded, taken)

  pub handler-ignored :
      s.txbuf_fff ≡ some txbuf
      → is_ignored (ts.sub inp.now s.last_unlock) s.period ≡ true
      → unlock_r_irq_handler ts inp s ≡ record {
        state = publish_size txbuf s;
        calls = before_relay ++ spin_unlock_irqrestore ∷ [];
        result = irq_handled;
      }
  unfolding unlock_r_irq_handler before_relay
  handler-ignored loaded ignored = rw (loaded, ignored)

  before-replay :
      (h : Ledger) → h.locked ≡ false → replay before_relay h ≡ some (record h { locked = true })
  unfolding before_relay enter
  before-replay h free = simp (replays, set_window-replay, free)

  pub relay-replay :
      (s' : Unlock) (h : Ledger)
      → h.locked ≡ false
      → u32 (s'.delta + s'.delta) ≢ 0
      → replay (relay ts inp s' before_relay).calls h ≡ some (after_relay h)
  unfolding relay enter
  relay-replay s' h free nonzero =
      let go : (u32 (s'.delta + s'.delta) == 0) ≡ false = ground arith in
      rw go (simp (replays, before-replay, free))

  relay-state :
      (s' : Unlock)
      → u32 (s'.delta + s'.delta) ≢ 0
      → let o = relay ts inp s' before_relay in
        (o.result ≡ irq_handled)
        × (o.state.last_unlock ≡ inp.now)
        × (o.state.last_unlock_2nd ≡ s'.last_unlock)
        × (o.state.has_changed ≡ 1)
        × (o.state.unlocked ≡ true)
  unfolding relay raise_changed
  relay-state s' nonzero =
      let go : (u32 (s'.delta + s'.delta) == 0) ≡ false = ground arith in
      rw go (refl, refl, refl, refl, refl)

  -- With the buffer list known, the lock free, Delta usable and 500 T within a u32, an interrupt
  -- from half a period to below a second after the last unlocking is relayed: one pulse, the two
  -- times moved on, the timer armed, the quiet bit clear and the lock given back.
  pub irq_relays :
      (e : ℕ) (h : Ledger)
      → s.txbuf_fff ≡ some txbuf
      → u32 (s.delta + s.delta) ≢ 0
      → s.period * 500 < 2 ^ 32
      → IsAfter s.last_unlock inp.now e
      → s.period * 500 ≤ e
      → e < nsec_per_sec
      → h.locked ≡ false
      → let o = unlock_r_irq_handler ts inp s in
        (o.result ≡ irq_handled)
        × (o.state.last_unlock ≡ inp.now)
        × (o.state.last_unlock_2nd ≡ s.last_unlock)
        × (o.state.has_changed ≡ 1)
        × (o.state.unlocked ≡ true)
        × (replay o.calls h ≡ some (after_relay h))
  unfolding publish_size
  irq_relays e h loaded nonzero fits after late soon free =
      let taken : is_ignored (ts.sub inp.now s.last_unlock) s.period ≡ false =
        (is_ignored_lem s.last_unlock inp.now (ts.sub inp.now s.last_unlock) s.period e fits
            (ts.sub-IsDifference inp.now s.last_unlock) after).1
          (late, soon) in
      let facts = relay-state (publish_size txbuf s) nonzero in
      rw (handler-relay loaded taken) (
        facts.0,
        facts.1,
        facts.2,
        facts.3,
        facts.4,
        relay-replay (publish_size txbuf s) h free nonzero,
      )

  pub ignored-replay :
      (h : Ledger)
      → h.locked ≡ false
      → replay (before_relay ++ spin_unlock_irqrestore ∷ []) h ≡ some h
  unfolding enter
  ignored-replay h free = simp (replays, before-replay, free) (ground arith)

  -- All that a dropped interrupt asks of the kernel: `value` goes to the window registers.
  abbrev pub dropped_calls : (value : ℕ) → List Call
  dropped_calls value =
      (spin_lock_irqsave ∷ same_window 8 0 value)
      ++ (getnstimeofday inp.now ∷ spin_unlock_irqrestore ∷ [])

  ignored-calls :
      (value : ℕ)
      → set_window txbuf ≡ same_window 8 0 value
      → before_relay ++ spin_unlock_irqrestore ∷ [] ≡ dropped_calls value
  unfolding before_relay
  ignored-calls value e = rw e refl

  -- With the buffer list known, the lock free and 500 T within a u32, an interrupt before half a
  -- period or from one second on publishes the number of buffers and changes no other variable,
  -- writes the contention window for that number to the registers of the eight queues, and
  -- between the taking and the giving back of the lock does nothing else but read the time.
  pub irq_drops :
      (e : ℕ) (h : Ledger)
      → s.txbuf_fff ≡ some txbuf
      → s.period * 500 < 2 ^ 32
      → IsAfter s.last_unlock inp.now e
      → (e < s.period * 500) ⊎ (nsec_per_sec ≤ e)
      → h.locked ≡ false
      → let o = unlock_r_irq_handler ts inp s in
        (o.result ≡ irq_handled)
        × (o.state ≡ publish_size txbuf s)
        × (replay o.calls h ≡ some h)
        × (v : ℕ) × (o.calls ≡ dropped_calls v)
        × (v % 1024 ≡ cw_val (to_int (get_buf_size txbuf)))
        × (v / 1024 ≡ cw_val (to_int (get_buf_size txbuf)))
  irq_drops e h loaded fits after outside free =
      let decide =
        is_ignored_lem s.last_unlock inp.now (ts.sub inp.now s.last_unlock) s.period e fits
          (ts.sub-IsDifference inp.now s.last_unlock) after in
      let ignored : is_ignored (ts.sub inp.now s.last_unlock) s.period ≡ true = ground arith in
      let (v, same, low, high) = set_window-fields txbuf in
      rw (handler-ignored loaded ignored)
        (refl, refl, ignored-replay h free, v, ignored-calls v same, low, high)

  -- Before the driver has sent a frame the handler returns with the lock held, and no value.
  pub irq_unloaded :
      (h : Ledger)
      → s.txbuf_fff ≡ none
      → h.locked ≡ false
      → let o = unlock_r_irq_handler ts inp s in
        (o.result ≡ IrqReturn.no_value) × (replay o.calls h ≡ some (record h { locked = true }))
  unfolding unlock_r_irq_handler enter
  irq_unloaded h unloaded free = rw unloaded (refl, simp (replays, free))

relay-misuse :
    (ts : TimespecSub) (inp : IrqInputs) (s : Unlock) (before : List Call) (h : Ledger)
    → replay before h ≡ none
    → replay (relay ts inp s before).calls h ≡ none
unfolding relay
relay-misuse ts inp s before h bad = elim (Bool-cases (u32 (s.delta + s.delta) == 0)) [
  | inl e ↦ rw e (simp (replay-append, bad))
  | inr e ↦ rw e (simp (replay-append, bad))
]

locked_start :
    (calls : List Call) (h : Ledger) → h.locked ≡ true → replay (spin_lock_irqsave ∷ calls) h ≡ none
unfolding enter
locked_start calls h held = simp (replays, held)

loaded-misuse :
    (ts : TimespecSub) (inp : IrqInputs) (s : Unlock) (txbuf : List ℕ) (h : Ledger)
    → s.txbuf_fff ≡ some txbuf
    → h.locked ≡ true
    → replay (unlock_r_irq_handler ts inp s).calls h ≡ none
unfolding before_relay
loaded-misuse ts inp s txbuf h loaded held =
    elim (Bool-cases (is_ignored (ts.sub inp.now s.last_unlock) s.period)) [
      | inl ig ↦ rw (handler-ignored ts inp s txbuf loaded ig) (locked_start _ h held)
      | inr tk ↦
          rw (handler-relay ts inp s txbuf loaded tk)
            (relay-misuse ts inp (publish_size txbuf s) _ h (locked_start _ h held))
    ]

unloaded-misuse :
    (ts : TimespecSub) (inp : IrqInputs) (s : Unlock) (h : Ledger)
    → s.txbuf_fff ≡ none
    → h.locked ≡ true
    → replay (unlock_r_irq_handler ts inp s).calls h ≡ none
unfolding unlock_r_irq_handler
unloaded-misuse ts inp s h unloaded held = rw unloaded (locked_start [] h held)

-- Whatever it does, the handler takes the lock first.
pub locked-misuse :
    (ts : TimespecSub) (inp : IrqInputs) (s : Unlock) (h : Ledger)
    → h.locked ≡ true
    → replay (unlock_r_irq_handler ts inp s).calls h ≡ none
locked-misuse ts inp s h held = elim (Option-cases s.txbuf_fff) [
  | inl e ↦ unloaded-misuse ts inp s h e held
  | inr (txbuf, e) ↦ loaded-misuse ts inp s txbuf h e held
]

-- With the lock free, an interrupt before the first frame returns no value and leaves the lock
-- taken, and the next interrupt, whatever it brings and whatever the state is by then, takes it a
-- second time.
pub irq_unloaded_deadlock :
    (ts : TimespecSub) (inp inp' : IrqInputs) (s s' : Unlock) (h : Ledger)
    → s.txbuf_fff ≡ none
    → h.locked ≡ false
    → ((unlock_r_irq_handler ts inp s).result ≡ IrqReturn.no_value)
      × (replay ((unlock_r_irq_handler ts inp s).calls ++ (unlock_r_irq_handler ts inp' s').calls) h
          ≡ none)
irq_unloaded_deadlock ts inp inp' s s' h unloaded free =
    let first = irq_unloaded ts inp s [] h unloaded free in
    (first.0, simp (replay-append, first.1, locked-misuse))
