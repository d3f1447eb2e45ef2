-- ===== src/Driver/Init/Held.antt =====
-- What bringing the device up and down leaves acquired. A call that acquires and succeeds holds its
-- resource, and the call that the file gives it back by lets it go; `none` is a misuse, a resource
-- that is acquired twice or given back when it is not held. Releasing a firmware file that is not
-- there is allowed. `users` counts who keeps the device awake.
use ucsma_rate_control.Base.{
  ℕ, ◌+◌, ◌-◌, ◌≡◌, refl, Bool, true, false, Option, none, some, List, [], ◌∷◌, ◌++◌, ◌==◌,
  if◌then◌else◌,
}
use ucsma_rate_control.Base.Replay.{and_then, replay_by, replay_by-append}
use ucsma_rate_control.Base.Int.{is_zero}
use ucsma_rate_control.Driver.Init.Defs.{
  Call, dfs_init, dfs_exit, wait_for_firmware, release_firmware, gpio_request_one, gpio_free,
  hw_init, hw_deinit, data_txq_setup, cleanup_txqs, init_btcoex, deinit_btcoex, gen_timer_alloc,
  gen_timer_free, rx_init, rx_cleanup, register_hw, unregister_hw, init_debug, deinit_debug,
  init_leds, deinit_leds, start_rfkill_poll, stop_rfkill_poll, ps_wakeup, ps_restore,
}

pub record Held : Type 0 where
  pub detector : Bool
  pub firmware : Bool
  pub pin : Bool
  pub chip : Bool
  pub queues : Bool
  pub btcoex : Bool
  pub timer : Bool
  pub rx : Bool
  pub registered : Bool
  pub debugfs : Bool
  pub leds : Bool
  pub polling : Bool
  pub users : ℕ

abbrev pub nothing : Held
nothing = record {
  detector = false;
  firmware = false;
  pin = false;
  chip = false;
  queues = false;
  btcoex = false;
  timer = false;
  rx = false;
  registered = false;
  debugfs = false;
  leds = false;
  polling = false;
  users = 0;
}

-- Taking what must not be held, and giving back what must be.
abbrev pub take_one : (held got : Bool) → Held → Held → Option Held
take_one held got taken h = if held then none else some (if got then taken else h)

abbrev pub give_one : (held : Bool) → Held → Option Held
give_one held given = if held then some given else none

unfoldable pub enter : Call → Held → Option Held
enter (dfs_init got) h = take_one h.detector got (record h { detector = true }) h
enter dfs_exit h = give_one h.detector (record h { detector = false })
enter (wait_for_firmware loaded) h = take_one h.firmware loaded (record h { firmware = true }) h
enter release_firmware h = some (record h { firmware = false })
enter (gpio_request_one r) h = take_one h.pin (is_zero r) (record h { pin = true }) h
enter gpio_free h = give_one h.pin (record h { pin = false })
enter (hw_init r) h = take_one h.chip (is_zero r) (record h { chip = true }) h
enter hw_deinit h = give_one h.chip (record h { chip = false })
enter (data_txq_setup ac) h = some (record h { queues = true })
enter cleanup_txqs h = some (record h { queues = false })
enter (init_btcoex r) h = take_one h.btcoex (is_zero r) (record h { btcoex = true }) h
enter deinit_btcoex h = give_one h.btcoex (record h { btcoex = false })
enter (gen_timer_alloc got) h = take_one h.timer got (record h { timer = true }) h
enter gen_timer_free h = give_one h.timer (record h { timer = false })
enter (rx_init nbufs r) h = take_one h.rx (is_zero r) (record h { rx = true }) h
enter rx_cleanup h = give_one h.rx (record h { rx = false })
enter (register_hw r) h = take_one h.registered (is_zero r) (record h { registered = true }) h
enter unregister_hw h = give_one h.registered (record h { registered = false })
enter (init_debug r) h = take_one h.debugfs (is_zero r) (record h { debugfs = true }) h
enter deinit_debug h = give_one h.debugfs (record h { debugfs = false })
enter init_leds h = take_one h.leds true (record h { leds = true }) h
enter deinit_leds h = give_one h.leds (record h { leds = false })
enter start_rfkill_poll h = take_one h.polling true (record h { polling = true }) h
enter stop_rfkill_poll h = give_one h.polling (record h { polling = false })
enter ps_wakeup h = some (record h { users = h.users + 1 })
enter ps_restore h = if h.users == 0 then none else some (record h { users = h.users - 1 })
enter _ h = some h

unfoldable pub replay : List Call → Held → Option Held
unfolding enter replay_by
replay calls h = replay_by enter calls h

pub replay-append :
    (xs ys : List Call) (h : Held) → replay (xs ++ ys) h ≡ and_then (replay xs h) (replay ys)
unfolding replay
replay-append xs ys h = replay_by-append enter xs ys h

pub replay_cons :
    (c : Call) (calls : List Call) (h : Held)
    → replay (c ∷ calls) h ≡ and_then (enter c h) (replay calls)
unfolding replay
replay_cons c calls h = refl

pub replay_nil : (h : Held) → replay [] h ≡ some h
unfolding replay
replay_nil h = refl

pub ruleset replays = (replay-append, replay_cons, replay_nil)
