-- ===== src/Driver/Init/Undone.antt =====
-- ath9k/init.c: a device that is brought up and taken down, or whose bringing up fails.
use ucsma_rate_control.Base.{
  ℕ, ◌≡◌, refl, sym, ap, ◌∙◌, inl, inr, Bool, true, false, Bool-cases, Option, some, List, [], ◌∷◌,
  ◌++◌, arith, if◌then◌else◌,
}
use ucsma_rate_control.Base.Replay.{and_then}
use ucsma_rate_control.Base.Int.{is_zero}
use ucsma_rate_control.Driver.Init.Defs.{Call, Attached, Outcome}
use ucsma_rate_control.Driver.Init.Attach.{init_softc, deinit_softc, after}
use ucsma_rate_control.Driver.Init.Capabilities.{
  init_band_txpower, band_if, init_txpower_limits, set_hw_capab,
}
use ucsma_rate_control.Driver.Init.Probe.{
  ProbeInputs, probe_last, probe_register, before_register, probe_dma, init_device, deinit_device,
}
use ucsma_rate_control.Driver.Init.Held.{Held, nothing, enter, replay, replay-append}
use ucsma_rate_control.Driver.Init.Laws.{held_by}
use ucsma_rate_control.Driver.Init.Accounts.{softc_leftover, softc-replay}

deinit_softc-replay : (sc : Attached) → replay (deinit_softc sc) (held_by sc) ≡ some nothing
unfolding deinit_softc enter replay
deinit_softc-replay sc = ground arith

-- A device that is up.
abbrev pub running : Attached → Held
running sc = record (held_by sc) {
  rx = true;
  registered = true;
  debugfs = true;
  leds = true;
  polling = true;
}

last-replay :
    (inp : ProbeInputs) (sc : Attached)
    → let o = probe_last inp sc in
      replay o.calls (record (held_by sc) { rx = true; registered = true; debugfs = true })
      ≡ some (if is_zero o.result then running sc else nothing)
unfolding probe_last enter replay
last-replay inp sc = ground (arith, deinit_softc-replay sc)

register-replay :
    (inp : ProbeInputs) (sc : Attached)
    → let o = probe_register inp sc in
      replay o.calls (record (held_by sc) { rx = true })
      ≡ some (if is_zero o.result then running sc else nothing)
unfolding probe_register enter replay
register-replay inp sc = ground (arith, deinit_softc-replay sc, last-replay inp sc)

band_idle :
    (channels : List ℕ) (curchan : Option ℕ) (h : Held)
    → replay (init_band_txpower channels curchan).limit_calls h ≡ some h
unfolding init_band_txpower enter replay
band_idle [] curchan h = refl
band_idle (c ∷ channels) curchan h = band_idle channels (some c) h

band_if_idle :
    (has : Bool) (channels : List ℕ) (curchan : Option ℕ) (h : Held)
    → replay (band_if has channels curchan).limit_calls h ≡ some h
unfolding replay
band_if_idle true channels curchan h = band_idle channels curchan h
band_if_idle false channels curchan h = refl

module _ (inp : ProbeInputs) (sc : Attached) where
  limits_idle :
      (h : Held)
      → replay
          (init_txpower_limits sc inp.channels_2ghz inp.channels_5ghz
            inp.curchan_before).limit_calls
          h
        ≡ some h
  unfolding init_txpower_limits
  limits_idle h =
      let low = band_if sc.caps.band_2ghz inp.channels_2ghz inp.curchan_before in
      let high = band_if sc.caps.band_5ghz inp.channels_5ghz low.curchan in
      replay-append low.limit_calls high.limit_calls h
      ∙ ap (λ o. and_then o (replay high.limit_calls))
          (band_if_idle sc.caps.band_2ghz inp.channels_2ghz inp.curchan_before h)
      ∙ band_if_idle sc.caps.band_5ghz inp.channels_5ghz low.curchan h

  before_idle : (h : Held) → replay (before_register inp sc) h ≡ some h
  unfolding before_register enter replay
  before_idle h =
      replay-append
        (init_txpower_limits sc inp.channels_2ghz inp.channels_5ghz inp.curchan_before).limit_calls
        _ h
      ∙ rw (limits_idle h) (ground arith)

  dma-replay :
      let o = probe_dma inp sc in
      replay o.calls (held_by sc) ≡ some (if is_zero o.result then running sc else nothing)
  unfolding probe_dma enter replay
  dma-replay =
      let receiving : Held = record (held_by sc) { rx = true } in
      ground (
        arith,
        deinit_softc-replay sc,
        before_idle receiving,
        register-replay inp sc,
        replay-append (before_register inp sc) (probe_register inp sc).calls receiving,
      )

  dma_state : (probe_dma inp sc).state ≡ sc
  unfolding probe_dma probe_register probe_last
  dma_state = ground arith

-- The part after the attachment, in the state that the attachment left.
later-replay :
    (inp : ProbeInputs) (attached : Outcome) (capab : List Call)
    → is_zero attached.result ≡ true
    → replay attached.calls nothing ≡ some (held_by attached.state)
    → ((h : Held) → replay capab h ≡ some h)
    → let o =
        after
          (attached.calls ++ capab)
          (probe_dma inp (record attached.state { op_invalid = true })) in
      replay o.calls nothing ≡ some (if is_zero o.result then running o.state else nothing)
later-replay inp attached capab done left idle =
    let st : Attached = record attached.state { op_invalid = true } in
    let o = probe_dma inp st in
    replay-append (attached.calls ++ capab) o.calls nothing
    ∙ ap (λ front. and_then front (replay o.calls))
        (replay-append attached.calls capab nothing
          ∙ ap (λ front. and_then front (replay capab)) left
          ∙ idle (held_by attached.state))
    ∙ dma-replay inp st
    ∙ ap (λ after_dma. some (if is_zero o.result then running after_dma else nothing))
        (sym (dma_state inp st))

-- Whatever the kernel and the other parts answer, bringing the device up misuses nothing; it
-- leaves everything acquired if it returns 0, and nothing if it fails after the attachment; a
-- failing attachment leaves the detector of radar, the EEPROM's file if the pin is refused, and
-- the coexistence with Bluetooth if the rates fail after it.
pub device-replay :
    (inp : ProbeInputs) (sc : Attached)
    → let o = init_device inp sc in
      let attached = is_zero (init_softc inp.attach sc).result in
      replay o.calls nothing
      ≡ some (
          if is_zero o.result
          then running o.state
          else if attached
          then nothing
          else softc_leftover inp.attach)
unfolding init_device set_hw_capab enter replay
device-replay inp sc =
    let attached = init_softc inp.attach sc in
    let accounted = softc-replay inp.attach sc in
    elim (Bool-cases (is_zero attached.result)) [
      | inl done ↦ rw done (
          later-replay inp attached
            (set_hw_capab inp.chip attached.state inp.wiphy_before).capab_calls done
            (accounted ∙ rw done refl) (λ h. refl))
      | inr failed ↦ rw failed (rw failed (accounted ∙ rw failed refl))
    ]

deinit-replay : (sc : Attached) → replay (deinit_device sc) (running sc) ≡ some nothing
unfolding deinit_device enter replay
deinit-replay sc = deinit_softc-replay sc

-- A device whose bringing up returns 0 holds what its fields say, and after it is taken down
-- nothing is held, with no misuse on the way.
pub init_deinit :
    (inp : ProbeInputs) (sc : Attached)
    → is_zero (init_device inp sc).result ≡ true
    → let o = init_device inp sc in
      (replay o.calls nothing ≡ some (running o.state))
      × (replay (o.calls ++ deinit_device o.state) nothing ≡ some nothing)
init_deinit inp sc done =
    let o = init_device inp sc in
    let up : replay o.calls nothing ≡ some (running o.state) =
      device-replay inp sc ∙ rw done refl in
    (
      up,
      replay-append o.calls (deinit_device o.state) nothing
          ∙ ap (λ front. and_then front (replay (deinit_device o.state))) up
          ∙ deinit-replay o.state,
    )
