-- ===== src/Driver/Init/Accounts.antt =====
-- ath9k/init.c: what `ath9k_init_softc` leaves acquired, on every path.
use ucsma_rate_control.Base.{
  ◌≡◌, refl, sym, ap, ◌∙◌, inl, inr, Bool, true, false, not, Bool-cases, ◌&&◌, some, List, ◌∷◌,
  ◌++◌, arith, if◌then◌else◌,
}
use ucsma_rate_control.Base.Replay.{and_then}
use ucsma_rate_control.Base.Int.{is_zero}
use ucsma_rate_control.Driver.Init.Defs.{Call, dfs_init, Attached, Outcome}
use ucsma_rate_control.Driver.Init.Platform.{init_soc_platform}
use ucsma_rate_control.Driver.Init.Attach.{AttachInputs, attach_hw, first_fields, init_softc, after}
use ucsma_rate_control.Driver.Init.Held.{Held, nothing, enter, replay, replay-append}
use ucsma_rate_control.Driver.Init.Laws.{
  all_attached, leftover, hw_leftover, hw-replay, loads, soc-replay, soc_blob, soc_detector,
  first_detector, first_blob, held_by, attached-held, platform_ok, soc_ok, not_ok-loads,
}

-- What is left acquired by an attachment that fails: the detector if one was returned, the file if
-- the pin is refused, and the coexistence with Bluetooth if the rates fail after it.
abbrev pub softc_leftover : AttachInputs → Held
softc_leftover inp =
    let ok = platform_ok inp.firmware inp.blob inp.pdata in
    let loaded = loads inp.firmware inp.blob inp.pdata in
    record nothing {
      detector = inp.ah_allocated && inp.detector;
      firmware = inp.ah_allocated && loaded && not (is_zero inp.gpio);
      btcoex = inp.ah_allocated && ok && is_zero inp.gpio && is_zero inp.hw && is_zero inp.btcoex;
    }

-- What an outcome leaves is what its result says.
abbrev IsAccounted : AttachInputs → Outcome → Type 0
IsAccounted inp o =
    replay o.calls nothing ≡ some (if is_zero o.result then held_by o.state else softc_leftover inp)

if-IsAccounted :
    (inp : AttachInputs) (b : Bool) (x y : Outcome)
    → (b ≡ true → IsAccounted inp x)
    → (b ≡ false → IsAccounted inp y)
    → IsAccounted inp (if b then x else y)
if-IsAccounted inp true x y one other = one refl
if-IsAccounted inp false x y one other = other refl

dfs_first :
    (got : Bool) (calls : List Call)
    → replay (dfs_init got ∷ calls) nothing ≡ replay calls (leftover got false false)
unfolding enter replay
dfs_first true calls = refl
dfs_first false calls = refl

-- What is known of the platform's part, as `init_soc_platform` leaves it.
record IsPlatformRun (inp : AttachInputs) (soc : Outcome) : Type 0 where
  calls_left :
      replay soc.calls (leftover inp.detector false false)
      ≡ some (leftover inp.detector (loads inp.firmware inp.blob inp.pdata) false)
  ok : is_zero soc.result ≡ platform_ok inp.firmware inp.blob inp.pdata
  blob_left : soc.state.eeprom_blob ≡ loads inp.firmware inp.blob inp.pdata
  detector_left : soc.state.dfs_detector ≡ inp.detector

init_soc_platform-IsPlatformRun :
    (inp : AttachInputs) (sc : Attached)
    → IsPlatformRun inp (init_soc_platform inp.firmware inp.blob inp.pdata (first_fields inp sc))
init_soc_platform-IsPlatformRun inp sc =
    let first = first_fields inp sc in
    let fresh = first_blob inp sc in
    record {
      calls_left = soc-replay inp.firmware inp.blob inp.pdata first inp.detector fresh;
      ok = soc_ok inp.firmware inp.blob inp.pdata first fresh;
      blob_left = soc_blob inp.firmware inp.blob inp.pdata first fresh;
      detector_left = soc_detector inp.firmware inp.blob inp.pdata first ∙ first_detector inp sc;
    }

module _ (inp : AttachInputs) (soc : Outcome) where
  stopped-IsAccounted :
      IsPlatformRun inp soc
      → inp.ah_allocated ≡ true
      → is_zero soc.result ≡ false
      → IsAccounted inp (record soc { calls = dfs_init inp.detector ∷ soc.calls })
  stopped-IsAccounted run allocated failed =
      let refused = sym run.ok ∙ failed in
      let unloaded = not_ok-loads inp.firmware inp.blob inp.pdata refused in
      dfs_first inp.detector soc.calls
      ∙ run.calls_left
      ∙ ground (arith, allocated, failed, refused, unloaded)

  attached_after :
      IsPlatformRun inp soc
      → inp.ah_allocated ≡ true
      → is_zero soc.result ≡ true
      → let loaded = loads inp.firmware inp.blob inp.pdata in
        let o = attach_hw inp soc.state in
        (if is_zero o.result
          then all_attached inp.detector loaded inp.timer
          else hw_leftover inp inp.detector loaded)
        ≡ (if is_zero o.result then held_by o.state else softc_leftover inp)
  attached_after run allocated done =
      let accepted = sym run.ok ∙ done in
      elim (Bool-cases (is_zero (attach_hw inp soc.state).result)) [
        | inl whole ↦
            rw whole
              (sym (attached-held inp soc.state whole ∙ rw (run.blob_left, run.detector_left) refl))
        | inr failed ↦ rw failed (rw (allocated, accepted) refl)
      ]

  went_on-IsAccounted :
      IsPlatformRun inp soc
      → inp.ah_allocated ≡ true
      → is_zero soc.result ≡ true
      → IsAccounted inp (after (dfs_init inp.detector ∷ soc.calls) (attach_hw inp soc.state))
  went_on-IsAccounted run allocated done =
      let loaded = loads inp.firmware inp.blob inp.pdata in
      dfs_first inp.detector (soc.calls ++ (attach_hw inp soc.state).calls)
      ∙ replay-append soc.calls (attach_hw inp soc.state).calls (leftover inp.detector false false)
      ∙ ap (λ o. and_then o (replay (attach_hw inp soc.state).calls)) run.calls_left
      ∙ hw-replay inp soc.state inp.detector loaded
      ∙ ap some (attached_after run allocated done)

pub softc-replay :
    (inp : AttachInputs) (sc : Attached)
    → let o = init_softc inp sc in
      replay o.calls nothing
      ≡ some (if is_zero o.result then held_by o.state else softc_leftover inp)
unfolding init_softc replay
softc-replay inp sc =
    let soc = init_soc_platform inp.firmware inp.blob inp.pdata (first_fields inp sc) in
    let run = init_soc_platform-IsPlatformRun inp sc in
    if-IsAccounted inp (not inp.ah_allocated) _ _ (λ out. ground (arith, out))
      (λ got.
        if-IsAccounted inp (not (is_zero soc.result)) _ _
          (λ failed. stopped-IsAccounted inp soc run (ground (arith, got)) (ground (arith, failed)))
          (λ done. went_on-IsAccounted inp soc run (ground (arith, got)) (ground (arith, done))))
