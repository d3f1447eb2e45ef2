-- ===== src/Base/Replay.antt =====
-- A list of calls replayed on a ledger: each call changes the ledger or is a misuse, `none`.
use mathlib.Core.Path.{◌≡◌, refl, ap, ◌∙◌, fun_ext}
use mathlib.Core.List.{List, [], ◌∷◌, ◌++◌}
use mathlib.Core.Option.{Option, none, some}

abbrev pub and_then {ℓ} : {H : Type ℓ} → Option H → (H → Option H) → Option H
and_then none next = none
and_then (some h) next = next h

and_then_assoc {ℓ} :
    {H : Type ℓ} (o : Option H) (f g : H → Option H)
    → and_then o (λ h. and_then (f h) g) ≡ and_then (and_then o f) g
and_then_assoc none f g = refl
and_then_assoc (some h) f g = refl

module _ {ℓ} {C H : Type ℓ} (enter : C → H → Option H) where
  unfoldable pub replay_by : List C → H → Option H
  replay_by [] h = some h
  replay_by (c ∷ calls) h = and_then (enter c h) (replay_by calls)

  -- The calls that follow start from what the first calls leave.
  pub replay_by-append :
      (xs ys : List C) (h : H) → replay_by (xs ++ ys) h ≡ and_then (replay_by xs h) (replay_by ys)
  unfolding replay_by
  replay_by-append [] ys h = refl
  replay_by-append (c ∷ xs) ys h =
      ap (and_then (enter c h)) (fun_ext (λ g. replay_by-append xs ys g))
      ∙ and_then_assoc (enter c h) (replay_by xs) (replay_by ys)
