-- ===== src/Modules/ReleaseBit.antt =====
-- kernel-module/flip_quiet_coll_bit.c: the module that clears the FORCE_QUIET_COLL bit for a while,
-- over and over.
use ucsma_rate_control.Base.{
  ℕ, ◌≡◌, refl, ap, ◌∙◌, Bool, true, false, not, some, List, [], ◌∷◌, ◌++◌, if◌then◌else◌,
  Bool-cases, inl, inr,
}
use ucsma_rate_control.Base.Int.{ℤ, pos, is_zero}
use ucsma_rate_control.Kernel.{
  Call, do_gettimeofday, reg_clr_bit, reg_set_bit, pcu_misc, force_quiet_coll, udelay, mod_timer,
  del_timer,
}
use ucsma_rate_control.Kernel.Ledger.{Ledger, nothing_held, enter, replay, replays, replay_nil}

-- One expiry; the time goes to a field of the driver that this module does not read.
pub release_force_quiet_coll : (release_duration : ℕ) → List Call
release_force_quiet_coll release_duration =
    do_gettimeofday
    ∷ reg_clr_bit pcu_misc force_quiet_coll
    ∷ udelay release_duration
    ∷ reg_set_bit pcu_misc force_quiet_coll
    ∷ mod_timer 1
    ∷ []

pub record Loaded : Type 0 where
  pub calls : List Call
  pub result : ℤ

-- `set` is what `mod_timer` returns.
pub release_init : (set : ℤ) → Loaded
release_init set =
    if not (is_zero set)
    then record { calls = mod_timer 1 ∷ []; result = set }
    else record { calls = mod_timer 1 ∷ []; result = pos 0 }

pub release_exit : List Call
release_exit = del_timer ∷ []

-- The calls of some expiries, each with the duration that the parameter then has.
pub releases : List ℕ → List Call
unfolding release_force_quiet_coll
releases [] = []
releases (d ∷ durations) = release_force_quiet_coll d ++ releases durations

abbrev pub some_of : List ℕ → Bool
some_of [] = false
some_of (d ∷ durations) = true

if_true : (b : Bool) → (if b then true else true) ≡ true
if_true true = refl
if_true false = refl

if_same : (b : Bool) → (if b then true else false) ≡ b
if_same true = refl
if_same false = refl

releases-replay :
    (durations : List ℕ) (h : Ledger)
    → h.timer ≡ true
    → replay (releases durations) h
      ≡ some (record h { quiet = if some_of durations then true else h.quiet })
unfolding releases release_force_quiet_coll enter
releases-replay [] h armed = replay_nil h
releases-replay (d ∷ durations) h armed =
    simp (replays, armed)
      (releases-replay durations (record h { timer = true; quiet = true }) refl
        ∙ ap (λ q. some (record h { timer = true; quiet = q })) (if_true (some_of durations)))

-- Loading, any number of expiries, and unloading leave the timer off, and the quiet bit set as
-- soon as there was an expiry.
pub release_life :
    (set : ℤ) (durations : List ℕ)
    → replay ((release_init set).calls ++ releases durations ++ release_exit) nothing_held
      ≡ some (record nothing_held { quiet = some_of durations })
unfolding release_init release_exit enter
release_life set durations = elim (Bool-cases (is_zero set)) [
  | inl e ↦ rw e (
      simp (replays, releases-replay)
        (ap (λ q. some (record nothing_held { quiet = q })) (if_same (some_of durations))))
  | inr e ↦ rw e (
      simp (replays, releases-replay)
        (ap (λ q. some (record nothing_held { quiet = q })) (if_same (some_of durations))))
]
