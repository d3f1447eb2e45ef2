-- ===== src/Driver/Keys/Refine.antt =====
-- ath9k/main.c: the table of a station's keys as a set of at most four keys.
use ucsma_rate_control.Base.{
  ℕ, ◌+◌, ◌-◌, ◌%◌, ◌≡◌, refl, ap, ◌∙◌, inl, inr, Bool, true, false, not, Bool-cases, ◌&&◌, ◌||◌,
  Option, none, some, List, [], ◌∷◌, arith, ◌==◌, ltb, if◌then◌else◌, length,
}
use ucsma_rate_control.Base.Int.{ℤ, pos, negsuc}
use ucsma_rate_control.Driver.State.{PowerMode, Softc}
use ucsma_rate_control.Driver.Keys.{
  Station, put_key, has_free, drop_key, ath9k_del_ps_key, Key, set_cmd, disable_cmd, KeyMode,
  SetKey, ath9k_set_key, run_cmd, set_case, disable_case, key_accepted, enter_key, forget_key,
}
use ucsma_rate_control.Driver.Keys.Laws.{holds}
use ucsma_rate_control.Driver.Keys.Slots.{
  length-put, length-drop_key, used_slots, all_distinct, key_in, free_used, put_full, put_used,
  put_holds, put_distinct, drop_absent, drop_zero, drop_used, drop_holds, drop_distinct,
}

-- The abstract view: the keys that the station has, and how many.
pub record KeySet : Type 0 where
  pub member : ℕ → Bool
  pub size : ℕ

-- A fifth key is not kept, and 0 is no key.
abbrev pub insert_key : ℕ → KeySet → KeySet
insert_key k s =
    if not (k == 0) && ltb s.size 4
    then record { member = λ j. (j == k) || s.member j; size = s.size + 1 }
    else s

abbrev pub remove_key : ℕ → KeySet → KeySet
remove_key k s =
    if s.member k then record { member = λ j. not (j == k) && s.member j; size = s.size - 1 } else s

-- The table of a station without a key of its own holds the keys of the set.
pub record Represents (an : Station) (s : KeySet) : Type 0 where
  pub no_own : an.ps_key ≡ 0
  pub four : length an.key_idx ≡ 4
  pub distinct : all_distinct an.key_idx ≡ true
  pub counted : used_slots an.key_idx ≡ s.size
  pub members : (j : ℕ) → key_in j an.key_idx ≡ s.member j

nonzero_members :
    (slots : List ℕ) (s : KeySet) (j : ℕ)
    → ((i : ℕ) → key_in i slots ≡ s.member i)
    → (j == 0) ≡ false
    → holds j slots ≡ s.member j
nonzero_members slots s j members used = ground (arith, members j, used)

free_room : (an : Station) (s : KeySet) → Represents an s → has_free an.key_idx ≡ ltb s.size 4
free_room an s r = free_used an.key_idx ∙ rw (r.counted, r.four) refl

put-Represents :
    (k : ℕ) (an : Station) (s : KeySet)
    → (k == 0) ≡ false
    → s.member k ≡ false
    → has_free an.key_idx ≡ true
    → Represents an s
    → Represents
        (record an { key_idx = put_key k an.key_idx })
        (record { member = λ j. (j == k) || s.member j; size = s.size + 1 })
put-Represents k an s used absent free r =
    let apart = nonzero_members an.key_idx s k r.members used ∙ absent in
    record {
      no_own = r.no_own;
      four = length-put k an.key_idx ∙ r.four;
      distinct = put_distinct k used an.key_idx apart r.distinct;
      counted = put_used k used an.key_idx free ∙ ap (λ n. n + 1) r.counted;
      members = λ j. ground (arith, put_holds k used an.key_idx j free, r.members j, used);
    }

drop-Represents :
    (k : ℕ) (an : Station) (s : KeySet)
    → (k == 0) ≡ false
    → s.member k ≡ true
    → Represents an s
    → Represents
        (record an { key_idx = drop_key k an.key_idx })
        (record { member = λ j. not (j == k) && s.member j; size = s.size - 1 })
drop-Represents k an s used held r =
    let inside = nonzero_members an.key_idx s k r.members used ∙ held in
    record {
      no_own = r.no_own;
      four = length-drop_key k an.key_idx ∙ r.four;
      distinct = drop_distinct k used an.key_idx r.distinct;
      counted = drop_used k used an.key_idx inside ∙ ap (λ n. n - 1) r.counted;
      members = λ j. ground (arith, drop_holds k used an.key_idx j r.distinct, r.members j, used);
    }

enter-Represents :
    (k : Key) (an : Station) (s : KeySet)
    → s.member k.hw_key_idx ≡ false
    → Represents an s
    → Represents (enter_key k an).state (insert_key k.hw_key_idx s)
unfolding enter_key
enter-Represents k an s absent r =
    let room = free_room an s r in
    elim (Bool-cases (k.hw_key_idx == 0)) [
      | inl no_key ↦ rw no_key r
      | inr used ↦ rw used (elim (Bool-cases (has_free an.key_idx)) [
        | inl free ↦
            let fits : ltb s.size 4 ≡ true = ground (arith, room, free) in
            rw fits (put-Represents k.hw_key_idx an s used absent free r)
        | inr full ↦
            let whole : ltb s.size 4 ≡ false = ground (arith, room, full) in
            rw (whole, put_full k.hw_key_idx an.key_idx full) r
      ])
    ]

no_zero_member : (an : Station) (s : KeySet) → Represents an s → s.member 0 ≡ false
no_zero_member an s r = ground (arith, r.members 0)

forget-Represents :
    (k : Key) (an : Station) (s : KeySet)
    → Represents an s
    → Represents (forget_key k an).state (remove_key k.hw_key_idx s)
unfolding forget_key
forget-Represents k an s r = elim (Bool-cases (s.member k.hw_key_idx)) [
  | inl held ↦
      let used : (k.hw_key_idx == 0) ≡ false = ground (arith, held, no_zero_member an s r) in
      rw held (drop-Represents k.hw_key_idx an s used held r)
  | inr absent ↦ rw absent (elim (Bool-cases (k.hw_key_idx == 0)) [
    | inl no_key ↦
        let zero_place : k.hw_key_idx ≡ 0 = ground (arith, no_key) in
        rw (ap (λ n. drop_key n an.key_idx) zero_place ∙ drop_zero an.key_idx) r
    | inr used ↦
        let apart = nonzero_members an.key_idx s k.hw_key_idx r.members used ∙ absent in
        rw (drop_absent k.hw_key_idx an.key_idx apart) r
  ])
]

-- A command on a key, with the place that the hardware answers for a new one.
pub data KeyStep : Type 0 where
  install : (configured : ℤ) (k : Key) → KeyStep
  withdraw : (k : Key) → KeyStep

-- What the commands come to on the set. A place is cut to a byte, and a refused key changes nothing.
abbrev pub set_step : KeyStep → KeySet → KeySet
set_step (install (pos index) k) s = insert_key (index % 256) s
set_step (install (negsuc error) k) s = s
set_step (withdraw k) s = remove_key k.hw_key_idx s

abbrev pub set_steps : List KeyStep → KeySet → KeySet
set_steps [] s = s
set_steps (step ∷ steps) s = set_steps steps (set_step step s)

-- The hardware gives no key the place of another of the station's keys.
abbrev pub IsFreshStep : KeyStep → KeySet → Type 0
IsFreshStep (install (pos index) k) s = s.member (index % 256) ≡ false
IsFreshStep (install (negsuc error) k) s = Unit
IsFreshStep (withdraw k) s = Unit

abbrev pub AreFresh : List KeyStep → KeySet → Type 0
AreFresh [] s = Unit
AreFresh (step ∷ steps) s = IsFreshStep step s × AreFresh steps (set_step step s)

module _ (setpower : PowerMode → PowerMode → PowerMode) (btcoex : Bool) (m : KeyMode) where
  unfoldable pub key_step : KeyStep → Option Station → Softc → SetKey
  key_step (install configured k) sta sc =
      ath9k_set_key setpower btcoex m set_cmd configured sta k sc
  key_step (withdraw k) sta sc = ath9k_set_key setpower btcoex m disable_cmd (pos 0) sta k sc

  unfoldable pub key_steps : List KeyStep → Option Station → Softc → Option Station
  unfolding key_step
  key_steps [] sta sc = sta
  key_steps (step ∷ steps) sta sc =
      let done = key_step step sta sc in key_steps steps done.run.sta done.softc

-- The station that a call names, if it represents the set.
abbrev pub Shows : Option Station → KeySet → Type 0
Shows none s = ⊥
Shows (some an) s = Represents an s

del_nothing : (an : Station) → an.ps_key ≡ 0 → (ath9k_del_ps_key an).state ≡ an
unfolding ath9k_del_ps_key
del_nothing an no_own = ground (arith, no_own)

module _ (setpower : PowerMode → PowerMode → PowerMode) (btcoex : Bool) (m : KeyMode)
    (crypt : m.nohwcrypt ≡ false) (infra : m.is_ibss ≡ false) where
  key_step-Shows :
      (step : KeyStep) (an : Station) (s : KeySet) (sc : Softc)
      → Represents an s
      → IsFreshStep step s
      → Shows (key_step setpower btcoex m step (some an) sc).run.sta (set_step step s)
  unfolding key_step ath9k_set_key run_cmd set_case disable_case key_accepted
  key_step-Shows (install (pos index) k) an s sc r fresh =
      rw (crypt, infra)
        (rw (del_nothing an r.no_own)
          (enter-Represents (key_accepted m.sw_mgmt_crypto index k) an s fresh r))
  key_step-Shows (install (negsuc error) k) an s sc r fresh =
      rw (crypt, infra) (rw (del_nothing an r.no_own) r)
  key_step-Shows (withdraw k) an s sc r fresh = rw (crypt, infra) (forget-Represents k an s r)

  key_steps-from :
      (steps : List KeyStep) (sta : Option Station) (s : KeySet) (sc : Softc)
      → Shows sta s
      → AreFresh steps s
      → Shows (key_steps setpower btcoex m steps sta sc) (set_steps steps s)
  unfolding key_steps
  key_steps-from [] sta s sc shown fresh = shown
  key_steps-from (step ∷ steps) none s sc shown fresh = elim shown [ ]
  key_steps-from (step ∷ steps) (some an) s sc shown (now, later) =
      let done = key_step setpower btcoex m step (some an) sc in
      key_steps-from steps done.run.sta (set_step step s) done.softc
        (key_step-Shows step an s sc shown now) later

-- With hardware crypto and outside ad hoc networks, any sequence of commands on keys, with places
-- that no other key of the station has, does to the table of a station without a key of its own
-- what inserting and removing does to a set of at most four keys.
pub key_steps-Shows :
    (setpower : PowerMode → PowerMode → PowerMode) (btcoex : Bool) (m : KeyMode)
    (steps : List KeyStep) (an : Station) (s : KeySet) (sc : Softc)
    → m.nohwcrypt ≡ false
    → m.is_ibss ≡ false
    → Represents an s
    → AreFresh steps s
    → Shows (key_steps setpower btcoex m steps (some an) sc) (set_steps steps s)
key_steps-Shows setpower btcoex m steps an s sc crypt infra r fresh =
    key_steps-from setpower btcoex m crypt infra steps (some an) s sc r fresh
