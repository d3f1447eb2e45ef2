-- ===== src/Driver/Keys/Slots.antt =====
-- ath9k/main.c: the entries of a station's table of keys, after one is filled or emptied.
use ucsma_rate_control.Base.{
  ℕ, suc, ◌+◌, ◌-◌, ◌<◌, ◌≡◌, refl, inl, inr, Bool, true, false, not, Bool-cases, ◌&&◌, ◌||◌, List,
  [], ◌∷◌, arith, ◌==◌, ltb, if◌then◌else◌, length,
}
use ucsma_rate_control.Driver.Keys.{put_key, has_free, drop_key}
use ucsma_rate_control.Driver.Keys.Laws.{holds}

pub length-put : (k : ℕ) (slots : List ℕ) → length (put_key k slots) ≡ length slots
length-put k [] = refl
length-put k (slot ∷ slots) = ground (arith, length-put k slots)

pub length-drop_key : (k : ℕ) (slots : List ℕ) → length (drop_key k slots) ≡ length slots
length-drop_key k [] = refl
length-drop_key k (slot ∷ slots) = ground (arith, length-drop_key k slots)

abbrev pub used_slots : List ℕ → ℕ
used_slots [] = 0
used_slots (slot ∷ slots) = (if slot == 0 then 0 else 1) + used_slots slots

abbrev pub all_distinct : List ℕ → Bool
all_distinct [] = true
all_distinct (slot ∷ slots) = ((slot == 0) || not (holds slot slots)) && all_distinct slots

abbrev pub key_in : ℕ → List ℕ → Bool
key_in j slots = not (j == 0) && holds j slots

pub used_bound : (slots : List ℕ) → used_slots slots < suc (length slots)
used_bound [] = omega arith
used_bound (slot ∷ slots) = ground (arith, used_bound slots)

pub free_used : (slots : List ℕ) → has_free slots ≡ ltb (used_slots slots) (length slots)
free_used [] = refl
free_used (slot ∷ slots) = ground (arith, free_used slots, used_bound slots)

pub put_full : (k : ℕ) (slots : List ℕ) → has_free slots ≡ false → put_key k slots ≡ slots
put_full k [] full = refl
put_full k (slot ∷ slots) full = ground (arith, put_full k slots, full)

module _ (k : ℕ) (some_key : (k == 0) ≡ false) where
  pub put_used :
      (slots : List ℕ) → has_free slots ≡ true → used_slots (put_key k slots) ≡ used_slots slots + 1
  put_used [] free = absurd (cc)
  put_used (slot ∷ slots) free = ground (arith, put_used slots, free, some_key)

  pub put_holds :
      (slots : List ℕ) (j : ℕ)
      → has_free slots ≡ true
      → (j == 0) ≡ false
      → holds j (put_key k slots) ≡ ((j == k) || holds j slots)
  put_holds [] j free used = absurd (cc)
  put_holds (slot ∷ slots) j free used = ground (arith, put_holds slots j, free, used, some_key)

  pub put_distinct :
      (slots : List ℕ)
      → holds k slots ≡ false
      → all_distinct slots ≡ true
      → all_distinct (put_key k slots) ≡ true
  put_distinct [] apart distinct = refl
  put_distinct (slot ∷ slots) apart distinct = elim (Bool-cases (has_free slots)) [
    | inl free ↦
        ground (arith, put_distinct slots, put_holds slots slot free, apart, distinct, some_key)
    | inr full ↦
        ground (arith, put_distinct slots, put_full k slots full, apart, distinct, some_key)
  ]

pub drop_absent : (k : ℕ) (slots : List ℕ) → holds k slots ≡ false → drop_key k slots ≡ slots
drop_absent k [] absent = refl
drop_absent k (slot ∷ slots) absent = ground (arith, drop_absent k slots, absent)

pub drop_zero : (slots : List ℕ) → drop_key 0 slots ≡ slots
drop_zero [] = refl
drop_zero (slot ∷ slots) = ground (arith, drop_zero slots)

module _ (k : ℕ) (some_key : (k == 0) ≡ false) where
  pub held_used : (slots : List ℕ) → holds k slots ≡ true → 0 < used_slots slots
  held_used [] held = absurd (cc)
  held_used (slot ∷ slots) held = ground (arith, held_used slots, held, some_key)

  pub drop_used :
      (slots : List ℕ) → holds k slots ≡ true → used_slots (drop_key k slots) ≡ used_slots slots - 1
  drop_used [] held = absurd (cc)
  drop_used (slot ∷ slots) held = ground (arith, drop_used slots, held_used slots, held, some_key)

  pub drop_holds :
      (slots : List ℕ) (j : ℕ)
      → all_distinct slots ≡ true
      → (j == 0) ≡ false
      → holds j (drop_key k slots) ≡ (not (j == k) && holds j slots)
  drop_holds [] j distinct used = ground arith
  drop_holds (slot ∷ slots) j distinct used =
      ground (arith, drop_holds slots j, distinct, used, some_key)

  pub drop_distinct :
      (slots : List ℕ) → all_distinct slots ≡ true → all_distinct (drop_key k slots) ≡ true
  drop_distinct [] distinct = refl
  drop_distinct (slot ∷ slots) distinct =
      ground (arith, drop_distinct slots, drop_holds slots slot, distinct, some_key)
