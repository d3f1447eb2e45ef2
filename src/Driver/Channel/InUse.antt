-- ===== src/Driver/Channel/InUse.antt =====
-- ath9k/main.c: the channel in use in the table of statistics.
use ucsma_rate_control.Base.{
  ℕ, zero, suc, ◌≡◌, refl, ap, ◌∙◌, ◌⊎◌, inl, inr, Bool, true, false, not, ◌&&◌, Option, none, some,
  List, [], ◌∷◌, arith, ◌==◌, ltb, if◌then◌else◌, length, Bool-cases,
}
use ucsma_rate_control.Driver.Channel.{
  Survey, Surveys, change_at, in_use_at, is_current, release_survey, claim_survey, clear_survey,
  release_current, switch_survey,
}

length-change :
    (f : Survey → Survey) (table : List Survey) (i : ℕ)
    → length (change_at f table i) ≡ length table
length-change f [] i = refl
length-change f (s ∷ table) zero = refl
length-change f (s ∷ table) (suc i) = ap suc (length-change f table i)

-- A change that leaves the flag `b` changes that of its entry alone.
change_use :
    (f : Survey → Survey) (b : Bool)
    → ((s : Survey) → (f s).in_use ≡ b)
    → (table : List Survey) (c i : ℕ)
    → in_use_at (change_at f table c) i
      ≡ (if (i == c) && ltb c (length table) then b else in_use_at table i)
change_use f b all [] c i = ground arith
change_use f b all (s ∷ table) zero zero = ground (arith, all s)
change_use f b all (s ∷ table) zero (suc i) = ground arith
change_use f b all (s ∷ table) (suc c) zero = ground arith
change_use f b all (s ∷ table) (suc c) (suc i) = change_use f b all table c i ∙ ground arith

-- The entry in use is the current one, and no other is.
unfoldable pub InUse : Surveys → Type 0
InUse v = (i : ℕ) → in_use_at v.table i ≡ (is_current v.cur_survey i && ltb i (length v.table))

released_from :
    (cur : Option ℕ) (table : List Survey) (i : ℕ)
    → in_use_at table i ≡ (is_current cur i && ltb i (length table))
    → in_use_at (release_current cur table) i ≡ false
unfolding release_current release_survey
released_from none table i use' = use'
released_from (some c) table i use' =
    change_use release_survey false (λ s. refl) table c i ∙ ground (arith, use')

released :
    (v : Surveys) (i : ℕ) → InUse v → in_use_at (release_current v.cur_survey v.table) i ≡ false
unfolding InUse release_current release_survey
released v i use' = released_from v.cur_survey v.table i (use' i)

length-release :
    (cur : Option ℕ) (table : List Survey) → length (release_current cur table) ≡ length table
unfolding release_current
length-release none table = refl
length-release (some c) table = length-change release_survey table c

claim-InUse :
    (chan : ℕ) (v : Surveys)
    → InUse v
    → InUse (record {
      table = change_at claim_survey (release_current v.cur_survey v.table) chan;
      cur_survey = some chan;
    })
unfolding InUse claim_survey
claim-InUse chan v use' i =
    let table = release_current v.cur_survey v.table in
    let changed = change_use claim_survey true (λ s. refl) table chan i in
    let len = length-change claim_survey table chan in
    changed ∙ ground (arith, len, released v i use')

clear-InUse :
    (chan : ℕ) (v : Surveys)
    → InUse v
    → in_use_at v.table chan ≡ false
    → InUse (record v { table = change_at clear_survey v.table chan })
unfolding InUse clear_survey
clear-InUse chan v use' unused i =
    let changed = change_use clear_survey false (λ s. refl) v.table chan i in
    let len = length-change clear_survey v.table chan in
    changed ∙ ground (arith, len, use' i, use' chan, unused)

-- Where the entry in use of the table of statistics is the current one and no other is, a change
-- of the channel keeps it so, and on the operating channel it makes the new one the current one.
pub switch_survey-InUse :
    (offchannel : Bool) (chan : ℕ) (v : Surveys)
    → InUse v
    → let w = switch_survey offchannel chan v in
      InUse w × ((offchannel ≡ true) ⊎ (is_current w.cur_survey chan ≡ true))
unfolding switch_survey
switch_survey-InUse offchannel chan v use' =
    elim (Bool-cases (not offchannel && not (is_current v.cur_survey chan))) [
      | inl moves ↦ rw moves (claim-InUse chan v use', inr (ground arith))
      | inr stays ↦
          let why : (offchannel ≡ true) ⊎ (is_current v.cur_survey chan ≡ true) =
            ground (arith, stays) in
          rw stays (elim (Bool-cases (in_use_at v.table chan)) [
            | inl used ↦ rw used (use', why)
            | inr unused ↦ rw unused (clear-InUse chan v use' unused, why)
          ])
    ]
