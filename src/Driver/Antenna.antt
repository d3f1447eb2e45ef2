-- ===== src/Driver/Antenna.antt =====
-- ath9k/main.c: the masks of the antennas. A u32 is a number below 2 ^ 32.
use ucsma_rate_control.Base.{
  ℕ, zero, suc, ◌+◌, ◌/◌, ◌%◌, ◌^◌, ◌<◌, ◌≡◌, refl, ap, ◌∙◌, ◌⊎◌, inl, inr, Bool, true, false, not,
  ◌&&◌, ◌||◌, Option, none, some, List, [], ◌∷◌, arith, ◌==◌, if◌then◌else◌, Bool-cases, bit_or,
}
use native.Mathlib.Nat.{div-eq_of_lt, two-pow-succ}
use ucsma_rate_control.Base.Int.{ℤ, pos, negsuc}

-- `w |= BIT(i)`.
abbrev with_bit : ℕ → ℕ → ℕ
with_bit i w = if w / 2 ^ i % 2 == 1 then w else w + 2 ^ i

-- The loop of `fill_chainmask`; `none` is a loop that has not ended after so many rounds.
fill_loop : (rounds caps new i filled : ℕ) → Option ℕ
fill_loop zero caps new i filled = if caps == 0 || new == 0 then some filled else none
fill_loop (suc rounds) caps new i filled =
    let odd = caps % 2 == 1 in
    let next_filled = if odd && (new % 2 == 1) then with_bit i filled else filled in
    let next_new = if odd then new / 2 else new in
    let rest = fill_loop rounds (caps / 2) next_new (i + 1) next_filled in
    if caps == 0 || new == 0 then some filled else rest

unfoldable pub fill_chainmask : (caps new : ℕ) → Option ℕ
unfolding fill_loop
fill_chainmask caps new = fill_loop 32 caps new 0 0

-- The places of the bits that are set among the lowest `n`, counted from `i`.
pub set_bits : (n i w : ℕ) → List ℕ
set_bits zero i w = []
set_bits (suc n) i w =
    let rest = set_bits n (i + 1) (w / 2) in if w % 2 == 1 then i ∷ rest else rest

-- The bits of `w`, the lowest first, at the places.
pub deposit : List ℕ → ℕ → ℕ
deposit [] w = 0
deposit (c ∷ places) w = (if w % 2 == 1 then 2 ^ c else 0) + deposit places (w / 2)

set_bits_zero : (n i : ℕ) → set_bits n i 0 ≡ []
unfolding set_bits
set_bits_zero zero i = refl
set_bits_zero (suc n) i = set_bits_zero n (i + 1)

deposit_zero : (places : List ℕ) → deposit places 0 ≡ 0
unfolding deposit
deposit_zero [] = refl
deposit_zero (c ∷ places) = omega (arith, deposit_zero places)

with_bit_free : (i w : ℕ) → w < 2 ^ i → with_bit i w ≡ w + 2 ^ i
with_bit_free i w h = let low : w / 2 ^ i ≡ 0 = div-eq_of_lt h in ground (arith, low)

pow_next : (i : ℕ) → 2 ^ (i + 1) ≡ 2 ^ i + 2 ^ i
pow_next i = let next : i + 1 ≡ suc i = omega arith in ap (λ k. 2 ^ k) next ∙ two-pow-succ i

halved : (n w : ℕ) → w < 2 ^ suc n → w / 2 < 2 ^ n
halved n w h = omega (arith, h, two-pow-succ n)

fill_loop-deposit :
    (n caps new i filled : ℕ)
    → caps < 2 ^ n
    → filled < 2 ^ i
    → fill_loop n caps new i filled ≡ some (filled + deposit (set_bits n i caps) new)
unfolding fill_loop set_bits deposit
fill_loop-deposit zero caps new i filled small free = ground arith
fill_loop-deposit (suc n) caps new i filled small free =
    let small' = halved n caps small in
    let kept : filled < 2 ^ (i + 1) = omega (arith, free, pow_next i) in
    let free' = with_bit_free i filled free in
    let grown : with_bit i filled < 2 ^ (i + 1) = omega (arith, free, pow_next i, free') in
    let skipped = fill_loop-deposit n (caps / 2) new (i + 1) filled small' kept in
    let clear = fill_loop-deposit n (caps / 2) (new / 2) (i + 1) filled small' kept in
    let set = fill_loop-deposit n (caps / 2) (new / 2) (i + 1) (with_bit i filled) small' grown in
    elim (Bool-cases (caps == 0)) [
      | inl no_chain ↦
          let no_more : caps / 2 ≡ 0 = ground (arith, no_chain) in
          let no_bits = ap (set_bits n (i + 1)) no_more ∙ set_bits_zero n (i + 1) in
          ground (arith, no_bits, no_chain)
      | inr chain ↦ elim (Bool-cases (new == 0)) [
        | inl nothing ↦
            let no_more : new / 2 ≡ 0 = ground (arith, nothing) in
            let rest = set_bits n (i + 1) (caps / 2) in
            let same : new ≡ 0 = ground (arith, nothing) in
            let none_left = ap (deposit rest) no_more ∙ deposit_zero rest in
            let none_right = ap (deposit rest) same ∙ deposit_zero rest in
            ground (arith, nothing, none_left, none_right)
        | inr more ↦
            rw (chain, more)
              (elim (Bool-cases (caps % 2 == 1)) [
                | inr even ↦ rw even skipped
                | inl odd ↦ rw odd (elim (Bool-cases (new % 2 == 1)) [
                  | inr off ↦ rw off (clear ∙ ground arith)
                  | inl on ↦ rw on (set ∙ ground (arith, free'))
                ])
              ])
      ]
    ]

-- For every capability of 32 bits and every mask the loop ends within 32 rounds, and the bits of
-- the mask, the lowest first, stand at the places of the chains that the hardware has.
pub fill_chainmask-deposit :
    (caps new : ℕ)
    → caps < 2 ^ 32
    → fill_chainmask caps new ≡ some (deposit (set_bits 32 0 caps) new)
unfolding fill_chainmask
fill_chainmask-deposit caps new small =
    fill_loop-deposit 32 caps new 0 0 small (omega arith) ∙ ground arith

-- The chip's revision and capabilities, the masks asked for and the masks in use.
pub record Antennas : Type 0 where
  pub is_ar9300 : Bool
  pub is_ar9100 : Bool
  pub caps_rx : ℕ
  pub caps_tx : ℕ
  pub ant_rx : ℕ
  pub ant_tx : ℕ
  pub rxchainmask : ℕ
  pub txchainmask : ℕ

pub validate_antenna_mask : Antennas → (val : ℕ) → Bool
validate_antenna_mask a val =
    let low = val % 8 in
    if a.is_ar9300
    then true
    else if low == 1 || low == 3 || low == 7
    then true
    else if low == 2
    then a.caps_rx == 1
    else false

-- What a call leaves: the masks, whether they were loaded again, and the result.
pub record AntennaRun : Type 0 where
  pub state : Antennas
  pub reloaded : Bool
  pub result : ℤ

store_masks : Option ℕ → Option ℕ → Antennas → Option AntennaRun
store_masks (some rx) (some tx) a = some (record {
  state = record a { rxchainmask = rx; txchainmask = tx };
  reloaded = true;
  result = pos 0;
})
store_masks (some rx) none a = none
store_masks none tx a = none

abbrev wanted_rx : Antennas → (tx_ant rx_ant : ℕ) → ℕ
wanted_rx a tx_ant rx_ant = if a.caps_rx == 1 then rx_ant else bit_or rx_ant tx_ant

-- `none` is a loop of `fill_chainmask` that has not ended.
pub ath9k_set_antenna : (tx_ant rx_ant : ℕ) → Antennas → Option AntennaRun
unfolding validate_antenna_mask store_masks
ath9k_set_antenna tx_ant rx_ant a =
    let wanted = wanted_rx a tx_ant rx_ant in
    let stored = record a { ant_rx = wanted; ant_tx = tx_ant } in
    let refused : AntennaRun = record { state = a; reloaded = false; result = negsuc 21 } in
    let single : AntennaRun = record { state = stored; reloaded = false; result = pos 0 } in
    if not (validate_antenna_mask a wanted) || (tx_ant == 0)
    then some refused
    else if a.caps_rx == 1
    then some single
    else store_masks (if a.is_ar9100 then some 7 else fill_chainmask a.caps_rx wanted)
        (fill_chainmask a.caps_tx tx_ant) stored

-- The masks, that to send with first.
pub ath9k_get_antenna : Antennas → ℕ × ℕ
ath9k_get_antenna a = (a.ant_tx, a.ant_rx)

-- The call is refused and changes nothing; or the masks read back, and with several receive chains the
-- chains in use are those of the capabilities that the masks name.
pub data AntennaEnd (tx_ant rx_ant : ℕ) (a : Antennas) (r : AntennaRun) : Type 0 where
  refused :
      (validate_antenna_mask a (wanted_rx a tx_ant rx_ant) ≡ false) ⊎ (tx_ant ≡ 0)
      → r.result ≡ negsuc 21
      → r.state ≡ a
      → AntennaEnd tx_ant rx_ant a r
  single :
      r.result ≡ pos 0
      → a.caps_rx ≡ 1
      → ath9k_get_antenna r.state ≡ (tx_ant, rx_ant)
      → r.state.rxchainmask ≡ a.rxchainmask
      → AntennaEnd tx_ant rx_ant a r
  several :
      r.result ≡ pos 0
      → ath9k_get_antenna r.state ≡ (tx_ant, bit_or rx_ant tx_ant)
      → r.state.rxchainmask
        ≡ (if a.is_ar9100 then 7 else deposit (set_bits 32 0 a.caps_rx) (bit_or rx_ant tx_ant))
      → r.state.txchainmask ≡ deposit (set_bits 32 0 a.caps_tx) tx_ant
      → r.reloaded ≡ true
      → AntennaEnd tx_ant rx_ant a r

pub record AntennaDone (tx_ant rx_ant : ℕ) (a : Antennas) : Type 0 where
  pub run : AntennaRun
  pub returned : ath9k_set_antenna tx_ant rx_ant a ≡ some run
  pub ended : AntennaEnd tx_ant rx_ant a run

masks :
    (is_ar9100 : Bool) (rx tx : ℕ) (a : Antennas)
    → store_masks (if is_ar9100 then some 7 else some rx) (some tx) a
      ≡ some (record {
        state = record a { rxchainmask = if is_ar9100 then 7 else rx; txchainmask = tx };
        reloaded = true;
        result = pos 0;
      })
unfolding store_masks
masks true rx tx a = refl
masks false rx tx a = refl

refusal : (v : Bool) (n : ℕ) → not v || (n == 0) ≡ true → (v ≡ false) ⊎ (n ≡ 0)
refusal v n h = ground (arith, h)

equal_one : (n : ℕ) → (n == 1) ≡ true → n ≡ 1
equal_one n h = ground (arith, h)

-- With capabilities of 32 bits the call that sets the antennas returns, in one of three ways: it
-- is refused and changes nothing, only where the mask to receive with is not valid or there is
-- none to send with; or there is one receive chain and the masks read back; or they read back,
-- that to receive with joined with that to send with, and the chains in use are those of the
-- capabilities that the masks name, all three on an AR9100.
pub set_antenna_returns :
    (tx_ant rx_ant : ℕ) (a : Antennas)
    → a.caps_rx < 2 ^ 32
    → a.caps_tx < 2 ^ 32
    → AntennaDone tx_ant rx_ant a
unfolding ath9k_set_antenna ath9k_get_antenna store_masks
set_antenna_returns tx_ant rx_ant a small_rx small_tx =
    let wanted = wanted_rx a tx_ant rx_ant in
    let stored = record a { ant_rx = wanted; ant_tx = tx_ant } in
    let plain = deposit (set_bits 32 0 a.caps_rx) (bit_or rx_ant tx_ant) in
    let rx_fills = fill_chainmask-deposit a.caps_rx (bit_or rx_ant tx_ant) small_rx in
    let stored' = record a { ant_rx = bit_or rx_ant tx_ant; ant_tx = tx_ant } in
    let tx_fills = fill_chainmask-deposit a.caps_tx tx_ant small_tx in
    elim (Bool-cases (not (validate_antenna_mask a wanted) || (tx_ant == 0))) [
      | inl bad ↦ record {
        run = record { state = a; reloaded = false; result = negsuc 21 };
        returned = rw bad refl;
        ended = refused (refusal (validate_antenna_mask a wanted) tx_ant bad) refl refl;
      }
      | inr good ↦ elim (Bool-cases (a.caps_rx == 1)) [
        | inl one ↦ record {
          run = record { state = stored; reloaded = false; result = pos 0 };
          returned = rw good (rw one refl);
          ended = single refl (equal_one a.caps_rx one) (rw one refl) refl;
        }
        | inr more ↦ record {
          run = record {
            state = record stored {
              rxchainmask = if a.is_ar9100 then 7 else plain;
              txchainmask = deposit (set_bits 32 0 a.caps_tx) tx_ant;
            };
            reloaded = true;
            result = pos 0;
          };
          returned = rw good (
              rw more (
                rw (rx_fills, tx_fills)
                  (masks a.is_ar9100 plain (deposit (set_bits 32 0 a.caps_tx) tx_ant) stored')));
          ended = several refl (rw more refl) refl refl refl;
        }
      ]
    ]
