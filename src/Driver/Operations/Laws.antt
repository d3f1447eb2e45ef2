-- ===== src/Driver/Operations/Laws.antt =====
-- ath9k/main.c: what the shorter operations keep and answer.
use ucsma_rate_control.Base.{
  ℕ, zero, suc, ◌+◌, ◌-◌, ◌<◌, ◌≤◌, ◌^◌, ◌≡◌, refl, ◌∙◌, inl, inr, Bool-cases, Bool, true, false,
  Option, none, some, List, [], ◌∷◌, ◌++◌, arith, leb, if◌then◌else◌, get_elem?, length,
}
use ucsma_rate_control.Base.Int.{ℤ}
use ucsma_rate_control.Driver.State.{PowerMode, Softc, Call}
use ucsma_rate_control.Driver.Power.{ps_wakeup, wakeup-count, restore-count}
use ucsma_rate_control.Driver.Operations.{
  TxParams, OpRun, awake_for, conf_tx, set_coverage_class, configure_filter, AmpduAction, rx_start,
  rx_stop, tx_start, tx_stop_cont, tx_stop_flush, tx_stop_flush_cont, tx_operational,
  unknown_action, ampdu_action, get_tsf, ath9k_set_tsf, ath9k_reset_tsf, get_survey,
}

get_elem?-front : (xs ys : List ℕ) (i : ℕ) → i < length xs → get_elem? (xs ++ ys) i ≡ get_elem? xs i
get_elem?-front [] ys i h = absurd (omega arith)
get_elem?-front (x ∷ xs) ys zero h = refl
get_elem?-front (x ∷ xs) ys (suc i) h = get_elem?-front xs ys i (omega arith)

get_elem?-back :
    (xs ys : List ℕ) (i : ℕ) → length xs ≤ i → get_elem? (xs ++ ys) i ≡ get_elem? ys (i - length xs)
get_elem?-back [] ys i h = let whole : i - 0 ≡ i = omega arith in rw whole refl
get_elem?-back (x ∷ xs) ys zero h = absurd (omega arith)
get_elem?-back (x ∷ xs) ys (suc i) h =
    let less : suc i - suc (length xs) ≡ i - length xs = omega arith in
    rw less (get_elem?-back xs ys i (omega arith))

-- The channels of a band, none where the chip does not have it.
abbrev pub channels_of : Option (List ℕ) → List ℕ
channels_of none = []
channels_of (some channels) = channels

-- The survey with a given number is that of the channel with this number in the lower band's
-- channels followed by the upper band's, whichever of the bands the chip has, and there is none
-- past the last.
pub get_survey-append :
    (idx : ℕ) (band_2ghz band_5ghz : Option (List ℕ))
    → (get_survey idx band_2ghz band_5ghz).channel
      ≡ get_elem? (channels_of band_2ghz ++ channels_of band_5ghz) idx
unfolding get_survey
get_survey-append idx none none = refl
get_survey-append idx none (some high) = refl
get_survey-append idx (some low) none = elim (Bool-cases (leb (length low) idx)) [
  | inl past ↦
      let beyond : length low ≤ idx = ground (arith, past) in
      rw (past, get_elem?-back low [] idx beyond) refl
  | inr inside ↦
      let below : idx < length low = ground (arith, inside) in
      rw (inside, get_elem?-front low [] idx below) refl
]
get_survey-append idx (some low) (some high) = elim (Bool-cases (leb (length low) idx)) [
  | inl past ↦
      let beyond : length low ≤ idx = ground (arith, past) in
      rw (past, get_elem?-back low high idx beyond) refl
  | inr inside ↦
      let below : idx < length low = ground (arith, inside) in
      rw (inside, get_elem?-front low high idx below) refl
]

-- One call of an operation, with what it is given.
pub data Operation : Type 0 where
  conf_tx_op :
      (txq_map : List ℕ) (eifs : Bool) (sifs slottime : ℕ) (updated : ℤ) (queue : ℕ) (p : TxParams)
      → Operation
  coverage_op filter_op get_tsf_op set_tsf_op reset_tsf_op : Operation
  ampdu_op : (action : AmpduAction) (started : ℤ) → Operation

module _ (setpower : PowerMode → PowerMode → PowerMode) (btcoex : Bool) where
  unfoldable pub perform : Operation → Softc → Softc
  perform (conf_tx_op txq_map eifs sifs slottime updated queue p) sc =
      (conf_tx setpower btcoex txq_map eifs sifs slottime updated queue p sc).softc
  perform coverage_op sc = (set_coverage_class setpower btcoex sc).state
  perform filter_op sc = (configure_filter setpower btcoex sc).state
  perform get_tsf_op sc = (get_tsf setpower btcoex sc).softc
  perform set_tsf_op sc = (ath9k_set_tsf setpower btcoex sc).softc
  perform reset_tsf_op sc = (ath9k_reset_tsf setpower btcoex sc).softc
  perform (ampdu_op action started) sc = (ampdu_action setpower btcoex action started sc).softc

  unfoldable pub perform_all : List Operation → Softc → Softc
  unfolding perform
  perform_all [] sc = sc
  perform_all (op ∷ ops) sc = perform_all ops (perform op sc)

if-count :
    (b : Bool) (x y : OpRun) (n : ℕ)
    → x.softc.ps_usecount ≡ n
    → y.softc.ps_usecount ≡ n
    → (if b then x else y).softc.ps_usecount ≡ n
if-count true x y n p q = p
if-count false x y n p q = q

module _ (setpower : PowerMode → PowerMode → PowerMode) (btcoex : Bool) where
  awake_count :
      (calls : List Call) (sc : Softc)
      → sc.ps_usecount + 1 < 2 ^ 32
      → (awake_for setpower btcoex calls sc).state.ps_usecount ≡ sc.ps_usecount
  unfolding awake_for
  awake_count calls sc h =
      restore-count setpower btcoex (ps_wakeup setpower sc).state sc.ps_usecount
        (wakeup-count setpower sc h) h

  conf_tx_count :
      (txq_map : List ℕ) (eifs : Bool) (sifs slottime : ℕ) (updated : ℤ) (queue : ℕ) (p : TxParams)
      (sc : Softc)
      → sc.ps_usecount + 1 < 2 ^ 32
      → (conf_tx setpower btcoex txq_map eifs sifs slottime updated queue p sc).softc.ps_usecount
        ≡ sc.ps_usecount
  unfolding conf_tx awake_for
  conf_tx_count txq_map eifs sifs slottime updated queue p sc h =
      if-count (leb 4 queue) _ _ sc.ps_usecount refl (awake_count [] sc h)

  perform_count :
      (op : Operation) (sc : Softc)
      → sc.ps_usecount + 1 < 2 ^ 32
      → (perform setpower btcoex op sc).ps_usecount ≡ sc.ps_usecount
  unfolding perform set_coverage_class configure_filter get_tsf ath9k_set_tsf ath9k_reset_tsf
      ampdu_action awake_for
  perform_count (conf_tx_op txq_map eifs sifs slottime updated queue p) sc h =
      conf_tx_count txq_map eifs sifs slottime updated queue p sc h
  perform_count coverage_op sc h = awake_count [] sc h
  perform_count filter_op sc h = awake_count [] sc h
  perform_count get_tsf_op sc h = awake_count [] sc h
  perform_count set_tsf_op sc h = awake_count [] sc h
  perform_count reset_tsf_op sc h = awake_count [] sc h
  perform_count (ampdu_op rx_start started) sc h = refl
  perform_count (ampdu_op rx_stop started) sc h = refl
  perform_count (ampdu_op tx_start started) sc h = awake_count [] sc h
  perform_count (ampdu_op tx_stop_cont started) sc h = awake_count [] sc h
  perform_count (ampdu_op tx_stop_flush started) sc h = awake_count [] sc h
  perform_count (ampdu_op tx_stop_flush_cont started) sc h = awake_count [] sc h
  perform_count (ampdu_op tx_operational started) sc h = awake_count [] sc h
  perform_count (ampdu_op unknown_action started) sc h = refl

-- Any sequence of these operations leaves the count of users as it was, if one more fits.
pub operations_balanced :
    (setpower : PowerMode → PowerMode → PowerMode) (btcoex : Bool) (ops : List Operation)
    (sc : Softc)
    → sc.ps_usecount + 1 < 2 ^ 32
    → (perform_all setpower btcoex ops sc).ps_usecount ≡ sc.ps_usecount
unfolding perform_all
operations_balanced setpower btcoex [] sc h = refl
operations_balanced setpower btcoex (op ∷ ops) sc h =
    let one = perform_count setpower btcoex op sc h in
    operations_balanced setpower btcoex ops (perform setpower btcoex op sc) (omega (arith, one))
    ∙ one
