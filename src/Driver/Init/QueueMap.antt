-- ===== src/Driver/Init/QueueMap.antt =====
-- ath9k/init.c: the queues of the four classes after `ath9k_init_queues`.
use ucsma_rate_control.Base.{
  ℕ, zero, suc, ◌+◌, ◌<◌, ◌≡◌, ◌≢◌, refl, sym, ap, ◌∙◌, subst, inl, inr, Bool-cases, some, List,
  ◌==◌, arith, if◌then◌else◌, length, get_elem?, set, length-set, get_elem?-set_self,
  get_elem?-set_ne,
}
use ucsma_rate_control.Driver.Init.Defs.{Attached}
use ucsma_rate_control.Driver.Init.Attach.{ath_max_qdepth, map_queues, init_queues}

-- The queues of the first `n` classes are entered both ways, with the limit of each.
pub record MapsBelow (n : ℕ) (data_queue : ℕ → ℕ) (sc : Attached) : Type 0 where
  pub four_queues : length sc.txq_map ≡ 4
  pub four_limits : length sc.txq_max_pending ≡ 4
  pub queue_of : (ac : ℕ) → ac < n → get_elem? sc.txq_map ac ≡ some (data_queue ac)
  pub class_of : (ac : ℕ) → ac < n → sc.mac80211_qnum (data_queue ac) ≡ ac
  pub limit_of : (ac : ℕ) → ac < n → get_elem? sc.txq_max_pending ac ≡ some ath_max_qdepth

abbrev with_queue : ℕ → (ℕ → ℕ) → Attached → Attached
with_queue n data_queue sc = record sc {
  txq_map = set sc.txq_map n (data_queue n);
  mac80211_qnum = λ queue. if queue == data_queue n then n else sc.mac80211_qnum queue;
  txq_max_pending = set sc.txq_max_pending n ath_max_qdepth;
}

-- An entry of a list after the write of the next one.
next_entry :
    (xs : List ℕ) (n ac v w : ℕ)
    → n < length xs
    → ac < suc n
    → (ac < n → get_elem? xs ac ≡ some w)
    → (ac ≡ n → v ≡ w)
    → get_elem? (set xs n v) ac ≡ some w
next_entry xs n ac v w inside below old new = elim (Bool-cases (ac == n)) [
  | inl same ↦
      let here : ac ≡ n = ground (arith, same) in
      rw here (get_elem?-set_self xs n v inside ∙ ap some (new here))
  | inr other ↦
      let apart : n ≢ ac = λ e. ground (arith, other, e) in
      get_elem?-set_ne xs n ac v apart ∙ old (ground (arith, other, below))
]

module _ (data_queue : ℕ → ℕ)
    (distinct : (i j : ℕ) → i < 4 → j < 4 → data_queue i ≡ data_queue j → i ≡ j) where
  next_class :
      (n ac : ℕ) (sc : Attached)
      → n < 4
      → ac < suc n
      → (ac < n → sc.mac80211_qnum (data_queue ac) ≡ ac)
      → (if data_queue ac == data_queue n then n else sc.mac80211_qnum (data_queue ac)) ≡ ac
  next_class n ac sc inside below old = elim (Bool-cases (data_queue ac == data_queue n)) [
    | inl same ↦ rw same (distinct n ac inside (omega arith) (ground (arith, same)))
    | inr other ↦
        let apart : ac ≢ n = λ e. ground (arith, other, ap data_queue e) in
        rw other (old (ground (arith, below, apart)))
  ]

  with_queue-MapsBelow :
      (n : ℕ) (sc : Attached)
      → n < 4
      → MapsBelow n data_queue sc
      → MapsBelow (suc n) data_queue (with_queue n data_queue sc)
  with_queue-MapsBelow n sc inside m = record {
    four_queues = length-set sc.txq_map n (data_queue n) ∙ m.four_queues;
    four_limits = length-set sc.txq_max_pending n ath_max_qdepth ∙ m.four_limits;
    queue_of = λ ac below.
        next_entry sc.txq_map n ac (data_queue n) (data_queue ac) (omega (arith, m.four_queues))
          below (m.queue_of ac) (λ e. ap data_queue (sym e));
    class_of = λ ac below. next_class n ac sc inside below (m.class_of ac);
    limit_of = λ ac below.
        next_entry sc.txq_max_pending n ac ath_max_qdepth ath_max_qdepth
          (omega (arith, m.four_limits)) below (m.limit_of ac) (λ e. refl);
  }

  map_queues-MapsBelow :
      (rounds n : ℕ) (sc : Attached)
      → n + rounds ≡ 4
      → MapsBelow n data_queue sc
      → MapsBelow 4 data_queue (map_queues rounds n data_queue sc)
  unfolding map_queues
  map_queues-MapsBelow zero n sc all m = subst (λ k. MapsBelow k data_queue sc) (omega arith) m
  map_queues-MapsBelow (suc rounds) n sc all m =
      let next : suc n ≡ n + 1 = omega arith in
      map_queues-MapsBelow rounds (n + 1) (with_queue n data_queue sc) (omega arith) (
        subst (λ k. MapsBelow k data_queue (with_queue n data_queue sc)) next
          (with_queue-MapsBelow n sc (omega arith) m))

-- If the four data queues are different, then after the set-up each class is mapped to its queue, the
-- queue knows its class, and each class may have 123 frames pending.
pub init_queues-MapsBelow :
    (data_queue : ℕ → ℕ) (sc : Attached)
    → ((i j : ℕ) → i < 4 → j < 4 → data_queue i ≡ data_queue j → i ≡ j)
    → length sc.txq_map ≡ 4
    → length sc.txq_max_pending ≡ 4
    → MapsBelow 4 data_queue (init_queues data_queue sc).state
unfolding init_queues
init_queues-MapsBelow data_queue sc distinct four limits =
    map_queues-MapsBelow data_queue distinct 4 0 sc refl (record {
      four_queues = four;
      four_limits = limits;
      queue_of = λ ac below. absurd (omega arith);
      class_of = λ ac below. absurd (omega arith);
      limit_of = λ ac below. absurd (omega arith);
    })
