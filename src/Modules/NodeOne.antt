-- ===== src/Modules/NodeOne.antt =====
-- kernel-module/interrupt_test_node1.c: the node that measures how long an answer takes.
use ucsma_rate_control.Base.{
  ℕ, zero, suc, ◌+◌, ◌*◌, ◌/◌, ◌%◌, ◌^◌, ◌≤◌, ◌<◌, ◌≡◌, ◌⊎◌, inl, inr, refl, ◌∙◌, Bool, true, false,
  not, ◌||◌, ◌&&◌, List, [], ◌∷◌, ◌++◌, arith, ltb, leb, ◌==◌, if◌then◌else◌, length, set,
  length-set, Bool-cases,
}
use ucsma_rate_control.Base.Int.{ℤ, pos, is_zero, int_gt}
use ucsma_rate_control.Kernel.{
  u32, Call, gpio_set_value, gpio_get_value, getnstimeofday, mod_timer, gpio_request_array,
  gpio_free_array, init_timer, add_timer, del_timer_sync,
}
use ucsma_rate_control.Kernel.Time.{Timespec, TimespecSub}

abbrev pub max_test_count : ℕ
max_test_count = 10000

abbrev pub poll_limit : ℕ
poll_limit = 1_000_000

-- `test_data`, less its timer; `results` is an array of u16.
pub record IrqLatencyTest : Type 0 where
  pub test_count : ℕ
  pub missed_count : ℕ
  pub max_count : ℕ
  pub results : List ℕ
  pub avg_nsecs : ℕ
  pub min_nsecs : ℕ
  pub max_nsecs : ℕ

-- The loop that waits for the input; `level i` is what round `i` reads.
pub poll : (rounds i : ℕ) → (level : ℕ → Bool) → ℕ
poll zero i level = i
poll (suc rounds) i level = elim (level i) [ true ↦ i | false ↦ poll rounds (i + 1) level ]

poll_calls : (rounds i : ℕ) → (level : ℕ → Bool) → List Call
poll_calls zero i level = []
poll_calls (suc rounds) i level = elim (level i) [
  | true ↦ gpio_get_value 22 true ∷ []
  | false ↦ gpio_get_value 22 false ∷ poll_calls rounds (i + 1) level
]

-- What the kernel answers during one expiry.
pub record Inputs : Type 0 where
  pub start : Timespec
  pub end : Timespec
  pub level : ℕ → Bool

-- A measurement in time.
pub take_sample : (nsec : ℕ) → IrqLatencyTest → IrqLatencyTest
take_sample nsec s = record s {
  avg_nsecs = u32 (s.avg_nsecs * s.test_count + nsec) / u32 (s.test_count + 1);
  max_nsecs = if ltb s.max_nsecs nsec then nsec else s.max_nsecs;
  min_nsecs = if ltb nsec s.min_nsecs || (s.min_nsecs == 0) then nsec else s.min_nsecs;
  results = set s.results s.test_count (nsec % 2 ^ 16);
  test_count = u32 (s.test_count + 1);
}

pub miss : IrqLatencyTest → IrqLatencyTest
miss s = record s { missed_count = u32 (s.missed_count + 1) }

-- `restarted` is whether the timer is set again.
pub record Expired : Type 0 where
  pub state : IrqLatencyTest
  pub calls : List Call
  pub restarted : Bool

module _ (ts : TimespecSub) where
  pub interrupt_test_node1_timer_handler : Inputs → IrqLatencyTest → Expired
  unfolding poll poll_calls take_sample miss
  interrupt_test_node1_timer_handler inp s =
      let delta = ts.sub inp.end inp.start in
      let sampled = take_sample delta.tv_nsec s in
      let calls =
        gpio_set_value 21 1
          ∷ getnstimeofday inp.start
          ∷ gpio_set_value 21 0
          ∷ poll_calls poll_limit 0 inp.level
        ++ getnstimeofday inp.end ∷ [] in
      let again = calls ++ mod_timer 2 ∷ [] in
      if ltb (poll poll_limit 0 inp.level) poll_limit && not (int_gt delta.tv_sec 0)
      then (if leb sampled.max_count sampled.test_count
          then record { state = sampled; calls = calls; restarted = false }
          else record { state = sampled; calls = again; restarted = true })
      else record { state = miss s; calls = again; restarted = true }

pub record Loaded : Type 0 where
  pub state : IrqLatencyTest
  pub calls : List Call
  pub result : ℤ

-- `count` is the module parameter `test_count`.
pub node_one_init : (gpios : ℤ) (count : ℕ) → IrqLatencyTest → Loaded
node_one_init gpios count s =
    if not (is_zero gpios)
    then record {
      state = s;
      calls = gpio_request_array gpios ∷ gpio_free_array ∷ [];
      result = gpios;
    }
    else record {
      state = record s { max_count = if ltb max_test_count count then max_test_count else count };
      calls = gpio_request_array gpios ∷ init_timer ∷ add_timer ∷ [];
      result = pos 0;
    }

pub node_one_exit : List Call
node_one_exit = del_timer_sync ∷ gpio_free_array ∷ []

-- The next result has a place in the array, and the least time is not above the greatest.
pub record IsTest (s : IrqLatencyTest) : Type 0 where
  pub whole : length s.results ≡ max_test_count
  pub in_bounds : s.test_count < max_test_count
  pub most : s.max_count ≤ max_test_count
  pub ordered : s.min_nsecs ≤ s.max_nsecs

sample-ordered :
    (nsec : ℕ) (s : IrqLatencyTest)
    → s.min_nsecs ≤ s.max_nsecs
    → (take_sample nsec s).min_nsecs ≤ (take_sample nsec s).max_nsecs
unfolding take_sample
sample-ordered nsec s h = ground arith

sample-whole :
    (nsec : ℕ) (s : IrqLatencyTest) → length (take_sample nsec s).results ≡ length s.results
unfolding take_sample
sample-whole nsec s = length-set s.results s.test_count (nsec % 2 ^ 16)

sample-count :
    (nsec : ℕ) (s : IrqLatencyTest)
    → s.test_count < max_test_count
    → ((take_sample nsec s).test_count ≡ s.test_count + 1)
      × ((take_sample nsec s).missed_count ≡ s.missed_count)
      × ((take_sample nsec s).max_count ≡ s.max_count)
unfolding take_sample
sample-count nsec s h = (omega arith, refl, refl)

-- From a sound test whose count of misses does not wrap, every expiry counts one more test or one
-- more miss; while the timer is set again, the next result has a place in the array of 10000, and
-- the least time is not above the greatest.
pub node_one-IsTest :
    (ts : TimespecSub) (inp : Inputs) (s : IrqLatencyTest)
    → IsTest s
    → s.missed_count + 1 < 2 ^ 32
    → let r = interrupt_test_node1_timer_handler ts inp s in
      (r.state.test_count + r.state.missed_count ≡ s.test_count + s.missed_count + 1)
      × (IsTest r.state ⊎ (r.restarted ≡ false))
unfolding interrupt_test_node1_timer_handler miss
node_one-IsTest ts inp s ok fits =
    let nsec = (ts.sub inp.end inp.start).tv_nsec in
    let n = sample-count nsec s ok.in_bounds in
    elim (Bool-cases (
      ltb (poll poll_limit 0 inp.level) poll_limit
      && not (int_gt (ts.sub inp.end inp.start).tv_sec 0))) [
        | inr missed ↦ rw missed (
          omega arith,
          inl (record {
            whole = ok.whole;
            in_bounds = ok.in_bounds;
            most = ok.most;
            ordered = ok.ordered;
          }),
        )
        | inl answered ↦
            rw answered
              (elim (Bool-cases
                (leb (take_sample nsec s).max_count (take_sample nsec s).test_count)) [
                  | inl last ↦ rw last (omega (arith, n), inr refl)
                  | inr more ↦ rw more (
                    omega (arith, n),
                    inl (record {
                      whole = sample-whole nsec s ∙ ok.whole;
                      in_bounds = ground (arith, n, ok.most);
                      most = ground (arith, n, ok.most);
                      ordered = sample-ordered nsec s ok.ordered;
                    }),
                  )
                ])
      ]
