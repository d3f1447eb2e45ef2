-- ===== src/Modules/Timing.antt =====
-- kernel-module/kernel_timing_test.c: how long a delay and ten million readings of a clock take.
use ucsma_rate_control.Base.{
  ℕ, zero, suc, ◌+◌, ◌-◌, ◌*◌, ◌<◌, ◌≡◌, ap, ◌∙◌, arith, ltb, if◌then◌else◌,
}
use ucsma_rate_control.Base.Int.{ℤ, pos, ◌-ℤ◌, pos_part, neg_part}
use ucsma_rate_control.Kernel.Time.{Timespec, TimespecSub, IsDifference}

pub record Timeval : Type 0 where
  pub tv_sec : ℤ
  pub tv_usec : ℕ

abbrev pub usec_per_sec : ℕ
usec_per_sec = 1_000_000

pub timeval_diff : (en st : Timeval) → Timeval
unfolding ◌-ℤ◌
timeval_diff en st =
    let sec = en.tv_sec -ℤ st.tv_sec in
    if ltb en.tv_usec st.tv_usec
    then record { tv_sec = sec -ℤ pos 1; tv_usec = usec_per_sec + en.tv_usec - st.tv_usec }
    else record { tv_sec = sec; tv_usec = en.tv_usec - st.tv_usec }

-- What a loop leaves that reads a clock in each round; `clock i` is what round `i` reads.
pub last_read : {A : Type 0} → (rounds i : ℕ) → (clock : ℕ → A) → (before : A) → A
last_read zero i clock before = before
last_read (suc rounds) i clock before = last_read rounds (i + 1) clock (clock i)

abbrev pub loop_count : ℕ
loop_count = 10_000_000

-- What the clocks say: before and after a delay, and in the loops.
pub record Clocks : Type 0 where
  pub st : Timeval
  pub en : Timeval
  pub s : Timespec
  pub e : Timespec
  pub st_loop : Timeval
  pub en_loop : ℕ → Timeval
  pub s_loop : Timespec
  pub e_loop : ℕ → Timespec

-- The four differences that are printed. The function returns 0.
pub record Measured : Type 0 where
  pub diff : Timeval
  pub dif : Timespec
  pub diff_loop : Timeval
  pub dif_loop : Timespec

pub kernel_timing_test_init_module : TimespecSub → Clocks → Measured
unfolding timeval_diff last_read
kernel_timing_test_init_module ts c = record {
  diff = timeval_diff c.en c.st;
  dif = ts.sub c.e c.s;
  diff_loop = timeval_diff (last_read loop_count 0 c.en_loop c.en) c.st_loop;
  dif_loop = ts.sub (last_read loop_count 0 c.e_loop c.e) c.s_loop;
}

-- In microseconds, d = a - b with less than a second in its microseconds.
abbrev pub IsElapsed : Timeval → Timeval → Timeval → Type 0
IsElapsed a b d =
    (d.tv_usec < usec_per_sec)
    × ((pos_part d.tv_sec + neg_part a.tv_sec + pos_part b.tv_sec) * usec_per_sec
          + d.tv_usec
          + b.tv_usec
        ≡ (neg_part d.tv_sec + pos_part a.tv_sec + neg_part b.tv_sec) * usec_per_sec + a.tv_usec)

timeval_diff_lem :
    (en st : Timeval)
    → en.tv_usec < usec_per_sec
    → st.tv_usec < usec_per_sec
    → IsElapsed en st (timeval_diff en st)
unfolding timeval_diff ◌-ℤ◌
timeval_diff_lem en st he hs = ground arith

last_read_lem :
    {A : Type 0}
    → (rounds i : ℕ) (clock : ℕ → A) (before : A)
    → last_read (suc rounds) i clock before ≡ clock (i + rounds)
unfolding last_read
last_read_lem zero i clock before = ap clock (omega arith)
last_read_lem (suc rounds) i clock before =
    last_read_lem rounds (i + 1) clock (clock i) ∙ ap clock (omega arith)

last_read_end :
    {A : Type 0}
    → (rounds : ℕ) (clock : ℕ → A) (before : A)
    → last_read (suc rounds) 0 clock before ≡ clock rounds
last_read_end rounds clock before = last_read_lem rounds 0 clock before ∙ ap clock (omega arith)

last_read-IsElapsed :
    (rounds : ℕ) (clock : ℕ → Timeval) (before st : Timeval)
    → (clock rounds).tv_usec < usec_per_sec
    → st.tv_usec < usec_per_sec
    → IsElapsed (clock rounds) st (timeval_diff (last_read (suc rounds) 0 clock before) st)
last_read-IsElapsed rounds clock before st hl hs =
    rw (last_read_end rounds clock before) (timeval_diff_lem (clock rounds) st hl hs)

last_read-IsDifference :
    (ts : TimespecSub) (rounds : ℕ) (clock : ℕ → Timespec) (before s : Timespec)
    → IsDifference (clock rounds) s (ts.sub (last_read (suc rounds) 0 clock before) s)
last_read-IsDifference ts rounds clock before s =
    rw (last_read_end rounds clock before) (ts.sub-IsDifference (clock rounds) s)

-- For readings with less than a second in their microseconds, the two differences of gettimeofday
-- are the times that passed, the second up to the ten millionth reading, and so are the two of
-- getnstimeofday.
pub timing_measures :
    (ts : TimespecSub) (c : Clocks)
    → c.en.tv_usec < usec_per_sec
    → c.st.tv_usec < usec_per_sec
    → (c.en_loop 9_999_999).tv_usec < usec_per_sec
    → c.st_loop.tv_usec < usec_per_sec
    → let m = kernel_timing_test_init_module ts c in
      IsElapsed c.en c.st m.diff
      × IsDifference c.e c.s m.dif
      × IsElapsed (c.en_loop 9_999_999) c.st_loop m.diff_loop
      × IsDifference (c.e_loop 9_999_999) c.s_loop m.dif_loop
unfolding kernel_timing_test_init_module
timing_measures ts c he hs hl hk = (
  timeval_diff_lem c.en c.st he hs,
  ts.sub-IsDifference c.e c.s,
  last_read-IsElapsed 9_999_999 c.en_loop c.en c.st_loop hl hk,
  last_read-IsDifference ts 9_999_999 c.e_loop c.e c.s_loop,
)
