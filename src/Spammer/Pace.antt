-- ===== src/Spammer/Pace.antt =====
-- packetspammer/packetspammer.c: the pause after each frame.
use ucsma_rate_control.Base.{
  ℕ, ◌+◌, ◌-◌, ◌*◌, ◌^◌, ◌≤◌, ◌<◌, ◌≡◌, Option, none, some, arith, ltb, ◌==◌, if◌then◌else◌,
}
use ucsma_rate_control.Base.Int.{ℤ, pos, negsuc, ◌-ℤ◌, pattern_of, is_zero}

-- A result of int arithmetic: `none` where it overflows, which C leaves undefined.
abbrev pub int_result : ℤ → Option ℤ
int_result (pos n) = if ltb n (2 ^ 31) then some (pos n) else none
int_result (negsuc n) = if ltb n (2 ^ 31) then some (negsuc n) else none

abbrev times_100 : ℤ → ℤ
times_100 (pos n) = pos (100 * n)
times_100 (negsuc n) = negsuc (100 * n + 99)

abbrev scale : Option ℤ → Option ℤ
scale none = none
scale (some used) = int_result (times_100 used)

-- `int use = 80 - buf; return 100 * use;`
unfoldable pub wait : ℤ → Option ℤ
unfolding ◌-ℤ◌
wait buf = scale (int_result (pos 80 -ℤ buf))

-- `if (wait_us) usleep(wait_us);` with the conversion to useconds_t, an unsigned int.
unfoldable pub pause : ℤ → Option ℕ
pause wait_us = if is_zero wait_us then none else some (pattern_of (2 ^ 32) wait_us)

-- Up to 80 free buffers the pause is 100 microseconds for each buffer in use.
pub wait_in_range : (n : ℕ) → n ≤ 80 → wait (pos n) ≡ some (pos (100 * (80 - n)))
unfolding wait
wait_in_range n h = ground arith

-- For a pause of 0 the call is skipped; any other pause below 2 ^ 32 is asked for as it is.
pub pause_lem : (w : ℕ) → w < 2 ^ 32 → pause (pos w) ≡ (if w == 0 then none else some w)
unfolding pause
pause_lem w h = ground arith

-- Fewer free buffers never give a shorter pause.
pub wait-antitone :
    (a b : ℕ)
    → a ≤ b
    → b ≤ 80
    → {x y : ℕ} → wait (pos a) ≡ some (pos x)
    → wait (pos b) ≡ some (pos y)
    → (y ≤ x) × (x ≤ 8000)
wait-antitone a b h k p q = ground (arith, wait_in_range a, wait_in_range b)

-- With more than 80 free buffers, up to six million, the wait is negative, and usleep is asked
-- for more than an hour.
pub wait_beyond :
    (n : ℕ)
    → 80 < n
    → n ≤ 6000000
    → (w : ℤ) × (wait (pos n) ≡ some w) × (t : ℕ) × (pause w ≡ some t) × (3600 * 1000000 < t)
unfolding wait pause
wait_beyond n h k =
    (negsuc (100 * (n - 81) + 99), ground arith, 2 ^ 32 - 100 * (n - 80), ground arith, omega arith)
