-- ===== src/Kernel/Time.antt =====
-- `struct timespec` and its subtraction, which the kernel provides.
use ucsma_rate_control.Base.{ℕ, ◌+◌, ◌*◌, ◌≤◌, ◌<◌, ◌≡◌, ◌⊎◌, false, arith}
use ucsma_rate_control.Base.Int.{ℤ, pos, is_zero, pos_part, neg_part}

pub record Timespec : Type 0 where
  pub tv_sec : ℤ
  pub tv_nsec : ℕ

abbrev pub nsec_per_sec : ℕ
nsec_per_sec = 1_000_000_000

-- The documented behaviour of `timespec_sub`: the difference, with its nanoseconds normalised.
-- In nanoseconds, d = a - b, each second count written as its positive less its negative part.
abbrev pub IsDifference : Timespec → Timespec → Timespec → Type 0
IsDifference a b d =
    (d.tv_nsec < nsec_per_sec)
    × ((pos_part d.tv_sec + neg_part a.tv_sec + pos_part b.tv_sec) * nsec_per_sec
          + d.tv_nsec
          + b.tv_nsec
        ≡ (neg_part d.tv_sec + pos_part a.tv_sec + neg_part b.tv_sec) * nsec_per_sec + a.tv_nsec)

pub record TimespecSub : Type 0 where
  pub sub : Timespec → Timespec → Timespec
  pub sub-IsDifference : (a b : Timespec) → IsDifference a b (sub a b)

-- `now` is `e` nanoseconds after `past`.
abbrev pub IsAfter : Timespec → Timespec → ℕ → Type 0
IsAfter past now e =
    (pos_part now.tv_sec + neg_part past.tv_sec) * nsec_per_sec + now.tv_nsec
    ≡ (neg_part now.tv_sec + pos_part past.tv_sec) * nsec_per_sec + past.tv_nsec + e

-- The difference of two times that are less than a second apart has no seconds, and its
-- nanoseconds are the distance; at a second or more it has seconds.
pub difference_lem :
    (past now d : Timespec) (e : ℕ)
    → IsDifference now past d
    → IsAfter past now e
    → ((e < nsec_per_sec) × (d.tv_sec ≡ pos 0) × (d.tv_nsec ≡ e))
      ⊎ ((nsec_per_sec ≤ e) × (is_zero d.tv_sec ≡ false))
difference_lem past now d e (small, eq) after = ground arith
