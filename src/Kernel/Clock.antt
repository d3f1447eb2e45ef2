-- ===== src/Kernel/Clock.antt =====
-- A subtraction of times with the documented behaviour, for tests.
use ucsma_rate_control.Base.{ℕ, ◌+◌, ◌-◌, ◌*◌, ◌/◌, ◌%◌, arith, leb, if◌then◌else◌}
use ucsma_rate_control.Base.Int.{pos, negsuc, pos_part, neg_part}
use ucsma_rate_control.Kernel.Time.{Timespec, TimespecSub, IsDifference, nsec_per_sec}

-- A subtraction with the documented behaviour.
past_part : Timespec → Timespec → ℕ
past_part a b = (pos_part a.tv_sec + neg_part b.tv_sec) * nsec_per_sec + a.tv_nsec

pub plain_sub : Timespec → Timespec → Timespec
unfolding past_part
plain_sub a b =
    let p = past_part a b in
    let n = (neg_part a.tv_sec + pos_part b.tv_sec) * nsec_per_sec + b.tv_nsec in
    if leb n p
    then record { tv_sec = pos ((p - n) / nsec_per_sec); tv_nsec = (p - n) % nsec_per_sec }
    else record {
      tv_sec = negsuc ((n - p - 1) / nsec_per_sec);
      tv_nsec = ((n - p - 1) / nsec_per_sec + 1) * nsec_per_sec - (n - p);
    }

pub plain_sub-IsDifference : (a b : Timespec) → IsDifference a b (plain_sub a b)
unfolding plain_sub
plain_sub-IsDifference a b = ground arith

abbrev pub clock : TimespecSub
unfolding plain_sub
clock = record { sub = plain_sub; sub-IsDifference = plain_sub-IsDifference }

abbrev pub at : ℕ → ℕ → Timespec
at sec nsec = record { tv_sec = pos sec; tv_nsec = nsec }
