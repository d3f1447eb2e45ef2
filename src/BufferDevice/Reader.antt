-- ===== src/BufferDevice/Reader.antt =====
-- ath9k/read_buffer_number.c: a program that reads the device a hundred times.
use ucsma_rate_control.Base.{
  ℕ, zero, suc, ◌+◌, ◌-◌, ◌^◌, ◌≡◌, refl, List, [], ◌∷◌, if◌then◌else◌, replicate,
}
use ucsma_rate_control.Base.Int.{ℤ, pos, negsuc, ◌≤ℤ◌, is_negative}
use ucsma_rate_control.BufferDevice.{Device, Read, read_device}
use ucsma_rate_control.BufferDevice.Laws.{int_of_bytes, read_back}

-- What the program prints, and what it returns; `errno` is an argument.
pub record Run : Type 0 where
  pub printed : List ℤ
  pub returned : ℤ

abbrev pub printed_before : ℤ → Run → Run
printed_before z r = record r { printed = z ∷ r.printed }

-- The rounds of the loop; round `i` gets the bytes and the result of `answer i`.
pub read_rounds : (rounds i : ℕ) → (answer : ℕ → Read) → (errno : ℤ) → Run
read_rounds zero i answer errno = record { printed = []; returned = pos 0 }
read_rounds (suc rounds) i answer errno =
    let rest = read_rounds rounds (i + 1) answer errno in
    let tmp = int_of_bytes (answer i).copied in
    if is_negative (answer i).result
    then record { printed = tmp ∷ []; returned = errno }
    else printed_before tmp rest

pub main : (fd : ℤ) → (answer : ℕ → Read) → (errno : ℤ) → Run
unfolding read_rounds
main fd answer errno =
    let run = read_rounds 100 0 answer errno in
    if is_negative fd then record { printed = []; returned = errno } else run

read_rounds_lem :
    (rounds i : ℕ) (z errno : ℤ) (d : Device)
    → negsuc (2 ^ 31 - 1) ≤ℤ z
    → z ≤ℤ pos (2 ^ 31 - 1)
    → read_rounds rounds i (λ j. read_device z 4 0 d) errno
      ≡ record { printed = replicate rounds z; returned = pos 0 }
unfolding read_rounds read_device
read_rounds_lem zero i z errno d lo hi = refl
read_rounds_lem (suc rounds) i z errno d lo hi =
    let back = read_back z 4 d lo hi in
    rw (back.2, back.0, read_rounds_lem rounds (i + 1) z errno d lo hi) refl

-- With the device open and the counter steady, the program prints the counter a hundred times and
-- returns 0.
pub main_prints :
    (fd : ℕ) (z errno : ℤ) (d : Device)
    → negsuc (2 ^ 31 - 1) ≤ℤ z
    → z ≤ℤ pos (2 ^ 31 - 1)
    → main (pos fd) (λ j. read_device z 4 0 d) errno
      ≡ record { printed = replicate 100 z; returned = pos 0 }
unfolding main
main_prints fd z errno d lo hi = read_rounds_lem 100 0 z errno d lo hi
