-- ===== src/Spammer/Loop.antt =====
-- packetspammer/packetspammer.c: the loop that injects the frame, reads the number of free buffers
-- and pauses.
use mathlib.Core.List.{append-nil}
use ucsma_rate_control.Base.{
  sym, ◌∙◌, ℕ, ◌+◌, ◌-◌, ◌*◌, ◌%◌, ◌^◌, ◌≤◌, ◌<◌, ◌≡◌, refl, true, false, Option, none, some, List,
  [], ◌∷◌, ◌++◌, map, arith, ◌==◌, if◌then◌else◌, length,
}
use ucsma_rate_control.Base.Int.{ℤ, pos, pattern_of}
use ucsma_rate_control.Spammer.Pace.{wait, pause, wait_in_range, pause_lem}

-- What the outside answers in one round: the result of `pcap_inject`, and `buf_free` after the read.
pub record Round : Type 0 where
  pub injected : ℤ
  pub buf_free : ℤ

-- `statistics`, as the bit patterns of its ints.
pub record Stats : Type 0 where
  pub sent_byte : ℕ
  pub sent_packet : ℕ

pub data Action : Type 0 where
  inject : (length : ℕ) → Action
  sleep : (usecs : ℕ) → Action

-- `running` is a run whose rounds so far have all been made; `overflowed` an int that overflows.
pub data End : Type 0 where
  finished trouble running overflowed : End

pub record Transcript : Type 0 where
  pub actions : List Action
  pub stats : Stats
  pub end : End

abbrev pub sleeps : Option ℕ → List Action
sleeps none = []
sleeps (some usecs) = sleep usecs ∷ []

before : List Action → Transcript → Transcript
before actions t = record t { actions = actions ++ t.actions }

abbrev stop : List Action → Stats → End → Transcript
stop actions stats end = record { actions = actions; stats = stats; end = end }

-- `++sent_packet == count`
after_wait : Option ℤ → (count sent : ℕ) → (length : ℕ) → Stats → Transcript → Transcript
unfolding before
after_wait none count sent length stats rest = stop (inject length ∷ []) stats overflowed
after_wait (some w) count sent length stats rest =
    let done = inject length ∷ sleeps (pause w) in
    if (sent + 1) % 2 ^ 32 == count then stop done stats finished else before done rest

count_frame : (frame_len : ℕ) → Stats → Stats
count_frame frame_len stats = record {
  sent_byte = (stats.sent_byte + frame_len) % 2 ^ 32;
  sent_packet = (stats.sent_packet + 1) % 2 ^ 32;
}

-- The loop from `sent` frames on, over the rounds that the outside allows.
pub transmit : (frame_len send_length count : ℕ) → List Round → (sent : ℕ) → Stats → Transcript
unfolding after_wait count_frame
transmit frame_len send_length count [] sent stats = stop [] stats running
transmit frame_len send_length count (r ∷ rs) sent stats =
    let stats' = count_frame frame_len stats in
    let rest = transmit frame_len send_length count rs ((sent + 1) % 2 ^ 32) stats' in
    if pattern_of (2 ^ 32) r.injected == send_length
    then after_wait (wait r.buf_free) count sent send_length stats' rest
    else stop (inject send_length ∷ []) stats' trouble

-- A round in which the frame goes out and `n` buffers are free.
abbrev pub round_with : (send_length n : ℕ) → Round
round_with send_length n = record { injected = pos send_length; buf_free = pos n }

-- One frame and the rest after it: 100 microseconds for each of the 80 buffers in use, and no pause
-- where none is.
abbrev pub paced_frame : (send_length n : ℕ) → List Action
paced_frame send_length n =
    if n == 80 then inject send_length ∷ [] else inject send_length ∷ sleep (100 * (80 - n)) ∷ []

-- The frames and pauses that the numbers of free buffers ask for.
abbrev pub paced : (send_length : ℕ) → List ℕ → List Action
paced send_length [] = []
paced send_length (n ∷ ns) = paced_frame send_length n ++ paced send_length ns

pause-paced_frame :
    (send_length n : ℕ)
    → n ≤ 80
    → inject send_length ∷ sleeps (pause (pos (100 * (80 - n)))) ≡ paced_frame send_length n
pause-paced_frame send_length n h = ground (arith, pause_lem (100 * (80 - n)))

abbrev pub AllFree : List ℕ → Type 0
AllFree [] = Unit
AllFree (n ∷ ns) = (n ≤ 80) × AllFree ns

round_lem :
    (frame_len send_length count n : ℕ) (rs : List Round) (sent : ℕ) (stats : Stats)
    → send_length < 2 ^ 32
    → n ≤ 80
    → transmit frame_len send_length count (round_with send_length n ∷ rs) sent stats
      ≡ after_wait
          (some (pos (100 * (80 - n))))
          count
          sent
          send_length
          (count_frame frame_len stats)
          (transmit frame_len send_length count rs
            ((sent + 1) % 2 ^ 32)
            (count_frame frame_len stats))
unfolding transmit
round_lem frame_len send_length count n rs sent stats h k =
    let e : (send_length % 2 ^ 32 == send_length) ≡ true = ground arith in rw (e, wait_in_range n k)

abbrev Paces : (send_length : ℕ) → List ℕ → Stats → Transcript → Type 0
Paces send_length ns stats t =
    (t.end ≡ finished)
    × (t.actions ≡ paced send_length ns)
    × (t.stats.sent_packet % 2 ^ 32 ≡ (stats.sent_packet + length ns) % 2 ^ 32)

transmit_rounds :
    (frame_len send_length count n : ℕ) (ns : List ℕ) (rs : List Round) (sent : ℕ) (stats : Stats)
    → send_length < 2 ^ 32
    → count < 2 ^ 32
    → sent + length (n ∷ ns) ≡ count
    → AllFree (n ∷ ns)
    → Paces send_length (n ∷ ns) stats (
        transmit frame_len send_length count
          (map (round_with send_length) (n ∷ ns) ++ rs)
          sent
          stats)
unfolding after_wait count_frame before
transmit_rounds frame_len send_length count n [] rs sent stats h k e free =
    let last : ((sent + 1) % 2 ^ 32 == count) ≡ true = ground arith in
    rw (round_lem frame_len send_length count n rs sent stats h (free.0), last)
      (refl, pause-paced_frame send_length n (free.0) ∙ sym (append-nil _), omega arith)
transmit_rounds frame_len send_length count n (m ∷ ns) rs sent stats h k e free =
    let more : ((sent + 1) % 2 ^ 32 == count) ≡ false = ground arith in
    let rest =
      transmit_rounds frame_len send_length count m ns rs ((sent + 1) % 2 ^ 32)
        (count_frame frame_len stats) h k (omega arith) (free.1) in
    rw
      (
        round_lem frame_len send_length count n (map (round_with send_length) (m ∷ ns) ++ rs) sent
            stats h (free.0),
        more,
      )
      (rest.0, cc (pause-paced_frame send_length n (free.0), rest.1), omega (arith, rest.2))

-- Asked for a number of frames (one or more, below 2 ^ 32), while each goes out whole and at most
-- 80 buffers are free, the program sends exactly that many, asks after each for a pause of 100
-- microseconds for each of the 80 buffers that is in use, and for none where all are free, and
-- stops.
pub transmit-Paces :
    (frame_len send_length n : ℕ) (ns : List ℕ) (rs : List Round)
    → send_length < 2 ^ 32
    → length (n ∷ ns) < 2 ^ 32
    → AllFree (n ∷ ns)
    → let t =
        transmit frame_len send_length
          (length (n ∷ ns))
          (map (round_with send_length) (n ∷ ns) ++ rs)
          0
          (record { sent_byte = 0; sent_packet = 0 }) in
      (t.end ≡ finished)
      × (t.actions ≡ paced send_length (n ∷ ns))
      × (t.stats.sent_packet % 2 ^ 32 ≡ length (n ∷ ns))
transmit-Paces frame_len send_length n ns rs h k free =
    let p =
      transmit_rounds frame_len send_length (length (n ∷ ns)) n ns rs 0
        (record { sent_byte = 0; sent_packet = 0 }) h k (omega arith) free in
    (p.0, p.1, omega (arith, p.2))
