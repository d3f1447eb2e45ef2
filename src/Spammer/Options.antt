-- ===== src/Spammer/Options.antt =====
-- packetspammer/packetspammer.c: the loop over the command line. `getopt_long` and `atoi` belong to
-- the C library: the first is the list of what it returned, the second a parameter.
pub mod Header
use ucsma_rate_control.Base.{
  ℕ, ◌+◌, ◌≤◌, ◌^◌, ◌≡◌, ap, ◌∙◌, sym, subst, Bool, true, false, Option, none, some, List, [], ◌∷◌,
  ◌++◌, arith, ◌==◌, leb, if◌then◌else◌, length, inl, inr, Option-cases, length-append,
}
use ucsma_rate_control.Base.Int.{ℤ, pos, pattern_of}
use ucsma_rate_control.Base.Bytes.{overlay, length-overlay, overlay_skip, overlay_front}
use ucsma_rate_control.Spammer.Mac.{parse_mac, length-parse_mac}

pub record Options : Type 0 where
  pub delay : ℤ
  pub stat_interval : ℤ
  pub frame_len : ℕ
  pub count : ℕ
  pub mark_with_fcs : Bool
  pub help : Bool
  pub ieee_header : List ℕ

-- `u8aIeeeHeader` as it is declared.
abbrev pub ieee_header_init : List ℕ
ieee_header_init =
    0x08 ∷ 0x01 ∷ 0x00 ∷ 0x00 ∷ 0xff ∷ 0xff ∷ 0xff ∷ 0xff ∷ 0xff ∷ 0xff ∷ 0x13 ∷ 0x22 ∷ 0x33 ∷ 0x44
    ∷ 0x55 ∷ 0x66 ∷ 0x13 ∷ 0x22 ∷ 0x33 ∷ 0x44 ∷ 0x55 ∷ 0x66 ∷ 0x10 ∷ 0x86 ∷ []

abbrev pub default_options : Options
default_options = record {
  delay = pos 100000;
  stat_interval = pos 1;
  frame_len = 1000;
  count = 0;
  mark_with_fcs = false;
  help = false;
  ieee_header = ieee_header_init;
}

-- What a call of `getopt_long` returned: 0 after it has stored 1 in the flag of a long option, or a
-- letter, with the option's argument.
pub data Switch : Type 0 where
  long_fcs long_help : Switch
  letter : (c : ℕ) (optarg : List ℕ) → Switch

-- After one switch: the loop goes on, the program prints its usage and exits, it has read beyond an
-- argument's terminator, or it has written beyond the header.
pub data Parsed : Type 0 where
  proceed : Options → Parsed
  usage_exit overread overrun : Parsed

-- `memcpy(u8aIeeeHeader + at, bytes, …)`, and what comes after it.
abbrev pub copy_then : (at : ℕ) (bytes : List ℕ) → Options → (Options → Parsed) → Parsed
copy_then at bytes o next =
    if leb (at + length bytes) (length o.ieee_header)
    then next (record o { ieee_header = overlay at bytes o.ieee_header })
    else overrun

-- `memcpy(u8aIeeeHeader + 16, …); memcpy(u8aIeeeHeader + 10, …);`
pub set_source : Option (List ℕ) → Options → Parsed
set_source none o = overread
set_source (some mac) o = copy_then 16 mac o (λ o'. copy_then 10 mac o' proceed)

pub set_destination : Option (List ℕ) → Options → Parsed
set_destination none o = overread
set_destination (some mac) o = copy_then 4 mac o proceed

module _ (atoi : List ℕ → ℤ) where
  -- The `switch` of the loop.
  pub take_switch : Switch → Options → Parsed
  unfolding set_source set_destination
  take_switch long_fcs o = proceed (record o { mark_with_fcs = true })
  take_switch long_help o = proceed (record o { help = true })
  take_switch (letter c optarg) o =
      if c == b'h'
      then usage_exit
      else if c == b'd'
      then proceed (record o { delay = atoi optarg })
      else if c == b'l'
      then proceed (record o { frame_len = pattern_of (2 ^ 32) (atoi optarg) })
      else if c == b'f'
      then proceed (record o { mark_with_fcs = true })
      else if c == b'c'
      then proceed (record o { count = pattern_of (2 ^ 32) (atoi optarg) })
      else if c == b'i'
      then proceed (record o { stat_interval = atoi optarg })
      else if c == b's'
      then set_source (parse_mac optarg) o
      else if c == b't'
      then set_destination (parse_mac optarg) o
      else usage_exit

  abbrev pub next_switches : (Options → Parsed) → Parsed → Parsed
  next_switches rest (proceed o) = rest o
  next_switches rest usage_exit = usage_exit
  next_switches rest overread = overread
  next_switches rest overrun = overrun

  -- The loop, up to `c == -1`.
  pub take_switches : List Switch → Options → Parsed
  unfolding take_switch
  take_switches [] o = proceed o
  take_switches (w ∷ ws) o = next_switches (take_switches ws) (take_switch w o)
