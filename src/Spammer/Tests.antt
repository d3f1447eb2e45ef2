-- ===== src/Spammer/Tests.antt =====
-- packetspammer/packetspammer.c at concrete inputs.
use ucsma_rate_control.Base.{
  ℕ, ◌+◌, ◌%◌, ◌^◌, ◌≤◌, ◌≡◌, ◌↔◌, refl, true, some, List, [], ◌∷◌, ◌++◌, map, arith, if◌then◌else◌,
  length, drop, replicate,
}
use ucsma_rate_control.Base.Int.{ℤ, pos}
use ucsma_rate_control.Spammer.Mac.{parse_mac, print_mac, parse_mac-print_mac}
use ucsma_rate_control.Spammer.Options.{default_options, letter, Switch, long_help, take_switches}
use ucsma_rate_control.Spammer.Options.Header.{
  help, source_given, target_given, with_fcs, lay_out, last_given, GoesOn, take_switches-GoesOn,
}
use ucsma_rate_control.Spammer.Frame.{
  write_frame, sent_radiotap, message, codes, send_length, send_length_lem, write_frame-layout,
}
use ucsma_rate_control.Spammer.Dump.{dump, expand, dump-expand}
use ucsma_rate_control.Spammer.Loop.{transmit, round_with, paced, finished, transmit-Paces}

-- An `atoi` for these tests.
abbrev no_number : List ℕ → ℤ
no_number text = pos 0

parse_mac-print_mac_example :
    parse_mac (print_mac 0x13 0x22 0x33 0x44 0xab 0xff)
    ≡ some (0x13 ∷ 0x22 ∷ 0x33 ∷ 0x44 ∷ 0xab ∷ 0xff ∷ [])
parse_mac-print_mac_example =
    parse_mac-print_mac 0x13 0x22 0x33 0x44 0xab 0xff (omega arith) (omega arith) (omega arith)
      (omega arith) (omega arith) (omega arith)

abbrev command_line : List Switch
command_line =
    long_help
    ∷ letter b's' (print_mac 2 4 6 8 10 12)
    ∷ letter b'f' []
    ∷ letter b't' (print_mac 1 3 5 7 9 11)
    ∷ []

abbrev broadcast : List ℕ
broadcast = replicate 6 0xff

abbrev station : List ℕ
station = 0x13 ∷ 0x22 ∷ 0x33 ∷ 0x44 ∷ 0x55 ∷ 0x66 ∷ []

take_switches-GoesOn_example :
    GoesOn
      (lay_out
        (0x08 ∷ 0x01 ∷ 0x00 ∷ 0x00 ∷ [])
        (last_given b't' command_line broadcast)
        (last_given b's' command_line station)
        (0x10 ∷ 0x86 ∷ []))
      (take_switches no_number command_line default_options)
take_switches-GoesOn_example =
    take_switches-GoesOn no_number command_line (0x08 ∷ 0x01 ∷ 0x00 ∷ 0x00 ∷ []) (0x10 ∷ 0x86 ∷ [])
      broadcast station default_options refl refl refl
      (
        help,
        (
          source_given (print_mac 2 4 6 8 10 12) (2 ∷ 4 ∷ 6 ∷ 8 ∷ 10 ∷ 12 ∷ []) (
              parse_mac-print_mac 2 4 6 8 10 12 (omega arith) (omega arith) (omega arith)
                (omega arith) (omega arith) (omega arith)),
          (
            with_fcs [],
            (
              target_given (print_mac 1 3 5 7 9 11) (1 ∷ 3 ∷ 5 ∷ 7 ∷ 9 ∷ 11 ∷ []) (
                  parse_mac-print_mac 1 3 5 7 9 11 (omega arith) (omega arith) (omega arith)
                    (omega arith) (omega arith) (omega arith)),
              tt,
            ),
          ),
        ),
      )
      refl

send_length_lem_example :
    (send_length 1000 true + 4 ≡ 25 + 1000 + (if true then 4 else 0))
    × ((send_length 1000 true ≤ 2500) ↔ (1000 + (if true then 4 else 0) ≤ 2479))
send_length_lem_example = send_length_lem 1000 true (omega arith)

abbrev small_buffer : List ℕ
small_buffer = replicate 120 0

write_frame-layout_example :
    write_frame true default_options.ieee_header (codes "node") small_buffer
    ≡ sent_radiotap true
      ++ default_options.ieee_header
      ++ message (codes "node")
      ++ drop (24 + length (message (codes "node"))) (drop 25 small_buffer)
write_frame-layout_example =
    write_frame-layout true default_options.ieee_header (codes "node") small_buffer refl
      (omega arith)

-- Three frames: none free, all free, and half of them.
transmit-Paces_example :
    let t =
      transmit 1000 1021 3
        (map (round_with 1021) (0 ∷ 80 ∷ 40 ∷ []) ++ [])
        0
        (record { sent_byte = 0; sent_packet = 0 }) in
    (t.end ≡ finished)
    × (t.actions ≡ paced 1021 (0 ∷ 80 ∷ 40 ∷ []))
    × (t.stats.sent_packet % 2 ^ 32 ≡ 3)
transmit-Paces_example =
    transmit-Paces 1000 1021 0 (80 ∷ 40 ∷ []) [] (omega arith) (omega arith) (omega arith)

-- Four lines, of which the second and the third repeat the first, and a short one.
abbrev listed : List ℕ
listed = replicate 48 65 ++ replicate 20 66

listed_back : expand [] (dump listed) ≡ listed
listed_back = dump-expand listed
