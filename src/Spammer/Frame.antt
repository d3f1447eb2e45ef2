-- ===== src/Spammer/Frame.antt =====
-- packetspammer/packetspammer.c: the frame that is sent over and over, and its length.
use Prim.Native.String.{String}
use Prim.Native.Char.{code}
use ucsma_rate_control.Base.{
  ℕ, ◌+◌, ◌-◌, ◌^◌, ◌%◌, ◌≤◌, ◌<◌, ◌≡◌, ◌↔◌, ap, subst, Bool, true, false, List, [], ◌∷◌, ◌++◌,
  arith, bit_or, if◌then◌else◌, length, drop, set, get_or, length-drop,
}
use ucsma_rate_control.Base.Bytes.{overlay, overlay-take-drop, overlay_next_front}

abbrev pub codes : String → List ℕ
codes String.[] = []
codes (String.◌∷◌ c s) = code c ∷ codes s

-- `u8aRadiotapHeader`, split at its flags byte.
abbrev before_flags : List ℕ
before_flags =
    0x00 ∷ 0x00 ∷ 0x19 ∷ 0x00 ∷ 0x6f ∷ 0x08 ∷ 0x00 ∷ 0x00 ∷ 0x00 ∷ 0x00 ∷ 0x00 ∷ 0x00 ∷ 0x00 ∷ 0x00
    ∷ 0x00 ∷ 0x00 ∷ []

abbrev after_flags : List ℕ
after_flags = 0x16 ∷ 0x8f ∷ 0x09 ∷ 0xa0 ∷ 0x00 ∷ 0x00 ∷ 0x00 ∷ 0x00 ∷ []

abbrev pub radiotap_header : List ℕ
radiotap_header = before_flags ++ 0x02 ∷ after_flags

-- `pu8[OFFSET_FLAGS] |= IEEE80211_RADIOTAP_F_FCS`
mark_fcs : List ℕ → List ℕ
mark_fcs buffer = set buffer 0x10 (bit_or (get_or buffer 0x10 0) 0x10)

-- What `sprintf` writes, with its terminator: the rate is 22 / 2 and the ordinal is 0, once.
abbrev pub message : List ℕ → List ℕ
message hostname =
    codes "Packetspammer 11broadcast packet#00000 -- :-D --" ++ hostname ++ codes " ----" ++ 0 ∷ []

-- The writes into the zeroed buffer, in order.
pub write_frame : (fcs : Bool) (ieee_header hostname buffer : List ℕ) → List ℕ
unfolding mark_fcs
write_frame fcs ieee_header hostname buffer =
    let headed = overlay 0 radiotap_header buffer in
    let flagged = if fcs then mark_fcs headed else headed in
    overlay 49 (message hostname) (overlay 25 ieee_header flagged)

-- `pu8` after the additions, less the start of the buffer: pointers and `u32` have 32 bits.
pub send_length : (frame_len : ℕ) (fcs : Bool) → ℕ
send_length frame_len fcs =
    let plain = (49 + (frame_len + 2 ^ 32 - 24 - 4)) % 2 ^ 32 in
    if fcs then (plain + 4) % 2 ^ 32 else plain

-- For a frame length below 2 ^ 32 - 25, the bytes sent are the radiotap header and the frame,
-- less four unless the FCS is marked; they stay within the buffer of 2500 bytes exactly up to a
-- frame length of 2479, or 2475.
pub send_length_lem :
    (frame_len : ℕ) (fcs : Bool)
    → frame_len + 25 < 2 ^ 32
    → (send_length frame_len fcs + 4 ≡ 25 + frame_len + (if fcs then 4 else 0))
      × ((send_length frame_len fcs ≤ 2500) ↔ (frame_len + (if fcs then 4 else 0) ≤ 2479))
unfolding send_length
send_length_lem frame_len fcs h = ground arith

-- The radiotap header as it is sent.
abbrev pub sent_radiotap : Bool → List ℕ
sent_radiotap fcs = before_flags ++ (if fcs then 0x12 else 0x02) ∷ after_flags

flagged_lem :
    (fcs : Bool) (buffer : List ℕ)
    → 25 ≤ length buffer
    → (if fcs
        then mark_fcs (overlay 0 radiotap_header buffer)
        else overlay 0 radiotap_header buffer)
      ≡ sent_radiotap fcs ++ drop 25 buffer
unfolding mark_fcs
flagged_lem true buffer h = rw (overlay-take-drop 0 radiotap_header buffer h)
flagged_lem false buffer h = rw (overlay-take-drop 0 radiotap_header buffer h)

two_behind :
    (header msg rest : List ℕ)
    → length header ≡ 24
    → 24 + length msg ≤ length rest
    → overlay 24 msg (overlay 0 header rest) ≡ header ++ msg ++ drop (24 + length msg) rest
two_behind header msg rest len h =
    subst (λ n. overlay n msg (overlay 0 header rest) ≡ header ++ msg ++ drop (n + length msg) rest)
      len (overlay_next_front header msg rest (omega arith))

placed :
    (fcs : Bool) (header msg rest : List ℕ)
    → length header ≡ 24
    → 24 + length msg ≤ length rest
    → overlay 49 msg (overlay 25 header (sent_radiotap fcs ++ rest))
      ≡ sent_radiotap fcs ++ header ++ msg ++ drop (24 + length msg) rest
placed true header msg rest len h =
    ap (◌++◌ (sent_radiotap true)) (two_behind header msg rest len h)
placed false header msg rest len h =
    ap (◌++◌ (sent_radiotap false)) (two_behind header msg rest len h)

-- If the IEEE 802.11 header has 24 bytes and the message fits, the buffer holds the radiotap
-- header with its flags, that header and the message, one behind the other, and behind them what
-- it held before.
pub write_frame-layout :
    (fcs : Bool) (ieee_header hostname buffer : List ℕ)
    → length ieee_header ≡ 24
    → 49 + length (message hostname) ≤ length buffer
    → write_frame fcs ieee_header hostname buffer
      ≡ sent_radiotap fcs
        ++ ieee_header
        ++ message hostname
        ++ drop (24 + length (message hostname)) (drop 25 buffer)
unfolding write_frame
write_frame-layout fcs ieee_header hostname buffer len fits =
    rw (flagged_lem fcs buffer (omega arith)) (
      placed fcs ieee_header (message hostname) (drop 25 buffer) len
        (omega (arith, length-drop {0} 25 buffer)))
