-- ===== src/Spammer/Options/Header.antt =====
-- packetspammer/packetspammer.c: what the command line makes of the IEEE 802.11 header.
use ucsma_rate_control.Base.{
  ℕ, ◌+◌, ◌≤◌, ◌≡◌, ap, ◌∙◌, sym, subst, true, none, some, List, [], ◌∷◌, ◌++◌, arith, ◌==◌, leb,
  if◌then◌else◌, length, inl, inr, Option-cases, length-append,
}
use ucsma_rate_control.Base.Int.{ℤ}
use ucsma_rate_control.Base.Bytes.{overlay, length-overlay, overlay_skip, overlay_front}
use ucsma_rate_control.Spammer.Mac.{parse_mac, length-parse_mac}
use ucsma_rate_control.Spammer.Options.{
  Options, Switch, long_fcs, long_help, letter, Parsed, proceed, usage_exit, overread, overrun,
  copy_then, set_source, set_destination, take_switch, next_switches, take_switches,
}

-- A switch that the program goes on after; an address must be long enough to be read.
pub data Usable : Switch → Type 0 where
  fcs : Usable long_fcs
  help : Usable long_help
  delay : (text : List ℕ) → Usable (letter b'd' text)
  frame_len : (text : List ℕ) → Usable (letter b'l' text)
  with_fcs : (text : List ℕ) → Usable (letter b'f' text)
  count : (text : List ℕ) → Usable (letter b'c' text)
  interval : (text : List ℕ) → Usable (letter b'i' text)
  source_given :
      (text : List ℕ) (mac : List ℕ) → parse_mac text ≡ some mac → Usable (letter b's' text)
  target_given :
      (text : List ℕ) (mac : List ℕ) → parse_mac text ≡ some mac → Usable (letter b't' text)

abbrev pub AllUsable : List Switch → Type 0
AllUsable [] = Unit
AllUsable (w ∷ ws) = Usable w × AllUsable ws

-- The address that the option `c` gives, where the switch is that option.
abbrev given : (c : ℕ) → Switch → List ℕ → List ℕ
given c long_fcs old = old
given c long_help old = old
given c (letter c' text) old =
    if c' == c then elim (parse_mac text) [ none ↦ old | some mac ↦ mac ] else old

-- The address of the last option `c`, and `old` where there is none.
abbrev pub last_given : (c : ℕ) → List Switch → List ℕ → List ℕ
last_given c [] old = old
last_given c (w ∷ ws) old = last_given c ws (given c w old)

-- The header: the bytes before the addresses, the destination, the source twice, and the bytes after.
abbrev pub lay_out : (front target source back : List ℕ) → List ℕ
lay_out front target source back = front ++ (target ++ (source ++ (source ++ back)))

-- The loop goes on, and the header is `bytes`.
abbrev pub GoesOn : List ℕ → Parsed → Type 0
GoesOn bytes (proceed o) = o.ieee_header ≡ bytes
GoesOn bytes usage_exit = ⊥
GoesOn bytes overread = ⊥
GoesOn bytes overrun = ⊥

copy_then-GoesOn :
    (at : ℕ) (bytes : List ℕ) (o : Options) (next : Options → Parsed) (left : List ℕ)
    → at + length bytes ≤ length o.ieee_header
    → GoesOn left (next (record o { ieee_header = overlay at bytes o.ieee_header }))
    → GoesOn left (copy_then at bytes o next)
copy_then-GoesOn at bytes o next left fits h =
    let e : leb (at + length bytes) (length o.ieee_header) ≡ true = ground arith in rw e h

module _ (front back : List ℕ) (target source : List ℕ) (four : length front ≡ 4)
    (six : length target ≡ 6) (six' : length source ≡ 6) where
  length-lay_out : 22 ≤ length (lay_out front target source back)
  length-lay_out = omega (
    arith,
    length-append front (target ++ (source ++ (source ++ back))),
    length-append target (source ++ (source ++ back)),
    length-append source (source ++ back),
    length-append source back,
  )

  target-lay_out :
      (mac : List ℕ)
      → length mac ≡ 6
      → overlay 4 mac (lay_out front target source back) ≡ lay_out front mac source back
  target-lay_out mac h =
      overlay_skip front 4 0 mac _ (omega arith)
      ∙ ap (◌++◌ front) (overlay_front mac target _ (h ∙ sym six))

  source-lay_out :
      (mac : List ℕ)
      → length mac ≡ 6
      → overlay 10 mac (overlay 16 mac (lay_out front target source back))
        ≡ lay_out front target mac back
  source-lay_out mac h =
      ap (overlay 10 mac) (
        overlay_skip front 16 12 mac _ (omega arith)
        ∙ ap (◌++◌ front) (
            overlay_skip target 12 6 mac _ (omega arith)
            ∙ ap (◌++◌ target) (
                overlay_skip source 6 0 mac _ (omega arith)
                ∙ ap (◌++◌ source) (overlay_front mac source back (h ∙ sym six')))))
      ∙ overlay_skip front 10 6 mac _ (omega arith)
      ∙ ap (◌++◌ front) (
          overlay_skip target 6 0 mac _ (omega arith)
          ∙ ap (◌++◌ target) (overlay_front mac source _ (h ∙ sym six')))

  source-GoesOn :
      (mac : List ℕ) (o : Options)
      → length mac ≡ 6
      → o.ieee_header ≡ lay_out front target source back
      → GoesOn (lay_out front target mac back) (set_source (some mac) o)
  unfolding set_source
  source-GoesOn mac o h e =
      let room : 22 ≤ length o.ieee_header = subst (λ l. 22 ≤ length l) (sym e) length-lay_out in
      copy_then-GoesOn 16 mac o (λ o'. copy_then 10 mac o' proceed) _ (omega (arith, h, room))
        (copy_then-GoesOn 10 mac (record o { ieee_header = overlay 16 mac o.ieee_header }) proceed _
          (omega (arith, h, room, length-overlay 16 mac o.ieee_header))
          (ap (λ l. overlay 10 mac (overlay 16 mac l)) e ∙ source-lay_out mac h))

  target-GoesOn :
      (mac : List ℕ) (o : Options)
      → length mac ≡ 6
      → o.ieee_header ≡ lay_out front target source back
      → GoesOn (lay_out front mac source back) (set_destination (some mac) o)
  unfolding set_destination
  target-GoesOn mac o h e =
      let room : 22 ≤ length o.ieee_header = subst (λ l. 22 ≤ length l) (sym e) length-lay_out in
      copy_then-GoesOn 4 mac o proceed _ (omega (arith, h, room))
        (ap (overlay 4 mac) e ∙ target-lay_out mac h)

  take_switch-GoesOn :
      (atoi : List ℕ → ℤ) (w : Switch) (o : Options)
      → Usable w
      → o.ieee_header ≡ lay_out front target source back
      → GoesOn
          (lay_out front (given b't' w target) (given b's' w source) back)
          (take_switch atoi w o)
  unfolding take_switch
  take_switch-GoesOn atoi long_fcs o fcs e = e
  take_switch-GoesOn atoi long_help o help e = e
  take_switch-GoesOn atoi _ o (delay text) e = e
  take_switch-GoesOn atoi _ o (frame_len text) e = e
  take_switch-GoesOn atoi _ o (with_fcs text) e = e
  take_switch-GoesOn atoi _ o (count text) e = e
  take_switch-GoesOn atoi _ o (interval text) e = e
  take_switch-GoesOn atoi _ o (source_given text mac p) e =
      rw p (source-GoesOn mac o (length-parse_mac text mac p) e)
  take_switch-GoesOn atoi _ o (target_given text mac p) e =
      rw p (target-GoesOn mac o (length-parse_mac text mac p) e)

length-given : (c : ℕ) (w : Switch) (old : List ℕ) → length old ≡ 6 → length (given c w old) ≡ 6
length-given c long_fcs old h = h
length-given c long_help old h = h
length-given c (letter c' text) old h = elim (Option-cases (parse_mac text)) [
  | inl e ↦ rw e (ground arith)
  | inr (mac, e) ↦ rw e (ground (arith, length-parse_mac text mac e))
]

next-GoesOn :
    (atoi : List ℕ → ℤ) (bytes left : List ℕ) (rest : Options → Parsed) (r : Parsed)
    → GoesOn bytes r
    → ((o : Options) → o.ieee_header ≡ bytes → GoesOn left (rest o))
    → GoesOn left (next_switches atoi rest r)
next-GoesOn atoi bytes left rest (proceed o) h go = go o h
next-GoesOn atoi bytes left rest usage_exit h go = elim h [ ]
next-GoesOn atoi bytes left rest overread h go = elim h [ ]
next-GoesOn atoi bytes left rest overrun h go = elim h [ ]

-- Over any command line whose options are all known, without -h, and whose addresses are long
-- enough, the program goes on and writes nothing beyond the header, in which the destination is
-- the last one given and the source the last one given, twice, and the bytes before and after are
-- left.
pub take_switches-GoesOn :
    (atoi : List ℕ → ℤ) (ws : List Switch) (front back target source : List ℕ) (o : Options)
    → length front ≡ 4
    → length target ≡ 6
    → length source ≡ 6
    → AllUsable ws
    → o.ieee_header ≡ lay_out front target source back
    → GoesOn
        (lay_out front (last_given b't' ws target) (last_given b's' ws source) back)
        (take_switches atoi ws o)
unfolding take_switches
take_switches-GoesOn atoi [] front back target source o four six six' usable e = e
take_switches-GoesOn atoi (w ∷ ws) front back target source o four six six' (first, usable) e =
    next-GoesOn atoi _ _ (take_switches atoi ws) (take_switch atoi w o)
      (take_switch-GoesOn front back target source four six six' atoi w o first e)
      (λ o'.
        take_switches-GoesOn atoi ws front back (given b't' w target) (given b's' w source) o' four
          (length-given b't' w target six) (length-given b's' w source six') usable)
