-- ===== src/Spammer/Mac.antt =====
-- packetspammer/packetspammer.c: the two options that take a hardware address.
use ucsma_rate_control.Base.{
  ℕ, zero, suc, ◌+◌, ◌-◌, ◌*◌, ◌/◌, ◌%◌, ◌≤◌, ◌<◌, ◌≡◌, ◌⊎◌, refl, Bool, true, ◌&&◌, Option, none,
  some, List, [], ◌∷◌, ◌++◌, arith, leb, ltb, ◌==◌, ==_iff, if◌then◌else◌, get_elem?, length,
}
use ucsma_rate_control.Base.Table.{table, table_entry}

abbrev u8 : ℕ → ℕ
u8 n = n % 256

is_digit : ℕ → Bool
is_digit c = leb c b'9' && leb b'0' c

-- `tmp = optarg[pos] - '0'`, or else `- 'a' + 10`, kept in a u8. `c` is the byte as an unsigned char;
-- a signed char differs by 256, which the u8 forgets.
high_digit : ℕ → ℕ
unfolding is_digit
high_digit c = if is_digit c then u8 (c + 256 - b'0') else u8 (c + 256 - b'a' + 10)

-- `tmp = tmp * 16 + optarg[pos + 1] - '0'`, and so on.
pub octet : (c d : ℕ) → ℕ
unfolding high_digit is_digit
octet c d =
    if is_digit d
    then u8 (high_digit c * 16 + d + 256 - b'0')
    else u8 (high_digit c * 16 + d + 256 - b'a' + 10)

-- `optarg[pos]`: `none` is a read beyond the terminator.
byte_at : List ℕ → ℕ → Option ℕ
byte_at optarg pos = get_elem? (optarg ++ 0 ∷ []) pos

abbrev octet_of : Option ℕ → Option ℕ → Option ℕ
octet_of none d = none
octet_of (some c) none = none
octet_of (some c) (some d) = some (octet c d)

abbrev push_octet : Option ℕ → Option (List ℕ) → Option (List ℕ)
push_octet none rest = none
push_octet (some b) none = none
push_octet (some b) (some rest) = some (b ∷ rest)

-- Rounds `i` to 5 of the loop.
mac_from : (rounds i : ℕ) → List ℕ → Option (List ℕ)
mac_from zero i optarg = some []
mac_from (suc rounds) i optarg =
    push_octet (octet_of (byte_at optarg (i * 3)) (byte_at optarg (i * 3 + 1)))
      (mac_from rounds (i + 1) optarg)

pub parse_mac : List ℕ → Option (List ℕ)
unfolding mac_from byte_at
parse_mac optarg = mac_from 6 0 optarg

length-push_octet :
    (b : Option ℕ) (rest : Option (List ℕ)) (n : ℕ) (mac : List ℕ)
    → ((m : List ℕ) → rest ≡ some m → length m ≡ n)
    → push_octet b rest ≡ some mac
    → length mac ≡ suc n
length-push_octet none rest n mac h e = ground (arith, e)
length-push_octet (some b) none n mac h e = ground (arith, e)
length-push_octet (some b) (some rest) n mac h e = ground (arith, e, h rest refl)

length-mac_from :
    (rounds i : ℕ) (optarg mac : List ℕ) → mac_from rounds i optarg ≡ some mac → length mac ≡ rounds
unfolding mac_from
length-mac_from zero i optarg mac e = ground (arith, e)
length-mac_from (suc rounds) i optarg mac e =
    length-push_octet _ (mac_from rounds (i + 1) optarg) rounds mac
      (length-mac_from rounds (i + 1) optarg) e

-- An address that is read has six bytes.
pub length-parse_mac : (optarg mac : List ℕ) → parse_mac optarg ≡ some mac → length mac ≡ 6
unfolding parse_mac
length-parse_mac optarg mac e = length-mac_from 6 0 optarg mac e

-- An address in the usual notation: two lower-case digits for each byte, with colons between.
abbrev hex_digit : ℕ → ℕ
hex_digit n = if ltb n 10 then n + b'0' else n - 10 + b'a'

abbrev pub hex_byte : ℕ → List ℕ
hex_byte n = hex_digit (n / 16) ∷ hex_digit (n % 16) ∷ []

abbrev pub print_mac : (a b c d e f : ℕ) → List ℕ
print_mac a b c d e f =
    hex_byte a
    ++ b':' ∷ hex_byte b
    ++ b':' ∷ hex_byte c
    ++ b':' ∷ hex_byte d
    ++ b':' ∷ hex_byte e
    ++ b':' ∷ hex_byte f

octets_checked : table (λ n. octet (hex_digit (n / 16)) (hex_digit (n % 16)) == n) 256 ≡ true
unfolding table octet
octets_checked = refl

octet-hex_byte : (n : ℕ) → n < 256 → octet (hex_digit (n / 16)) (hex_digit (n % 16)) ≡ n
octet-hex_byte n h = (==_iff _ n).0 (table_entry _ n 256 h octets_checked)

-- A hardware address of six bytes, printed in the usual notation with lower-case digits, is read
-- back by the options that take one.
pub parse_mac-print_mac :
    (a b c d e f : ℕ)
    → a < 256
    → b < 256
    → c < 256
    → d < 256
    → e < 256
    → f < 256
    → parse_mac (print_mac a b c d e f) ≡ some (a ∷ b ∷ c ∷ d ∷ e ∷ f ∷ [])
unfolding parse_mac
parse_mac-print_mac a b c d e f ha hb hc hd he hf = rw (
  octet-hex_byte a ha,
  octet-hex_byte b hb,
  octet-hex_byte c hc,
  octet-hex_byte d hd,
  octet-hex_byte e he,
  octet-hex_byte f hf,
)

-- The value of a hexadecimal digit, in either case.
abbrev pub IsHex : ℕ → ℕ → Type 0
IsHex c x =
    ((b'0' ≤ c) × (c ≤ b'9') × (c ≡ x + b'0'))
    ⊎ (((b'a' ≤ c) × (c ≤ b'f') × (c + 10 ≡ x + b'a'))
        ⊎ ((b'A' ≤ c) × (c ≤ b'F') × (c + 10 ≡ x + b'A')))

-- Two hexadecimal digits are read as their number unless the second is an upper-case letter,
-- which is read 32 too low, modulo 256.
pub octet_value :
    (c d x y : ℕ)
    → IsHex c x
    → IsHex d y
    → octet c d ≡ (if leb b'A' d && leb d b'F' then (x * 16 + y + 224) % 256 else x * 16 + y)
unfolding octet
octet_value c d x y hc hd = ground arith
