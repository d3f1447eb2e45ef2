-- ===== src/Spammer/Dump.antt =====
-- packetspammer/packetspammer.c: `Dump`, the hexadecimal listing. A line of the listing is a value: the
-- digits and the characters that are printed for its bytes are left out.
use ucsma_rate_control.Base.{
  ℕ, zero, suc, ◌+◌, ◌≡◌, refl, sym, ap, ◌∙◌, inl, inr, Bool, true, false, not, Bool-cases, ◌&&◌,
  List, [], ◌∷◌, ◌++◌, arith, ◌==◌, if◌then◌else◌, length,
}
use mathlib.Core.List.{append_assoc, append-nil}

-- A whole line with its offset, the count of lines that repeated the last one, and the last line,
-- which may be short.
pub data Line : Type 0 where
  row : (start : ℕ) (bytes : List ℕ) → Line
  repeated : (times : ℕ) → Line
  tail : (start : ℕ) (bytes : List ℕ) → Line

-- `memcmp`
abbrev pub same_bytes : List ℕ → List ℕ → Bool
same_bytes [] [] = true
same_bytes [] (b ∷ bs) = false
same_bytes (a ∷ as') [] = false
same_bytes (a ∷ as') (b ∷ bs) = (a == b) && same_bytes as' bs

-- The function's variables: the bytes of the line so far, the last whole line, `nStart`, `nSameCount`
-- and `fFirst`, with `n` the bytes read.
pub record Dump : Type 0 where
  pub line : List ℕ
  pub last : List ℕ
  pub start : ℕ
  pub same_count : ℕ
  pub first : Bool
  pub n : ℕ

abbrev pub repeats : ℕ → List Line
repeats count = if count == 0 then [] else repeated count ∷ []

abbrev is_repeat : List ℕ → Dump → Bool
is_repeat line d = same_bytes line d.last && not d.first

-- The lines printed once a byte is read, and the variables after it.
unfoldable pub line_printed : (byte : ℕ) → Dump → List Line
line_printed byte d =
    let line = d.line ++ (byte ∷ []) in
    if not (length line == 16)
    then []
    else if is_repeat line d
    then []
    else repeats d.same_count ++ (row d.start line ∷ [])

unfoldable pub after_byte : (byte : ℕ) → Dump → Dump
after_byte byte d =
    let line = d.line ++ (byte ∷ []) in
    if not (length line == 16) then record d { line = line; n = d.n + 1 } else record {
      line = [];
      last = line;
      start = d.n + 1;
      same_count = if is_repeat line d then d.same_count + 1 else 0;
      first = false;
      n = d.n + 1;
    }

unfoldable pub dump_from : List ℕ → Dump → List Line
unfolding line_printed after_byte
dump_from [] d = repeats d.same_count ++ (tail d.start d.line ∷ [])
dump_from (b ∷ bytes) d = line_printed b d ++ dump_from bytes (after_byte b d)

unfoldable pub dump : List ℕ → List Line
unfolding dump_from
dump bytes =
    dump_from bytes
      (record { line = []; last = []; start = 0; same_count = 0; first = true; n = 0 })

-- The bytes that a listing stands for, from the last whole line on.
abbrev pub times : ℕ → List ℕ → List ℕ
times zero bytes = []
times (suc n) bytes = bytes ++ times n bytes

abbrev pub expand : (last : List ℕ) → List Line → List ℕ
expand last [] = []
expand last (row start bytes ∷ lines) = bytes ++ expand bytes lines
expand last (repeated n ∷ lines) = times n last ++ expand last lines
expand last (tail start bytes ∷ lines) = bytes ++ expand last lines

same_bytes-eq : (as' bs : List ℕ) → same_bytes as' bs ≡ true → as' ≡ bs
same_bytes-eq [] [] same = refl
same_bytes-eq [] (b ∷ bs) same = absurd (cc)
same_bytes-eq (a ∷ as') [] same = absurd (cc)
same_bytes-eq (a ∷ as') (b ∷ bs) same = ground (arith, same_bytes-eq as' bs, same)

expand-repeats :
    (n : ℕ) (last : List ℕ) (lines : List Line)
    → expand last (repeats n ++ lines) ≡ times n last ++ expand last lines
expand-repeats zero last lines = refl
expand-repeats (suc n) last lines = let used : (suc n == 0) ≡ false = ground arith in rw used refl

times_more : (n : ℕ) (bytes : List ℕ) → times (suc n) bytes ≡ times n bytes ++ bytes
times_more zero bytes = append-nil bytes
times_more (suc n) bytes =
    ap (λ rest. bytes ++ rest) (times_more n bytes) ∙ sym (append_assoc bytes (times n bytes) bytes)

-- What is to come after the variables: the repeated lines that are still to be told, the line so far,
-- and the bytes.
abbrev to_come : Dump → List ℕ → List ℕ
to_come d bytes = times d.same_count d.last ++ (d.line ++ bytes)

module _ (b : ℕ) (bytes : List ℕ) (d : Dump)
    (rest : (d' : Dump) → expand d'.last (dump_from bytes d') ≡ to_come d' bytes) where
  abbrev line_now : List ℕ
  line_now = d.line ++ (b ∷ [])

  abbrev whole_line : ℕ → Dump
  whole_line count = record {
    line = [];
    last = line_now;
    start = d.n + 1;
    same_count = count;
    first = false;
    n = d.n + 1;
  }

  next_pending : times d.same_count d.last ++ (line_now ++ bytes) ≡ to_come d (b ∷ bytes)
  next_pending = ap (λ bs. times d.same_count d.last ++ bs) (append_assoc d.line (b ∷ []) bytes)

  expand_short :
      (length line_now == 16) ≡ false
      → expand d.last (line_printed b d ++ dump_from bytes (after_byte b d)) ≡ to_come d (b ∷ bytes)
  unfolding line_printed after_byte
  expand_short short = rw short (rest (record d { line = line_now; n = d.n + 1 }) ∙ next_pending)

  expand_repeat :
      (length line_now == 16) ≡ true
      → is_repeat line_now d ≡ true
      → expand d.last (line_printed b d ++ dump_from bytes (after_byte b d)) ≡ to_come d (b ∷ bytes)
  unfolding line_printed after_byte
  expand_repeat full again =
      let e : line_now ≡ d.last = same_bytes-eq line_now d.last (ground (arith, again)) in
      let one : d.same_count + 1 ≡ suc d.same_count = omega arith in
      let d' = whole_line (d.same_count + 1) in
      rw (full, again)
        (ap (λ l. expand l (dump_from bytes d')) (sym e)
          ∙ rest d'
          ∙ ap (λ k. times k line_now ++ bytes) one
          ∙ ap (λ bs. bs ++ bytes) (times_more d.same_count line_now)
          ∙ append_assoc (times d.same_count line_now) line_now bytes
          ∙ ap (λ l. times d.same_count l ++ (line_now ++ bytes)) e
          ∙ next_pending)

  expand_row :
      (length line_now == 16) ≡ true
      → is_repeat line_now d ≡ false
      → expand d.last (line_printed b d ++ dump_from bytes (after_byte b d)) ≡ to_come d (b ∷ bytes)
  unfolding line_printed after_byte
  expand_row full other =
      let d' = whole_line 0 in
      rw (full, other)
        (ap (λ lines. expand d.last lines)
            (append_assoc (repeats d.same_count) (row d.start line_now ∷ []) (dump_from bytes d'))
          ∙ expand-repeats d.same_count d.last (row d.start line_now ∷ dump_from bytes d')
          ∙ ap (λ bs. times d.same_count d.last ++ (line_now ++ bs)) (rest d')
          ∙ next_pending)

-- The listing from the variables on stands for what is to_come.
dump_from-expand : (bytes : List ℕ) (d : Dump) → expand d.last (dump_from bytes d) ≡ to_come d bytes
unfolding dump_from
dump_from-expand [] d = expand-repeats d.same_count d.last (tail d.start d.line ∷ [])
dump_from-expand (b ∷ bytes) d =
    let rest = dump_from-expand bytes in
    let line = d.line ++ (b ∷ []) in
    elim (Bool-cases (length line == 16)) [
      | inr short ↦ expand_short b bytes d rest short
      | inl full ↦ elim (Bool-cases (is_repeat line d)) [
        | inl again ↦ expand_repeat b bytes d rest full again
        | inr other ↦ expand_row b bytes d rest full other
      ]
    ]

-- The hexadecimal listing tells every byte: its lines, with the repeated ones as often as it
-- says, are the bytes that were listed.
pub dump-expand : (bytes : List ℕ) → expand [] (dump bytes) ≡ bytes
unfolding dump
dump-expand bytes = dump_from-expand bytes _
