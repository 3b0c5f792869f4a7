-- ===== src/Text/Parse.antt =====
-- The number tests and conversions of tools.c.
use makedumpfile.Prelude.{
  ℕ, zero, suc, ◌+◌, ◌-◌, ◌*◌, ◌%◌, ◌^◌, Bool, false, ◌&&◌, ◌||◌, not, Option, none, some, List, [],
  ◌∷◌, length, drop, ltb, ◌==◌, if◌then◌else◌,
}
use makedumpfile.Text.{between, strip_line_end, starts_with}

-- What a `switch` on a character does: count it, pass over it, or give up.
pub data Kind : Type 0 where
  counted skipped bad : Kind

abbrev pub is_digit : ℕ → Bool
is_digit c = between b'0' b'9' c

abbrev pub is_hex_letter : ℕ → Bool
is_hex_letter c = between b'a' b'f' c || between b'A' b'F' c

abbrev pub is_x : ℕ → Bool
is_x c = c == b'x' || c == b'X'

-- `decimal`; the second argument is the rest of the string.
abbrev pub decimal_kind : ℕ → List ℕ → Kind
decimal_kind c rest = if is_digit c then counted else if c == b' ' then skipped else bad

-- A space at the end of the string is passed over, another one is not.
abbrev pub last_space : List ℕ → Kind
last_space [] = skipped
last_space (c ∷ rest) = bad

-- `hexadecimal`
abbrev pub hexadecimal_kind : ℕ → List ℕ → Kind
hexadecimal_kind c rest =
    if is_digit c || is_hex_letter c
    then counted
    else if is_x c
    then skipped
    else if c == b' '
    then last_space rest
    else bad

-- `hexadecimal_only` counts the characters that no decimal number has.
abbrev pub only_kind : ℕ → List ℕ → Kind
only_kind c rest =
    if is_hex_letter c || is_x c
    then counted
    else if is_digit c
    then skipped
    else if c == b' '
    then last_space rest
    else bad

-- The loop of the three: how many characters were counted, or `none` if it gave up. It stops after
-- `count` characters, unless `count` is 0.
unfoldable pub scan : (ℕ → List ℕ → Kind) → ℕ → ℕ → ℕ → List ℕ → Option ℕ
scan kind count cnt seen [] = some seen
scan kind count cnt seen (c ∷ s) =
    let seen' : ℕ = elim (kind c s) [ counted ↦ seen + 1 | skipped ↦ seen | bad ↦ seen ] in
    let rest = scan kind count (cnt - 1) seen' s in
    elim (kind c s) [
      | bad ↦ none
      | _ ↦ if not (count == 0) && cnt - 1 == 0 then some seen' else rest
    ]

abbrev pub prepared : List ℕ → ℕ → List ℕ
prepared s count = if count == 0 then strip_line_end s else s

abbrev pub at_least_one : Option ℕ → Bool
at_least_one none = false
at_least_one (some n) = not (n == 0)

unfoldable pub decimal : List ℕ → ℕ → Bool
unfolding scan
decimal s count = at_least_one (scan decimal_kind count count 0 (prepared s count))

unfoldable pub hexadecimal : List ℕ → ℕ → Bool
unfolding scan
hexadecimal s count = at_least_one (scan hexadecimal_kind count count 0 (prepared s count))

unfoldable pub hexadecimal_only : List ℕ → ℕ → ℕ
unfolding scan
hexadecimal_only s count = elim (scan only_kind count count 0 (prepared s count)) [
  | none ↦ 0
  | some n ↦ n
]

-- `BADADDR`
abbrev pub badaddr : ℕ
badaddr = 2 ^ 64 - 1

abbrev pub hex_digit : ℕ → ℕ
hex_digit c =
    if between b'a' b'f' c
    then c - b'a' + 10
    else if between b'A' b'F' c
    then c - b'A' + 10
    else c - b'0'

-- The loop of `htol`, in 64-bit arithmetic.
unfoldable pub htol_loop : ℕ → List ℕ → ℕ
htol_loop n [] = n
htol_loop n (c ∷ s) =
    let digit = htol_loop ((16 * n + hex_digit c) % 2 ^ 64) s in
    let next = htol_loop n s in
    if is_digit c || is_hex_letter c then digit else if is_x c || c == b'h' then next else badaddr

abbrev pub max_hexaddr_strlen : ℕ
max_hexaddr_strlen = 16

abbrev pub without_prefix : List ℕ → List ℕ
without_prefix s = if starts_with b'0' b'x' s || starts_with b'0' b'X' s then drop 2 s else s

-- `none` is a null pointer.
unfoldable pub htol : Option (List ℕ) → ℕ
unfolding htol_loop starts_with
htol none = badaddr
htol (some s) =
    let digits = without_prefix s in
    if ltb max_hexaddr_strlen (length digits) then badaddr else htol_loop 0 digits

-- By how many times ten bits the suffix shifts, 0 if there is none.
abbrev pub suffix : ℕ → ℕ
suffix c =
    if c == b'E' || c == b'e'
    then 6
    else if c == b'P' || c == b'p'
    then 5
    else if c == b'T' || c == b't'
    then 4
    else if c == b'G' || c == b'g'
    then 3
    else if c == b'M' || c == b'm'
    then 2
    else if c == b'K' || c == b'k'
    then 1
    else 0

-- `ret <<= 10`, so many times
unfoldable pub shift_tens : ℕ → ℕ → ℕ
shift_tens zero ret = ret
shift_tens (suc k) ret = shift_tens k (ret * 2 ^ 10 % 2 ^ 64)

-- `strtoull` gives the number at the start of the text and what follows it; the result is the
-- value and the text at `*retptr`.
unfoldable pub memparse : (List ℕ → ℕ × List ℕ) → List ℕ → ℕ × List ℕ
unfolding shift_tens
memparse strtoull ptr =
    let (ret, endptr) = strtoull ptr in
    let k : ℕ = elim endptr [ [] ↦ 0 | c ∷ rest ↦ suffix c ] in
    (shift_tens k ret, if k == 0 then endptr else drop 1 endptr)
