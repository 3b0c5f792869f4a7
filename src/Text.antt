-- ===== src/Text.antt =====
-- The string functions of tools.c. A string is the list of its bytes, without the NUL that ends it.
pub mod Trim
pub mod Parse
pub mod Numbers
mod Tests
use makedumpfile.Prelude.{
  ℕ, zero, suc, ◌+◌, ◌-◌, ◌*◌, ◌/◌, ◌%◌, ◌^◌, Bool, true, false, ◌&&◌, ◌||◌, not, Option, none,
  some, List, [], ◌∷◌, ◌++◌, map, length, take, drop, get_or, ltb, leb, ◌==◌, if◌then◌else◌,
}
use mathlib.Core.List.{reverse}
use makedumpfile.File.{pwrite}

-- `whitespace`
unfoldable pub whitespace : ℕ → Bool
whitespace c = c == b' ' || c == b'\t'

-- `ascii`, of a character that is read as unsigned
unfoldable pub ascii : ℕ → Bool
ascii c = leb c 0x7f

-- The bytes without those at the front that pass the test.
unfoldable pub drop_while : (ℕ → Bool) → List ℕ → List ℕ
drop_while p [] = []
drop_while p (c ∷ s) = if p c then drop_while p s else c ∷ s

-- A loop that goes back from the last character and ends the string at each that passes the test.
unfoldable pub drop_while_end : (ℕ → Bool) → List ℕ → List ℕ
unfolding drop_while
drop_while_end p s = reverse (drop_while p (reverse s))

unfoldable pub strip_linefeeds : List ℕ → List ℕ
unfolding drop_while_end
strip_linefeeds line = drop_while_end (λ c. c == b'\n') line

unfoldable pub strip_ending_whitespace : List ℕ → List ℕ
unfolding drop_while_end whitespace
strip_ending_whitespace line = drop_while_end whitespace line

unfoldable pub strip_line_end : List ℕ → List ℕ
unfolding strip_linefeeds strip_ending_whitespace
strip_line_end line = strip_ending_whitespace (strip_linefeeds line)

-- The string at the start of a piece of memory.
unfoldable pub string_at : List ℕ → List ℕ
string_at [] = []
string_at (c ∷ memory) = if c == 0 then [] else c ∷ string_at memory

-- `memory` is what follows the terminating NUL. The number of bytes that are moved does not count
-- the NUL, and the new NUL is put one byte past the string.
unfoldable pub strip_beginning_whitespace : List ℕ → List ℕ → List ℕ
unfolding drop_while whitespace string_at
strip_beginning_whitespace line memory =
    let p = drop_while whitespace line in
    let len = length p in
    if length line == 0
    then line
    else string_at (pwrite (len + 1) (0 ∷ []) (pwrite 0 p (line ++ (0 ∷ memory))))

unfoldable pub clean_line : List ℕ → List ℕ → List ℕ
unfolding strip_beginning_whitespace strip_linefeeds strip_ending_whitespace
clean_line line memory =
    strip_ending_whitespace (strip_linefeeds (strip_beginning_whitespace line memory))

-- `*p = NULLCHAR` at the last character, if it is `c`
unfoldable pub strip_ending_char : List ℕ → ℕ → List ℕ
strip_ending_char [] c = []
strip_ending_char (x ∷ []) c = if x == c then [] else x ∷ []
strip_ending_char (x ∷ y ∷ line) c = x ∷ strip_ending_char (y ∷ line) c

unfoldable pub shift_string_left : List ℕ → ℕ → List ℕ
shift_string_left s cnt = if cnt == 0 then s else drop cnt s

unfoldable pub strip_beginning_char : List ℕ → ℕ → List ℕ
unfolding shift_string_left
strip_beginning_char [] c = []
strip_beginning_char (x ∷ line) c = if x == c then shift_string_left (x ∷ line) 1 else x ∷ line

-- The line up to the first character that passes a test.
unfoldable pub take_until : (ℕ → Bool) → List ℕ → List ℕ
take_until p [] = []
take_until p (c ∷ s) = if p c then [] else c ∷ take_until p s

unfoldable pub strip_comma : List ℕ → List ℕ
unfolding take_until
strip_comma line = take_until (λ c. c == b',') line

-- `STRNEQ (line, "0x")`
unfoldable pub starts_with : ℕ → ℕ → List ℕ → Bool
starts_with a b [] = false
starts_with a b (x ∷ []) = false
starts_with a b (x ∷ y ∷ s) = x == a && y == b

unfoldable pub strip_hex : List ℕ → List ℕ
unfolding starts_with shift_string_left
strip_hex line = if starts_with b'0' b'x' line then shift_string_left line 2 else line

abbrev pub between : ℕ → ℕ → ℕ → Bool
between lo hi c = leb lo c && leb c hi

-- `toupper`
abbrev pub toupper : ℕ → ℕ
toupper c = if between b'a' b'z' c then c - 32 else c

unfoldable pub upper_case : List ℕ → List ℕ
upper_case s = map toupper s

unfoldable pub first_nonspace : List ℕ → List ℕ
unfolding drop_while whitespace
first_nonspace s = drop_while whitespace s

unfoldable pub first_space : List ℕ → List ℕ
unfolding drop_while whitespace
first_space s = drop_while (λ c. not (whitespace c)) s

unfoldable pub null_first_space : List ℕ → List ℕ
unfolding take_until whitespace
null_first_space s = take_until whitespace s

-- The inner loop of `replace_string`: each character of `c` is compared with what stands in `s[i]`
-- by then.
unfoldable pub replace_char : ℕ → List ℕ → ℕ → ℕ
replace_char x [] r = x
replace_char x (y ∷ c) r = replace_char (if x == y then r else x) c r

unfoldable pub replace_string : List ℕ → List ℕ → ℕ → List ℕ
unfolding replace_char
replace_string s c r = map (λ x. replace_char x c r) s

-- The string from the first `%` on is moved by one, and a `%` put in its place.
unfoldable pub fixup_percent : List ℕ → List ℕ
fixup_percent [] = []
fixup_percent (x ∷ s) = if x == b'%' then b'%' ∷ x ∷ s else x ∷ fixup_percent s

-- `isprint`
abbrev pub isprint : ℕ → Bool
isprint c = between 32 126 c

unfoldable pub all_chars : (ℕ → Bool) → List ℕ → Bool
all_chars p [] = true
all_chars p (c ∷ s) = if not (p c) then false else all_chars p s

unfoldable pub ascii_string : List ℕ → Bool
unfolding all_chars ascii
ascii_string s = all_chars ascii s

unfoldable pub printable_string : List ℕ → Bool
unfolding all_chars
printable_string s = all_chars isprint s
