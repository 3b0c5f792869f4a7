-- ===== src/Text/Tests.antt =====
-- The string functions at concrete lines.
use makedumpfile.Prelude.{
  ◌*◌, ◌^◌, ℕ, ◌<◌, ◌≡◌, refl, ◌&&◌, not, none, some, List, [], ◌∷◌, ◌++◌, length, take, drop,
  arith, inr, ◌==◌, ◌↔◌,
}
use mathlib.Core.List.{reverse}
use makedumpfile.File.{pwrite, splice}
use makedumpfile.Text.{
  whitespace, drop_while, strip_ending_whitespace, string_at, strip_beginning_whitespace,
  starts_with, all_chars,
}
use makedumpfile.Text.Trim.{
  All, FirstFails, is_char, strip_ending_whitespace_split, strip_beginning_whitespace_stale,
}
use makedumpfile.Text.Parse.{htol, badaddr, decimal, is_digit, memparse, shift_tens}
use makedumpfile.Text.Numbers.{
  hex_value, is_digit_or_space, count_of, looked_at, htol-hex_value, htol-badaddr,
  decimal-all_chars,
}

-- `  ab`, and what `strip_beginning_whitespace` makes of it: `abb`
abbrev indented : List ℕ
indented = b' ' ∷ b' ' ∷ b'a' ∷ b'b' ∷ []

indented-run : strip_beginning_whitespace (b' ' ∷ b'a' ∷ b'b' ∷ []) [] ≡ b'a' ∷ b'b' ∷ b'b' ∷ []
unfolding strip_beginning_whitespace drop_while whitespace string_at pwrite splice
indented-run = refl

strip_beginning_whitespace_stale_example :
    let p = drop_while whitespace indented in
    (strip_beginning_whitespace indented [] ≡ p ++ take 1 (drop (length p) indented))
    × ((strip_beginning_whitespace indented [] ≡ p) ↔ (p ≡ indented))
unfolding is_char
strip_beginning_whitespace_stale_example =
    strip_beginning_whitespace_stale indented [] (refl, (refl, (refl, (refl, tt))))

strip_ending_whitespace_split_example :
    (tail : List ℕ) × (b'a' ∷ b' ' ∷ [] ≡ strip_ending_whitespace (b'a' ∷ b' ' ∷ []) ++ tail)
    × All whitespace tail
    × FirstFails whitespace (reverse (strip_ending_whitespace (b'a' ∷ b' ' ∷ [])))
strip_ending_whitespace_split_example = strip_ending_whitespace_split (b'a' ∷ b' ' ∷ [])

-- `ff1`
abbrev digits : List ℕ
digits = b'f' ∷ b'f' ∷ b'1' ∷ []

digits-run : hex_value digits ≡ 0xff1
unfolding hex_value
digits-run = refl

htol-hex_value_example :
    (htol (some digits) ≡ hex_value digits)
    × (htol (some (b'0' ∷ b'x' ∷ digits)) ≡ hex_value digits)
    × (hex_value digits < 16 ^ 3)
htol-hex_value_example = htol-hex_value digits (refl, (refl, (refl, tt))) (omega arith)

htol-badaddr_example : (htol none ≡ badaddr) × (htol (some (b'1' ∷ b'g' ∷ [])) ≡ badaddr)
unfolding starts_with
htol-badaddr_example = htol-badaddr (b'1' ∷ []) b'g' [] refl (inr refl)

decimal-all_chars_example : decimal (b'4' ∷ b'2' ∷ b'k' ∷ []) 2 ≡ (
    all_chars is_digit_or_space (looked_at (b'4' ∷ b'2' ∷ b'k' ∷ []) 2)
    && not (count_of is_digit (looked_at (b'4' ∷ b'2' ∷ b'k' ∷ []) 2) == 0))
decimal-all_chars_example = decimal-all_chars (b'4' ∷ b'2' ∷ b'k' ∷ []) 2

-- The suffix `M` stands for two shifts by ten.
memparse-run : memparse (λ s. (5, b'M' ∷ b'@' ∷ [])) [] ≡ (5 * 2 ^ 20, b'@' ∷ [])
unfolding memparse shift_tens
memparse-run = refl
