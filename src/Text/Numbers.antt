-- ===== src/Text/Numbers.antt =====
-- What the number tests and conversions of tools.c accept and give.
use makedumpfile.Prelude.{
  ℕ, zero, suc, ◌+◌, ◌-◌, ◌*◌, ◌^◌, ◌%◌, ◌≤◌, ◌<◌, ◌≡◌, refl, ap, ◌∙◌, Bool, true, false, ◌&&◌,
  ◌||◌, not, none, some, List, [], ◌∷◌, ◌++◌, length, take, ◌==◌, if◌then◌else◌, arith, Bool-cases,
  inl, inr, ◌⊎◌,
}
use native.Mathlib.Nat.{pow-suc, pow-le-pow_right}
use makedumpfile.Text.{strip_line_end, starts_with, all_chars}
use makedumpfile.Text.Trim.{All}
use makedumpfile.Text.Parse.{
  Kind, counted, skipped, bad, is_digit, is_hex_letter, is_x, decimal_kind, scan, decimal,
  hex_digit, htol_loop, htol, badaddr,
}

abbrev pub is_hex : ℕ → Bool
is_hex c = is_digit c || is_hex_letter c

-- The number that a string of hexadecimal digits stands for.
unfoldable pub hex_value : List ℕ → ℕ
hex_value [] = 0
hex_value (c ∷ s) = hex_digit c * 16 ^ length s + hex_value s

hex_digit-lt : (c : ℕ) → is_hex c ≡ true → hex_digit c < 16
hex_digit-lt c h = ground arith

-- One more digit.
next_digit :
    (n d k r : ℕ)
    → n < 16 ^ k
    → d < 16
    → k + suc r ≤ 16
    → ((16 * n + d) % 2 ^ 64 ≡ 16 * n + d) × (16 * n + d < 16 ^ (suc k))
next_digit n d k r hn hd hk =
    let up = pow-suc 16 k in
    let room : suc k ≤ 16 = omega arith in
    let top : 16 ^ suc k ≤ 16 ^ 16 = pow-le-pow_right (omega arith) room in omega (arith, up, top)

regroup : (n d p v q : ℕ) → q ≡ p * 16 → (16 * n + d) * p + v ≡ n * q + (d * p + v)
regroup n d p v q e = rw e (grind arith)

zero_part : (p v : ℕ) → 0 * p + v ≡ v
zero_part p v = omega arith

below : (d p v q : ℕ) → q ≡ p * 16 → d < 16 → v < p → d * p + v < q
below d p v q e h k = grind arith

htol_loop-value :
    (n k : ℕ) (s : List ℕ)
    → All is_hex s
    → n < 16 ^ k
    → k + length s ≤ 16
    → htol_loop n s ≡ n * 16 ^ length s + hex_value s
unfolding htol_loop hex_value
htol_loop-value n k [] h hn hk = omega arith
htol_loop-value n k (c ∷ s) h hn hk =
    let small = next_digit n (hex_digit c) k (length s) hn (hex_digit-lt c h.0) hk in
    rw (h.0) (
      ap (λ m. htol_loop m s) small.0
      ∙ htol_loop-value (16 * n + hex_digit c) (suc k) s h.1 small.1 (omega arith)
      ∙ regroup n (hex_digit c) (16 ^ length s) (hex_value s) (16 ^ suc (length s))
          (pow-suc 16 (length s)))

hex_value-lt : (s : List ℕ) → All is_hex s → hex_value s < 16 ^ length s
unfolding hex_value
hex_value-lt [] h = omega arith
hex_value-lt (c ∷ s) h =
    below (hex_digit c) (16 ^ length s) (hex_value s) (16 ^ suc (length s)) (pow-suc 16 (length s))
      (hex_digit-lt c h.0) (hex_value-lt s h.1)

no_prefix :
    (s : List ℕ) → All is_hex s → (starts_with b'0' b'x' s || starts_with b'0' b'X' s) ≡ false
unfolding starts_with
no_prefix [] h = refl
no_prefix (a ∷ []) h = refl
no_prefix (a ∷ b ∷ s) h = ground (arith, h)

-- A string of at most sixteen hexadecimal digits, with or without a prefix `0x`, is read as the
-- number that it stands for, which fits: nothing is lost in 64 bits.
pub htol-hex_value :
    (s : List ℕ)
    → All is_hex s
    → length s ≤ 16
    → (htol (some s) ≡ hex_value s)
      × (htol (some (b'0' ∷ b'x' ∷ s)) ≡ hex_value s)
      × (hex_value s < 16 ^ length s)
unfolding htol starts_with
htol-hex_value s h k =
    let loop : htol_loop 0 s ≡ hex_value s =
      htol_loop-value 0 0 s h (omega arith) (omega arith)
      ∙ zero_part (16 ^ length s) (hex_value s) in
    (ground (arith, no_prefix s h, loop), ground (arith, loop), hex_value-lt s h)

abbrev pub is_bad : ℕ → Bool
is_bad c = not (is_hex c) && not (is_x c || c == b'h')

htol_loop-bad :
    (n : ℕ) (before : List ℕ) (c : ℕ) (after : List ℕ)
    → is_bad c ≡ true
    → htol_loop n (before ++ (c ∷ after)) ≡ badaddr
unfolding htol_loop
htol_loop-bad n [] c after h = ground arith
htol_loop-bad n (x ∷ before) c after h = ground (
  arith,
  htol_loop-bad n before c after h,
  htol_loop-bad ((16 * n + hex_digit x) % 2 ^ 64) before c after h,
)

-- A null pointer, and a string without a prefix `0x` that is longer than sixteen characters or has
-- one that is no hexadecimal digit, no `x` and no `h`, gives `BADADDR`.
pub htol-badaddr :
    (before : List ℕ) (c : ℕ) (after : List ℕ)
    → let s = before ++ (c ∷ after) in
      (starts_with b'0' b'x' s || starts_with b'0' b'X' s) ≡ false
      → (16 < length s) ⊎ (is_bad c ≡ true)
      → (htol none ≡ badaddr) × (htol (some s) ≡ badaddr)
unfolding htol
htol-badaddr before c after plain (inl long) = (refl, ground (arith, plain))
htol-badaddr before c after plain (inr h) =
    (refl, ground (arith, plain, htol_loop-bad 0 before c after h))

-- How many characters pass a test.
unfoldable pub count_of : (ℕ → Bool) → List ℕ → ℕ
count_of p [] = 0
count_of p (c ∷ s) = (if p c then 1 else 0) + count_of p s

abbrev pub is_digit_or_space : ℕ → Bool
is_digit_or_space c = is_digit c || c == b' '

-- The part of the string that `decimal` looks at.
abbrev pub looked_at : List ℕ → ℕ → List ℕ
looked_at s count = if count == 0 then strip_line_end s else take count s

-- What a kind says of the two tests: `ok` for what may stand in the string, `wanted` for what counts.
abbrev Agrees : Kind → Bool → Bool → Type 0
Agrees counted ok wanted = (ok ≡ true) × (wanted ≡ true)
Agrees skipped ok wanted = (ok ≡ true) × (wanted ≡ false)
Agrees bad ok wanted = ok ≡ false

Kind-cases : (k : Kind) → (k ≡ counted) ⊎ (k ≡ skipped) ⊎ (k ≡ bad)
Kind-cases counted = inl refl
Kind-cases skipped = inr (inl refl)
Kind-cases bad = inr (inr refl)

module _ (kind : ℕ → List ℕ → Kind) (ok wanted : ℕ → Bool)
    (agrees : (c : ℕ) (s : List ℕ) → Agrees (kind c s) (ok c) (wanted c)) where
  scan-all :
      (cnt seen : ℕ) (s : List ℕ)
      → scan kind 0 cnt seen s ≡ (if all_chars ok s then some (seen + count_of wanted s) else none)
  unfolding scan all_chars count_of
  scan-all cnt seen [] = ground arith
  scan-all cnt seen (c ∷ s) = elim (Kind-cases (kind c s)) [
    | inl e ↦ ground (arith, e, agrees c s, scan-all (cnt - 1) (seen + 1) s)
    | inr (inl e) ↦ ground (arith, e, agrees c s, scan-all (cnt - 1) seen s)
    | inr (inr e) ↦ ground (arith, e, agrees c s)
  ]

  scan-take :
      (count cnt seen : ℕ) (s : List ℕ)
      → 0 < count
      → scan kind count (suc cnt) seen s ≡ (
          if all_chars ok (take (suc cnt) s)
          then some (seen + count_of wanted (take (suc cnt) s))
          else none)
  unfolding scan all_chars count_of
  scan-take count cnt seen [] pos = ground arith
  scan-take count zero seen (c ∷ s) pos = elim (Kind-cases (kind c s)) [
    | inl e ↦ ground (arith, e, agrees c s)
    | inr (inl e) ↦ ground (arith, e, agrees c s)
    | inr (inr e) ↦ ground (arith, e, agrees c s)
  ]
  scan-take count (suc cnt) seen (c ∷ s) pos = elim (Kind-cases (kind c s)) [
    | inl e ↦ ground (arith, e, agrees c s, scan-take count cnt (seen + 1) s)
    | inr (inl e) ↦ ground (arith, e, agrees c s, scan-take count cnt seen s)
    | inr (inr e) ↦ ground (arith, e, agrees c s)
  ]

decimal_kind-Agrees :
    (c : ℕ) (s : List ℕ) → Agrees (decimal_kind c s) (is_digit_or_space c) (is_digit c)
decimal_kind-Agrees c s = elim (Bool-cases (is_digit c)) [
  | inl d ↦ rw d (refl, refl)
  | inr d ↦ rw d (elim (Bool-cases (c == b' ')) [ inl b ↦ rw b (refl, refl) | inr b ↦ rw b refl ])
]

-- With a count, the first `count` characters are looked at, and without one the whole line less its
-- end; the answer is yes if each of them is a digit or a space and at least one is a digit.
pub decimal-all_chars :
    (s : List ℕ) (count : ℕ)
    → decimal s count ≡ (
        all_chars is_digit_or_space (looked_at s count)
        && not (count_of is_digit (looked_at s count) == 0))
unfolding decimal
decimal-all_chars s zero = ground (
  arith,
  scan-all decimal_kind is_digit_or_space is_digit decimal_kind-Agrees 0 0 (strip_line_end s),
)
decimal-all_chars s (suc count) = ground (
  arith,
  scan-take decimal_kind is_digit_or_space is_digit decimal_kind-Agrees (suc count) count 0 s
      (omega arith),
)
