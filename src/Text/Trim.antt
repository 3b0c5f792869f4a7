-- ===== src/Text/Trim.antt =====
-- What the functions that trim a line leave of it.
use makedumpfile.Prelude.{
  length-drop, length-take, subst, append-nil, ◌↔◌, ℕ, zero, suc, ◌+◌, ◌≤◌, ◌≡◌, refl, ap, ◌∙◌, sym,
  Bool, true, false, not, List, [], ◌∷◌, ◌++◌, length, take, drop, ◌==◌, if◌then◌else◌, arith,
  append_assoc, Bool-cases, inl, inr, length-append,
}
use mathlib.Core.List.{reverse, reverse-append, reverse-reverse}
use makedumpfile.File.{splice, pwrite}
use makedumpfile.Text.{
  whitespace, drop_while, drop_while_end, strip_ending_whitespace, string_at,
  strip_beginning_whitespace,
}

abbrev pub All : (ℕ → Bool) → List ℕ → Type 0
All p [] = Unit {0}
All p (c ∷ s) = (p c ≡ true) × All p s

-- The string is empty or its first character fails the test.
abbrev pub FirstFails : (ℕ → Bool) → List ℕ → Type 0
FirstFails p [] = Unit {0}
FirstFails p (c ∷ s) = p c ≡ false

-- What is dropped at the front, and what stays.
drop_while_split :
    (p : ℕ → Bool) (s : List ℕ)
    → (front : List ℕ) × (s ≡ front ++ drop_while p s) × All p front × FirstFails p (drop_while p s)
unfolding drop_while
drop_while_split p [] = ([], refl, tt, tt)
drop_while_split p (c ∷ s) = elim (Bool-cases (p c)) [
  | inl pass ↦
      let r = drop_while_split p s in (c ∷ r.0, rw pass (ap (◌∷◌ c) r.1), (pass, r.2), rw pass r.3)
  | inr stop ↦ ([], rw stop refl, tt, rw stop stop)
]

All-append : (p : ℕ → Bool) (xs ys : List ℕ) → All p xs → All p ys → All p (xs ++ ys)
All-append p [] ys h k = k
All-append p (x ∷ xs) ys h k = (h.0, All-append p xs ys h.1 k)

reverse_cons : (x : ℕ) (xs : List ℕ) → reverse (x ∷ xs) ≡ reverse xs ++ (x ∷ [])
reverse_cons x xs = reverse-append (x ∷ []) xs

All-reverse : (p : ℕ → Bool) (xs : List ℕ) → All p xs → All p (reverse xs)
All-reverse p [] h = tt
All-reverse p (x ∷ xs) h =
    subst (All p) (sym (reverse_cons x xs))
      (All-append p (reverse xs) (x ∷ []) (All-reverse p xs h.1) (h.0, tt))

-- What is cut off at the end, and what stays.
drop_while_end_split :
    (p : ℕ → Bool) (s : List ℕ)
    → (tail : List ℕ) × (s ≡ drop_while_end p s ++ tail)
      × All p tail
      × FirstFails p (reverse (drop_while_end p s))
unfolding drop_while_end
drop_while_end_split p s =
    let r = drop_while_split p (reverse s) in
    (
      reverse r.0,
      sym (reverse-reverse s) ∙ ap reverse r.1 ∙ reverse-append r.0 (drop_while p (reverse s)),
      All-reverse p r.0 r.2,
      subst (FirstFails p) (sym (reverse-reverse (drop_while p (reverse s)))) r.3,
    )

-- The line is the result followed by blanks, and the result does not end in a blank.
pub strip_ending_whitespace_split :
    (line : List ℕ)
    → (tail : List ℕ) × (line ≡ strip_ending_whitespace line ++ tail)
      × All whitespace tail
      × FirstFails whitespace (reverse (strip_ending_whitespace line))
unfolding strip_ending_whitespace
strip_ending_whitespace_split line = drop_while_end_split whitespace line

-- A character that does not end a string.
unfoldable pub is_char : ℕ → Bool
is_char c = not (c == 0)

string_at-append : (xs rest : List ℕ) → All is_char xs → string_at (xs ++ (0 ∷ rest)) ≡ xs
unfolding string_at is_char
string_at-append [] rest h = refl
string_at-append (x ∷ xs) rest h = ground (arith, h, string_at-append xs rest h.1)

All-drop_while : (p q : ℕ → Bool) (s : List ℕ) → All p s → All p (drop_while q s)
unfolding drop_while
All-drop_while p q [] h = tt
All-drop_while p q (c ∷ s) h = elim (Bool-cases (q c)) [
  | inl pass ↦ rw pass (All-drop_while p q s h.1)
  | inr stop ↦ rw stop h
]

All-drop : (p : ℕ → Bool) (n : ℕ) (s : List ℕ) → All p s → All p (drop n s)
All-drop p zero s h = h
All-drop p (suc n) [] h = tt
All-drop p (suc n) (c ∷ s) h = All-drop p n s h.1

drop_append : (n : ℕ) (xs ys : List ℕ) → n ≤ length xs → drop n (xs ++ ys) ≡ drop n xs ++ ys
drop_append zero xs ys h = refl
drop_append (suc n) [] ys h = elim h [ ]
drop_append (suc n) (x ∷ xs) ys h = drop_append n xs ys (omega arith)

splice_past :
    (xs buf rest : List ℕ) (k : ℕ)
    → splice (length xs + k) buf (xs ++ rest) ≡ xs ++ splice k buf rest
unfolding splice
splice_past [] buf rest k = let e : 0 + k ≡ k = omega arith in ap (λ m. splice m buf rest) e
splice_past (x ∷ xs) buf rest k =
    let e : suc (length xs) + k ≡ suc (length xs + k) = omega arith in
    ap (λ m. splice m buf (x ∷ (xs ++ rest))) e ∙ ap (◌∷◌ x) (splice_past xs buf rest k)

pwrite_front : (xs file : List ℕ) → pwrite 0 xs file ≡ xs ++ drop (length xs) file
unfolding pwrite splice
pwrite_front [] file = refl
pwrite_front (x ∷ xs) file = refl

-- The string is ended one byte after what was moved to the front.
ended_late :
    (xs old memory : List ℕ)
    → All is_char xs
    → All is_char old
    → string_at (xs ++ splice 1 (0 ∷ []) (old ++ (0 ∷ memory))) ≡ xs ++ take 1 old
unfolding splice
ended_late xs [] memory h k = string_at-append xs (0 ∷ drop 1 memory) h ∙ sym (append-nil xs)
ended_late xs (c ∷ old) memory h k =
    let moved = xs ++ (c ∷ []) in
    ap string_at (sym (append_assoc xs (c ∷ []) (0 ∷ drop 1 (old ++ (0 ∷ memory)))))
    ∙ string_at-append moved (drop 1 (old ++ (0 ∷ memory)))
        (All-append is_char xs (c ∷ []) h (k.0, tt))

drop-length : (xs : List ℕ) → drop (length xs) xs ≡ []
drop-length [] = refl
drop-length (x ∷ xs) = drop-length xs

-- What is kept after the part that stays shows whether something stood before it.
nothing_kept :
    (front xs : List ℕ) {line : List ℕ}
    → line ≡ front ++ xs
    → ((xs ++ take 1 (drop (length xs) line) ≡ xs) ↔ (xs ≡ line))
nothing_kept [] xs {line} e = (
  λ k. sym e,
  λ k. ap (λ old. xs ++ take 1 old) (ap (drop (length xs)) e ∙ drop-length xs) ∙ append-nil xs,
)
nothing_kept (x ∷ front) xs {line} e =
    let longer : length line ≡ suc (length front + length xs) =
      ap length e ∙ ap suc (length-append front xs) in
    let held = length-drop (length xs) line in
    let taken = length-take {0} 1 (drop (length xs) line) in
    let total = length-append xs (take 1 (drop (length xs) line)) in
    (
      λ k. (let no : ⊥ = omega (arith, longer, held, taken, total, ap length k) in absurd no),
      λ k. (let no : ⊥ = omega (arith, longer, ap length k) in absurd no),
    )

strip_beginning_whitespace_lem :
    (line memory : List ℕ)
    → All is_char line
    → let p = drop_while whitespace line in
      strip_beginning_whitespace line memory ≡ p ++ take 1 (drop (length p) line)
unfolding strip_beginning_whitespace pwrite drop_while
strip_beginning_whitespace_lem [] memory h = refl
strip_beginning_whitespace_lem (c ∷ s) memory h =
    let line = c ∷ s in
    let p = drop_while whitespace line in
    let r = drop_while_split whitespace line in
    let short : length p ≤ length line = omega (arith, ap length r.1, length-append r.0 p) in
    let old = drop (length p) line in
    let moved : pwrite 0 p (line ++ (0 ∷ memory)) ≡ p ++ (old ++ (0 ∷ memory)) =
      pwrite_front p (line ++ (0 ∷ memory))
      ∙ ap (λ t. p ++ t) (drop_append (length p) line (0 ∷ memory) short) in
    let long : (suc (length s) == 0) ≡ false = ground arith in
    ap
      (λ b.
        if b
        then line
        else string_at (splice (length p + 1) (0 ∷ []) (pwrite 0 p (line ++ (0 ∷ memory)))))
      long
    ∙ ap (λ m. string_at (splice (length p + 1) (0 ∷ []) m)) moved
    ∙ ap string_at (splice_past p (0 ∷ []) (old ++ (0 ∷ memory)) 1)
    ∙ ended_late p old memory (All-drop_while is_char whitespace line h)
        (All-drop is_char (length p) line h)

-- Of a string that starts with blanks, the blanks are dropped, but the character that stood in the
-- place where the result should end is kept after it, whatever follows the string in memory. The
-- result is the string without its leading blanks only if there were none.
pub strip_beginning_whitespace_stale :
    (line memory : List ℕ)
    → All is_char line
    → let p = drop_while whitespace line in
      (strip_beginning_whitespace line memory ≡ p ++ take 1 (drop (length p) line))
      × ((strip_beginning_whitespace line memory ≡ p) ↔ (p ≡ line))
strip_beginning_whitespace_stale line memory h =
    let p = drop_while whitespace line in
    let r = drop_while_split whitespace line in
    let e = strip_beginning_whitespace_lem line memory h in
    (e, subst (λ s. (s ≡ p) ↔ (p ≡ line)) (sym e) (nothing_kept r.0 p r.1))
