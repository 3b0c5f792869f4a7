-- ===== src/Split/Table.antt =====
-- An entry of the table is wide enough for what is stored in it.
use makedumpfile.Prelude.{
  ℕ, zero, suc, ◌+◌, ◌*◌, ◌/◌, ◌^◌, ◌≤◌, ◌<◌, ◌≡◌, refl, ap, ◌∙◌, some, List, [], ◌∷◌, ◌++◌, length,
  take, drop, ltb, arith, Bool-cases, inl, inr,
}
use native.Mathlib.Nat.{pow-suc, one-le-pow, pow-le-pow_right}
use native.Mathlib.Numerals.{towards_suc}
use makedumpfile.File.{pwrite, splice}
use makedumpfile.Split.{
  count_bits_from, bytes_for, calculate_entry_size, entry_bytes, write_into_splitblock_table,
  value_of, read_from_splitblock_table,
}

value_of-entry_bytes :
    (size value : ℕ) → value < 256 ^ size → value_of (entry_bytes size value) ≡ value
unfolding value_of entry_bytes
value_of-entry_bytes zero value h = omega arith
value_of-entry_bytes (suc size) value h =
    let e : 256 ^ suc size ≡ 256 ^ size * 256 = pow-suc 256 size in
    let small : value / 256 < 256 ^ size = omega (arith, e) in
    omega (arith, value_of-entry_bytes size (value / 256) small)

length-entry_bytes : (size value : ℕ) → length (entry_bytes size value) ≡ size
unfolding entry_bytes
length-entry_bytes zero value = refl
length-entry_bytes (suc size) value = ap suc (length-entry_bytes size (value / 256))

take-length-append : (xs ys : List ℕ) → take (length xs) (xs ++ ys) ≡ xs
take-length-append [] ys = refl
take-length-append (x ∷ xs) ys = ap (◌∷◌ x) (take-length-append xs ys)

-- What is read at a place where bytes were written.
take-drop-splice :
    (pos : ℕ) (buf file : List ℕ) → take (length buf) (drop pos (splice pos buf file)) ≡ buf
unfolding splice
take-drop-splice zero buf file = take-length-append buf (drop (length buf) file)
take-drop-splice (suc pos) buf [] = take-drop-splice pos buf []
take-drop-splice (suc pos) buf (x ∷ file) = take-drop-splice pos buf file

read_back_exact :
    (pos : ℕ) (buf file : List ℕ) → take (length buf) (drop pos (pwrite pos buf file)) ≡ buf
unfolding pwrite
read_back_exact pos [] file = refl
read_back_exact pos (x ∷ buf) file = take-drop-splice pos (x ∷ buf) file

read_back :
    (pos n : ℕ) (buf file : List ℕ) → length buf ≡ n → take n (drop pos (pwrite pos buf file)) ≡ buf
unfolding pwrite
read_back pos n buf file e = rw (← e) (read_back_exact pos buf file)

double_pow : (m count : ℕ) → m * 2 ≡ 2 ^ count → m * 2 * 2 ≡ 2 ^ (count + 1)
double_pow m count e = simp towards_suc (omega (arith, pow-suc 2 count))

-- The count is such that `2 ^ (count - 1)` is at least the number of pages.
count_bits_from-le :
    (fuel pages entry_num count : ℕ) {n : ℕ}
    → entry_num * 2 ≡ 2 ^ count
    → count_bits_from fuel pages entry_num count ≡ some n
    → pages * 2 ≤ 2 ^ n
unfolding count_bits_from
count_bits_from-le zero pages entry_num count e h = ground arith
count_bits_from-le (suc fuel) pages entry_num count {n} e h =
    elim (Bool-cases (ltb entry_num pages)) [
      | inl more ↦
          count_bits_from-le fuel pages (entry_num * 2) (count + 1) (double_pow entry_num count e)
            (ground arith)
      | inr over ↦ ground arith
    ]

count_bits_from-total :
    (fuel pages entry_num count : ℕ)
    → 0 < entry_num
    → pages < entry_num + fuel
    → (n : ℕ) × (count_bits_from fuel pages entry_num count ≡ some n)
unfolding count_bits_from
count_bits_from-total zero pages entry_num count pos h = (count, ground arith)
count_bits_from-total (suc fuel) pages entry_num count pos h =
    elim (Bool-cases (ltb entry_num pages)) [
      | inl more ↦
          let r =
            count_bits_from-total fuel pages (entry_num * 2) (count + 1) (omega arith)
              (omega arith) in
          (r.0, ground (arith, r.1))
      | inr over ↦ (count, ground arith)
    ]

pow_256 : (k : ℕ) → 256 ^ k ≡ 2 ^ (8 * k)
pow_256 zero = refl
pow_256 (suc k) =
    let e : 8 * suc k ≡ 8 * k + 8 = omega arith in
    rw e (simp towards_suc (omega (arith, pow_256 k, pow-suc 256 k)))

bytes_for-le : (n : ℕ) → 2 ^ n ≤ 256 ^ bytes_for n
bytes_for-le n =
    let h : n ≤ 8 * bytes_for n = ground arith in rw pow_256 (pow-le-pow_right (omega arith) h)

-- With fuel for one round more than a block has pages, the size of an entry is found, and an entry of that size
-- gives back every number of pages that a block can hold.
pub read_from-write_into :
    (fuel pages value pos : ℕ) (table : List ℕ)
    → pages < fuel
    → value ≤ pages
    → (size : ℕ) × (calculate_entry_size fuel pages ≡ some size)
      × (read_from_splitblock_table size (write_into_splitblock_table size table pos value) pos
          ≡ value)
unfolding calculate_entry_size read_from_splitblock_table write_into_splitblock_table
read_from-write_into fuel pages value pos table enough h =
    let r = count_bits_from-total fuel pages 1 1 (omega arith) (omega arith) in
    let wide = count_bits_from-le fuel pages 1 1 refl r.1 in
    let size = bytes_for r.0 in
    let fit : value < 256 ^ size =
      omega (arith, wide, bytes_for-le r.0, one-le-pow r.0 2 (omega arith)) in
    (
      size,
      ground (arith, r.1),
      ap value_of
            (read_back pos size (entry_bytes size value) table (length-entry_bytes size value))
          ∙ value_of-entry_bytes size value fit,
    )
