-- ===== src/Vmcore/Bytes.antt =====
-- What the bytes of a page should be, by their addresses.
use makedumpfile.Prelude.{
  ℕ, zero, suc, ◌+◌, ◌-◌, ◌≤◌, ◌<◌, ◌≡◌, ◌⊎◌, refl, ◌∙◌, sym, subst, true, false, List, [], ◌∷◌,
  ◌++◌, length, length-append, length-replicate, get_or, replicate, ltb, if◌then◌else◌, arith,
  Bool-cases, inl, inr,
}
use makedumpfile.File.Laws.{get_or-append}
use makedumpfile.Segments.{PtLoadSegment, has_paddr}
use makedumpfile.Segments.Lookup.{All}
use makedumpfile.Segments.Closest.{Among, NoneWithin}

-- The byte of a segment at an address: the file's, or zero past the part that is in the file.
abbrev pub byte_of : List ℕ → PtLoadSegment → ℕ → ℕ
byte_of file pls paddr =
    let offset = paddr - pls.phys_start in
    if ltb offset pls.file_size then get_or file (pls.file_offset + offset) 0 else 0

get_or-zeros : (n i : ℕ) → get_or {A = ℕ} (replicate n 0) i 0 ≡ 0
get_or-zeros zero i = refl
get_or-zeros (suc n) zero = refl
get_or-zeros (suc n) (suc i) = get_or-zeros n i

module _ (file : List ℕ) (pt_loads : List PtLoadSegment) where
  -- It is a segment's byte, or zero at an address that is in none.
  abbrev pub ByteAt : ℕ → ℕ → Type 0
  ByteAt paddr byte =
      (All (λ s. has_paddr s paddr ≡ false) pt_loads × (byte ≡ 0))
      ⊎ ((s : PtLoadSegment) × Among s pt_loads
          × (has_paddr s paddr ≡ true)
          × (byte ≡ byte_of file s paddr))

  pub record BytesAt (paddr : ℕ) (bytes : List ℕ) : Type 0 where
    pub at : (k : ℕ) → k < length bytes → ByteAt (paddr + k) (get_or bytes k 0)

  pub BytesAt-append :
      (paddr : ℕ) (xs ys : List ℕ)
      → BytesAt paddr xs
      → BytesAt (paddr + length xs) ys
      → BytesAt paddr (xs ++ ys)
  BytesAt-append paddr xs ys first second = record {
    at = λ k h.
        let e = get_or-append xs ys k in
        elim (Bool-cases (ltb k (length xs))) [
          | inl low ↦
              let same : get_or (xs ++ ys) k 0 ≡ get_or xs k 0 = ground (arith, e, low) in
              subst (ByteAt (paddr + k)) (sym same) (first.at k (ground arith))
          | inr high ↦
              let same : get_or (xs ++ ys) k 0 ≡ get_or ys (k - length xs) 0 =
                ground (arith, e, high) in
              let place : paddr + length xs + (k - length xs) ≡ paddr + k = ground arith in
              subst (ByteAt (paddr + k)) (sym same) (
                subst (λ a. ByteAt a (get_or ys (k - length xs) 0)) place
                  (second.at (k - length xs) (ground (arith, length-append {0} xs ys, h))))
        ];
  }

  NoneWithin-at :
      (paddr d a : ℕ) (table : List PtLoadSegment)
      → paddr ≤ a
      → a < paddr + d
      → All (NoneWithin paddr d) table
      → All (λ s. has_paddr s a ≡ false) table
  NoneWithin-at paddr d a [] low high all = tt
  NoneWithin-at paddr d a (s ∷ table) low high all =
      (all.0 a low high, NoneWithin-at paddr d a table low high all.1)

  -- Zeros where no segment is.
  pub zeros-outside :
      (paddr d : ℕ) → All (NoneWithin paddr d) pt_loads → BytesAt paddr (replicate d 0)
  zeros-outside paddr d all = record {
    at = λ k h.
        let less : k < d = omega (arith, h, length-replicate {A = ℕ} d 0) in
        inl (
          NoneWithin-at paddr d (paddr + k) pt_loads (omega arith) (omega arith) all,
          get_or-zeros d k,
        );
  }

  -- Zeros of a segment past the part that is in the file.
  pub zeros-inside :
      (s : PtLoadSegment) (paddr n : ℕ)
      → Among s pt_loads
      → s.phys_start + s.file_size ≤ paddr
      → paddr + n ≤ s.phys_end
      → BytesAt paddr (replicate n 0)
  zeros-inside s paddr n among low high = record {
    at = λ k h.
        let less : k < n = omega (arith, h, length-replicate {A = ℕ} n 0) in
        inr (s, among, ground arith, get_or-zeros n k ∙ ground arith);
  }

  pub NoneWithin-nothing : (paddr : ℕ) (table : List PtLoadSegment) → All (NoneWithin paddr 0) table
  NoneWithin-nothing paddr [] = tt
  NoneWithin-nothing paddr (s ∷ table) = (
    λ a low high. (let no : ⊥ = omega (arith, low, high) in absurd no),
    NoneWithin-nothing paddr table,
  )
