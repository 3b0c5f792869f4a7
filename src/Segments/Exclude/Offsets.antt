-- ===== src/Segments/Exclude/Offsets.antt =====
-- Where the bytes of an address are found after exclude_segment.
use makedumpfile.Prelude.{
  ℕ, ◌+◌, ◌-◌, ◌^◌, ◌≤◌, ◌<◌, ◌≡◌, ◌⊎◌, refl, ap, ◌∙◌, Bool, true, false, ◌&&◌, not, List, [], ◌∷◌,
  ◌++◌, ◌==◌, if◌then◌else◌, arith, Bool-cases, inl, inr,
}
use makedumpfile.Segments.{PtLoadSegment, has_data, paddr_to_offset}
use makedumpfile.Segments.Lookup.{All}
use makedumpfile.Segments.Exclude.{sub64, overlaps, temp_seg, is_split, cut_segment}
use makedumpfile.Segments.Exclude.Pieces.{sub64_le, pieces}

-- paddr_to_vaddr_general
abbrev pub linear : ℕ → ℕ → ℕ
linear page_offset paddr = paddr + page_offset

-- A segment of the linear mapping, whole in the file, with a range inside it.
pub record Contains (page_offset start end : ℕ) (pls : PtLoadSegment) : Type 0 where
  pub virt_start : pls.virt_start ≡ pls.phys_start + page_offset
  pub virt_end : pls.virt_end ≡ pls.phys_end + page_offset
  pub size : pls.file_size ≡ pls.phys_end - pls.phys_start
  pub low : pls.phys_start ≤ start
  pub ordered : start < end
  pub high : end ≤ pls.phys_end
  pub bounded : pls.file_offset + pls.phys_end + page_offset < 2 ^ 64

pub paddr_to_offset-prefix :
    (pre xs ys : List PtLoadSegment) (paddr : ℕ)
    → paddr_to_offset xs paddr ≡ paddr_to_offset ys paddr
    → paddr_to_offset (pre ++ xs) paddr ≡ paddr_to_offset (pre ++ ys) paddr
unfolding paddr_to_offset
paddr_to_offset-prefix [] xs ys paddr same = same
paddr_to_offset-prefix (pls ∷ pre) xs ys paddr same =
    ap (λ r. if has_data pls paddr then paddr - pls.phys_start + pls.file_offset else r)
      (paddr_to_offset-prefix pre xs ys paddr same)

pub paddr_to_offset-after :
    (pre xs : List PtLoadSegment) (paddr : ℕ)
    → All (λ s. has_data s paddr ≡ false) pre
    → paddr_to_offset (pre ++ xs) paddr ≡ paddr_to_offset xs paddr
unfolding paddr_to_offset
paddr_to_offset-after [] xs paddr clear = refl
paddr_to_offset-after (pls ∷ pre) xs paddr clear =
    ap
      (λ b.
        if b then paddr - pls.phys_start + pls.file_offset else paddr_to_offset (pre ++ xs) paddr)
      clear.0
    ∙ paddr_to_offset-after pre xs paddr clear.1

module _ (page_offset start end : ℕ) (pls : PtLoadSegment)
    (has : Contains page_offset start end pls) where
  overlaps_here : overlaps (linear page_offset) start end pls ≡ true
  overlaps_here = ground (arith, has)

  abbrev pub front : ℕ → PtLoadSegment
  front size = record pls { phys_end = start; virt_end = start + page_offset; file_size = size }

  abbrev pub back : ℕ → PtLoadSegment
  back size = record pls { phys_start = end; virt_start = end + page_offset; file_size = size }

  abbrev split_sizes : ℕ
  split_sizes = sub64 (sub64 pls.file_size (sub64 pls.phys_end end)) (end - start)

  abbrev one_size : ℕ
  one_size = sub64 pls.file_size (end - start)

  -- The tests of the loop, in turn.
  cut_tests :
      (is : Bool)
      → (is_split (linear page_offset) start end pls ≡ is)
      → (left : Bool) → ((start + page_offset == pls.virt_start) ≡ left)
      → cut_segment (linear page_offset) start end pls
        ≡ (if is then front split_sizes else if not left then front one_size else back one_size)
  cut_tests is e left e' =
      ap
        (λ b.
          if not b
          then pls
          else if is_split (linear page_offset) start end pls
          then front split_sizes
          else if not (start + page_offset == pls.virt_start)
          then front one_size
          else back one_size)
        overlaps_here
      ∙ ap
          (λ b.
            if b
            then front split_sizes
            else if not (start + page_offset == pls.virt_start)
            then front one_size
            else back one_size)
          e
      ∙ ap (λ b. if is then front split_sizes else if not b then front one_size else back one_size)
          e'

  split_sizes_lem : end ≤ pls.phys_end → split_sizes ≡ start - pls.phys_start
  split_sizes_lem le =
      let a =
        sub64_le pls.phys_end end le (omega (arith, le, has.bounded))
          (omega (arith, has.bounded)) in
      let b =
        sub64_le pls.file_size (pls.phys_end - end) (omega (arith, has))
          (omega (arith, has.bounded)) (omega (arith, has)) in
      let c =
        sub64_le (pls.file_size - (pls.phys_end - end)) (end - start) (omega (arith, has))
          (omega (arith, has)) (omega (arith, has)) in
      ap (λ n. sub64 (sub64 pls.file_size n) (end - start)) a
      ∙ ap (λ n. sub64 n (end - start)) b
      ∙ c
      ∙ omega (arith, has)

  one_size_lem : one_size ≡ pls.phys_end - pls.phys_start - (end - start)
  one_size_lem =
      sub64_le pls.file_size (end - start) (omega (arith, has)) (omega (arith, has))
        (omega (arith, has))
      ∙ omega (arith, has)

  abbrev pub temp : PtLoadSegment
  temp = record {
    phys_start = end;
    phys_end = pls.phys_end;
    virt_start = end + page_offset;
    virt_end = pls.virt_end;
    file_offset = pls.file_offset + (end - pls.phys_start);
    file_size = pls.phys_end - end;
  }

  temp_here : temp_seg (linear page_offset) start end pls ≡ temp
  temp_here =
      let off =
        sub64_le (pls.file_offset + (end + page_offset)) pls.virt_start (omega (arith, has))
          (omega (arith, has)) (omega (arith, has)) in
      let off' : sub64 (pls.file_offset + (end + page_offset)) pls.virt_start
          ≡ pls.file_offset + (end - pls.phys_start) =
        off ∙ omega (arith, has) in
      let size = sub64_le pls.phys_end end has.high (omega (arith, has)) (omega (arith, has)) in
      ap (λ n. record temp { file_offset = n; file_size = sub64 pls.phys_end end }) off'
      ∙ ap (λ n. record temp { file_size = n }) size

  pieces_steps :
      (is : Bool)
      → is_split (linear page_offset) start end pls ≡ is
      → (kept : PtLoadSegment) → cut_segment (linear page_offset) start end pls ≡ kept
      → pieces (linear page_offset) start end pls ≡ kept ∷ (if is then temp ∷ [] else [])
  pieces_steps is e kept e' =
      let back_part = temp_seg (linear page_offset) start end pls in
      ap
        (λ k.
          k
          ∷ (if overlaps (linear page_offset) start end pls
                && is_split (linear page_offset) start end pls
              then back_part ∷ []
              else []))
        e'
      ∙ ap
          (λ b.
            kept
            ∷ (if b && is_split (linear page_offset) start end pls then back_part ∷ [] else []))
          overlaps_here
      ∙ ap (λ b. kept ∷ (if b then back_part ∷ [] else [])) e
      ∙ ap (λ t. kept ∷ (if is then t ∷ [] else [])) temp_here

  -- The range is in the middle, at the end, or at the start of the segment.
  pub pieces_middle :
      pls.phys_start < start
      → end < pls.phys_end
      → pieces (linear page_offset) start end pls ≡ front (start - pls.phys_start) ∷ (temp ∷ [])
  pieces_middle inner inner' =
      let is : is_split (linear page_offset) start end pls ≡ true =
        ground (arith, has, inner, inner') in
      let left : (start + page_offset == pls.virt_start) ≡ false = ground (arith, has, inner) in
      pieces_steps true is (front (start - pls.phys_start))
        (cut_tests true is false left ∙ ap front (split_sizes_lem has.high))

  pub pieces_end :
      pls.phys_start < start
      → end ≡ pls.phys_end
      → pieces (linear page_offset) start end pls ≡ front (start - pls.phys_start) ∷ []
  pieces_end inner at =
      let is : is_split (linear page_offset) start end pls ≡ false = ground (arith, has, at) in
      let left : (start + page_offset == pls.virt_start) ≡ false = ground (arith, has, inner) in
      let size : one_size ≡ start - pls.phys_start = one_size_lem ∙ omega (arith, has, at) in
      pieces_steps false is (front (start - pls.phys_start))
        (cut_tests false is false left ∙ ap front size)

  pub pieces_start :
      pls.phys_start ≡ start
      → pieces (linear page_offset) start end pls ≡ back (pls.phys_end - end) ∷ []
  pieces_start at =
      let left : (start + page_offset == pls.virt_start) ≡ true = ground (arith, has, at) in
      let is : is_split (linear page_offset) start end pls ≡ false =
        ap (λ b. not b && not (end + page_offset == pls.virt_end)) left in
      let size : one_size ≡ pls.phys_end - end = one_size_lem ∙ omega (arith, has, at) in
      pieces_steps false is (back (pls.phys_end - end))
        (cut_tests false is true left ∙ ap back size)

  -- Addresses outside the range, in the pieces and in the segment, before the same other segments.
  pub offset_middle :
      (paddr : ℕ) (rest : List PtLoadSegment)
      → (paddr < start) ⊎ (end ≤ paddr)
      → pls.phys_start < start
      → end < pls.phys_end
      → paddr_to_offset (front (start - pls.phys_start) ∷ (temp ∷ rest)) paddr
        ≡ paddr_to_offset (pls ∷ rest) paddr
  unfolding paddr_to_offset
  offset_middle paddr rest (inl below) inner inner' = elim (Bool-cases (has_data pls paddr)) [
    | inl inside ↦ ground (arith, has, below, inside, inner)
    | inr outside ↦ ground (arith, has, below, outside, inner)
  ]
  offset_middle paddr rest (inr above) inner inner' = elim (Bool-cases (has_data pls paddr)) [
    | inl inside ↦ ground (arith, has, above, inside, inner)
    | inr outside ↦ ground (arith, has, above, outside, inner)
  ]

  pub offset_end :
      (paddr : ℕ) (rest : List PtLoadSegment)
      → (paddr < start) ⊎ (end ≤ paddr)
      → pls.phys_start < start
      → end ≡ pls.phys_end
      → paddr_to_offset (front (start - pls.phys_start) ∷ rest) paddr
        ≡ paddr_to_offset (pls ∷ rest) paddr
  unfolding paddr_to_offset
  offset_end paddr rest outside_range inner at = ground (arith, has, outside_range, inner, at)

  pub offset_start :
      (paddr : ℕ) (rest : List PtLoadSegment)
      → (paddr < start) ⊎ (end ≤ paddr)
      → pls.phys_start ≡ start
      → ((has_data pls paddr ≡ false)
          × (paddr_to_offset (back (pls.phys_end - end) ∷ rest) paddr
              ≡ paddr_to_offset (pls ∷ rest) paddr))
        ⊎ ((has_data pls paddr ≡ true)
            × (paddr_to_offset (back (pls.phys_end - end) ∷ rest) paddr + (end - start)
                ≡ paddr_to_offset (pls ∷ rest) paddr))
  unfolding paddr_to_offset
  offset_start paddr rest outside_range at = elim (Bool-cases (has_data pls paddr)) [
    | inl inside ↦ inr (inside, ground (arith, has, outside_range, at, inside))
    | inr outside ↦ inl (outside, ground (arith, has, at, outside))
  ]
