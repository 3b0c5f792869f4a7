-- ===== src/Segments/Exclude/Table.antt =====
-- The look-up in a table from which exclude_segment took a range.
use makedumpfile.Prelude.{
  ℕ, ◌+◌, ◌-◌, ◌≤◌, ◌<◌, ◌≡◌, ◌⊎◌, ap, ◌∙◌, sym, true, false, List, ◌∷◌, ◌++◌, ltb, arith,
  Bool-cases, inl, inr,
}
use makedumpfile.Segments.{PtLoadSegment, has_data, paddr_to_offset}
use makedumpfile.Segments.Lookup.{All}
use makedumpfile.Segments.Exclude.{exclude_segment}
use makedumpfile.Segments.Exclude.Pieces.{IsApart, exclude_segment-pieces}
use makedumpfile.Segments.Exclude.Offsets.{
  linear, Contains, paddr_to_offset-prefix, paddr_to_offset-after, front, back, temp, pieces_middle,
  pieces_end, pieces_start, offset_middle, offset_end, offset_start,
}

-- A range is excluded that lies in one segment, which is linearly mapped and whole in the file, and no
-- other segment overlaps the range. Take an address outside the range that is in the part in the file
-- of no segment before that one. Its offset in the file stays the same if the range starts after the
-- segment does or the address is not in the segment; otherwise the offset that is found is too small
-- by the size of the range.
pub exclude_segment-paddr_to_offset :
    (page_offset start end : ℕ) (pre post : List PtLoadSegment) (pls : PtLoadSegment) (paddr : ℕ)
    → Contains page_offset start end pls
    → All (IsApart (linear page_offset) start end) pre
    → All (IsApart (linear page_offset) start end) post
    → All (λ s. has_data s paddr ≡ false) pre
    → (paddr < start) ⊎ (end ≤ paddr)
    → let table = pre ++ (pls ∷ post) in
      let found = paddr_to_offset (exclude_segment (linear page_offset) start end table) paddr in
      (((pls.phys_start < start) ⊎ (has_data pls paddr ≡ false))
        × (found ≡ paddr_to_offset table paddr))
      ⊎ ((pls.phys_start ≡ start)
          × (has_data pls paddr ≡ true)
          × (found + (end - start) ≡ paddr_to_offset table paddr))
exclude_segment-paddr_to_offset page_offset start end pre post pls paddr has before after clear
      outside =
    let table = pre ++ (pls ∷ post) in
    let cut = exclude_segment-pieces (linear page_offset) start end pre post pls before after in
    let first = front page_offset start end pls has (start - pls.phys_start) in
    let last = back page_offset start end pls has (pls.phys_end - end) in
    let second = temp page_offset start end pls has in
    let look : List PtLoadSegment → ℕ = λ l. paddr_to_offset l paddr in
    let of : List PtLoadSegment → ℕ = λ l. paddr_to_offset (pre ++ (l ++ post)) paddr in
    elim (Bool-cases (ltb pls.phys_start start)) [
      | inl inner ↦
          let later : pls.phys_start < start = ground (arith, inner) in
          inl (
            inl later,
            ap look cut ∙ elim (Bool-cases (ltb end pls.phys_end)) [
              | inl middle ↦
                  let inside : end < pls.phys_end = ground (arith, middle) in
                  ap of (pieces_middle page_offset start end pls has later inside)
                  ∙ paddr_to_offset-prefix pre (first ∷ (second ∷ post)) (pls ∷ post) paddr
                      (offset_middle page_offset start end pls has paddr post outside later inside)
              | inr at_end ↦
                  let at : end ≡ pls.phys_end = ground (arith, at_end, has) in
                  ap of (pieces_end page_offset start end pls has later at)
                  ∙ paddr_to_offset-prefix pre (first ∷ post) (pls ∷ post) paddr
                      (offset_end page_offset start end pls has paddr post outside later at)
            ],
          )
      | inr at_start ↦
          let at : pls.phys_start ≡ start = ground (arith, at_start, has) in
          let now = ap look cut ∙ ap of (pieces_start page_offset start end pls has at) in
          elim (offset_start page_offset start end pls has paddr post outside at) [
            | inl (out, same) ↦
                inl
                  (inr out, now ∙ paddr_to_offset-prefix pre (last ∷ post) (pls ∷ post) paddr same)
            | inr (inside, short) ↦
                let there = paddr_to_offset-after pre (last ∷ post) paddr clear in
                let was = paddr_to_offset-after pre (pls ∷ post) paddr clear in
                inr (at, inside, ap (λ n. n + (end - start)) (now ∙ there) ∙ short ∙ sym was)
          ]
    ]
