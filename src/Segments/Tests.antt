-- ===== src/Segments/Tests.antt =====
-- Two segments of a memory image with a hole between them, and what the look-ups find there.
use makedumpfile.Prelude.{
  inr, ℕ, ◌+◌, ◌-◌, ◌<◌, ◌≡◌, ◌⊎◌, refl, inl, true, false, not, ◌&&◌, none, some, List, [], ◌∷◌,
  leb, ◌%◌, ◌==◌, arith,
}
use makedumpfile.Segments.{
  has_data, PtLoadSegment, has_paddr, paddr_to_offset, paddr_to_offset2, offset_to_pt_load_end,
  page_is_fractional, vaddr_to_paddr_general, max_paddr_from, get_max_paddr, closest_from,
  closest_pt_load, get_pt_load,
}
use makedumpfile.Segments.Lookup.{
  All, IsWhole, AllApart, segment_of, page_is_fractional-paddr_to_offset,
}
use makedumpfile.Segments.Closest.{NoneWithin, Exact, Ahead, closest_pt_load-NoneWithin}
use makedumpfile.Segments.Exclude.{exclude_segment, exclude_from}
use makedumpfile.Segments.Exclude.Offsets.{linear, Contains}
use makedumpfile.Segments.Exclude.Table.{exclude_segment-paddr_to_offset}

abbrev low_memory : PtLoadSegment
low_memory = record {
  file_offset = 4;
  file_size = 8;
  phys_start = 0;
  phys_end = 8;
  virt_start = 100;
  virt_end = 108;
}

abbrev high_memory : PtLoadSegment
high_memory = record {
  file_offset = 12;
  file_size = 6;
  phys_start = 14;
  phys_end = 20;
  virt_start = 114;
  virt_end = 120;
}

abbrev table : List PtLoadSegment
table = low_memory ∷ high_memory ∷ []

offset_of_high : paddr_to_offset table 15 ≡ 13
unfolding paddr_to_offset
offset_of_high = refl

offset_of_hole : paddr_to_offset table 9 ≡ 0
unfolding paddr_to_offset
offset_of_hole = refl

hint_of_other : paddr_to_offset2 table 15 5 ≡ 0
unfolding paddr_to_offset2
hint_of_other = refl

whole_page : page_is_fractional 4 table 12 ≡ false
unfolding page_is_fractional offset_to_pt_load_end
whole_page = refl

part_of_page : page_is_fractional 4 table 16 ≡ true
unfolding page_is_fractional offset_to_pt_load_end
part_of_page = refl

max_paddr : get_max_paddr table ≡ 20
unfolding get_max_paddr max_paddr_from
max_paddr = refl

physical : vaddr_to_paddr_general table 115 ≡ 15
unfolding vaddr_to_paddr_general
physical = refl

nothing_near : closest_pt_load table 8 4 ≡ none
unfolding closest_pt_load closest_from
nothing_near = refl

near : closest_pt_load table 11 4 ≡ some high_memory
unfolding closest_pt_load closest_from
near = refl

extents : get_pt_load table 1 ≡ some (14, 20, 114, 120)
unfolding get_pt_load
extents = ground arith

table-IsWhole : All IsWhole table
table-IsWhole = (
  record { ordered = omega arith; size = refl; behind_header = omega arith },
  (record { ordered = omega arith; size = refl; behind_header = omega arith }, tt),
)

table-AllApart : AllApart table
table-AllApart = ((inl (omega arith), tt), (tt, tt))

page_is_fractional-paddr_to_offset_example :
    let offset = paddr_to_offset table 16 in
    ((segment_of table 16 ≡ none) × (offset ≡ 0))
    ⊎ ((s : PtLoadSegment) × (segment_of table 16 ≡ some s)
        × (has_paddr s 16 ≡ true)
        × (offset ≡ s.file_offset + (16 - s.phys_start))
        × (0 < offset)
        × (page_is_fractional 4 table offset ≡ not (offset % 4 == 0 && leb (16 + 4) s.phys_end)))
page_is_fractional-paddr_to_offset_example =
    page_is_fractional-paddr_to_offset 4 table 16 table-IsWhole table-AllApart

closest_pt_load-NoneWithin_example :
    let r = closest_pt_load table 11 4 in
    ((r ≡ none) × All (NoneWithin 11 4) table)
    ⊎ ((s : PtLoadSegment) × (r ≡ some s)
        × (Exact table 11 s
            ⊎ ((d : ℕ) × (d < 4) × All (NoneWithin 11 d) table × Ahead table 11 d s)))
closest_pt_load-NoneWithin_example = closest_pt_load-NoneWithin table 11 4

-- Reserved memory at the start of a segment: the byte of address 3 is at 7, and is looked for at 5.
abbrev start_reserved : List PtLoadSegment
start_reserved = exclude_segment (linear 100) 0 2 table

wrong_offset : paddr_to_offset start_reserved 3 ≡ 5
unfolding exclude_segment exclude_from paddr_to_offset
wrong_offset = refl

-- Reserved memory inside a segment, which is split.
abbrev inner_reserved : List PtLoadSegment
inner_reserved = exclude_segment (linear 100) 16 18 table

right_offset : paddr_to_offset inner_reserved 19 ≡ 17
unfolding exclude_segment exclude_from paddr_to_offset
right_offset = refl

no_offset : paddr_to_offset inner_reserved 17 ≡ 0
unfolding exclude_segment exclude_from paddr_to_offset
no_offset = refl

high_memory-Contains : Contains 100 16 18 high_memory
high_memory-Contains = record {
  virt_start = refl;
  virt_end = refl;
  size = refl;
  low = omega arith;
  ordered = omega arith;
  high = omega arith;
  bounded = omega arith;
}

exclude_segment-paddr_to_offset_example :
    let found = paddr_to_offset inner_reserved 19 in
    (((14 < 16) ⊎ (has_data high_memory 19 ≡ false)) × (found ≡ paddr_to_offset table 19))
    ⊎ ((high_memory.phys_start ≡ 16)
        × (has_data high_memory 19 ≡ true)
        × (found + (18 - 16) ≡ paddr_to_offset table 19))
exclude_segment-paddr_to_offset_example =
    exclude_segment-paddr_to_offset 100 16 18 (low_memory ∷ []) [] high_memory 19
      high_memory-Contains (refl, tt) tt (refl, tt) (inr (omega arith))
