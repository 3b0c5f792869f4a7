-- ===== src/Segments.antt =====
-- The table of PT_LOAD segments of elf_info.c, and the look-ups in it.
pub mod Lookup
pub mod Closest
pub mod Exclude
mod Tests
use makedumpfile.Prelude.{
  ℕ, zero, suc, ◌+◌, ◌-◌, ◌*◌, ◌/◌, ◌%◌, ◌^◌, Bool, true, false, ◌&&◌, ◌||◌, not, Option, none,
  some, List, [], ◌∷◌, ltb, leb, ◌==◌, if◌then◌else◌, max, get_elem?,
}

-- `struct pt_load_segment`
pub record PtLoadSegment : Type 0 where
  pub file_offset : ℕ
  pub file_size : ℕ
  pub phys_start : ℕ
  pub phys_end : ℕ
  pub virt_start : ℕ
  pub virt_end : ℕ

abbrev pub not_paddr : ℕ
not_paddr = 2 ^ 64 - 1

-- An address of the part of the segment that is in the file, of the segment, and an offset of it.
abbrev pub has_data : PtLoadSegment → ℕ → Bool
has_data pls paddr = leb pls.phys_start paddr && ltb paddr (pls.phys_start + pls.file_size)

abbrev pub has_paddr : PtLoadSegment → ℕ → Bool
has_paddr pls paddr = leb pls.phys_start paddr && ltb paddr pls.phys_end

-- 0 if there is no such segment.
unfoldable pub paddr_to_offset : List PtLoadSegment → ℕ → ℕ
paddr_to_offset [] paddr = 0
paddr_to_offset (pls ∷ pt_loads) paddr =
    if has_data pls paddr
    then paddr - pls.phys_start + pls.file_offset
    else paddr_to_offset pt_loads paddr

unfoldable pub paddr_to_offset2 : List PtLoadSegment → ℕ → ℕ → ℕ
paddr_to_offset2 [] paddr hint = 0
paddr_to_offset2 (pls ∷ pt_loads) paddr hint =
    if has_data pls paddr && leb pls.file_offset hint && ltb hint (pls.file_offset + pls.file_size)
    then paddr - pls.phys_start + pls.file_offset
    else paddr_to_offset2 pt_loads paddr hint

unfoldable pub offset_to_pt_load_end : List PtLoadSegment → ℕ → ℕ
offset_to_pt_load_end [] offset = 0
offset_to_pt_load_end (pls ∷ pt_loads) offset =
    let pt_load_end = pls.file_offset + (pls.phys_end - pls.phys_start) in
    if leb pls.file_offset offset && ltb offset pt_load_end
    then pt_load_end
    else offset_to_pt_load_end pt_loads offset

-- The difference is a signed number: it is less than a page also if the end is 0.
unfoldable pub page_is_fractional : ℕ → List PtLoadSegment → ℕ → Bool
unfolding offset_to_pt_load_end
page_is_fractional page_size pt_loads page_offset =
    if not (page_offset % page_size == 0)
    then true
    else ltb (offset_to_pt_load_end pt_loads page_offset) (page_size + page_offset)

unfoldable pub vaddr_to_paddr_general : List PtLoadSegment → ℕ → ℕ
vaddr_to_paddr_general [] vaddr = not_paddr
vaddr_to_paddr_general (pls ∷ pt_loads) vaddr =
    if leb pls.virt_start vaddr && ltb vaddr pls.virt_end
    then vaddr - pls.virt_start + pls.phys_start
    else vaddr_to_paddr_general pt_loads vaddr

-- The loop of `get_max_paddr`
unfoldable pub max_paddr_from : ℕ → List PtLoadSegment → ℕ
max_paddr_from max_paddr [] = max_paddr
max_paddr_from max_paddr (pls ∷ pt_loads) =
    max_paddr_from
      (if not (pls.phys_start == not_paddr) && ltb max_paddr pls.phys_end
        then pls.phys_end
        else max_paddr)
      pt_loads

unfoldable pub get_max_paddr : List PtLoadSegment → ℕ
unfolding max_paddr_from
get_max_paddr pt_loads = max_paddr_from 0 pt_loads

-- The largest end of a segment in the file: `max_file_offset` after the loop of `get_elf_info`.
unfoldable pub max_file_offset_from : ℕ → List PtLoadSegment → ℕ
max_file_offset_from offset [] = offset
max_file_offset_from offset (pls ∷ pt_loads) =
    max_file_offset_from (max offset (pls.file_offset + pls.phys_end - pls.phys_start)) pt_loads

-- The loop of `closest_pt_load`, with the segment in place of its index; `none` is -1.
unfoldable pub closest_from :
    ℕ → Option PtLoadSegment → List PtLoadSegment → ℕ → Option PtLoadSegment
closest_from bestdist best [] paddr = best
closest_from bestdist best (pls ∷ pt_loads) paddr =
    let nearer = leb pls.phys_end paddr || not (ltb (pls.phys_start - paddr) bestdist) in
    let rest =
      closest_from (if nearer then bestdist else pls.phys_start - paddr)
        (if nearer then best else some pls) pt_loads paddr in
    if not (leb pls.phys_end paddr) && leb pls.phys_start paddr then some pls else rest

unfoldable pub closest_pt_load : List PtLoadSegment → ℕ → ℕ → Option PtLoadSegment
unfolding closest_from
closest_pt_load pt_loads paddr distance = closest_from distance none pt_loads paddr

-- What `get_pt_load` and `get_pt_load_extents` give of the segment with an index; `none` is false.
unfoldable pub get_pt_load : List PtLoadSegment → ℕ → Option (ℕ × ℕ × ℕ × ℕ)
get_pt_load pt_loads idx = elim (get_elem? pt_loads idx) [
  | none ↦ none
  | some pls ↦ some (pls.phys_start, pls.phys_end, pls.virt_start, pls.virt_end)
]

unfoldable pub get_pt_load_extents : List PtLoadSegment → ℕ → Option (ℕ × ℕ × ℕ × ℕ)
get_pt_load_extents pt_loads idx = elim (get_elem? pt_loads idx) [
  | none ↦ none
  | some pls ↦ some (pls.phys_start, pls.phys_end, pls.file_offset, pls.file_size)
]
