-- ===== src/Segments/Exclude.antt =====
-- Reserved memory is taken out of the table of segments: exclude_segment of elf_info.c.
pub mod Pieces
pub mod Offsets
pub mod Table
use makedumpfile.Prelude.{
  ℕ, zero, suc, ◌+◌, ◌-◌, ◌%◌, ◌^◌, Bool, true, false, ◌&&◌, not, Option, none, some, List, [], ◌∷◌,
  ltb, ◌==◌, if◌then◌else◌,
}
use makedumpfile.Segments.{PtLoadSegment}

-- A difference of 64 bits; a size or an offset below 0 wraps around.
abbrev pub sub64 : ℕ → ℕ → ℕ
sub64 x y = (x + (2 ^ 64 - y)) % 2 ^ 64

abbrev pub insert_at : ℕ → PtLoadSegment → List PtLoadSegment → List PtLoadSegment
insert_at zero pls pt_loads = pls ∷ pt_loads
insert_at (suc i) pls [] = pls ∷ []
insert_at (suc i) pls (first ∷ pt_loads) = first ∷ insert_at i pls pt_loads

-- The split of a later segment takes the place of that of an earlier one.
abbrev pub later_or :
    Option (ℕ × PtLoadSegment) → Option (ℕ × PtLoadSegment) → Option (ℕ × PtLoadSegment)
later_or none split = split
later_or (some later) split = some later

-- `paddr_to_vaddr` is a macro of the architecture.
module _ (paddr_to_vaddr : ℕ → ℕ) (start end : ℕ) where
  abbrev pub overlaps : PtLoadSegment → Bool
  overlaps pls = ltb (paddr_to_vaddr start) pls.virt_end && ltb pls.virt_start (paddr_to_vaddr end)

  -- The part behind the range, where a segment is split.
  abbrev pub temp_seg : PtLoadSegment → PtLoadSegment
  temp_seg pls = record {
    phys_start = end;
    phys_end = pls.phys_end;
    virt_start = paddr_to_vaddr end;
    virt_end = pls.virt_end;
    file_offset = sub64 (pls.file_offset + paddr_to_vaddr end) pls.virt_start;
    file_size = sub64 pls.phys_end end;
  }

  abbrev pub is_split : PtLoadSegment → Bool
  is_split pls =
      not (paddr_to_vaddr start == pls.virt_start) && not (paddr_to_vaddr end == pls.virt_end)

  -- A segment in the loop, and the part that is split off.
  abbrev pub cut_segment : PtLoadSegment → PtLoadSegment
  cut_segment pls =
      if not (overlaps pls)
      then pls
      else if is_split pls
      then record pls {
        virt_end = paddr_to_vaddr start;
        phys_end = start;
        file_size = sub64 (sub64 pls.file_size (sub64 pls.phys_end end)) (end - start);
      }
      else if not (paddr_to_vaddr start == pls.virt_start)
      then record pls {
        phys_end = start;
        virt_end = paddr_to_vaddr start;
        file_size = sub64 pls.file_size (end - start);
      }
      else record pls {
        phys_start = end;
        virt_start = paddr_to_vaddr end;
        file_size = sub64 pls.file_size (end - start);
      }

  abbrev pub split_off : ℕ → PtLoadSegment → Option (ℕ × PtLoadSegment)
  split_off i pls = if overlaps pls && is_split pls then some (i + 1, temp_seg pls) else none

  unfoldable pub exclude_from :
      ℕ → List PtLoadSegment → List PtLoadSegment × Option (ℕ × PtLoadSegment)
  exclude_from i [] = ([], none)
  exclude_from i (pls ∷ pt_loads) =
      let (rest, later) = exclude_from (i + 1) pt_loads in
      (cut_segment pls ∷ rest, later_or later (split_off i pls))

  abbrev pub insert_split : List PtLoadSegment → Option (ℕ × PtLoadSegment) → List PtLoadSegment
  insert_split pt_loads none = pt_loads
  insert_split pt_loads (some (tidx, temp)) = insert_at tidx temp pt_loads

  unfoldable pub exclude_segment : List PtLoadSegment → List PtLoadSegment
  unfolding exclude_from
  exclude_segment pt_loads = let (cut, split) = exclude_from 0 pt_loads in insert_split cut split
