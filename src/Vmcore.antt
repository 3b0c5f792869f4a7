-- ===== src/Vmcore.antt =====
-- Reading a page of the memory image from an ELF file, in makedumpfile.c: with `read`, piece by piece
-- from the segments that have parts of it, or from a window that is mapped with `mmap`.
pub mod Bytes
pub mod Page
pub mod Mapped
mod Tests
use makedumpfile.Prelude.{
  ℕ, zero, suc, ◌+◌, ◌-◌, ◌*◌, ◌/◌, ◌%◌, ◌^◌, Bool, true, false, ◌&&◌, ◌||◌, not, Option, none,
  some, List, [], ◌∷◌, ◌++◌, length, take, drop, replicate, ltb, leb, ◌==◌, if◌then◌else◌, min, max,
}
use makedumpfile.File.{pread}
use makedumpfile.Segments.{
  PtLoadSegment, closest_pt_load, paddr_to_offset, page_is_fractional, offset_to_pt_load_end,
  max_file_offset_from,
}

-- How a read of a page ends: with bytes, with false, or with a `memset` of a negative size.
pub data Outcome : Type 0 where
  filled : List ℕ → Outcome
  failed fault out_of_fuel : Outcome

abbrev pub after_bytes : List ℕ → Outcome → Outcome
after_bytes bytes (filled rest) = filled (bytes ++ rest)
after_bytes bytes failed = failed
after_bytes bytes fault = fault
after_bytes bytes out_of_fuel = out_of_fuel

-- `seek` tells at which offsets `lseek` succeeds; the file is the list of its bytes.
module _ (seek : ℕ → Bool) (file : List ℕ) where
  unfoldable pub read_from_vmcore : ℕ → ℕ → Option (List ℕ)
  read_from_vmcore offset size = if not (seek offset) then none else pread offset size file

  -- What a segment gives in a round of `readpage_elf`, whose `left` bytes start at an address:
  -- zeros up to its start, its data, and zeros up to its end. `next` is the rest of the loop.
  abbrev pub zeros_up_to : (ℕ → ℕ → Outcome) → PtLoadSegment → ℕ → ℕ → Outcome
  zeros_up_to next pls left paddr =
      let size = min (pls.phys_end - paddr) left in
      if left == 0
      then next left paddr
      else if ltb pls.phys_end paddr
      then fault
      else after_bytes (replicate size 0) (next (left - size) (paddr + size))

  abbrev pub data_of : (ℕ → ℕ → Outcome) → PtLoadSegment → ℕ → ℕ → Outcome
  data_of next pls left paddr =
      let offset = paddr - pls.phys_start in
      let size = min (pls.file_size - offset) left in
      let copied : Outcome = elim (read_from_vmcore (pls.file_offset + offset) size) [
        | none ↦ failed
        | some bytes ↦ after_bytes bytes (zeros_up_to next pls (left - size) (paddr + size))
      ] in
      if ltb offset pls.file_size then copied else zeros_up_to next pls left paddr

  abbrev pub from_segment : (ℕ → ℕ → Outcome) → PtLoadSegment → ℕ → ℕ → Outcome
  from_segment next pls left paddr =
      let gap = pls.phys_start - paddr in
      if ltb paddr pls.phys_start
      then after_bytes (replicate gap 0) (data_of next pls (left - gap) (paddr + gap))
      else data_of next pls left paddr

  -- The loop of `readpage_elf`, for the bytes that are left; it ends early where no segment is near.
  unfoldable pub read_rounds : ℕ → List PtLoadSegment → ℕ → ℕ → Outcome
  read_rounds zero pt_loads left paddr = if left == 0 then filled [] else out_of_fuel
  read_rounds (suc fuel) pt_loads left paddr =
      let round : Outcome = elim (closest_pt_load pt_loads paddr left) [
        | none ↦ filled []
        | some pls ↦ from_segment (read_rounds fuel pt_loads) pls left paddr
      ] in
      if left == 0 then filled [] else round

  -- The end of `readpage_elf`: a page of which nothing was read does not exist.
  abbrev pub finish_page : ℕ → Outcome → Outcome
  finish_page page_size (filled []) = failed
  finish_page page_size (filled (byte ∷ bytes)) =
      filled ((byte ∷ bytes) ++ replicate (page_size - length (byte ∷ bytes)) 0)
  finish_page page_size failed = failed
  finish_page page_size fault = fault
  finish_page page_size out_of_fuel = out_of_fuel

  -- A round gives at least one byte.
  unfoldable pub readpage_elf : ℕ → List PtLoadSegment → ℕ → Outcome
  unfolding read_rounds
  readpage_elf page_size pt_loads paddr =
      finish_page page_size (read_rounds page_size pt_loads page_size paddr)

-- `MAP_FAILED`
abbrev pub map_failed : ℕ
map_failed = 2 ^ 64 - 1

-- The window that is mapped: the address `mmap_buf`, `mmap_start_offset` and `mmap_end_offset`, and
-- whether `flag_usemmap` is `MMAP_ENABLE`.
pub record MmapWindow : Type 0 where
  pub flag_usemmap : Bool
  pub mmap_buf : ℕ
  pub start_offset : ℕ
  pub end_offset : ℕ

abbrev pub round : ℕ → ℕ → ℕ
round x y = x / y * y

abbrev pub roundup : ℕ → ℕ → ℕ
roundup x y = (x + (y - 1)) / y * y

-- What the mapping depends on; `mmap` gives the address for an offset and a size, or `map_failed`.
pub record MmapInfo : Type 0 where
  pub page_size : ℕ
  pub mmap_region_size : ℕ
  pub pt_loads : List PtLoadSegment
  pub mmap : ℕ → ℕ → ℕ

module _ (info : MmapInfo) where
  -- The truth value and the window. A failed `mmap` leaves its result in `mmap_buf`.
  unfoldable pub update_mmap_range : ℕ → MmapWindow → Bool × MmapWindow
  update_mmap_range offset window =
      let pt_load_end = offset_to_pt_load_end info.pt_loads offset in
      let start = roundup offset info.page_size in
      let end = min (max_file_offset_from 0 info.pt_loads) (round pt_load_end info.page_size) in
      let map_size = min (end - start) info.mmap_region_size in
      let buf = info.mmap start map_size in
      if pt_load_end == 0 || leb end start
      then (false, window)
      else if buf == map_failed
      then (false, record window { mmap_buf = buf })
      else (
        true,
        record window { mmap_buf = buf; start_offset = start; end_offset = start + map_size },
      )

  unfoldable pub is_mapped_with_mmap : ℕ → MmapWindow → Bool
  is_mapped_with_mmap offset window =
      window.flag_usemmap && leb window.start_offset offset && ltb offset window.end_offset

  -- The first window; with no segment there is none.
  unfoldable pub initialize_mmap : MmapWindow → Bool × MmapWindow
  initialize_mmap window =
      let unmapped = record window { mmap_buf = map_failed } in
      let first : Bool × MmapWindow = elim info.pt_loads [
        | [] ↦ (false, unmapped)
        | pls ∷ _ ↦ update_mmap_range (paddr_to_offset info.pt_loads pls.phys_start) unmapped
      ] in
      first

  -- `MMAP_TRY` in `initial`: the flag tells whether there is a first window.
  unfoldable pub try_mmap : MmapWindow → MmapWindow
  try_mmap window =
      let (usable, window') = initialize_mmap window in record window' { flag_usemmap = usable }

  abbrev pub in_window : ℕ → MmapWindow → Option ℕ × MmapWindow
  in_window offset window =
      if ltb offset window.start_offset || ltb window.end_offset (offset + info.page_size)
      then (none, window)
      else (some (window.mmap_buf + (offset - window.start_offset)), window)

  -- The result is the address of the page, or `none` for a null pointer. The window may move, and a
  -- failure ends the use of `mmap`.
  unfoldable pub mappage_elf : ℕ → MmapWindow → Option ℕ × MmapWindow
  mappage_elf paddr window =
      let offset = paddr_to_offset info.pt_loads paddr in
      let offset2 = paddr_to_offset info.pt_loads (paddr + info.page_size) in
      let (moved, window') = update_mmap_range offset window in
      if not window.flag_usemmap
      then (none, window)
      else if offset == 0 || page_is_fractional info.page_size info.pt_loads offset
      then (none, window)
      else if offset2 == 0
      then (none, window)
      else if not (offset2 == offset + info.page_size)
      then (none, window)
      else if is_mapped_with_mmap offset window
      then in_window offset window
      else if moved
      then in_window offset window'
      else (none, record window' { flag_usemmap = false })

  -- The pages that `readmem` asks for, one after the other.
  unfoldable pub mappages : List ℕ → MmapWindow → MmapWindow
  mappages [] window = window
  mappages (paddr ∷ paddrs) window = mappages paddrs ((mappage_elf paddr window).1)
