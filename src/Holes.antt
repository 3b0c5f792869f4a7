-- ===== src/Holes.antt =====
-- The bitmap that is made from the segments of the dump in makedumpfile.c: a bit is set for every
-- frame of the cycle that lies in a segment, whole bytes at once where that is possible.
pub mod Frames
pub mod Count
mod Tests
use makedumpfile.Prelude.{
  ℕ, zero, suc, ◌+◌, ◌-◌, ◌*◌, ◌/◌, ◌%◌, ◌^◌, Bool, true, false, ◌&&◌, ◌||◌, not, Option, none,
  some, List, [], ◌∷◌, replicate, ltb, leb, ◌==◌, if◌then◌else◌, min, max,
}
use makedumpfile.Cycle.{Cycle}
use makedumpfile.File.{pwrite}
use makedumpfile.Bitmap.{Bitmap, set_bitmap_buffer}

-- What `get_pt_load` gives of a segment.
pub record PtLoad : Type 0 where
  pub phys_start : ℕ
  pub phys_end : ℕ

-- `paddr_to_pfn`, on 64 bits; `arch_pfn_offset` is `ARCH_PFN_OFFSET`, which is zero but on ARM.
abbrev pub paddr_to_pfn : ℕ → ℕ → ℕ → ℕ
paddr_to_pfn page_shift arch_pfn_offset paddr =
    (paddr / 2 ^ page_shift + 2 ^ 64 - arch_pfn_offset) % 2 ^ 64

abbrev pub round_8 : ℕ → ℕ
round_8 x = x / 8 * 8

abbrev pub roundup_8 : ℕ → ℕ
roundup_8 x = (x + 7) / 8 * 8

-- `if (count_memhole) pfn_memhole -= k`, on an unsigned number of 64 bits
abbrev pub lower : Bool → ℕ → ℕ → ℕ
lower count_memhole k pfn_memhole =
    if count_memhole then (pfn_memhole + 2 ^ 64 - k) % 2 ^ 64 else pfn_memhole

-- The bitmap and `pfn_memhole`.
pub record Marks : Type 0 where
  pub bitmap : Bitmap
  pub pfn_memhole : ℕ

module _ (cycle : Cycle) (count_memhole : Bool) where
  -- A loop that sets the bits of `n` frames one by one, and ends with false if that fails.
  unfoldable pub set_frames : ℕ → ℕ → Marks → Bool × Marks
  set_frames zero pfn marks = (true, marks)
  set_frames (suc n) pfn marks =
      let (done, bitmap') = set_bitmap_buffer marks.bitmap pfn true (some cycle) in
      let marks' : Marks = record {
        bitmap = bitmap';
        pfn_memhole = lower count_memhole 1 marks.pfn_memhole;
      } in
      let rest = set_frames n (pfn + 1) marks' in
      if not done then (false, record marks { bitmap = bitmap' }) else rest

  -- `memset` of the bytes from `from` up to `to`.
  unfoldable pub set_bytes : ℕ → ℕ → Marks → Marks
  set_bytes from to marks =
      let bitmap = marks.bitmap in
      let n = to - from in
      let filled : Marks = record {
        bitmap = record bitmap { buf = pwrite from (replicate n 0xff) bitmap.buf };
        pfn_memhole = lower count_memhole (n * 8) marks.pfn_memhole;
      } in
      if ltb from to then filled else marks

  -- The frames from `pfn_start` up to `pfn_end`.
  unfoldable pub set_range : ℕ → ℕ → Marks → Bool × Marks
  set_range pfn_start pfn_end marks =
      let pfn_start_roundup = min (roundup_8 pfn_start) pfn_end in
      let pfn_end_round = max (round_8 pfn_end) pfn_start in
      let (done, marks₁) = set_frames (pfn_start_roundup - pfn_start) pfn_start marks in
      let marks₂ =
        set_bytes ((pfn_start_roundup - cycle.start_pfn) / 8)
          ((pfn_end_round - cycle.start_pfn) / 8) marks₁ in
      if not done
      then (false, marks₁)
      else if leb pfn_start pfn_end_round
      then set_frames (pfn_end - pfn_end_round) pfn_end_round marks₂
      else (true, marks₂)

  unfoldable pub set_load : ℕ → ℕ → PtLoad → Marks → Bool × Marks
  set_load page_shift arch_pfn_offset load marks =
      let pfn_start =
        max (paddr_to_pfn page_shift arch_pfn_offset load.phys_start) cycle.start_pfn in
      let pfn_end = min (paddr_to_pfn page_shift arch_pfn_offset load.phys_end) cycle.end_pfn in
      if leb pfn_end pfn_start then (true, marks) else set_range pfn_start pfn_end marks

  unfoldable pub set_loads : ℕ → ℕ → List PtLoad → Marks → Bool × Marks
  set_loads page_shift arch_pfn_offset [] marks = (true, marks)
  set_loads page_shift arch_pfn_offset (load ∷ loads) marks =
      let (done, marks') = set_load page_shift arch_pfn_offset load marks in
      let rest = set_loads page_shift arch_pfn_offset loads marks' in
      if not done then (false, marks') else rest

  -- `initialize_bitmap` of a bitmap in memory comes first.
  unfoldable pub create_bitmap_from_memhole : ℕ → ℕ → ℕ → List PtLoad → Marks → Bool × Marks
  create_bitmap_from_memhole bufsize_cyclic page_shift arch_pfn_offset loads marks =
      let bitmap = marks.bitmap in
      set_loads page_shift arch_pfn_offset loads (record marks {
        bitmap = record bitmap { no_block = none; buf = replicate bufsize_cyclic 0 };
      })
