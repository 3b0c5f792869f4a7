-- ===== src/Holes/Tests.antt =====
-- The bitmap of a small window with two segments.
use makedumpfile.Prelude.{
  ◌-◌, ◌≡◌, ◌&&◌, refl, true, false, none, some, List, [], ◌∷◌, arith, leb, if◌then◌else◌, ◌*◌,
}
use makedumpfile.Prelude.Bytes.{put_bit}
use makedumpfile.Cycle.{Cycle, Info, is_cyclic_region}
use makedumpfile.File.{pwrite, splice}
use makedumpfile.Bitmap.{set_bitmap_buffer, is_dumpable_buffer}
use makedumpfile.Holes.{
  PtLoad, Marks, round_8, set_frames, set_bytes, set_range, set_load, set_loads,
  create_bitmap_from_memhole,
}
use makedumpfile.Holes.Frames.{in_loads, create_bitmap_from_memhole-is_dumpable}
use makedumpfile.Holes.Count.{set_range-pfn_memhole}

abbrev info : Info
info = record { pfn_cyclic = 24; flag_elf_dumpfile = false }

abbrev window : Cycle
window = record {
  start_pfn = 8;
  end_pfn = 32;
  exclude_pfn_start = 0;
  exclude_pfn_end = 0;
  exclude_pfn_counter = none;
}

-- With pages of two bytes: the frames 3 to 9, and 11 to 27.
abbrev loads : List PtLoad
loads = record { phys_start = 6; phys_end = 20 } ∷ record { phys_start = 22; phys_end = 56 } ∷ []

abbrev blank : Marks
blank = record {
  bitmap = record { on_file = false; no_block = none; buf = 7 ∷ 7 ∷ 7 ∷ []; offset = 0 };
  pfn_memhole = 100;
}

marks-run : (create_bitmap_from_memhole window true 3 1 0 loads blank).1 ≡ record blank {
  bitmap = record (blank.bitmap) { buf = 0xfb ∷ 0xff ∷ 0x0f ∷ [] };
  pfn_memhole = 81;
}
unfolding create_bitmap_from_memhole set_loads set_load set_range set_frames set_bytes
    set_bitmap_buffer is_cyclic_region put_bit pwrite splice
marks-run = refl

-- With memory from frame 4 on, as on ARM: the first segment ends at frame 6 and starts below the
-- offset, so that its first frame wraps around.
arm-run :
    (create_bitmap_from_memhole window true 3 1 4 loads blank).1.bitmap.buf ≡ 0xff ∷ 0xff ∷ 0 ∷ []
unfolding create_bitmap_from_memhole set_loads set_load set_range set_frames set_bytes
    set_bitmap_buffer is_cyclic_region put_bit pwrite splice
arm-run = refl

-- The frames 11 to 13 are counted twice.
twice-run : (set_range window true 11 14 blank).1.pfn_memhole ≡ 94
unfolding set_range set_frames set_bytes set_bitmap_buffer is_cyclic_region put_bit pwrite splice
twice-run = refl

create_bitmap_from_memhole-is_dumpable_example :
    let (done, marks') = create_bitmap_from_memhole window true 3 1 0 loads blank in
    (done ≡ true)
    × (is_dumpable_buffer marks'.bitmap 9 (some window)
        ≡ (is_cyclic_region 9 (some window) && in_loads 1 0 loads 9))
create_bitmap_from_memhole-is_dumpable_example =
    create_bitmap_from_memhole-is_dumpable info window true (omega arith) 3 1 0 9 loads blank refl
      (omega arith)

set_range-pfn_memhole_example :
    let (done, marks') = set_range window true 11 14 blank in
    (done ≡ true) × (marks'.pfn_memhole ≡ 100 - (if leb 11 (round_8 14) then 3 else 2 * 3))
set_range-pfn_memhole_example =
    set_range-pfn_memhole window 11 14 blank refl (omega arith) (omega arith) (omega arith)
      (omega arith) (omega arith)
