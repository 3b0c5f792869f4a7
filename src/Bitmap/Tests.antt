-- ===== src/Bitmap/Tests.antt =====
-- The theorems about the bitmaps, at concrete bitmaps.
use makedumpfile.Prelude.{
  ℕ, zero, suc, ◌≡◌, refl, Bool, true, false, ◌&&◌, none, some, List, [], ◌∷◌, length, replicate,
  length-replicate, ◌==◌, if◌then◌else◌, arith,
}
use makedumpfile.Cycle.{Cycle, Info, is_cyclic_region}
use makedumpfile.Bitmap.{
  Bitmap, set_bitmap_buffer, is_dumpable_buffer, set_bitmap_file, sync_bitmap, is_dumpable_file,
  flush,
}
use makedumpfile.Bitmap.Bits.{IsBytes}
use makedumpfile.Bitmap.Buffer.{Covers, set_bitmap_buffer-is_dumpable}
use makedumpfile.Bitmap.OnFile.{
  bit_at, is_on_file, WellFormed, Synced, set_bitmap_file-bit_at, sync_bitmap-bit_at,
  is_dumpable_file-bit_at,
}

abbrev info : Info
info = record { pfn_cyclic = 16; flag_elf_dumpfile = false }

abbrev cycle : Cycle
cycle = record {
  start_pfn = 100;
  end_pfn = 116;
  exclude_pfn_start = 0;
  exclude_pfn_end = 0;
  exclude_pfn_counter = none;
}

abbrev small : Bitmap
small = record { on_file = false; no_block = none; buf = 0 ∷ 0 ∷ []; offset = 0 }

replicate-IsBytes : (n : ℕ) → IsBytes (replicate n 0)
replicate-IsBytes zero k = omega arith
replicate-IsBytes (suc n) zero = omega arith
replicate-IsBytes (suc n) (suc k) = replicate-IsBytes n k

small-Covers : Covers info small
small-Covers = record { bytes = replicate-IsBytes 2; room = omega arith }

set_bitmap_buffer-is_dumpable_example :
    let (done, bitmap') = set_bitmap_buffer small 109 true (some cycle) in
    (done ≡ is_cyclic_region 109 (some cycle))
    × (is_dumpable_buffer bitmap' 109 (some cycle) ≡ (
        if done && 109 == 109 && is_cyclic_region 109 (some cycle)
        then true
        else is_dumpable_buffer small 109 (some cycle)))
    × Covers info bitmap'
set_bitmap_buffer-is_dumpable_example =
    set_bitmap_buffer-is_dumpable info small cycle 109 109 true small-Covers (omega arith)

-- A bitmap file of one block, held shut so that its 4096 bytes are not spelled out.
disk : ℕ → List ℕ
disk n = replicate n 0

length-disk : (n : ℕ) → length (disk n) ≡ n
unfolding disk
length-disk n = length-replicate n 0

disk-IsBytes : (n : ℕ) → IsBytes (disk n)
unfolding disk
disk-IsBytes n = replicate-IsBytes n

abbrev on_disk : Bitmap
on_disk = record { on_file = true; no_block = some 0; buf = disk 4096; offset = 4096 }

on_disk-WellFormed : WellFormed on_disk (disk 8192)
on_disk-WellFormed = record {
  full = length-disk 4096;
  buf_bytes = disk-IsBytes 4096;
  file_bytes = disk-IsBytes 8192;
}

abbrev works : ℕ → Bool
works off = true

abbrev marked : Bool × Bitmap × List ℕ
marked = set_bitmap_file works on_disk (disk 8192) 9 true

marked-done : marked.0 ≡ true
unfolding set_bitmap_file
marked-done = refl

set_bitmap_file-bit_at_example :
    (bit_at marked.1 marked.2 9 ≡ (if 9 == 9 then true else bit_at on_disk (disk 8192) 9))
    × WellFormed marked.1 marked.2
unfolding set_bitmap_file
set_bitmap_file-bit_at_example =
    set_bitmap_file-bit_at works on_disk (disk 8192) 9 9 true on_disk-WellFormed refl

sync_bitmap-bit_at_example :
    is_on_file 4096 (sync_bitmap works on_disk (disk 8192)).1 9 ≡ bit_at on_disk (disk 8192) 9
unfolding sync_bitmap flush
sync_bitmap-bit_at_example =
    sync_bitmap-bit_at works on_disk (disk 8192) 9 on_disk-WellFormed refl refl

empty-Synced : Synced (record on_disk { no_block = none }) (disk 8192)
empty-Synced k = refl

is_dumpable_file-bit_at_example :
    let (dumpable, bitmap') =
      is_dumpable_file works works [] (record on_disk { no_block = none }) (disk 8192) 9 in
    (dumpable ≡ is_on_file 4096 (disk 8192) 9) × Synced bitmap' (disk 8192)
is_dumpable_file-bit_at_example =
    is_dumpable_file-bit_at works works [] (record on_disk { no_block = none }) (disk 8192) 9
      empty-Synced (λ off. (refl, refl)) (omega (arith, length-disk 8192))
