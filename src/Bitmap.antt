-- ===== src/Bitmap.antt =====
-- The bitmaps of makedumpfile.c and makedumpfile.h: one bit for each page frame, either in a buffer
-- that covers the frames of a cycle, or in a file of which the buffer holds one block.
pub mod Bits
pub mod Buffer
pub mod OnFile
mod Tests
use makedumpfile.Prelude.{
  ℕ, ◌+◌, ◌-◌, ◌*◌, ◌/◌, ◌%◌, Bool, true, false, ◌||◌, not, Option, none, some, List, take, drop,
  get_or, set, replicate, ◌==◌, if◌then◌else◌,
}
use makedumpfile.Prelude.Bytes.{test_bit, put_bit}
use makedumpfile.File.{pwrite, pread}
use makedumpfile.Cycle.{Cycle, is_cyclic_region}

abbrev pub bufsize_bitmap : ℕ
bufsize_bitmap = 4096

abbrev pub pfn_bufbitmap : ℕ
pfn_bufbitmap = 8 * bufsize_bitmap

-- `struct dump_bitmap`. `on_file` is `0 <= fd`, and a `no_block` of -1 is `none`.
pub record Bitmap : Type 0 where
  pub on_file : Bool
  pub no_block : Option ℕ
  pub buf : List ℕ
  pub offset : ℕ

-- `is_on`
abbrev pub is_on : List ℕ → ℕ → Bool
is_on bitmap i = test_bit (get_or bitmap (i / 8) 0) (i % 8)

-- The assignment that ends `set_bitmap_file` and `set_bitmap_buffer`. It stays inside the buffer
-- by the theorems of `Buffer` and `OnFile`.
abbrev pub assign : List ℕ → ℕ → Bool → List ℕ
assign buf i val = set buf (i / 8) (put_bit (get_or buf (i / 8) 0) (i % 8) val)

-- The result is the truth value that the function returns, and the new bitmap.
unfoldable pub set_bitmap_buffer : Bitmap → ℕ → Bool → Option Cycle → Bool × Bitmap
unfolding is_cyclic_region
set_bitmap_buffer bitmap pfn val none = (false, bitmap)
set_bitmap_buffer bitmap pfn val (some cycle) =
    if not (is_cyclic_region pfn (some cycle))
    then (false, bitmap)
    else (true, record bitmap { buf = assign bitmap.buf (pfn - cycle.start_pfn) val })

unfoldable pub is_dumpable_buffer : Bitmap → ℕ → Option Cycle → Bool
unfolding is_cyclic_region
is_dumpable_buffer bitmap pfn none = false
is_dumpable_buffer bitmap pfn (some cycle) =
    if not (is_cyclic_region pfn (some cycle))
    then false
    else is_on bitmap.buf (pfn - cycle.start_pfn)

-- `old_offset != new_offset`
abbrev pub other_block : Option ℕ → ℕ → Bool
other_block none block = true
other_block (some n) block = not (n == block)

-- `io` tells at which offsets of the file a seek and the transfer after it succeed. A failed
-- write changes nothing.
module _ (io : ℕ → Bool) where
  -- The write of the block that the buffer holds.
  unfoldable pub flush : Bitmap → Option ℕ → List ℕ → Bool × List ℕ
  flush bitmap none file = (true, file)
  flush bitmap (some n) file =
      let old_offset = bitmap.offset + bufsize_bitmap * n in
      if io old_offset then (true, pwrite old_offset bitmap.buf file) else (false, file)

  -- The read of a block into the buffer.
  unfoldable pub refill : Bitmap → ℕ → List ℕ → Option Bitmap
  refill bitmap block file =
      let new_offset = bitmap.offset + bufsize_bitmap * block in
      let loaded : Option Bitmap = elim (pread new_offset bufsize_bitmap file) [
        | none ↦ none
        | some buf ↦ some (record bitmap { buf = buf; no_block = some block })
      ] in
      if io new_offset then loaded else none

  -- What a failed refill leaves: a read that comes to the end of the file has put its bytes into the
  -- buffer.
  unfoldable pub short_read : Bitmap → ℕ → List ℕ → Bitmap
  short_read bitmap block file =
      let new_offset = bitmap.offset + bufsize_bitmap * block in
      if io new_offset
      then record bitmap { buf = pwrite 0 (take bufsize_bitmap (drop new_offset file)) bitmap.buf }
      else bitmap

  abbrev finish_set : ℕ → Bool → List ℕ → Option Bitmap → Bitmap → Bool × Bitmap × List ℕ
  finish_set pfn val file none old = (false, old, file)
  finish_set pfn val file (some bitmap) old =
      (true, record bitmap { buf = assign bitmap.buf (pfn % pfn_bufbitmap) val }, file)

  -- The truth value returned, the bitmap and the file.
  unfoldable pub set_bitmap_file : Bitmap → List ℕ → ℕ → Bool → Bool × Bitmap × List ℕ
  set_bitmap_file bitmap file pfn val =
      let block = pfn / pfn_bufbitmap in
      let moved =
        (let (written, file') = flush bitmap bitmap.no_block file in
          if written
          then finish_set pfn val file' (refill bitmap block file') (short_read bitmap block file')
          else (false, bitmap, file)) in
      if other_block bitmap.no_block block
      then moved
      else finish_set pfn val file (some bitmap) bitmap

  -- `set_bitmap`
  unfoldable pub set_bitmap : Bitmap → List ℕ → ℕ → Bool → Option Cycle → Bool × Bitmap × List ℕ
  set_bitmap bitmap file pfn val cycle =
      let (done, bitmap') = set_bitmap_buffer bitmap pfn val cycle in
      if bitmap.on_file then set_bitmap_file bitmap file pfn val else (done, bitmap', file)

  unfoldable pub sync_bitmap : Bitmap → List ℕ → Bool × List ℕ
  sync_bitmap bitmap file =
      if not bitmap.on_file then (true, file) else flush bitmap bitmap.no_block file

  -- A failed seek returns false and leaves the bitmap alone. A short read goes on with the bytes
  -- that the buffer `stale` is left with, under the new block number.
  unfoldable pub is_dumpable_file : (ℕ → Bool) → List ℕ → Bitmap → List ℕ → ℕ → Bool × Bitmap
  is_dumpable_file seek stale bitmap file pfn =
      let block = pfn / pfn_bufbitmap in
      let new_offset = bitmap.offset + bufsize_bitmap * block in
      let fresh : List ℕ =
        (if io new_offset
          then elim (pread new_offset bufsize_bitmap file) [ none ↦ stale | some buf ↦ buf ]
          else stale) in
      let loaded = record bitmap { buf = fresh; no_block = some block } in
      if pfn == 0 || other_block bitmap.no_block block
      then (if seek new_offset
          then (is_on loaded.buf (pfn % pfn_bufbitmap), loaded)
          else (false, bitmap))
      else (is_on bitmap.buf (pfn % pfn_bufbitmap), bitmap)

abbrev initial_bitmap : Bool → ℕ → ℕ → Bitmap
initial_bitmap on_file bytes offset = record {
  on_file = on_file;
  no_block = none;
  buf = replicate bytes 0;
  offset = offset;
}

-- `initialize_1st_bitmap` and `initialize_2nd_bitmap`: the second one stands in the second half of
-- the file. A bitmap in memory has `bufsize_cyclic` bytes.
unfoldable pub initialize_1st_bitmap : Bool → ℕ → Bitmap
initialize_1st_bitmap on_file bufsize_cyclic =
    initial_bitmap on_file (if on_file then bufsize_bitmap else bufsize_cyclic) 0

unfoldable pub initialize_2nd_bitmap : Bool → ℕ → ℕ → Bitmap
initialize_2nd_bitmap on_file bufsize_cyclic len_bitmap =
    initial_bitmap on_file (if on_file then bufsize_bitmap else bufsize_cyclic) (len_bitmap / 2)
