-- ===== src/Filter/InMemory.antt =====
-- The bitmap in memory is one that `exclude_range` and the loop can work on.
use makedumpfile.Prelude.{ℕ, ◌≡◌, Bool, false, ◌&&◌, some, ltb, leb, ◌==◌, if◌then◌else◌, arith}
use makedumpfile.Cycle.{Cycle, Info, is_cyclic_region}
use makedumpfile.Cycle.Coverage.{Fits}
use makedumpfile.Bitmap.{Bitmap, set_bitmap_buffer, is_dumpable_buffer}
use makedumpfile.Bitmap.Buffer.{Covers, set_bitmap_buffer-is_dumpable}
use makedumpfile.Filter.Range.{Bits}

module _ (info : Info) (cycle : Cycle) (fits : Fits info cycle) where
  unfoldable pub clear_buffer : ℕ → Bitmap → Bool × Bitmap
  clear_buffer pfn bitmap = set_bitmap_buffer bitmap pfn false (some cycle)

  pub buffer-done :
      (bitmap : Bitmap) (pfn : ℕ)
      → Covers info bitmap
      → (clear_buffer pfn bitmap).0 ≡ (leb cycle.start_pfn pfn && ltb pfn cycle.end_pfn)
  unfolding clear_buffer is_cyclic_region
  buffer-done bitmap pfn v =
      ground (arith, set_bitmap_buffer-is_dumpable info bitmap cycle pfn pfn false v fits)

  pub buffer-bit :
      (bitmap : Bitmap) (pfn q : ℕ)
      → Covers info bitmap
      → is_dumpable_buffer (clear_buffer pfn bitmap).1 q (some cycle) ≡ (
          if (clear_buffer pfn bitmap).0 && pfn == q
          then false
          else is_dumpable_buffer bitmap q (some cycle))
  unfolding clear_buffer is_cyclic_region
  buffer-bit bitmap pfn q v =
      ground (arith, set_bitmap_buffer-is_dumpable info bitmap cycle pfn q false v fits)

  pub buffer-Covers :
      (bitmap : Bitmap) (pfn : ℕ) → Covers info bitmap → Covers info (clear_buffer pfn bitmap).1
  unfolding clear_buffer
  buffer-Covers bitmap pfn v =
      (set_bitmap_buffer-is_dumpable info bitmap cycle pfn pfn false v fits).2

  abbrev pub buffer_bits : Bits cycle.start_pfn cycle.end_pfn
  buffer_bits = record {
    State = Bitmap;
    Valid = Covers info;
    clear = clear_buffer;
    bit = λ bitmap q. is_dumpable_buffer bitmap q (some cycle);
    clear-done = buffer-done;
    bit-clear = buffer-bit;
    clear-Valid = buffer-Covers;
  }
