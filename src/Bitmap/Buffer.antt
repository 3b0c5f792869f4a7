-- ===== src/Bitmap/Buffer.antt =====
-- The bitmap in memory: what `is_dumpable_buffer` reads after `set_bitmap_buffer`.
use makedumpfile.Prelude.{
  ℕ, ◌-◌, ◌*◌, ◌≤◌, ◌≡◌, Bool, ◌&&◌, some, length, ◌==◌, if◌then◌else◌, arith,
}
use makedumpfile.Cycle.{Cycle, Info, is_cyclic_region}
use makedumpfile.Cycle.Coverage.{Fits}
use makedumpfile.Bitmap.{Bitmap, set_bitmap_buffer, is_dumpable_buffer}
use makedumpfile.Bitmap.Bits.{IsBytes, is_on-assign, assign-IsBytes, length-assign}

-- The buffer holds bytes, and has a bit for each frame of a cycle of `pfn_cyclic` frames.
pub record Covers (info : Info) (bitmap : Bitmap) : Type 0 where
  pub bytes : IsBytes bitmap.buf
  pub room : info.pfn_cyclic ≤ 8 * length bitmap.buf

-- Setting or clearing a frame's bit succeeds exactly when the frame lies in the cycle. Then that
-- frame reads as the value given and every other frame reads as before; else nothing changes.
pub set_bitmap_buffer-is_dumpable :
    (info : Info) (bitmap : Bitmap) (cycle : Cycle) (pfn q : ℕ) (val : Bool)
    → Covers info bitmap
    → Fits info cycle
    → let (done, bitmap') = set_bitmap_buffer bitmap pfn val (some cycle) in
      (done ≡ is_cyclic_region pfn (some cycle))
      × (is_dumpable_buffer bitmap' q (some cycle) ≡ (
          if done && pfn == q && is_cyclic_region q (some cycle)
          then val
          else is_dumpable_buffer bitmap q (some cycle)))
      × Covers info bitmap'
unfolding set_bitmap_buffer is_dumpable_buffer is_cyclic_region
set_bitmap_buffer-is_dumpable info bitmap cycle pfn q val covers fits =
    let start = cycle.start_pfn in
    let on = is_on-assign bitmap.buf (pfn - start) (q - start) val covers.bytes in
    (
      ground arith,
      ground (arith, on),
      ground (
        arith,
        length-assign bitmap.buf (pfn - start) val,
        assign-IsBytes bitmap.buf (pfn - start) val covers.bytes,
      ),
    )
