-- ===== src/Bitmap/OnFile.antt =====
-- The bitmap in a file, cached one block at a time: what the pair of buffer and file stands for,
-- and what the operations do to it.
use makedumpfile.Prelude.{
  ℕ, zero, suc, [], ◌∷◌, ◌+◌, ◌-◌, ◌*◌, ◌/◌, ◌%◌, ◌≤◌, ◌≡◌, refl, Bool, true, not, some, List,
  length, get_or, ◌==◌, if◌then◌else◌, arith, Option-cases, Bool-cases, inl, inr,
}
use makedumpfile.Prelude.Bytes.{test_bit}
use makedumpfile.File.{pread}
use makedumpfile.File.Laws.{get_or-pwrite, get_or-pread, length-pread}
use makedumpfile.Bitmap.{
  Bitmap, bufsize_bitmap, pfn_bufbitmap, assign, other_block, flush, refill, set_bitmap_file,
  sync_bitmap, is_dumpable_file,
}
use makedumpfile.Bitmap.Bits.{IsBytes, is_on-assign, assign-IsBytes, length-assign}

-- Byte `k` of the bitmap: from the buffer if its block is there, else from the file.
abbrev pub byte_at : Bitmap → List ℕ → ℕ → ℕ
byte_at bitmap file k =
    if not (other_block bitmap.no_block (k / bufsize_bitmap))
    then get_or bitmap.buf (k % bufsize_bitmap) 0
    else get_or file (bitmap.offset + k) 0

-- The bit of a frame.
pub bit_at : Bitmap → List ℕ → ℕ → Bool
bit_at bitmap file pfn = test_bit (byte_at bitmap file (pfn / 8)) (pfn % 8)

-- The bit of a frame in the file alone.
abbrev pub is_on_file : ℕ → List ℕ → ℕ → Bool
is_on_file offset file pfn = test_bit (get_or file (offset + pfn / 8) 0) (pfn % 8)

-- The buffer holds no byte that differs from the file's.
abbrev pub Synced : Bitmap → List ℕ → Type 0
Synced bitmap file = (k : ℕ) → byte_at bitmap file k ≡ get_or file (bitmap.offset + k) 0

pub record WellFormed (bitmap : Bitmap) (file : List ℕ) : Type 0 where
  pub full : length bitmap.buf ≡ bufsize_bitmap
  pub buf_bytes : IsBytes bitmap.buf
  pub file_bytes : IsBytes file

module _ (io : ℕ → Bool) where
  -- Writing the buffer back brings the file up to date: afterwards it alone has every byte.
  flush-byte_at :
      (bitmap : Bitmap) (file : List ℕ) (k : ℕ)
      → length bitmap.buf ≡ bufsize_bitmap
      → let (written, file') = flush io bitmap bitmap.no_block file in
        written ≡ true → get_or file' (bitmap.offset + k) 0 ≡ byte_at bitmap file k
  unfolding flush
  flush-byte_at bitmap file k full h = elim (Option-cases bitmap.no_block) [
    | inl e ↦ ground arith
    | inr (n, e) ↦ ground (
      arith,
      get_or-pwrite (bitmap.offset + bufsize_bitmap * n) bitmap.buf file (bitmap.offset + k),
    )
  ]

  flush-IsBytes :
      (bitmap : Bitmap) (file : List ℕ)
      → WellFormed bitmap file
      → IsBytes (flush io bitmap bitmap.no_block file).1
  unfolding flush
  flush-IsBytes bitmap file w k = elim (Option-cases bitmap.no_block) [
    | inl e ↦ ground (arith, w.file_bytes k)
    | inr (n, e) ↦ ground (
      arith,
      w.file_bytes k,
      w.buf_bytes (k - (bitmap.offset + bufsize_bitmap * n)),
      get_or-pwrite (bitmap.offset + bufsize_bitmap * n) bitmap.buf file k,
    )
  ]

  -- Reading a block into the buffer of a file that is up to date changes no byte.
  refill-byte_at :
      (bitmap : Bitmap) (block : ℕ) (file : List ℕ) {bitmap' : Bitmap} (k : ℕ)
      → refill io bitmap block file ≡ some bitmap'
      → (byte_at bitmap' file k ≡ get_or file (bitmap.offset + k) 0)
        × (bitmap'.offset ≡ bitmap.offset)
        × (bitmap'.no_block ≡ some block)
        × (length bitmap'.buf ≡ bufsize_bitmap)
  unfolding refill
  refill-byte_at bitmap block file {bitmap'} k h =
      let start = bitmap.offset + bufsize_bitmap * block in
      elim (Option-cases (pread start bufsize_bitmap file)) [
        | inl e ↦ absurd (ground arith)
        | inr (buf, e) ↦ ground (
          arith,
          length-pread start bufsize_bitmap file e,
          get_or-pread start bufsize_bitmap file (k % bufsize_bitmap) e,
        )
      ]

-- The assignment of a bit in the buffer, for a frame of the block that is loaded.
assign-bit_at :
    (bitmap : Bitmap) (file : List ℕ) (pfn q : ℕ) (val : Bool)
    → bitmap.no_block ≡ some (pfn / pfn_bufbitmap)
    → length bitmap.buf ≡ bufsize_bitmap
    → IsBytes bitmap.buf
    → bit_at (record bitmap { buf = assign bitmap.buf (pfn % pfn_bufbitmap) val }) file q
      ≡ (if pfn == q then val else bit_at bitmap file q)
unfolding bit_at
assign-bit_at bitmap file pfn q val here full bytes =
    ground (arith, is_on-assign bitmap.buf (pfn % pfn_bufbitmap) (q % pfn_bufbitmap) val bytes)

get_or_past : (xs : List ℕ) (k : ℕ) → length xs ≤ k → get_or xs k 0 ≡ 0
get_or_past [] k h = refl
get_or_past (x ∷ xs) zero h = absurd (omega arith)
get_or_past (x ∷ xs) (suc k) h = get_or_past xs k (omega arith)

module _ (io : ℕ → Bool) where
  refill-IsBytes :
      (bitmap : Bitmap) (block : ℕ) (file : List ℕ) {bitmap' : Bitmap}
      → IsBytes file
      → refill io bitmap block file ≡ some bitmap'
      → IsBytes bitmap'.buf
  unfolding refill
  refill-IsBytes bitmap block file {bitmap'} bytes h k =
      let start = bitmap.offset + bufsize_bitmap * block in
      elim (Option-cases (pread start bufsize_bitmap file)) [
        | inl e ↦ absurd (ground arith)
        | inr (buf, e) ↦ ground (
          arith,
          bytes (start + k),
          get_or_past buf k,
          length-pread start bufsize_bitmap file e,
          get_or-pread start bufsize_bitmap file k e,
        )
      ]

  -- If it succeeds, `set_bitmap_file` gives the frame's bit the value and leaves the bit of every
  -- other frame alone, whichever block is loaded before; the buffer stays a full block of bytes.
  pub set_bitmap_file-bit_at :
      (bitmap : Bitmap) (file : List ℕ) (pfn q : ℕ) (val : Bool) {bitmap' : Bitmap} {file' : List ℕ}
      → WellFormed bitmap file
      → set_bitmap_file io bitmap file pfn val ≡ (true, bitmap', file')
      → (bit_at bitmap' file' q ≡ (if pfn == q then val else bit_at bitmap file q))
        × WellFormed bitmap' file'
  unfolding set_bitmap_file bit_at
  set_bitmap_file-bit_at bitmap file pfn q val w done =
      let block = pfn / pfn_bufbitmap in
      let file₁ = (flush io bitmap bitmap.no_block file).1 in
      elim (Bool-cases (other_block bitmap.no_block block)) [
        | inl e ↦ elim (Option-cases (refill io bitmap block file₁)) [
          | inl r ↦ absurd (ground arith)
          | inr (loaded, r) ↦ ground (
            arith,
            flush-byte_at io bitmap file (q / 8) w.full,
            flush-IsBytes io bitmap file w,
            refill-byte_at io bitmap block file₁ (q / 8) r,
            refill-IsBytes bitmap block file₁ (flush-IsBytes io bitmap file w) r,
            length-assign loaded.buf (pfn % pfn_bufbitmap) val,
            assign-IsBytes loaded.buf (pfn % pfn_bufbitmap) val,
            assign-bit_at loaded file₁ pfn q val,
          )
        ]
        | inr e ↦ ground (
          arith,
          assign-bit_at bitmap file pfn q val,
          length-assign bitmap.buf (pfn % pfn_bufbitmap) val,
          assign-IsBytes bitmap.buf (pfn % pfn_bufbitmap) val w.buf_bytes,
        )
      ]

  -- If it returns true for a bitmap in a file whose buffer is a whole block, `sync_bitmap` leaves in
  -- the file alone the bit of every frame.
  pub sync_bitmap-bit_at :
      (bitmap : Bitmap) (file : List ℕ) (pfn : ℕ) {file' : List ℕ}
      → WellFormed bitmap file
      → bitmap.on_file ≡ true
      → sync_bitmap io bitmap file ≡ (true, file')
      → is_on_file bitmap.offset file' pfn ≡ bit_at bitmap file pfn
  unfolding sync_bitmap bit_at
  sync_bitmap-bit_at bitmap file pfn w here done =
      ground (arith, flush-byte_at io bitmap file (pfn / 8) w.full)

  -- Where the file is up to date and can be read, `is_dumpable_file` gives the frame's bit, and the
  -- bitmap and the file still agree afterwards.
  pub is_dumpable_file-bit_at :
      (seek : ℕ → Bool) (stale : List ℕ) (bitmap : Bitmap) (file : List ℕ) (pfn : ℕ)
      → Synced bitmap file
      → ((off : ℕ) → (io off ≡ true) × (seek off ≡ true))
      → bitmap.offset + bufsize_bitmap * (pfn / pfn_bufbitmap) + bufsize_bitmap ≤ length file
      → let (dumpable, bitmap') = is_dumpable_file io seek stale bitmap file pfn in
        (dumpable ≡ is_on_file bitmap.offset file pfn) × Synced bitmap' file
  unfolding is_dumpable_file
  is_dumpable_file-bit_at seek stale bitmap file pfn synced works inside =
      let start = bitmap.offset + bufsize_bitmap * (pfn / pfn_bufbitmap) in
      elim (Option-cases (pread start bufsize_bitmap file)) [
        | inl e ↦ absurd (unfold pread in ground arith)
        | inr (buf, e) ↦ (
          ground (
            arith,
            works start,
            synced (pfn / 8),
            get_or-pread start bufsize_bitmap file (pfn % pfn_bufbitmap / 8) e,
          ),
          λ k. ground (
            arith,
            works start,
            synced k,
            get_or-pread start bufsize_bitmap file (k % bufsize_bitmap) e,
          ),
        )
      ]
