-- ===== src/Holes/Frames.antt =====
-- Which bits are set.
use makedumpfile.Prelude.{
  ℕ, zero, suc, ◌+◌, ◌-◌, ◌*◌, ◌/◌, ◌%◌, ◌≤◌, ◌<◌, ◌≡◌, refl, ap, ◌∙◌, sym, subst, Bool, true,
  false, ◌&&◌, ◌||◌, not, none, some, List, [], ◌∷◌, length-replicate, replicate, get_or, ltb, leb,
  if◌then◌else◌, arith, Bool-cases, inl, inr, min, max,
}
use makedumpfile.Prelude.Bytes.{test_bit}
use makedumpfile.Cycle.{Info, Cycle, is_cyclic_region}
use makedumpfile.Cycle.Coverage.{Fits}
use makedumpfile.File.{pwrite}
use makedumpfile.File.Laws.{get_or-pwrite, length-pwrite}
use makedumpfile.Bitmap.{is_on, is_dumpable_buffer, set_bitmap_buffer}
use makedumpfile.Bitmap.Bits.{IsBytes}
use makedumpfile.Bitmap.Buffer.{Covers, set_bitmap_buffer-is_dumpable}
use makedumpfile.Holes.{
  PtLoad, Marks, paddr_to_pfn, round_8, roundup_8, lower, set_frames, set_bytes, set_range,
  set_load, set_loads, create_bitmap_from_memhole,
}

get_or-replicate : (n v i : ℕ) → get_or (replicate n v) i 0 ≡ (if ltb i n then v else 0)
get_or-replicate zero v i = ground arith
get_or-replicate (suc n) v zero = ground arith
get_or-replicate (suc n) v (suc i) = ground (arith, get_or-replicate n v i)

constant_byte : (j : ℕ) → j < 8 → (test_bit 0xff j ≡ true) × (test_bit 0 j ≡ false)
unfolding test_bit
constant_byte zero h = (refl, refl)
constant_byte (suc zero) h = (refl, refl)
constant_byte (suc (suc zero)) h = (refl, refl)
constant_byte (suc (suc (suc zero))) h = (refl, refl)
constant_byte (suc (suc (suc (suc zero)))) h = (refl, refl)
constant_byte (suc (suc (suc (suc (suc zero))))) h = (refl, refl)
constant_byte (suc (suc (suc (suc (suc (suc zero)))))) h = (refl, refl)
constant_byte (suc (suc (suc (suc (suc (suc (suc zero))))))) h = (refl, refl)
constant_byte (suc (suc (suc (suc (suc (suc (suc (suc j)))))))) h =
    (let no : ⊥ = omega arith in absurd no)

-- Whole bytes are set, and the others stay.
is_on-pwrite :
    (from n i : ℕ) (buf : List ℕ)
    → is_on (pwrite from (replicate n 0xff) buf) i
      ≡ (if leb from (i / 8) && ltb (i / 8) (from + n) then true else is_on buf i)
is_on-pwrite from n i buf = ground (
  arith,
  constant_byte (i % 8),
  get_or-pwrite from (replicate n 0xff) buf (i / 8),
  get_or-replicate n 0xff (i / 8 - from),
  length-replicate {A = ℕ} n 0xff,
)

pwrite-IsBytes :
    (from n : ℕ) (buf : List ℕ) → IsBytes buf → IsBytes (pwrite from (replicate n 0xff) buf)
pwrite-IsBytes from n buf h k = ground (
  arith,
  h k,
  get_or-pwrite from (replicate n 0xff) buf k,
  get_or-replicate n 0xff (k - from),
  length-replicate {A = ℕ} n 0xff,
)

-- The two loops over single frames and the whole bytes between them cover a range.
three_parts :
    (start p t q : ℕ)
    → start % 8 ≡ 0
    → start ≤ p
    → p < t
    → let s = min (roundup_8 p) t in
      let e = max (round_8 t) p in
      ((leb e q && ltb q (e + (t - e)))
        || (leb (start + (s - start) / 8 * 8) q && ltb q (start + (e - start) / 8 * 8))
        || (leb p q && ltb q (p + (s - p))))
      ≡ (leb p q && ltb q (p + (t - p)))
three_parts start p t q aligned low h = ground arith

-- Whether a frame lies in a segment, or in one of several.
abbrev pub in_load : ℕ → ℕ → PtLoad → ℕ → Bool
in_load page_shift arch_pfn_offset load q =
    leb (paddr_to_pfn page_shift arch_pfn_offset load.phys_start) q
    && ltb q (paddr_to_pfn page_shift arch_pfn_offset load.phys_end)

abbrev pub in_loads : ℕ → ℕ → List PtLoad → ℕ → Bool
in_loads page_shift arch_pfn_offset [] q = false
in_loads page_shift arch_pfn_offset (load ∷ loads) q =
    in_load page_shift arch_pfn_offset load q || in_loads page_shift arch_pfn_offset loads q

clear_buffer_bit :
    (n i : ℕ) (inside : Bool) → (if not inside then false else is_on (replicate n 0) i) ≡ false
clear_buffer_bit n i inside = ground (arith, constant_byte (i % 8), get_or-replicate n 0 (i / 8))

or_false : (b : Bool) → (b || false) ≡ b
or_false true = refl
or_false false = refl

module _ (info : Info) (cycle : Cycle) (count_memhole : Bool) (fits : Fits info cycle) where
  abbrev bit : Marks → ℕ → Bool
  bit marks q = is_dumpable_buffer marks.bitmap q (some cycle)

  -- All went well, and of the frames from `pfn` on, `n` are set.
  abbrev SetFrom : ℕ → ℕ → ℕ → Marks → Bool × Marks → Type 0
  SetFrom pfn n q marks r =
      (r.0 ≡ true)
      × (bit r.1 q ≡ (if leb pfn q && ltb q (pfn + n) then true else bit marks q))
      × Covers info r.1.bitmap

  set_frames-bit :
      (n pfn q : ℕ) (marks : Marks)
      → Covers info marks.bitmap
      → cycle.start_pfn ≤ pfn
      → pfn + n ≤ cycle.end_pfn
      → SetFrom pfn n q marks (set_frames cycle count_memhole n pfn marks)
  unfolding set_frames is_cyclic_region
  set_frames-bit zero pfn q marks covers low high = (refl, ground arith, covers)
  set_frames-bit (suc n) pfn q marks covers low high =
      let r = set_bitmap_buffer-is_dumpable info marks.bitmap cycle pfn q true covers fits in
      let bitmap' = (set_bitmap_buffer marks.bitmap pfn true (some cycle)).1 in
      let marks' : Marks = record {
        bitmap = bitmap';
        pfn_memhole = lower count_memhole 1 marks.pfn_memhole;
      } in
      let rest = set_frames-bit n (pfn + 1) q marks' r.2 (omega arith) (omega arith) in
      let ok : (set_bitmap_buffer marks.bitmap pfn true (some cycle)).0 ≡ true =
        ground (arith, r.0) in
      let after = set_frames cycle count_memhole n (pfn + 1) marks' in
      let step = ap (λ d. if not d then (false, record marks { bitmap = bitmap' }) else after) ok in
      subst (SetFrom pfn (suc n) q marks) (sym step)
        (rest.0, ground (arith, ok, r.1, rest.1), rest.2)

  -- Of the frames of the cycle, those of the bytes from `from` up to `to` are set.
  abbrev SetBytes : ℕ → ℕ → ℕ → Marks → Marks → Type 0
  SetBytes from to q marks marks' =
      (bit marks' q ≡ (
        if leb (cycle.start_pfn + from * 8) q
          && ltb q (cycle.start_pfn + to * 8)
          && is_cyclic_region q (some cycle)
        then true
        else bit marks q))
      × Covers info marks'.bitmap

  set_bytes-bit :
      (from to q : ℕ) (marks : Marks)
      → Covers info marks.bitmap
      → SetBytes from to q marks (set_bytes cycle count_memhole from to marks)
  unfolding set_bytes is_dumpable_buffer is_cyclic_region
  set_bytes-bit from to q marks covers =
      let bitmap = marks.bitmap in
      let n = to - from in
      let buf' = pwrite from (replicate n 0xff) bitmap.buf in
      let filled : Marks = record {
        bitmap = record bitmap { buf = buf' };
        pfn_memhole = lower count_memhole (n * 8) marks.pfn_memhole;
      } in
      elim (Bool-cases (ltb from to)) [
        | inl less ↦
            let covers' : Covers info (filled.bitmap) = record {
              bytes = pwrite-IsBytes from n bitmap.buf covers.bytes;
              room = omega (arith, covers.room, length-pwrite from (replicate n 0xff) bitmap.buf);
            } in
            subst (SetBytes from to q marks) (sym (ap (λ t. if t then filled else marks) less))
              (ground (arith, is_on-pwrite from n (q - cycle.start_pfn) bitmap.buf), covers')
        | inr none_left ↦
            subst (SetBytes from to q marks) (sym (ap (λ t. if t then filled else marks) none_left))
              (ground arith, covers)
      ]

  set_range-bit :
      (pfn_start pfn_end q : ℕ) (marks : Marks)
      → cycle.start_pfn % 8 ≡ 0
      → Covers info marks.bitmap
      → cycle.start_pfn ≤ pfn_start
      → pfn_start < pfn_end
      → pfn_end ≤ cycle.end_pfn
      → SetFrom pfn_start
          (pfn_end - pfn_start)
          q
          marks
          (set_range cycle count_memhole pfn_start pfn_end marks)
  unfolding set_range is_cyclic_region
  set_range-bit pfn_start pfn_end q marks aligned covers low some_frames high =
      let s = min (roundup_8 pfn_start) pfn_end in
      let e = max (round_8 pfn_end) pfn_start in
      let a = (s - cycle.start_pfn) / 8 in
      let b = (e - cycle.start_pfn) / 8 in
      let one = set_frames cycle count_memhole (s - pfn_start) pfn_start marks in
      let first = set_frames-bit (s - pfn_start) pfn_start q marks covers low (omega arith) in
      let second = set_bytes-bit a b q one.1 first.2 in
      let marks₂ = set_bytes cycle count_memhole a b one.1 in
      let inside : b * 8 + cycle.start_pfn ≤ pfn_end = omega arith in
      let third = set_frames-bit (pfn_end - e) e q marks₂ second.1 (omega arith) (omega arith) in
      let last = set_frames cycle count_memhole (pfn_end - e) e marks₂ in
      let rounded : leb pfn_start e ≡ true = ground arith in
      let go : set_range cycle count_memhole pfn_start pfn_end marks ≡ last =
        ap (λ d. if not d then (false, one.1) else if leb pfn_start e then last else (true, marks₂))
          first.0
        ∙ ap (λ d. if d then last else (true, marks₂)) rounded in
      let parts = three_parts cycle.start_pfn pfn_start pfn_end q aligned low some_frames in
      subst (SetFrom pfn_start (pfn_end - pfn_start) q marks) (sym go)
        (third.0, ground (arith, third.1, second.0, first.1, parts, inside), third.2)

  abbrev Loaded : (ℕ → Bool) → ℕ → Marks → Bool × Marks → Type 0
  Loaded inside q marks r =
      (r.0 ≡ true)
      × (bit r.1 q ≡ ((is_cyclic_region q (some cycle) && inside q) || bit marks q))
      × Covers info r.1.bitmap

  set_load-bit :
      (page_shift arch_pfn_offset q : ℕ) (load : PtLoad) (marks : Marks)
      → cycle.start_pfn % 8 ≡ 0
      → Covers info marks.bitmap
      → Loaded
          (in_load page_shift arch_pfn_offset load)
          q
          marks
          (set_load cycle count_memhole page_shift arch_pfn_offset load marks)
  unfolding set_load is_cyclic_region
  set_load-bit page_shift arch_pfn_offset q load marks aligned covers =
      let first = max (paddr_to_pfn page_shift arch_pfn_offset load.phys_start) cycle.start_pfn in
      let past = min (paddr_to_pfn page_shift arch_pfn_offset load.phys_end) cycle.end_pfn in
      let done = set_range cycle count_memhole first past marks in
      elim (Bool-cases (leb past first)) [
        | inl nothing ↦
            subst (Loaded (in_load page_shift arch_pfn_offset load) q marks)
              (sym (ap (λ b. if b then (true, marks) else done) nothing))
              (refl, ground arith, covers)
        | inr less ↦
            let r =
              set_range-bit first past q marks aligned covers (omega arith) (ground arith)
                (omega arith) in
            subst (Loaded (in_load page_shift arch_pfn_offset load) q marks)
              (sym (ap (λ b. if b then (true, marks) else done) less))
              (r.0, ground (arith, r.1), r.2)
      ]

  set_loads-bit :
      (page_shift arch_pfn_offset q : ℕ) (loads : List PtLoad) (marks : Marks)
      → cycle.start_pfn % 8 ≡ 0
      → Covers info marks.bitmap
      → Loaded
          (in_loads page_shift arch_pfn_offset loads)
          q
          marks
          (set_loads cycle count_memhole page_shift arch_pfn_offset loads marks)
  unfolding set_loads
  set_loads-bit page_shift arch_pfn_offset q [] marks aligned covers = (refl, ground arith, covers)
  set_loads-bit page_shift arch_pfn_offset q (load ∷ loads) marks aligned covers =
      let one = set_load cycle count_memhole page_shift arch_pfn_offset load marks in
      let r = set_load-bit page_shift arch_pfn_offset q load marks aligned covers in
      let rest = set_loads-bit page_shift arch_pfn_offset q loads one.1 aligned r.2 in
      let after = set_loads cycle count_memhole page_shift arch_pfn_offset loads one.1 in
      subst (Loaded (in_loads page_shift arch_pfn_offset (load ∷ loads)) q marks)
        (sym (ap (λ d. if not d then (false, one.1) else after) r.0))
        (rest.0, ground (arith, r.1, rest.1), rest.2)

  -- If the cycle starts at a whole byte and fits the bitmap, every bit is set without an error, and
  -- a frame of the cycle is dumpable afterwards exactly if it lies in one of the segments, from the
  -- frame of its first byte up to, and not with, the frame of its end, where `paddr_to_pfn` numbers
  -- the frames from `ARCH_PFN_OFFSET` on, modulo 2^64.
  pub create_bitmap_from_memhole-is_dumpable :
      (bufsize_cyclic page_shift arch_pfn_offset q : ℕ) (loads : List PtLoad) (marks : Marks)
      → cycle.start_pfn % 8 ≡ 0
      → info.pfn_cyclic ≤ 8 * bufsize_cyclic
      → let (done, marks') =
          create_bitmap_from_memhole cycle count_memhole bufsize_cyclic page_shift arch_pfn_offset
            loads marks in
        (done ≡ true)
        × (is_dumpable_buffer marks'.bitmap q (some cycle)
            ≡ (is_cyclic_region q (some cycle) && in_loads page_shift arch_pfn_offset loads q))
  unfolding create_bitmap_from_memhole is_dumpable_buffer
  create_bitmap_from_memhole-is_dumpable bufsize_cyclic page_shift arch_pfn_offset q loads marks
        aligned room =
      let cleared : Marks = record marks {
        bitmap = record (marks.bitmap) { no_block = none; buf = replicate bufsize_cyclic 0 };
      } in
      let covers : Covers info (cleared.bitmap) = record {
        bytes = λ k. ground (arith, get_or-replicate bufsize_cyclic 0 k);
        room = omega (arith, room, length-replicate {A = ℕ} bufsize_cyclic 0);
      } in
      let r = set_loads-bit page_shift arch_pfn_offset q loads cleared aligned covers in
      let clear : bit cleared q ≡ false =
        clear_buffer_bit bufsize_cyclic (q - cycle.start_pfn) (is_cyclic_region q (some cycle)) in
      (
        r.0,
        r.1
            ∙ ap
                (λ b.
                  (is_cyclic_region q (some cycle) && in_loads page_shift arch_pfn_offset loads q)
                  || b)
                clear
            ∙ or_false _,
      )
