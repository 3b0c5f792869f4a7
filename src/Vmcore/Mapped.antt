-- ===== src/Vmcore/Mapped.antt =====
-- The window of the file that is mapped with `mmap`, and the pages that `mappage_elf` finds in it.
use makedumpfile.Prelude.{
  ℕ, ◌+◌, ◌-◌, ◌≤◌, ◌<◌, ◌≡◌, refl, ap, ◌∙◌, sym, subst, Bool, true, false, ◌&&◌, ◌||◌, not, Option,
  none, some, List, [], ◌∷◌, get_or, ltb, leb, ◌==◌, min, if◌then◌else◌, arith, Bool-cases, inl,
  inr,
}
use mathlib.Core.Bool.{false≢true}
use mathlib.Core.Option.{none-ne-some, some-injective}
use makedumpfile.Segments.{
  PtLoadSegment, has_paddr, paddr_to_offset, page_is_fractional, max_file_offset_from,
  offset_to_pt_load_end,
}
use makedumpfile.Segments.Lookup.{
  All, AllApart, IsWhole, segment_of, All-segment_of, page_is_fractional-paddr_to_offset,
}
use makedumpfile.Segments.Closest.{Among}
use makedumpfile.Vmcore.{
  MmapWindow, MmapInfo, update_mmap_range, is_mapped_with_mmap, in_window, mappage_elf, round,
  roundup, map_failed, initialize_mmap, try_mmap, mappages,
}
use makedumpfile.Vmcore.Bytes.{ByteAt}

-- The part of the file from `start` up to `past` belongs to a segment.
abbrev pub InSegment : List PtLoadSegment → ℕ → ℕ → Type 0
InSegment pt_loads start past =
    (s : PtLoadSegment) × Among s pt_loads
    × (s.file_offset ≤ start)
    × (past ≤ s.file_offset + (s.phys_end - s.phys_start))

-- The window is what a successful call of `mmap` gave, of at most a region's size, and shows a part
-- of one segment.
pub record IsMapped (info : MmapInfo) (window : MmapWindow) : Type 0 where
  pub ordered : window.start_offset ≤ window.end_offset
  pub small : window.end_offset ≤ window.start_offset + info.mmap_region_size
  pub in_file : window.end_offset ≤ max_file_offset_from 0 info.pt_loads
  pub in_segment : InSegment info.pt_loads window.start_offset window.end_offset
  pub mapped :
      info.mmap window.start_offset (window.end_offset - window.start_offset) ≡ window.mmap_buf
  pub not_failed : (window.mmap_buf == map_failed) ≡ false

-- As long as `mmap` is used, the window is such a one.
pub record IsWindow (info : MmapInfo) (window : MmapWindow) : Type 0 where
  pub usable : window.flag_usemmap ≡ true → IsMapped info window

not_used :
    (info : MmapInfo) (window : MmapWindow) → window.flag_usemmap ≡ false → IsWindow info window
not_used info window off = record { usable = λ on. absurd (false≢true (sym off ∙ on)) }

offset_to_pt_load_end-InSegment :
    (pt_loads : List PtLoadSegment) (offset start past : ℕ)
    → (offset_to_pt_load_end pt_loads offset == 0) ≡ false
    → offset ≤ start
    → past ≤ offset_to_pt_load_end pt_loads offset
    → InSegment pt_loads start past
unfolding offset_to_pt_load_end
offset_to_pt_load_end-InSegment [] offset start past found low high =
    absurd (false≢true (sym found))
offset_to_pt_load_end-InSegment (s ∷ pt_loads) offset start past found low high =
    elim (Bool-cases
      (leb s.file_offset offset && ltb offset (s.file_offset + (s.phys_end - s.phys_start)))) [
        | inl here ↦ (s, inl refl, ground arith, ground arith)
        | inr further ↦
            let r =
              offset_to_pt_load_end-InSegment pt_loads offset start past (ground arith) low
                (ground arith) in
            (r.0, inr r.1, r.2, r.3)
      ]

round-le : (x y : ℕ) → round x y ≤ x
round-le x y = omega arith

le-roundup : (x y : ℕ) → 0 < y → x ≤ roundup x y
le-roundup x y h = ground arith

-- If it is true, the window is one.
abbrev Updated : MmapInfo → Bool × MmapWindow → Type 0
Updated info r = r.0 ≡ true → IsMapped info (r.1)

update_mmap_range-IsMapped :
    (info : MmapInfo) (offset : ℕ) (window : MmapWindow)
    → 0 < info.page_size
    → Updated info (update_mmap_range info offset window)
unfolding update_mmap_range
update_mmap_range-IsMapped info offset window page =
    let pt_load_end = offset_to_pt_load_end info.pt_loads offset in
    let start = roundup offset info.page_size in
    let end = min (max_file_offset_from 0 info.pt_loads) (round pt_load_end info.page_size) in
    let size = min (end - start) info.mmap_region_size in
    let buf = info.mmap start size in
    let refused : Bool × MmapWindow = (false, record window { mmap_buf = buf }) in
    let moved : Bool × MmapWindow =
      (true, record window { mmap_buf = buf; start_offset = start; end_offset = start + size }) in
    let tried : Bool × MmapWindow = if buf == map_failed then refused else moved in
    elim (Bool-cases (pt_load_end == 0 || leb end start)) [
      | inl nothing ↦
          subst (Updated info) (sym (ap (λ b. if b then (false, window) else tried) nothing))
            (λ h. absurd (false≢true h))
      | inr room ↦
          subst (Updated info) (sym (ap (λ b. if b then (false, window) else tried) room))
            (elim (Bool-cases (buf == map_failed)) [
              | inl failed ↦
                  subst (Updated info) (sym (ap (λ b. if b then refused else moved) failed))
                    (λ h. absurd (false≢true h))
              | inr fine ↦
                  subst (Updated info) (sym (ap (λ b. if b then refused else moved) fine)) (λ h.
                    let same : size ≡ start + size - start = omega arith in
                    record {
                      ordered = omega arith;
                      small = omega arith;
                      in_file = ground (arith, room);
                      in_segment =
                          offset_to_pt_load_end-InSegment info.pt_loads offset start (start + size)
                            (ground (arith, room)) (le-roundup offset info.page_size page)
                            (ground (arith, room, round-le pt_load_end info.page_size));
                      mapped = ap (λ n. info.mmap start n) (sym same);
                      not_failed = fine;
                    })
            ])
    ]

segment_of-Among :
    (pt_loads : List PtLoadSegment) (paddr : ℕ) {s : PtLoadSegment}
    → segment_of pt_loads paddr ≡ some s
    → Among s pt_loads
segment_of-Among [] paddr e = absurd (none-ne-some _ e)
segment_of-Among (t ∷ pt_loads) paddr {s} e = elim (Bool-cases (has_paddr t paddr)) [
  | inl inside ↦ inl (
      sym (
        some-injective _ _
          (sym (ap (λ b. if b then some t else segment_of pt_loads paddr) inside) ∙ e)))
  | inr outside ↦ inr (
      segment_of-Among pt_loads paddr
        (sym (ap (λ b. if b then some t else segment_of pt_loads paddr) outside) ∙ e))
]

-- Two guards of a result that is not a null pointer.
guard_passed :
    (b : Bool) (window : MmapWindow) (r : Option ℕ × MmapWindow) {ptr : ℕ}
    → (if b then (none, window) else r).0 ≡ some ptr
    → (b ≡ false) × ((if b then (none, window) else r) ≡ r)
guard_passed true window r e = absurd (none-ne-some _ e)
guard_passed false window r e = (refl, refl)

if_P :
    (P : Option ℕ × MmapWindow → Type 0) (b : Bool) {r s : Option ℕ × MmapWindow}
    → (b ≡ true → P r)
    → (b ≡ false → P s)
    → P (if b then r else s)
if_P P true first second = first refl
if_P P false first second = second refl

-- The window stays usable, and a pointer is the place in it of a page of the file that it shows whole.
abbrev PointsTo : MmapInfo → ℕ → Option ℕ × MmapWindow → Type 0
PointsTo info offset r =
    IsWindow info (r.1)
    × ((ptr : ℕ)
        → r.0 ≡ some ptr
        → (ptr ≡ r.1.mmap_buf + (offset - r.1.start_offset))
          × (r.1.start_offset ≤ offset)
          × (offset + info.page_size ≤ r.1.end_offset)
          × IsMapped info (r.1))

null_pointer :
    (info : MmapInfo) (offset : ℕ) (window : MmapWindow)
    → IsWindow info window
    → PointsTo info offset (none, window)
null_pointer info offset window is = (is, λ ptr e. absurd (none-ne-some ptr e))

in_window-PointsTo :
    (info : MmapInfo) (offset : ℕ) (window : MmapWindow)
    → IsMapped info window
    → PointsTo info offset (in_window info offset window)
in_window-PointsTo info offset window is =
    if_P (PointsTo info offset)
      (ltb offset window.start_offset || ltb window.end_offset (offset + info.page_size))
      (λ off. null_pointer info offset window (record { usable = λ on. is }))
      (λ on. (
        record { usable = λ h. is },
        λ ptr e. (sym (some-injective _ _ e), ground (arith, on), ground (arith, on), is),
      ))

-- The two tests of the offset have passed where the result is a pointer.
mappage_elf-PointsTo :
    (info : MmapInfo) (paddr : ℕ) (window : MmapWindow)
    → 0 < info.page_size
    → IsWindow info window
    → let r = mappage_elf info paddr window in
      let offset = paddr_to_offset info.pt_loads paddr in
      PointsTo info offset r
      × ((ptr : ℕ)
          → r.0 ≡ some ptr
          → (offset == 0 || page_is_fractional info.page_size info.pt_loads offset) ≡ false)
unfolding mappage_elf is_mapped_with_mmap
mappage_elf-PointsTo info paddr window page is =
    let offset = paddr_to_offset info.pt_loads paddr in
    let offset2 = paddr_to_offset info.pt_loads (paddr + info.page_size) in
    let update = update_mmap_range info offset window in
    let P = PointsTo info offset in
    let null = null_pointer info offset window is in
    let choice : Option ℕ × MmapWindow =
      if is_mapped_with_mmap info offset window
      then in_window info offset window
      else if update.0
      then in_window info offset (update.1)
      else (none, record (update.1) { flag_usemmap = false }) in
    let last : Option ℕ × MmapWindow =
      if offset2 == 0
      then (none, window)
      else if not (offset2 == offset + info.page_size)
      then (none, window)
      else choice in
    let tested : Option ℕ × MmapWindow =
      if offset == 0 || page_is_fractional info.page_size info.pt_loads offset
      then (none, window)
      else last in
    let chosen : P choice =
      if_P P (is_mapped_with_mmap info offset window)
        (λ on. in_window-PointsTo info offset window (is.usable (ground arith)))
        (λ off.
          if_P P (update.0)
            (λ moved.
              in_window-PointsTo info offset (update.1)
                (update_mmap_range-IsMapped info offset window page moved))
            (λ stays.
              null_pointer info offset (record (update.1) { flag_usemmap = false })
                (not_used info (record (update.1) { flag_usemmap = false }) refl))) in
    let fine : P last =
      if_P P (offset2 == 0) (λ h. null)
        (λ h. if_P P (not (offset2 == offset + info.page_size)) (λ g. null) (λ g. chosen)) in
    (
      if_P P (not window.flag_usemmap) (λ h. null)
          (λ h.
            if_P P (offset == 0 || page_is_fractional info.page_size info.pt_loads offset)
              (λ g. null) (λ g. fine)),
      λ ptr e.
          let used = guard_passed (not window.flag_usemmap) window tested e in
          (guard_passed (offset == 0 || page_is_fractional info.page_size info.pt_loads offset)
            window last (sym (ap (λ r. r.0) (used.1)) ∙ e)).0,
    )

first_window-Updated :
    (info : MmapInfo) (loads : List PtLoadSegment) (window : MmapWindow)
    → 0 < info.page_size
    → Updated info (elim loads [
      | [] ↦ (false, window)
      | pls ∷ _ ↦ update_mmap_range info (paddr_to_offset info.pt_loads pls.phys_start) window
    ])
first_window-Updated info [] window page = λ h. absurd (false≢true h)
first_window-Updated info (pls ∷ _) window page =
    update_mmap_range-IsMapped info (paddr_to_offset info.pt_loads pls.phys_start) window page

try_mmap-IsWindow :
    (info : MmapInfo) (window : MmapWindow)
    → 0 < info.page_size
    → IsWindow info (try_mmap info window)
unfolding try_mmap initialize_mmap
try_mmap-IsWindow info window page =
    let first =
      first_window-Updated info info.pt_loads (record window { mmap_buf = map_failed }) page in
    record {
      usable = λ on.
          let m = first on in
          record {
            ordered = m.ordered;
            small = m.small;
            in_file = m.in_file;
            in_segment = m.in_segment;
            mapped = m.mapped;
            not_failed = m.not_failed;
          };
    }

mappages-IsWindow :
    (info : MmapInfo) (paddrs : List ℕ) (window : MmapWindow)
    → 0 < info.page_size
    → IsWindow info window
    → IsWindow info (mappages info paddrs window)
unfolding mappages
mappages-IsWindow info [] window page is = is
mappages-IsWindow info (paddr ∷ paddrs) window page is =
    mappages-IsWindow info paddrs ((mappage_elf info paddr window).1) page
      ((mappage_elf-PointsTo info paddr window page is).0.0)

-- With pages that are not empty, from the attempt in `initial` on, and whatever pages `mappage_elf`
-- is asked for then: as long as
-- `mmap` is used, the window is what a successful call of `mmap` gave, at the address `mmap_buf`, is
-- of at most a region's size, and shows a part of the file that one segment takes. Calls of `munmap`
-- by others are left out.
pub mappages-try_mmap-IsWindow :
    (info : MmapInfo) (paddrs : List ℕ) (window : MmapWindow)
    → 0 < info.page_size
    → IsWindow info (mappages info paddrs (try_mmap info window))
mappages-try_mmap-IsWindow info paddrs window page =
    mappages-IsWindow info paddrs (try_mmap info window) page (try_mmap-IsWindow info window page)

-- What `mmap` shows: the bytes of the file, at the address that a successful call gave.
abbrev pub ShowsFile : (ℕ → ℕ) → List ℕ → MmapInfo → Type 0
ShowsFile memory file info =
    (offset size i : ℕ)
    → (info.mmap offset size == map_failed) ≡ false
    → i < size
    → memory (info.mmap offset size + i) ≡ get_or file (offset + i) 0

-- For segments that are whole in the file, behind its header and apart from one another, pages that are
-- not empty, a memory in which the mappings show the file, and a window that is mapped as long as
-- `mmap` is used: where `mappage_elf` gives a pointer,
-- a whole page at that address is inside the window that is mapped then, and each of its bytes is the
-- one that a segment with its address has in the file. Calls of `munmap` by others are left out.
pub mappage_elf-ByteAt :
    (info : MmapInfo) (memory : ℕ → ℕ) (file : List ℕ) (paddr : ℕ) (window : MmapWindow) {ptr : ℕ}
    → 0 < info.page_size
    → ShowsFile memory file info
    → IsWindow info window
    → All IsWhole info.pt_loads
    → AllApart info.pt_loads
    → let r = mappage_elf info paddr window in
      r.0 ≡ some ptr
      → IsMapped info (r.1)
        × (r.1.mmap_buf ≤ ptr)
        × (ptr + info.page_size ≤ r.1.mmap_buf + (r.1.end_offset - r.1.start_offset))
        × ((k : ℕ) → k < info.page_size → ByteAt file info.pt_loads (paddr + k) (memory (ptr + k)))
mappage_elf-ByteAt info memory file paddr window {ptr} page shows is whole apart e =
    let r = mappage_elf info paddr window in
    let window' = r.1 in
    let start = window'.start_offset in
    let offset = paddr_to_offset info.pt_loads paddr in
    let found = mappage_elf-PointsTo info paddr window page is in
    let (place, low, high, m) = found.0.1 ptr e in
    let passed = found.1 ptr e in
    elim (page_is_fractional-paddr_to_offset info.page_size info.pt_loads paddr whole apart) [
      | inl missing ↦ let no : ⊥ = ground (arith, missing, passed) in absurd no
      | inr (s, at_s, inside, at, pos, fractional) ↦
          let is_whole : IsWhole s = All-segment_of IsWhole info.pt_loads paddr whole at_s in
          let ends : leb (paddr + info.page_size) s.phys_end ≡ true =
            ground (arith, passed, fractional, pos) in
          (
            m,
            omega (arith, place),
            omega (arith, place, low, high),
            λ k h.
                let to_file : memory (ptr + k) ≡ get_or file (start + (offset - start + k)) 0 =
                  ap memory {x = ptr + k} (omega (arith, place))
                  ∙ ap (λ a. memory (a + (offset - start + k))) (sym m.mapped)
                  ∙ shows start (window'.end_offset - start) (offset - start + k)
                      (ap (λ a. a == map_failed) m.mapped ∙ m.not_failed)
                      (omega (arith, h, low, high)) in
                let same : start + (offset - start + k)
                    ≡ s.file_offset + (paddr + k - s.phys_start) =
                  ground (arith, low, at, inside) in
                let within : ltb (paddr + k - s.phys_start) s.file_size ≡ true =
                  ground (arith, h, ends, is_whole, inside) in
                inr (
                  s,
                  segment_of-Among info.pt_loads paddr at_s,
                  ground (arith, h, ends, inside),
                  to_file
                      ∙ ap (λ i. get_or file i 0) same
                      ∙ sym (
                          ap
                            (λ b.
                              if b
                              then get_or file (s.file_offset + (paddr + k - s.phys_start)) 0
                              else 0)
                            within),
                ),
          )
    ]
