-- ===== src/Vmcore/Page.antt =====
-- What `readpage_elf` reads: the bytes of a page, piece by piece.
use makedumpfile.Prelude.{
  ℕ, zero, suc, ◌+◌, ◌-◌, ◌≤◌, ◌<◌, ◌≡◌, ◌⊎◌, refl, ap, ◌∙◌, sym, subst, Bool, true, false, not,
  Option, none, some, List, [], ◌∷◌, ◌++◌, length, length-append, length-replicate, length-take,
  length-drop, get_or, replicate, take, drop, ltb, leb, ◌==◌, min, if◌then◌else◌, arith, Bool-cases,
  inl, inr,
}
use makedumpfile.File.{pread}
use makedumpfile.File.Laws.{get_or-take, get_or-drop}
use makedumpfile.Segments.{PtLoadSegment, closest_pt_load}
use makedumpfile.Segments.Lookup.{All}
use makedumpfile.Segments.Closest.{Among, NoneWithin, Exact, Ahead, closest_pt_load-NoneWithin}
use makedumpfile.Vmcore.{
  Outcome, filled, failed, fault, after_bytes, read_from_vmcore, zeros_up_to, data_of, from_segment,
  read_rounds, finish_page, readpage_elf,
}
use makedumpfile.Vmcore.Bytes.{
  BytesAt, BytesAt-append, zeros-outside, zeros-inside, NoneWithin-nothing,
}

-- A segment that ends after it starts, with its part of the file inside it and inside the file.
pub record IsSound (file : List ℕ) (pls : PtLoadSegment) : Type 0 where
  pub ordered : pls.phys_start ≤ pls.phys_end
  pub fits : pls.file_size ≤ pls.phys_end - pls.phys_start
  pub inside : pls.file_offset + pls.file_size ≤ length file

length-piece :
    (off n : ℕ) (file : List ℕ) → off + n ≤ length file → length (take n (drop off file)) ≡ n
length-piece off n file le =
    ground (arith, length-take {0} n (drop off file), length-drop {0} off file)

module _ (seek : ℕ → Bool) (file : List ℕ) (pt_loads : List PtLoadSegment) where
  -- What is read of the `left` bytes from an address: some of them, and no segment has the others.
  abbrev pub Reads : ℕ → ℕ → Outcome → Type 0
  Reads left paddr r =
      (bytes : List ℕ) × (r ≡ filled bytes)
      × (length bytes ≤ left)
      × BytesAt file pt_loads paddr bytes
      × All (NoneWithin (paddr + length bytes) (left - length bytes)) pt_loads

  All-NoneWithin :
      (a b d e : ℕ) → a ≡ b → d ≡ e → All (NoneWithin a d) pt_loads → All (NoneWithin b e) pt_loads
  All-NoneWithin a b d e from size far =
      subst (λ n. All (NoneWithin b n) pt_loads) size
        (subst (λ n. All (NoneWithin n d) pt_loads) from far)

  Reads-after_bytes :
      (pre : List ℕ) (n left paddr : ℕ) {r : Outcome}
      → length pre ≡ n
      → n ≤ left
      → BytesAt file pt_loads paddr pre
      → Reads (left - n) (paddr + n) r
      → Reads left paddr (after_bytes pre r)
  Reads-after_bytes pre n left paddr e le at (bytes, same, short, at', far) =
      let total : length (pre ++ bytes) ≡ n + length bytes =
        omega (arith, length-append {0} pre bytes, e) in
      (
        pre ++ bytes,
        ap (after_bytes pre) same,
        omega (arith, total, short, le),
        BytesAt-append file pt_loads paddr pre bytes at
            (subst (λ m. BytesAt file pt_loads (paddr + m) bytes) (sym e) at'),
        All-NoneWithin (paddr + n + length bytes) (paddr + length (pre ++ bytes))
            (left - n - length bytes) (left - length (pre ++ bytes)) (omega (arith, total))
            (omega (arith, total)) far,
      )

  -- The bytes of the part of a segment that is in the file.
  pub piece-BytesAt :
      (s : PtLoadSegment) (paddr n : ℕ)
      → Among s pt_loads
      → s.phys_start ≤ paddr
      → paddr + n ≤ s.phys_start + s.file_size
      → paddr + n ≤ s.phys_end
      → BytesAt file pt_loads paddr (take n (drop (s.file_offset + (paddr - s.phys_start)) file))
  piece-BytesAt s paddr n among low in_file high =
      let off = s.file_offset + (paddr - s.phys_start) in
      record {
        at = λ k h.
            let less : k < n = omega (arith, h, length-take {0} n (drop off file)) in
            let place : off + k ≡ s.file_offset + (paddr + k - s.phys_start) = omega (arith, low) in
            let taken : get_or (take n (drop off file)) k 0 ≡ get_or (drop off file) k 0 =
              ground (arith, get_or-take n k (drop off file), less) in
            let inside : ltb (paddr + k - s.phys_start) s.file_size ≡ true =
              ground (arith, less, in_file, low) in
            inr (
              s,
              among,
              ground (arith, less, high, low),
              taken
                  ∙ get_or-drop off k file
                  ∙ ap (λ i. get_or file i 0) place
                  ∙ sym (
                      ap
                        (λ b.
                          if b
                          then get_or file (s.file_offset + (paddr + k - s.phys_start)) 0
                          else 0)
                        inside),
            );
      }

  module _ (fuel : ℕ) (next : ℕ → ℕ → Outcome)
      (rest : (left paddr : ℕ) → left ≤ fuel → Reads left paddr (next left paddr)) where
    zeros_up_to-Reads :
        (s : PtLoadSegment) (left paddr : ℕ)
        → Among s pt_loads
        → left ≤ suc fuel
        → (left ≤ fuel) ⊎ (paddr < s.phys_end)
        → (left ≡ 0) ⊎ ((s.phys_start + s.file_size ≤ paddr) × (paddr ≤ s.phys_end))
        → Reads left paddr (zeros_up_to seek file next s left paddr)
    zeros_up_to-Reads s left paddr among le progress past =
        let size = min (s.phys_end - paddr) left in
        let zeros = after_bytes (replicate size 0) (next (left - size) (paddr + size)) in
        let more = if ltb s.phys_end paddr then fault else zeros in
        elim (Bool-cases (left == 0)) [
          | inl done ↦
              subst (Reads left paddr) (sym (ap (λ b. if b then next left paddr else more) done))
                (rest left paddr (ground (arith, done)))
          | inr busy ↦
              let inside : (s.phys_start + s.file_size ≤ paddr) × (paddr ≤ s.phys_end) =
                ground (arith, busy, past) in
              let ordered : ltb s.phys_end paddr ≡ false = ground (arith, inside) in
              let shorter : left - size ≤ fuel = ground (arith, le, progress, busy) in
              subst (Reads left paddr)
                (sym (
                  ap (λ b. if b then next left paddr else more) busy
                  ∙ ap (λ b. if b then fault else zeros) ordered))
                (Reads-after_bytes (replicate size 0) size left paddr
                  (length-replicate {A = ℕ} size 0) (ground arith)
                  (zeros-inside file pt_loads s paddr size among inside.0 (ground (arith, inside)))
                  (rest (left - size) (paddr + size) shorter))
        ]

    data_of-Reads :
        (s : PtLoadSegment) (left paddr : ℕ)
        → ((off : ℕ) → seek off ≡ true)
        → IsSound file s
        → Among s pt_loads
        → 0 < left
        → left ≤ suc fuel
        → s.phys_start ≤ paddr
        → paddr ≤ s.phys_end
        → (left ≤ fuel) ⊎ (paddr < s.phys_end)
        → Reads left paddr (data_of seek file next s left paddr)
    unfolding read_from_vmcore pread
    data_of-Reads s left paddr seeks sound among pos le low high progress =
        let offset = paddr - s.phys_start in
        let size = min (s.file_size - offset) left in
        let off = s.file_offset + offset in
        let zeros = zeros_up_to seek file next s left paddr in
        let tail = zeros_up_to seek file next s (left - size) (paddr + size) in
        let got : Option (List ℕ) → Outcome =
          λ r. elim r [ none ↦ failed | some bytes ↦ after_bytes bytes tail ] in
        elim (Bool-cases (ltb offset s.file_size)) [
          | inl in_file ↦
              let le_file : off + size ≤ length file = ground (arith, in_file, sound) in
              let whole : leb (off + size) (length file) ≡ true = ground (arith, le_file) in
              let piece = take size (drop off file) in
              let reads : read_from_vmcore seek file off size ≡ some piece =
                ap
                  (λ b.
                    if not b
                    then none
                    else (if leb (off + size) (length file) then some piece else none))
                  (seeks off)
                ∙ ap (λ b. if b then some piece else none) whole in
              subst (Reads left paddr)
                (sym (
                  ap (λ b. if b then got (read_from_vmcore seek file off size) else zeros) in_file
                  ∙ ap got reads))
                (Reads-after_bytes piece size left paddr (length-piece off size file le_file)
                  (ground arith)
                  (piece-BytesAt s paddr size among low (ground (arith, in_file, low))
                    (ground (arith, in_file, low, sound, high)))
                  (zeros_up_to-Reads s (left - size) (paddr + size) among (ground (arith, le))
                    (inl (ground (arith, le, in_file, pos)))
                    (ground (arith, in_file, low, sound, high))))
          | inr past ↦
              subst (Reads left paddr)
                (sym
                  (ap (λ b. if b then got (read_from_vmcore seek file off size) else zeros) past))
                (zeros_up_to-Reads s left paddr among le progress
                  (inr (ground (arith, past, low), omega (arith, high))))
        ]

    from_segment-Reads :
        (s : PtLoadSegment) (left paddr : ℕ)
        → ((off : ℕ) → seek off ≡ true)
        → IsSound file s
        → 0 < left
        → left ≤ suc fuel
        → Exact pt_loads paddr s
          ⊎ ((d : ℕ) × (d < left) × All (NoneWithin paddr d) pt_loads × Ahead pt_loads paddr d s)
        → Reads left paddr (from_segment seek file next s left paddr)
    from_segment-Reads s left paddr seeks sound pos le (inl (among, has)) =
        let gap = s.phys_start - paddr in
        let ahead =
          after_bytes (replicate gap 0) (data_of seek file next s (left - gap) (paddr + gap)) in
        let here = data_of seek file next s left paddr in
        let at : ltb paddr s.phys_start ≡ false = ground (arith, has) in
        subst (Reads left paddr) (sym (ap (λ b. if b then ahead else here) at)) (
          data_of-Reads s left paddr seeks sound among pos le (ground (arith, has))
            (ground (arith, has)) (inr (ground (arith, has))))
    from_segment-Reads s left paddr seeks sound pos le
          (inr (d, less, far, (among, apart, start, ends))) =
        let gap = s.phys_start - paddr in
        let ahead =
          after_bytes (replicate gap 0) (data_of seek file next s (left - gap) (paddr + gap)) in
        let here = data_of seek file next s left paddr in
        let before : ltb paddr s.phys_start ≡ true = ground (arith, apart, start) in
        let is_gap : d ≡ gap = omega (arith, start) in
        subst (Reads left paddr) (sym (ap (λ b. if b then ahead else here) before)) (
          Reads-after_bytes (replicate gap 0) gap left paddr (length-replicate {A = ℕ} gap 0)
            (omega (arith, is_gap, less))
            (zeros-outside file pt_loads paddr gap
              (subst (λ n. All (NoneWithin paddr n) pt_loads) is_gap far))
            (data_of-Reads s (left - gap) (paddr + gap) seeks sound among
              (omega (arith, is_gap, less)) (omega (arith, le)) (omega (arith, start, is_gap))
              (omega (arith, start, is_gap, sound.ordered))
              (inl (omega (arith, le, is_gap, apart)))))

  All-Among :
      (P : PtLoadSegment → Type 0) (table : List PtLoadSegment) {s : PtLoadSegment}
      → All P table
      → Among s table
      → P s
  All-Among P [] all among = absurd among
  All-Among P (t ∷ table) all (inl same) = subst P (sym same) all.0
  All-Among P (t ∷ table) all (inr among) = All-Among P table all.1 among

  Reads-nothing :
      (left paddr : ℕ) → All (NoneWithin paddr left) pt_loads → Reads left paddr (filled [])
  Reads-nothing left paddr far = (
    [],
    refl,
    omega arith,
    zeros-outside file pt_loads paddr 0 (NoneWithin-nothing file pt_loads paddr pt_loads),
    All-NoneWithin paddr (paddr + 0) left (left - 0) (omega arith) (omega arith) far,
  )

  read_rounds-Reads :
      (fuel left paddr : ℕ)
      → ((off : ℕ) → seek off ≡ true)
      → All (IsSound file) pt_loads
      → left ≤ fuel
      → Reads left paddr (read_rounds seek file fuel pt_loads left paddr)
  unfolding read_rounds
  read_rounds-Reads zero zero paddr seeks sound le =
      Reads-nothing 0 paddr (NoneWithin-nothing file pt_loads paddr pt_loads)
  read_rounds-Reads zero (suc left) paddr seeks sound le =
      let no : ⊥ = omega (arith, le) in absurd no
  read_rounds-Reads (suc fuel) zero paddr seeks sound le =
      Reads-nothing 0 paddr (NoneWithin-nothing file pt_loads paddr pt_loads)
  read_rounds-Reads (suc fuel) (suc left) paddr seeks sound le =
      let next = read_rounds seek file fuel pt_loads in
      let round : Option PtLoadSegment → Outcome = λ r. elim r [
        | none ↦ filled []
        | some pls ↦ from_segment seek file next pls (suc left) paddr
      ] in
      let busy : (suc left == 0) ≡ false = ground arith in
      subst (Reads (suc left) paddr)
        (sym (
          ap (λ b. if b then filled [] else round (closest_pt_load pt_loads paddr (suc left)))
            busy))
        (elim (closest_pt_load-NoneWithin pt_loads paddr (suc left)) [
          | inl (missed, far) ↦
              subst (Reads (suc left) paddr) (sym (ap round missed))
                (Reads-nothing (suc left) paddr far)
          | inr (s, found, near) ↦
              let among : Among s pt_loads = elim near [
                | inl exact ↦ exact.0
                | inr (d, less, far, ahead) ↦ ahead.0
              ] in
              subst (Reads (suc left) paddr) (sym (ap round found)) (
                from_segment-Reads fuel next (λ l a h. read_rounds-Reads fuel l a seeks sound h) s
                  (suc left) paddr seeks (All-Among (IsSound file) pt_loads sound among)
                  (omega arith) le near)
        ])

  abbrev pub IsPage : ℕ → ℕ → Outcome → Type 0
  IsPage page_size paddr r =
      ((r ≡ failed) × All (NoneWithin paddr page_size) pt_loads)
      ⊎ ((bytes : List ℕ) × (r ≡ filled bytes)
          × (length bytes ≡ page_size)
          × BytesAt file pt_loads paddr bytes)

  finish_page-IsPage :
      (page_size paddr : ℕ) {r : Outcome}
      → Reads page_size paddr r
      → IsPage page_size paddr (finish_page seek file page_size r)
  finish_page-IsPage page_size paddr ([], e, short, at, far) = inl (
    ap (finish_page seek file page_size) e,
    All-NoneWithin (paddr + 0) paddr (page_size - 0) page_size (omega arith) (omega arith) far,
  )
  finish_page-IsPage page_size paddr (byte ∷ bytes, e, short, at, far) =
      let zeros = replicate {A = ℕ} (page_size - length (byte ∷ bytes)) 0 in
      inr (
        (byte ∷ bytes) ++ zeros,
        ap (finish_page seek file page_size) e,
        omega (
          arith,
          length-append {0} (byte ∷ bytes) zeros,
          length-replicate {A = ℕ} (page_size - length (byte ∷ bytes)) 0,
          short,
        ),
        BytesAt-append file pt_loads paddr (byte ∷ bytes) zeros at (
            zeros-outside file pt_loads (paddr + length (byte ∷ bytes))
              (page_size - length (byte ∷ bytes)) far),
      )

-- If every seek succeeds and each segment ends after it starts, with its part of the file inside it
-- and inside the file, then reading a page comes to an end: it fails, and then no address of the
-- page is in any segment, or it gives as many bytes as a page has, each the one that a segment with
-- its address has in the file, or zero past the part that is in the file, or zero if no segment has
-- the address.
pub readpage_elf-IsPage :
    (seek : ℕ → Bool) (file : List ℕ) (pt_loads : List PtLoadSegment) (page_size paddr : ℕ)
    → ((off : ℕ) → seek off ≡ true)
    → All (IsSound file) pt_loads
    → IsPage seek file pt_loads page_size paddr (readpage_elf seek file page_size pt_loads paddr)
unfolding readpage_elf
readpage_elf-IsPage seek file pt_loads page_size paddr seeks sound =
    finish_page-IsPage seek file pt_loads page_size paddr
      (read_rounds-Reads seek file pt_loads page_size page_size paddr seeks sound (omega arith))
