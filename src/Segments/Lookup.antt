-- ===== src/Segments/Lookup.antt =====
-- The look-ups agree with one another: an offset that `paddr_to_offset` gives, and what
-- `page_is_fractional` says of it.
use makedumpfile.Prelude.{
  ℕ, ◌+◌, ◌-◌, ◌%◌, ◌≤◌, ◌<◌, ◌≡◌, ◌⊎◌, refl, ap, ◌∙◌, sym, subst, Bool, true, false, ◌&&◌, not,
  Option, none, some, List, [], ◌∷◌, ltb, leb, ◌==◌, if◌then◌else◌, arith, Bool-cases, inl, inr,
}
use mathlib.Core.Option.{none-ne-some, some-injective}
use makedumpfile.Segments.{
  PtLoadSegment, has_data, has_paddr, paddr_to_offset, offset_to_pt_load_end, page_is_fractional,
}

abbrev pub All : (PtLoadSegment → Type 0) → List PtLoadSegment → Type 0
All P [] = Unit {0}
All P (pls ∷ pt_loads) = P pls × All P pt_loads

-- A segment that is whole in the file, behind the file's header.
pub record IsWhole (pls : PtLoadSegment) : Type 0 where
  pub ordered : pls.phys_start ≤ pls.phys_end
  pub size : pls.file_size ≡ pls.phys_end - pls.phys_start
  pub behind_header : 0 < pls.file_offset

-- The parts of the file are apart.
abbrev pub Apart : PtLoadSegment → PtLoadSegment → Type 0
Apart s t =
    (s.file_offset + s.file_size ≤ t.file_offset) ⊎ (t.file_offset + t.file_size ≤ s.file_offset)

abbrev pub AllApart : List PtLoadSegment → Type 0
AllApart [] = Unit {0}
AllApart (pls ∷ pt_loads) = All (Apart pls) pt_loads × AllApart pt_loads

-- The first segment with the address, if any.
abbrev pub segment_of : List PtLoadSegment → ℕ → Option PtLoadSegment
segment_of [] paddr = none
segment_of (pls ∷ pt_loads) paddr =
    if has_paddr pls paddr then some pls else segment_of pt_loads paddr

pub All-segment_of :
    (P : PtLoadSegment → Type 0) (pt_loads : List PtLoadSegment) (paddr : ℕ) {t : PtLoadSegment}
    → All P pt_loads
    → segment_of pt_loads paddr ≡ some t
    → P t
All-segment_of P [] paddr all e = absurd (none-ne-some _ e)
All-segment_of P (s ∷ pt_loads) paddr {t} all e = elim (Bool-cases (has_paddr s paddr)) [
  | inl inside ↦
      subst P
        (some-injective _ _
          (sym (ap (λ b. if b then some s else segment_of pt_loads paddr) inside) ∙ e))
        all.0
  | inr outside ↦
      All-segment_of P pt_loads paddr all.1
        (sym (ap (λ b. if b then some s else segment_of pt_loads paddr) outside) ∙ e)
]

-- What the two look-ups give for an address: nothing, or its offset and the end of its segment.
offset_and_end :
    (pt_loads : List PtLoadSegment) (paddr : ℕ)
    → All IsWhole pt_loads
    → AllApart pt_loads
    → let offset = paddr_to_offset pt_loads paddr in
      ((segment_of pt_loads paddr ≡ none) × (offset ≡ 0))
      ⊎ ((s : PtLoadSegment) × (segment_of pt_loads paddr ≡ some s)
          × (offset ≡ s.file_offset + (paddr - s.phys_start))
          × (0 < offset)
          × (has_paddr s paddr ≡ true)
          × (offset_to_pt_load_end pt_loads offset ≡ s.file_offset + (s.phys_end - s.phys_start)))
unfolding paddr_to_offset offset_to_pt_load_end
offset_and_end [] paddr whole apart = inl (refl, refl)
offset_and_end (s ∷ pt_loads) paddr whole apart = elim (Bool-cases (has_paddr s paddr)) [
  | inl inside ↦
      let w = whole.0 in
      let found : has_data s paddr ≡ true = ground (arith, w) in
      let offset : paddr_to_offset (s ∷ pt_loads) paddr ≡ s.file_offset + (paddr - s.phys_start) =
        ground (arith, found) in
      inr (
        s,
        ground (arith, inside),
        offset,
        omega (arith, offset, w.behind_header),
        inside,
        ground (arith, offset, inside, w),
      )
  | inr outside ↦
      let w = whole.0 in
      let missed : has_data s paddr ≡ false = ground (arith, w, outside) in
      let same : paddr_to_offset (s ∷ pt_loads) paddr ≡ paddr_to_offset pt_loads paddr =
        ground (arith, missed) in
      elim (offset_and_end pt_loads paddr whole.1 apart.1) [
        | inl r ↦ inl (ground (arith, r, outside), same ∙ r.1)
        | inr (t, at_t, offset, found, inside, end) ↦
            let clear : Apart s t = All-segment_of (Apart s) pt_loads paddr apart.0 at_t in
            let whole_t : IsWhole t = All-segment_of IsWhole pt_loads paddr whole.1 at_t in
            inr (
              t,
              ground (arith, at_t, outside),
              same ∙ offset,
              omega (arith, same, found),
              inside,
              ground (arith, same, offset, end, clear, whole_t, inside, w),
            )
      ]
]

fractional_at :
    (aligned : Bool) (page_size : ℕ) (s : PtLoadSegment) (paddr : ℕ) {offset end : ℕ}
    → has_paddr s paddr ≡ true
    → offset ≡ s.file_offset + (paddr - s.phys_start)
    → end ≡ s.file_offset + (s.phys_end - s.phys_start)
    → (if not aligned then true else ltb end (page_size + offset))
      ≡ not (aligned && leb (paddr + page_size) s.phys_end)
fractional_at true page_size s paddr inside at end = ground (arith, inside, at, end)
fractional_at false page_size s paddr inside at end = refl

-- For a table whose segments are whole in the file, behind its header and apart from one another:
-- `paddr_to_offset` gives 0 exactly for the addresses in no segment. For one in a segment it gives
-- its place in the segment's part of the file, and of that place `page_is_fractional` says no
-- exactly if it is a multiple of the page size and the page ends in the segment.
pub page_is_fractional-paddr_to_offset :
    (page_size : ℕ) (pt_loads : List PtLoadSegment) (paddr : ℕ)
    → All IsWhole pt_loads
    → AllApart pt_loads
    → let offset = paddr_to_offset pt_loads paddr in
      ((segment_of pt_loads paddr ≡ none) × (offset ≡ 0))
      ⊎ ((s : PtLoadSegment) × (segment_of pt_loads paddr ≡ some s)
          × (has_paddr s paddr ≡ true)
          × (offset ≡ s.file_offset + (paddr - s.phys_start))
          × (0 < offset)
          × (page_is_fractional page_size pt_loads offset
              ≡ not (offset % page_size == 0 && leb (paddr + page_size) s.phys_end)))
unfolding page_is_fractional
page_is_fractional-paddr_to_offset page_size pt_loads paddr whole apart =
    elim (offset_and_end pt_loads paddr whole apart) [
      | inl r ↦ inl r
      | inr (s, at_s, offset, found, inside, end) ↦ inr (
        s,
        at_s,
        inside,
        offset,
        found,
        fractional_at (paddr_to_offset pt_loads paddr % page_size == 0) page_size s paddr inside
            offset end,
      )
    ]
