-- ===== src/Segments/Closest.antt =====
-- What `closest_pt_load` finds.
use makedumpfile.Prelude.{
  ℕ, ◌+◌, ◌-◌, ◌≤◌, ◌<◌, ◌≡◌, ◌⊎◌, refl, ap, sym, subst, true, false, ◌&&◌, ◌||◌, not, Option, none,
  some, List, [], ◌∷◌, ltb, leb, if◌then◌else◌, arith, Bool-cases, inl, inr,
}
use makedumpfile.Segments.{PtLoadSegment, has_paddr, closest_from, closest_pt_load}
use makedumpfile.Segments.Lookup.{All}

abbrev pub Among : PtLoadSegment → List PtLoadSegment → Type 0
Among s [] = ⊥
Among s (t ∷ pt_loads) = (s ≡ t) ⊎ Among s pt_loads

-- No segment has an address of the `d` ones from `paddr` on.
abbrev pub NoneWithin : ℕ → ℕ → PtLoadSegment → Type 0
NoneWithin paddr d s = (a : ℕ) → paddr ≤ a → a < paddr + d → has_paddr s a ≡ false

-- The segment has the address.
abbrev pub Exact : List PtLoadSegment → ℕ → PtLoadSegment → Type 0
Exact pt_loads paddr s = Among s pt_loads × (has_paddr s paddr ≡ true)

-- The segment starts `d` addresses after `paddr`, and ends after it.
abbrev pub Ahead : List PtLoadSegment → ℕ → ℕ → PtLoadSegment → Type 0
Ahead pt_loads paddr d s =
    Among s pt_loads × (0 < d) × (s.phys_start ≡ paddr + d) × (paddr < s.phys_end)

abbrev Found : List PtLoadSegment → ℕ → ℕ → Option PtLoadSegment → Option PtLoadSegment → Type 0
Found pt_loads paddr bestdist best r =
    ((s : PtLoadSegment) × (r ≡ some s) × Exact pt_loads paddr s)
    ⊎ ((d : ℕ) × (d ≤ bestdist)
        × All (NoneWithin paddr d) pt_loads
        × (((r ≡ best) × (d ≡ bestdist))
            ⊎ ((s : PtLoadSegment) × (r ≡ some s) × (d < bestdist) × Ahead pt_loads paddr d s)))

-- A segment that is passed over: it ends before the address, or starts no nearer than the best.
skip_Found :
    (bestdist : ℕ) (best : Option PtLoadSegment) (s : PtLoadSegment) (pt_loads : List PtLoadSegment)
    (paddr : ℕ) {r : Option PtLoadSegment}
    → (leb s.phys_end paddr || not (ltb (s.phys_start - paddr) bestdist)) ≡ true
    → (not (leb s.phys_end paddr) && leb s.phys_start paddr) ≡ false
    → Found pt_loads paddr bestdist best r
    → Found (s ∷ pt_loads) paddr bestdist best r
skip_Found bestdist best s pt_loads paddr skip away (inl (t, e, (among, has))) =
    inl (t, e, (inr among, has))
skip_Found bestdist best s pt_loads paddr skip away (inr (d, le, far, found)) =
    let clear : NoneWithin paddr d s = λ a low high. ground (arith, skip, away, le, low, high) in
    inr (
      d,
      le,
      (clear, far),
      elim found [
        | inl same ↦ inl same
        | inr (t, e, less, ahead) ↦ inr (t, e, less, (inr ahead.0, ahead.1, ahead.2, ahead.3))
      ],
    )

-- A segment that is the best so far.
take_Found :
    (bestdist : ℕ) (best : Option PtLoadSegment) (s : PtLoadSegment) (pt_loads : List PtLoadSegment)
    (paddr : ℕ) {r : Option PtLoadSegment}
    → (leb s.phys_end paddr || not (ltb (s.phys_start - paddr) bestdist)) ≡ false
    → (not (leb s.phys_end paddr) && leb s.phys_start paddr) ≡ false
    → Found pt_loads paddr (s.phys_start - paddr) (some s) r
    → Found (s ∷ pt_loads) paddr bestdist best r
take_Found bestdist best s pt_loads paddr take away (inl (t, e, (among, has))) =
    inl (t, e, (inr among, has))
take_Found bestdist best s pt_loads paddr take away (inr (d, le, far, found)) =
    let later : paddr < s.phys_start = ground (arith, take, away) in
    let ends : paddr < s.phys_end = ground (arith, take, away) in
    let best_now : s.phys_start - paddr < bestdist = ground (arith, take) in
    let clear : NoneWithin paddr d s = λ a low high. ground (arith, le, low, high, later) in
    inr (
      d,
      omega (arith, le, best_now),
      (clear, far),
      elim found [
        | inl (e, same) ↦ inr (
          s,
          e,
          omega (arith, same, best_now),
          (inl refl, omega (arith, same, later), omega (arith, same, later), ends),
        )
        | inr (t, e, less, ahead) ↦
            inr (t, e, omega (arith, less, best_now), (inr ahead.0, ahead.1, ahead.2, ahead.3))
      ],
    )

closest_from-Found :
    (bestdist : ℕ) (best : Option PtLoadSegment) (pt_loads : List PtLoadSegment) (paddr : ℕ)
    → Found pt_loads paddr bestdist best (closest_from bestdist best pt_loads paddr)
unfolding closest_from
closest_from-Found bestdist best [] paddr = inr (bestdist, omega arith, tt, inl (refl, refl))
closest_from-Found bestdist best (s ∷ pt_loads) paddr =
    let nearer = leb s.phys_end paddr || not (ltb (s.phys_start - paddr) bestdist) in
    let exact = not (leb s.phys_end paddr) && leb s.phys_start paddr in
    let rest =
      closest_from (if nearer then bestdist else s.phys_start - paddr)
        (if nearer then best else some s) pt_loads paddr in
    elim (Bool-cases exact) [
      | inl here ↦
          inl (s, ap (λ b. if b then some s else rest) here, (inl refl, ground (arith, here)))
      | inr away ↦
          subst (Found (s ∷ pt_loads) paddr bestdist best)
            (sym (ap (λ b. if b then some s else rest) away))
            (elim (Bool-cases nearer) [
              | inl skip ↦
                  subst (Found (s ∷ pt_loads) paddr bestdist best)
                    (sym (
                      ap
                        (λ b.
                          closest_from (if b then bestdist else s.phys_start - paddr)
                            (if b then best else some s) pt_loads paddr)
                        skip))
                    (skip_Found bestdist best s pt_loads paddr skip away
                      (closest_from-Found bestdist best pt_loads paddr))
              | inr take ↦
                  subst (Found (s ∷ pt_loads) paddr bestdist best)
                    (sym (
                      ap
                        (λ b.
                          closest_from (if b then bestdist else s.phys_start - paddr)
                            (if b then best else some s) pt_loads paddr)
                        take))
                    (take_Found bestdist best s pt_loads paddr take away
                      (closest_from-Found (s.phys_start - paddr) (some s) pt_loads paddr))
            ])
    ]

-- If a segment is found it has the address, or it starts less than `distance` later and no address
-- before its start is in any segment; if none is found, none of the `distance` addresses from
-- `paddr` on is in any segment.
pub closest_pt_load-NoneWithin :
    (pt_loads : List PtLoadSegment) (paddr distance : ℕ)
    → let r = closest_pt_load pt_loads paddr distance in
      ((r ≡ none) × All (NoneWithin paddr distance) pt_loads)
      ⊎ ((s : PtLoadSegment) × (r ≡ some s)
          × (Exact pt_loads paddr s
              ⊎ ((d : ℕ) × (d < distance)
                  × All (NoneWithin paddr d) pt_loads
                  × Ahead pt_loads paddr d s)))
unfolding closest_pt_load
closest_pt_load-NoneWithin pt_loads paddr distance =
    elim (closest_from-Found distance none pt_loads paddr) [
      | inl (s, e, exact) ↦ inr (s, e, inl exact)
      | inr (d, le, far, inl (e, same)) ↦
          inl (e, subst (λ n. All (NoneWithin paddr n) pt_loads) same far)
      | inr (d, le, far, inr (s, e, less, ahead)) ↦ inr (s, e, inr (d, less, far, ahead))
    ]
