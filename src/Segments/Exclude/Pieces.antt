-- ===== src/Segments/Exclude/Pieces.antt =====
-- What exclude_segment leaves of a table of which one segment has the range.
use makedumpfile.Prelude.{
  ℕ, suc, ◌+◌, ◌-◌, ◌^◌, ◌≤◌, ◌<◌, ◌≡◌, refl, ap, ◌∙◌, sym, false, ◌&&◌, Option, none, some, List,
  [], ◌∷◌, ◌++◌, length, if◌then◌else◌, arith, Bool-cases, inl, inr,
}
use makedumpfile.Segments.{PtLoadSegment}
use makedumpfile.Segments.Lookup.{All}
use makedumpfile.Segments.Exclude.{
  sub64, insert_at, later_or, overlaps, temp_seg, is_split, cut_segment, split_off, exclude_from,
  insert_split, exclude_segment,
}

pub sub64_le : (x y : ℕ) → y ≤ x → y ≤ 2 ^ 64 → x - y < 2 ^ 64 → sub64 x y ≡ x - y
sub64_le x y le le' less = omega (arith, le, le', less)

later_or-none : (split : Option (ℕ × PtLoadSegment)) → later_or split none ≡ split
later_or-none none = refl
later_or-none (some split) = refl

insert_at-append :
    (pre post : List PtLoadSegment) (pls temp : PtLoadSegment)
    → insert_at (length pre + 1) temp (pre ++ (pls ∷ post)) ≡ pre ++ (pls ∷ (temp ∷ post))
insert_at-append [] post pls temp =
    ap (λ n. insert_at n temp (pls ∷ post)) {x = 0 + 1} {y = suc 0} (omega arith)
insert_at-append (first ∷ pre) post pls temp =
    ap (λ n. insert_at n temp (first ∷ (pre ++ (pls ∷ post)))) {x = suc (length pre) + 1}
      {y = suc (length pre + 1)} (omega arith)
    ∙ ap (λ l. first ∷ l) (insert_at-append pre post pls temp)

-- What is left of one segment.
abbrev pub pieces : (ℕ → ℕ) → ℕ → ℕ → PtLoadSegment → List PtLoadSegment
pieces paddr_to_vaddr start end pls =
    cut_segment paddr_to_vaddr start end pls
    ∷ (if overlaps paddr_to_vaddr start end pls && is_split paddr_to_vaddr start end pls
        then temp_seg paddr_to_vaddr start end pls ∷ []
        else [])

module _ (paddr_to_vaddr : ℕ → ℕ) (start end : ℕ) where
  abbrev pub IsApart : PtLoadSegment → Type 0
  IsApart s = overlaps paddr_to_vaddr start end s ≡ false

  abbrev cut : PtLoadSegment → PtLoadSegment
  cut = cut_segment paddr_to_vaddr start end

  abbrev split : ℕ → PtLoadSegment → Option (ℕ × PtLoadSegment)
  split = split_off paddr_to_vaddr start end

  cut_apart : (pls : PtLoadSegment) → IsApart pls → cut pls ≡ pls
  cut_apart pls apart = ground (arith, apart)

  split_apart : (i : ℕ) (pls : PtLoadSegment) → IsApart pls → split i pls ≡ none
  split_apart i pls apart =
      ap
        (λ b.
          if b && is_split paddr_to_vaddr start end pls
          then some (i + 1, temp_seg paddr_to_vaddr start end pls)
          else none)
        apart

  exclude_from_apart :
      (i : ℕ) (pt_loads : List PtLoadSegment)
      → All IsApart pt_loads
      → exclude_from paddr_to_vaddr start end i pt_loads ≡ (pt_loads, none)
  unfolding exclude_from
  exclude_from_apart i [] apart = refl
  exclude_from_apart i (pls ∷ pt_loads) apart =
      ap
        (λ (r : List PtLoadSegment × Option (ℕ × PtLoadSegment)).
          (cut pls ∷ r.0, later_or (r.1) (split i pls)))
        (exclude_from_apart (i + 1) pt_loads apart.1)
      ∙ ap (λ s. (s ∷ pt_loads, split i pls)) (cut_apart pls apart.0)
      ∙ ap (λ s. (pls ∷ pt_loads, s)) (split_apart i pls apart.0)

  -- Only one segment is cut.
  exclude_from-one :
      (i : ℕ) (pre post : List PtLoadSegment) (pls : PtLoadSegment)
      → All IsApart pre
      → All IsApart post
      → exclude_from paddr_to_vaddr start end i (pre ++ (pls ∷ post))
        ≡ (pre ++ (cut pls ∷ post), split (i + length pre) pls)
  unfolding exclude_from
  exclude_from-one i [] post pls before after =
      ap
        (λ (r : List PtLoadSegment × Option (ℕ × PtLoadSegment)).
          (cut pls ∷ r.0, later_or (r.1) (split i pls)))
        (exclude_from_apart (i + 1) post after)
      ∙ ap (λ n. (cut pls ∷ post, split n pls)) {x = i} {y = i + 0} (omega arith)
  exclude_from-one i (first ∷ pre) post pls before after =
      ap
        (λ (r : List PtLoadSegment × Option (ℕ × PtLoadSegment)).
          (cut first ∷ r.0, later_or (r.1) (split i first)))
        (exclude_from-one (i + 1) pre post pls before.1 after)
      ∙ ap
          (λ s. (
            s ∷ (pre ++ (cut pls ∷ post)),
            later_or (split (i + 1 + length pre) pls) (split i first),
          ))
          (cut_apart first before.0)
      ∙ ap (λ s. (first ∷ (pre ++ (cut pls ∷ post)), later_or (split (i + 1 + length pre) pls) s))
          (split_apart i first before.0)
      ∙ ap (λ s. (first ∷ (pre ++ (cut pls ∷ post)), s))
          (later_or-none (split (i + 1 + length pre) pls))
      ∙ ap (λ n. (first ∷ (pre ++ (cut pls ∷ post)), split n pls)) {x = i + 1 + length pre}
          {y = i + suc (length pre)} (omega arith)

  pub exclude_segment-pieces :
      (pre post : List PtLoadSegment) (pls : PtLoadSegment)
      → All IsApart pre
      → All IsApart post
      → exclude_segment paddr_to_vaddr start end (pre ++ (pls ∷ post))
        ≡ pre ++ (pieces paddr_to_vaddr start end pls ++ post)
  unfolding exclude_segment
  exclude_segment-pieces pre post pls before after =
      let temp = temp_seg paddr_to_vaddr start end pls in
      let one = exclude_from-one 0 pre post pls before after in
      let list = pre ++ (cut pls ∷ post) in
      ap
        (λ (r : List PtLoadSegment × Option (ℕ × PtLoadSegment)).
          insert_split paddr_to_vaddr start end (r.0) (r.1))
        one
      ∙ ap (λ n. insert_split paddr_to_vaddr start end list (split n pls)) {x = 0 + length pre}
          {y = length pre} (omega arith)
      ∙ elim (Bool-cases
          (overlaps paddr_to_vaddr start end pls && is_split paddr_to_vaddr start end pls)) [
            | inl two ↦
                ap
                  (λ b.
                    insert_split paddr_to_vaddr start end list
                      (if b then some (length pre + 1, temp) else none))
                  two
                ∙ insert_at-append pre post (cut pls) temp
                ∙ ap (λ b. pre ++ ((cut pls ∷ (if b then temp ∷ [] else [])) ++ post)) (sym two)
            | inr whole ↦
                ap
                  (λ b.
                    insert_split paddr_to_vaddr start end list
                      (if b then some (length pre + 1, temp) else none))
                  whole
                ∙ ap (λ b. pre ++ ((cut pls ∷ (if b then temp ∷ [] else [])) ++ post)) (sym whole)
          ]
