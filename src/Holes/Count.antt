-- ===== src/Holes/Count.antt =====
-- By how much `pfn_memhole` is lowered.
use makedumpfile.Prelude.{
  ℕ, zero, suc, ◌+◌, ◌-◌, ◌*◌, ◌/◌, ◌%◌, ◌^◌, ◌≤◌, ◌<◌, ◌≡◌, refl, ap, ◌∙◌, sym, subst, Bool, true,
  false, not, some, leb, if◌then◌else◌, arith, min, max,
}
use makedumpfile.Cycle.{Cycle, is_cyclic_region}
use makedumpfile.Bitmap.{set_bitmap_buffer}
use makedumpfile.Holes.{Marks, round_8, roundup_8, lower, set_frames, set_bytes, set_range}

lower_lem : (k m : ℕ) → k ≤ m → m < 2 ^ 64 → lower true k m ≡ m - k
lower_lem k m h room = omega arith

-- The frames that the three loops count for a range.
counted_parts :
    (start p t : ℕ)
    → start % 8 ≡ 0
    → start ≤ p
    → p < t
    → let s = min (roundup_8 p) t in
      let e = max (round_8 t) p in
      (s - p) + ((e - start) / 8 - (s - start) / 8) * 8 + (t - e)
      ≡ (if leb p (round_8 t) then t - p else 2 * (t - p))
counted_parts start p t aligned low h = ground arith

module _ (cycle : Cycle) where
  -- All went well, and `n` frames are counted.
  abbrev Counted : ℕ → Marks → Bool × Marks → Type 0
  Counted n marks r = (r.0 ≡ true) × (r.1.pfn_memhole ≡ marks.pfn_memhole - n)

  set_frames-Counted :
      (n pfn : ℕ) (marks : Marks)
      → cycle.start_pfn ≤ pfn
      → pfn + n ≤ cycle.end_pfn
      → n ≤ marks.pfn_memhole
      → marks.pfn_memhole < 2 ^ 64
      → Counted n marks (set_frames cycle true n pfn marks)
  unfolding set_frames set_bitmap_buffer is_cyclic_region
  set_frames-Counted zero pfn marks low high h room = (refl, omega arith)
  set_frames-Counted (suc n) pfn marks low high h room =
      let bitmap' = (set_bitmap_buffer marks.bitmap pfn true (some cycle)).1 in
      let marks' : Marks = record {
        bitmap = bitmap';
        pfn_memhole = lower true 1 marks.pfn_memhole;
      } in
      let one : lower true 1 marks.pfn_memhole ≡ marks.pfn_memhole - 1 =
        lower_lem 1 marks.pfn_memhole (omega arith) room in
      let rest =
        set_frames-Counted n (pfn + 1) marks' (omega arith) (omega arith) (omega (arith, one))
          (omega (arith, one)) in
      let ok : (set_bitmap_buffer marks.bitmap pfn true (some cycle)).0 ≡ true = ground arith in
      let after = set_frames cycle true n (pfn + 1) marks' in
      subst (Counted (suc n) marks)
        (sym (ap (λ d. if not d then (false, record marks { bitmap = bitmap' }) else after) ok))
        (rest.0, omega (arith, rest.1, one))

  set_bytes-count :
      (from to : ℕ) (marks : Marks)
      → (to - from) * 8 ≤ marks.pfn_memhole
      → marks.pfn_memhole < 2 ^ 64
      → (set_bytes cycle true from to marks).pfn_memhole ≡ marks.pfn_memhole - (to - from) * 8
  unfolding set_bytes
  set_bytes-count from to marks h room =
      ground (arith, lower_lem ((to - from) * 8) marks.pfn_memhole)

  -- For a range of frames in a cycle that starts at a whole byte, and with `pfn_memhole` at least
  -- twice the number of frames: all bits are set without an error, and `pfn_memhole` is lowered by the
  -- number of frames if the boundary `round (pfn_end, 8)` is in the range or at one of its ends, but
  -- by twice that number if the range lies inside one byte and touches neither end of it.
  pub set_range-pfn_memhole :
      (pfn_start pfn_end : ℕ) (marks : Marks)
      → cycle.start_pfn % 8 ≡ 0
      → cycle.start_pfn ≤ pfn_start
      → pfn_start < pfn_end
      → pfn_end ≤ cycle.end_pfn
      → 2 * (pfn_end - pfn_start) ≤ marks.pfn_memhole
      → marks.pfn_memhole < 2 ^ 64
      → let (done, marks') = set_range cycle true pfn_start pfn_end marks in
        (done ≡ true)
        × (marks'.pfn_memhole
            ≡ marks.pfn_memhole
              - (if leb pfn_start (round_8 pfn_end)
                  then pfn_end - pfn_start
                  else 2 * (pfn_end - pfn_start)))
  unfolding set_range
  set_range-pfn_memhole pfn_start pfn_end marks aligned low some_frames high h room =
      let s = min (roundup_8 pfn_start) pfn_end in
      let e = max (round_8 pfn_end) pfn_start in
      let a = (s - cycle.start_pfn) / 8 in
      let b = (e - cycle.start_pfn) / 8 in
      let parts = counted_parts cycle.start_pfn pfn_start pfn_end aligned low some_frames in
      let bound : (s - pfn_start) + (b - a) * 8 + (pfn_end - e) ≤ 2 * (pfn_end - pfn_start) =
        ground (arith, parts) in
      let one = set_frames cycle true (s - pfn_start) pfn_start marks in
      let first =
        set_frames-Counted (s - pfn_start) pfn_start marks low (omega arith) (omega (arith, bound))
          room in
      let second =
        set_bytes-count a b one.1 (omega (arith, bound, first.1)) (omega (arith, first.1)) in
      let marks₂ = set_bytes cycle true a b one.1 in
      let third =
        set_frames-Counted (pfn_end - e) e marks₂ (omega arith) (omega arith)
          (omega (arith, bound, first.1, second)) (omega (arith, first.1, second)) in
      let last = set_frames cycle true (pfn_end - e) e marks₂ in
      let rounded : leb pfn_start e ≡ true = ground arith in
      let go : set_range cycle true pfn_start pfn_end marks ≡ last =
        ap (λ d. if not d then (false, one.1) else if leb pfn_start e then last else (true, marks₂))
          first.0
        ∙ ap (λ d. if d then last else (true, marks₂)) rounded in
      let n : ℕ =
        (if leb pfn_start (round_8 pfn_end)
          then pfn_end - pfn_start
          else 2 * (pfn_end - pfn_start)) in
      subst (Counted n marks) (sym go) (third.0, omega (arith, third.1, second, first.1, parts))
