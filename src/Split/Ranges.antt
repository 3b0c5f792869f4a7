-- ===== src/Split/Ranges.antt =====
-- The ranges that `setup_splitting` gives to the files, as `check_splitting_info` wants them.
use makedumpfile.Prelude.{
  ℕ, zero, suc, ◌+◌, ◌-◌, ◌*◌, ◌/◌, ◌≤◌, ◌<◌, ◌≡◌, refl, ap, true, ◌&&◌, some, List, [], ◌∷◌,
  length, ltb, leb, if◌then◌else◌, arith,
}
use makedumpfile.Split.{
  Info, SplitBlock, read_from_splitblock_table, take_blocks, calculate_end_pfn_by_splitblock,
  ranges_from, setup_splitting, check_chain, check_splitting_info,
}

-- In how many of the ranges a frame lies.
pub owners : ℕ → List (ℕ × ℕ) → ℕ
owners pfn [] = 0
owners pfn ((start, end) ∷ ranges) =
    (if leb start pfn && ltb pfn end then 1 else 0) + owners pfn ranges

mul_mono : (a b m : ℕ) → a ≤ b → a * m ≤ b * m
mul_mono a b m h = grind arith

module _ (info : Info) (split : SplitBlock) where
  take_blocks-le : (left cur need : ℕ) → cur ≤ take_blocks info split left cur need
  unfolding take_blocks
  take_blocks-le zero cur need = omega arith
  take_blocks-le (suc left) cur need = ground (
    arith,
    take_blocks-le left (cur + 1)
        (need - read_from_splitblock_table split.entry_size split.table (cur * split.entry_size)),
  )

  -- A range does not end before it starts, nor past the last frame or the blocks that are used up.
  end-bounds :
      (start cur : ℕ)
      → start ≤ info.max_mapnr
      → start ≤ cur * split.page_per_splitblock
      → let (end, cur') = calculate_end_pfn_by_splitblock info split start cur in
        (start ≤ end) × (end ≤ info.max_mapnr) × (end ≤ cur' * split.page_per_splitblock)
  unfolding calculate_end_pfn_by_splitblock
  end-bounds start cur h k =
      let cur' =
        take_blocks info split (split.num - cur) cur (info.num_dumpable / info.num_dumpfile) in
      let more : cur * split.page_per_splitblock ≤ cur' * split.page_per_splitblock =
        mul_mono cur cur' split.page_per_splitblock
          (take_blocks-le (split.num - cur) cur (info.num_dumpable / info.num_dumpfile)) in
      ground (arith, more)

  ranges_from-owners :
      (left start cur pfn : ℕ)
      → start ≤ info.max_mapnr
      → start ≤ cur * split.page_per_splitblock
      → owners pfn (ranges_from info split left start cur)
        ≡ (if leb start pfn && ltb pfn info.max_mapnr then 1 else 0)
  unfolding ranges_from owners
  ranges_from-owners zero start cur pfn h k = ground arith
  ranges_from-owners (suc left) start cur pfn h k =
      let next = calculate_end_pfn_by_splitblock info split start cur in
      let b = end-bounds start cur h k in
      ground (arith, b, ranges_from-owners left next.0 next.1 pfn b.1 b.2)

  ranges_from-chain :
      (left start cur : ℕ)
      → check_chain info.max_mapnr start (ranges_from info split left start cur) ≡ true
  unfolding ranges_from check_chain
  ranges_from-chain zero start cur = ground arith
  ranges_from-chain (suc left) start cur =
      let next = calculate_end_pfn_by_splitblock info split start cur in
      ground (arith, ranges_from-chain left next.0 next.1)

  ranges_from-check :
      (left cur : ℕ)
      → check_splitting_info info.max_mapnr (ranges_from info split left 0 cur) ≡ true
  unfolding ranges_from check_splitting_info
  ranges_from-check zero cur = ground arith
  ranges_from-check (suc left) cur =
      let next = calculate_end_pfn_by_splitblock info split 0 cur in
      ground (arith, ranges_from-chain left next.0 next.1)

  length-ranges_from :
      (left start cur : ℕ) → length (ranges_from info split left start cur) ≡ suc left
  unfolding ranges_from
  length-ranges_from zero start cur = refl
  length-ranges_from (suc left) start cur =
      let next = calculate_end_pfn_by_splitblock info split start cur in
      ap suc (length-ranges_from left next.0 next.1)

  -- With two files or more, whatever the table holds: each file gets a range, every frame below
  -- `max_mapnr` is in exactly one of them and no other frame is in any, and the check that
  -- `--reassemble` makes of the ranges, taken in this order, accepts them.
  pub setup_splitting-owners :
      1 < info.num_dumpfile
      → (ranges : List (ℕ × ℕ)) × (setup_splitting info split ≡ some ranges)
        × (length ranges ≡ info.num_dumpfile)
        × ((pfn : ℕ) → owners pfn ranges ≡ (if ltb pfn info.max_mapnr then 1 else 0))
        × (check_splitting_info info.max_mapnr ranges ≡ true)
  unfolding setup_splitting
  setup_splitting-owners many =
      let left = info.num_dumpfile - 1 in
      (
        ranges_from info split left 0 0,
        ground arith,
        omega (arith, length-ranges_from left 0 0),
        λ pfn. ground (arith, ranges_from-owners left 0 0 pfn),
        ranges_from-check left 0,
      )
