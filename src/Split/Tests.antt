-- ===== src/Split/Tests.antt =====
-- The split at concrete tables.
use makedumpfile.Prelude.{
  ℕ, ◌≡◌, refl, true, some, List, [], ◌∷◌, length, ltb, if◌then◌else◌, arith,
}
use makedumpfile.Split.{
  Info, SplitBlock, calculate_entry_size, write_into_splitblock_table, read_from_splitblock_table,
  take_blocks, calculate_end_pfn_by_splitblock, ranges_from, setup_splitting, check_splitting_info,
}
use makedumpfile.Split.Table.{read_from-write_into}
use makedumpfile.Split.Ranges.{owners, setup_splitting-owners}

abbrev info : Info
info = record { max_mapnr = 10; num_dumpable = 6; num_dumpfile = 2 }

-- Three blocks of four frames, with 2, 1 and 3 pages to dump.
abbrev blocks : SplitBlock
blocks = record { table = 2 ∷ 1 ∷ 3 ∷ []; num = 3; page_per_splitblock = 4; entry_size = 1 }

ranges-run : setup_splitting info blocks ≡ some ((0, 8) ∷ (8, 10) ∷ [])
unfolding setup_splitting ranges_from calculate_end_pfn_by_splitblock take_blocks
    read_from_splitblock_table
ranges-run = refl

setup_splitting-owners_example :
    (ranges : List (ℕ × ℕ)) × (setup_splitting info blocks ≡ some ranges)
    × (length ranges ≡ 2)
    × ((pfn : ℕ) → owners pfn ranges ≡ (if ltb pfn 10 then 1 else 0))
    × (check_splitting_info 10 ranges ≡ true)
setup_splitting-owners_example = setup_splitting-owners info blocks (omega arith)

read_from-write_into_example :
    (size : ℕ) × (calculate_entry_size 1001 1000 ≡ some size)
    × (read_from_splitblock_table size
          (write_into_splitblock_table size (9 ∷ 9 ∷ 9 ∷ 9 ∷ []) 2 700)
          2
        ≡ 700)
read_from-write_into_example =
    read_from-write_into 1001 1000 700 2 (9 ∷ 9 ∷ 9 ∷ 9 ∷ []) (omega arith) (omega arith)
