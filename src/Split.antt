-- ===== src/Split.antt =====
-- Splitting a dump over several files in makedumpfile.c: the table of how many pages each split
-- block holds, and the ranges of page frames that the files get.
pub mod Table
pub mod Ranges
mod Tests
use makedumpfile.Prelude.{
  ℕ, zero, suc, ◌+◌, ◌-◌, ◌*◌, ◌/◌, ◌%◌, ◌^◌, Bool, true, false, ◌&&◌, ◌||◌, not, Option, none,
  some, List, [], ◌∷◌, length, take, drop, replicate, ltb, leb, ◌==◌, if◌then◌else◌,
}
use makedumpfile.File.{pwrite}

-- The loop of `calculate_entry_size`: `count` once `entry_num` has reached the number of pages.
unfoldable pub count_bits_from : ℕ → ℕ → ℕ → ℕ → Option ℕ
count_bits_from zero pages entry_num count = if ltb entry_num pages then none else some count
count_bits_from (suc fuel) pages entry_num count =
    let rest = count_bits_from fuel pages (entry_num * 2) (count + 1) in
    if ltb entry_num pages then rest else some count

-- `count / BITPERBYTE`, and one more for a remainder
abbrev pub bytes_for : ℕ → ℕ
bytes_for count = if not (count % 8 == 0) then count / 8 + 1 else count / 8

unfoldable pub calculate_entry_size : ℕ → ℕ → Option ℕ
calculate_entry_size fuel page_per_splitblock =
    elim (count_bits_from fuel page_per_splitblock 1 1) [
      | none ↦ none
      | some count ↦ some (bytes_for count)
    ]

-- The bytes that `write_into_splitblock_table` stores, the lowest first.
unfoldable pub entry_bytes : ℕ → ℕ → List ℕ
entry_bytes zero value = []
entry_bytes (suc size) value = (value % 256) ∷ entry_bytes size (value / 256)

unfoldable pub write_into_splitblock_table : ℕ → List ℕ → ℕ → ℕ → List ℕ
unfolding entry_bytes
write_into_splitblock_table entry_size table pos value =
    pwrite pos (entry_bytes entry_size value) table

-- The loop of `read_from_splitblock_table` goes from the last byte to the first.
unfoldable pub value_of : List ℕ → ℕ
value_of [] = 0
value_of (byte ∷ bytes) = value_of bytes * 256 + byte

unfoldable pub read_from_splitblock_table : ℕ → List ℕ → ℕ → ℕ
unfolding value_of
read_from_splitblock_table entry_size table pos = value_of (take entry_size (drop pos table))

-- `struct SplitBlock`
pub record SplitBlock : Type 0 where
  pub table : List ℕ
  pub num : ℕ
  pub page_per_splitblock : ℕ
  pub entry_size : ℕ

abbrev default_splitblock_size : ℕ
default_splitblock_size = 2 ^ 30

-- The option is given in kilobytes; the size is a 64-bit number. `none` is an error.
unfoldable pub check_splitblock_size : ℕ → ℕ → Option ℕ
check_splitblock_size page_size splitblock_size =
    let size = splitblock_size * 2 ^ 10 % 2 ^ 64 in
    if splitblock_size == 0
    then some default_splitblock_size
    else if size == 0
    then none
    else if not (size % page_size == 0)
    then none
    else some size

-- `prepare_splitblock_table`: the table starts as zeros.
unfoldable pub prepare_splitblock_table : ℕ → ℕ → ℕ → ℕ → Option SplitBlock
prepare_splitblock_table fuel max_mapnr page_size size =
    elim (check_splitblock_size page_size size) [
      | none ↦ none
      | some splitblock_size ↦
          let pages = splitblock_size / page_size in
          let num = (max_mapnr + (pages - 1)) / pages in
          elim (calculate_entry_size fuel pages) [
            | none ↦ none
            | some entry_size ↦ some (record {
              table = replicate (entry_size * num) 0;
              num = num;
              page_per_splitblock = pages;
              entry_size = entry_size;
            })
          ]
    ]

-- The fields of `struct DumpInfo` that the split depends on.
pub record Info : Type 0 where
  pub max_mapnr : ℕ
  pub num_dumpable : ℕ
  pub num_dumpfile : ℕ

module _ (info : Info) (split : SplitBlock) where
  -- The loop of `calculate_end_pfn_by_splitblock`, for the blocks that are left. The count of pages
  -- that are needed goes below zero in the source, here it stops there: the loop ends either way.
  unfoldable pub take_blocks : ℕ → ℕ → ℕ → ℕ
  take_blocks zero cur pfn_needed = cur
  take_blocks (suc left) cur pfn_needed =
      let held = read_from_splitblock_table split.entry_size split.table (cur * split.entry_size) in
      let rest = take_blocks left (cur + 1) (pfn_needed - held) in
      if ltb 0 pfn_needed then rest else cur

  -- The end of the range, and the number of the next block.
  unfoldable pub calculate_end_pfn_by_splitblock : ℕ → ℕ → ℕ × ℕ
  calculate_end_pfn_by_splitblock start_pfn cur =
      let cur' = take_blocks (split.num - cur) cur (info.num_dumpable / info.num_dumpfile) in
      let end_pfn = cur' * split.page_per_splitblock in
      if leb info.max_mapnr start_pfn
      then (info.max_mapnr, cur)
      else (if ltb info.max_mapnr end_pfn then info.max_mapnr else end_pfn, cur')

  -- The loop of `setup_splitting`: the ranges of the files but the last, then the last one.
  unfoldable pub ranges_from : ℕ → ℕ → ℕ → List (ℕ × ℕ)
  ranges_from zero end_pfn cur = (end_pfn, info.max_mapnr) ∷ []
  ranges_from (suc left) end_pfn cur =
      let (next, cur') = calculate_end_pfn_by_splitblock end_pfn cur in
      (end_pfn, next) ∷ ranges_from left next cur'

  -- `SPLITTING_START_PFN (i)` and `SPLITTING_END_PFN (i)` of the files; `none` for a single file.
  unfoldable pub setup_splitting : Option (List (ℕ × ℕ))
  setup_splitting =
      if leb info.num_dumpfile 1 then none else some (ranges_from (info.num_dumpfile - 1) 0 0)

-- The loop of `check_splitting_info`
unfoldable pub check_chain : ℕ → ℕ → List (ℕ × ℕ) → Bool
check_chain max_mapnr end_pfn [] = end_pfn == max_mapnr
check_chain max_mapnr end_pfn ((start, next) ∷ ranges) =
    if not (end_pfn == start) then false else check_chain max_mapnr next ranges

unfoldable pub check_splitting_info : ℕ → List (ℕ × ℕ) → Bool
unfolding check_chain
check_splitting_info max_mapnr [] = false
check_splitting_info max_mapnr ((start, end) ∷ ranges) =
    if not (start == 0) then false else check_chain max_mapnr end ranges
