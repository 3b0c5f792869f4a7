-- ===== src/Filter/Scan.antt =====
-- The loop of `__exclude_unnecessary_pages` over the page descriptors of one memory map.
pub mod Safety
use makedumpfile.Prelude.{
  ℕ, zero, suc, ◌+◌, ◌-◌, ◌*◌, ◌/◌, ◌%◌, ◌^◌, Bool, true, false, ◌&&◌, ◌||◌, not, Option, none,
  some, ltb, leb, ◌==◌, if◌then◌else◌,
}
use makedumpfile.Cycle.{Counter, Cycle, is_cyclic_region}
use makedumpfile.Filter.{Kernel, Page, BuddyTest, Decision, keep, exclude, classify}
use makedumpfile.Filter.Stats.{Stats}
use makedumpfile.Filter.Range.{Bits, clear_counted, exclude_range}

abbrev pub pgmm_cached : ℕ
pgmm_cached = 512

-- `roundup (x, PGMM_CACHED)`
abbrev pub roundup_cached : ℕ → ℕ
roundup_cached x = (x + (pgmm_cached - 1)) / pgmm_cached * pgmm_cached

-- What the loop depends on: the fields of `info`, `SIZE (page)`, which frames are in the segments of
-- the dump, and the memory. `readmem addr n` gives the `n` descriptors from an address on.
pub record Source : Type 0 where
  pub kernel : Kernel
  pub buddy : BuddyTest
  pub dump_level : ℕ
  pub flag_cyclic : Bool
  pub size_page : ℕ
  pub in_segs : ℕ → Bool
  pub readmem : ℕ → ℕ → Option (ℕ → Page)

-- The cache of page descriptors and the frames that it holds.
pub record PageCache : Type 0 where
  pub entries : ℕ → Page
  pub read_start : ℕ
  pub read_end : ℕ

-- `malloc` leaves the entries as they are; no frame is in the cache.
unfoldable pub empty_cache : (ℕ → Page) → PageCache
empty_cache entries = record { entries = entries; read_start = 2 ^ 64 - 1; read_end = 0 }

-- The entries of the cache from `index` on are read from memory.
abbrev pub fill : ℕ → ℕ → (ℕ → Page) → (ℕ → Page) → ℕ → Page
fill index n descriptors entries i =
    if leb index i && ltb i (index + n) then descriptors (i - index) else entries i

-- `none` if the memory cannot be read.
unfoldable pub refresh : Source → ℕ → ℕ → ℕ → PageCache → Option PageCache
refresh source mem_map pfn pfn_end cache =
    let index_pg = pfn % pgmm_cached in
    let pfn_mm : ℕ =
      (if ltb (roundup_cached (pfn + 1)) pfn_end then pgmm_cached - index_pg else pfn_end - pfn) in
    let loaded : Option PageCache = elim (source.readmem mem_map pfn_mm) [
      | none ↦ none
      | some descriptors ↦ some (record {
        entries = fill index_pg pfn_mm descriptors cache.entries;
        read_start = pfn;
        read_end = pfn + pfn_mm - 1;
      })
    ] in
    if ltb pfn cache.read_start || ltb cache.read_end pfn then loaded else some cache

module _ {first past : ℕ} (bits : Bits first past) (source : Source) where
  open bits use {State}

  pub record Work : Type 0 where
    pub cycle : Cycle
    pub state : State × Stats
    pub cache : PageCache
    pub mem_map : ℕ

  -- The exclusion at the end of the loop body, and the next frame; both sums are of 64 bits.
  unfoldable pub execute : Decision → ℕ → Work → ℕ × Work
  execute keep pfn w = (pfn + 1, record w { mem_map = (w.mem_map + source.size_page) % 2 ^ 64 })
  execute (exclude counter nr_pages) pfn w =
      let (cycle', bits', stats') =
        exclude_range bits counter pfn ((pfn + nr_pages) % 2 ^ 64) w.cycle w.state in
      if nr_pages == 1
      then (
        pfn + 1,
        record w {
          state = clear_counted bits counter pfn w.state;
          mem_map = (w.mem_map + source.size_page) % 2 ^ 64;
        },
      )
      else (
        (pfn + nr_pages) % 2 ^ 64,
        record w {
          cycle = cycle';
          state = (bits', stats');
          mem_map = (w.mem_map + nr_pages * source.size_page) % 2 ^ 64;
        },
      )

  -- One round of the loop: the next frame, or `none` if the descriptors cannot be read.
  unfoldable pub round_at : ℕ → ℕ → Work → Option (ℕ × Work)
  round_at pfn_end pfn w =
      let skipped : ℕ × Work =
        (pfn + 1, record w { mem_map = (w.mem_map + source.size_page) % 2 ^ 64 }) in
      let examined : Option (ℕ × Work) = elim (refresh source w.mem_map pfn pfn_end w.cache) [
        | none ↦ none
        | some cache ↦
            let index_pg = pfn % pgmm_cached in
            some (
              execute
                (classify source.kernel pgmm_cached source.buddy source.dump_level pfn
                  (cache.entries index_pg) (cache.entries (index_pg + 1)))
                pfn (record w { cache = cache }))
      ] in
      if source.flag_cyclic && not (is_cyclic_region pfn (some w.cycle))
      then some skipped
      else if not (source.in_segs pfn)
      then some skipped
      else examined

  -- How the loop ends: with the truth value that is returned, or because the fuel is used up.
  pub data End : Type 0 where
    returned : Bool → Work → End
    out_of_fuel : End

  unfoldable pub scan : ℕ → ℕ → ℕ → Work → End
  scan zero pfn_end pfn w = if ltb pfn pfn_end then out_of_fuel else returned true w
  scan (suc fuel) pfn_end pfn w =
      let rest : End = elim (round_at pfn_end pfn w) [
        | none ↦ returned false w
        | some (pfn', w') ↦ scan fuel pfn_end pfn' w'
      ] in
      if ltb pfn pfn_end then rest else returned true w

  -- A pending exclusion comes first, and moves the start of the loop.
  unfoldable pub exclude_pending : ℕ → Work → ℕ × Work
  exclude_pending pfn_start w =
      let to = w.cycle.exclude_pfn_end in
      let pending : ℕ × Work = elim w.cycle.exclude_pfn_counter [
        | none ↦ (pfn_start, w)
        | some counter ↦
            let (cycle', bits', stats') =
              exclude_range bits counter w.cycle.exclude_pfn_start to w.cycle w.state in
            (
              to,
              record w {
                cycle = cycle';
                state = (bits', stats');
                mem_map = (w.mem_map + (to + 2 ^ 64 - pfn_start) * source.size_page) % 2 ^ 64;
              },
            )
      ] in
      if ltb w.cycle.exclude_pfn_start to then pending else (pfn_start, w)

  -- `__exclude_unnecessary_pages`; `fresh` is what `malloc` gives for the cache, if anything.
  unfoldable pub exclude_unnecessary_pages : ℕ → Option (ℕ → Page) → ℕ → ℕ → Work → End
  exclude_unnecessary_pages fuel none pfn_start pfn_end w =
      let (pfn, w') = exclude_pending pfn_start w in returned false w'
  exclude_unnecessary_pages fuel (some fresh) pfn_start pfn_end w =
      let (pfn, w') = exclude_pending pfn_start w in
      scan fuel pfn_end pfn (record w' { cache = empty_cache fresh })
