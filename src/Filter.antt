-- ===== src/Filter.antt =====
-- Which pages makedumpfile.c leaves out: the tests on the fields of `struct page`, and the decision
-- of `__exclude_unnecessary_pages` for one page.
pub mod Rules
pub mod Stats
pub mod Range
pub mod InMemory
pub mod Scan
mod Tests
use makedumpfile.Prelude.{
  ℕ, zero, suc, ◌+◌, ◌-◌, ◌*◌, ◌/◌, ◌%◌, ◌^◌, Bool, true, false, ◌&&◌, ◌||◌, not, Option, none,
  some, bit_and, ltb, leb, ◌==◌, if◌then◌else◌,
}
use makedumpfile.Cycle.{
  Counter, pfn_cache, pfn_cache_private, pfn_user, pfn_free, pfn_hwpoison, pfn_offline,
}

-- `NOT_FOUND_NUMBER` and `NOT_FOUND_STRUCTURE`, as a 64-bit pattern.
abbrev pub not_found : ℕ
not_found = 2 ^ 64 - 1

abbrev pub found : ℕ → Bool
found n = not (n == not_found)

-- `(int) NUMBER (…)`, as the bit pattern that an `unsigned int` is compared with.
abbrev pub int_of : ℕ → ℕ
int_of n = n % 2 ^ 32

-- The values that the vmcoreinfo gives for the kernel of the dump: `NUMBER (…)`, which offsets of
-- `struct page` are known, and `ARRAY_LENGTH (zone.free_area)`.
pub record Kernel : Type 0 where
  pub pg_lru : ℕ
  pub pg_private : ℕ
  pub pg_swapcache : ℕ
  pub pg_swapbacked : ℕ
  pub pg_hwpoison : ℕ
  pub pg_slab : ℕ
  pub pg_buddy : ℕ
  pub pg_hugetlb : ℕ
  pub pg_head_mask : ℕ
  pub page_slab_mapcount : ℕ
  pub page_buddy_mapcount : ℕ
  pub page_offline_mapcount : ℕ
  pub page_unaccepted_mapcount : ℕ
  pub page_hugetlb_mapcount : ℕ
  pub hugetlb_page_dtor : ℕ
  pub free_huge_page : ℕ
  pub free_area_length : ℕ
  pub has_mapcount : Bool
  pub has_private : Bool
  pub has_compound_head : Bool
  pub has_order_offset : Bool
  pub has_dtor_offset : Bool
  pub kernel_version : ℕ

-- The fields that are read of one `struct page`; the last five are those of a page that follows a
-- compound head, at the offsets of the order and of the destructor.
pub record Page : Type 0 where
  pub flags : ℕ
  pub refcount : ℕ
  pub mapping : ℕ
  pub mapcount : ℕ
  pub compound_head : ℕ
  pub private : ℕ
  pub order_uchar : ℕ
  pub order_ushort : ℕ
  pub dtor_uchar : ℕ
  pub dtor_ushort : ℕ
  pub dtor_ulong : ℕ

-- The mask `1 << (nr & 0x1f)` is an `int`: for bit 31 it is negative and extends to 64 bits.
unfoldable pub test_bit : ℕ → ℕ → Bool
test_bit nr addr =
    let bit = nr % 32 in
    let mask = (if bit == 31 then 2 ^ 64 - 2 ^ 31 else 2 ^ bit) in not (bit_and mask addr == 0)

-- `flags & (1UL << nr)`; the shift takes its count modulo 64.
unfoldable pub has_flag : ℕ → ℕ → Bool
has_flag flags nr = not (bit_and flags (2 ^ (nr % 64)) == 0)

-- `IS_HUGETLB`
abbrev pub is_hugetlb_dtor : ℕ
is_hugetlb_dtor = 2 ^ 64 - 1

-- `KERNEL_VERSION (x, y, z)`
abbrev pub version : ℕ → ℕ → ℕ → ℕ
version x y z = x * 2 ^ 24 + y * 2 ^ 16 + z

-- The pointer `info->page_is_buddy`.
pub data BuddyTest : Type 0 where
  unset v2 v3 : BuddyTest

-- `check_order`: an order that is too large, or that the frame is not aligned to, is dropped.
unfoldable pub check_order : ℕ → ℕ → ℕ
check_order pfn order = if leb 64 order then 0 else if not (pfn % 2 ^ order == 0) then 0 else order

-- What is done with a page: nothing, or the exclusion of `nr_pages` pages from it on.
pub data Decision : Type 0 where
  keep : Decision
  exclude : Counter → ℕ → Decision

-- `dump_level & DL_EXCLUDE_…`
abbrev pub level : ℕ → ℕ → Bool
level dump_level bit = not (bit_and dump_level bit == 0)

abbrev pub dl_exclude_cache : ℕ
dl_exclude_cache = 2

abbrev pub dl_exclude_cache_pri : ℕ
dl_exclude_cache_pri = 4

abbrev pub dl_exclude_user_data : ℕ
dl_exclude_user_data = 8

abbrev pub dl_exclude_free : ℕ
dl_exclude_free = 16

-- `1 << n`, of an `int`, whose count is taken modulo 32, as a number of 64 bits: for bit 31 it is
-- negative.
unfoldable pub shift_one : ℕ → ℕ
shift_one n = if n % 32 == 31 then 2 ^ 64 - 2 ^ 31 else 2 ^ (n % 32)

module _ (k : Kernel) where
  unfoldable pub is_hugetlb : ℕ → Bool
  is_hugetlb dtor =
      dtor == is_hugetlb_dtor
      || (found k.hugetlb_page_dtor && k.hugetlb_page_dtor == dtor)
      || (not (k.free_huge_page == 0) && k.free_huge_page == dtor)

  -- The result is an `int`, the low 32 bits of the masked flags.
  unfoldable pub is_slab : ℕ → ℕ → Bool
  is_slab flags mapcount =
      (found k.page_slab_mapcount && mapcount == int_of k.page_slab_mapcount)
      || not (bit_and flags (2 ^ (k.pg_slab % 64)) % 2 ^ 32 == 0)

  unfoldable pub is_offline : ℕ → ℕ → Bool
  is_offline flags mapcount =
      if not (found k.page_offline_mapcount)
      then false
      else if is_slab flags mapcount
      then false
      else mapcount == int_of k.page_offline_mapcount

  unfoldable pub is_cache_page : ℕ → Bool
  is_cache_page flags =
      test_bit k.pg_lru flags
      || ((not (found k.pg_swapbacked) || test_bit k.pg_swapbacked flags)
          && test_bit k.pg_swapcache flags)

  abbrev pub is_private : ℕ → Bool
  is_private flags = test_bit k.pg_private flags

  -- `isAnon`
  unfoldable pub is_anon : ℕ → ℕ → ℕ → Bool
  is_anon mapping flags mapcount = not (bit_and mapping 1 == 0) && not (is_slab flags mapcount)

  unfoldable pub is_hwpoison : ℕ → Bool
  is_hwpoison flags = test_bit k.pg_hwpoison flags && found k.pg_hwpoison

  unfoldable pub is_unaccepted : ℕ → Bool
  is_unaccepted mapcount =
      mapcount == int_of k.page_unaccepted_mapcount && found k.page_unaccepted_mapcount

  unfoldable pub page_is_buddy_v2 : ℕ → Bool
  page_is_buddy_v2 flags = has_flag flags k.pg_buddy

  unfoldable pub page_is_buddy_v3 : ℕ → ℕ → Bool
  page_is_buddy_v3 flags mapcount =
      if is_slab flags mapcount then false else mapcount == int_of k.page_buddy_mapcount

  unfoldable pub setup_page_is_buddy : BuddyTest
  setup_page_is_buddy =
      if not k.has_private
      then unset
      else if found k.page_buddy_mapcount
      then (if k.has_mapcount then v3 else unset)
      else if found k.pg_buddy
      then v2
      else unset

  -- `info->page_is_buddy && info->page_is_buddy (…)`
  abbrev pub is_buddy : BuddyTest → ℕ → ℕ → Bool
  is_buddy unset flags mapcount = false
  is_buddy v2 flags mapcount = page_is_buddy_v2 flags
  is_buddy v3 flags mapcount = page_is_buddy_v3 flags mapcount

  -- The order and the destructor of a compound head, from the page that follows it.
  unfoldable pub compound_of : ℕ → Page → ℕ × ℕ
  compound_of mapcount next =
      let order : ℕ =
        (if not k.has_order_offset
          then 0
          else if leb (version 4 16 0) k.kernel_version
          then next.order_uchar
          else next.order_ushort) in
      let dtor : ℕ =
        (if not k.has_dtor_offset
          then 0
          else if leb (version 4 16 0) k.kernel_version
          then next.dtor_uchar
          else if leb (version 4 4 0) k.kernel_version
          then next.dtor_ushort
          else next.dtor_ulong) in
      if found k.page_hugetlb_mapcount
      then (
        next.flags % 256,
        if mapcount == int_of k.page_hugetlb_mapcount then is_hugetlb_dtor else 0,
      )
      else if found k.pg_hugetlb
      then (next.flags % 256, if has_flag next.flags k.pg_hugetlb then is_hugetlb_dtor else 0)
      else (order, dtor)

  -- An order that the zone does not have; `decide` asks it of the `private` of a free page.
  abbrev pub bad_order : ℕ → Bool
  bad_order private = found k.free_area_length && leb k.free_area_length private

  -- The chain of tests in the loop body. `order` and `dtor` are those of a compound head.
  unfoldable pub decide : BuddyTest → ℕ → Page → ℕ → ℕ → Decision
  decide buddy dump_level page order dtor =
      let private : ℕ = (if k.has_private then page.private else 0) in
      let head : ℕ = (if k.has_compound_head then page.compound_head else 0) in
      let mapcount : ℕ = (if k.has_mapcount then page.mapcount else 0) in
      let flags = page.flags in
      let nr_pages = shift_one order in
      if not (bit_and head 1 == 0)
      then keep
      else if level dump_level dl_exclude_free && is_buddy buddy flags mapcount
      then (if bad_order private then keep else exclude pfn_free (shift_one private))
      else if level dump_level dl_exclude_free && is_unaccepted mapcount
      then exclude pfn_free (shift_one (k.free_area_length + 2 ^ 64 - 1))
      else if level dump_level dl_exclude_cache
          && is_cache_page flags
          && not (is_private flags)
          && not (is_anon page.mapping flags mapcount)
      then exclude pfn_cache nr_pages
      else if level dump_level dl_exclude_cache_pri
          && is_cache_page flags
          && not (is_anon page.mapping flags mapcount)
      then (if is_private flags
          then exclude pfn_cache_private nr_pages
          else exclude pfn_cache nr_pages)
      else if level dump_level dl_exclude_user_data
          && (is_anon page.mapping flags mapcount || is_hugetlb dtor)
      then exclude pfn_user nr_pages
      else if is_hwpoison flags
      then exclude pfn_hwpoison nr_pages
      else if is_offline flags mapcount
      then exclude pfn_offline nr_pages
      else keep

  -- One page, with its neighbour in the cache of page descriptors: `pgmm_cached` is its size, and
  -- the last entry is never taken for a compound head.
  unfoldable pub classify : ℕ → BuddyTest → ℕ → ℕ → Page → Page → Decision
  classify pgmm_cached buddy dump_level pfn page next =
      let mapcount : ℕ = (if k.has_mapcount then page.mapcount else 0) in
      let (order, dtor) = compound_of mapcount next in
      if ltb (pfn % pgmm_cached) (pgmm_cached - 1) && not (bit_and page.flags k.pg_head_mask == 0)
      then decide buddy dump_level page (check_order pfn order) dtor
      else decide buddy dump_level page 0 0
