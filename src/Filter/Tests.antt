-- ===== src/Filter/Tests.antt =====
-- The filter at concrete pages, and the theorems about it at a bitmap of sixteen frames.
use makedumpfile.Prelude.{
  zero, suc, ◌+◌, ◌-◌, ◌^◌, ◌≤◌, ◌≡◌, refl, true, false, none, some, [], ◌∷◌, ◌&&◌, ◌||◌, not, min,
  max, ltb, leb, if◌then◌else◌, arith,
}
use makedumpfile.Cycle.{Cycle, Info, pfn_user, pfn_free}
use makedumpfile.Bitmap.{Bitmap, is_dumpable_buffer}
use makedumpfile.Bitmap.Bits.{IsBytes}
use makedumpfile.Bitmap.Buffer.{Covers}
use makedumpfile.Filter.{
  Kernel, Page, BuddyTest, exclude, not_found, level, decide, dl_exclude_free, is_slab, is_anon,
  is_cache_page, shift_one, is_hugetlb, is_hwpoison, is_offline, is_unaccepted, test_bit,
  page_is_buddy_v3,
}
use makedumpfile.Filter.Stats.{Stats, total}
use makedumpfile.Filter.Rules.{
  view, reason, any_reason, is_kept, decide-reason, is_kept-decide, decide_monotone, Includes,
}
use makedumpfile.Filter.Range.{exclude_range, exclude_range-bit}
use makedumpfile.Filter.InMemory.{buffer_bits}
use makedumpfile.Filter.Scan.{Source, Work, empty_cache, scan}
use makedumpfile.Filter.Scan.Safety.{Safe, Ends, scan-Safe}

abbrev kernel : Kernel
kernel = record {
  pg_lru = 5;
  pg_private = 11;
  pg_swapcache = 14;
  pg_swapbacked = 19;
  pg_hwpoison = 22;
  pg_slab = 7;
  pg_buddy = not_found;
  pg_hugetlb = not_found;
  pg_head_mask = 65536;
  page_slab_mapcount = not_found;
  page_buddy_mapcount = 2 ^ 64 - 128;
  page_offline_mapcount = not_found;
  page_unaccepted_mapcount = not_found;
  page_hugetlb_mapcount = not_found;
  hugetlb_page_dtor = not_found;
  free_huge_page = 0;
  free_area_length = 11;
  has_mapcount = true;
  has_private = true;
  has_compound_head = true;
  has_order_offset = true;
  has_dtor_offset = true;
  kernel_version = 0;
}

abbrev anonymous : Page
anonymous = record {
  flags = 0;
  refcount = 1;
  mapping = 1;
  mapcount = 0;
  compound_head = 0;
  private = 0;
  order_uchar = 0;
  order_ushort = 0;
  dtor_uchar = 0;
  dtor_ushort = 0;
  dtor_ulong = 0;
}

decide-anonymous : decide kernel BuddyTest.v3 8 anonymous 0 0 ≡ exclude pfn_user 1
unfolding decide is_slab is_anon is_cache_page is_hugetlb is_hwpoison is_offline is_unaccepted
    test_bit page_is_buddy_v3 shift_one
decide-anonymous = refl

decide-reason_example :
    (reason pfn_user 8 (view kernel BuddyTest.v3 anonymous 0) ≡ true)
    × ((view kernel BuddyTest.v3 anonymous 0).tail ≡ false)
decide-reason_example = decide-reason kernel BuddyTest.v3 8 anonymous 0 0 decide-anonymous

is_kept-decide_example : is_kept (decide kernel BuddyTest.v3 31 anonymous 0 0) ≡ (
    let v = view kernel BuddyTest.v3 anonymous 0 in
    v.tail || (level 31 dl_exclude_free && v.buddy && v.bad) || not (any_reason 31 v))
is_kept-decide_example = is_kept-decide kernel BuddyTest.v3 31 anonymous 0 0

anonymous_out : is_kept (decide kernel BuddyTest.v3 8 anonymous 0 0) ≡ false
unfolding is_kept decide is_slab is_anon is_cache_page is_hugetlb is_hwpoison is_offline
    is_unaccepted test_bit page_is_buddy_v3
anonymous_out = refl

anonymous_order :
    ((view kernel BuddyTest.v3 anonymous 0).buddy && (view kernel BuddyTest.v3 anonymous 0).bad)
    ≡ false
unfolding view is_slab page_is_buddy_v3
anonymous_order = refl

higher : Includes 31 8
higher = (ground arith, ground arith, ground arith, ground arith)

decide_monotone_example : is_kept (decide kernel BuddyTest.v3 31 anonymous 0 0) ≡ false
decide_monotone_example =
    decide_monotone kernel BuddyTest.v3 8 31 anonymous 0 0 higher anonymous_order anonymous_out

abbrev info : Info
info = record { pfn_cyclic = 16; flag_elf_dumpfile = false }

abbrev cycle : Cycle
cycle = record {
  start_pfn = 0;
  end_pfn = 16;
  exclude_pfn_start = 0;
  exclude_pfn_end = 0;
  exclude_pfn_counter = none;
}

full-IsBytes : IsBytes (255 ∷ 255 ∷ [])
full-IsBytes zero = omega arith
full-IsBytes (suc zero) = omega arith
full-IsBytes (suc (suc k)) = omega arith

abbrev full : Bitmap
full = record { on_file = false; no_block = none; buf = 255 ∷ 255 ∷ []; offset = 0 }

full-Covers : Covers info full
full-Covers = record { bytes = full-IsBytes; room = omega arith }

abbrev zeros : Stats
zeros = record { cache = 0; cache_private = 0; user = 0; free = 0; hwpoison = 0; offline = 0 }

exclude_range-bit_example :
    let (cycle', s', stats') =
      exclude_range (buffer_bits info cycle (omega arith)) pfn_free 12 20 cycle (full, zeros) in
    (is_dumpable_buffer s' 13 (some cycle) ≡ (
      if leb 0 13 && ltb 13 16 && leb 12 13 && ltb 13 (min 20 16)
      then false
      else is_dumpable_buffer full 13 (some cycle)))
    × Covers info s'
    × (total stats' ≡ 0 + (min (min 20 16) 16 - max 12 0))
    × (cycle'.exclude_pfn_start ≡ 16)
    × (cycle'.exclude_pfn_end ≡ 20)
    × (cycle'.exclude_pfn_counter ≡ some pfn_free)
    × (cycle'.start_pfn ≡ 0)
    × (cycle'.end_pfn ≡ 16)
exclude_range-bit_example =
    exclude_range-bit (buffer_bits info cycle (omega arith)) pfn_free 12 20 13 cycle (full, zeros)
      full-Covers

abbrev source : Source
source = record {
  kernel = kernel;
  buddy = BuddyTest.v3;
  dump_level = 31;
  flag_cyclic = true;
  size_page = 64;
  in_segs = λ pfn. true;
  readmem = λ addr n. some (λ i. anonymous);
}

fits : cycle.end_pfn ≤ cycle.start_pfn + info.pfn_cyclic
fits = omega arith

abbrev work : Work (buffer_bits info cycle fits) source
work = record {
  cycle = cycle;
  state = (full, zeros);
  cache = empty_cache (λ i. anonymous);
  mem_map = 0;
}

scan-Safe_example :
    Ends
      (buffer_bits info cycle fits)
      source
      (scan (buffer_bits info cycle fits) source 16 16 0 work)
      (λ b w'. Safe (buffer_bits info cycle fits) source 0 work w')
scan-Safe_example =
    scan-Safe (buffer_bits info cycle fits) source 16 16 0 work full-Covers (omega arith)
      (omega arith)
