-- ===== src/Vmcore/Tests.antt =====
-- A page that two segments share, read with `read` and through a mapped window.
use makedumpfile.Prelude.{
  ℕ, ◌+◌, ◌≤◌, ◌≡◌, refl, Bool, true, false, none, some, List, [], ◌∷◌, leb, get_or, ap, Bool-cases,
  inl, inr, if◌then◌else◌, ◌<◌, ◌-◌, arith,
}
use makedumpfile.File.{pread}
use makedumpfile.Segments.{
  PtLoadSegment, paddr_to_offset, offset_to_pt_load_end, page_is_fractional, closest_from,
  closest_pt_load, max_file_offset_from,
}
use makedumpfile.Segments.Lookup.{All, IsWhole}
use makedumpfile.Vmcore.{
  filled, failed, MmapWindow, MmapInfo, read_from_vmcore, read_rounds, readpage_elf,
  update_mmap_range, is_mapped_with_mmap, mappage_elf, map_failed, initialize_mmap, try_mmap,
  mappages,
}
use makedumpfile.Vmcore.Bytes.{ByteAt}
use makedumpfile.Vmcore.Page.{IsSound, IsPage, readpage_elf-IsPage}
use makedumpfile.Vmcore.Mapped.{
  IsMapped, IsWindow, ShowsFile, mappages-try_mmap-IsWindow, mappage_elf-ByteAt,
}

abbrev dump : List ℕ
dump = 0 ∷ 0 ∷ 0 ∷ 0 ∷ 10 ∷ 11 ∷ 12 ∷ 13 ∷ 14 ∷ 15 ∷ 16 ∷ 17 ∷ 18 ∷ 19 ∷ []

abbrev low_memory : PtLoadSegment
low_memory = record {
  file_offset = 4;
  file_size = 8;
  phys_start = 0;
  phys_end = 8;
  virt_start = 100;
  virt_end = 108;
}

-- Two bytes in the file of three.
abbrev high_memory : PtLoadSegment
high_memory = record {
  file_offset = 12;
  file_size = 2;
  phys_start = 9;
  phys_end = 12;
  virt_start = 109;
  virt_end = 112;
}

abbrev table : List PtLoadSegment
table = low_memory ∷ high_memory ∷ []

abbrev any_seek : ℕ → Bool
any_seek off = true

shared_page : readpage_elf any_seek dump 4 table 6 ≡ filled (16 ∷ 17 ∷ 0 ∷ 18 ∷ [])
unfolding readpage_elf read_rounds read_from_vmcore pread closest_pt_load closest_from
shared_page = refl

last_page : readpage_elf any_seek dump 4 table 10 ≡ filled (19 ∷ 0 ∷ 0 ∷ 0 ∷ [])
unfolding readpage_elf read_rounds read_from_vmcore pread closest_pt_load closest_from
last_page = refl

no_page : readpage_elf any_seek dump 4 table 12 ≡ failed
unfolding readpage_elf read_rounds closest_pt_load closest_from
no_page = refl

table-IsSound : All (IsSound dump) table
table-IsSound = (
  record { ordered = omega arith; fits = omega arith; inside = omega arith },
  (record { ordered = omega arith; fits = omega arith; inside = omega arith }, tt),
)

readpage_elf-IsPage_example : IsPage any_seek dump table 4 6 (readpage_elf any_seek dump 4 table 6)
readpage_elf-IsPage_example =
    readpage_elf-IsPage any_seek dump table 4 6 (λ off. refl) table-IsSound

abbrev mapping : MmapInfo
mapping = record {
  page_size = 4;
  mmap_region_size = 4;
  pt_loads = low_memory ∷ [];
  mmap = λ offset size. if leb (offset + size) 14 then offset + 4096 else map_failed;
}

abbrev old_window : MmapWindow
old_window = record { flag_usemmap = true; mmap_buf = 4104; start_offset = 8; end_offset = 12 }

abbrev new_window : MmapWindow
new_window = record { flag_usemmap = true; mmap_buf = 4100; start_offset = 4; end_offset = 8 }

moves : mappage_elf mapping 0 old_window ≡ (some 4100, new_window)
unfolding mappage_elf update_mmap_range is_mapped_with_mmap paddr_to_offset page_is_fractional
    offset_to_pt_load_end max_file_offset_from
moves = refl

last_page_of_segment : mappage_elf mapping 4 new_window ≡ (none, new_window)
unfolding mappage_elf paddr_to_offset page_is_fractional offset_to_pt_load_end
last_page_of_segment = refl

-- Where `mmap` fails it is not used any more, and its result is kept.
refuses :
    mappage_elf (record mapping { mmap = λ offset size. map_failed }) 0 old_window
    ≡ (none, record old_window { flag_usemmap = false; mmap_buf = map_failed })
unfolding mappage_elf update_mmap_range is_mapped_with_mmap paddr_to_offset page_is_fractional
    offset_to_pt_load_end max_file_offset_from
refuses = refl

abbrev unused : MmapWindow
unused = record { flag_usemmap = false; mmap_buf = 0; start_offset = 0; end_offset = 0 }

tried : try_mmap mapping unused ≡ new_window
unfolding try_mmap initialize_mmap update_mmap_range paddr_to_offset offset_to_pt_load_end
    max_file_offset_from
tried = refl

mappages-try_mmap-IsWindow_example :
    IsWindow mapping (mappages mapping (0 ∷ 4 ∷ []) (try_mmap mapping unused))
mappages-try_mmap-IsWindow_example =
    mappages-try_mmap-IsWindow mapping (0 ∷ 4 ∷ []) unused (omega arith)

old_window-IsWindow : IsWindow mapping old_window
unfolding max_file_offset_from
old_window-IsWindow = record {
  usable = λ on. record {
    ordered = omega arith;
    small = omega arith;
    in_file = omega arith;
    in_segment = (low_memory, inl refl, omega arith, omega arith);
    mapped = refl;
    not_failed = refl;
  };
}

abbrev memory : ℕ → ℕ
memory address = get_or dump (address - 4096) 0

memory-ShowsFile : ShowsFile memory dump mapping
memory-ShowsFile offset size i = elim (Bool-cases (leb (offset + size) 14)) [
  | inl fits ↦ λ ok h. rw fits (ap (λ a. get_or dump a 0) (omega arith))
  | inr past ↦ λ ok h. absurd (ground arith)
]

segments-IsWhole : All IsWhole mapping.pt_loads
segments-IsWhole = (record { ordered = omega arith; size = refl; behind_header = omega arith }, tt)

found_page : (mappage_elf mapping 0 old_window).0 ≡ some 4100
unfolding mappage_elf update_mmap_range is_mapped_with_mmap paddr_to_offset page_is_fractional
    offset_to_pt_load_end max_file_offset_from
found_page = refl

mappage_elf-ByteAt_example :
    let r = mappage_elf mapping 0 old_window in
    IsMapped mapping (r.1)
    × (r.1.mmap_buf ≤ 4100)
    × (4100 + mapping.page_size ≤ r.1.mmap_buf + (r.1.end_offset - r.1.start_offset))
    × ((k : ℕ) → k < 4 → ByteAt dump mapping.pt_loads (0 + k) (memory (4100 + k)))
mappage_elf-ByteAt_example =
    mappage_elf-ByteAt mapping memory dump 0 old_window (omega arith) memory-ShowsFile
      old_window-IsWindow segments-IsWhole (tt, tt) found_page
