-- ===== src/Lib.antt =====
-- makedumpfile makes a small dump file of a crashed kernel's memory: it decides for every page frame
-- whether the dump needs it, keeps the answers in two bitmaps with a bit for each frame, and writes the
-- pages that are left. The parts that are modelled here, all of them plain C with state of their own:
--
-- * The cycles (makedumpfile.c: first_cycle, update_cycle, end_cycle; makedumpfile.h: struct cycle,
--   for_each_cycle, is_cyclic_region) cut the frames into windows that fit the bitmap in memory. Cycle
--   has them, with the loop as the list of the values that the cycle takes; its fuel is the number of
--   rounds, and `max + 1` is enough as every window moves on. Sums are taken modulo 2 ^ 64.
-- * The bitmaps (makedumpfile.c: set_bitmap_buffer, set_bitmap_file, set_bitmap, sync_bitmap,
--   initialize_1st_bitmap, initialize_2nd_bitmap; makedumpfile.h: is_on, is_dumpable_buffer,
--   is_dumpable_file) are in memory, or in a file of which one block is in memory. Bitmap has both. A
--   bitmap is a list of bytes, and a file is the list of its bytes (File), with a test of where
--   transfers succeed.
-- * The bitmap of the segments (makedumpfile.c: create_bitmap_from_memhole) gets a bit for every frame
--   of the cycle that is in memory, not in a hole. Holes has it, on a bitmap in memory, with the
--   segments as a list.
-- * The page filter (makedumpfile.c: __exclude_unnecessary_pages, exclude_range and the predicates on
--   page flags) decides about each page and clears the second bitmap. Filter has the predicates and the
--   chain of tests, Filter/Range the clearing of a range of frames, for any bitmap that keeps the laws
--   of the record Bits, Filter/InMemory that the bitmap in memory does, and Filter/Scan the loop. The
--   kernel's offsets and numbers are the record Kernel. A page descriptor is the record of its fields,
--   a number where a field is missing is not read, and an array of descriptors is a function.
--   Memory is the function `readmem`. Each round of the loop moves on, so that the number of frames
--   left is enough fuel.
-- * The output (makedumpfile.c: write_and_check_space, write_buffer, write_cache, write_cache_bufsz,
--   write_cache_zero) writes with retries and a size limit, to a file, to the standard output in the
--   flattened format, or to nowhere for a dry run. Output has the writes, and Buffered the buffer before
--   them (makedumpfile.h: struct cache_data). What the kernel answers to a write is a list of
--   answers, and a run that uses it up has no result.
-- * The flattened format (makedumpfile.c: write_start_flat_header, write_end_flat_header,
--   read_start_flat_header, read_flat_data_header, rearrange_dumpdata) is a stream of records that
--   write_buffer writes, and that a later run puts in place. Flat has it, on the whole stream; its fuel
--   is the number of records, and inside a record the number of bytes.
-- * The memory image is read by segments (elf_info.c: paddr_to_offset, offset_to_pt_load_end,
--   page_is_fractional, closest_pt_load and others). Segments has the table of segments as a list, in
--   place of the static array; numbers are as large as they need to be, but that a size or an offset
--   that exclude_segment makes is taken modulo 2 ^ 64. readpage_elf (makedumpfile.c)
--   reads a page piece by piece from the segments that have parts of it, and mappage_elf finds a page in
--   a window of the file that update_mmap_range maps. Vmcore has both, on the file as its bytes, with
--   where lseek succeeds and which address mmap gives as parameters; what a mapping shows is a
--   hypothesis on the memory, and munmap by the page cache is left out. The fuel of
--   readpage_elf is the page size, since each round gives at least one byte.
-- * The page cache (cache.c) keeps eight pages, in two lists that are linked both ways and a pool. Cache
--   has it with indices of the static array in place of pointers; the search takes at most the eight
--   steps that the list can have. Its callers are sequences of requests.
-- * With several threads (makedumpfile.c: kdump_thread_function_cyclic and
--   write_kdump_pages_parallel_cyclic) the threads take frames, prepare their pages in shared buffers
--   and say so in their rings of page flags; the main thread finds the least frame in the rings and
--   writes its page. Threads has each of their steps as a function of the shared state, and Reachable is
--   any order of the steps. What a mutex guards is one step. The flags of a ring in use are a list, and
--   how a page is read, filtered and compressed is a parameter.
-- * Splitting (makedumpfile.c: calculate_entry_size to prepare_splitblock_table, setup_splitting,
--   calculate_end_pfn_by_splitblock, check_splitting_info) gives each of several files a range of
--   frames. Split has it. The number of bits of an entry is found with fuel for one round more than
--   a block has pages.
-- * The cycle detection (detect_cycle.c) finds out whether a list walked by a callback comes back to an
--   entry. Detect has it. Entries are addresses, the callback is a function, and counters are taken
--   modulo 2 ^ 64.
-- * The string functions (tools.c) trim lines and read numbers. Text has them, on lists of bytes;
--   strtoull is a parameter of memparse.
--
-- Prelude passes on the library's names, with the Boolean tests, lists measured by native numbers, and
-- the laws of single bits of a byte. The tests beside each part run it on small inputs.
--
-- A definition stands for the code only where the numbers of the source do not overflow, unless it
-- takes them modulo a power of two. Messages and progress reports are left out. Not modelled: the
-- discovery of the memory maps, symbols and debug information (makedumpfile.c, dwarf_info.c), which are
-- reads of kernel structures; the formats of other dump tools (sadump_info.c); the erasure of data
-- (erase_info.c, extension_eppic.c); the translation of addresses (arch); Xen; compression;
-- the writing of pages by a single thread; and the options.
pub mod Prelude
pub mod File
pub mod Cycle
pub mod Bitmap
pub mod Output
pub mod Buffered
pub mod Filter
pub mod Split
pub mod Text
pub mod Detect
pub mod Holes
pub mod Flat
pub mod Segments
pub mod Vmcore
pub mod Cache
pub mod Threads
