-- ===== src/Cache.antt =====
-- The page cache of cache.c: eight entries, in the list of used ones, in the list of pending ones, or in
-- the pool. The lists are linked both ways through the entries.
pub mod Links
pub mod Lists
pub mod Spec
pub mod Moves
pub mod Refine
pub mod Run
mod Tests
use makedumpfile.Prelude.{
  ℕ, zero, suc, ◌+◌, ◌-◌, ◌*◌, ◌%◌, ◌^◌, Bool, true, false, ◌&&◌, not, Option, none, some, List, [],
  ◌∷◌, ltb, leb, ◌==◌, if◌then◌else◌,
}

-- `struct cache_entry`, with indices of `entries` for pointers and places in `cachebuf` for `bufptr`;
-- `discard` tells whether a function is set, which then is `unmap_cache`.
pub record CacheEntry : Type 0 where
  pub paddr : ℕ
  pub bufptr : ℕ
  pub buflen : ℕ
  pub next : Option ℕ
  pub prev : Option ℕ
  pub discard : Bool

-- `struct cache`
pub record CacheList : Type 0 where
  pub head : Option ℕ
  pub tail : Option ℕ

-- The static variables, and the entries whose `discard` was called, the last one first.
pub record CacheState : Type 0 where
  pub entries : ℕ → CacheEntry
  pub pool : ℕ → ℕ
  pub avail : ℕ
  pub used : CacheList
  pub pending : CacheList
  pub discarded : List ℕ

abbrev pub cache_size : ℕ
cache_size = 8

abbrev pub no_entry : CacheEntry
no_entry = record { paddr = 0; bufptr = 0; buflen = 0; next = none; prev = none; discard = false }

abbrev pub no_list : CacheList
no_list = record { head = none; tail = none }

-- After the static initialisation and `cache_init`, where the memory is given.
abbrev pub cache_init : CacheState
cache_init = record {
  entries = λ i. no_entry;
  pool = λ i. i;
  avail = cache_size;
  used = no_list;
  pending = no_list;
  discarded = [];
}

abbrev pub Entries : Type 0
Entries = ℕ → CacheEntry

-- Stores to an entry, and through a pointer that may be null.
abbrev pub set_next : Entries → ℕ → Option ℕ → Entries
set_next entries entry p = λ i. if i == entry then record (entries i) { next = p } else entries i

abbrev pub set_prev : Entries → ℕ → Option ℕ → Entries
set_prev entries entry p = λ i. if i == entry then record (entries i) { prev = p } else entries i

abbrev pub set_next_at : Option ℕ → Option ℕ → Entries → Entries
set_next_at none p entries = entries
set_next_at (some entry) p entries = set_next entries entry p

abbrev pub set_prev_at : Option ℕ → Option ℕ → Entries → Entries
set_prev_at none p entries = entries
set_prev_at (some entry) p entries = set_prev entries entry p

abbrev pub if_null : Option ℕ → Option ℕ → Option ℕ → Option ℕ
if_null none p q = p
if_null (some entry) p q = q

unfoldable pub add_entry : Entries → CacheList → ℕ → Entries × CacheList
add_entry entries cache entry = (
  set_prev_at cache.head (some entry) (set_prev (set_next entries entry cache.head) entry none),
  record { head = some entry; tail = if_null cache.tail (some entry) cache.tail },
)

unfoldable pub remove_entry : Entries → CacheList → ℕ → Entries × CacheList
remove_entry entries cache entry =
    let next = (entries entry).next in
    let entries' = set_prev_at next ((entries entry).prev) entries in
    let prev = (entries' entry).prev in
    (
      set_next_at prev ((entries' entry).next) entries',
      record {
        head = if_null prev ((entries' entry).next) cache.head;
        tail = if_null next ((entries entry).prev) cache.tail;
      },
    )

-- The test of `cache_search`; `off` is unsigned and wraps around.
abbrev pub offset_in : ℕ → ℕ → ℕ
offset_in start paddr = (paddr + (2 ^ 64 - start)) % 2 ^ 64

abbrev pub has_range : ℕ → ℕ → ℕ → ℕ → Bool
has_range start buflen paddr length =
    ltb (offset_in start paddr) buflen && leb length (buflen - offset_in start paddr)

abbrev pub is_entry : Option ℕ → ℕ → Bool
is_entry none entry = false
is_entry (some first) entry = first == entry

-- An entry that is found goes to the head of the list.
unfoldable pub touch : CacheState → ℕ → CacheState
unfolding add_entry remove_entry
touch s entry =
    let (entries, used) = remove_entry s.entries s.used entry in
    let (entries', used') = add_entry entries used entry in
    if is_entry s.used.head entry then s else record s { entries = entries'; used = used' }

-- The loop of `cache_search`; the result is the entry, if any.
unfoldable pub search_from : ℕ → CacheState → Option ℕ → ℕ → ℕ → Option ℕ
search_from zero s p paddr length = none
search_from (suc fuel) s none paddr length = none
search_from (suc fuel) s (some entry) paddr length =
    let rest = search_from fuel s (s.entries entry).next paddr length in
    if has_range (s.entries entry).paddr (s.entries entry).buflen paddr length
    then some entry
    else rest

-- The list has at most `cache_size` entries.
unfoldable pub cache_search : CacheState → ℕ → ℕ → Option ℕ × CacheState
unfolding touch search_from
cache_search s paddr length = elim (search_from cache_size s s.used.head paddr length) [
  | none ↦ (none, s)
  | some entry ↦
      (some ((s.entries entry).bufptr + offset_in (s.entries entry).paddr paddr), touch s entry)
]

-- The end of `cache_alloc`, for the entry that it takes.
unfoldable pub give : ℕ → CacheState → ℕ → ℕ → Option ℕ × CacheState
unfolding add_entry
give page_size s paddr entry =
    let entries : Entries = λ i.
      if i == entry
      then record (s.entries i) {
        paddr = paddr;
        bufptr = entry * page_size;
        buflen = page_size;
        discard = false;
      }
      else s.entries i in
    let (entries', pending) = add_entry entries s.pending entry in
    (some entry, record s { entries = entries'; pending = pending })

-- The entry that was used the longest time ago.
unfoldable pub evict : CacheState → ℕ → CacheState
unfolding remove_entry
evict s entry =
    let (entries, used) = remove_entry s.entries s.used entry in
    record s {
      entries = entries;
      used = used;
      discarded = if (entries entry).discard then entry ∷ s.discarded else s.discarded;
    }

unfoldable pub cache_alloc : ℕ → CacheState → ℕ → Option ℕ × CacheState
unfolding give evict
cache_alloc page_size s paddr =
    let from_used : Option ℕ × CacheState = elim s.used.tail [
      | none ↦ (none, s)
      | some entry ↦ give page_size (evict s entry) paddr entry
    ] in
    if not (s.avail == 0)
    then give page_size (record s { avail = s.avail - 1 }) paddr (s.pool (s.avail - 1))
    else from_used

unfoldable pub cache_add : CacheState → ℕ → CacheState
unfolding add_entry remove_entry
cache_add s entry =
    let (entries, pending) = remove_entry s.entries s.pending entry in
    let (entries', used) = add_entry entries s.used entry in
    record s { entries = entries'; pending = pending; used = used }

unfoldable pub cache_free : CacheState → ℕ → CacheState
unfolding remove_entry
cache_free s entry =
    let (entries, pending) = remove_entry s.entries s.pending entry in
    record s {
      entries = entries;
      pending = pending;
      pool = λ i. if i == s.avail then entry else s.pool i;
      avail = s.avail + 1;
    }

-- What `readmem` stores to an entry that it was given.
unfoldable pub fill : CacheState → ℕ → ℕ → ℕ → ℕ → CacheState
fill s entry paddr bufptr buflen = record s {
  entries = λ i.
      if i == entry
      then record (s.entries i) { paddr = paddr; bufptr = bufptr; buflen = buflen; discard = true }
      else s.entries i;
}
