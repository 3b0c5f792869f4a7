-- ===== src/Cache/Run.antt =====
-- The page cache over a sequence of requests, as `readmem` makes them.
use makedumpfile.Prelude.{
  ℕ, ◌≡◌, refl, ap, ◌∙◌, true, Option, none, some, List, [], ◌∷◌, length, arith,
}
use makedumpfile.Cache.{
  CacheState, cache_init, cache_search, cache_alloc, cache_add, cache_free, fill,
}
use makedumpfile.Cache.Links.{mem, last_or}
use makedumpfile.Cache.Spec.{
  Lru, fresh, find_page, found_page, lru_search, lru_alloc_used, lru_alloc_from, lru_alloc, lru_add,
  lru_free, lru_fill, count, IsSplit, count-remove, length-remove,
}
use makedumpfile.Cache.Refine.{Shows, find_page-mem}
use makedumpfile.Cache.Refine.Steps.{
  Agrees, cache_search-Shows, cache_alloc-Agrees, cache_add-Shows, cache_free-Shows, fill-Shows,
  last_is_used,
}

-- A call of the cache, or a store to an entry that it gave.
pub data Request : Type 0 where
  look : (paddr length : ℕ) → Request
  alloc : (paddr : ℕ) → Request
  add release : (entry : ℕ) → Request
  store : (entry paddr bufptr buflen : ℕ) → Request

abbrev pub serve : ℕ → CacheState → Request → Option ℕ × CacheState
serve page_size s (look paddr length) = cache_search s paddr length
serve page_size s (alloc paddr) = cache_alloc page_size s paddr
serve page_size s (add entry) = (none, cache_add s entry)
serve page_size s (release entry) = (none, cache_free s entry)
serve page_size s (store entry paddr bufptr buflen) = (none, fill s entry paddr bufptr buflen)

abbrev pub lru_serve : ℕ → Lru → Request → Option ℕ × Lru
lru_serve page_size a (look paddr length) = lru_search a paddr length
lru_serve page_size a (alloc paddr) = lru_alloc page_size a paddr
lru_serve page_size a (add entry) = (none, lru_add a entry)
lru_serve page_size a (release entry) = (none, lru_free a entry)
lru_serve page_size a (store entry paddr bufptr buflen) =
    (none, lru_fill a entry paddr bufptr buflen)

-- Only a pending entry is added, given back or stored to.
abbrev pub IsAllowed : Lru → Request → Type 0
IsAllowed a (look paddr length) = Unit {0}
IsAllowed a (alloc paddr) = Unit {0}
IsAllowed a (add entry) = mem entry a.pending ≡ true
IsAllowed a (release entry) = mem entry a.pending ≡ true
IsAllowed a (store entry paddr bufptr buflen) = mem entry a.pending ≡ true

abbrev pub serve_all : ℕ → CacheState → List Request → List (Option ℕ) × CacheState
serve_all page_size s [] = ([], s)
serve_all page_size s (r ∷ rs) =
    let (result, s') = serve page_size s r in
    let (results, last) = serve_all page_size s' rs in (result ∷ results, last)

abbrev pub lru_serve_all : ℕ → Lru → List Request → List (Option ℕ) × Lru
lru_serve_all page_size a [] = ([], a)
lru_serve_all page_size a (r ∷ rs) =
    let (result, a') = lru_serve page_size a r in
    let (results, last) = lru_serve_all page_size a' rs in (result ∷ results, last)

abbrev pub AllAllowed : ℕ → Lru → List Request → Type 0
AllAllowed page_size a [] = Unit {0}
AllAllowed page_size a (r ∷ rs) =
    IsAllowed a r × AllAllowed page_size ((lru_serve page_size a r).1) rs

found_page-IsSplit :
    (a : Lru) (paddr : ℕ) (r : Option ℕ)
    → ((x : ℕ) → r ≡ some x → mem x a.used ≡ true)
    → IsSplit a
    → IsSplit ((found_page a paddr r).1)
found_page-IsSplit a paddr none inside split = split
found_page-IsSplit a paddr (some x) inside split =
    let m = inside x refl in
    record {
      one_place = λ i. omega (arith, split.one_place i, count-remove x a.used i m);
      total = omega (arith, split.total, length-remove x a.used m);
    }

alloc_used-IsSplit :
    (page_size : ℕ) (a : Lru) (paddr : ℕ) (t : Option ℕ)
    → t ≡ last_or none a.used
    → IsSplit a
    → IsSplit ((lru_alloc_used page_size a paddr t).1)
alloc_used-IsSplit page_size a paddr none e split = split
alloc_used-IsSplit page_size a paddr (some x) e split =
    let m = last_is_used a.used e in
    record {
      one_place = λ i. omega (arith, split.one_place i, count-remove x a.used i m);
      total = omega (arith, split.total, length-remove x a.used m);
    }

alloc_from-IsSplit :
    (page_size : ℕ) (a : Lru) (paddr : ℕ) (free : List ℕ)
    → a.free ≡ free
    → IsSplit a
    → IsSplit ((lru_alloc_from page_size a paddr free).1)
alloc_from-IsSplit page_size a paddr [] e split =
    alloc_used-IsSplit page_size a paddr (last_or none a.used) refl split
alloc_from-IsSplit page_size a paddr (x ∷ free) e split = record {
  one_place = λ i. omega (arith, split.one_place i, ap (count i) e);
  total = omega (arith, split.total, ap length e);
}

serve-IsSplit :
    (page_size : ℕ) (a : Lru) (r : Request)
    → IsAllowed a r
    → IsSplit a
    → IsSplit ((lru_serve page_size a r).1)
serve-IsSplit page_size a (look paddr len) allowed split =
    found_page-IsSplit a paddr (find_page a.pages paddr len a.used)
      (λ x e. find_page-mem a.pages paddr len a.used e) split
serve-IsSplit page_size a (alloc paddr) allowed split =
    alloc_from-IsSplit page_size a paddr a.free refl split
serve-IsSplit page_size a (add x) m split = record {
  one_place = λ i. omega (arith, split.one_place i, count-remove x a.pending i m);
  total = omega (arith, split.total, length-remove x a.pending m);
}
serve-IsSplit page_size a (release x) m split = record {
  one_place = λ i. omega (arith, split.one_place i, count-remove x a.pending i m);
  total = omega (arith, split.total, length-remove x a.pending m);
}
serve-IsSplit page_size a (store x paddr bufptr buflen) m split = record {
  one_place = split.one_place;
  total = split.total;
}

serve-Agrees :
    (page_size : ℕ) (s : CacheState) (a : Lru) (r : Request)
    → IsAllowed a r
    → IsSplit a
    → Shows s a
    → Agrees (serve page_size s r) (lru_serve page_size a r)
serve-Agrees page_size s a (look paddr len) allowed split shows =
    cache_search-Shows s a paddr len split shows
serve-Agrees page_size s a (alloc paddr) allowed split shows =
    cache_alloc-Agrees page_size s a paddr split shows
serve-Agrees page_size s a (add x) m split shows = (refl, cache_add-Shows s a x split m shows)
serve-Agrees page_size s a (release x) m split shows = (refl, cache_free-Shows s a x split m shows)
serve-Agrees page_size s a (store x paddr bufptr buflen) m split shows =
    (refl, fill-Shows s a x paddr bufptr buflen shows)

-- Take any state of the cache that shows three lists, of which each of the eight entries is in exactly
-- one, once: the used ones and the pending ones, linked both ways, and the pool. Then any sequence of
-- searches, allocations, additions, releases and stores, where only pending entries are added,
-- released or stored to, ends in such a state again.
pub serve_all-IsSplit :
    (page_size : ℕ) (s : CacheState) (a : Lru) (requests : List Request)
    → IsSplit a
    → Shows s a
    → AllAllowed page_size a requests
    → let last = (lru_serve_all page_size a requests).1 in
      IsSplit last × Shows ((serve_all page_size s requests).1) last
serve_all-IsSplit page_size s a [] split shows allowed = (split, shows)
serve_all-IsSplit page_size s a (r ∷ rs) split shows allowed =
    serve_all-IsSplit page_size ((serve page_size s r).1) ((lru_serve page_size a r).1) rs
      (serve-IsSplit page_size a r allowed.0 split)
      ((serve-Agrees page_size s a r allowed.0 split shows).1) allowed.1

same_results :
    (page_size : ℕ) (s : CacheState) (a : Lru) (requests : List Request)
    → IsSplit a
    → Shows s a
    → AllAllowed page_size a requests
    → (serve_all page_size s requests).0 ≡ (lru_serve_all page_size a requests).0
same_results page_size s a [] split shows allowed = refl
same_results page_size s a (r ∷ rs) split shows allowed =
    let agrees = serve-Agrees page_size s a r allowed.0 split shows in
    ap (λ x. x ∷ (serve_all page_size ((serve page_size s r).1) rs).0) agrees.0
    ∙ ap (λ l. (lru_serve page_size a r).0 ∷ l)
        (same_results page_size ((serve page_size s r).1) ((lru_serve page_size a r).1) rs
          (serve-IsSplit page_size a r allowed.0 split) agrees.1 allowed.1)

pub fresh-IsSplit : IsSplit fresh
fresh-IsSplit = record { one_place = λ i. ground arith; total = refl }

pub cache_init-Shows : Shows cache_init fresh
cache_init-Shows = record {
  used = record { head = refl; tail = refl; linked = tt };
  pending = record { head = refl; tail = refl; linked = tt };
  avail = refl;
  pool = (refl, (refl, (refl, (refl, (refl, (refl, (refl, (refl, tt))))))));
  pages = λ i. refl;
  discarded = refl;
}

-- From the start on, searches and allocations give the same pointers and entries as on lists of
-- entries, where an entry that is found goes to the front of the used ones, and an allocation takes a
-- free entry, or the last of the used ones, and none if all are pending. The requests keep to the
-- protocol of the callers: only pending entries are added, released or stored to.
pub serve_all-lru :
    (page_size : ℕ) (requests : List Request)
    → AllAllowed page_size fresh requests
    → (serve_all page_size cache_init requests).0 ≡ (lru_serve_all page_size fresh requests).0
serve_all-lru page_size requests allowed =
    same_results page_size cache_init fresh requests fresh-IsSplit cache_init-Shows allowed
