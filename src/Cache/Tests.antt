-- ===== src/Cache/Tests.antt =====
-- A few requests to the page cache.
use makedumpfile.Prelude.{◌≡◌, refl, none, some, List, [], ◌∷◌}
use makedumpfile.Cache.{
  cache_init, add_entry, remove_entry, touch, search_from, cache_search, give, evict, cache_alloc,
  cache_add, cache_free, fill,
}
use makedumpfile.Cache.Spec.{fresh, IsSplit}
use makedumpfile.Cache.Refine.{Shows}
use makedumpfile.Cache.Run.{
  Request, look, alloc, add, release, store, serve_all, lru_serve_all, fresh-IsSplit,
  cache_init-Shows, serve_all-IsSplit, serve_all-lru,
}

-- Two pages are cached, the first one is looked up, a third one is given back.
abbrev requests : List Request
requests = alloc 0 ∷ add 7 ∷ alloc 16 ∷ add 6 ∷ look 4 4 ∷ alloc 32 ∷ release 5 ∷ look 40 4 ∷ []

answers :
    (serve_all 16 cache_init requests).0
    ≡ some 7 ∷ none ∷ some 6 ∷ none ∷ some 116 ∷ some 5 ∷ none ∷ none ∷ []
unfolding cache_search touch search_from add_entry remove_entry give cache_alloc evict cache_add
    cache_free
answers = refl

-- With all others pending, the page that was used the longest time ago gives way, also a mapped one.
abbrev eviction : List Request
eviction =
    alloc 0
    ∷ store 7 0 500 64
    ∷ add 7
    ∷ alloc 64
    ∷ add 6
    ∷ look 70 2
    ∷ alloc 128
    ∷ alloc 144
    ∷ alloc 160
    ∷ alloc 176
    ∷ alloc 192
    ∷ alloc 208
    ∷ alloc 224
    ∷ []

evicted : (serve_all 16 cache_init eviction).1.discarded ≡ 7 ∷ []
unfolding cache_search touch search_from add_entry remove_entry give cache_alloc evict cache_add
    cache_free fill
evicted = refl

serve_all-lru_example : (serve_all 16 cache_init requests).0 ≡ (lru_serve_all 16 fresh requests).0
serve_all-lru_example =
    serve_all-lru 16 requests (tt, (refl, (tt, (refl, (tt, (tt, (refl, (tt, tt))))))))

serve_all-IsSplit_example :
    let last = (lru_serve_all 16 fresh requests).1 in
    IsSplit last × Shows ((serve_all 16 cache_init requests).1) last
serve_all-IsSplit_example =
    serve_all-IsSplit 16 cache_init fresh requests fresh-IsSplit cache_init-Shows
      (tt, (refl, (tt, (refl, (tt, (tt, (refl, (tt, tt))))))))
