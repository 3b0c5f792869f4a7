-- ===== src/Cache/Refine.antt =====
-- The page cache does what the lists of entries do.
pub mod Steps
use makedumpfile.Prelude.{
  ℕ, zero, suc, ◌+◌, ◌-◌, ◌*◌, ◌≤◌, ◌≡◌, refl, ap, ◌∙◌, sym, subst, Bool, true, false, ◌&&◌, ◌||◌,
  not, Option, none, some, List, [], ◌∷◌, length, ltb, leb, ◌==◌, if◌then◌else◌, arith, Bool-cases,
  inl, inr,
}
use mathlib.Core.Bool.{false≢true}
use mathlib.Core.Option.{none-ne-some, some-injective}
use makedumpfile.Cache.{
  CacheEntry, CacheState, Entries, add_entry, remove_entry, touch, search_from, cache_search, give,
  evict, cache_alloc, cache_add, cache_free, fill, cache_size, has_range, offset_in, is_entry,
}
use makedumpfile.Cache.Links.{mem, NoDup, SameLinks, Linked, first_or, last_or}
use makedumpfile.Cache.Lists.{IsList, IsList-same, add_entry-IsList, remove, remove_entry-remove}
use makedumpfile.Cache.Spec.{
  CachedPage, Lru, find_page, found_page, lru_search, set_page, lru_give, lru_evict, lru_alloc_used,
  lru_alloc, lru_add, lru_free, lru_fill, count, one_if, IsSplit, count-remove, length-remove,
  count-mem, mem-count, count-NoDup, IsSplit-apart,
}
use makedumpfile.Cache.Moves.{
  page_of, SamePages, add_entry-SamePages, remove_entry-SamePages, Disjoint, Disjoint-sym,
  add_entry-IsList_other, remove_entry-IsList_other, move_entry, touch_entry,
}

-- The pool holds the free entries, the one that is taken next last.
abbrev pub IsPool : (ℕ → ℕ) → List ℕ → Type 0
IsPool pool [] = Unit {0}
IsPool pool (x ∷ xs) = (pool (length xs) ≡ x) × IsPool pool xs

-- The state of the cache shows the lists.
pub record Shows (s : CacheState) (a : Lru) : Type 0 where
  pub used : IsList s.entries s.used a.used
  pub pending : IsList s.entries s.pending a.pending
  pub avail : s.avail ≡ length a.free
  pub pool : IsPool s.pool a.free
  pub pages : (i : ℕ) → page_of (s.entries i) ≡ a.pages i
  pub discarded : s.discarded ≡ a.discarded

-- The lists of a split cache have no common entry, and none twice.
pub record Apart (a : Lru) : Type 0 where
  pub used : NoDup a.used
  pub pending : NoDup a.pending
  pub used_pending : Disjoint a.used a.pending
  pub free_used : Disjoint a.free a.used
  pub free_pending : Disjoint a.free a.pending

at_most_one : (b : Bool) → one_if b ≤ 1
at_most_one true = omega arith
at_most_one false = omega arith

pub IsSplit-Apart : (a : Lru) → IsSplit a → Apart a
IsSplit-Apart a split =
    let one : (i : ℕ) → count i a.used + (count i a.pending + count i a.free) ≤ 1 =
      λ i. omega (arith, split.one_place i, at_most_one (ltb i cache_size)) in
    record {
      used = count-NoDup a.used (λ i. omega (arith, one i));
      pending = count-NoDup a.pending (λ i. omega (arith, one i));
      used_pending = λ i m. count-mem i a.pending (omega (arith, one i, mem-count i a.used m));
      free_used = λ i m. count-mem i a.used (omega (arith, one i, mem-count i a.free m));
      free_pending = λ i m. count-mem i a.pending (omega (arith, one i, mem-count i a.free m));
    }

-- A store that leaves the links alone.
pub if_same :
    (b : Bool) (e' e : CacheEntry)
    → e'.prev ≡ e.prev
    → e'.next ≡ e.next
    → ((if b then e' else e).prev ≡ e.prev) × ((if b then e' else e).next ≡ e.next)
if_same true e' e prev next = (prev, next)
if_same false e' e prev next = (refl, refl)

pub page_of-if :
    (b : Bool) (e e' : CacheEntry)
    → page_of (if b then e else e') ≡ (if b then page_of e else page_of e')
page_of-if true e e' = refl
page_of-if false e e' = refl

-- The loop of `cache_search` finds the first entry of the list.
pub search_from-find_page :
    (fuel : ℕ) (s : CacheState) (pages : ℕ → CachedPage) (p : Option ℕ) (xs : List ℕ)
    (paddr len : ℕ)
    → ((i : ℕ) → page_of (s.entries i) ≡ pages i)
    → Linked s.entries p xs none
    → length xs ≤ fuel
    → search_from fuel s (first_or xs none) paddr len ≡ find_page pages paddr len xs
unfolding search_from
search_from-find_page zero s pages p [] paddr len same linked le = refl
search_from-find_page (suc fuel) s pages p [] paddr len same linked le = refl
search_from-find_page zero s pages p (x ∷ xs) paddr len same linked le =
    let no : ⊥ = omega (arith, le) in absurd no
search_from-find_page (suc fuel) s pages p (x ∷ xs) paddr len same (prev, next, linked) le =
    let rest =
      search_from-find_page fuel s pages (some x) xs paddr len same linked (omega (arith, le)) in
    ap
      (λ (c : CachedPage).
        if has_range c.paddr c.buflen paddr len
        then some x
        else search_from fuel s (s.entries x).next paddr len)
      (same x)
    ∙ ap (λ r. if has_range (pages x).paddr (pages x).buflen paddr len then some x else r)
        (ap (λ n. search_from fuel s n paddr len) next ∙ rest)

pub find_page-mem :
    (pages : ℕ → CachedPage) (paddr len : ℕ) (xs : List ℕ) {x : ℕ}
    → find_page pages paddr len xs ≡ some x
    → mem x xs ≡ true
find_page-mem pages paddr len [] e = absurd (none-ne-some _ e)
find_page-mem pages paddr len (y ∷ xs) {x} e =
    let r = find_page pages paddr len xs in
    elim (Bool-cases (has_range (pages y).paddr (pages y).buflen paddr len)) [
      | inl here ↦
          let same : y ≡ x =
            some-injective _ _ (sym (ap (λ b. if b then some y else r) here) ∙ e) in
          ground (arith, same)
      | inr there ↦
          let rest =
            find_page-mem pages paddr len xs {x = x}
              (sym (ap (λ b. if b then some y else r) there) ∙ e) in
          ground (arith, rest)
    ]

-- The end of `cache_alloc`, for an entry that no list has.
pub give-Shows :
    (page_size : ℕ) (s : CacheState) (a : Lru) (paddr x : ℕ)
    → Shows s a
    → NoDup a.pending
    → mem x a.used ≡ false
    → mem x a.pending ≡ false
    → Disjoint a.used a.pending
    → ((give page_size s paddr x).0 ≡ some x)
      × Shows ((give page_size s paddr x).1) ((lru_give page_size a paddr x).1)
unfolding give
give-Shows page_size s a paddr x shows once out out' apart =
    let h : Entries = λ i.
      if i == x
      then record (s.entries i) {
        paddr = paddr;
        bufptr = x * page_size;
        buflen = page_size;
        discard = false;
      }
      else s.entries i in
    let same : (i : ℕ) → SameLinks s.entries h i =
      λ i. if_same (i == x) _ (s.entries i) refl refl in
    let used = IsList-same s.entries h s.used a.used (λ i m. same i) shows.used in
    let pending = IsList-same s.entries h s.pending a.pending (λ i m. same i) shows.pending in
    let page : CachedPage = record {
      paddr = paddr;
      bufptr = x * page_size;
      buflen = page_size;
      discard = false;
    } in
    (
      refl,
      record {
        used = add_entry-IsList_other h s.pending s.used x a.pending a.used out apart pending used;
        pending = add_entry-IsList h s.pending x a.pending out' once pending;
        avail = shows.avail;
        pool = shows.pool;
        pages = λ i.
            add_entry-SamePages h s.pending x i
            ∙ page_of-if (i == x) _ (s.entries i)
            ∙ ap (λ p. if i == x then page else p) (shows.pages i);
        discarded = shows.discarded;
      },
    )
