-- ===== src/Cache/Refine/Steps.antt =====
-- Each operation of the page cache, on a state that shows a cache split in its lists.
use makedumpfile.Prelude.{
  ℕ, suc, ◌+◌, ◌-◌, ◌≤◌, ◌≡◌, refl, ap, ◌∙◌, sym, subst, true, false, not, Option, none, some, List,
  [], ◌∷◌, length, ◌==◌, if◌then◌else◌, arith, Bool-cases, inl, inr,
}
use mathlib.Core.Bool.{false≢true}
use mathlib.Core.Option.{none-ne-some, some-injective}
use makedumpfile.Cache.{
  CacheState, Entries, add_entry, remove_entry, touch, search_from, cache_search, give, evict,
  cache_alloc, cache_add, cache_free, fill, cache_size, offset_in, is_entry,
}
use makedumpfile.Cache.Links.{mem, SameLinks, first_or, last_or}
use makedumpfile.Cache.Lists.{IsList-same, remove, remove_entry-remove}
use makedumpfile.Cache.Spec.{
  CachedPage, Lru, find_page, found_page, lru_search, lru_give, lru_evict, lru_alloc_used,
  lru_alloc, lru_alloc_from, lru_add, lru_free, lru_fill, IsSplit,
}
use makedumpfile.Cache.Moves.{
  add_entry-SamePages, remove_entry-SamePages, Disjoint-sym, remove_entry-IsList_other,
  mem-remove_same, move_entry, touch_entry, remove-Disjoint,
}
use makedumpfile.Cache.Refine.{
  IsPool, Shows, IsSplit-Apart, page_of-if, if_same, search_from-find_page, find_page-mem,
  give-Shows,
}

IsPool-set :
    (pool : ℕ → ℕ) (n x : ℕ) (xs : List ℕ)
    → length xs ≤ n
    → IsPool pool xs
    → IsPool (λ i. if i == n then x else pool i) xs
IsPool-set pool n x [] le is = tt
IsPool-set pool n x (y ∷ xs) le (at, is) =
    (ground (arith, le, at), IsPool-set pool n x xs (omega (arith, le)) is)

IsPool-top : (pool : ℕ → ℕ) (n x len : ℕ) → n ≡ len → (if len == n then x else pool len) ≡ x
IsPool-top pool n x len e = ground (arith, e)

pub cache_free-Shows :
    (s : CacheState) (a : Lru) (x : ℕ)
    → IsSplit a
    → mem x a.pending ≡ true
    → Shows s a
    → Shows (cache_free s x) (lru_free a x)
unfolding cache_free
cache_free-Shows s a x split m shows =
    let apart = IsSplit-Apart a split in
    record {
      used =
          remove_entry-IsList_other s.entries s.pending s.used x a.pending a.used m apart.pending
            apart.used_pending shows.pending shows.used;
      pending =
          (remove_entry-remove s.entries s.pending x a.pending m apart.pending shows.pending).0;
      avail = omega (arith, shows.avail);
      pool = (
        IsPool-top s.pool s.avail x (length a.free) shows.avail,
        IsPool-set s.pool s.avail x a.free (omega (arith, shows.avail)) shows.pool,
      );
      pages = λ i. remove_entry-SamePages s.entries s.pending x i ∙ shows.pages i;
      discarded = shows.discarded;
    }

pub cache_add-Shows :
    (s : CacheState) (a : Lru) (x : ℕ)
    → IsSplit a
    → mem x a.pending ≡ true
    → Shows s a
    → Shows (cache_add s x) (lru_add a x)
unfolding cache_add
cache_add-Shows s a x split m shows =
    let apart = IsSplit-Apart a split in
    let r = remove_entry s.entries s.pending x in
    let moved =
      move_entry s.entries s.pending s.used x a.pending a.used m apart.pending apart.used
        (Disjoint-sym a.used a.pending apart.used_pending) shows.pending shows.used in
    record {
      used = moved.1;
      pending = moved.0;
      avail = shows.avail;
      pool = shows.pool;
      pages = λ i.
          add_entry-SamePages (r.0) s.used x i
          ∙ remove_entry-SamePages s.entries s.pending x i
          ∙ shows.pages i;
      discarded = shows.discarded;
    }

pub fill-Shows :
    (s : CacheState) (a : Lru) (x paddr bufptr buflen : ℕ)
    → Shows s a
    → Shows (fill s x paddr bufptr buflen) (lru_fill a x paddr bufptr buflen)
unfolding fill
fill-Shows s a x paddr bufptr buflen shows =
    let h : Entries = λ i.
      if i == x
      then record (s.entries i) { paddr = paddr; bufptr = bufptr; buflen = buflen; discard = true }
      else s.entries i in
    let same : (i : ℕ) → SameLinks s.entries h i =
      λ i. if_same (i == x) _ (s.entries i) refl refl in
    let page : CachedPage = record {
      paddr = paddr;
      bufptr = bufptr;
      buflen = buflen;
      discard = true;
    } in
    record {
      used = IsList-same s.entries h s.used a.used (λ i m. same i) shows.used;
      pending = IsList-same s.entries h s.pending a.pending (λ i m. same i) shows.pending;
      avail = shows.avail;
      pool = shows.pool;
      pages = λ i.
          page_of-if (i == x) _ (s.entries i)
          ∙ ap (λ p. if i == x then page else p) (shows.pages i);
      discarded = shows.discarded;
    }

evict-Shows :
    (s : CacheState) (a : Lru) (x : ℕ)
    → IsSplit a
    → mem x a.used ≡ true
    → Shows s a
    → Shows (evict s x) (lru_evict a x)
unfolding evict
evict-Shows s a x split m shows =
    let apart = IsSplit-Apart a split in
    let r = remove_entry s.entries s.used x in
    let page = remove_entry-SamePages s.entries s.used x x ∙ shows.pages x in
    record {
      used = (remove_entry-remove s.entries s.used x a.used m apart.used shows.used).0;
      pending =
          remove_entry-IsList_other s.entries s.used s.pending x a.used a.pending m apart.used
            (Disjoint-sym a.used a.pending apart.used_pending) shows.used shows.pending;
      avail = shows.avail;
      pool = shows.pool;
      pages = λ i. remove_entry-SamePages s.entries s.used x i ∙ shows.pages i;
      discarded =
          ap (λ (c : CachedPage). if c.discard then x ∷ s.discarded else s.discarded) page
          ∙ ap (λ l. if (a.pages x).discard then x ∷ l else l) shows.discarded;
    }

remove-first : (x : ℕ) (xs : List ℕ) → is_entry (first_or xs none) x ≡ true → x ∷ remove x xs ≡ xs
remove-first x [] e = absurd (false≢true e)
remove-first x (y ∷ xs) e =
    let same : x ≡ y = ground (arith, e) in
    ap (λ b. x ∷ (if b then xs else y ∷ remove x xs)) e ∙ ap (λ z. z ∷ xs) same

-- The entry that is found goes to the head of the used ones.
touch-Shows :
    (s : CacheState) (a : Lru) (x : ℕ)
    → IsSplit a
    → mem x a.used ≡ true
    → Shows s a
    → Shows (touch s x) (record a { used = x ∷ remove x a.used })
unfolding touch
touch-Shows s a x split m shows =
    let apart = IsSplit-Apart a split in
    let r = remove_entry s.entries s.used x in
    let q = add_entry (r.0) (r.1) x in
    let s' : CacheState = record s { entries = q.0; used = q.1 } in
    let moved =
      touch_entry s.entries s.used s.pending x a.used a.pending m apart.used apart.used_pending
        shows.used shows.pending in
    let later : Shows s' (record a { used = x ∷ remove x a.used }) = record {
      used = moved.0;
      pending = moved.1;
      avail = shows.avail;
      pool = shows.pool;
      pages = λ i.
          add_entry-SamePages (r.0) (r.1) x i
          ∙ remove_entry-SamePages s.entries s.used x i
          ∙ shows.pages i;
      discarded = shows.discarded;
    } in
    elim (Bool-cases (is_entry s.used.head x)) [
      | inl first ↦
          let e = remove-first x a.used (ap (λ p. is_entry p x) (sym shows.used.head) ∙ first) in
          subst (λ t. Shows t (record a { used = x ∷ remove x a.used }))
            (sym (ap (λ b. if b then s else s') first))
            (subst (λ l. Shows s (record a { used = l })) (sym e) shows)
      | inr other ↦
          subst (λ t. Shows t (record a { used = x ∷ remove x a.used }))
            (sym (ap (λ b. if b then s else s') other)) later
    ]

found-Shows :
    (s : CacheState) (a : Lru) (paddr len : ℕ) (r : Option ℕ)
    → IsSplit a
    → Shows s a
    → find_page a.pages paddr len a.used ≡ r
    → let found : Option ℕ × CacheState = elim r [
      | none ↦ (none, s)
      | some entry ↦
          (some ((s.entries entry).bufptr + offset_in (s.entries entry).paddr paddr), touch s entry)
    ] in
      (found.0 ≡ (found_page a paddr r).0) × Shows (found.1) ((found_page a paddr r).1)
found-Shows s a paddr len none split shows e = (refl, shows)
found-Shows s a paddr len (some x) split shows e = (
  ap (λ (c : CachedPage). some (c.bufptr + offset_in c.paddr paddr)) (shows.pages x),
  touch-Shows s a x split (find_page-mem a.pages paddr len a.used e) shows,
)

pub cache_search-Shows :
    (s : CacheState) (a : Lru) (paddr len : ℕ)
    → IsSplit a
    → Shows s a
    → ((cache_search s paddr len).0 ≡ (lru_search a paddr len).0)
      × Shows ((cache_search s paddr len).1) ((lru_search a paddr len).1)
unfolding cache_search
cache_search-Shows s a paddr len split shows =
    let found : Option ℕ → Option ℕ × CacheState = λ r. elim r [
      | none ↦ (none, s)
      | some entry ↦
          (some ((s.entries entry).bufptr + offset_in (s.entries entry).paddr paddr), touch s entry)
    ] in
    let list =
      search_from-find_page cache_size s a.pages none a.used paddr len shows.pages shows.used.linked
        (omega (arith, split.total)) in
    let same : search_from cache_size s s.used.head paddr len ≡ find_page a.pages paddr len a.used =
      ap (λ p. search_from cache_size s p paddr len) shows.used.head ∙ list in
    let go : (r : Option ℕ)
        → find_page a.pages paddr len a.used ≡ r
        → ((found r).0 ≡ (found_page a paddr r).0)
          × Shows ((found r).1) ((found_page a paddr r).1) =
      λ r e. found-Shows s a paddr len r split shows e in
    subst
      (λ r.
        ((found r).0 ≡ (lru_search a paddr len).0)
        × Shows ((found r).1) ((lru_search a paddr len).1))
      (sym same) (go (find_page a.pages paddr len a.used) refl)

-- The same result, and a state that shows the lists.
abbrev pub Agrees : Option ℕ × CacheState → Option ℕ × Lru → Type 0
Agrees r q = (r.0 ≡ q.0) × Shows (r.1) (q.1)

last_or-mem :
    (p : Option ℕ) (y : ℕ) (xs : List ℕ) {x : ℕ}
    → last_or p (y ∷ xs) ≡ some x
    → mem x (y ∷ xs) ≡ true
last_or-mem p y [] {x} e = let same : y ≡ x = some-injective _ _ e in ground (arith, same)
last_or-mem p y (z ∷ xs) {x} e =
    let rest = last_or-mem (some y) z xs {x = x} e in ground (arith, rest)

pub last_is_used : (xs : List ℕ) {x : ℕ} → some x ≡ last_or none xs → mem x xs ≡ true
last_is_used [] e = absurd (none-ne-some _ (sym e))
last_is_used (y ∷ xs) e = last_or-mem none y xs (sym e)

module _ (page_size : ℕ) (s : CacheState) (a : Lru) (paddr : ℕ) (split : IsSplit a)
    (shows : Shows s a) where
  alloc_used : (t : Option ℕ) → Option ℕ × CacheState
  alloc_used t = elim t [
    | none ↦ (none, s)
    | some entry ↦ give page_size (evict s entry) paddr entry
  ]

  alloc_used-Agrees :
      (t : Option ℕ)
      → t ≡ last_or none a.used
      → Agrees (alloc_used t) (lru_alloc_used page_size a paddr t)
  unfolding alloc_used
  alloc_used-Agrees none e = (refl, shows)
  alloc_used-Agrees (some x) e =
      let apart = IsSplit-Apart a split in
      let m = last_is_used a.used e in
      give-Shows page_size (evict s x) (lru_evict a x) paddr x (evict-Shows s a x split m shows)
        apart.pending (mem-remove_same x a.used apart.used) (apart.used_pending x m)
        (remove-Disjoint x a.used a.pending apart.used_pending)

  alloc_free : Option ℕ × CacheState
  alloc_free = give page_size (record s { avail = s.avail - 1 }) paddr (s.pool (s.avail - 1))

  alloc_free-Agrees :
      (x : ℕ) (free : List ℕ)
      → a.free ≡ x ∷ free
      → Agrees alloc_free (lru_give page_size (record a { free = free }) paddr x)
  unfolding alloc_free
  alloc_free-Agrees x free e =
      let apart = IsSplit-Apart a split in
      let is = subst (IsPool s.pool) e shows.pool in
      let len : length a.free ≡ suc (length free) = ap length e in
      let last : s.avail - 1 ≡ length free = omega (arith, shows.avail, len) in
      let m : mem x a.free ≡ true = ap (mem x) e ∙ ground arith in
      let taken : s.pool (s.avail - 1) ≡ x = ap s.pool last ∙ is.0 in
      subst
        (λ y.
          Agrees (give page_size (record s { avail = s.avail - 1 }) paddr y)
            (lru_give page_size (record a { free = free }) paddr x))
        (sym taken)
        (give-Shows page_size (record s { avail = s.avail - 1 }) (record a { free = free }) paddr x
          (record {
            used = shows.used;
            pending = shows.pending;
            avail = last;
            pool = is.1;
            pages = shows.pages;
            discarded = shows.discarded;
          })
          apart.pending (apart.free_used x m) (apart.free_pending x m) apart.used_pending)

  alloc_from-Agrees :
      (free : List ℕ)
      → a.free ≡ free
      → Agrees
          (if not (s.avail == 0) then alloc_free else alloc_used s.used.tail)
          (lru_alloc_from page_size a paddr free)
  alloc_from-Agrees [] e =
      let none_left : s.avail ≡ 0 = shows.avail ∙ ap length e in
      let step : (s.avail == 0) ≡ true = ground (arith, none_left) in
      subst (λ r. Agrees r (lru_alloc_from page_size a paddr []))
        (sym (ap (λ b. if not b then alloc_free else alloc_used s.used.tail) step))
        (subst (λ t. Agrees (alloc_used s.used.tail) (lru_alloc_used page_size a paddr t))
          shows.used.tail (alloc_used-Agrees s.used.tail shows.used.tail))
  alloc_from-Agrees (x ∷ free) e =
      let left : s.avail ≡ suc (length free) = shows.avail ∙ ap length e in
      let step : (s.avail == 0) ≡ false = ground (arith, left) in
      subst (λ r. Agrees r (lru_alloc_from page_size a paddr (x ∷ free)))
        (sym (ap (λ b. if not b then alloc_free else alloc_used s.used.tail) step))
        (alloc_free-Agrees x free e)

  pub cache_alloc-Agrees : Agrees (cache_alloc page_size s paddr) (lru_alloc page_size a paddr)
  unfolding cache_alloc alloc_free alloc_used
  cache_alloc-Agrees = alloc_from-Agrees a.free refl
