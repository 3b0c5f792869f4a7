-- ===== src/Cache/Moves.antt =====
-- An entry that goes from one list of the page cache to another, or to the head of its own.
use makedumpfile.Prelude.{
  ℕ, ◌≡◌, refl, ap, ◌∙◌, sym, subst, true, false, Option, none, some, List, [], ◌∷◌, ◌==◌,
  if◌then◌else◌, arith, Bool-cases, inl, inr,
}
use mathlib.Core.Bool.{false≢true}
use makedumpfile.Cache.{
  CacheEntry, CacheList, Entries, set_next, set_prev, set_next_at, set_prev_at, add_entry,
  remove_entry,
}
use makedumpfile.Cache.Links.{mem, NoDup, mem-apart}
use makedumpfile.Cache.Lists.{
  IsList, IsList-same, add_entry-IsList, add_entry-SameLinks, remove, remove_entry-remove,
}
use makedumpfile.Cache.Spec.{CachedPage}

abbrev pub page_of : CacheEntry → CachedPage
page_of e = record { paddr = e.paddr; bufptr = e.bufptr; buflen = e.buflen; discard = e.discard }

-- Two heaps have the same pages.
abbrev pub SamePages : Entries → Entries → Type 0
SamePages h h' = (i : ℕ) → page_of (h' i) ≡ page_of (h i)

set_next_at-SamePages : (h : Entries) (p v : Option ℕ) → SamePages h (set_next_at p v h)
set_next_at-SamePages h none v i = refl
set_next_at-SamePages h (some x) v i = elim (Bool-cases (i == x)) [
  | inl same ↦ ap (λ b. page_of (if b then record (h i) { next = v } else h i)) same
  | inr apart ↦ ap (λ b. page_of (if b then record (h i) { next = v } else h i)) apart
]

set_prev_at-SamePages : (h : Entries) (p v : Option ℕ) → SamePages h (set_prev_at p v h)
set_prev_at-SamePages h none v i = refl
set_prev_at-SamePages h (some x) v i = elim (Bool-cases (i == x)) [
  | inl same ↦ ap (λ b. page_of (if b then record (h i) { prev = v } else h i)) same
  | inr apart ↦ ap (λ b. page_of (if b then record (h i) { prev = v } else h i)) apart
]

pub add_entry-SamePages : (h : Entries) (c : CacheList) (x : ℕ) → SamePages h ((add_entry h c x).0)
unfolding add_entry
add_entry-SamePages h c x i =
    let h1 = set_next h x c.head in
    set_prev_at-SamePages (set_prev h1 x none) c.head (some x) i
    ∙ set_prev_at-SamePages h1 (some x) none i
    ∙ set_next_at-SamePages h (some x) c.head i

pub remove_entry-SamePages :
    (h : Entries) (c : CacheList) (x : ℕ) → SamePages h ((remove_entry h c x).0)
unfolding remove_entry
remove_entry-SamePages h c x i =
    let h1 = set_prev_at (h x).next ((h x).prev) h in
    set_next_at-SamePages h1 (h1 x).prev ((h1 x).next) i
    ∙ set_prev_at-SamePages h (h x).next ((h x).prev) i

-- Lists without a common entry.
abbrev pub Disjoint : List ℕ → List ℕ → Type 0
Disjoint xs ys = (i : ℕ) → mem i xs ≡ true → mem i ys ≡ false

pub Disjoint-sym : (xs ys : List ℕ) → Disjoint xs ys → Disjoint ys xs
Disjoint-sym xs ys apart i inside = elim (Bool-cases (mem i xs)) [
  | inl other ↦ absurd (false≢true (sym (apart i other) ∙ inside))
  | inr out ↦ out
]

mem-remove : (x i : ℕ) (xs : List ℕ) → mem i xs ≡ false → mem i (remove x xs) ≡ false
mem-remove x i [] out = refl
mem-remove x i (y ∷ xs) out = elim (Bool-cases (y == x)) [
  | inl same ↦ ground (arith, out, same)
  | inr other ↦ ground (arith, other, out, mem-remove x i xs (ground (arith, out)))
]

pub remove-Disjoint : (x : ℕ) (xs ys : List ℕ) → Disjoint xs ys → Disjoint (remove x xs) ys
remove-Disjoint x xs ys apart =
    Disjoint-sym ys (remove x xs)
      (λ i inside. mem-remove x i xs (Disjoint-sym xs ys apart i inside))

pub mem-remove_same : (x : ℕ) (xs : List ℕ) → NoDup xs → mem x (remove x xs) ≡ false
mem-remove_same x [] once = refl
mem-remove_same x (y ∷ xs) once = elim (Bool-cases (y == x)) [
  | inl same ↦ ground (arith, same, once.0)
  | inr other ↦ ground (arith, other, mem-remove_same x xs once.1)
]

pub remove-NoDup : (x : ℕ) (xs : List ℕ) → NoDup xs → NoDup (remove x xs)
remove-NoDup x [] once = tt
remove-NoDup x (y ∷ xs) once = elim (Bool-cases (y == x)) [
  | inl same ↦ subst NoDup (sym (ap (λ b. if b then xs else y ∷ remove x xs) same)) once.1
  | inr other ↦
      subst NoDup (sym (ap (λ b. if b then xs else y ∷ remove x xs) other))
        (mem-remove x y xs once.0, remove-NoDup x xs once.1)
]

-- An entry that no list has goes to the head of one.
pub add_entry-IsList_other :
    (h : Entries) (c d : CacheList) (x : ℕ) (xs ys : List ℕ)
    → mem x ys ≡ false
    → Disjoint ys xs
    → IsList h c xs
    → IsList h d ys
    → IsList ((add_entry h c x).0) d ys
add_entry-IsList_other h c d x xs ys out apart is is_other =
    IsList-same h ((add_entry h c x).0) d ys
      (λ i m. add_entry-SameLinks h c x xs i is (ground (arith, apart i m, mem-apart x i ys out m)))
      is_other

-- An entry is taken out of one list; another list stays.
pub remove_entry-IsList_other :
    (h : Entries) (c d : CacheList) (x : ℕ) (xs ys : List ℕ)
    → mem x xs ≡ true
    → NoDup xs
    → Disjoint ys xs
    → IsList h c xs
    → IsList h d ys
    → IsList ((remove_entry h c x).0) d ys
remove_entry-IsList_other h c d x xs ys m once apart is is_other =
    IsList-same h ((remove_entry h c x).0) d ys
      (λ i inside. (remove_entry-remove h c x xs m once is).1 i (apart i inside)) is_other

-- From one list to the head of another.
pub move_entry :
    (h : Entries) (c d : CacheList) (x : ℕ) (xs ys : List ℕ)
    → mem x xs ≡ true
    → NoDup xs
    → NoDup ys
    → Disjoint xs ys
    → IsList h c xs
    → IsList h d ys
    → let r = remove_entry h c x in
      let q = add_entry (r.0) d x in IsList (q.0) (r.1) (remove x xs) × IsList (q.0) (q.1) (x ∷ ys)
move_entry h c d x xs ys m once once' apart is is_other =
    let r = remove_entry h c x in
    let there =
      remove_entry-IsList_other h c d x xs ys m once (Disjoint-sym xs ys apart) is is_other in
    let here = (remove_entry-remove h c x xs m once is).0 in
    (
      add_entry-IsList_other (r.0) d (r.1) x ys (remove x xs) (mem-remove_same x xs once)
          (remove-Disjoint x xs ys apart) there here,
      add_entry-IsList (r.0) d x ys (apart x m) once' there,
    )

-- To the head of its own list; another list stays.
pub touch_entry :
    (h : Entries) (c d : CacheList) (x : ℕ) (xs ys : List ℕ)
    → mem x xs ≡ true
    → NoDup xs
    → Disjoint xs ys
    → IsList h c xs
    → IsList h d ys
    → let r = remove_entry h c x in
      let q = add_entry (r.0) (r.1) x in IsList (q.0) (q.1) (x ∷ remove x xs) × IsList (q.0) d ys
touch_entry h c d x xs ys m once apart is is_other =
    let r = remove_entry h c x in
    let there =
      remove_entry-IsList_other h c d x xs ys m once (Disjoint-sym xs ys apart) is is_other in
    let here = (remove_entry-remove h c x xs m once is).0 in
    (
      add_entry-IsList (r.0) (r.1) x (remove x xs) (mem-remove_same x xs once)
          (remove-NoDup x xs once) here,
      add_entry-IsList_other (r.0) (r.1) d x (remove x xs) ys (apart x m)
          (Disjoint-sym (remove x xs) ys (remove-Disjoint x xs ys apart)) here there,
    )
