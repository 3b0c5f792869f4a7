-- ===== src/Cache/Spec.antt =====
-- The page cache as lists of entries: those in use from the one used last on, those that are pending,
-- and the free ones.
use makedumpfile.Prelude.{
  ℕ, suc, ◌+◌, ◌*◌, ◌≤◌, ◌≡◌, refl, Bool, true, false, Option, none, some, List, [], ◌∷◌, length,
  ltb, ◌==◌, if◌then◌else◌, arith, Bool-cases, inl, inr,
}
use mathlib.Core.Bool.{false≢true}
use makedumpfile.Cache.{cache_size, offset_in, has_range}
use makedumpfile.Cache.Links.{mem, NoDup, last_or}
use makedumpfile.Cache.Lists.{remove}

pub record CachedPage : Type 0 where
  pub paddr : ℕ
  pub bufptr : ℕ
  pub buflen : ℕ
  pub discard : Bool

pub record Lru : Type 0 where
  pub used : List ℕ
  pub pending : List ℕ
  pub free : List ℕ
  pub pages : ℕ → CachedPage
  pub discarded : List ℕ

abbrev pub fresh : Lru
fresh = record {
  used = [];
  pending = [];
  free = 7 ∷ 6 ∷ 5 ∷ 4 ∷ 3 ∷ 2 ∷ 1 ∷ 0 ∷ [];
  pages = λ i. record { paddr = 0; bufptr = 0; buflen = 0; discard = false };
  discarded = [];
}

-- The first entry of a list with the bytes from an address on.
abbrev pub find_page : (ℕ → CachedPage) → ℕ → ℕ → List ℕ → Option ℕ
find_page pages paddr length [] = none
find_page pages paddr length (x ∷ xs) =
    let rest = find_page pages paddr length xs in
    if has_range (pages x).paddr (pages x).buflen paddr length then some x else rest

abbrev pub found_page : Lru → ℕ → Option ℕ → Option ℕ × Lru
found_page a paddr none = (none, a)
found_page a paddr (some x) = (
  some ((a.pages x).bufptr + offset_in (a.pages x).paddr paddr),
  record a { used = x ∷ remove x a.used },
)

abbrev pub lru_search : Lru → ℕ → ℕ → Option ℕ × Lru
lru_search a paddr length = found_page a paddr (find_page a.pages paddr length a.used)

abbrev pub set_page : Lru → ℕ → CachedPage → ℕ → CachedPage
set_page a x page = λ i. if i == x then page else a.pages i

abbrev pub lru_give : ℕ → Lru → ℕ → ℕ → Option ℕ × Lru
lru_give page_size a paddr x = (
  some x,
  record a {
    pending = x ∷ a.pending;
    pages =
        set_page a x
          (record { paddr = paddr; bufptr = x * page_size; buflen = page_size; discard = false });
  },
)

abbrev pub lru_evict : Lru → ℕ → Lru
lru_evict a x = record a {
  used = remove x a.used;
  discarded = if (a.pages x).discard then x ∷ a.discarded else a.discarded;
}

-- A free entry, or the one in use that was used the longest time ago.
abbrev pub lru_alloc_used : ℕ → Lru → ℕ → Option ℕ → Option ℕ × Lru
lru_alloc_used page_size a paddr none = (none, a)
lru_alloc_used page_size a paddr (some x) = lru_give page_size (lru_evict a x) paddr x

abbrev pub lru_alloc_from : ℕ → Lru → ℕ → List ℕ → Option ℕ × Lru
lru_alloc_from page_size a paddr [] = lru_alloc_used page_size a paddr (last_or none a.used)
lru_alloc_from page_size a paddr (x ∷ free) = lru_give page_size (record a { free = free }) paddr x

abbrev pub lru_alloc : ℕ → Lru → ℕ → Option ℕ × Lru
lru_alloc page_size a paddr = lru_alloc_from page_size a paddr a.free

abbrev pub lru_add : Lru → ℕ → Lru
lru_add a x = record a { pending = remove x a.pending; used = x ∷ a.used }

abbrev pub lru_free : Lru → ℕ → Lru
lru_free a x = record a { pending = remove x a.pending; free = x ∷ a.free }

abbrev pub lru_fill : Lru → ℕ → ℕ → ℕ → ℕ → Lru
lru_fill a x paddr bufptr buflen = record a {
  pages = set_page a x (record { paddr = paddr; bufptr = bufptr; buflen = buflen; discard = true });
}

abbrev pub one_if : Bool → ℕ
one_if true = 1
one_if false = 0

abbrev pub count : ℕ → List ℕ → ℕ
count i [] = 0
count i (x ∷ xs) = one_if (x == i) + count i xs

-- Each of the entries stands in exactly one of the three lists, once.
pub record IsSplit (a : Lru) : Type 0 where
  pub one_place :
      (i : ℕ) → count i a.used + (count i a.pending + count i a.free) ≡ one_if (ltb i cache_size)
  pub total : length a.used + (length a.pending + length a.free) ≡ cache_size

pub count-remove :
    (x : ℕ) (zs : List ℕ) (i : ℕ)
    → mem x zs ≡ true
    → count i zs ≡ one_if (x == i) + count i (remove x zs)
count-remove x [] i m = absurd (false≢true m)
count-remove x (z ∷ zs) i m = elim (Bool-cases (z == x)) [
  | inl same ↦ ground (arith, same)
  | inr other ↦ ground (arith, other, count-remove x zs i (ground (arith, m, other)))
]

pub length-remove : (x : ℕ) (zs : List ℕ) → mem x zs ≡ true → length zs ≡ suc (length (remove x zs))
length-remove x [] m = absurd (false≢true m)
length-remove x (z ∷ zs) m = elim (Bool-cases (z == x)) [
  | inl same ↦ ground (arith, same)
  | inr other ↦ ground (arith, other, length-remove x zs (ground (arith, m, other)))
]

pub count-mem : (i : ℕ) (xs : List ℕ) → count i xs ≡ 0 → mem i xs ≡ false
count-mem i [] e = refl
count-mem i (x ∷ xs) e = elim (Bool-cases (x == i)) [
  | inl same ↦ (let no : ⊥ = ground (arith, same, e) in absurd no)
  | inr other ↦ ground (arith, other, count-mem i xs (ground (arith, e, other)))
]

pub mem-count : (i : ℕ) (xs : List ℕ) → mem i xs ≡ true → 1 ≤ count i xs
mem-count i [] m = absurd (false≢true m)
mem-count i (x ∷ xs) m = elim (Bool-cases (x == i)) [
  | inl same ↦ ground (arith, same)
  | inr other ↦ ground (arith, other, mem-count i xs (ground (arith, m, other)))
]

pub count-NoDup : (xs : List ℕ) → ((i : ℕ) → count i xs ≤ 1) → NoDup xs
count-NoDup [] once = tt
count-NoDup (x ∷ xs) once =
    (count-mem x xs (ground (arith, once x)), count-NoDup xs (λ i. omega (arith, once i)))

-- An entry of a list stands in no other one.
pub IsSplit-apart :
    (p q i : ℕ) (xs ys : List ℕ) (n : Bool)
    → count i xs + (count i ys + p) + q ≡ one_if n
    → mem i xs ≡ true
    → mem i ys ≡ false
IsSplit-apart p q i xs ys n one m = count-mem i ys (ground (arith, one, mem-count i xs m))
