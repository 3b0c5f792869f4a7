-- ===== src/Cache/Links.antt =====
-- Segments of a list that is linked both ways, and what a store to a link does to them.
use makedumpfile.Prelude.{
  ℕ, ◌≡◌, refl, ap, ◌∙◌, sym, subst, Bool, true, false, ◌||◌, Option, none, some, List, [], ◌∷◌,
  ◌++◌, ◌==◌, if◌then◌else◌, arith, Bool-cases, inl, inr,
}
use mathlib.Core.Bool.{false≢true}
use makedumpfile.Cache.{CacheEntry, Entries, set_next, set_prev, set_next_at, set_prev_at}

abbrev pub mem : ℕ → List ℕ → Bool
mem x [] = false
mem x (y ∷ ys) = y == x || mem x ys

abbrev pub NoDup : List ℕ → Type 0
NoDup [] = Unit {0}
NoDup (x ∷ xs) = (mem x xs ≡ false) × NoDup xs

abbrev pub first_or : List ℕ → Option ℕ → Option ℕ
first_or [] p = p
first_or (x ∷ xs) p = some x

abbrev pub last_or : Option ℕ → List ℕ → Option ℕ
last_or p [] = p
last_or p (x ∷ xs) = last_or (some x) xs

-- The entries `xs` are linked, from one whose predecessor is `p` to one whose successor is `n`.
abbrev pub Linked : Entries → Option ℕ → List ℕ → Option ℕ → Type 0
Linked h p [] n = Unit {0}
Linked h p (x ∷ xs) n = ((h x).prev ≡ p) × ((h x).next ≡ first_or xs n) × Linked h (some x) xs n

pub Linked-split :
    (h : Entries) (p : Option ℕ) (xs ys : List ℕ) (n : Option ℕ)
    → Linked h p (xs ++ ys) n
    → Linked h p xs (first_or ys n) × Linked h (last_or p xs) ys n
Linked-split h p [] ys n linked = (tt, linked)
Linked-split h p (x ∷ []) ys n (prev, next, linked) = ((prev, next, tt), linked)
Linked-split h p (x ∷ (y ∷ xs)) ys n (prev, next, linked) =
    let (front, back) = Linked-split h (some x) (y ∷ xs) ys n linked in ((prev, next, front), back)

pub Linked-join :
    (h : Entries) (p : Option ℕ) (xs ys : List ℕ) (n : Option ℕ)
    → Linked h p xs (first_or ys n)
    → Linked h (last_or p xs) ys n
    → Linked h p (xs ++ ys) n
Linked-join h p [] ys n front back = back
Linked-join h p (x ∷ []) ys n (prev, next, front) back = (prev, next, back)
Linked-join h p (x ∷ (y ∷ xs)) ys n (prev, next, front) back =
    (prev, next, Linked-join h (some x) (y ∷ xs) ys n front back)

-- Two heaps have the same links at an entry.
abbrev pub SameLinks : Entries → Entries → ℕ → Type 0
SameLinks h h' i = ((h' i).prev ≡ (h i).prev) × ((h' i).next ≡ (h i).next)

pub Linked-same :
    (h h' : Entries) (p : Option ℕ) (xs : List ℕ) (n : Option ℕ)
    → ((i : ℕ) → mem i xs ≡ true → SameLinks h h' i)
    → Linked h p xs n
    → Linked h' p xs n
Linked-same h h' p [] n same linked = tt
Linked-same h h' p (x ∷ xs) n same (prev, next, linked) =
    let at = same x (ground arith) in
    (
      at.0 ∙ prev,
      at.1 ∙ next,
      Linked-same h h' (some x) xs n (λ i m. same i (ground (arith, m))) linked,
    )

pub mem-apart : (x i : ℕ) (xs : List ℕ) → mem x xs ≡ false → mem i xs ≡ true → (i == x) ≡ false
mem-apart x i [] out inside = absurd (false≢true inside)
mem-apart x i (y ∷ xs) out inside = elim (Bool-cases (y == i)) [
  | inl same ↦ ground (arith, same, out)
  | inr other ↦ mem-apart x i xs (ground (arith, out)) (ground (arith, inside, other))
]

pub set_next-SameLinks :
    (h : Entries) (x i : ℕ) (v : Option ℕ) → (i == x) ≡ false → SameLinks h (set_next h x v) i
set_next-SameLinks h x i v apart =
    let same = ap (λ b. if b then record (h i) { next = v } else h i) apart in
    (ap (λ (e : CacheEntry). e.prev) same, ap (λ (e : CacheEntry). e.next) same)

pub set_prev-SameLinks :
    (h : Entries) (x i : ℕ) (v : Option ℕ) → (i == x) ≡ false → SameLinks h (set_prev h x v) i
set_prev-SameLinks h x i v apart =
    let same = ap (λ b. if b then record (h i) { prev = v } else h i) apart in
    (ap (λ (e : CacheEntry). e.prev) same, ap (λ (e : CacheEntry). e.next) same)

pub set_next-next : (h : Entries) (x : ℕ) (v : Option ℕ) → (set_next h x v x).next ≡ v
set_next-next h x v =
    ap (λ b. (if b then record (h x) { next = v } else h x).next) {x = x == x} {y = true}
      (ground arith)

pub set_prev-prev : (h : Entries) (x : ℕ) (v : Option ℕ) → (set_prev h x v x).prev ≡ v
set_prev-prev h x v =
    ap (λ b. (if b then record (h x) { prev = v } else h x).prev) {x = x == x} {y = true}
      (ground arith)

pub set_next-prev : (h : Entries) (x i : ℕ) (v : Option ℕ) → (set_next h x v i).prev ≡ (h i).prev
set_next-prev h x i v = elim (Bool-cases (i == x)) [
  | inl same ↦ ap (λ b. (if b then record (h i) { next = v } else h i).prev) same
  | inr apart ↦ ap (λ b. (if b then record (h i) { next = v } else h i).prev) apart
]

pub set_prev-next : (h : Entries) (x i : ℕ) (v : Option ℕ) → (set_prev h x v i).next ≡ (h i).next
set_prev-next h x i v = elim (Bool-cases (i == x)) [
  | inl same ↦ ap (λ b. (if b then record (h i) { prev = v } else h i).next) same
  | inr apart ↦ ap (λ b. (if b then record (h i) { prev = v } else h i).next) apart
]

-- A segment of which no entry is the one that is stored to.
pub set_next-Linked :
    (h : Entries) (x : ℕ) (v p : Option ℕ) (xs : List ℕ) (n : Option ℕ)
    → mem x xs ≡ false
    → Linked h p xs n
    → Linked (set_next h x v) p xs n
set_next-Linked h x v p xs n out =
    Linked-same h (set_next h x v) p xs n
      (λ i m. set_next-SameLinks h x i v (mem-apart x i xs out m))

pub set_prev-Linked :
    (h : Entries) (x : ℕ) (v p : Option ℕ) (xs : List ℕ) (n : Option ℕ)
    → mem x xs ≡ false
    → Linked h p xs n
    → Linked (set_prev h x v) p xs n
set_prev-Linked h x v p xs n out =
    Linked-same h (set_prev h x v) p xs n
      (λ i m. set_prev-SameLinks h x i v (mem-apart x i xs out m))

last_or-mem :
    (p : Option ℕ) (y : ℕ) (xs : List ℕ)
    → (q : ℕ) × (last_or p (y ∷ xs) ≡ some q) × (mem q (y ∷ xs) ≡ true)
last_or-mem p y [] = (y, refl, ground arith)
last_or-mem p y (z ∷ xs) =
    let (q, e, inside) = last_or-mem (some y) z xs in (q, e, ground (arith, inside))

-- What a store to the last, or to the first entry of a segment leaves alone.
pub set_next_at-SameLinks :
    (h : Entries) (xs : List ℕ) (i : ℕ) (v : Option ℕ)
    → mem i xs ≡ false
    → SameLinks h (set_next_at (last_or none xs) v h) i
set_next_at-SameLinks h [] i v out = (refl, refl)
set_next_at-SameLinks h (y ∷ xs) i v out =
    let (q, e, inside) = last_or-mem none y xs in
    subst (λ o. SameLinks h (set_next_at o v h) i) (sym e)
      (set_next-SameLinks h q i v (ground (arith, mem-apart i q (y ∷ xs) out inside)))

pub set_prev_at-SameLinks :
    (h : Entries) (xs : List ℕ) (i : ℕ) (v : Option ℕ)
    → mem i xs ≡ false
    → SameLinks h (set_prev_at (first_or xs none) v h) i
set_prev_at-SameLinks h [] i v out = (refl, refl)
set_prev_at-SameLinks h (y ∷ xs) i v out = set_prev-SameLinks h y i v (ground (arith, out))

-- The successor of the last entry, and the predecessor of the first one, are replaced.
pub set_next_at-Linked :
    (h : Entries) (p : Option ℕ) (xs : List ℕ) (n v : Option ℕ)
    → NoDup xs
    → Linked h p xs n
    → Linked (set_next_at (last_or none xs) v h) p xs v
set_next_at-Linked h p [] n v once linked = tt
set_next_at-Linked h p (x ∷ []) n v once (prev, next, linked) =
    (set_next-prev h x x v ∙ prev, set_next-next h x v, tt)
set_next_at-Linked h p (x ∷ (y ∷ xs)) n v once (prev, next, linked) =
    let at = set_next_at-SameLinks h (y ∷ xs) x v once.0 in
    (at.0 ∙ prev, at.1 ∙ next, set_next_at-Linked h (some x) (y ∷ xs) n v once.1 linked)

pub set_prev_at-Linked :
    (h : Entries) (p : Option ℕ) (xs : List ℕ) (n v : Option ℕ)
    → NoDup xs
    → Linked h p xs n
    → Linked (set_prev_at (first_or xs none) v h) v xs n
set_prev_at-Linked h p [] n v once linked = tt
set_prev_at-Linked h p (x ∷ xs) n v once (prev, next, linked) = (
  set_prev-prev h x v,
  set_prev-next h x x v ∙ next,
  set_prev-Linked h x v (some x) xs n once.0 linked,
)
