-- ===== src/Cache/Lists.antt =====
-- The two operations on linked lists, `add_entry` and `remove_entry`, on lists of entries.
use makedumpfile.Prelude.{
  ℕ, ◌≡◌, refl, ap, ◌∙◌, sym, subst, true, false, ◌||◌, Option, none, some, List, [], ◌∷◌, ◌++◌,
  ◌==◌, if◌then◌else◌, arith, Bool-cases, inl, inr,
}
use mathlib.Core.Bool.{false≢true}
use makedumpfile.Cache.{
  CacheEntry, CacheList, Entries, set_next, set_prev, set_next_at, set_prev_at, if_null, add_entry,
  remove_entry,
}
use makedumpfile.Cache.Links.{
  mem, NoDup, first_or, last_or, Linked, Linked-split, Linked-join, Linked-same, SameLinks,
  set_next-SameLinks, set_prev-SameLinks, set_next-next, set_prev-prev, set_prev-next,
  set_next_at-SameLinks, set_prev_at-SameLinks, set_next_at-Linked, set_prev_at-Linked,
  set_next-Linked, set_prev-Linked,
}

pub record IsList (h : Entries) (c : CacheList) (xs : List ℕ) : Type 0 where
  pub head : c.head ≡ first_or xs none
  pub tail : c.tail ≡ last_or none xs
  pub linked : Linked h none xs none

pub IsList-same :
    (h h' : Entries) (c : CacheList) (xs : List ℕ)
    → ((i : ℕ) → mem i xs ≡ true → SameLinks h h' i)
    → IsList h c xs
    → IsList h' c xs
IsList-same h h' c xs same is = record {
  head = is.head;
  tail = is.tail;
  linked = Linked-same h h' none xs none same is.linked;
}

if_null-last_or :
    (p : Option ℕ) (y : ℕ) (xs : List ℕ) (a b : Option ℕ) → if_null (last_or p (y ∷ xs)) a b ≡ b
if_null-last_or p y [] a b = refl
if_null-last_or p y (z ∷ xs) a b = if_null-last_or (some y) z xs a b

last_or-append : (p : Option ℕ) (xs ys : List ℕ) → last_or p (xs ++ ys) ≡ last_or (last_or p xs) ys
last_or-append p [] ys = refl
last_or-append p (x ∷ xs) ys = last_or-append (some x) xs ys

tail_added :
    (x : ℕ) (xs : List ℕ)
    → if_null (last_or none xs) (some x) (last_or none xs) ≡ last_or (some x) xs
tail_added x [] = refl
tail_added x (y ∷ xs) = if_null-last_or none y xs (some x) (last_or none (y ∷ xs))

-- An entry that is not in the list, at its head; nothing else but the list changes.
abbrev added : Entries → CacheList → ℕ → Option ℕ → Entries
added h c x head = set_prev_at head (some x) (set_prev (set_next h x head) x none)

pub add_entry-IsList :
    (h : Entries) (c : CacheList) (x : ℕ) (xs : List ℕ)
    → mem x xs ≡ false
    → NoDup xs
    → IsList h c xs
    → IsList ((add_entry h c x).0) ((add_entry h c x).1) (x ∷ xs)
unfolding add_entry
add_entry-IsList h c x xs out once is =
    let h1 = set_next h x (first_or xs none) in
    let h2 = set_prev h1 x none in
    let same = set_prev_at-SameLinks h2 xs x (some x) out in
    record {
      head = refl;
      tail = ap (λ t. if_null t (some x) t) is.tail ∙ tail_added x xs;
      linked =
          subst (λ p. Linked (added h c x p) none (x ∷ xs) none) (sym is.head)
            (
              same.0 ∙ set_prev-prev h1 x none,
              same.1 ∙ set_prev-next h1 x x none ∙ set_next-next h x (first_or xs none),
              set_prev_at-Linked h2 none xs none (some x) once (
                  set_prev-Linked h1 x none none xs none out
                    (set_next-Linked h x (first_or xs none) none xs none out is.linked)),
            );
    }

pub add_entry-SameLinks :
    (h : Entries) (c : CacheList) (x : ℕ) (xs : List ℕ) (i : ℕ)
    → IsList h c xs
    → mem i (x ∷ xs) ≡ false
    → SameLinks h ((add_entry h c x).0) i
unfolding add_entry
add_entry-SameLinks h c x xs i is out =
    let h1 = set_next h x (first_or xs none) in
    let apart : (i == x) ≡ false = ground (arith, out) in
    let a = set_next-SameLinks h x i (first_or xs none) apart in
    let b = set_prev-SameLinks h1 x i none apart in
    let d = set_prev_at-SameLinks (set_prev h1 x none) xs i (some x) (ground (arith, out)) in
    subst (λ p. SameLinks h (added h c x p) i) (sym is.head) (d.0 ∙ b.0 ∙ a.0, d.1 ∙ b.1 ∙ a.1)

-- Two lists around an entry, all apart.
pub record Around (xs : List ℕ) (x : ℕ) (ys : List ℕ) : Type 0 where
  pub front : NoDup xs
  pub back : NoDup ys
  pub not_front : mem x xs ≡ false
  pub not_back : mem x ys ≡ false
  pub apart : (i : ℕ) → mem i xs ≡ true → mem i ys ≡ false

mem-append : (i : ℕ) (xs ys : List ℕ) → mem i (xs ++ ys) ≡ (mem i xs || mem i ys)
mem-append i [] ys = refl
mem-append i (x ∷ xs) ys = ground (arith, mem-append i xs ys)

pub NoDup-Around : (xs : List ℕ) (x : ℕ) (ys : List ℕ) → NoDup (xs ++ (x ∷ ys)) → Around xs x ys
NoDup-Around [] x ys once = record {
  front = tt;
  back = once.1;
  not_front = refl;
  not_back = once.0;
  apart = λ i m. absurd (false≢true m);
}
NoDup-Around (z ∷ xs) x ys once =
    let rest = NoDup-Around xs x ys once.1 in
    let m = mem-append z xs (x ∷ ys) in
    record {
      front = (ground (arith, once.0, m), rest.front);
      back = rest.back;
      not_front = ground (arith, once.0, m, rest.not_front);
      not_back = rest.not_back;
      apart = λ i inside. elim (Bool-cases (z == i)) [
        | inl same ↦ ground (arith, once.0, m, same)
        | inr other ↦ rest.apart i (ground (arith, inside, other))
      ];
    }

-- The result of `remove_entry`, by the pointers that it reads.
abbrev removed :
    Entries → CacheList → Option ℕ → Option ℕ → Option ℕ → Option ℕ → Entries × CacheList
removed h c next prev prev' next' = (
  set_next_at prev' next' (set_prev_at next prev h),
  record { head = if_null prev' next' c.head; tail = if_null next prev c.tail },
)

remove_entry-removed :
    (h : Entries) (c : CacheList) (x : ℕ) (xs ys : List ℕ)
    → Around xs x ys
    → Linked h none (xs ++ (x ∷ ys)) none
    → let p = last_or none xs in
      let n = first_or ys none in remove_entry h c x ≡ removed h c n p p n
unfolding remove_entry
remove_entry-removed h c x xs ys around linked =
    let p = last_or none xs in
    let n = first_or ys none in
    let at = (Linked-split h none xs (x ∷ ys) none linked).1 in
    let stored : Option ℕ → Option ℕ → CacheEntry = λ next prev. set_prev_at next prev h x in
    let same = set_prev_at-SameLinks h ys x p around.not_back in
    ap
      (λ next.
        removed h c next (h x).prev (stored next (h x).prev).prev (stored next (h x).prev).next)
      at.1
    ∙ ap (λ prev. removed h c n prev (stored n prev).prev (stored n prev).next) at.0
    ∙ ap (λ prev. removed h c n p prev (stored n p).next) (same.0 ∙ at.0)
    ∙ ap (removed h c n p p) (same.1 ∙ at.1)

head_removed :
    (xs ys : List ℕ) (head : Option ℕ) (x : ℕ)
    → head ≡ first_or (xs ++ (x ∷ ys)) none
    → if_null (last_or none xs) (first_or ys none) head ≡ first_or (xs ++ ys) none
head_removed [] ys head x e = refl
head_removed (z ∷ xs) ys head x e = if_null-last_or none z xs (first_or ys none) head ∙ e

tail_removed :
    (xs ys : List ℕ) (tail : Option ℕ) (x : ℕ)
    → tail ≡ last_or none (xs ++ (x ∷ ys))
    → if_null (first_or ys none) (last_or none xs) tail ≡ last_or none (xs ++ ys)
tail_removed xs [] tail x e = sym (last_or-append none xs [])
tail_removed xs (y ∷ ys) tail x e =
    e ∙ last_or-append none xs (x ∷ (y ∷ ys)) ∙ sym (last_or-append none xs (y ∷ ys))

remove_entry-IsList :
    (h : Entries) (c : CacheList) (x : ℕ) (xs ys : List ℕ)
    → Around xs x ys
    → IsList h c (xs ++ (x ∷ ys))
    → IsList ((remove_entry h c x).0) ((remove_entry h c x).1) (xs ++ ys)
remove_entry-IsList h c x xs ys around is =
    let p = last_or none xs in
    let n = first_or ys none in
    let h1 = set_prev_at n p h in
    let h2 = set_next_at p n h1 in
    let (front, (prev, next, back)) = Linked-split h none xs (x ∷ ys) none is.linked in
    let front' =
      Linked-same h h1 none xs (some x) (λ i m. set_prev_at-SameLinks h ys i p (around.apart i m))
        front in
    let back' = set_prev_at-Linked h (some x) ys none p around.back back in
    let outside : (i : ℕ) → mem i ys ≡ true → mem i xs ≡ false = λ i m.
      elim (Bool-cases (mem i xs)) [
        | inl inside ↦ absurd (false≢true (sym (around.apart i inside) ∙ m))
        | inr outside ↦ outside
      ] in
    subst (λ (r : Entries × CacheList). IsList (r.0) (r.1) (xs ++ ys))
      (sym (remove_entry-removed h c x xs ys around is.linked))
      (record {
        head = head_removed xs ys c.head x is.head;
        tail = tail_removed xs ys c.tail x is.tail;
        linked =
            Linked-join h2 none xs ys none
              (set_next_at-Linked h1 none xs (some x) n around.front front')
              (Linked-same h1 h2 p ys none (λ i m. set_next_at-SameLinks h1 xs i n (outside i m))
                back');
      })

remove_entry-SameLinks :
    (h : Entries) (c : CacheList) (x : ℕ) (xs ys : List ℕ) (i : ℕ)
    → Around xs x ys
    → IsList h c (xs ++ (x ∷ ys))
    → mem i (xs ++ (x ∷ ys)) ≡ false
    → SameLinks h ((remove_entry h c x).0) i
remove_entry-SameLinks h c x xs ys i around is out =
    let p = last_or none xs in
    let n = first_or ys none in
    let m = mem-append i xs (x ∷ ys) in
    let a = set_prev_at-SameLinks h ys i p (ground (arith, m, out)) in
    let b = set_next_at-SameLinks (set_prev_at n p h) xs i n (ground (arith, m, out)) in
    subst (λ (r : Entries × CacheList). SameLinks h (r.0) i)
      (sym (remove_entry-removed h c x xs ys around is.linked)) (b.0 ∙ a.0, b.1 ∙ a.1)

-- The list without its first occurrence of an entry.
abbrev pub remove : ℕ → List ℕ → List ℕ
remove x [] = []
remove x (y ∷ ys) = let rest = remove x ys in if y == x then ys else y ∷ rest

remove-split :
    (x : ℕ) (zs : List ℕ)
    → mem x zs ≡ true
    → (xs : List ℕ) × (ys : List ℕ) × (zs ≡ xs ++ (x ∷ ys)) × (remove x zs ≡ xs ++ ys)
remove-split x [] m = absurd (false≢true m)
remove-split x (z ∷ zs) m = elim (Bool-cases (z == x)) [
  | inl same ↦
      ([], zs, ap (λ y. y ∷ zs) {x = z} {y = x} (ground (arith, same)), ground (arith, same))
  | inr other ↦
      let (xs, ys, e, r) = remove-split x zs (ground (arith, m, other)) in
      (
        z ∷ xs,
        ys,
        ap (λ l. z ∷ l) e,
        ap (λ b. if b then zs else z ∷ remove x zs) other ∙ ap (λ l. z ∷ l) r,
      )
]

-- An entry of the list is taken out, wherever it stands; nothing else but the list changes.
pub remove_entry-remove :
    (h : Entries) (c : CacheList) (x : ℕ) (zs : List ℕ)
    → mem x zs ≡ true
    → NoDup zs
    → IsList h c zs
    → IsList ((remove_entry h c x).0) ((remove_entry h c x).1) (remove x zs)
      × ((i : ℕ) → mem i zs ≡ false → SameLinks h ((remove_entry h c x).0) i)
remove_entry-remove h c x zs m once is =
    let (xs, ys, e, r) = remove-split x zs m in
    let around = NoDup-Around xs x ys (subst NoDup e once) in
    let is' = subst (IsList h c) e is in
    (
      subst (IsList ((remove_entry h c x).0) ((remove_entry h c x).1)) (sym r)
          (remove_entry-IsList h c x xs ys around is'),
      λ i out. remove_entry-SameLinks h c x xs ys i around is' (subst (λ l. mem i l ≡ false) e out),
    )
