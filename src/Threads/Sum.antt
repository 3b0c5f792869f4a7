-- ===== src/Threads/Sum.antt =====
-- Sums over the threads, and updates of a function at one of them.
use makedumpfile.Prelude.{
  ℕ, zero, suc, ◌+◌, ◌≤◌, ◌<◌, ◌≡◌, ◌⊎◌, refl, ap, true, ltb, ◌==◌, if◌then◌else◌, arith,
  Bool-cases, inl, inr,
}
use makedumpfile.Threads.{set_at}

abbrev pub sum : ℕ → (ℕ → ℕ) → ℕ
sum zero f = 0
sum (suc n) f = sum n f + f n

pub sum_same : (n : ℕ) (f g : ℕ → ℕ) → ((j : ℕ) → j < n → g j ≡ f j) → sum n g ≡ sum n f
sum_same zero f g same = refl
sum_same (suc n) f g same =
    omega (arith, sum_same n f g (λ j h. same j (omega (arith, h))), same n (omega arith))

-- A change at one place.
pub sum_change :
    (n i : ℕ) (f g : ℕ → ℕ)
    → i < n
    → ((j : ℕ) → (j ≡ i) ⊎ (g j ≡ f j))
    → sum n g + f i ≡ sum n f + g i
sum_change zero i f g h view = let no : ⊥ = omega (arith, h) in absurd no
sum_change (suc n) i f g h view = elim (Bool-cases (ltb i n)) [
  | inl below ↦
      let rest = sum_change n i f g (ground (arith, below)) view in
      elim (view n) [
        | inl at ↦ (let no : ⊥ = ground (arith, at, below) in absurd no)
        | inr same ↦ omega (arith, rest, same)
      ]
  | inr above ↦
      let at : n ≡ i = ground (arith, above, h) in
      let rest = sum_same n f g (λ j less. elim (view j) [
        | inl e ↦ (let no : ⊥ = omega (arith, e, at, less) in absurd no)
        | inr same ↦ same
      ]) in
      let fn : f n ≡ f i = ap f at in let gn : g n ≡ g i = ap g at in omega (arith, rest, fn, gn)
]

pub sum-positive : (n : ℕ) (f : ℕ → ℕ) → 0 < sum n f → (j : ℕ) × (j < n) × (0 < f j)
sum-positive zero f pos = let no : ⊥ = omega (arith, pos) in absurd no
sum-positive (suc n) f pos = elim (Bool-cases (ltb 0 (f n))) [
  | inl here ↦ (n, omega arith, ground (arith, here))
  | inr other ↦
      let (j, less, at) = sum-positive n f (ground (arith, pos, other)) in
      (j, omega (arith, less), at)
]

sum_bound : (n : ℕ) (f : ℕ → ℕ) → ((j : ℕ) → f j ≤ 1) → sum n f ≤ n
sum_bound zero f le = omega arith
sum_bound (suc n) f le = omega (arith, sum_bound n f le, le n)

-- A sum of truth values that is as large as it can be.
pub sum_full : (n : ℕ) (f : ℕ → ℕ) → ((j : ℕ) → f j ≤ 1) → n ≤ sum n f → (j : ℕ) → j < n → f j ≡ 1
sum_full zero f le full j less = let no : ⊥ = omega (arith, less) in absurd no
sum_full (suc n) f le full j less = elim (Bool-cases (ltb j n)) [
  | inl below ↦ sum_full n f le (omega (arith, full, le n)) j (ground (arith, below))
  | inr above ↦
      let at : n ≡ j = ground (arith, above, less) in
      let fn : f n ≡ f j = ap f at in omega (arith, full, sum_bound n f le, le n, fn)
]

module _ {A : Type 0} where
  pub set_at-view : (f : ℕ → A) (i : ℕ) (v : A) (j : ℕ) → (j ≡ i) ⊎ (set_at f i v j ≡ f j)
  set_at-view f i v j = elim (Bool-cases (j == i)) [
    | inl at ↦ inl (ground (arith, at))
    | inr off ↦ inr (ap (λ b. if b then v else f j) off)
  ]

  pub set_at-same : (f : ℕ → A) (i : ℕ) (v : A) → set_at f i v i ≡ v
  set_at-same f i v = ap (λ b. if b then v else f i) {x = i == i} {y = true} (ground arith)
