-- ===== src/Detect/Start.antt =====
-- The second loop of `dc_find_start` ends at the first entry of the cycle.
use makedumpfile.Prelude.{
  ℕ, zero, suc, ◌+◌, ◌-◌, ◌≤◌, ◌<◌, ◌≡◌, ◌≢◌, ap, ◌∙◌, sym, subst, none, some, ◌==◌, ==_iff,
  if◌then◌else◌, arith, Bool-cases, inl, inr,
}
use mathlib.Core.Bool.{false≢true}
use makedumpfile.Detect.{meet}
use makedumpfile.Detect.Iterate.{iterate}

module _ (next : ℕ → ℕ) (head len : ℕ) where
  -- After `len` more steps the list is at the entry at distance `i` again.
  abbrev pub Repeats : ℕ → Type 0
  Repeats i = iterate next (i + len) head ≡ iterate next i head

  abbrev pub NoneBefore : ℕ → Type 0
  NoneBefore i = (j : ℕ) → j < i → iterate next (j + len) head ≢ iterate next j head

  NoneBefore-suc :
      (i : ℕ)
      → NoneBefore i
      → iterate next (i + len) head ≢ iterate next i head
      → NoneBefore (suc i)
  NoneBefore-suc i before here j h e = elim (Bool-cases (j == i)) [
    | inl same ↦ here (subst Repeats ((==_iff j i).0 same) e)
    | inr other ↦ before j (ground arith) e
  ]

  pub meet-Repeats :
      (fuel rounds i : ℕ)
      → rounds ≤ fuel
      → NoneBefore i
      → Repeats (i + rounds)
      → (first : ℕ) × (meet next fuel (iterate next i head) (iterate next (i + len) head)
          ≡ some (iterate next first head))
        × (first ≤ i + rounds)
        × Repeats first
        × NoneBefore first
  unfolding meet iterate
  meet-Repeats zero rounds i h before e =
      let same : i + rounds ≡ i = omega arith in
      let here : Repeats i = subst Repeats same e in
      (
        i,
        ap (λ b. if b then some (iterate next i head) else none) ((==_iff _ _).1 (sym here)),
        omega arith,
        here,
        before,
      )
  meet-Repeats (suc fuel) rounds i h before e =
      let x = iterate next i head in
      let y = iterate next (i + len) head in
      let rest = meet next fuel (next x) (next y) in
      elim (Bool-cases (x == y)) [
        | inl met ↦ (
          i,
          ap (λ b. if b then some x else rest) met,
          omega arith,
          sym ((==_iff x y).0 met),
          before,
        )
        | inr apart ↦
            let here : y ≢ x = λ same. false≢true (sym apart ∙ (==_iff x y).1 (sym same)) in
            elim (Bool-cases (rounds == 0)) [
              | inl last ↦
                  let same : i + rounds ≡ i = ground arith in absurd (here (subst Repeats same e))
              | inr more ↦
                  let step : i + rounds ≡ suc i + (rounds - 1) = ground arith in
                  let down : rounds - 1 ≤ fuel = omega arith in
                  let place : suc i + len ≡ suc (i + len) = omega arith in
                  let r =
                    meet-Repeats fuel (rounds - 1) (suc i) down (NoneBefore-suc i before here)
                      (subst Repeats step e) in
                  let bound : r.0 ≤ i + rounds = omega (arith, r.2, step) in
                  (
                    r.0,
                    ap (λ b. if b then some x else rest) apart
                        ∙ sym (ap (λ m. meet next fuel (next x) (iterate next m head)) place)
                        ∙ r.1,
                    bound,
                    r.3,
                    r.4,
                  )
            ]
      ]
