-- ===== src/Detect/Found.antt =====
-- What the calls of detect_cycle.c tell of the list.
use makedumpfile.Prelude.{
  ℕ, suc, ◌+◌, ◌-◌, ◌^◌, ◌≤◌, ◌<◌, ◌≡◌, ◌≢◌, ap, ◌∙◌, sym, subst, Bool, none, some, ltb, arith,
  Bool-cases, Option-cases, inl, inr,
}
use native.Mathlib.Nat.{pow-suc, pow-le-pow_right}
use makedumpfile.Detect.{
  DetectCycle, started, with_length, dc_init, dc_find_start, calls, meet, ahead,
}
use makedumpfile.Detect.Iterate.{iterate, repeat_later, ahead-iterate}
use makedumpfile.Detect.Invariant.{init-started, started-Inv, calls-Met, calls-Inv}
use makedumpfile.Detect.Start.{Repeats, meet-Repeats}

-- A number of calls lies in only one of the stages between two jumps.
same_stage :
    (j k len l : ℕ)
    → 2 ^ k + l ≡ 2 ^ j + len
    → len ≤ 2 ^ j
    → 0 < l
    → l < 2 ^ k
    → (2 ^ j ≡ 2 ^ k) × (len ≡ l)
same_stage j k len l e short pos less = elim (Bool-cases (ltb j k)) [
  | inl lower ↦
      let up : suc j ≤ k = ground arith in
      let more : 2 ^ suc j ≤ 2 ^ k = pow-le-pow_right (omega arith) up in
      let double = pow-suc 2 j in let no : ⊥ = omega (arith, more, double) in absurd no
  | inr upper ↦ elim (Bool-cases (ltb k j)) [
    | inl higher ↦
        let up : suc k ≤ j = ground arith in
        let more : 2 ^ suc k ≤ 2 ^ j = pow-le-pow_right (omega arith) up in
        let double = pow-suc 2 k in let no : ⊥ = omega (arith, more, double) in absurd no
    | inr level ↦
        let same : j ≡ k = ground arith in let equal = ap (λ i. 2 ^ i) same in omega (arith, equal)
  ]
]

module _ (next : ℕ → ℕ) (head : ℕ) where
  -- If `dc_next` answers 1 within `n` calls, fewer than 2 ^ 64 - 1, then `dc_find_start` needs no
  -- more than `n` rounds, and finds the first entry of the list that is met again and the length of
  -- the cycle, which is the number of steps after which it is met for the first time.
  pub calls-dc_find_start :
      (allocated : Bool) (n fuel : ℕ) {dc_0 dc : DetectCycle}
      → n + 2 ≤ 2 ^ 64
      → n ≤ fuel
      → dc_init allocated head ≡ some dc_0
      → calls next n dc_0 ≡ some dc
      → (first : ℕ) × (dc_find_start next fuel dc ≡ some (iterate next first head, dc.length))
        × (0 < dc.length)
        × (iterate next (first + dc.length) head ≡ iterate next first head)
        × ((j : ℕ) → j < first → iterate next (j + dc.length) head ≢ iterate next j head)
        × ((l : ℕ)
            → 0 < l
            → l < dc.length
            → iterate next (first + l) head ≢ iterate next first head)
  unfolding dc_find_start iterate
  calls-dc_find_start allocated n fuel {dc_0} {dc} room enough init e =
      let go : calls next n (started head) ≡ some dc =
        ap (calls next n) (sym (init-started next head allocated init)) ∙ e in
      let (m, within, met) =
        calls-Met next head n 0 (started head) (omega arith) (started-Inv next head) go in
      let len = dc.length in
      let place : 0 + len ≡ len = omega arith in
      let same : 0 + met.from ≡ met.from = omega arith in
      let r =
        meet-Repeats next head len fuel met.from 0 (omega (arith, met.early))
          (λ j h k. (let no : ⊥ = omega arith in absurd no))
          (subst (Repeats next head len) (sym same) met.again) in
      let reach : r.0 ≤ met.from = omega (arith, r.2) in
      (
        r.0,
        ap (λ h. with_length (meet next fuel h (ahead next len h)) len) met.at_head
            ∙ ap (λ y. with_length (meet next fuel head y) len) (ahead-iterate next len head)
            ∙ sym (ap (λ m. with_length (meet next fuel head (iterate next m head)) len) place)
            ∙ ap (λ o. with_length o len) r.1,
        met.some_steps,
        r.3,
        r.4,
        λ l h k again. met.first_time l h k (repeat_later next r.0 l met.from head reach again),
      )

  -- A list that comes back after `before` steps to an entry that it is at `l` steps later is found
  -- out within `2 ^ k - 2 + l` calls, for every `k` below 64 with `before + l + 2 ≤ 2 ^ k`.
  pub calls_detect :
      (allocated : Bool) (before l k : ℕ) {dc_0 : DetectCycle}
      → 0 < l
      → k < 64
      → before + l + 2 ≤ 2 ^ k
      → iterate next (before + l) head ≡ iterate next before head
      → dc_init allocated head ≡ some dc_0
      → (dc : DetectCycle) × (calls next (2 ^ k - 2 + l) dc_0 ≡ some dc)
  calls_detect allocated before l k {dc_0} pos small large cycle init =
      let n = 2 ^ k - 2 + l in
      let low : k ≤ 63 = omega arith in
      let top : 2 ^ k ≤ 2 ^ 63 = pow-le-pow_right (omega arith) low in
      let room : 0 + n + 2 ≤ 2 ^ 64 = omega (arith, top) in
      elim (Option-cases (calls next n dc_0)) [
        | inl never ↦
            let go : calls next n (started head) ≡ none =
              ap (calls next n) (sym (init-started next head allocated init)) ∙ never in
            let (dc, inv) =
              calls-Inv next head n 0 (started head) room (started-Inv next head) go in
            let (j, e) = inv.exponent in
            let stage =
              same_stage j k dc.length l (omega (arith, e, inv.count)) (omega (arith, e, inv.short))
                pos (omega arith) in
            let late : before ≤ dc.power - 2 = omega (arith, e, stage) in
            absurd (
              inv.apart l pos (omega (arith, stage))
                (repeat_later next before l (dc.power - 2) head late cycle))
        | inr (dc, e) ↦ (dc, e)
      ]
