-- ===== src/Detect/Invariant.antt =====
-- The state of the detection after so many calls of `dc_next`.
use makedumpfile.Prelude.{
  ℕ, zero, suc, ◌+◌, ◌-◌, ◌*◌, ◌%◌, ◌^◌, ◌≤◌, ◌<◌, ◌≡◌, ◌≢◌, refl, ap, ◌∙◌, sym, subst, Bool, none,
  some, ◌==◌, ==_iff, if◌then◌else◌, arith, Bool-cases, inl, inr, ◌⊎◌,
}
use mathlib.Core.Bool.{false≢true}
use mathlib.Core.Option.{none-ne-some, some-injective}
use native.Mathlib.Nat.{pow-suc}
use makedumpfile.Detect.{
  DetectCycle, answered, started, jumped, dc_init, jump, advance, dc_next, calls,
}
use makedumpfile.Detect.Iterate.{iterate}

module _ (next : ℕ → ℕ) (head : ℕ) where
  -- After `n` calls: where the pointers are, and that no entry since the last jump, up to a
  -- distance, is the one that the slow pointer is at.
  pub record Inv (n fresh : ℕ) (dc : DetectCycle) : Type 0 where
    pub at_head : dc.head ≡ head
    pub slow : dc.slow_p ≡ iterate next (dc.power - 2) head
    pub fast : dc.fast_p ≡ iterate next n head
    pub count : n + 2 ≡ dc.power + dc.length
    pub short : dc.length ≤ dc.power
    pub two : 2 ≤ dc.power
    pub exponent : (j : ℕ) × (dc.power ≡ 2 ^ j)
    pub apart :
        (l : ℕ)
        → 0 < l
        → l ≤ fresh
        → iterate next (dc.power - 2 + l) head ≢ iterate next (dc.power - 2) head

  pub init-started :
      (allocated : Bool) {dc : DetectCycle} → dc_init allocated head ≡ some dc → dc ≡ started head
  unfolding dc_init
  init-started allocated {dc} e = ground arith

  pub started-Inv : Inv 0 0 (started head)
  unfolding iterate
  started-Inv = record {
    at_head = refl;
    slow = refl;
    fast = refl;
    count = refl;
    short = omega arith;
    two = omega arith;
    exponent = (1, refl);
    apart = λ l h k e. (let no : ⊥ = omega arith in absurd no);
  }

  abbrev Ready : ℕ → DetectCycle → Type 0
  Ready n dc = Inv n dc.length dc × (dc.length < dc.power)

  jumped-Ready :
      (n : ℕ) (dc : DetectCycle)
      → n + 3 ≤ 2 ^ 64
      → dc.length ≡ dc.power
      → Inv n dc.length dc
      → Ready n (jumped dc)
  jumped-Ready n dc room full inv =
      let big : dc.power * 2 % 2 ^ 64 ≡ dc.power * 2 = omega arith in
      let gone : dc.power * 2 % 2 ^ 64 - 2 ≡ n = omega arith in
      (
        record {
          at_head = inv.at_head;
          slow = inv.fast ∙ sym (ap (λ m. iterate next m head) gone);
          fast = inv.fast;
          count = omega arith;
          short = omega arith;
          two = omega arith;
          exponent =
              (suc (inv.exponent.0), omega (arith, inv.exponent.1, pow-suc 2 inv.exponent.0));
          apart = λ l h k e. (let no : ⊥ = omega arith in absurd no);
        },
        omega arith,
      )

  jump-Ready : (n : ℕ) (dc : DetectCycle) → n + 3 ≤ 2 ^ 64 → Inv n dc.length dc → Ready n (jump dc)
  unfolding jump
  jump-Ready n dc room inv = elim (Bool-cases (dc.length == dc.power)) [
    | inl full ↦
        subst (λ b. Ready n (if b then jumped dc else dc)) (sym full)
          (jumped-Ready n dc room (ground arith) inv)
    | inr more ↦
        let less : dc.length < dc.power = ground (arith, inv.short) in
        subst (λ b. Ready n (if b then jumped dc else dc)) (sym more) (inv, less)
  ]

  advance-Inv :
      (n : ℕ) (dc : DetectCycle)
      → n + 3 ≤ 2 ^ 64
      → Ready n dc
      → Inv (suc n) dc.length (advance next dc) × ((advance next dc).length ≡ suc dc.length)
  unfolding advance iterate
  advance-Inv n dc room (inv, h) =
      let one : (dc.length + 1) % 2 ^ 64 ≡ suc dc.length = omega arith in
      (
        record {
          at_head = inv.at_head;
          slow = inv.slow;
          fast = ap next inv.fast;
          count = omega arith;
          short = omega arith;
          two = inv.two;
          exponent = inv.exponent;
          apart = inv.apart;
        },
        one,
      )

  -- The pointers have met again, for the first time since the last jump.
  pub record Met (n : ℕ) (dc : DetectCycle) : Type 0 where
    pub at_head : dc.head ≡ head
    pub from : ℕ
    pub early : from ≤ n
    pub some_steps : 0 < dc.length
    pub again : iterate next (from + dc.length) head ≡ iterate next from head
    pub first_time :
        (l : ℕ) → 0 < l → l < dc.length → iterate next (from + l) head ≢ iterate next from head

  -- A call either finds that the pointers have met, or goes on with the invariant.
  dc_next-Inv :
      (n : ℕ) (dc : DetectCycle)
      → n + 3 ≤ 2 ^ 64
      → Inv n dc.length dc
      → let (dc', entry) = dc_next next dc in
        ((entry ≡ none) × Met (suc n) dc')
        ⊎ ((entry ≡ some dc'.fast_p) × Inv (suc n) dc'.length dc')
  unfolding dc_next
  dc_next-Inv n dc room inv =
      let ready = jump-Ready n dc room inv in
      let (inv', one) = advance-Inv n (jump dc) room ready in
      let dc' = advance next (jump dc) in
      let place : dc'.power - 2 + dc'.length ≡ suc n = omega (arith, inv'.count, inv'.two) in
      let fast' : dc'.fast_p ≡ iterate next (dc'.power - 2 + dc'.length) head =
        inv'.fast ∙ sym (ap (λ m. iterate next m head) place) in
      elim (Bool-cases (dc'.slow_p == dc'.fast_p)) [
        | inl met ↦
            let same : dc'.slow_p ≡ dc'.fast_p = (==_iff dc'.slow_p dc'.fast_p).0 met in
            inl (
              ap (λ b. if b then none else some dc'.fast_p) met,
              record {
                at_head = inv'.at_head;
                from = dc'.power - 2;
                early = omega (arith, place);
                some_steps = omega (arith, one);
                again = sym fast' ∙ sym same ∙ inv'.slow;
                first_time = λ l h k. inv'.apart l h (omega (arith, one, k));
              },
            )
        | inr apart ↦ inr (
          ap (λ b. if b then none else some dc'.fast_p) apart,
          record {
            at_head = inv'.at_head;
            slow = inv'.slow;
            fast = inv'.fast;
            count = inv'.count;
            short = inv'.short;
            two = inv'.two;
            exponent = inv'.exponent;
            apart = λ l h k e. elim (Bool-cases (l == dc'.length)) [
              | inl last ↦
                  let at_last : iterate next (dc'.power - 2 + l) head ≡ dc'.fast_p =
                    ap (λ m. iterate next (dc'.power - 2 + m) head) ((==_iff l dc'.length).0 last)
                    ∙ sym fast' in
                  let same : dc'.slow_p ≡ dc'.fast_p = inv'.slow ∙ sym e ∙ at_last in
                  false≢true (sym apart ∙ (==_iff dc'.slow_p dc'.fast_p).1 same)
              | inr before ↦
                  let less : l ≤ (jump dc).length = ground (arith, one, k) in inv'.apart l h less e
            ];
          },
        )
      ]

  calls_stop :
      (left : ℕ) (dc : DetectCycle)
      → (dc_next next dc).1 ≡ none
      → calls next (suc left) dc ≡ some (dc_next next dc).0
  unfolding calls
  calls_stop left dc e =
      let dc' = (dc_next next dc).0 in ap (λ o. answered o dc' (calls next left dc')) e

  calls_go :
      (left : ℕ) (dc : DetectCycle) {x : ℕ}
      → (dc_next next dc).1 ≡ some x
      → calls next (suc left) dc ≡ calls next left (dc_next next dc).0
  unfolding calls
  calls_go left dc e =
      let dc' = (dc_next next dc).0 in ap (λ o. answered o dc' (calls next left dc')) e

  -- Calls that go on until the pointers have met.
  pub calls-Met :
      (left n : ℕ) (dc : DetectCycle) {dc' : DetectCycle}
      → n + left + 2 ≤ 2 ^ 64
      → Inv n dc.length dc
      → calls next left dc ≡ some dc'
      → (m : ℕ) × (m ≤ n + left) × Met m dc'
  unfolding calls
  calls-Met zero n dc room inv e = absurd (none-ne-some _ e)
  calls-Met (suc left) n dc {dc'} room inv e = elim (dc_next-Inv n dc (omega arith) inv) [
    | inl (stop, met) ↦
        let same : (dc_next next dc).0 ≡ dc' =
          some-injective _ _ (sym (calls_stop left dc stop) ∙ e) in
        (suc n, omega arith, subst (Met (suc n)) same met)
    | inr (go, inv') ↦
        let r =
          calls-Met left (suc n) (dc_next next dc).0 (omega arith) inv'
            (sym (calls_go left dc go) ∙ e) in
        (r.0, omega arith, r.2)
  ]

  -- Where the pointers are if they have not met in so many calls.
  pub calls-Inv :
      (left n : ℕ) (dc : DetectCycle)
      → n + left + 2 ≤ 2 ^ 64
      → Inv n dc.length dc
      → calls next left dc ≡ none
      → (dc' : DetectCycle) × Inv (n + left) dc'.length dc'
  unfolding calls
  calls-Inv zero n dc room inv e =
      let same : n ≡ n + 0 = omega arith in (dc, subst (λ m. Inv m dc.length dc) same inv)
  calls-Inv (suc left) n dc room inv e = elim (dc_next-Inv n dc (omega arith) inv) [
    | inl (stop, met) ↦ absurd (none-ne-some _ (sym e ∙ calls_stop left dc stop))
    | inr (go, inv') ↦
        let r =
          calls-Inv left (suc n) (dc_next next dc).0 (omega arith) inv'
            (sym (calls_go left dc go) ∙ e) in
        let same : suc n + left ≡ n + suc left = omega arith in
        (r.0, subst (λ m. Inv m (r.0).length r.0) same r.1)
  ]
