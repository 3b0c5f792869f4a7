-- ===== src/Detect/Iterate.antt =====
-- The entries of a list that is walked by a callback, by their distance from the head.
use makedumpfile.Prelude.{ℕ, zero, suc, ◌+◌, ◌-◌, ◌≤◌, ◌≡◌, refl, ap, ◌∙◌, sym, subst, arith}
use makedumpfile.Detect.{ahead}

module _ (next : ℕ → ℕ) where
  unfoldable pub iterate : ℕ → ℕ → ℕ
  iterate zero x = x
  iterate (suc n) x = next (iterate n x)

  pub iterate-suc : (n x : ℕ) → iterate n (next x) ≡ iterate (suc n) x
  unfolding iterate
  iterate-suc zero x = refl
  iterate-suc (suc n) x = ap next (iterate-suc n x)

  -- What is repeated once is repeated ever after.
  pub iterate_repeat :
      (i l d x : ℕ) → iterate (i + l) x ≡ iterate i x → iterate (i + d + l) x ≡ iterate (i + d) x
  unfolding iterate
  iterate_repeat i l zero x e =
      let a : i + 0 + l ≡ i + l = omega arith in
      let b : i + 0 ≡ i = omega arith in ap (λ n. iterate n x) a ∙ e ∙ sym (ap (λ n. iterate n x) b)
  iterate_repeat i l (suc d) x e =
      let a : i + suc d + l ≡ suc (i + d + l) = omega arith in
      let b : i + suc d ≡ suc (i + d) = omega arith in
      ap (λ n. iterate n x) a ∙ ap next (iterate_repeat i l d x e) ∙ sym (ap (λ n. iterate n x) b)

  pub repeat_later :
      (i l m x : ℕ) → i ≤ m → iterate (i + l) x ≡ iterate i x → iterate (m + l) x ≡ iterate m x
  repeat_later i l m x h e =
      let split : i + (m - i) ≡ m = omega arith in
      subst (λ k. iterate (k + l) x ≡ iterate k x) split (iterate_repeat i l (m - i) x e)

  pub ahead-iterate : (n x : ℕ) → ahead next n x ≡ iterate n x
  unfolding ahead iterate
  ahead-iterate zero x = refl
  ahead-iterate (suc n) x = ahead-iterate n (next x) ∙ iterate-suc n x
