-- ===== src/Threads/Producers.antt =====
-- The steps of a thread, but for the one that takes a frame.
use makedumpfile.Prelude.{
  ℕ, ◌+◌, ◌-◌, ◌%◌, ◌≤◌, ◌<◌, ◌≡◌, refl, ap, ◌∙◌, sym, subst, Bool, true, false, ◌&&◌, Option, none,
  some, List, [], ◌∷◌, length, leb, if◌then◌else◌, arith, Bool-cases, inl, inr,
}
use mathlib.Core.Bool.{false≢true}
use makedumpfile.Threads.{
  PageFlag, PageOut, zero_page, page_data, Producer, take_buffer, wait_flag, post, fill, leave,
  failed, ThreadsState, ThreadInfo, set_at, publish_page, publish_zero, take_buffer_step, post_step,
  filled,
}
use makedumpfile.Threads.Queue.{
  has_pfn, is_post, is_empty, IsOpen, IsHead, one_if, at_end, Flags, IsThread, Flags-producer,
  Flags-publish_page, Flags-publish_zero, has_pfn-publish_page, has_pfn-publish_zero,
  length-publish_page, length-publish_zero, IsHead-publish_page, IsHead-publish_zero,
}
use makedumpfile.Threads.Sum.{set_at-view, set_at-same}
use makedumpfile.Threads.Invariant.{posted, ended, Inv, Inv-thread}

module _ (info : ThreadInfo) (m i : ℕ) (s : ThreadsState) (less : i < info.num_threads) where
  -- A thread that leaves its flags alone.
  pub Inv-pc :
      (pc pc' : Producer) (sem' : ℕ) (used' : ℕ → Bool)
      → s.producers i ≡ pc
      → at_end info pc' ≡ at_end info pc
      → is_post pc' ≡ false
      → (s.current_pfn < info.end_pfn → sem' + posted pc (s.queues i) ≤ s.sem + length (s.queues i))
      → Inv info m s
      → Inv info m (record s { sem = sem'; used = used'; producers = set_at s.producers i pc' })
  Inv-pc pc pc' sem' used' at same_end no_post count inv =
      let to : set_at s.producers i pc' i ≡ pc' = set_at-same s.producers i pc' in
      let old : IsThread info s.current_pfn m pc (s.queues i) =
        subst (λ p. IsThread info s.current_pfn m p (s.queues i)) at (inv.threads i) in
      let thread : IsThread info s.current_pfn m pc' (s.queues i) = record {
        flags =
            Flags-producer info s.current_pfn m pc pc' (s.queues i) (λ e. same_end ∙ e) old.flags;
        posting = λ e. absurd (false≢true (sym no_post ∙ e));
        ending = λ e. old.ending (sym same_end ∙ e);
      } in
      let ends : ended info (s.producers i) (s.queues i)
          ≡ ended info (set_at s.producers i pc' i) (s.queues i) =
        ap (λ p. ended info p (s.queues i)) at
        ∙ ap (λ b. one_if (b && is_empty (s.queues i))) (sym same_end)
        ∙ ap (λ p. ended info p (s.queues i)) (sym to) in
      let now : posted (set_at s.producers i pc' i) (s.queues i) ≡ length (s.queues i) - 0 =
        ap (λ p. posted p (s.queues i)) to ∙ ap (λ b. length (s.queues i) - one_if b) no_post in
      let before : posted (s.producers i) (s.queues i) ≡ posted pc (s.queues i) =
        ap (λ p. posted p (s.queues i)) at in
      Inv-thread info m i s sem' used' s.stored s.queues (set_at s.producers i pc') less
        (λ j. elim (set_at-view s.producers i pc' j) [
          | inl e ↦ inl e
          | inr same ↦ inr (refl, same)
        ])
        (subst (λ p. IsThread info s.current_pfn m p (s.queues i)) (sym to) thread) (λ p. refl)
        (λ p h. h) (omega (arith, ends)) (λ more. omega (arith, count more, now, before)) inv

  pub take_buffer-Inv :
      (index : ℕ)
      → s.producers i ≡ take_buffer index
      → Inv info m s
      → Inv info m (take_buffer_step info s i index)
  take_buffer-Inv index at inv =
      let next = record s {
        producers = set_at s.producers i (take_buffer ((index + 1) % info.num_buffers));
      } in
      let got = record s {
        used = set_at s.used index true;
        producers = set_at s.producers i (wait_flag index);
      } in
      elim (Bool-cases (s.used index)) [
        | inl busy ↦ subst (Inv info m) (sym (ap (λ b. if b then next else got) busy)) (
            Inv-pc (take_buffer index) (take_buffer ((index + 1) % info.num_buffers)) s.sem s.used
              at refl refl (λ more. omega arith) inv)
        | inr free ↦ subst (Inv info m) (sym (ap (λ b. if b then next else got) free)) (
            Inv-pc (take_buffer index) (wait_flag index) s.sem (set_at s.used index true) at refl
              refl (λ more. omega arith) inv)
      ]

  length_open : (queue : List PageFlag) → IsOpen queue → 0 < length queue
  length_open [] impossible = absurd impossible
  length_open (flag ∷ queue) is = omega arith

  pub post-Inv :
      (index pfn : ℕ)
      → s.producers i ≡ post index pfn
      → Inv info m s
      → Inv info m (post_step info s i index pfn)
  post-Inv index pfn at inv =
      let count : s.current_pfn < info.end_pfn
          → s.sem + 1 + posted (post index pfn) (s.queues i) ≤ s.sem + length (s.queues i) =
        λ more. (elim ((inv.threads i).posting (ap is_post at)) [
          | inl over ↦ (let no : ⊥ = omega (arith, over, more) in absurd no)
          | inr open_queue ↦ omega (arith, length_open (s.queues i) open_queue)
        ]) in
      let to : Bool → ThreadsState = λ b. record s {
        sem = s.sem + 1;
        producers = set_at s.producers i (if b then leave index else fill index pfn);
      } in
      elim (Bool-cases (leb info.end_pfn pfn)) [
        | inl last ↦
            subst (Inv info m) (sym (ap to last)) (
              Inv-pc (post index pfn) (leave index) (s.sem + 1) s.used at (sym last) refl count inv)
        | inr more ↦ subst (Inv info m) (sym (ap to more)) (
            Inv-pc (post index pfn) (fill index pfn) (s.sem + 1) s.used at (sym more) refl count
              inv)
      ]

  -- A thread that publishes a flag.
  Inv-publish :
      (index pfn : ℕ) (pc' : Producer) (stored' : ℕ → PageOut) (queue : List PageFlag)
      → s.producers i ≡ fill index pfn
      → at_end info pc' ≡ false
      → is_post pc' ≡ false
      → Flags info s.current_pfn pc' m queue
      → ((p : ℕ) → has_pfn p queue ≡ has_pfn p (s.queues i))
      → ((p : ℕ) → IsHead p (s.queues i) → IsHead p queue)
      → length queue ≡ length (s.queues i)
      → Inv info m s
      → Inv info m (record s {
        stored = stored';
        queues = set_at s.queues i queue;
        producers = set_at s.producers i pc';
      })
  Inv-publish index pfn pc' stored' queue at no_end no_post flags has head len inv =
      let to : set_at s.producers i pc' i ≡ pc' = set_at-same s.producers i pc' in
      let to_queue : set_at s.queues i queue i ≡ queue = set_at-same s.queues i queue in
      let thread : IsThread info s.current_pfn m pc' queue = record {
        flags = flags;
        posting = λ e. absurd (false≢true (sym no_post ∙ e));
        ending = λ e. absurd (false≢true (sym no_end ∙ e));
      } in
      let zero_end : ended info (s.producers i) (s.queues i) ≡ 0 =
        ap (λ p. ended info p (s.queues i)) at in
      let now : posted (set_at s.producers i pc' i) (set_at s.queues i queue i) ≡ length queue - 0 =
        ap (λ p. posted p (set_at s.queues i queue i)) to
        ∙ ap (λ q. posted pc' q) to_queue
        ∙ ap (λ b. length queue - one_if b) no_post in
      let before : posted (s.producers i) (s.queues i) ≡ length (s.queues i) - 0 =
        ap (λ p. posted p (s.queues i)) at in
      Inv-thread info m i s s.sem s.used stored' (set_at s.queues i queue)
        (set_at s.producers i pc') less
        (λ j. elim (set_at-view s.producers i pc' j) [
          | inl e ↦ inl e
          | inr same ↦ elim (set_at-view s.queues i queue j) [
            | inl e ↦ inl e
            | inr same' ↦ inr (same', same)
          ]
        ])
        (subst (λ q. IsThread info s.current_pfn m (set_at s.producers i pc' i) q) (sym to_queue)
          (subst (λ p. IsThread info s.current_pfn m p queue) (sym to) thread))
        (λ p. ap (has_pfn p) to_queue ∙ has p) (λ p h. subst (IsHead p) (sym to_queue) (head p h))
        (omega (arith, zero_end)) (λ more. omega (arith, now, before, len)) inv

  pub filled-Inv :
      (index pfn : ℕ) (page : Option PageOut)
      → s.producers i ≡ fill index pfn
      → Inv info m s
      → Inv info m (filled info s i index page)
  filled-Inv index pfn none at inv =
      Inv-pc (fill index pfn) failed s.sem s.used at refl refl (λ more. omega arith) inv
  filled-Inv index pfn (some zero_page) at inv =
      let old = subst (λ p. Flags info s.current_pfn p m (s.queues i)) at ((inv.threads i).flags) in
      Inv-publish index pfn (wait_flag index) s.stored (publish_zero (s.queues i)) at refl refl
        (Flags-publish_zero info s.current_pfn m (fill index pfn) (wait_flag index) (s.queues i)
          refl old)
        (λ p. has_pfn-publish_zero p (s.queues i)) (λ p. IsHead-publish_zero p (s.queues i))
        (length-publish_zero (s.queues i)) inv
  filled-Inv index pfn (some (page_data flags size buf)) at inv =
      let old = subst (λ p. Flags info s.current_pfn p m (s.queues i)) at ((inv.threads i).flags) in
      Inv-publish index pfn (take_buffer index) (set_at s.stored index (page_data flags size buf))
        (publish_page index (s.queues i)) at refl refl
        (Flags-publish_page info s.current_pfn m index (fill index pfn) (take_buffer index)
          (s.queues i) refl old)
        (λ p. has_pfn-publish_page index p (s.queues i))
        (λ p. IsHead-publish_page index p (s.queues i)) (length-publish_page index (s.queues i)) inv
