-- ===== src/Threads/Pages.antt =====
-- The pages that are written are those of their frames.
use makedumpfile.Prelude.{
  ℕ, suc, ◌≡◌, refl, ap, ◌∙◌, sym, subst, Bool, true, false, some, List, [], ◌∷◌, if◌then◌else◌,
  arith, inl, inr,
}
use mathlib.Core.Bool.{false≢true}
use makedumpfile.Threads.{
  PageFlag, PageOut, zero_page, Producer, take_buffer, wait_flag, post, fill, leave, exited, failed,
  ThreadsState, ThreadInfo, set_at, write_flag,
}
use makedumpfile.Threads.Queue.{has_pfn, at_end, IsThread, Flags-has_pfn}
use makedumpfile.Threads.Sum.{set_at-view, set_at-same}
use makedumpfile.Threads.Invariant.{Inv}
use makedumpfile.Threads.Dequeue.{member_rest}
use makedumpfile.Threads.Buffers.{
  holding, In, IsLast, Filling, AllPages, AllPages-append, Owned, In-has_pfn,
}
use makedumpfile.Threads.Published.{IsOwned, set_at-other}

module _ (info : ThreadInfo) where
  -- The buffers are owned, and what was written is right.
  abbrev pub Good : ThreadsState → Type 0
  Good s = IsOwned info s × AllPages info s.written

  pub if-Good : (b : Bool) (s t : ThreadsState) → Good s → Good t → Good (if b then s else t)
  if-Good true s t one two = one
  if-Good false s t one two = two

  pub at_end-Filling :
      (pc : Producer) (queue : List PageFlag) → at_end info pc ≡ true → Filling info pc queue
  at_end-Filling (take_buffer b) queue e = tt
  at_end-Filling (wait_flag b) queue e = tt
  at_end-Filling (post b p) queue e = λ below. (let no : ⊥ = ground (arith, e, below) in absurd no)
  at_end-Filling (fill b p) queue e = absurd (false≢true e)
  at_end-Filling (leave b) queue e = tt
  at_end-Filling exited queue e = tt
  at_end-Filling failed queue e = tt

  IsLast-rest :
      (p : ℕ) (flag : PageFlag) (queue : List PageFlag)
      → flag.ready ≡ true
      → IsLast p (flag ∷ queue)
      → IsLast p queue
  IsLast-rest p flag [] ready last = absurd (false≢true (sym last.0 ∙ ready))
  IsLast-rest p flag (next ∷ queue) ready last = last

  Filling-rest :
      (pc : Producer) (flag : PageFlag) (queue : List PageFlag)
      → flag.ready ≡ true
      → Filling info pc (flag ∷ queue)
      → Filling info pc queue
  Filling-rest (take_buffer b) flag queue ready filling = tt
  Filling-rest (wait_flag b) flag queue ready filling = tt
  Filling-rest (post b p) flag queue ready filling =
      λ below. IsLast-rest p flag queue ready (filling below)
  Filling-rest (fill b p) flag queue ready filling = IsLast-rest p flag queue ready filling
  Filling-rest (leave b) flag queue ready filling = tt
  Filling-rest exited flag queue ready filling = tt
  Filling-rest failed flag queue ready filling = tt

  module _ (s : ThreadsState) (k : ℕ) (flag : PageFlag) (queue : List PageFlag)
      (at : s.queues k ≡ flag ∷ queue) (owned : IsOwned info s) where
    pub In-rest : (j : ℕ) (f : PageFlag) → In f (set_at s.queues k queue j) → In f (s.queues j)
    In-rest j f inside = elim (set_at-view s.queues k queue j) [
      | inl e ↦ subst (In f) (sym (ap s.queues e ∙ at)) (
          inr (subst (In f) (ap (set_at s.queues k queue) e ∙ set_at-same s.queues k queue) inside))
      | inr same ↦ subst (In f) same inside
    ]

    -- A flag leaves its ring, and its buffer may be given back.
    pub Owned-dequeue :
        (used' : ℕ → Bool)
        → Filling info (s.producers k) queue
        → ((j c : ℕ) → holding (s.producers j) ≡ some c → used' c ≡ true)
        → ((j : ℕ) (f : PageFlag)
            → In f (set_at s.queues k queue j)
            → f.ready ≡ true
            → f.is_zero ≡ false
            → used' f.index ≡ true)
        → Owned info used' s.stored (set_at s.queues k queue) s.producers
    Owned-dequeue used' filling held tells = record {
      held = held;
      alone = owned.alone;
      filling = λ j. elim (set_at-view s.queues k queue j) [
        | inl e ↦
            subst (Filling info (s.producers j))
              (sym (ap (set_at s.queues k queue) e ∙ set_at-same s.queues k queue))
              (subst (λ n. Filling info (s.producers n) queue) (sym e) filling)
        | inr same ↦ subst (Filling info (s.producers j)) (sym same) (owned.filling j)
      ];
      tells = λ j f inside ready. elim (owned.tells j f (In-rest j f inside) ready) [
        | inl told ↦ inl told
        | inr told ↦ inr (told.0, tells j f inside ready told.0, told.2, told.3)
      ];
      single = λ i j f g one two. owned.single i j f g (In-rest i f one) (In-rest j g two);
    }

    -- Another flag that is ready is not in the buffer of the flag that leaves.
    other_index :
        (m : ℕ)
        → Inv info m s
        → flag.ready ≡ true
        → flag.is_zero ≡ false
        → (j : ℕ) (f : PageFlag) → In f (set_at s.queues k queue j)
        → f.ready ≡ true
        → f.is_zero ≡ false
        → f.index ≡ flag.index
        → ⊥
    other_index m inv head not_zero j f inside ready not_zero' same =
        let thread = subst (IsThread info s.current_pfn m (s.producers k)) at (inv.threads k) in
        let first : In flag (s.queues k) = subst (In flag) (sym at) (inl refl) in
        let pfn : f.pfn ≡ flag.pfn =
          owned.single j k f flag (In-rest j f inside) first ready head not_zero' not_zero same in
        let here : has_pfn flag.pfn (set_at s.queues k queue j) ≡ true =
          ap (λ p. has_pfn p (set_at s.queues k queue j)) (sym pfn)
          ∙ In-has_pfn f (set_at s.queues k queue j) inside in
        elim (thread.flags.1) [
          | inr last ↦ false≢true (sym last.1 ∙ head)
          | inl (page, flags) ↦
              let e : j ≡ k =
                inv.unique j k flag.pfn page.1
                  (member_rest info m k s flag queue at j flag.pfn here)
                  (In-has_pfn flag (s.queues k) first) in
              let rest : has_pfn flag.pfn queue ≡ true =
                ap (has_pfn flag.pfn)
                  (sym (ap (set_at s.queues k queue) e ∙ set_at-same s.queues k queue))
                ∙ here in
              let above =
                Flags-has_pfn info s.current_pfn (suc flag.pfn) flag.pfn (s.producers k) queue flags
                  rest page.1 in
              omega (arith, above.0)
        ]

    pub write_flag-Good :
        (m : ℕ)
        → Inv info m s
        → flag.ready ≡ true
        → AllPages info s.written
        → Good (write_flag info s k (flag ∷ queue))
    write_flag-Good m inv head pages =
        let first : In flag (s.queues k) = subst (In flag) (sym at) (inl refl) in
        let used' : ℕ → Bool = if flag.is_zero then s.used else set_at s.used flag.index false in
        let filling : Filling info (s.producers k) queue =
          Filling-rest (s.producers k) flag queue head
            (subst (Filling info (s.producers k)) at (owned.filling k)) in
        let page : ℕ × PageOut =
          (flag.pfn, (if flag.is_zero then zero_page else s.stored flag.index)) in
        elim (owned.tells k flag first head) [
          | inl (is_zero, prepared) ↦
              let same : used' ≡ s.used =
                ap (λ b. if b then s.used else set_at s.used flag.index false) is_zero in
              (
                Owned-dequeue used' filling
                    (λ j c holds. ap (λ (u : ℕ → Bool). u c) same ∙ owned.held j c holds)
                    (λ j f inside ready not_zero.
                      elim (owned.tells j f (In-rest j f inside) ready) [
                        | inl told ↦ absurd (false≢true (sym not_zero ∙ told.0))
                        | inr told ↦ ap (λ (u : ℕ → Bool). u f.index) same ∙ told.1
                      ]),
                AllPages-append info s.written page pages (
                    prepared
                    ∙ ap (λ b. some (if b then zero_page else s.stored flag.index)) (sym is_zero)),
              )
          | inr (not_zero, is_used, prepared, free) ↦
              let same : used' ≡ set_at s.used flag.index false =
                ap (λ b. if b then s.used else set_at s.used flag.index false) not_zero in
              (
                Owned-dequeue used' filling
                    (λ j c holds.
                      ap (λ (u : ℕ → Bool). u c) same
                      ∙ set_at-other s.used flag.index false c
                          (λ e. free j (holds ∙ ap (λ x. some x) e))
                      ∙ owned.held j c holds)
                    (λ j f inside ready not_zero'.
                      elim (owned.tells j f (In-rest j f inside) ready) [
                        | inl told ↦ absurd (false≢true (sym not_zero' ∙ told.0))
                        | inr told ↦
                            ap (λ (u : ℕ → Bool). u f.index) same
                            ∙ set_at-other s.used flag.index false f.index
                                (other_index m inv head not_zero j f inside ready not_zero')
                            ∙ told.1
                      ]),
                AllPages-append info s.written page pages (
                    prepared
                    ∙ ap (λ b. some (if b then zero_page else s.stored flag.index)) (sym not_zero)),
              )
        ]
