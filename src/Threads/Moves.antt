-- ===== src/Threads/Moves.antt =====
-- Each step of a thread leaves the buffers to whom they are.
use makedumpfile.Prelude.{
  ℕ, ◌≡◌, ◌⊎◌, refl, ap, ◌∙◌, sym, subst, Bool, true, false, some, List, [], ◌∷◌, ◌++◌, inl, inr,
}
use mathlib.Core.Bool.{false≢true}
use mathlib.Core.Option.{some-injective}
use makedumpfile.Threads.{
  PageFlag, PageOut, Producer, wait_flag, ThreadsState, ThreadInfo, set_at, publish_page,
  publish_zero, filling,
}
use makedumpfile.Threads.Sum.{set_at-view, set_at-same}
use makedumpfile.Threads.Buffers.{holding, In, IsLast, Filling, Owned, Owned-move}

pub In-append :
    (f g : PageFlag) (queue : List PageFlag) → In f (queue ++ (g ∷ [])) → In f queue ⊎ (g ≡ f)
In-append f g [] (inl e) = inr e
In-append f g [] (inr impossible) = absurd impossible
In-append f g (flag ∷ queue) (inl e) = inl (inl e)
In-append f g (flag ∷ queue) (inr inside) = elim (In-append f g queue inside) [
  | inl old ↦ inl (inr old)
  | inr new ↦ inr new
]

pub IsLast-append :
    (info : ThreadInfo) (pfn : ℕ) (queue : List PageFlag)
    → IsLast pfn (queue ++ (filling info pfn ∷ []))
IsLast-append info pfn [] = (refl, refl)
IsLast-append info pfn (flag ∷ []) = (refl, refl)
IsLast-append info pfn (flag ∷ (next ∷ queue)) = IsLast-append info pfn (next ∷ queue)

pub In-publish_zero :
    (f : PageFlag) (p : ℕ) (queue : List PageFlag)
    → IsLast p queue
    → In f (publish_zero queue)
    → In f queue ⊎ ((f.pfn ≡ p) × (f.is_zero ≡ true))
In-publish_zero f p [] last inside = absurd inside
In-publish_zero f p (flag ∷ []) last (inl e) =
    inr (ap (λ (g : PageFlag). g.pfn) (sym e) ∙ last.1, ap (λ (g : PageFlag). g.is_zero) (sym e))
In-publish_zero f p (flag ∷ []) last (inr impossible) = absurd impossible
In-publish_zero f p (flag ∷ (next ∷ queue)) last (inl e) = inl (inl e)
In-publish_zero f p (flag ∷ (next ∷ queue)) last (inr inside) =
    elim (In-publish_zero f p (next ∷ queue) last inside) [
      | inl old ↦ inl (inr old)
      | inr new ↦ inr new
    ]

pub In-publish_page :
    (f : PageFlag) (index p : ℕ) (queue : List PageFlag)
    → IsLast p queue
    → In f (publish_page index queue)
    → In f queue ⊎ ((f.pfn ≡ p) × (f.is_zero ≡ false) × (f.index ≡ index))
In-publish_page f index p [] last inside = absurd inside
In-publish_page f index p (flag ∷ []) last (inl e) = inr (
  ap (λ (g : PageFlag). g.pfn) (sym e) ∙ last.1,
  ap (λ (g : PageFlag). g.is_zero) (sym e),
  ap (λ (g : PageFlag). g.index) (sym e),
)
In-publish_page f index p (flag ∷ []) last (inr impossible) = absurd impossible
In-publish_page f index p (flag ∷ (next ∷ queue)) last (inl e) = inl (inl e)
In-publish_page f index p (flag ∷ (next ∷ queue)) last (inr inside) =
    elim (In-publish_page f index p (next ∷ queue) last inside) [
      | inl old ↦ inl (inr old)
      | inr new ↦ inr new
    ]

module _ (info : ThreadInfo) (i : ℕ) (s : ThreadsState) where
  -- The rings stay.
  Owned-queues :
      (used' : ℕ → Bool) (stored' : ℕ → PageOut) (producers' : ℕ → Producer)
      → Owned info used' stored' (set_at s.queues i (s.queues i)) producers'
      → Owned info used' stored' s.queues producers'
  Owned-queues used' stored' producers' owned =
      let same : (j : ℕ) → set_at s.queues i (s.queues i) j ≡ s.queues j = λ j.
        (elim (set_at-view s.queues i (s.queues i) j) [
          | inl e ↦
              ap (set_at s.queues i (s.queues i)) e
              ∙ set_at-same s.queues i (s.queues i)
              ∙ ap s.queues (sym e)
          | inr same ↦ same
        ]) in
      record {
        held = owned.held;
        alone = owned.alone;
        filling = λ j. subst (Filling info (producers' j)) (same j) (owned.filling j);
        tells = λ j f inside. owned.tells j f (subst (In f) (sym (same j)) inside);
        single = λ j k f g one two.
            owned.single j k f g (subst (In f) (sym (same j)) one)
              (subst (In g) (sym (same k)) two);
      }

  -- A thread that keeps its buffer or gives up, without a change of its ring.
  pub Owned-pc :
      (pc' : Producer) (used' : ℕ → Bool)
      → ((c : ℕ) → holding pc' ≡ some c → holding (s.producers i) ≡ some c)
      → ((c : ℕ)
          → (holding (s.producers i) ≡ some c → ⊥) ⊎ (holding pc' ≡ some c)
          → s.used c ≡ true
          → used' c ≡ true)
      → Filling info pc' (s.queues i)
      → Owned info s.used s.stored s.queues s.producers
      → Owned info used' s.stored s.queues (set_at s.producers i pc')
  Owned-pc pc' used' hold kept fill' owned =
      Owned-queues used' s.stored (set_at s.producers i pc') (
        Owned-move info i 0 0 s.used used' s.stored s.stored s.queues s.producers (s.queues i) pc'
          hold kept (λ c other. refl) fill' (λ f inside ready. inl inside) owned)

  -- A buffer that is not used is taken.
  pub Owned-take :
      (b : ℕ)
      → s.used b ≡ false
      → Owned info s.used s.stored s.queues s.producers
      → Owned info (set_at s.used b true) s.stored s.queues (set_at s.producers i (wait_flag b))
  Owned-take b free owned =
      let used_now : (c : ℕ) → s.used c ≡ true → set_at s.used b true c ≡ true = λ c is.
        (elim (set_at-view s.used b true c) [
          | inl e ↦ ap (set_at s.used b true) e ∙ set_at-same s.used b true
          | inr same ↦ same ∙ is
        ]) in
      let before : (j c : ℕ)
          → holding (set_at s.producers i (wait_flag b) j) ≡ some c
          → ((j ≡ i) × (b ≡ c)) ⊎ (holding (s.producers j) ≡ some c) =
        λ j c is. (elim (set_at-view s.producers i (wait_flag b) j) [
          | inl e ↦ inl (
            e,
            some-injective _ _ (
                sym (
                  ap holding (
                    ap (set_at s.producers i (wait_flag b)) e
                    ∙ set_at-same s.producers i (wait_flag b)))
                ∙ is),
          )
          | inr same ↦ inr (sym (ap holding same) ∙ is)
        ]) in
      record {
        held = λ j c is. elim (before j c is) [
          | inl new ↦ subst (λ n. set_at s.used b true n ≡ true) new.1 (set_at-same s.used b true)
          | inr old ↦ used_now c (owned.held j c old)
        ];
        alone = λ j k c one two. elim (before j c one) [
          | inl new ↦ elim (before k c two) [
            | inl new' ↦ new.0 ∙ sym new'.0
            | inr old' ↦ absurd (false≢true (sym free ∙ ap s.used new.1 ∙ owned.held k c old'))
          ]
          | inr old ↦ elim (before k c two) [
            | inl new' ↦ absurd (false≢true (sym free ∙ ap s.used new'.1 ∙ owned.held j c old))
            | inr old' ↦ owned.alone j k c old old'
          ]
        ];
        filling = λ j. elim (set_at-view s.producers i (wait_flag b) j) [
          | inl e ↦
              subst (λ pc. Filling info pc (s.queues j))
                (sym (
                  ap (set_at s.producers i (wait_flag b)) e
                  ∙ set_at-same s.producers i (wait_flag b)))
                tt
          | inr same ↦ subst (λ pc. Filling info pc (s.queues j)) (sym same) (owned.filling j)
        ];
        tells = λ j f inside ready. elim (owned.tells j f inside ready) [
          | inl told ↦ inl told
          | inr told ↦ inr (
            told.0,
            used_now f.index told.1,
            told.2,
            λ k holds. elim (before k f.index holds) [
              | inl new ↦ false≢true (sym free ∙ ap s.used new.1 ∙ told.1)
              | inr old ↦ told.3 k old
            ],
          )
        ];
        single = owned.single;
      }
