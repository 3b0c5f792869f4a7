-- ===== src/Threads/Buffers.antt =====
-- Whose a buffer of `page_data_buf` is: a thread holds it, or a page that is ready is in it.
use makedumpfile.Prelude.{
  ℕ, ◌<◌, ◌≡◌, ◌⊎◌, ap, ◌∙◌, sym, subst, Bool, true, false, Option, none, some, List, [], ◌∷◌, ◌++◌,
  ◌==◌, if◌then◌else◌, arith, Bool-cases, inl, inr,
}
use mathlib.Core.Bool.{false≢true}
use mathlib.Core.Option.{none-ne-some}
use makedumpfile.Threads.{
  PageFlag, PageOut, zero_page, Producer, take_buffer, wait_flag, post, fill, leave, exited, failed,
  ThreadInfo, set_at,
}
use makedumpfile.Threads.Queue.{has_pfn}
use makedumpfile.Threads.Sum.{set_at-view, set_at-same}

abbrev pub holding : Producer → Option ℕ
holding (take_buffer index) = none
holding (wait_flag index) = some index
holding (post index pfn) = some index
holding (fill index pfn) = some index
holding (leave index) = some index
holding exited = none
holding failed = none

abbrev pub In : PageFlag → List PageFlag → Type 0
In f [] = ⊥
In f (flag ∷ queue) = (flag ≡ f) ⊎ In f queue

-- The last flag is being filled, for this frame.
abbrev pub IsLast : ℕ → List PageFlag → Type 0
IsLast p [] = ⊥
IsLast p (flag ∷ []) = (flag.ready ≡ false) × (flag.pfn ≡ p)
IsLast p (flag ∷ (next ∷ queue)) = IsLast p (next ∷ queue)

pub In-has_pfn : (f : PageFlag) (queue : List PageFlag) → In f queue → has_pfn f.pfn queue ≡ true
In-has_pfn f [] inside = absurd inside
In-has_pfn f (flag ∷ queue) (inl e) =
    let same : flag.pfn ≡ f.pfn = ap (λ (g : PageFlag). g.pfn) e in ground (arith, same)
In-has_pfn f (flag ∷ queue) (inr inside) = ground (arith, In-has_pfn f queue inside)

module _ (info : ThreadInfo) where
  -- What a thread does with the last flag of its ring.
  abbrev pub Filling : Producer → List PageFlag → Type 0
  Filling (take_buffer index) queue = Unit {0}
  Filling (wait_flag index) queue = Unit {0}
  Filling (post index pfn) queue = pfn < info.end_pfn → IsLast pfn queue
  Filling (fill index pfn) queue = IsLast pfn queue
  Filling (leave index) queue = Unit {0}
  Filling exited queue = Unit {0}
  Filling failed queue = Unit {0}

  -- A flag that is ready tells of its page: zero, or in a buffer that no thread holds.
  abbrev pub Tells : (ℕ → Bool) → (ℕ → PageOut) → (ℕ → Producer) → PageFlag → Type 0
  Tells used stored producers f =
      ((f.is_zero ≡ true) × (info.prepare f.pfn ≡ some zero_page))
      ⊎ ((f.is_zero ≡ false)
          × (used f.index ≡ true)
          × (info.prepare f.pfn ≡ some (stored f.index))
          × ((j : ℕ) → holding (producers j) ≡ some f.index → ⊥))

  abbrev pub AllPages : List (ℕ × PageOut) → Type 0
  AllPages [] = Unit {0}
  AllPages (page ∷ pages) = (info.prepare page.0 ≡ some page.1) × AllPages pages

  pub AllPages-append :
      (pages : List (ℕ × PageOut)) (page : ℕ × PageOut)
      → AllPages pages
      → info.prepare page.0 ≡ some page.1
      → AllPages (pages ++ (page ∷ []))
  AllPages-append [] page all is = (is, tt)
  AllPages-append (first ∷ pages) page all is = (all.0, AllPages-append pages page all.1 is)

  pub record Owned (used : ℕ → Bool) (stored : ℕ → PageOut) (queues : ℕ → List PageFlag)
      (producers : ℕ → Producer) : Type 0 where
    pub held : (i b : ℕ) → holding (producers i) ≡ some b → used b ≡ true
    pub alone :
        (i j b : ℕ) → holding (producers i) ≡ some b → holding (producers j) ≡ some b → i ≡ j
    pub filling : (i : ℕ) → Filling (producers i) (queues i)
    pub tells :
        (i : ℕ) (f : PageFlag) → In f (queues i) → f.ready ≡ true → Tells used stored producers f
    pub single :
        (i j : ℕ) (f g : PageFlag)
        → In f (queues i)
        → In g (queues j)
        → f.ready ≡ true
        → g.ready ≡ true
        → f.is_zero ≡ false
        → g.is_zero ≡ false
        → f.index ≡ g.index
        → f.pfn ≡ g.pfn

  -- A flag that a thread publishes, of frame `p`, maybe with the buffer `b` that it gives away.
  abbrev pub New : (ℕ → Bool) → (ℕ → PageOut) → Producer → Producer → ℕ → ℕ → PageFlag → Type 0
  New used' stored' pc pc' b p f =
      (f.pfn ≡ p)
      × (((f.is_zero ≡ true) × (info.prepare p ≡ some zero_page))
          ⊎ ((f.is_zero ≡ false)
              × (f.index ≡ b)
              × (holding pc ≡ some b)
              × (holding pc' ≡ none)
              × (used' b ≡ true)
              × (info.prepare p ≡ some (stored' b))))

  module _ (i b p : ℕ) (used used' : ℕ → Bool) (stored stored' : ℕ → PageOut)
      (queues : ℕ → List PageFlag) (producers : ℕ → Producer) (queue' : List PageFlag)
      (pc' : Producer) (hold : (c : ℕ) → holding pc' ≡ some c → holding (producers i) ≡ some c)
      (used_kept : (c : ℕ)
        → (holding (producers i) ≡ some c → ⊥) ⊎ (holding pc' ≡ some c)
        → used c ≡ true
        → used' c ≡ true)
      (stored_kept : (c : ℕ) → (holding (producers i) ≡ some c → ⊥) → stored' c ≡ stored c)
      (fill' : Filling pc' queue')
      (flags : (f : PageFlag)
        → In f queue'
        → f.ready ≡ true
        → In f (queues i) ⊎ New used' stored' (producers i) pc' b p f)
      (owned : Owned used stored queues producers) where
    -- A thread that holds a buffer held it before.
    held_before :
        (j c : ℕ) → holding (set_at producers i pc' j) ≡ some c → holding (producers j) ≡ some c
    held_before j c is = elim (Bool-cases (j == i)) [
      | inl same ↦
          let e : j ≡ i = ground (arith, same) in
          let now : holding pc' ≡ some c =
            sym (ap (λ x. holding (if x then pc' else producers j)) same) ∙ is in
          ap (λ k. holding (producers k)) e ∙ hold c now
      | inr off ↦ sym (ap (λ x. holding (if x then pc' else producers j)) off) ∙ is
    ]

    held_now : (j c : ℕ) → holding (set_at producers i pc' j) ≡ some c → used' c ≡ true
    held_now j c is =
        let before = held_before j c is in
        used_kept c
          (elim (Bool-cases (j == i)) [
            | inl same ↦ inr (sym (ap (λ x. holding (if x then pc' else producers j)) same) ∙ is)
            | inr off ↦ inl (λ mine.
                let e = owned.alone i j c mine before in let no : ⊥ = ground (arith, off, e) in no)
          ])
          (owned.held j c before)

    -- A flag that was there before, or the new one, in whichever ring.
    flag_before :
        (j : ℕ) (f : PageFlag)
        → In f (set_at queues i queue' j)
        → f.ready ≡ true
        → In f (queues j) ⊎ New used' stored' (producers i) pc' b p f
    flag_before j f inside ready = elim (set_at-view queues i queue' j) [
      | inl e ↦
          let here =
            subst (In f) (ap (set_at queues i queue') e ∙ set_at-same queues i queue') inside in
          elim (flags f here ready) [
            | inl old ↦ inl (subst (λ k. In f (queues k)) (sym e) old)
            | inr new ↦ inr new
          ]
      | inr same ↦ inl (subst (In f) same inside)
    ]

    Tells-now :
        (f : PageFlag)
        → Tells used stored producers f
        → Tells used' stored' (set_at producers i pc') f
    Tells-now f (inl told) = inl told
    Tells-now f (inr (not_zero, is, at, free)) =
        let mine : holding (producers i) ≡ some f.index → ⊥ = free i in
        inr (
          not_zero,
          used_kept f.index (inl mine) is,
          at ∙ ap (λ x. some x) (sym (stored_kept f.index mine)),
          λ j holds. free j (held_before j f.index holds),
        )

    Tells-New :
        (f : PageFlag)
        → New used' stored' (producers i) pc' b p f
        → Tells used' stored' (set_at producers i pc') f
    Tells-New f (at, inl told) = inl (told.0, ap info.prepare at ∙ told.1)
    Tells-New f (at, inr (not_zero, index, mine, given, is, prepared)) = inr (
      not_zero,
      ap used' index ∙ is,
      ap info.prepare at ∙ prepared ∙ ap (λ c. some (stored' c)) (sym index),
      λ j holds.
          let before = held_before j f.index holds in
          let e = owned.alone j i f.index before (mine ∙ ap (λ c. some c) (sym index)) in
          let now : holding pc' ≡ some f.index =
            ap holding (sym (set_at-same producers i pc') ∙ ap (set_at producers i pc') (sym e))
            ∙ holds in
          none-ne-some _ (sym given ∙ now),
    )

    -- An old flag is not in the buffer that is given away.
    other_buffer :
        (j : ℕ) (f g : PageFlag)
        → In f (queues j)
        → f.ready ≡ true
        → f.is_zero ≡ false
        → New used' stored' (producers i) pc' b p g
        → g.is_zero ≡ false
        → f.index ≡ g.index
        → ⊥
    other_buffer j f g inside ready not_zero (at, inl told) not_zero' same =
        false≢true (sym not_zero' ∙ told.0)
    other_buffer j f g inside ready not_zero (at, inr new) not_zero' same =
        elim (owned.tells j f inside ready) [
          | inl told ↦ false≢true (sym not_zero ∙ told.0)
          | inr old ↦ old.3 i (new.2 ∙ ap (λ c. some c) (sym (same ∙ new.1)))
        ]

    pub Owned-move : Owned used' stored' (set_at queues i queue') (set_at producers i pc')
    Owned-move = record {
      held = held_now;
      alone = λ j k c one two. owned.alone j k c (held_before j c one) (held_before k c two);
      filling = λ j. elim (Bool-cases (j == i)) [
        | inl same ↦
            let e : i ≡ j = ground (arith, same) in
            subst (λ k. Filling (set_at producers i pc' k) (set_at queues i queue' k)) e
              (subst (Filling (set_at producers i pc' i)) (sym (set_at-same queues i queue'))
                (subst (λ pc. Filling pc queue') (sym (set_at-same producers i pc')) fill'))
        | inr off ↦
            subst (Filling (set_at producers i pc' j))
              (sym (ap (λ x. if x then queue' else queues j) off))
              (subst (λ pc. Filling pc (queues j))
                (sym (ap (λ x. if x then pc' else producers j) off)) (owned.filling j))
      ];
      tells = λ j f inside ready. elim (flag_before j f inside ready) [
        | inl old ↦ Tells-now f (owned.tells j f old ready)
        | inr new ↦ Tells-New f new
      ];
      single = λ j k f g one two ready ready' not_zero not_zero' same.
          elim (flag_before j f one ready) [
            | inl old ↦ elim (flag_before k g two ready') [
              | inl old' ↦ owned.single j k f g old old' ready ready' not_zero not_zero' same
              | inr new' ↦ absurd (other_buffer j f g old ready not_zero new' not_zero' same)
            ]
            | inr new ↦ elim (flag_before k g two ready') [
              | inl old' ↦ absurd (other_buffer k g f old' ready' not_zero' new not_zero (sym same))
              | inr new' ↦ new.0 ∙ sym new'.0
            ]
          ];
    }
