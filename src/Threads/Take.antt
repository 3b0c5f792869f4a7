-- ===== src/Threads/Take.antt =====
-- The step in which a thread takes the next dumpable frame, its last step, and all its steps.
use makedumpfile.Prelude.{
  ℕ, ◌+◌, ◌-◌, ◌≤◌, ◌<◌, ◌≡◌, ◌⊎◌, refl, ap, ◌∙◌, sym, subst, true, false, List, [], ◌∷◌, ◌++◌, map,
  length, length-append, ltb, leb, if◌then◌else◌, arith, Bool-cases, inl, inr,
}
use mathlib.Core.Bool.{false≢true}
use makedumpfile.Threads.{
  PageFlag, Producer, take_buffer, wait_flag, post, fill, leave, exited, failed, ThreadsState,
  ThreadInfo, set_at, wait_flag_step, leave_step, produce, produce_at, next_pfn, filling, Consumer,
  at_sem, scan, check, write, finished, gave_up,
}
use makedumpfile.Threads.Queue.{
  has_pfn, IsHead, at_end, Flags, IsThread, Flags-current, Flags-has_pfn, Flags-append,
  IsOpen-append, IsHead-append, has_pfn-append, next_pfn_lem,
}
use makedumpfile.Threads.Sum.{sum, sum_change, sum-positive, set_at-view, set_at-same}
use makedumpfile.Threads.Invariant.{pfn_of, posted, ended, Inv, Knows, IsNext, busy}
use makedumpfile.Threads.Producers.{Inv-pc, take_buffer-Inv, post-Inv, filled-Inv}

module _ (info : ThreadInfo) where
  IsThread-current :
      (current current' m : ℕ) (pc : Producer) (queue : List PageFlag)
      → ((p : ℕ) → p < current → p < info.end_pfn → p < current')
      → (info.end_pfn ≤ current → info.end_pfn ≤ current')
      → IsThread info current m pc queue
      → IsThread info current' m pc queue
  IsThread-current current current' m pc queue up over thread = record {
    flags = Flags-current info current current' m pc queue up thread.flags;
    posting = λ e. elim (thread.posting e) [ inl le ↦ inl (over le) | inr is ↦ inr is ];
    ending = λ e. over (thread.ending e);
  }

  -- What the main thread knows is of the frames that were taken before.
  Knows-next :
      (m current current' : ℕ) (queues : ℕ → List PageFlag) (pfns : List ℕ) (c : Consumer)
      → ((q : ℕ) → busy info c ≡ 1 → IsNext info m current' q → q < current)
      → Knows info m current queues pfns c
      → Knows info m current' queues pfns c
  Knows-next m current current' queues pfns at_sem old knows = tt
  Knows-next m current current' queues pfns (scan i c k) old (less, knows) =
      (less, λ q next. knows q (next.0, old q refl next, next.2, next.3, next.4))
  Knows-next m current current' queues pfns (check c k) old (less, knows) =
      (less, λ q next. knows q (next.0, old q refl next, next.2, next.3, next.4))
  Knows-next m current current' queues pfns (write k) old knows = knows
  Knows-next m current current' queues pfns finished old knows = knows
  Knows-next m current current' queues pfns gave_up old knows = tt

  -- All frames are taken, and the current one is set back to the end.
  Inv-close :
      (m : ℕ) (s : ThreadsState)
      → info.end_pfn ≤ s.current_pfn
      → Inv info m s
      → Inv info m (record s { current_pfn = info.end_pfn })
  Inv-close m s over inv = record {
    low = inv.low;
    high = inv.high;
    taken = inv.high;
    written = inv.written;
    threads = λ j.
        IsThread-current s.current_pfn info.end_pfn m (s.producers j) (s.queues j)
          (λ p below in_cycle. in_cycle) (λ le. omega arith) (inv.threads j);
    cover = λ p from below in_cycle is. inv.cover p from (omega (arith, below, over)) in_cycle is;
    unique = inv.unique;
    counted = λ more. (let no : ⊥ = omega (arith, more) in absurd no);
    ends = inv.ends;
    knows =
        Knows-next m s.current_pfn info.end_pfn s.queues (map pfn_of s.written) s.consumer
          (λ q is next. omega (arith, next.2, over)) inv.knows;
  }

  -- While the main thread has a flag to find, no frame is taken that is the next to be written.
  no_next :
      (m q : ℕ) (s : ThreadsState)
      → Inv info m s
      → busy info s.consumer ≡ 1
      → s.current_pfn ≤ q
      → q < info.end_pfn
      → ((p : ℕ) → m ≤ p → p < q → info.dumpable p ≡ false)
      → ⊥
  no_next m q s inv is above below clear =
      let count = inv.counted (omega (arith, above, below)) in
      let (j, less, positive) =
        sum-positive info.num_threads (λ j. posted (s.producers j) (s.queues j))
          (omega (arith, count, is)) in
      no_flag (s.producers j) (s.queues j) positive (inv.threads j)
    where
      no_flag :
          (pc : Producer) (queue : List PageFlag)
          → 0 < posted pc queue
          → IsThread info s.current_pfn m pc queue
          → ⊥
      no_flag pc [] positive thread = omega (arith, positive)
      no_flag pc (flag ∷ queue) positive thread = elim (thread.flags.1) [
        | inl (page, flags) ↦
            let gap = clear flag.pfn thread.flags.0 (omega (arith, page.0, above)) in
            false≢true (sym gap ∙ page.2)
        | inr last ↦ let over = thread.ending last.3 in omega (arith, over, above, below)
      ]

module _ (info : ThreadInfo) (m i : ℕ) (s : ThreadsState) (less : i < info.num_threads)
    (index : ℕ) where
  module _ (pfn : ℕ) (at : s.producers i ≡ wait_flag index) (inv : Inv info m s)
      (up : s.current_pfn ≤ pfn)
      (clear : (p : ℕ) → s.current_pfn ≤ p → p < pfn → info.dumpable p ≡ false)
      (kind : ((pfn < info.end_pfn) × (info.dumpable pfn ≡ true)) ⊎ (info.end_pfn ≤ pfn)) where
    abbrev new_queue : List PageFlag
    new_queue = s.queues i ++ (filling info pfn ∷ [])

    new-IsThread : IsThread info (pfn + 1) m (post index pfn) new_queue
    new-IsThread = record {
      flags =
          Flags-append info s.current_pfn m pfn (wait_flag index) (post index pfn) (s.queues i)
            (subst (λ pc. Flags info s.current_pfn pc m (s.queues i)) at ((inv.threads i).flags))
            refl up (omega (arith, inv.taken, up))
            (elim kind [ inl page ↦ inl page | inr over ↦ inr (over, ground (arith, over)) ]);
      posting = λ e. inr (IsOpen-append info (s.queues i) pfn);
      ending = λ e. ground (arith, e);
    }

    -- A frame of the flags was there before, or is the new one.
    member_before :
        (j p : ℕ)
        → has_pfn p (set_at s.queues i new_queue j) ≡ true
        → (has_pfn p (s.queues j) ≡ true) ⊎ ((j ≡ i) × (p ≡ pfn))
    member_before j p inside = elim (set_at-view s.queues i new_queue j) [
      | inl e ↦
          let now : has_pfn p new_queue ≡ true =
            ap (has_pfn p)
              (sym (set_at-same s.queues i new_queue) ∙ ap (set_at s.queues i new_queue) (sym e))
            ∙ inside in
          elim (Bool-cases (has_pfn p (s.queues i))) [
            | inl old ↦ inl (ap (λ k. has_pfn p (s.queues k)) e ∙ old)
            | inr out ↦ inr (e, ground (arith, has_pfn-append info (s.queues i) p pfn, now, out))
          ]
      | inr same ↦ inl (sym (ap (has_pfn p) same) ∙ inside)
    ]

    member_after :
        (j p : ℕ) → has_pfn p (s.queues j) ≡ true → has_pfn p (set_at s.queues i new_queue j) ≡ true
    member_after j p inside = elim (set_at-view s.queues i new_queue j) [
      | inl e ↦
          let old : has_pfn p (s.queues i) ≡ true =
            ap (λ k. has_pfn p (s.queues k)) (sym e) ∙ inside in
          let now : has_pfn p new_queue ≡ true =
            ground (arith, has_pfn-append info (s.queues i) p pfn, old) in
          ap (has_pfn p) (ap (set_at s.queues i new_queue) e ∙ set_at-same s.queues i new_queue)
          ∙ now
      | inr same ↦ ap (has_pfn p) same ∙ inside
    ]

    before_pfn : (j p : ℕ) → p < info.end_pfn → has_pfn p (s.queues j) ≡ true → p < s.current_pfn
    before_pfn j p below inside =
        (Flags-has_pfn info s.current_pfn m p (s.producers j) (s.queues j) ((inv.threads j).flags)
          inside below).1

    new_cover :
        (p : ℕ)
        → m ≤ p
        → p < pfn + 1
        → p < info.end_pfn
        → info.dumpable p ≡ true
        → (j : ℕ) × (j < info.num_threads) × (has_pfn p (set_at s.queues i new_queue j) ≡ true)
    new_cover p from below in_cycle is = elim (Bool-cases (ltb p s.current_pfn)) [
      | inl old ↦
          let (j, in_range, inside) = inv.cover p from (ground (arith, old)) in_cycle is in
          (j, in_range, member_after j p inside)
      | inr new ↦ elim (Bool-cases (ltb p pfn)) [
        | inl skipped ↦
            absurd (false≢true (sym (clear p (ground (arith, new)) (ground (arith, skipped))) ∙ is))
        | inr here ↦
            let same : p ≡ pfn = ground (arith, here, below) in
            let now : has_pfn p new_queue ≡ true =
              ground (arith, has_pfn-append info (s.queues i) p pfn, same) in
            (i, less, ap (has_pfn p) (set_at-same s.queues i new_queue) ∙ now)
      ]
    ]

    new_unique :
        (j k p : ℕ)
        → p < info.end_pfn
        → has_pfn p (set_at s.queues i new_queue j) ≡ true
        → has_pfn p (set_at s.queues i new_queue k) ≡ true
        → j ≡ k
    new_unique j k p below one two = elim (member_before j p one) [
      | inl old ↦ elim (member_before k p two) [
        | inl old' ↦ inv.unique j k p below old old'
        | inr new' ↦ (let no : ⊥ = omega (arith, before_pfn j p below old, new'.1, up) in absurd no)
      ]
      | inr new ↦ elim (member_before k p two) [
        | inl old' ↦ (let no : ⊥ = omega (arith, before_pfn k p below old', new.1, up) in absurd no)
        | inr new' ↦ new.0 ∙ sym new'.0
      ]
    ]

    -- Nothing changes for the main thread.
    new-Knows :
        (c : Consumer)
        → ((q : ℕ) → busy info c ≡ 1 → IsNext info m (pfn + 1) q → q < s.current_pfn)
        → Knows info m s.current_pfn s.queues (map pfn_of s.written) c
        → Knows info m (pfn + 1) (set_at s.queues i new_queue) (map pfn_of s.written) c
    new-Knows at_sem old knows = tt
    new-Knows (scan n c k) old (in_range, knows) = (
      in_range,
      λ q next j below inside. elim (member_before j q inside) [
        | inl before ↦ knows q (next.0, old q refl next, next.2, next.3, next.4) j below before
        | inr new ↦ (let no : ⊥ = omega (arith, old q refl next, new.1, up) in absurd no)
      ],
    )
    new-Knows (check c k) old (in_range, knows) =
        (in_range, λ q next. knows q (next.0, old q refl next, next.2, next.3, next.4))
    new-Knows (write k) old (in_range, (p, first, gap)) = (
      in_range,
      (
        p,
        elim (set_at-view s.queues i new_queue k) [
          | inl e ↦
              subst (IsHead p)
                (sym (ap (set_at s.queues i new_queue) e ∙ set_at-same s.queues i new_queue))
                (IsHead-append info (s.queues i) p pfn (subst (λ j. IsHead p (s.queues j)) e first))
          | inr same ↦ subst (IsHead p) (sym same) first
        ],
        gap,
      ),
    )
    new-Knows finished old knows = knows
    new-Knows gave_up old knows = tt

    take-Inv : Inv info m (record s {
      current_pfn = pfn + 1;
      queues = set_at s.queues i new_queue;
      producers = set_at s.producers i (post index pfn);
    })
    take-Inv =
        let view : (j : ℕ)
            → (j ≡ i)
              ⊎ ((set_at s.queues i new_queue j ≡ s.queues j)
                  × (set_at s.producers i (post index pfn) j ≡ s.producers j)) =
          λ j. (elim (set_at-view s.queues i new_queue j) [
            | inl e ↦ inl e
            | inr same ↦ elim (set_at-view s.producers i (post index pfn) j) [
              | inl e ↦ inl e
              | inr same' ↦ inr (same, same')
            ]
          ]) in
        let sums : (f : Producer → List PageFlag → ℕ)
            → sum info.num_threads
                  (λ j. f (set_at s.producers i (post index pfn) j) (set_at s.queues i new_queue j))
                + f (wait_flag index) (s.queues i)
              ≡ sum info.num_threads (λ j. f (s.producers j) (s.queues j))
                + f (post index pfn) new_queue =
          λ f.
            let change =
              sum_change info.num_threads i (λ j. f (s.producers j) (s.queues j))
                (λ j. f (set_at s.producers i (post index pfn) j) (set_at s.queues i new_queue j))
                less
                (λ j. elim (view j) [
                  | inl e ↦ inl e
                  | inr same ↦ inr (
                      ap (λ q. f (set_at s.producers i (post index pfn) j) q) same.0
                      ∙ ap (λ pc. f pc (s.queues j)) same.1)
                ]) in
            let one : f (set_at s.producers i (post index pfn) i) (set_at s.queues i new_queue i)
                ≡ f (post index pfn) new_queue =
              ap (λ pc. f pc (set_at s.queues i new_queue i))
                (set_at-same s.producers i (post index pfn))
              ∙ ap (f (post index pfn)) (set_at-same s.queues i new_queue) in
            let two : f (s.producers i) (s.queues i) ≡ f (wait_flag index) (s.queues i) =
              ap (λ pc. f pc (s.queues i)) at in
            omega (arith, change, one, two) in
        record {
          low = inv.low;
          high = inv.high;
          taken = omega (arith, inv.taken, up);
          written = inv.written;
          threads = λ j. elim (view j) [
            | inl e ↦
                subst
                  (λ k.
                    IsThread info (pfn + 1) m (set_at s.producers i (post index pfn) k)
                      (set_at s.queues i new_queue k))
                  (sym e)
                  (subst
                    (λ q. IsThread info (pfn + 1) m (set_at s.producers i (post index pfn) i) q)
                    (sym (set_at-same s.queues i new_queue))
                    (subst (λ pc. IsThread info (pfn + 1) m pc new_queue)
                      (sym (set_at-same s.producers i (post index pfn))) new-IsThread))
            | inr same ↦
                subst (λ q. IsThread info (pfn + 1) m (set_at s.producers i (post index pfn) j) q)
                  (sym same.0)
                  (subst (λ pc. IsThread info (pfn + 1) m pc (s.queues j)) (sym same.1)
                    (IsThread-current info s.current_pfn (pfn + 1) m (s.producers j) (s.queues j)
                      (λ p below in_cycle. omega (arith, below, up)) (λ le. omega (arith, le, up))
                      (inv.threads j)))
          ];
          cover = new_cover;
          unique = new_unique;
          counted = λ more. omega (
            arith,
            inv.counted (omega (arith, more, up)),
            sums posted,
            length-append {0} (s.queues i) (filling info pfn ∷ []),
          );
          ends = omega (arith, inv.ends, sums (ended info));
          knows =
              new-Knows s.consumer
                (λ q is next. elim (Bool-cases (ltb q s.current_pfn)) [
                  | inl old ↦ ground (arith, old)
                  | inr new ↦ absurd (no_next info m q s inv is (ground (arith, new)) next.2 next.4)
                ])
                inv.knows;
        }

  wait_flag-Inv :
      s.producers i ≡ wait_flag index → Inv info m s → Inv info m (wait_flag_step info s i index)
  wait_flag-Inv at inv =
      let pfn = next_pfn info (info.end_pfn - s.current_pfn) s.current_pfn in
      let (up, clear, kind) =
        next_pfn_lem info (info.end_pfn - s.current_pfn) s.current_pfn (omega arith) in
      let s' : ThreadsState = record s {
        current_pfn = pfn + 1;
        queues = set_at s.queues i (s.queues i ++ (filling info pfn ∷ []));
        producers = set_at s.producers i (post index pfn);
      } in
      elim (Bool-cases (leb info.num_flags (length (s.queues i)))) [
        | inl full ↦ subst (Inv info m) (sym (ap (λ b. if b then s else s') full)) inv
        | inr room ↦
            subst (Inv info m) (sym (ap (λ b. if b then s else s') room))
              (take-Inv pfn at inv up clear kind)
      ]

  leave-Inv : s.producers i ≡ leave index → Inv info m s → Inv info m (leave_step info s i index)
  leave-Inv at inv =
      Inv-close info m
        (record s { used = set_at s.used index false; producers = set_at s.producers i exited })
        ((inv.threads i).ending (ap (at_end info) at))
        (Inv-pc info m i s less (leave index) exited s.sem (set_at s.used index false) at refl refl
          (λ more. omega arith) inv)

module _ (info : ThreadInfo) (m i : ℕ) (s : ThreadsState) (less : i < info.num_threads) where
  produce_at-Inv :
      (pc : Producer) → s.producers i ≡ pc → Inv info m s → Inv info m (produce_at info s i pc)
  produce_at-Inv (take_buffer index) at inv = take_buffer-Inv info m i s less index at inv
  produce_at-Inv (wait_flag index) at inv = wait_flag-Inv info m i s less index at inv
  produce_at-Inv (post index pfn) at inv = post-Inv info m i s less index pfn at inv
  produce_at-Inv (fill index pfn) at inv =
      filled-Inv info m i s less index pfn (info.prepare pfn) at inv
  produce_at-Inv (leave index) at inv = leave-Inv info m i s less index at inv
  produce_at-Inv exited at inv = inv
  produce_at-Inv failed at inv = inv

  pub produce-Inv : Inv info m s → Inv info m (produce info s i)
  unfolding produce
  produce-Inv inv = produce_at-Inv (s.producers i) refl inv
