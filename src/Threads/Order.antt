-- ===== src/Threads/Order.antt =====
-- The pages are written in the order of their frames, whatever the threads do.
use makedumpfile.Prelude.{
  ℕ, zero, suc, ◌+◌, ◌-◌, ◌≤◌, ◌<◌, ◌≡◌, refl, ap, ◌∙◌, sym, subst, true, false, ◌&&◌, List, [],
  ◌∷◌, ◌++◌, map, ltb, leb, if◌then◌else◌, arith, Bool-cases, inl, inr,
}
use mathlib.Core.Bool.{false≢true}
use makedumpfile.Threads.{
  PageFlag, Producer, take_buffer, exited, ThreadsState, ThreadInfo, Consumer, at_sem, scan, check,
  write, finished, gave_up, check_flag, check_step, consume_at, consume, started, Reachable, start,
  by_thread, by_main, by_giving_up,
}
use makedumpfile.Threads.Queue.{has_pfn, is_empty, one_if, at_end, IsThread}
use makedumpfile.Threads.Sum.{sum_full}
use makedumpfile.Threads.Invariant.{pfn_of, ended, Inv, Knows, busy, pfns_below}
use makedumpfile.Threads.Dequeue.{pfns_below_gap}
use makedumpfile.Threads.Take.{produce-Inv}
use makedumpfile.Threads.Main.{Inv-consumer, sem-Inv, scan-Inv, check_flag-Inv}
use makedumpfile.Threads.Write.{write_flag-Inv}

module _ (info : ThreadInfo) (some_thread : 0 < info.num_threads) where
  ended_at :
      (pc : Producer) (queue : List PageFlag)
      → ended info pc queue ≡ 1
      → (at_end info pc ≡ true) × (queue ≡ [])
  ended_at pc [] e = (
    elim (Bool-cases (at_end info pc)) [
      | inl last ↦ last
      | inr more ↦ (let no : ⊥ = omega (arith, e, ap (λ b. one_if (b && true)) more) in absurd no)
    ],
    refl,
  )
  ended_at pc (flag ∷ queue) e = elim (Bool-cases (at_end info pc)) [
    | inl last ↦ (let no : ⊥ = omega (arith, e, ap (λ b. one_if (b && false)) last) in absurd no)
    | inr more ↦ (let no : ⊥ = omega (arith, e, ap (λ b. one_if (b && false)) more) in absurd no)
  ]

  ended_bound : (pc : Producer) (queue : List PageFlag) → ended info pc queue ≤ 1
  ended_bound pc queue = elim (Bool-cases (at_end info pc && is_empty queue)) [
    | inl last ↦ omega (arith, ap one_if last)
    | inr more ↦ omega (arith, ap one_if more)
  ]

  -- If the end of every thread was seen, all dumpable frames are written.
  finished-pfns :
      (m : ℕ) (s : ThreadsState)
      → info.num_threads ≤ s.end_count
      → Inv info m s
      → map pfn_of s.written ≡ pfns_below info info.end_pfn
  finished-pfns m s all inv =
      let seen : (j : ℕ)
          → j < info.num_threads
          → (at_end info (s.producers j) ≡ true) × (s.queues j ≡ []) =
        λ j less. ended_at (s.producers j) (s.queues j) (
          sum_full info.num_threads (λ i. ended info (s.producers i) (s.queues i))
            (λ i. ended_bound (s.producers i) (s.queues i)) (omega (arith, all, inv.ends)) j
            less) in
      let over : info.end_pfn ≤ s.current_pfn = (inv.threads 0).ending ((seen 0 some_thread).0) in
      let clear : (q : ℕ) → m ≤ q → q < m + (info.end_pfn - m) → info.dumpable q ≡ false =
        λ q low high. (elim (Bool-cases (info.dumpable q)) [
          | inl is ↦
              let below : q < info.end_pfn = omega (arith, high, inv.high) in
              let (j, in_range, inside) = inv.cover q low (omega (arith, below, over)) below is in
              absurd (false≢true (sym (ap (has_pfn q) ((seen j in_range).1)) ∙ inside))
          | inr out ↦ out
        ]) in
      inv.written
      ∙ sym (pfns_below_gap info m (info.end_pfn - m) clear)
      ∙ ap (pfns_below info) {x = m + (info.end_pfn - m)} {y = info.end_pfn}
          (omega (arith, inv.high))

  check-Inv :
      (m : ℕ) (s : ThreadsState) (c k : ℕ)
      → s.consumer ≡ check c k
      → Inv info m s
      → Inv info m (check_step info s c k)
  check-Inv m s c k at inv =
      let over : ThreadsState = record s { consumer = finished } in
      let more = check_flag info s c k (s.queues k) in
      elim (Bool-cases (leb info.num_threads s.end_count)) [
        | inl all ↦ subst (Inv info m) (sym (ap (λ b. if b then over else more) all)) (
            Inv-consumer info some_thread m s s.sem finished (omega (arith, ap (busy info) at))
              (finished-pfns m s (ground (arith, all)) inv) inv)
        | inr left ↦
            subst (Inv info m) (sym (ap (λ b. if b then over else more) left))
              (check_flag-Inv info some_thread m s c k (s.queues k) at refl inv)
      ]

  consume_at-Inv :
      (m : ℕ) (s : ThreadsState) (c : Consumer)
      → s.consumer ≡ c
      → Inv info m s
      → (m' : ℕ) × Inv info m' (consume_at info s c)
  consume_at-Inv m s at_sem at inv = (m, sem-Inv info some_thread m s at inv)
  consume_at-Inv m s (scan i c k) at inv = (m, scan-Inv info some_thread m s i c k at inv)
  consume_at-Inv m s (check c k) at inv = (m, check-Inv m s c k at inv)
  consume_at-Inv m s (write k) at inv = write_flag-Inv info m s k (s.queues k) at refl inv
  consume_at-Inv m s finished at inv = (m, inv)
  consume_at-Inv m s gave_up at inv = (m, inv)

  consume-Inv : (m : ℕ) (s : ThreadsState) → Inv info m s → (m' : ℕ) × Inv info m' (consume info s)
  unfolding consume
  consume-Inv m s inv = consume_at-Inv m s s.consumer refl inv

  pfns_below_start : (n : ℕ) → n ≤ info.start_pfn → pfns_below info n ≡ []
  pfns_below_start zero le = refl
  pfns_below_start (suc n) le =
      let out : (leb info.start_pfn n && info.dumpable n) ≡ false = ground (arith, le) in
      ap (λ b. pfns_below info n ++ (if b then n ∷ [] else [])) out
      ∙ ap (λ l. l ++ []) (pfns_below_start n (omega (arith, le)))

  started-Inv : info.start_pfn ≤ info.end_pfn → Inv info info.start_pfn (started info)
  started-Inv le = record {
    low = omega arith;
    high = le;
    taken = omega arith;
    written = sym (pfns_below_start info.start_pfn (omega arith));
    threads = λ i. first i;
    cover = λ p from below in_cycle is. (let no : ⊥ = omega (arith, from, below) in absurd no);
    unique = λ i j p below one two. absurd (false≢true one);
    counted = λ more. omega arith;
    ends = omega arith;
    knows = tt;
  }
    where
      first :
          (i : ℕ)
          → IsThread info info.start_pfn info.start_pfn
              (if ltb info.start_pfn info.end_pfn then take_buffer i else exited)
              []
      first i = elim (Bool-cases (ltb info.start_pfn info.end_pfn)) [
        | inl some_pfns ↦
            subst (λ pc. IsThread info info.start_pfn info.start_pfn pc [])
              (sym (ap (λ b. if b then take_buffer i else exited) some_pfns))
              (record {
                flags = tt;
                posting = λ e. absurd (false≢true e);
                ending = λ e. absurd (false≢true e);
              })
        | inr none ↦
            subst (λ pc. IsThread info info.start_pfn info.start_pfn pc [])
              (sym (ap (λ b. if b then take_buffer i else exited) none))
              (record {
                flags = tt;
                posting = λ e. absurd (false≢true e);
                ending = λ e. ground (arith, none);
              })
      ]

  pub Reachable-Inv :
      {s : ThreadsState} → info.start_pfn ≤ info.end_pfn → Reachable info s → (m : ℕ) × Inv info m s
  Reachable-Inv le start = (info.start_pfn, started-Inv le)
  Reachable-Inv le (by_thread {s} i less r) =
      let (m, inv) = Reachable-Inv le r in (m, produce-Inv info m i s less inv)
  Reachable-Inv le (by_main {s} r) = let (m, inv) = Reachable-Inv le r in consume-Inv m s inv
  Reachable-Inv le (by_giving_up {s} r) =
      let (m, inv) = Reachable-Inv le r in
      (m, Inv-consumer info some_thread m s s.sem gave_up (omega arith) tt inv)

-- Whatever steps the threads and the main thread make, in whatever order: the frames of the pages that
-- are written are the dumpable ones of the cycle below some frame, each once and in ascending order,
-- and when the main thread has finished they are all of the cycle.
pub Reachable-pfns_below :
    (info : ThreadInfo) {s : ThreadsState}
    → 0 < info.num_threads
    → info.start_pfn ≤ info.end_pfn
    → Reachable info s
    → ((m : ℕ) × (m ≤ info.end_pfn) × (map pfn_of s.written ≡ pfns_below info m))
      × (s.consumer ≡ finished → map pfn_of s.written ≡ pfns_below info info.end_pfn)
Reachable-pfns_below info {s} some_thread le r =
    let (m, inv) = Reachable-Inv info some_thread le r in
    (
      (m, inv.high, inv.written),
      λ e. subst (Knows info m s.current_pfn s.queues (map pfn_of s.written)) e inv.knows,
    )
