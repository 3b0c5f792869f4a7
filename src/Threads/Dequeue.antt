-- ===== src/Threads/Dequeue.antt =====
-- The steps of the main thread that take a flag out of a ring: the flag of the end, and that of a page
-- that is written.
use makedumpfile.Prelude.{
  ℕ, zero, suc, ◌+◌, ◌≤◌, ◌<◌, ◌≡◌, ap, ◌∙◌, sym, subst, true, false, ◌&&◌, List, [], ◌∷◌, ◌++◌,
  map, append-nil, ltb, leb, ◌==◌, if◌then◌else◌, arith, Bool-cases, inl, inr,
}
use mathlib.Core.Bool.{false≢true}
use makedumpfile.Threads.{PageFlag, Producer, ThreadsState, ThreadInfo, set_at, scan}
use makedumpfile.Threads.Queue.{has_pfn, one_if, Flags, IsThread}
use makedumpfile.Threads.Sum.{sum, sum_change, set_at-view, set_at-same}
use makedumpfile.Threads.Invariant.{pfn_of, ended, Inv, Knows, pfns_below}

module _ (info : ThreadInfo) (m i : ℕ) (s : ThreadsState) (flag : PageFlag) (queue : List PageFlag)
    (at : s.queues i ≡ flag ∷ queue) where
  pub member_rest :
      (j p : ℕ) → has_pfn p (set_at s.queues i queue j) ≡ true → has_pfn p (s.queues j) ≡ true
  member_rest j p inside = elim (set_at-view s.queues i queue j) [
    | inl e ↦
        let rest : has_pfn p queue ≡ true =
          ap (has_pfn p) (sym (set_at-same s.queues i queue) ∙ ap (set_at s.queues i queue) (sym e))
          ∙ inside in
        let all : has_pfn p (flag ∷ queue) ≡ true = ground (arith, rest) in
        ap (has_pfn p) (ap s.queues e ∙ at) ∙ all
    | inr same ↦ sym (ap (has_pfn p) same) ∙ inside
  ]

  pub member_left :
      (j p : ℕ)
      → has_pfn p (s.queues j) ≡ true
      → (flag.pfn == p) ≡ false
      → has_pfn p (set_at s.queues i queue j) ≡ true
  member_left j p inside other = elim (set_at-view s.queues i queue j) [
    | inl e ↦
        let all : has_pfn p (flag ∷ queue) ≡ true =
          ap (has_pfn p) (sym (ap s.queues e ∙ at)) ∙ inside in
        let rest : has_pfn p queue ≡ true = ground (arith, all, other) in
        ap (has_pfn p) (ap (set_at s.queues i queue) e ∙ set_at-same s.queues i queue) ∙ rest
    | inr same ↦ ap (has_pfn p) same ∙ inside
  ]

  -- A sum over the threads changes by what the flag counts for.
  pub sums_left :
      (f : Producer → List PageFlag → ℕ)
      → i < info.num_threads
      → sum info.num_threads (λ j. f (s.producers j) (set_at s.queues i queue j))
          + f (s.producers i) (flag ∷ queue)
        ≡ sum info.num_threads (λ j. f (s.producers j) (s.queues j)) + f (s.producers i) queue
  sums_left f less =
      let change =
        sum_change info.num_threads i (λ j. f (s.producers j) (s.queues j))
          (λ j. f (s.producers j) (set_at s.queues i queue j)) less
          (λ j. elim (set_at-view s.queues i queue j) [
            | inl e ↦ inl e
            | inr same ↦ inr (ap (f (s.producers j)) same)
          ]) in
      let one : f (s.producers i) (set_at s.queues i queue i) ≡ f (s.producers i) queue =
        ap (f (s.producers i)) (set_at-same s.queues i queue) in
      let two : f (s.producers i) (s.queues i) ≡ f (s.producers i) (flag ∷ queue) =
        ap (f (s.producers i)) at in
      omega (arith, change, one, two)

  pub IsThread-left :
      (m' : ℕ)
      → IsThread info s.current_pfn m' (s.producers i) queue
      → ((j : ℕ) → (j == i) ≡ false → IsThread info s.current_pfn m' (s.producers j) (s.queues j))
      → (j : ℕ) → IsThread info s.current_pfn m' (s.producers j) (set_at s.queues i queue j)
  IsThread-left m' here others j = elim (Bool-cases (j == i)) [
    | inl same ↦
        let e : i ≡ j = ground (arith, same) in
        subst (λ k. IsThread info s.current_pfn m' (s.producers k) (set_at s.queues i queue k)) e
          (subst (IsThread info s.current_pfn m' (s.producers i))
            (sym (set_at-same s.queues i queue)) here)
    | inr off ↦
        subst (IsThread info s.current_pfn m' (s.producers j))
          (sym (ap (λ b. if b then queue else s.queues j) off)) (others j off)
  ]

  -- The flag of the end is taken out and counted.
  pub end-Inv :
      (c k : ℕ)
      → i < info.num_threads
      → info.end_pfn ≤ flag.pfn
      → s.consumer ≡ scan i c k
      → Inv info m s
      → Inv info m (record s {
        queues = set_at s.queues i queue;
        end_count = s.end_count + 1;
        consumer = scan (i + 1) c k;
      })
  end-Inv c k less over at_scan inv =
      let thread = subst (IsThread info s.current_pfn m (s.producers i)) at (inv.threads i) in
      elim (thread.flags.1) [
        | inl (page, flags) ↦ (let no : ⊥ = omega (arith, page.1, over) in absurd no)
        | inr (above, not_ready, empty, at_last) ↦
            let all_taken = thread.ending at_last in
            let now : ended info (s.producers i) queue ≡ 1 =
              ap (ended info (s.producers i)) empty ∙ ap (λ b. one_if (b && true)) at_last in
            let before : ended info (s.producers i) (flag ∷ queue) ≡ 0 =
              ap (λ b. one_if (b && false)) at_last in
            let knows : Knows info m s.current_pfn s.queues (map pfn_of s.written) (scan i c k) =
              subst (Knows info m s.current_pfn s.queues (map pfn_of s.written)) at_scan
                inv.knows in
            record {
              low = inv.low;
              high = inv.high;
              taken = inv.taken;
              written = inv.written;
              threads =
                  IsThread-left m
                    (record {
                      flags = subst (Flags info s.current_pfn (s.producers i) m) (sym empty) tt;
                      posting = λ e. inl all_taken;
                      ending = thread.ending;
                    })
                    (λ j off. inv.threads j);
              cover = λ p from below in_cycle is.
                  let (j, in_range, inside) = inv.cover p from below in_cycle is in
                  (j, in_range, member_left j p inside (ground (arith, over, in_cycle)));
              unique = λ j l p below one two.
                  inv.unique j l p below (member_rest j p one) (member_rest l p two);
              counted = λ more. (let no : ⊥ = omega (arith, more, all_taken) in absurd no);
              ends = omega (arith, inv.ends, sums_left (ended info) less, now, before);
              knows = (
                knows.0,
                λ q next j below inside. elim (Bool-cases (ltb j i)) [
                  | inl seen ↦ knows.1 q next j (ground (arith, seen)) (member_rest j q inside)
                  | inr here ↦
                      let e : j ≡ i = ground (arith, here, below) in
                      let none : has_pfn q (set_at s.queues i queue j) ≡ false =
                        ap (has_pfn q)
                          (ap (set_at s.queues i queue) e ∙ set_at-same s.queues i queue ∙ empty) in
                      absurd (false≢true (sym none ∙ inside))
                ],
              );
            }
      ]

pub pfns_below_gap :
    (info : ThreadInfo) (m k : ℕ)
    → ((q : ℕ) → m ≤ q → q < m + k → info.dumpable q ≡ false)
    → pfns_below info (m + k) ≡ pfns_below info m
pfns_below_gap info m zero clear = ap (pfns_below info) {x = m + 0} {y = m} (omega arith)
pfns_below_gap info m (suc k) clear =
    let gap : (leb info.start_pfn (m + k) && info.dumpable (m + k)) ≡ false =
      ground (arith, clear (m + k) (omega arith) (omega arith)) in
    ap (pfns_below info) {x = m + suc k} {y = suc (m + k)} (omega arith)
    ∙ ap (λ b. pfns_below info (m + k) ++ (if b then (m + k) ∷ [] else [])) gap
    ∙ append-nil (pfns_below info (m + k))
    ∙ pfns_below_gap info m k (λ q low high. clear q low (omega (arith, high)))
