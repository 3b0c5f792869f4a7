-- ===== src/Threads/Write.antt =====
-- The last steps of the main thread: a page is written, or all threads have come to the end.
use makedumpfile.Prelude.{
  ℕ, suc, ◌+◌, ◌-◌, ◌≤◌, ◌<◌, ◌≡◌, refl, ap, ◌∙◌, sym, subst, true, false, ◌&&◌, List, [], ◌∷◌,
  ◌++◌, map, length, ltb, leb, ◌==◌, if◌then◌else◌, arith, Bool-cases, inl, inr,
}
use mathlib.Core.Bool.{false≢true}
use makedumpfile.Threads.{
  PageFlag, PageOut, zero_page, Producer, ThreadsState, ThreadInfo, write, write_flag,
}
use makedumpfile.Threads.Queue.{has_pfn, is_post, IsOpen, IsHead, one_if, at_end, Flags, IsThread}
use makedumpfile.Threads.Invariant.{pfn_of, posted, ended, Inv, Knows, busy, pfns_below}
use makedumpfile.Threads.Dequeue.{
  member_rest, member_left, sums_left, IsThread-left, pfns_below_gap,
}

map-snoc :
    (xs : List (ℕ × PageOut)) (x : ℕ × PageOut)
    → map pfn_of (xs ++ (x ∷ [])) ≡ map pfn_of xs ++ (x.0 ∷ [])
map-snoc [] x = refl
map-snoc (y ∷ xs) x = ap (λ l. y.0 ∷ l) (map-snoc xs x)

IsOpen-rest :
    (flag : PageFlag) (queue : List PageFlag)
    → flag.ready ≡ true
    → IsOpen (flag ∷ queue)
    → IsOpen queue × (0 < length queue)
IsOpen-rest flag [] ready is = absurd (false≢true (sym is ∙ ready))
IsOpen-rest flag (next ∷ queue) ready is = (is, omega arith)

module _ (info : ThreadInfo) (m : ℕ) (s : ThreadsState) where
  -- The frame that is written is the next one.
  pfns_next :
      (p : ℕ)
      → info.start_pfn ≤ m
      → m ≤ p
      → info.dumpable p ≡ true
      → ((q : ℕ) → m ≤ q → q < p → info.dumpable q ≡ false)
      → pfns_below info (suc p) ≡ pfns_below info m ++ (p ∷ [])
  pfns_next p low from is clear =
      let gap =
        pfns_below_gap info m (p - m)
          (λ q above below. clear q above (omega (arith, below, from))) in
      let same : pfns_below info p ≡ pfns_below info m =
        ap (pfns_below info) {x = p} {y = m + (p - m)} (omega (arith, from)) ∙ gap in
      let here : (leb info.start_pfn p && info.dumpable p) ≡ true = ground (arith, low, from, is) in
      ap (λ b. pfns_below info p ++ (if b then p ∷ [] else [])) here ∙ ap (λ l. l ++ (p ∷ [])) same

  pub write_flag-Inv :
      (k : ℕ) (queue : List PageFlag)
      → s.consumer ≡ write k
      → s.queues k ≡ queue
      → Inv info m s
      → (m' : ℕ) × Inv info m' (write_flag info s k queue)
  write_flag-Inv k [] at at_queue inv = (m, inv)
  write_flag-Inv k (flag ∷ queue) at at_queue inv =
      let (less, (p, head, gap)) =
        subst (Knows info m s.current_pfn s.queues (map pfn_of s.written)) at inv.knows in
      let first : IsHead p (flag ∷ queue) = subst (IsHead p) at_queue head in
      let clear : (q : ℕ) → m ≤ q → q < flag.pfn → info.dumpable q ≡ false =
        λ q from below. gap q from (omega (arith, below, first.1)) in
      let thread = subst (IsThread info s.current_pfn m (s.producers k)) at_queue (inv.threads k) in
      elim (thread.flags.1) [
        | inr last ↦ absurd (false≢true (sym last.1 ∙ first.0))
        | inl (page, flags) ↦
            let written : ℕ × PageOut =
              (flag.pfn, (if flag.is_zero then zero_page else s.stored flag.index)) in
            let mine : has_pfn flag.pfn (s.queues k) ≡ true =
              ap (has_pfn flag.pfn) at_queue ∙ ground arith in
            (
              suc flag.pfn,
              record {
                low = omega (arith, inv.low, thread.flags.0);
                high = omega (arith, page.1);
                taken = omega (arith, page.0);
                written =
                    map-snoc s.written written
                    ∙ ap (λ l. l ++ (flag.pfn ∷ [])) inv.written
                    ∙ sym (pfns_next flag.pfn inv.low thread.flags.0 page.2 clear);
                threads =
                    IsThread-left info m k s flag queue at_queue (suc flag.pfn)
                      (record {
                        flags = flags;
                        posting = λ e. elim (thread.posting e) [
                          | inl over ↦ inl over
                          | inr is ↦ inr ((IsOpen-rest flag queue first.0 is).0)
                        ];
                        ending = thread.ending;
                      })
                      (λ j off. record {
                        flags =
                            above_written flag.pfn page.1 (s.producers j) (s.queues j) clear
                              (λ inside.
                                (let e = inv.unique j k flag.pfn page.1 inside mine in
                                  let no : ⊥ = ground (arith, off, e) in absurd no))
                              ((inv.threads j).flags);
                        posting = (inv.threads j).posting;
                        ending = (inv.threads j).ending;
                      });
                cover = λ q from below in_cycle is.
                    let (j, in_range, inside) =
                      inv.cover q (omega (arith, from, thread.flags.0)) below in_cycle is in
                    (
                      j,
                      in_range,
                      member_left info m k s flag queue at_queue j q inside (ground (arith, from)),
                    );
                unique = λ j l q below one two.
                    inv.unique j l q below (member_rest info m k s flag queue at_queue j q one)
                      (member_rest info m k s flag queue at_queue l q two);
                counted = λ more. omega (
                  arith,
                  inv.counted more,
                  sums_left info m k s flag queue at_queue posted less,
                  ap (busy info) at,
                  posted_rest more page.0 flag queue first.0 thread,
                );
                ends = omega (
                  arith,
                  inv.ends,
                  sums_left info m k s flag queue at_queue (ended info) less,
                  ended_more (s.producers k) flag queue,
                );
                knows = tt;
              },
            )
      ]
    where
      -- A flag that is left is above the frame that is written.
      above_written :
          (pfn : ℕ)
          → pfn < info.end_pfn
          → (pc : Producer) (rest : List PageFlag)
          → ((q : ℕ) → m ≤ q → q < pfn → info.dumpable q ≡ false)
          → (has_pfn pfn rest ≡ true → ⊥)
          → Flags info s.current_pfn pc m rest
          → Flags info s.current_pfn pc (suc pfn) rest
      above_written pfn below pc [] clear other flags = tt
      above_written pfn below pc (g ∷ rest) clear other (le, inl (page, flags)) =
          let not_lower : pfn ≤ g.pfn = elim (Bool-cases (ltb g.pfn pfn)) [
            | inl lower ↦
                absurd (false≢true (sym (clear g.pfn le (ground (arith, lower))) ∙ page.2))
            | inr above ↦ ground (arith, above)
          ] in
          let apart : (g.pfn == pfn) ≡ false = elim (Bool-cases (g.pfn == pfn)) [
            | inl same ↦ absurd (other (ground (arith, same)))
            | inr off ↦ off
          ] in
          (ground (arith, not_lower, apart), inl (page, flags))
      above_written pfn below pc (g ∷ rest) clear other (le, inr last) =
          (omega (arith, last.0, below), inr last)

      posted_rest :
          s.current_pfn < info.end_pfn
          → {p : ℕ} → p < s.current_pfn
          → (flag : PageFlag) (queue : List PageFlag) → flag.ready ≡ true
          → IsThread info s.current_pfn m (s.producers k) (flag ∷ queue)
          → posted (s.producers k) (flag ∷ queue) ≡ suc (posted (s.producers k) queue)
      posted_rest more below flag queue ready thread = elim (Bool-cases (is_post (s.producers k))) [
        | inl posting ↦ elim (thread.posting posting) [
          | inl over ↦ (let no : ⊥ = omega (arith, over, more) in absurd no)
          | inr is ↦
              let left = (IsOpen-rest flag queue ready is).1 in
              let one : one_if (is_post (s.producers k)) ≡ 1 = ap one_if posting in
              omega (arith, left, one)
        ]
        | inr quiet ↦
            let none : one_if (is_post (s.producers k)) ≡ 0 = ap one_if quiet in omega (arith, none)
      ]

      ended_more :
          (pc : Producer) (flag : PageFlag) (queue : List PageFlag)
          → ended info pc (flag ∷ queue) ≤ ended info pc queue
      ended_more pc flag queue = elim (Bool-cases (at_end info pc)) [
        | inl last ↦
            let none : ended info pc (flag ∷ queue) ≡ 0 = ap (λ b. one_if (b && false)) last in
            omega (arith, none)
        | inr busy_one ↦
            let none : ended info pc (flag ∷ queue) ≡ 0 = ap (λ b. one_if (b && false)) busy_one in
            omega (arith, none)
      ]
