-- ===== src/Threads/Main.antt =====
-- The steps of the main thread.
use makedumpfile.Prelude.{
  ℕ, zero, suc, ◌+◌, ◌-◌, ◌≤◌, ◌<◌, ◌≡◌, refl, ap, ◌∙◌, sym, subst, true, false, not, List, [], ◌∷◌,
  map, ltb, leb, ◌==◌, if◌then◌else◌, arith, Bool-cases, inl, inr,
}
use mathlib.Core.Bool.{false≢true}
use makedumpfile.Threads.{
  PageFlag, ThreadsState, ThreadInfo, set_at, Consumer, at_sem, scan, check, write, sem_step,
  scan_flag, scan_step, check_flag, rescan,
}
use makedumpfile.Threads.Queue.{has_pfn, IsHead, IsThread, Flags-has_pfn}
use makedumpfile.Threads.Invariant.{pfn_of, Inv, Knows, IsNext, busy}
use makedumpfile.Threads.Dequeue.{end-Inv}

module _ (info : ThreadInfo) (some_thread : 0 < info.num_threads) (m : ℕ) (s : ThreadsState) where
  -- Only the main thread moves.
  pub Inv-consumer :
      (sem' : ℕ) (c : Consumer)
      → (sem' + busy info c ≤ s.sem + busy info s.consumer)
      → Knows info m s.current_pfn s.queues (map pfn_of s.written) c
      → Inv info m s
      → Inv info m (record s { sem = sem'; consumer = c })
  Inv-consumer sem' c count knows inv = record {
    low = inv.low;
    high = inv.high;
    taken = inv.taken;
    written = inv.written;
    threads = inv.threads;
    cover = inv.cover;
    unique = inv.unique;
    counted = λ more. omega (arith, inv.counted more, count);
    ends = inv.ends;
    knows = knows;
  }

  Knows-start :
      (k : ℕ)
      → k < info.num_threads
      → Knows info m s.current_pfn s.queues (map pfn_of s.written) (scan 0 info.end_pfn k)
  Knows-start k less =
      (less, λ q next j below inside. (let no : ⊥ = omega (arith, below) in absurd no))

  rescan-Inv :
      (k : ℕ)
      → k < info.num_threads
      → busy info s.consumer ≡ 1
      → Inv info m s
      → Inv info m (rescan info s k)
  rescan-Inv k less is inv =
      Inv-consumer s.sem (scan 0 info.end_pfn k) (omega (arith, is)) (Knows-start k less) inv

  pub sem-Inv : s.consumer ≡ at_sem → Inv info m s → Inv info m (sem_step info s)
  sem-Inv at inv =
      let s' : ThreadsState = record s { sem = s.sem - 1; consumer = scan 0 info.end_pfn 0 } in
      elim (Bool-cases (s.sem == 0)) [
        | inl none_left ↦ subst (Inv info m) (sym (ap (λ b. if b then s else s') none_left)) inv
        | inr some_left ↦ subst (Inv info m) (sym (ap (λ b. if b then s else s') some_left)) (
            Inv-consumer (s.sem - 1) (scan 0 info.end_pfn 0) (ground (arith, some_left))
              (Knows-start 0 some_thread) inv)
      ]

  Knows-at :
      (c : Consumer)
      → s.consumer ≡ c
      → Inv info m s
      → Knows info m s.current_pfn s.queues (map pfn_of s.written) c
  Knows-at c at inv =
      subst (Knows info m s.current_pfn s.queues (map pfn_of s.written)) at inv.knows

  -- The flags of one more thread are looked at.
  scan_flag-Inv :
      (i c k : ℕ) (queue : List PageFlag)
      → i < info.num_threads
      → s.consumer ≡ scan i c k
      → s.queues i ≡ queue
      → Inv info m s
      → Inv info m (scan_flag info s i c k queue)
  scan_flag-Inv i c k [] less at at_queue inv =
      let knows = Knows-at (scan i c k) at inv in
      Inv-consumer s.sem (scan (i + 1) c k) (omega (arith, ap (busy info) at))
        (
          knows.0,
          λ q next j below inside. elim (Bool-cases (ltb j i)) [
            | inl seen ↦ knows.1 q next j (ground (arith, seen)) inside
            | inr here ↦
                let e : j ≡ i = ground (arith, here, below) in
                absurd (false≢true (sym (ap (has_pfn q) (ap s.queues e ∙ at_queue)) ∙ inside))
          ],
        )
        inv
  scan_flag-Inv i c k (flag ∷ queue) less at at_queue inv =
      let knows = Knows-at (scan i c k) at inv in
      let thread = subst (IsThread info s.current_pfn m (s.producers i)) at_queue (inv.threads i) in
      let over = record s {
        queues = set_at s.queues i queue;
        end_count = s.end_count + 1;
        consumer = scan (i + 1) c k;
      } in
      let kept : ThreadsState = record s { consumer = scan (i + 1) c k } in
      let taken : ThreadsState = record s { consumer = scan (i + 1) flag.pfn i } in
      let smaller : (q : ℕ)
          → IsNext info m s.current_pfn q
          → has_pfn q (s.queues i) ≡ true
          → flag.pfn ≤ q =
        λ q next inside.
          let has : has_pfn q (flag ∷ queue) ≡ true = ap (has_pfn q) (sym at_queue) ∙ inside in
          (elim (thread.flags.1) [
            | inl (page, flags) ↦ elim (Bool-cases (flag.pfn == q)) [
              | inl same ↦ ground (arith, same)
              | inr other ↦
                  let later =
                    Flags-has_pfn info s.current_pfn (suc flag.pfn) q (s.producers i) queue flags
                      (ground (arith, has, other)) next.2 in
                  omega (arith, later.0)
            ]
            | inr last ↦
                let none : has_pfn q queue ≡ false = ap (has_pfn q) last.2 in
                ground (arith, none, has)
          ]) in
      let go : (c' k' : ℕ)
          → k' < info.num_threads
          → c' ≤ c
          → c' ≤ flag.pfn
          → Inv info m (record s { consumer = scan (i + 1) c' k' }) =
        λ c' k' in_range le le'.
          Inv-consumer s.sem (scan (i + 1) c' k') (omega (arith, ap (busy info) at))
            (
              in_range,
              λ q next j below inside. elim (Bool-cases (ltb j i)) [
                | inl seen ↦ omega (arith, knows.1 q next j (ground (arith, seen)) inside, le)
                | inr here ↦
                    let e : j ≡ i = ground (arith, here, below) in
                    omega (
                      arith,
                      smaller q next (ap (λ n. has_pfn q (s.queues n)) (sym e) ∙ inside),
                      le',
                    )
              ],
            )
            inv in
      elim (Bool-cases (leb info.end_pfn flag.pfn)) [
        | inl last ↦
            subst (Inv info m)
              (sym (ap (λ b. if b then over else if ltb c flag.pfn then kept else taken) last))
              (end-Inv info m i s flag queue at_queue c k less (ground (arith, last)) at inv)
        | inr page ↦
            subst (Inv info m)
              (sym (ap (λ b. if b then over else if ltb c flag.pfn then kept else taken) page))
              (elim (Bool-cases (ltb c flag.pfn)) [
                | inl above ↦
                    subst (Inv info m) (sym (ap (λ b. if b then kept else taken) above))
                      (go c k knows.0 (omega arith) (ground (arith, above)))
                | inr below ↦
                    subst (Inv info m) (sym (ap (λ b. if b then kept else taken) below))
                      (go flag.pfn i less (ground (arith, below)) (omega arith))
              ])
      ]

  pub scan-Inv :
      (i c k : ℕ) → s.consumer ≡ scan i c k → Inv info m s → Inv info m (scan_step info s i c k)
  scan-Inv i c k at inv =
      let knows = Knows-at (scan i c k) at inv in
      let more = scan_flag info s i c k (s.queues i) in
      let over : ThreadsState = record s { consumer = check c k } in
      elim (Bool-cases (ltb i info.num_threads)) [
        | inl below ↦
            subst (Inv info m) (sym (ap (λ b. if b then more else over) below))
              (scan_flag-Inv i c k (s.queues i) (ground (arith, below)) at refl inv)
        | inr above ↦ subst (Inv info m) (sym (ap (λ b. if b then more else over) above)) (
            Inv-consumer s.sem (check c k) (omega (arith, ap (busy info) at))
              (
                knows.0,
                λ q next.
                    let (j, in_range, inside) = inv.cover q next.0 next.1 next.2 next.3 in
                    knows.1 q next j (ground (arith, above, in_range)) inside,
              )
              inv)
      ]

  -- No dumpable frame is left before the one that the main thread found.
  clear_before :
      (p fuel : ℕ)
      → Inv info m s
      → p ≤ s.current_pfn
      → p ≤ info.end_pfn
      → ((q : ℕ) → IsNext info m s.current_pfn q → p ≤ q)
      → (q : ℕ) → m ≤ q
      → q < p
      → q < fuel
      → info.dumpable q ≡ false
  clear_before p zero inv le le' knows q low high less =
      let no : ⊥ = omega (arith, less) in absurd no
  clear_before p (suc fuel) inv le le' knows q low high less = elim (Bool-cases (info.dumpable q)) [
    | inl is ↦
        let least = knows q (
          low,
          omega (arith, high, le),
          omega (arith, high, le'),
          is,
          λ r from below.
              clear_before p fuel inv le le' knows r from (omega (arith, below, high))
                (omega (arith, below, less)),
        ) in
        (let no : ⊥ = omega (arith, least, high) in absurd no)
    | inr out ↦ out
  ]

  pub check_flag-Inv :
      (c k : ℕ) (queue : List PageFlag)
      → s.consumer ≡ check c k
      → s.queues k ≡ queue
      → Inv info m s
      → Inv info m (check_flag info s c k queue)
  check_flag-Inv c k [] at at_queue inv =
      let knows = Knows-at (check c k) at inv in rescan-Inv k knows.0 (ap (busy info) at) inv
  check_flag-Inv c k (flag ∷ queue) at at_queue inv =
      let knows = Knows-at (check c k) at inv in
      let again = rescan-Inv k knows.0 (ap (busy info) at) inv in
      let thread = subst (IsThread info s.current_pfn m (s.producers k)) at_queue (inv.threads k) in
      let found : ThreadsState = record s { consumer = write k } in
      elim (Bool-cases flag.ready) [
        | inr filling ↦
            subst (Inv info m)
              (sym (
                ap
                  (λ b.
                    if not b
                    then rescan info s k
                    else if c == flag.pfn
                    then found
                    else rescan info s k)
                  filling))
              again
        | inl ready ↦
            subst (Inv info m)
              (sym (
                ap
                  (λ b.
                    if not b
                    then rescan info s k
                    else if c == flag.pfn
                    then found
                    else rescan info s k)
                  ready))
              (elim (Bool-cases (c == flag.pfn)) [
                | inr other ↦
                    subst (Inv info m) (sym (ap (λ b. if b then found else rescan info s k) other))
                      again
                | inl same ↦
                    subst (Inv info m) (sym (ap (λ b. if b then found else rescan info s k) same))
                      (elim (thread.flags.1) [
                        | inr last ↦ absurd (false≢true (sym last.1 ∙ ready))
                        | inl (page, flags) ↦
                            let e : c ≡ flag.pfn = ground (arith, same) in
                            Inv-consumer s.sem (write k) (omega (arith, ap (busy info) at))
                              (
                                knows.0,
                                (
                                  flag.pfn,
                                  subst (IsHead flag.pfn) (sym at_queue) (ready, refl),
                                  λ q low high.
                                      clear_before flag.pfn (suc q) inv (omega (arith, page.0))
                                        (omega (arith, page.1))
                                        (λ r next. omega (arith, knows.1 r next, e)) q low high
                                        (omega arith),
                                ),
                              )
                              inv
                      ])
              ])
      ]
