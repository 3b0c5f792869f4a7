-- ===== src/Threads/Written.antt =====
-- The pages that are written, over all steps: the frames and what is written for them.
use makedumpfile.Prelude.{
  Bool, true, false, ◌⊎◌, ℕ, ◌+◌, ◌-◌, ◌≤◌, ◌<◌, ◌≡◌, refl, ap, ◌∙◌, sym, subst, not, none, List,
  [], ◌∷◌, map, ltb, leb, ◌==◌, if◌then◌else◌, arith, Bool-cases, inl, inr,
}
use mathlib.Core.Bool.{false≢true}
use mathlib.Core.Option.{none-ne-some}
use makedumpfile.Threads.{
  PageFlag, take_buffer, exited, ThreadsState, ThreadInfo, set_at, Consumer, at_sem, scan, check,
  write, finished, gave_up, rescan, scan_flag, check_flag, write_flag, consume_at, consume, started,
  Reachable, start, by_thread, by_main, by_giving_up,
}
use makedumpfile.Threads.Queue.{IsHead, IsThread}
use makedumpfile.Threads.Invariant.{pfn_of, Inv, Knows, pfns_below}
use makedumpfile.Threads.Order.{Reachable-Inv}
use makedumpfile.Threads.Buffers.{holding, Filling, AllPages}
use makedumpfile.Threads.Published.{produce-IsOwned, produce-written}
use makedumpfile.Threads.Pages.{
  Good, if-Good, at_end-Filling, In-rest, Owned-dequeue, write_flag-Good,
}

module _ (info : ThreadInfo) where
  scan_flag-Good :
      (m : ℕ) (s : ThreadsState) (i c k : ℕ) (queue : List PageFlag)
      → s.queues i ≡ queue
      → Inv info m s
      → Good info s
      → Good info (scan_flag info s i c k queue)
  scan_flag-Good m s i c k [] at inv good = good
  scan_flag-Good m s i c k (flag ∷ queue) at inv good =
      let over : ThreadsState = record s {
        queues = set_at s.queues i queue;
        end_count = s.end_count + 1;
        consumer = scan (i + 1) c k;
      } in
      let kept : ThreadsState = record s { consumer = scan (i + 1) c k } in
      let taken : ThreadsState = record s { consumer = scan (i + 1) flag.pfn i } in
      let page : ThreadsState = if ltb c flag.pfn then kept else taken in
      let thread = subst (IsThread info s.current_pfn m (s.producers i)) at (inv.threads i) in
      elim (Bool-cases (leb info.end_pfn flag.pfn)) [
        | inr more ↦
            subst (Good info) (sym (ap (λ b. if b then over else page) more))
              (if-Good info (ltb c flag.pfn) kept taken good good)
        | inl last ↦
            subst (Good info) (sym (ap (λ b. if b then over else page) last))
              (elim (thread.flags.1) [
                | inl (is, flags) ↦ (let no : ⊥ = ground (arith, is.1, last) in absurd no)
                | inr (above, not_ready, empty, ending) ↦ (
                  Owned-dequeue info s i flag queue at good.0 s.used
                      (at_end-Filling info (s.producers i) queue ending) good.0.held
                      (λ j f inside ready not_zero.
                        elim (good.0.tells j f (In-rest info s i flag queue at good.0 j f inside)
                          ready) [
                            | inl told ↦ absurd (false≢true (sym not_zero ∙ told.0))
                            | inr told ↦ told.1
                          ]),
                  good.1,
                )
              ])
      ]

  check_flag-Good :
      (s : ThreadsState) (c k : ℕ) (queue : List PageFlag)
      → Good info s
      → Good info (check_flag info s c k queue)
  check_flag-Good s c k [] good = good
  check_flag-Good s c k (flag ∷ queue) good =
      let again = rescan info s k in
      let found : ThreadsState = record s { consumer = write k } in
      if-Good info (not flag.ready) again (if c == flag.pfn then found else again) good
        (if-Good info (c == flag.pfn) found again good good)

  write-Good :
      (m : ℕ) (s : ThreadsState) (k : ℕ) (queue : List PageFlag)
      → s.queues k ≡ queue
      → s.consumer ≡ write k
      → Inv info m s
      → Good info s
      → Good info (write_flag info s k queue)
  write-Good m s k [] at is inv good = good
  write-Good m s k (flag ∷ queue) at is inv good =
      let (less, (p, head, clear)) =
        subst (Knows info m s.current_pfn s.queues (map pfn_of s.written)) is inv.knows in
      write_flag-Good info s k flag queue at good.0 m inv ((subst (IsHead p) at head).0) good.1

  consume_at-Good :
      (m : ℕ) (s : ThreadsState) (c : Consumer)
      → s.consumer ≡ c
      → Inv info m s
      → Good info s
      → Good info (consume_at info s c)
  consume_at-Good m s at_sem at inv good =
      if-Good info (s.sem == 0) s (record s { sem = s.sem - 1; consumer = scan 0 info.end_pfn 0 })
        good good
  consume_at-Good m s (scan i c k) at inv good =
      if-Good info (ltb i info.num_threads) (scan_flag info s i c k (s.queues i))
        (record s { consumer = check c k }) (scan_flag-Good m s i c k (s.queues i) refl inv good)
        good
  consume_at-Good m s (check c k) at inv good =
      if-Good info (leb info.num_threads s.end_count) (record s { consumer = finished })
        (check_flag info s c k (s.queues k)) good (check_flag-Good s c k (s.queues k) good)
  consume_at-Good m s (write k) at inv good = write-Good m s k (s.queues k) refl at inv good
  consume_at-Good m s finished at inv good = good
  consume_at-Good m s gave_up at inv good = good

  consume-Good :
      (m : ℕ) (s : ThreadsState) → Inv info m s → Good info s → Good info (consume info s)
  unfolding consume
  consume-Good m s inv good = consume_at-Good m s s.consumer refl inv good

  -- At the start no thread holds a buffer.
  started-Good : Good info (started info)
  started-Good =
      let none_held : (i : ℕ) → holding ((started info).producers i) ≡ none = λ i.
        (elim (Bool-cases (ltb info.start_pfn info.end_pfn)) [
          | inl e ↦ ap (λ b. holding (if b then take_buffer i else exited)) e
          | inr e ↦ ap (λ b. holding (if b then take_buffer i else exited)) e
        ]) in
      (
        record {
          held = λ i b is. absurd (none-ne-some _ (sym (none_held i) ∙ is));
          alone = λ i j b is. absurd (none-ne-some _ (sym (none_held i) ∙ is));
          filling = λ i. elim (Bool-cases (ltb info.start_pfn info.end_pfn)) [
            | inl e ↦
                subst (λ pc. Filling info pc [])
                  (sym (ap (λ b. if b then take_buffer i else exited) e)) tt
            | inr e ↦
                subst (λ pc. Filling info pc [])
                  (sym (ap (λ b. if b then take_buffer i else exited) e)) tt
          ];
          tells = λ i f inside. absurd inside;
          single = λ i j f g inside. absurd inside;
        },
        tt,
      )

  Reachable-Good :
      {s : ThreadsState}
      → 0 < info.num_threads
      → info.start_pfn ≤ info.end_pfn
      → Reachable info s
      → Good info s
  Reachable-Good some_thread le start = started-Good
  Reachable-Good some_thread le (by_thread {s} i less r) =
      let good = Reachable-Good some_thread le r in
      (
        produce-IsOwned info i s good.0,
        subst (AllPages info) (sym (produce-written info i s)) good.1,
      )
  Reachable-Good some_thread le (by_main {s} r) =
      let (m, inv) = Reachable-Inv info some_thread le r in
      consume-Good m s inv (Reachable-Good some_thread le r)
  Reachable-Good some_thread le (by_giving_up {s} r) = Reachable-Good some_thread le r

abbrev pub is_finished : Consumer → Bool
is_finished at_sem = false
is_finished (scan i current_pfn consuming) = false
is_finished (check current_pfn consuming) = false
is_finished (write consuming) = false
is_finished finished = true
is_finished gave_up = false

at_finish :
    (info : ThreadInfo) (m current : ℕ) (queues : ℕ → List PageFlag) (pfns : List ℕ) (c : Consumer)
    → Knows info m current queues pfns c
    → (is_finished c ≡ false) ⊎ (pfns ≡ pfns_below info info.end_pfn)
at_finish info m current queues pfns at_sem knows = inl refl
at_finish info m current queues pfns (scan i c k) knows = inl refl
at_finish info m current queues pfns (check c k) knows = inl refl
at_finish info m current queues pfns (write k) knows = inl refl
at_finish info m current queues pfns finished knows = inr knows
at_finish info m current queues pfns gave_up knows = inl refl

-- Take a state that the threads and the main thread reach by any steps in any order, with at least one
-- thread. What is written is, for the dumpable frames of the cycle below some frame, each once and in
-- ascending order, the page that preparing the frame gives, never what another thread put into a
-- buffer; and if the main thread has finished, that is so for all dumpable frames of the cycle.
pub Reachable-AllPages :
    (info : ThreadInfo) {s : ThreadsState}
    → 0 < info.num_threads
    → info.start_pfn ≤ info.end_pfn
    → Reachable info s
    → AllPages info s.written
      × ((m : ℕ) × (m ≤ info.end_pfn) × (map pfn_of s.written ≡ pfns_below info m))
      × ((is_finished s.consumer ≡ false) ⊎ (map pfn_of s.written ≡ pfns_below info info.end_pfn))
Reachable-AllPages info {s} some_thread le r =
    let (m, inv) = Reachable-Inv info some_thread le r in
    (
      (Reachable-Good info some_thread le r).1,
      (m, inv.high, inv.written),
      at_finish info m s.current_pfn s.queues (map pfn_of s.written) s.consumer inv.knows,
    )
