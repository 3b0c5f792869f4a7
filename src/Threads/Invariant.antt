-- ===== src/Threads/Invariant.antt =====
-- What holds while the threads run.
use makedumpfile.Prelude.{
  ℕ, zero, suc, ◌+◌, ◌-◌, ◌≤◌, ◌<◌, ◌≡◌, ◌⊎◌, ap, ◌∙◌, sym, subst, Bool, true, false, ◌&&◌, List,
  [], ◌∷◌, ◌++◌, map, length, leb, if◌then◌else◌, arith, inl, inr,
}
use makedumpfile.Threads.{
  PageFlag, PageOut, Producer, Consumer, at_sem, scan, check, write, finished, gave_up,
  ThreadsState, ThreadInfo,
}
use makedumpfile.Threads.Queue.{has_pfn, is_post, is_empty, IsHead, one_if, at_end, IsThread}
use makedumpfile.Threads.Sum.{sum, sum_change}

abbrev pub pfn_of : ℕ × PageOut → ℕ
pfn_of page = page.0

-- How many flags of a thread were counted by the semaphore, and whether its end was seen.
abbrev pub posted : Producer → List PageFlag → ℕ
posted pc queue = length queue - one_if (is_post pc)

module _ (info : ThreadInfo) where
  abbrev pub ended : Producer → List PageFlag → ℕ
  ended pc queue = one_if (at_end info pc && is_empty queue)

  -- The dumpable frames of the cycle below `m`, in order.
  abbrev pub pfns_below : ℕ → List ℕ
  pfns_below zero = []
  pfns_below (suc m) =
      pfns_below m ++ (if leb info.start_pfn m && info.dumpable m then m ∷ [] else [])

  -- The least dumpable frame that is taken and not yet written.
  abbrev pub IsNext : ℕ → ℕ → ℕ → Type 0
  IsNext m current q =
      (m ≤ q)
      × (q < current)
      × (q < info.end_pfn)
      × (info.dumpable q ≡ true)
      × ((p : ℕ) → m ≤ p → p < q → info.dumpable p ≡ false)

  abbrev pub busy : Consumer → ℕ
  busy at_sem = 0
  busy (scan i current_pfn consuming) = 1
  busy (check current_pfn consuming) = 1
  busy (write consuming) = 1
  busy finished = 0
  busy gave_up = 0

  -- What the main thread knows: the least frame of the flags that it looked at is not above its own.
  abbrev pub Knows : ℕ → ℕ → (ℕ → List PageFlag) → List ℕ → Consumer → Type 0
  Knows m current queues pfns at_sem = Unit {0}
  Knows m current queues pfns (scan i current_pfn consuming) =
      (consuming < info.num_threads)
      × ((q : ℕ)
          → IsNext m current q
          → (j : ℕ) → j < i
          → has_pfn q (queues j) ≡ true
          → current_pfn ≤ q)
  Knows m current queues pfns (check current_pfn consuming) =
      (consuming < info.num_threads) × ((q : ℕ) → IsNext m current q → current_pfn ≤ q)
  Knows m current queues pfns (write consuming) =
      (consuming < info.num_threads)
      × ((p : ℕ) × IsHead p (queues consuming)
          × ((q : ℕ) → m ≤ q → q < p → info.dumpable q ≡ false))
  Knows m current queues pfns finished = pfns ≡ pfns_below info.end_pfn
  Knows m current queues pfns gave_up = Unit {0}

  -- All dumpable frames below `m` are written, and those from `m` on that were taken are in the flags
  -- of one thread each.
  pub record Inv (m : ℕ) (s : ThreadsState) : Type 0 where
    pub low : info.start_pfn ≤ m
    pub high : m ≤ info.end_pfn
    pub taken : m ≤ s.current_pfn
    pub written : map pfn_of s.written ≡ pfns_below m
    pub threads : (i : ℕ) → IsThread info s.current_pfn m (s.producers i) (s.queues i)
    pub cover :
        (p : ℕ)
        → m ≤ p
        → p < s.current_pfn
        → p < info.end_pfn
        → info.dumpable p ≡ true
        → (i : ℕ) × (i < info.num_threads) × (has_pfn p (s.queues i) ≡ true)
    pub unique :
        (i j p : ℕ)
        → p < info.end_pfn
        → has_pfn p (s.queues i) ≡ true
        → has_pfn p (s.queues j) ≡ true
        → i ≡ j
    pub counted :
        s.current_pfn < info.end_pfn
        → s.sem + busy s.consumer ≤ sum info.num_threads (λ i. posted (s.producers i) (s.queues i))
    pub ends : s.end_count ≤ sum info.num_threads (λ i. ended (s.producers i) (s.queues i))
    pub knows : Knows m s.current_pfn s.queues (map pfn_of s.written) s.consumer

  -- Only the place of the head, and which frames are in the flags, matter to the main thread.
  pub Knows-same :
      (m current : ℕ) (queues queues' : ℕ → List PageFlag) (pfns : List ℕ) (c : Consumer)
      → ((j p : ℕ) → has_pfn p (queues' j) ≡ has_pfn p (queues j))
      → ((j p : ℕ) → IsHead p (queues j) → IsHead p (queues' j))
      → Knows m current queues pfns c
      → Knows m current queues' pfns c
  Knows-same m current queues queues' pfns at_sem has head knows = tt
  Knows-same m current queues queues' pfns (scan i current_pfn consuming) has head (less, knows) =
      (less, λ q next j below inside. knows q next j below (sym (has j q) ∙ inside))
  Knows-same m current queues queues' pfns (check current_pfn consuming) has head knows = knows
  Knows-same m current queues queues' pfns (write consuming) has head (less, (p, first, clear)) =
      (less, (p, head consuming p first, clear))
  Knows-same m current queues queues' pfns finished has head knows = knows
  Knows-same m current queues queues' pfns gave_up has head knows = tt

  -- A step of a thread that takes no frame.
  pub Inv-thread :
      (m i : ℕ) (s : ThreadsState) (sem' : ℕ) (used' : ℕ → Bool) (stored' : ℕ → PageOut)
      (queues' : ℕ → List PageFlag) (producers' : ℕ → Producer)
      → i < info.num_threads
      → ((j : ℕ) → (j ≡ i) ⊎ ((queues' j ≡ s.queues j) × (producers' j ≡ s.producers j)))
      → IsThread info s.current_pfn m (producers' i) (queues' i)
      → ((p : ℕ) → has_pfn p (queues' i) ≡ has_pfn p (s.queues i))
      → ((p : ℕ) → IsHead p (s.queues i) → IsHead p (queues' i))
      → ended (s.producers i) (s.queues i) ≤ ended (producers' i) (queues' i)
      → (s.current_pfn < info.end_pfn
          → sem' + posted (s.producers i) (s.queues i) ≤ s.sem + posted (producers' i) (queues' i))
      → Inv m s
      → Inv m (record s {
        sem = sem';
        used = used';
        stored = stored';
        queues = queues';
        producers = producers';
      })
  Inv-thread m i s sem' used' stored' queues' producers' less view thread has head end count inv =
      let has_all : (j p : ℕ) → has_pfn p (queues' j) ≡ has_pfn p (s.queues j) = λ j p.
        (elim (view j) [
          | inl e ↦ subst (λ k. has_pfn p (queues' k) ≡ has_pfn p (s.queues k)) (sym e) (has p)
          | inr same ↦ ap (has_pfn p) same.0
        ]) in
      let head_all : (j p : ℕ) → IsHead p (s.queues j) → IsHead p (queues' j) = λ j p.
        (elim (view j) [
          | inl e ↦ subst (λ k. IsHead p (s.queues k) → IsHead p (queues' k)) (sym e) (head p)
          | inr same ↦ subst (λ q. IsHead p (s.queues j) → IsHead p q) (sym same.0) (λ h. h)
        ]) in
      let thread_all : (j : ℕ) → IsThread info s.current_pfn m (producers' j) (queues' j) = λ j.
        (elim (view j) [
          | inl e ↦
              subst (λ k. IsThread info s.current_pfn m (producers' k) (queues' k)) (sym e) thread
          | inr same ↦
              subst (λ q. IsThread info s.current_pfn m (producers' j) q) (sym same.0)
                (subst (λ pc. IsThread info s.current_pfn m pc (s.queues j)) (sym same.1)
                  (inv.threads j))
        ]) in
      let sums : (f : Producer → List PageFlag → ℕ)
          → sum info.num_threads (λ j. f (producers' j) (queues' j))
              + f (s.producers i) (s.queues i)
            ≡ sum info.num_threads (λ j. f (s.producers j) (s.queues j))
              + f (producers' i) (queues' i) =
        λ f.
          sum_change info.num_threads i (λ j. f (s.producers j) (s.queues j))
            (λ j. f (producers' j) (queues' j)) less
            (λ j. elim (view j) [
              | inl e ↦ inl e
              | inr same ↦
                  inr (ap (λ q. f (producers' j) q) same.0 ∙ ap (λ pc. f pc (s.queues j)) same.1)
            ]) in
      record {
        low = inv.low;
        high = inv.high;
        taken = inv.taken;
        written = inv.written;
        threads = thread_all;
        cover = λ p from below in_cycle is.
            let (j, at, inside) = inv.cover p from below in_cycle is in
            (j, at, has_all j p ∙ inside);
        unique = λ j k p below one two.
            inv.unique j k p below (sym (has_all j p) ∙ one) (sym (has_all k p) ∙ two);
        counted = λ more. omega (arith, inv.counted more, sums posted, count more);
        ends = omega (arith, inv.ends, sums ended, end);
        knows =
            Knows-same m s.current_pfn s.queues queues' (map pfn_of s.written) s.consumer has_all
              head_all inv.knows;
      }
