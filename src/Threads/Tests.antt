-- ===== src/Threads/Tests.antt =====
-- Two threads and a cycle of four frames, of which three are dumpable.
use makedumpfile.Prelude.{
  false, ◌⊎◌, ℕ, zero, suc, ◌≤◌, ◌≡◌, refl, not, Option, some, [], ◌∷◌, map, ◌==◌, arith,
  if◌then◌else◌,
}
use makedumpfile.Threads.{
  PageOut, zero_page, page_data, ThreadsState, ThreadInfo, finished, produce, consume, next_pfn,
  started, Reachable, start, by_thread, by_main,
}
use makedumpfile.Threads.Invariant.{pfn_of, pfns_below}
use makedumpfile.Threads.Buffers.{AllPages}
use makedumpfile.Threads.Written.{is_finished, Reachable-AllPages}

abbrev page_of : ℕ → Option PageOut
page_of pfn = if pfn == 5 then some zero_page else some (page_data 0 2 (pfn ∷ pfn ∷ []))

abbrev two_threads : ThreadInfo
two_threads = record {
  num_threads = 2;
  num_buffers = 4;
  num_flags = 2;
  start_pfn = 4;
  end_pfn = 8;
  dumpable = λ pfn. not (pfn == 6);
  prepare = page_of;
}

-- Rounds in which the second thread moves first, and the main thread twice.
abbrev rounds : ℕ → ThreadsState
rounds zero = started two_threads
rounds (suc n) =
    let s = rounds n in
    consume two_threads (consume two_threads (produce two_threads (produce two_threads s 1) 0))

abbrev rounds-Reachable : (n : ℕ) → Reachable two_threads (rounds n)
rounds-Reachable zero = start
rounds-Reachable (suc n) =
    by_main (by_main (by_thread 0 (omega arith) (by_thread 1 (omega arith) (rounds-Reachable n))))

all_written :
    (rounds 14).written
    ≡ (4, page_data 0 2 (4 ∷ 4 ∷ [])) ∷ (5, zero_page) ∷ (7, page_data 0 2 (7 ∷ 7 ∷ [])) ∷ []
unfolding produce consume next_pfn
all_written = refl

is_over : (rounds 14).consumer ≡ finished
unfolding produce consume next_pfn
is_over = refl

Reachable-AllPages_example :
    AllPages two_threads (rounds 14).written
    × ((m : ℕ) × (m ≤ 8) × (map pfn_of (rounds 14).written ≡ pfns_below two_threads m))
    × ((is_finished (rounds 14).consumer ≡ false)
        ⊎ (map pfn_of (rounds 14).written ≡ pfns_below two_threads 8))
Reachable-AllPages_example =
    Reachable-AllPages two_threads (omega arith) (omega arith) (rounds-Reachable 14)
