-- ===== src/Threads.antt =====
-- The threads that prepare pages in a cycle and the main thread that writes them, in makedumpfile.c:
-- kdump_thread_function_cyclic and write_kdump_pages_parallel_cyclic.
pub mod Queue
pub mod Sum
pub mod Invariant
pub mod Producers
pub mod Take
pub mod Dequeue
pub mod Main
pub mod Write
pub mod Order
pub mod Buffers
pub mod Moves
pub mod Published
pub mod Pages
pub mod Written
mod Tests
use makedumpfile.Prelude.{
  ℕ, zero, suc, ◌+◌, ◌-◌, ◌%◌, ◌<◌, ◌≡◌, Bool, true, false, ◌&&◌, ◌||◌, not, Option, none, some,
  List, [], ◌∷◌, ◌++◌, length, ltb, leb, ◌==◌, if◌then◌else◌,
}

-- A page as it is read, filtered and compressed: a zero page, or what `struct page_data` keeps of it.
pub data PageOut : Type 0 where
  zero_page : PageOut
  page_data : (flags size : ℕ) (buf : List ℕ) → PageOut

-- `struct page_flag`, while it is not FLAG_UNUSED; `ready` tells FLAG_READY from FLAG_FILLING.
pub record PageFlag : Type 0 where
  pub pfn : ℕ
  pub is_zero : Bool
  pub ready : Bool
  pub index : ℕ

-- Where a thread is. A thread holds the buffer of its index until it gives it to a page.
pub data Producer : Type 0 where
  take_buffer wait_flag : (index : ℕ) → Producer
  post fill : (index pfn : ℕ) → Producer
  leave : (index : ℕ) → Producer
  exited failed : Producer

-- Where the main thread is: `sem_wait`, the loop over the threads, the tests after it, the write.
pub data Consumer : Type 0 where
  at_sem : Consumer
  scan : (i current_pfn consuming : ℕ) → Consumer
  check : (current_pfn consuming : ℕ) → Consumer
  write : (consuming : ℕ) → Consumer
  finished gave_up : Consumer

-- What the threads share. The flags of a thread's ring that are in use are a list, the first one
-- being the one that `info->page_flag_buf` shows to the main thread.
pub record ThreadsState : Type 0 where
  pub current_pfn : ℕ
  pub sem : ℕ
  pub used : ℕ → Bool
  pub stored : ℕ → PageOut
  pub queues : ℕ → List PageFlag
  pub producers : ℕ → Producer
  pub consumer : Consumer
  pub end_count : ℕ
  pub written : List (ℕ × PageOut)

-- `prepare` gives the page of a frame; it fails where a page cannot be read.
pub record ThreadInfo : Type 0 where
  pub num_threads : ℕ
  pub num_buffers : ℕ
  pub num_flags : ℕ
  pub start_pfn : ℕ
  pub end_pfn : ℕ
  pub dumpable : ℕ → Bool
  pub prepare : ℕ → Option PageOut

abbrev pub set_at : {A : Type 0} → (ℕ → A) → ℕ → A → ℕ → A
set_at f i v j = if j == i then v else f j

-- The stores to the flag that is being filled, the last one: it is ready.
abbrev pub publish_page : ℕ → List PageFlag → List PageFlag
publish_page index [] = []
publish_page index (flag ∷ []) = record flag { is_zero = false; ready = true; index = index } ∷ []
publish_page index (flag ∷ (next ∷ queue)) = flag ∷ publish_page index (next ∷ queue)

abbrev pub publish_zero : List PageFlag → List PageFlag
publish_zero [] = []
publish_zero (flag ∷ []) = record flag { is_zero = true; ready = true } ∷ []
publish_zero (flag ∷ (next ∷ queue)) = flag ∷ publish_zero (next ∷ queue)

module _ (info : ThreadInfo) where
  -- The loop over the frames; at most `end_pfn - pfn` steps.
  unfoldable pub next_pfn : ℕ → ℕ → ℕ
  next_pfn zero pfn = pfn
  next_pfn (suc fuel) pfn =
      let rest = next_pfn fuel (pfn + 1) in
      if ltb pfn info.end_pfn && not (info.dumpable pfn) then rest else pfn

  abbrev pub filling : ℕ → PageFlag
  filling pfn = record { pfn = pfn; is_zero = false; ready = false; index = 0 }

  -- The steps of a thread, from where it is.
  abbrev pub take_buffer_step : ThreadsState → ℕ → ℕ → ThreadsState
  take_buffer_step s i index =
      if s.used index
      then record s {
        producers = set_at s.producers i (take_buffer ((index + 1) % info.num_buffers));
      }
      else record s {
        used = set_at s.used index true;
        producers = set_at s.producers i (wait_flag index);
      }

  -- A ring without a free flag shows one that is ready.
  abbrev pub wait_flag_step : ThreadsState → ℕ → ℕ → ThreadsState
  wait_flag_step s i index =
      let pfn = next_pfn (info.end_pfn - s.current_pfn) s.current_pfn in
      if leb info.num_flags (length (s.queues i)) then s else record s {
        current_pfn = pfn + 1;
        queues = set_at s.queues i (s.queues i ++ (filling pfn ∷ []));
        producers = set_at s.producers i (post index pfn);
      }

  abbrev pub post_step : ThreadsState → ℕ → ℕ → ℕ → ThreadsState
  post_step s i index pfn = record s {
    sem = s.sem + 1;
    producers = set_at s.producers i (if leb info.end_pfn pfn then leave index else fill index pfn);
  }

  -- The thread's own buffer and flag: nobody looks at them before the flag is ready.
  abbrev pub filled : ThreadsState → ℕ → ℕ → Option PageOut → ThreadsState
  filled s i index none = record s { producers = set_at s.producers i failed }
  filled s i index (some zero_page) = record s {
    queues = set_at s.queues i (publish_zero (s.queues i));
    producers = set_at s.producers i (wait_flag index);
  }
  filled s i index (some (page_data flags size buf)) = record s {
    stored = set_at s.stored index (page_data flags size buf);
    queues = set_at s.queues i (publish_page index (s.queues i));
    producers = set_at s.producers i (take_buffer index);
  }

  abbrev pub leave_step : ThreadsState → ℕ → ℕ → ThreadsState
  leave_step s i index = record s {
    current_pfn = info.end_pfn;
    used = set_at s.used index false;
    producers = set_at s.producers i exited;
  }

  abbrev pub produce_at : ThreadsState → ℕ → Producer → ThreadsState
  produce_at s i (take_buffer index) = take_buffer_step s i index
  produce_at s i (wait_flag index) = wait_flag_step s i index
  produce_at s i (post index pfn) = post_step s i index pfn
  produce_at s i (fill index pfn) = filled s i index (info.prepare pfn)
  produce_at s i (leave index) = leave_step s i index
  produce_at s i exited = s
  produce_at s i failed = s

  unfoldable pub produce : ThreadsState → ℕ → ThreadsState
  produce s i = produce_at s i (s.producers i)

  -- The steps of the main thread.
  -- The inner loop again, which keeps `consuming`.
  abbrev pub rescan : ThreadsState → ℕ → ThreadsState
  rescan s consuming = record s { consumer = scan 0 info.end_pfn consuming }

  abbrev pub sem_step : ThreadsState → ThreadsState
  sem_step s =
      if s.sem == 0 then s else record s { sem = s.sem - 1; consumer = scan 0 info.end_pfn 0 }

  -- What the loop does with the first flag of a thread.
  abbrev pub scan_flag : ThreadsState → ℕ → ℕ → ℕ → List PageFlag → ThreadsState
  scan_flag s i current_pfn consuming [] = record s {
    consumer = scan (i + 1) current_pfn consuming;
  }
  scan_flag s i current_pfn consuming (flag ∷ queue) =
      if leb info.end_pfn flag.pfn
      then record s {
        queues = set_at s.queues i queue;
        end_count = s.end_count + 1;
        consumer = scan (i + 1) current_pfn consuming;
      }
      else if ltb current_pfn flag.pfn
      then record s { consumer = scan (i + 1) current_pfn consuming }
      else record s { consumer = scan (i + 1) flag.pfn i }

  abbrev pub scan_step : ThreadsState → ℕ → ℕ → ℕ → ThreadsState
  scan_step s i current_pfn consuming =
      if ltb i info.num_threads
      then scan_flag s i current_pfn consuming (s.queues i)
      else record s { consumer = check current_pfn consuming }

  abbrev pub check_flag : ThreadsState → ℕ → ℕ → List PageFlag → ThreadsState
  check_flag s current_pfn consuming [] = rescan s consuming
  check_flag s current_pfn consuming (flag ∷ queue) =
      if not flag.ready
      then rescan s consuming
      else if current_pfn == flag.pfn
      then record s { consumer = write consuming }
      else rescan s consuming

  abbrev pub check_step : ThreadsState → ℕ → ℕ → ThreadsState
  check_step s current_pfn consuming =
      if leb info.num_threads s.end_count
      then record s { consumer = finished }
      else check_flag s current_pfn consuming (s.queues consuming)

  -- The page is written, where every `write_cache` succeeds.
  abbrev pub write_flag : ThreadsState → ℕ → List PageFlag → ThreadsState
  write_flag s consuming [] = s
  write_flag s consuming (flag ∷ queue) = record s {
    written =
        s.written ++ ((flag.pfn, (if flag.is_zero then zero_page else s.stored flag.index)) ∷ []);
    used = if flag.is_zero then s.used else set_at s.used flag.index false;
    queues = set_at s.queues consuming queue;
    consumer = at_sem;
  }

  abbrev pub consume_at : ThreadsState → Consumer → ThreadsState
  consume_at s at_sem = sem_step s
  consume_at s (scan i current_pfn consuming) = scan_step s i current_pfn consuming
  consume_at s (check current_pfn consuming) = check_step s current_pfn consuming
  consume_at s (write consuming) = write_flag s consuming (s.queues consuming)
  consume_at s finished = s
  consume_at s gave_up = s

  unfoldable pub consume : ThreadsState → ThreadsState
  consume s = consume_at s s.consumer

  abbrev pub started : ThreadsState
  started = record {
    current_pfn = info.start_pfn;
    sem = 0;
    used = λ index. false;
    stored = λ index. zero_page;
    queues = λ i. [];
    producers = λ i. if ltb info.start_pfn info.end_pfn then take_buffer i else exited;
    consumer = at_sem;
    end_count = 0;
    written = [];
  }

  -- Any thread makes the next step, or the main thread gives up, after WAIT_TIME or a failed write.
  pub data Reachable : ThreadsState → Type 0 where
    start : Reachable started
    by_thread :
        {s : ThreadsState} (i : ℕ) → i < info.num_threads → Reachable s → Reachable (produce s i)
    by_main : {s : ThreadsState} → Reachable s → Reachable (consume s)
    by_giving_up : {s : ThreadsState} → Reachable s → Reachable (record s { consumer = gave_up })
