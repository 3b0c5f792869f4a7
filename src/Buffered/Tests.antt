-- ===== src/Buffered/Tests.antt =====
-- The buffer in front of the file, at concrete writes.
use makedumpfile.Prelude.{
  ℕ, ◌+◌, ◌-◌, ◌≡◌, refl, Bool, true, false, none, some, List, [], ◌∷◌, get_or, ◌&&◌, ltb, leb,
  if◌then◌else◌, arith,
}
use makedumpfile.File.{pwrite}
use makedumpfile.Output.{Answer, wrote, Info, Out, write_buffer, write_and_check_space}
use makedumpfile.Buffered.{CacheData, write_cache, write_cache_bufsz, write_all}
use makedumpfile.Buffered.Stream.{
  stream, IsReady, concat, write_cache_bufsz-stream, write_all-stream,
}

abbrev free : Info
free = record { size_limit = none; flag_dry_run = false }

abbrev file : Out
file = record {
  to_stdout = false;
  seekable = true;
  bytes = 1 ∷ [];
  pos = 0;
  write_bytes = 0;
  flag_nospace = false;
}

abbrev works : ℕ → Bool
works off = true

-- A cache of three bytes with room for a page of two.
abbrev cache : CacheData
cache = record { buf = 0 ∷ 0 ∷ 0 ∷ 0 ∷ 0 ∷ []; buf_size = 0; cache_size = 3; offset = 1 }

abbrev answers : List Answer
answers = wrote 4 ∷ wrote 4 ∷ wrote 4 ∷ []

abbrev pieces : List (List ℕ)
pieces = (5 ∷ 6 ∷ []) ∷ (7 ∷ 8 ∷ []) ∷ (9 ∷ []) ∷ []

abbrev final_out : Out
final_out = record {
  to_stdout = false;
  seekable = true;
  bytes = 1 ∷ 5 ∷ 6 ∷ 7 ∷ 8 ∷ 9 ∷ [];
  pos = 6;
  write_bytes = 5;
  flag_nospace = false;
}

abbrev final_cache : CacheData
final_cache = record { buf = 8 ∷ 9 ∷ 7 ∷ 8 ∷ 0 ∷ []; buf_size = 0; cache_size = 3; offset = 6 }

pieces-run :
    write_all works free answers file cache pieces
    ≡ some (true, final_cache, final_out, wrote 4 ∷ [])
unfolding write_all write_cache write_cache_bufsz write_buffer write_and_check_space pwrite
pieces-run = refl

cache-IsReady : IsReady 2 cache file
cache-IsReady = record {
  room = omega arith;
  page = omega arith;
  below = omega arith;
  on_file = refl;
}

write_all-stream_example :
    get_or final_out.bytes 4 0
    ≡ (if leb 1 4 && ltb 4 (1 + 5) then get_or (concat pieces) (4 - 1) 0 else stream cache file 4)
write_all-stream_example =
    write_all-stream works free 2 answers file cache pieces 4 refl cache-IsReady (omega arith)
      (omega arith) pieces-run

abbrev one_out : Out
one_out = record {
  to_stdout = false;
  seekable = true;
  bytes = 1 ∷ 5 ∷ 6 ∷ 7 ∷ [];
  pos = 4;
  write_bytes = 3;
  flag_nospace = false;
}

abbrev filled : CacheData
filled = record cache { buf = 5 ∷ 6 ∷ 0 ∷ 0 ∷ 0 ∷ []; buf_size = 2 }

abbrev shifted : CacheData
shifted = record { buf = 8 ∷ 6 ∷ 7 ∷ 8 ∷ 0 ∷ []; buf_size = 1; cache_size = 3; offset = 4 }

filled-run :
    write_cache works free answers file filled (7 ∷ 8 ∷ [])
    ≡ some (true, shifted, one_out, wrote 4 ∷ wrote 4 ∷ [])
unfolding write_cache write_buffer write_and_check_space pwrite
filled-run = refl

abbrev flushed : Out
flushed = record {
  to_stdout = false;
  seekable = true;
  bytes = 1 ∷ 5 ∷ 6 ∷ [];
  pos = 3;
  write_bytes = 2;
  flag_nospace = false;
}

flushed-run :
    write_cache_bufsz works free answers file filled
    ≡ some (true, record filled { offset = 3; buf_size = 0 }, flushed, wrote 4 ∷ wrote 4 ∷ [])
unfolding write_cache_bufsz write_buffer write_and_check_space pwrite
flushed-run = refl

write_cache_bufsz-stream_example :
    (get_or flushed.bytes 2 0 ≡ stream filled file 2)
    × (◌≡◌ {A = ℕ} 0 0)
    × (◌≡◌ {A = ℕ} 3 (1 + 2))
    × (false ≡ false)
write_cache_bufsz-stream_example =
    write_cache_bufsz-stream works free answers file filled 2 refl refl (omega arith) (omega arith)
      flushed-run
