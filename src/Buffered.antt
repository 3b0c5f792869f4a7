-- ===== src/Buffered.antt =====
-- `struct cache_data` of makedumpfile.c: the buffer in front of the dump file, filled by
-- `write_cache` and emptied by `write_cache_bufsz`.
pub mod Stream
mod Tests
use makedumpfile.Prelude.{
  ℕ, [], ◌∷◌, ◌+◌, ◌-◌, ◌*◌, ◌^◌, Bool, true, false, Option, none, some, List, length, take, drop,
  replicate, ltb, ◌==◌, if◌then◌else◌,
}
use makedumpfile.File.{pwrite}
use makedumpfile.Output.{Answer, Info, Out, write_buffer}

-- `buf` is the allocated memory, of which the first `buf_size` bytes are in use.
pub record CacheData : Type 0 where
  pub buf : List ℕ
  pub buf_size : ℕ
  pub cache_size : ℕ
  pub offset : ℕ

-- `prepare_cache_data`: room for the cache and for one page more. `memory` is what `malloc` gives.
unfoldable pub prepare_cache_data : ℕ → ℕ → (ℕ → Option (List ℕ)) → Option CacheData
prepare_cache_data page_size block_order malloc =
    let cache_size = page_size * 2 ^ block_order in
    elim (malloc (cache_size + page_size)) [
      | none ↦ none
      | some memory ↦
          some (record { buf = memory; buf_size = 0; cache_size = cache_size; offset = 0 })
    ]

-- `memcpy (cd->buf + cd->buf_size, data, size)` and the new size
abbrev pub append_buf : CacheData → List ℕ → CacheData
append_buf cd bytes = record cd {
  buf = pwrite cd.buf_size bytes cd.buf;
  buf_size = cd.buf_size + length bytes;
}

-- After a block is written, what lies past it moves to the front.
abbrev pub shift_buf : CacheData → CacheData
shift_buf cd =
    let left = cd.buf_size - cd.cache_size in
    record cd {
      buf = pwrite 0 (take left (drop cd.cache_size cd.buf)) cd.buf;
      buf_size = left;
      offset = cd.offset + cd.cache_size;
    }

abbrev pub Result : Type 0
Result = Option (Bool × CacheData × Out × List Answer)

-- The caller's state after a call of `write_buffer`: `done` if it returns true, else `cd`.
abbrev pub after_write : CacheData → CacheData → Option (Bool × Out × List Answer) → Result
after_write cd done none = none
after_write cd done (some (true, out, answers)) = some (true, done, out, answers)
after_write cd done (some (false, out, answers)) = some (false, cd, out, answers)

module _ (seek : ℕ → Bool) (info : Info) where
  unfoldable pub write_cache : List Answer → Out → CacheData → List ℕ → Result
  write_cache answers out cd bytes =
      let cd₁ = append_buf cd bytes in
      if ltb cd₁.buf_size cd₁.cache_size
      then some (true, cd₁, out, answers)
      else after_write cd₁ (shift_buf cd₁)
          (write_buffer seek info answers out cd₁.offset (take cd₁.cache_size cd₁.buf))

  unfoldable pub write_cache_bufsz : List Answer → Out → CacheData → Result
  write_cache_bufsz answers out cd =
      if cd.buf_size == 0
      then some (true, cd, out, answers)
      else after_write cd (record cd { offset = cd.offset + cd.buf_size; buf_size = 0 })
          (write_buffer seek info answers out cd.offset (take cd.buf_size cd.buf))

  abbrev then_zeros : ℕ → Result → Result
  then_zeros size none = none
  then_zeros size (some (false, cd, out, answers)) = some (false, cd, out, answers)
  then_zeros size (some (true, cd, out, answers)) =
      write_cache_bufsz answers out (append_buf cd (replicate size 0))

  unfoldable pub write_cache_zero : List Answer → Out → CacheData → ℕ → Result
  write_cache_zero answers out cd size = then_zeros size (write_cache_bufsz answers out cd)

  -- A run of `write_cache` over the pieces of a stream, ended by `write_cache_bufsz`.
  unfoldable pub write_all : List Answer → Out → CacheData → List (List ℕ) → Result
  write_all answers out cd [] = write_cache_bufsz answers out cd
  write_all answers out cd (piece ∷ pieces) = elim (write_cache answers out cd piece) [
    | none ↦ none
    | some (true, cd', out', answers') ↦ write_all answers' out' cd' pieces
    | some (false, cd', out', answers') ↦ some (false, cd', out', answers')
  ]
