-- ===== src/Output.antt =====
-- Writing the dump file in makedumpfile.c: the loop over `write` with its size limit, the headers of
-- the flattened format, and the buffer of `struct cache_data` in front of the file.
pub mod Space
pub mod Complete
pub mod Records
mod Tests
use makedumpfile.Prelude.{
  ℕ, zero, suc, ◌+◌, ◌-◌, ◌*◌, ◌/◌, ◌%◌, ◌^◌, Bool, true, false, ◌&&◌, ◌||◌, not, Option, none,
  some, List, [], ◌∷◌, ◌++◌, length, take, drop, replicate, min, ltb, leb, ◌==◌, if◌then◌else◌,
}
use makedumpfile.File.{pwrite}

-- What one call of `write` returns: a count (0 too), or -1 with EINTR, ENOSPC or another `errno`.
pub data Answer : Type 0 where
  wrote : ℕ → Answer
  interrupted nospace failed : Answer

-- The fields of `struct DumpInfo`; a `size_limit` of -1 is `none`.
pub record Info : Type 0 where
  pub size_limit : Option ℕ
  pub flag_dry_run : Bool

-- The output file with its position (a pipe's is its end), whether `lseek (fd, 0, SEEK_CUR)` tells that
-- position, and the variables `write_bytes` and `info->flag_nospace`.
pub record Out : Type 0 where
  pub to_stdout : Bool
  pub seekable : Bool
  pub bytes : List ℕ
  pub pos : ℕ
  pub write_bytes : ℕ
  pub flag_nospace : Bool

abbrev pub emit : List ℕ → Out → Out
emit chunk out = record out { bytes = pwrite out.pos chunk out.bytes; pos = out.pos + length chunk }

-- The loop `while (done < limit)`. `buf` is what is left of the buffer; the kernel takes no more
-- than it is asked to. The result is `done`, the output and the answers that were not used, or
-- `none` if there are too few answers.
unfoldable pub write_loop : List Answer → Out → List ℕ → ℕ → ℕ → Option (ℕ × Out × List Answer)
write_loop [] out buf done limit = if ltb done limit then none else some (done, out, [])
write_loop (wrote n ∷ answers) out buf done limit =
    let retval = min n (limit - done) in
    let rest =
      write_loop answers (emit (take retval buf) out) (drop retval buf) (done + retval) limit in
    let step = (if retval == 0 then some (done, out, answers) else rest) in
    if ltb done limit then step else some (done, out, wrote n ∷ answers)
write_loop (interrupted ∷ answers) out buf done limit =
    let rest = write_loop answers out buf done limit in
    if ltb done limit then rest else some (done, out, interrupted ∷ answers)
write_loop (nospace ∷ answers) out buf done limit =
    if ltb done limit
    then some (done, record out { flag_nospace = true }, answers)
    else some (done, out, nospace ∷ answers)
write_loop (failed ∷ answers) out buf done limit =
    if ltb done limit
    then some (done, record out { flag_nospace = false }, answers)
    else some (done, out, failed ∷ answers)

-- `info->size_limit != -1 && pos + buf_size > info->size_limit`, the sum in 64 bits
abbrev pub over_limit : Option ℕ → ℕ → Bool
over_limit none end = false
over_limit (some size_limit) end = ltb size_limit (end % 2 ^ 64)

-- `pos > size_limit ? 0 : size_limit - pos`
abbrev pub room_below : Option ℕ → ℕ → ℕ
room_below none pos = 0
room_below (some size_limit) pos = if ltb size_limit pos then 0 else size_limit - pos

abbrev pub start_pos : Info → Out → ℕ
start_pos info out = if out.to_stdout || info.flag_dry_run then out.write_bytes else out.pos

-- `pos` is not -1.
abbrev pub pos_known : Info → Out → Bool
pos_known info out = out.to_stdout || info.flag_dry_run || out.seekable

-- The end of `write_and_check_space`, on what the loop gave.
abbrev finish_write : ℕ → Option (ℕ × Out × List Answer) → Option (Bool × Out × List Answer)
finish_write size none = none
finish_write size (some (done, out, answers)) =
    some (done == size, record out { write_bytes = out.write_bytes + done }, answers)

unfoldable pub write_and_check_space :
    Info → List Answer → Out → List ℕ → Option (Bool × Out × List Answer)
unfolding write_loop
write_and_check_space info answers out buf =
    let size = length buf in
    let pos = start_pos info out in
    let over = over_limit info.size_limit (pos + size) in
    let limit = (if over then room_below info.size_limit pos else size) in
    let out₁ = (if over then record out { flag_nospace = true } else out) in
    let written = finish_write size (
      if info.flag_dry_run
      then some (limit, out₁, answers)
      else write_loop answers out₁ buf 0 limit) in
    if not (pos_known info out) then some (false, out, answers) else written

-- The bytes of a 64-bit number, the most significant first: what `bswap_64` leaves in memory on a
-- little-endian machine, and what is there on a big-endian one.
unfoldable pub big_endian : ℕ → ℕ → List ℕ
big_endian zero n = []
big_endian (suc k) n = (n / 256 ^ k % 256) ∷ big_endian k n

-- `struct makedumpfile_data_header`
unfoldable pub data_header : ℕ → ℕ → List ℕ
unfolding big_endian
data_header offset buf_size = big_endian 8 offset ++ big_endian 8 buf_size

abbrev pub seek_to : ℕ → Out → Out
seek_to offset out = record out { pos = offset }

-- The write of the data after the header or the seek.
abbrev then_write :
    Info → List ℕ → Option (Bool × Out × List Answer) → Option (Bool × Out × List Answer)
then_write info buf none = none
then_write info buf (some (true, out, answers)) = write_and_check_space info answers out buf
then_write info buf (some (false, out, answers)) = some (false, out, answers)

-- `seek` tells at which offsets `lseek` succeeds.
unfoldable pub write_buffer :
    (ℕ → Bool) → Info → List Answer → Out → ℕ → List ℕ → Option (Bool × Out × List Answer)
write_buffer seek info answers out offset buf = then_write info buf (
    if out.to_stdout
    then write_and_check_space info answers out (data_header offset (length buf))
    else if info.flag_dry_run
    then some (true, out, answers)
    else if seek offset
    then some (true, seek_to offset out, answers)
    else some (false, out, answers))
