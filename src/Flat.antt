-- ===== src/Flat.antt =====
-- The flattened format of makedumpfile.c: a header, records of a place and the bytes that belong
-- there, and an end record. `rearrange_dumpdata` puts the bytes back in place.
pub mod Header
pub mod RoundTrip
pub mod Written
mod Tests
use makedumpfile.Prelude.{
  ℕ, zero, suc, ◌+◌, ◌-◌, ◌*◌, ◌^◌, Bool, true, false, ◌&&◌, ◌||◌, not, Option, none, some, List,
  [], ◌∷◌, ◌++◌, length, take, drop, replicate, ltb, leb, ◌==◌, if◌then◌else◌, min,
}
use makedumpfile.File.{pwrite}
use makedumpfile.Output.{Info, Answer, Out, write_and_check_space, big_endian, data_header}

abbrev pub signature : List ℕ
signature = b'm' ∷ b'a' ∷ b'k' ∷ b'e' ∷ b'd' ∷ b'u' ∷ b'm' ∷ b'p' ∷ b'f' ∷ b'i' ∷ b'l' ∷ b'e' ∷ []

-- The bytes of the start header: the signature in 16 bytes, the type 1 and the version 1,
-- and zeros up to 4096 bytes.
unfoldable pub start_flat_header : List ℕ
start_flat_header =
    signature ++ (replicate 4 0 ++ (big_endian 8 1 ++ (big_endian 8 1 ++ replicate 4064 0)))

-- The bytes of the end header: -1 twice.
unfoldable pub end_flat_header : List ℕ
end_flat_header = replicate 16 0xff

unfoldable pub write_start_flat_header :
    Bool → Info → List Answer → Out → Option (Bool × Out × List Answer)
write_start_flat_header flag_flatten info answers out =
    if not flag_flatten
    then some (false, out, answers)
    else write_and_check_space info answers out start_flat_header

unfoldable pub write_end_flat_header :
    Bool → Info → List Answer → Out → Option (Bool × Out × List Answer)
write_end_flat_header flag_flatten info answers out =
    if not flag_flatten
    then some (false, out, answers)
    else write_and_check_space info answers out end_flat_header

-- `read_buf_from_stdin`, however many reads it takes; `none` if the input ends before, which is a
-- time-out. The result is the bytes and the rest of the input.
unfoldable pub read_buf_from_stdin : ℕ → List ℕ → Option (List ℕ × List ℕ)
read_buf_from_stdin buf_size input =
    if leb buf_size (length input) then some (take buf_size input, drop buf_size input) else none

-- A number from its bytes, the most significant first: `bswap_64` of what is in memory.
unfoldable pub from_big_endian : List ℕ → ℕ
from_big_endian [] = 0
from_big_endian (byte ∷ bytes) = byte * 256 ^ length bytes + from_big_endian bytes

-- `strcmp` of the array with the signature
abbrev pub same_bytes : List ℕ → List ℕ → Bool
same_bytes [] [] = true
same_bytes [] (y ∷ ys) = false
same_bytes (x ∷ xs) [] = false
same_bytes (x ∷ xs) (y ∷ ys) = x == y && same_bytes xs ys

abbrev pub checked : Option (List ℕ × List ℕ) → Option (List ℕ)
checked none = none
checked (some (buf, rest)) =
    if not (same_bytes (signature ++ (0 ∷ [])) (take 13 buf))
    then none
    else if not (from_big_endian (take 8 (drop 16 buf)) == 1)
    then none
    else some rest

-- The rest of the input after the header, or `none` if that is not one.
unfoldable pub read_start_flat_header : List ℕ → Option (List ℕ)
unfolding read_buf_from_stdin from_big_endian
read_start_flat_header input = checked (read_buf_from_stdin 4096 input)

abbrev pub decoded : Option (List ℕ × List ℕ) → Option (ℕ × ℕ × List ℕ)
decoded none = none
decoded (some (fdh, rest)) = some (from_big_endian (take 8 fdh), from_big_endian (drop 8 fdh), rest)

-- The offset and the size, as the 64 bits of a signed number, and the rest of the input.
unfoldable pub read_flat_data_header : List ℕ → Option (ℕ × ℕ × List ℕ)
unfolding read_buf_from_stdin from_big_endian
read_flat_data_header input = decoded (read_buf_from_stdin 16 input)

abbrev pub is_negative : ℕ → Bool
is_negative n = leb (2 ^ 63) n

abbrev pub end_flag : ℕ
end_flag = 2 ^ 64 - 1

-- The write of a piece and what follows, if the read gave the piece and the write succeeds.
abbrev pub then_copy :
    Bool
    → (List ℕ → List ℕ → Option (List ℕ × List ℕ))
    → Option (List ℕ × List ℕ)
    → Option (List ℕ × List ℕ)
then_copy ok next none = none
then_copy ok next (some (buf, rest)) = if ok then next buf rest else none

-- What comes after a header: another record, the end, or an error.
abbrev pub after_header :
    (ℕ → ℕ → List ℕ → Option (List ℕ)) → List ℕ → Option (ℕ × ℕ × List ℕ) → Option (List ℕ)
after_header again file none = none
after_header again file (some (offset, buf_size, rest)) =
    if not (is_negative offset) && ltb 0 buf_size && not (is_negative buf_size)
    then again offset buf_size rest
    else if offset == end_flag && buf_size == end_flag
    then some file
    else none

abbrev pub after_data :
    (List ℕ → List ℕ → Option (List ℕ)) → Option (List ℕ × List ℕ) → Option (List ℕ)
after_data next none = none
after_data next (some (input, file)) = next input file

-- `io` tells at which offsets of the file `write_buffer` succeeds.
module _ (io : ℕ → Bool) where
  -- The inner loop of `rearrange_dumpdata`, for a size that is not negative: what is left of the
  -- input, and the file. `none` is an error; a round copies at least one byte.
  unfoldable pub copy_data : ℕ → ℕ → ℕ → ℕ → List ℕ → List ℕ → Option (List ℕ × List ℕ)
  copy_data zero offset buf_size read_size input file =
      if ltb read_size buf_size then none else some (input, file)
  copy_data (suc fuel) offset buf_size read_size input file =
      let tmp_read_size = min 4096 (buf_size - read_size) in
      let copied =
        then_copy (io (offset + read_size))
          (λ buf rest.
            copy_data fuel offset buf_size (read_size + tmp_read_size) rest
              (pwrite (offset + read_size) buf file))
          (read_buf_from_stdin tmp_read_size input) in
      if ltb read_size buf_size then copied else some (input, file)

  -- The outer loop, from a record on whose header is read. `none` is an error or the end of the fuel.
  unfoldable pub rearrange_from : ℕ → ℕ → ℕ → List ℕ → List ℕ → Option (List ℕ)
  rearrange_from zero offset buf_size input file = none
  rearrange_from (suc fuel) offset buf_size input file =
      let copied : Option (List ℕ × List ℕ) =
        (if is_negative buf_size
          then some (input, file)
          else copy_data buf_size offset buf_size 0 input file) in
      after_data
        (λ input' file'.
          after_header (λ offset' buf_size' rest. rearrange_from fuel offset' buf_size' rest file')
            file' (read_flat_data_header input'))
        copied

  abbrev pub first_record : ℕ → List ℕ → Option (ℕ × ℕ × List ℕ) → Option (List ℕ)
  first_record fuel file none = none
  first_record fuel file (some (offset, buf_size, rest)) =
      rearrange_from fuel offset buf_size rest file

  abbrev pub after_start : ℕ → List ℕ → Option (List ℕ) → Option (List ℕ)
  after_start fuel file none = none
  after_start fuel file (some rest) = first_record fuel file (read_flat_data_header rest)

  unfoldable pub rearrange_dumpdata : ℕ → List ℕ → List ℕ → Option (List ℕ)
  rearrange_dumpdata fuel input file = after_start fuel file (read_start_flat_header input)
