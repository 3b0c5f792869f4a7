-- ===== src/Flat/RoundTrip.antt =====
-- What is flattened and rearranged is in its place.
use makedumpfile.Prelude.{
  ℕ, zero, suc, ◌+◌, ◌-◌, ◌^◌, ◌≤◌, ◌<◌, ◌≡◌, ap, ◌∙◌, sym, Bool, true, false, ◌&&◌, not, Option,
  none, some, List, [], ◌∷◌, ◌++◌, length, take, drop, take-append-drop, length-take, length-drop,
  append_assoc, append-nil, ltb, ◌==◌, if◌then◌else◌, min, arith,
}
use makedumpfile.File.{pwrite}
use makedumpfile.File.Split.{pwrite_split}
use makedumpfile.Output.{data_header}
use makedumpfile.Flat.{
  start_flat_header, end_flat_header, read_buf_from_stdin, read_flat_data_header, then_copy,
  after_header, after_data, copy_data, rearrange_from, rearrange_dumpdata, is_negative, end_flag,
  first_record, after_start,
}
use makedumpfile.Flat.Header.{read_buf, read-data_header, read-end_header, read-start_header}

-- What goes to the standard output: a record for each piece and its offset, between the headers.
unfoldable pub flat_records : List (ℕ × List ℕ) → List ℕ
flat_records [] = end_flat_header
flat_records ((offset, bytes) ∷ pieces) =
    data_header offset (length bytes) ++ (bytes ++ flat_records pieces)

abbrev pub flattened : List (ℕ × List ℕ) → List ℕ
flattened pieces = start_flat_header ++ flat_records pieces

-- The pieces written at their offsets, one after the other.
abbrev pub put_all : List (ℕ × List ℕ) → List ℕ → List ℕ
put_all [] file = file
put_all ((offset, bytes) ∷ pieces) file = put_all pieces (pwrite offset bytes file)

-- No piece is empty, and offsets and sizes are signed numbers of 64 bits.
abbrev pub AllProper : List (ℕ × List ℕ) → Type 0
AllProper [] = Unit {0}
AllProper ((offset, bytes) ∷ pieces) =
    ((offset < 2 ^ 63) × (0 < length bytes) × (length bytes < 2 ^ 63)) × AllProper pieces

module _ (io : ℕ → Bool) (works : (offset : ℕ) → io offset ≡ true) where
  copy_data_lem :
      (fuel offset read_size : ℕ) (bytes rest file : List ℕ)
      → length bytes ≤ fuel
      → copy_data io fuel offset (read_size + length bytes) read_size (bytes ++ rest) file
        ≡ some (rest, pwrite (offset + read_size) bytes file)
  unfolding copy_data pwrite
  copy_data_lem zero offset read_size [] rest file h = ground arith
  copy_data_lem zero offset read_size (b ∷ bytes) rest file h =
      absurd (let no : ⊥ = omega (arith, h) in no)
  copy_data_lem (suc fuel) offset read_size [] rest file h = ground arith
  copy_data_lem (suc fuel) offset read_size (b ∷ bytes) rest file h =
      let xs = b ∷ bytes in
      let size = read_size + length xs in
      let n = min 4096 (size - read_size) in
      let more : ltb read_size size ≡ true = ground arith in
      let within : n ≤ length xs = omega arith in
      let some_bytes : 0 < n = omega arith in
      let piece : xs ++ rest ≡ take n xs ++ (drop n xs ++ rest) =
        ap (λ t. t ++ rest) (sym (take-append-drop n xs))
        ∙ append_assoc (take n xs) (drop n xs) rest in
      let got : read_buf_from_stdin n (xs ++ rest) ≡ some (take n xs, drop n xs ++ rest) =
        ap (read_buf_from_stdin n) piece
        ∙ read_buf n (take n xs) (drop n xs ++ rest)
            (omega (arith, length-take {0} n xs, within)) in
      let next = λ (buf : List ℕ) (left : List ℕ).
        copy_data io fuel offset size (read_size + n) left (pwrite (offset + read_size) buf file) in
      let file' = pwrite (offset + read_size) (take n xs) file in
      let left = length-drop {0} n xs in
      let total : read_size + n + length (drop n xs) ≡ size = omega (arith, left, within) in
      let place : offset + (read_size + n) ≡ offset + read_size + n = omega arith in
      ap
        (λ t.
          if t
          then then_copy (io (offset + read_size)) next (read_buf_from_stdin n (xs ++ rest))
          else some (xs ++ rest, file))
        more
      ∙ ap (then_copy (io (offset + read_size)) next) got
      ∙ ap (λ t. if t then next (take n xs) (drop n xs ++ rest) else none)
          (works (offset + read_size))
      ∙ sym (ap (λ m. copy_data io fuel offset m (read_size + n) (drop n xs ++ rest) file') total)
      ∙ copy_data_lem fuel offset (read_size + n) (drop n xs) rest file'
          (omega (arith, left, some_bytes, h))
      ∙ ap (λ o. some (rest, pwrite o (drop n xs) file')) place
      ∙ ap (λ f. some (rest, f)) (pwrite_split (offset + read_size) n xs file within)

  abbrev again : ℕ → List ℕ → ℕ → ℕ → List ℕ → Option (List ℕ)
  again fuel file = λ offset buf_size rest. rearrange_from io fuel offset buf_size rest file

  -- The data of a record are put in place, and the next header is read.
  data_step :
      (fuel offset : ℕ) (bytes : List ℕ) (pieces : List (ℕ × List ℕ)) (file : List ℕ)
      → AllProper ((offset, bytes) ∷ pieces)
      → rearrange_from io (suc fuel) offset (length bytes) (bytes ++ flat_records pieces) file
        ≡ after_header
            (again fuel (pwrite offset bytes file))
            (pwrite offset bytes file)
            (read_flat_data_header (flat_records pieces))
  unfolding rearrange_from
  data_step fuel offset bytes pieces file proper =
      let input = bytes ++ flat_records pieces in
      let next = λ (input' : List ℕ) (file' : List ℕ).
        after_header (again fuel file') file' (read_flat_data_header input') in
      let sized : is_negative (length bytes) ≡ false = ground (arith, proper.0) in
      let from_zero : 0 + length bytes ≡ length bytes = omega arith in
      let place : offset + 0 ≡ offset = omega arith in
      ap
        (λ t. after_data next (
          if t
          then some (input, file)
          else copy_data io (length bytes) offset (length bytes) 0 input file))
        sized
      ∙ sym
          (ap (λ m. after_data next (copy_data io (length bytes) offset m 0 input file)) from_zero)
      ∙ ap (after_data next)
          (copy_data_lem (length bytes) offset 0 bytes (flat_records pieces) file (omega arith))
      ∙ ap (λ o. next (flat_records pieces) (pwrite o bytes file)) place

  rearrange_from_lem :
      (fuel offset : ℕ) (bytes : List ℕ) (pieces : List (ℕ × List ℕ)) (file : List ℕ)
      → length pieces < fuel
      → AllProper ((offset, bytes) ∷ pieces)
      → rearrange_from io fuel offset (length bytes) (bytes ++ flat_records pieces) file
        ≡ some (put_all ((offset, bytes) ∷ pieces) file)
  unfolding rearrange_from flat_records
  rearrange_from_lem zero offset bytes pieces file h proper =
      absurd (let no : ⊥ = omega (arith, h) in no)
  rearrange_from_lem (suc fuel) offset bytes [] file h proper =
      data_step fuel offset bytes [] file proper
      ∙ ap (after_header (again fuel (pwrite offset bytes file)) (pwrite offset bytes file))
          (ap read_flat_data_header (sym (append-nil end_flat_header)) ∙ read-end_header [])
  rearrange_from_lem (suc fuel) offset bytes ((offset', bytes') ∷ pieces) file h proper =
      let file' = pwrite offset bytes file in
      let next = proper.1 in
      let go : (not (is_negative offset')
            && ltb 0 (length bytes')
            && not (is_negative (length bytes')))
          ≡ true =
        ground (arith, next.0) in
      data_step fuel offset bytes ((offset', bytes') ∷ pieces) file proper
      ∙ ap (after_header (again fuel file') file') (
          read-data_header offset' (length bytes') (bytes' ++ flat_records pieces)
            (omega (arith, next.0)) (omega (arith, next.0)))
      ∙ ap
          (λ t.
            if t
            then again fuel file' offset' (length bytes') (bytes' ++ flat_records pieces)
            else if offset' == end_flag && length bytes' == end_flag
            then some file'
            else none)
          go
      ∙ rearrange_from_lem fuel offset' bytes' pieces file' (omega (arith, h)) next

  -- Pieces that are flattened and then rearranged, with writes that succeed and with more fuel than
  -- there are pieces, leave the file as if each was written at its offset in turn. There is at least
  -- one piece, none is empty, and offsets and sizes fit signed numbers of 64 bits.
  pub rearrange_dumpdata-flattened :
      (fuel offset : ℕ) (bytes : List ℕ) (pieces : List (ℕ × List ℕ)) (file : List ℕ)
      → length pieces < fuel
      → AllProper ((offset, bytes) ∷ pieces)
      → rearrange_dumpdata io fuel (flattened ((offset, bytes) ∷ pieces)) file
        ≡ some (put_all ((offset, bytes) ∷ pieces) file)
  unfolding rearrange_dumpdata flat_records
  rearrange_dumpdata-flattened fuel offset bytes pieces file h proper =
      ap (after_start io fuel file) (read-start_header (flat_records ((offset, bytes) ∷ pieces)))
      ∙ ap (first_record io fuel file) (
          read-data_header offset (length bytes) (bytes ++ flat_records pieces)
            (omega (arith, proper.0)) (omega (arith, proper.0)))
      ∙ rearrange_from_lem fuel offset bytes pieces file h proper
