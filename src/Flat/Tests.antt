-- ===== src/Flat/Tests.antt =====
-- Two pieces that overlap, flattened and rearranged.
use makedumpfile.Prelude.{length, false, none, ℕ, ◌≡◌, refl, true, some, List, [], ◌∷◌, arith}
use makedumpfile.File.{pwrite, splice}
use makedumpfile.Output.{
  Answer, wrote, interrupted, Info, Out, write_and_check_space, write_buffer, data_header,
  big_endian,
}
use makedumpfile.Flat.Written.{write_flattened, write_pieces, write_flattened-rearrange_dumpdata}
use makedumpfile.Flat.{
  write_start_flat_header, write_end_flat_header, start_flat_header, end_flat_header,
  rearrange_dumpdata,
}
use makedumpfile.Flat.RoundTrip.{flat_records, flattened, put_all, rearrange_dumpdata-flattened}

abbrev pieces : List (ℕ × List ℕ)
pieces = (2, 5 ∷ 6 ∷ 7 ∷ []) ∷ (1, 8 ∷ 9 ∷ []) ∷ []

pieces-run : put_all pieces [] ≡ 0 ∷ 8 ∷ 9 ∷ 6 ∷ 7 ∷ []
unfolding pwrite splice
pieces-run = refl

rearrange_dumpdata-flattened_example :
    rearrange_dumpdata (λ offset. true) 2 (flattened pieces) [] ≡ some (put_all pieces [])
rearrange_dumpdata-flattened_example =
    rearrange_dumpdata-flattened (λ offset. true) (λ offset. refl) 2 2 (5 ∷ 6 ∷ 7 ∷ [])
      ((1, 8 ∷ 9 ∷ []) ∷ []) [] (omega arith)
      ((omega arith, omega arith, omega arith), ((omega arith, omega arith, omega arith), tt))

abbrev free : Info
free = record { size_limit = none; flag_dry_run = false }

abbrev pipe : Out
pipe = record {
  to_stdout = true;
  seekable = false;
  bytes = [];
  pos = 0;
  write_bytes = 0;
  flag_nospace = false;
}

abbrev one_piece : List (ℕ × List ℕ)
one_piece = (2, 5 ∷ 6 ∷ []) ∷ []

abbrev full : Out
full = record {
  to_stdout = true;
  seekable = false;
  bytes = flattened one_piece;
  pos = 4130;
  write_bytes = 4130;
  flag_nospace = false;
}

abbrev answers : List Answer
answers = wrote 4096 ∷ wrote 16 ∷ wrote 2 ∷ interrupted ∷ wrote 16 ∷ []

written-run : write_flattened (λ off. true) free one_piece answers pipe ≡ some (true, full, [])
unfolding write_flattened write_pieces write_start_flat_header write_end_flat_header write_buffer
    write_and_check_space pwrite splice flat_records start_flat_header end_flat_header data_header
    big_endian
written-run = refl

flattened-length : length (flattened one_piece) ≡ 4130
unfolding flat_records start_flat_header end_flat_header data_header big_endian
flattened-length = refl

write_flattened-rearrange_dumpdata_example :
    rearrange_dumpdata (λ place. true) 1 full.bytes [] ≡ some (put_all one_piece [])
write_flattened-rearrange_dumpdata_example =
    write_flattened-rearrange_dumpdata (λ off. true) free (λ place. true) (λ place. refl) 1 2
      (5 ∷ 6 ∷ []) [] answers pipe [] refl refl refl refl refl (omega (arith, flattened-length))
      ((omega arith, omega arith, omega arith), tt) (omega arith) written-run
