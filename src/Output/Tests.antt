-- ===== src/Output/Tests.antt =====
-- Runs of the output functions, and the theorems about them at concrete outputs.
use makedumpfile.Prelude.{
  ℕ, ◌++◌, length, ◌+◌, ◌≤◌, ◌≡◌, refl, true, false, none, some, List, [], ◌∷◌, take, ◌==◌, ◌&&◌,
  arith,
}
use makedumpfile.File.{pwrite}
use makedumpfile.Output.{
  Answer, wrote, interrupted, Info, Out, start_pos, pos_known, write_and_check_space, write_buffer,
  data_header, big_endian,
}
use makedumpfile.Output.Records.{write_buffer-data_header}
use makedumpfile.Output.Space.{Within, write_and_check_space-prefix}
use makedumpfile.Output.Complete.{progress, write_and_check_space_complete, write_buffer-true}

abbrev limited : Info
limited = record { size_limit = some 6; flag_dry_run = false }

abbrev free : Info
free = record { size_limit = none; flag_dry_run = false }

abbrev file : Out
file = record {
  to_stdout = false;
  seekable = true;
  bytes = 1 ∷ 2 ∷ 3 ∷ 4 ∷ [];
  pos = 4;
  write_bytes = 4;
  flag_nospace = false;
}

abbrev answers : List Answer
answers = wrote 1 ∷ interrupted ∷ wrote 9 ∷ []

abbrev cut : Out
cut = record {
  to_stdout = false;
  seekable = true;
  bytes = 1 ∷ 2 ∷ 3 ∷ 4 ∷ 5 ∷ 6 ∷ [];
  pos = 6;
  write_bytes = 6;
  flag_nospace = true;
}

-- A fifo.
no_seek-run :
    write_and_check_space free answers (record file { seekable = false }) (5 ∷ [])
    ≡ some (false, record file { seekable = false }, answers)
unfolding write_and_check_space
no_seek-run = refl

-- At a limit of 6 bytes, two of the three bytes are written.
cut-run : write_and_check_space limited answers file (5 ∷ 6 ∷ 7 ∷ []) ≡ some (false, cut, [])
unfolding write_and_check_space pwrite
cut-run = refl

write_and_check_space-prefix_example :
    (n : ℕ) × (n ≤ 3)
    × (cut.bytes ≡ pwrite 4 (take n (5 ∷ 6 ∷ 7 ∷ [])) file.bytes)
    × (cut.pos ≡ 4 + n)
    × (cut.write_bytes ≡ 4 + n)
    × (false ≡ (pos_known limited file && n == 3))
    × (cut.to_stdout ≡ false)
    × Within (some 6) (start_pos limited file) n
write_and_check_space-prefix_example =
    write_and_check_space-prefix limited answers file (5 ∷ 6 ∷ 7 ∷ []) refl (omega arith) cut-run

write_and_check_space_complete_example :
    (out' : Out) × (rest : List Answer) × (write_and_check_space free
        (interrupted ∷ wrote 1 ∷ wrote 3 ∷ [])
        file
        (5 ∷ 6 ∷ [])
      ≡ some (true, out', rest))
    × (out'.bytes ≡ pwrite 4 (5 ∷ 6 ∷ []) file.bytes)
write_and_check_space_complete_example =
    write_and_check_space_complete free (interrupted ∷ wrote 1 ∷ wrote 3 ∷ []) file (5 ∷ 6 ∷ [])
      refl refl refl (omega arith) (unfold progress in omega arith)

abbrev moved : Out
moved = record {
  to_stdout = false;
  seekable = true;
  bytes = 1 ∷ 8 ∷ 9 ∷ 4 ∷ [];
  pos = 3;
  write_bytes = 6;
  flag_nospace = false;
}

moved-run :
    write_buffer (λ off. true) free (wrote 2 ∷ []) file 1 (8 ∷ 9 ∷ []) ≡ some (true, moved, [])
unfolding write_buffer write_and_check_space pwrite
moved-run = refl

write_buffer-true_example :
    (moved.bytes ≡ pwrite 1 (8 ∷ 9 ∷ []) file.bytes)
    × (moved.pos ≡ 1 + 2)
    × (moved.to_stdout ≡ false)
write_buffer-true_example =
    write_buffer-true (λ off. true) free (wrote 2 ∷ []) file 1 (8 ∷ 9 ∷ []) refl refl (omega arith)
      moved-run

abbrev pipe : Out
pipe = record {
  to_stdout = true;
  seekable = false;
  bytes = 1 ∷ [];
  pos = 1;
  write_bytes = 1;
  flag_nospace = false;
}

abbrev piped : Out
piped = record {
  to_stdout = true;
  seekable = false;
  bytes = 1 ∷ (data_header 258 2 ++ (8 ∷ 9 ∷ []));
  pos = 19;
  write_bytes = 19;
  flag_nospace = false;
}

piped-run :
    write_buffer (λ off. true) free (wrote 16 ∷ wrote 1 ∷ wrote 1 ∷ []) pipe 258 (8 ∷ 9 ∷ [])
    ≡ some (true, piped, [])
unfolding write_buffer write_and_check_space pwrite data_header big_endian
piped-run = refl

write_buffer-data_header_example :
    (piped.bytes ≡ pipe.bytes ++ (data_header 258 2 ++ (8 ∷ 9 ∷ [])))
    × (piped.pos ≡ length piped.bytes)
    × (piped.write_bytes ≡ 1 + 16 + 2)
    × (piped.to_stdout ≡ true)
write_buffer-data_header_example =
    write_buffer-data_header (λ off. true) free (wrote 16 ∷ wrote 1 ∷ wrote 1 ∷ []) pipe 258
      (8 ∷ 9 ∷ []) refl refl refl (omega arith) piped-run
