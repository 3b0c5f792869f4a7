-- ===== src/Output/Complete.antt =====
-- A write completes if the kernel makes progress, and what a complete write leaves in the file.
use makedumpfile.Prelude.{
  ℕ, zero, suc, ◌+◌, ◌-◌, ◌≤◌, ◌<◌, ◌^◌, ◌≡◌, refl, ap, ◌∙◌, Bool, true, false, none, some, List,
  [], ◌∷◌, length, take, drop, min, ltb, ◌==◌, arith, Bool-cases, inl, inr,
}
use makedumpfile.File.{pwrite}
use makedumpfile.Output.{
  Answer, wrote, interrupted, nospace, failed, Info, Out, emit, write_loop, start_pos, pos_known,
  write_and_check_space, seek_to, write_buffer,
}
use makedumpfile.Output.Space.{write_and_check_space-prefix}

-- How often the kernel takes at least one byte before it first gives up.
unfoldable pub progress : List Answer → ℕ
progress [] = 0
progress (wrote zero ∷ answers) = 0
progress (wrote (suc n) ∷ answers) = suc (progress answers)
progress (interrupted ∷ answers) = progress answers
progress (nospace ∷ answers) = 0
progress (failed ∷ answers) = 0

write_loop_complete :
    (answers : List Answer) (out : Out) (buf : List ℕ) (done limit : ℕ)
    → done ≤ limit
    → limit - done ≤ progress answers
    → (out' : Out) × (rest : List Answer) × (write_loop answers out buf done limit
        ≡ some (limit, out', rest))
unfolding write_loop progress
write_loop_complete [] out buf done limit h p = (out, [], ground arith)
write_loop_complete (wrote zero ∷ answers) out buf done limit h p =
    (out, wrote zero ∷ answers, ground arith)
write_loop_complete (wrote (suc n) ∷ answers) out buf done limit h p =
    elim (Bool-cases (ltb done limit)) [
      | inl more ↦
          let k = min (suc n) (limit - done) in
          let r =
            write_loop_complete answers (emit (take k buf) out) (drop k buf) (done + k) limit
              (omega arith) (ground arith) in
          (r.0, r.1, ground (arith, r))
      | inr over ↦ (out, wrote (suc n) ∷ answers, ground arith)
    ]
write_loop_complete (interrupted ∷ answers) out buf done limit h p =
    elim (Bool-cases (ltb done limit)) [
      | inl more ↦
          let r = write_loop_complete answers out buf done limit h p in
          (r.0, r.1, ground (arith, r))
      | inr over ↦ (out, interrupted ∷ answers, ground arith)
    ]
write_loop_complete (nospace ∷ answers) out buf done limit h p =
    (out, nospace ∷ answers, ground arith)
write_loop_complete (failed ∷ answers) out buf done limit h p =
    (out, failed ∷ answers, ground arith)

pub take-length : (xs : List ℕ) (n : ℕ) → (n == length xs) ≡ true → take n xs ≡ xs
take-length [] zero e = refl
take-length [] (suc n) e = refl
take-length (x ∷ xs) zero e = absurd (ground arith)
take-length (x ∷ xs) (suc n) e = ap (◌∷◌ x) (take-length xs n (ground arith))

-- With no size limit and no dry run, and if the position of the output is known (`lseek` tells it, or
-- it is the standard output) and the sums stay below 2^64, the buffer is written whole and the result is true, if the kernel takes at
-- least one byte as often as the buffer has bytes, however often it is interrupted in between.
pub write_and_check_space_complete :
    (info : Info) (answers : List Answer) (out : Out) (buf : List ℕ)
    → info.flag_dry_run ≡ false
    → info.size_limit ≡ none
    → pos_known info out ≡ true
    → start_pos info out + length buf < 2 ^ 64
    → length buf ≤ progress answers
    → (out' : Out) × (rest : List Answer) × (write_and_check_space info answers out buf
        ≡ some (true, out', rest))
      × (out'.bytes ≡ pwrite out.pos buf out.bytes)
unfolding write_and_check_space
write_and_check_space_complete info answers out buf real free known small p =
    let r = write_loop_complete answers out buf 0 (length buf) (omega arith) (omega arith) in
    let out' = record r.0 { write_bytes = r.0.write_bytes + length buf } in
    let done : write_and_check_space info answers out buf ≡ some (true, out', r.1) =
      ground (arith, r) in
    let w = write_and_check_space-prefix info answers out buf real small done in
    (
      out',
      r.1,
      done,
      w.2 ∙ ap (λ ys. pwrite out.pos ys out.bytes) (take-length buf w.0 (ground (arith, w.5))),
    )

-- A call of `write_buffer` on a file, not the standard output, that is no dry run, of a range that ends
-- below 2^64: if it returns true it has put the buffer at its offset, and left the position behind it; the rest of the file is as it was.
pub write_buffer-true :
    (seek : ℕ → Bool) (info : Info) (answers : List Answer) (out : Out) (offset : ℕ) (buf : List ℕ)
    {out' : Out} {rest : List Answer}
    → info.flag_dry_run ≡ false
    → out.to_stdout ≡ false
    → offset + length buf < 2 ^ 64
    → write_buffer seek info answers out offset buf ≡ some (true, out', rest)
    → (out'.bytes ≡ pwrite offset buf out.bytes)
      × (out'.pos ≡ offset + length buf)
      × (out'.to_stdout ≡ false)
unfolding write_buffer
write_buffer-true seek info answers out offset buf {out'} {rest} real on_file small e =
    elim (Bool-cases (seek offset)) [
      | inl ok ↦
          let there = seek_to offset out in
          let done : write_and_check_space info answers there buf ≡ some (true, out', rest) =
            ground arith in
          let w = write_and_check_space-prefix info answers there buf real (ground arith) done in
          (
            w.2 ∙ ap (λ ys. pwrite offset ys out.bytes) (take-length buf w.0 (ground (arith, w.5))),
            ground (arith, w),
            ground (arith, w),
          )
      | inr ko ↦ absurd (ground arith)
    ]
