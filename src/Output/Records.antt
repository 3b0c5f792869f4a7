-- ===== src/Output/Records.antt =====
-- What `write_buffer` puts on the standard output: one record of the flattened format.
use makedumpfile.Prelude.{
  ℕ, ◌+◌, ◌^◌, ◌<◌, ◌≡◌, refl, ap, ◌∙◌, sym, Bool, true, false, some, List, [], ◌∷◌, ◌++◌, length,
  length-append, append-nil, append_assoc, arith, Option-cases, inl, inr,
}
use makedumpfile.File.{splice, pwrite}
use makedumpfile.File.Split.{drop-nil}
use makedumpfile.Output.{
  Answer, Info, Out, start_pos, write_and_check_space, data_header, big_endian, write_buffer,
}
use makedumpfile.Output.Space.{write_and_check_space-prefix}
use makedumpfile.Output.Complete.{take-length}

splice_end : (buf file : List ℕ) → splice (length file) buf file ≡ file ++ buf
unfolding splice
splice_end buf [] = ap (λ t. buf ++ t) (drop-nil (length buf)) ∙ append-nil buf
splice_end buf (x ∷ file) = ap (◌∷◌ x) (splice_end buf file)

pwrite_end : (buf file : List ℕ) → pwrite (length file) buf file ≡ file ++ buf
unfolding pwrite
pwrite_end [] file = sym (append-nil file)
pwrite_end (b ∷ buf) file = splice_end (b ∷ buf) file

-- A complete write at the end of a pipe.
pub write_at_end :
    (info : Info) (answers : List Answer) (out : Out) (buf : List ℕ) {out' : Out}
    {rest : List Answer}
    → info.flag_dry_run ≡ false
    → out.pos ≡ length out.bytes
    → start_pos info out + length buf < 2 ^ 64
    → write_and_check_space info answers out buf ≡ some (true, out', rest)
    → (out'.bytes ≡ out.bytes ++ buf)
      × (out'.pos ≡ length out'.bytes)
      × (out'.write_bytes ≡ out.write_bytes + length buf)
      × (out'.to_stdout ≡ out.to_stdout)
write_at_end info answers out buf {out'} {rest} real at_end small e =
    let w = write_and_check_space-prefix info answers out buf real small e in
    let whole : w.0 ≡ length buf = ground (arith, w.5) in
    let bytes : out'.bytes ≡ out.bytes ++ buf =
      w.2
      ∙ ap (λ ys. pwrite out.pos ys out.bytes) (take-length buf w.0 (ground (arith, w.5)))
      ∙ ap (λ p. pwrite p buf out.bytes) at_end
      ∙ pwrite_end buf out.bytes in
    (
      bytes,
      omega (arith, w.3, whole, at_end, ap (length {A = ℕ}) bytes, length-append {0} out.bytes buf),
      omega (arith, w.4, whole),
      w.6,
    )

pub length-data_header : (offset buf_size : ℕ) → length (data_header offset buf_size) ≡ 16
unfolding data_header big_endian
length-data_header offset buf_size = refl

-- A call of `write_buffer` on the standard output that returns true, in 64 bits and with no dry run,
-- appends one record to what was written before: the header with the offset and the size, and the
-- buffer.
pub write_buffer-data_header :
    (seek : ℕ → Bool) (info : Info) (answers : List Answer) (out : Out) (offset : ℕ) (buf : List ℕ)
    {out' : Out} {rest : List Answer}
    → info.flag_dry_run ≡ false
    → out.to_stdout ≡ true
    → out.pos ≡ length out.bytes
    → out.write_bytes + 16 + length buf < 2 ^ 64
    → write_buffer seek info answers out offset buf ≡ some (true, out', rest)
    → (out'.bytes ≡ out.bytes ++ (data_header offset (length buf) ++ buf))
      × (out'.pos ≡ length out'.bytes)
      × (out'.write_bytes ≡ out.write_bytes + 16 + length buf)
      × (out'.to_stdout ≡ true)
unfolding write_buffer
write_buffer-data_header seek info answers out offset buf {out'} {rest} real piped at_end small e =
    let header = data_header offset (length buf) in
    elim (Option-cases (write_and_check_space info answers out header)) [
      | inl r ↦ absurd (ground arith)
      | inr ((false, o, left), r) ↦ absurd (ground arith)
      | inr ((true, o, left), r) ↦
          let sixteen : length header ≡ 16 = length-data_header offset (length buf) in
          let first =
            write_at_end info answers out header real at_end (ground (arith, sixteen)) r in
          let body : write_and_check_space info left o buf ≡ some (true, out', rest) =
            ground arith in
          let second =
            write_at_end info left o buf real first.1 (ground (arith, sixteen, first)) body in
          (
            second.0 ∙ ap (λ t. t ++ buf) first.0 ∙ append_assoc out.bytes header buf,
            second.1,
            omega (arith, second.2, first.2, sixteen),
            second.3 ∙ first.3 ∙ piped,
          )
    ]
