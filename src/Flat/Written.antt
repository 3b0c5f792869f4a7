-- ===== src/Flat/Written.antt =====
-- A dump that is written to the standard output, and what is made of it later.
use makedumpfile.Prelude.{
  ℕ, ◌+◌, ◌^◌, ◌<◌, ◌≡◌, refl, ap, ◌∙◌, sym, Bool, true, false, Option, none, some, List, [], ◌∷◌,
  ◌++◌, length, length-append, append_assoc, arith,
}
use mathlib.Core.Option.{none-ne-some}
use makedumpfile.Output.{Answer, Info, Out, write_and_check_space, data_header, write_buffer}
use makedumpfile.Output.Records.{write_at_end, length-data_header, write_buffer-data_header}
use makedumpfile.Flat.{
  write_start_flat_header, write_end_flat_header, start_flat_header, end_flat_header,
  rearrange_dumpdata,
}
use makedumpfile.Flat.RoundTrip.{
  flat_records, flattened, put_all, AllProper, rearrange_dumpdata-flattened,
}

abbrev pub Written : Type 0
Written = Option (Bool × Out × List Answer)

-- What follows a write, if it is complete.
abbrev pub then_go : (Out → List Answer → Written) → Written → Written
then_go next none = none
then_go next (some (true, out, answers)) = next out answers
then_go next (some (false, out, answers)) = some (false, out, answers)

module _ (seek : ℕ → Bool) (info : Info) where
  -- The calls of `write_buffer` that make a dump, up to the first that fails, and then
  -- `write_end_flat_header`.
  unfoldable pub write_pieces : List (ℕ × List ℕ) → List Answer → Out → Written
  write_pieces [] answers out = write_end_flat_header true info answers out
  write_pieces ((offset, bytes) ∷ pieces) answers out =
      then_go (λ out' answers'. write_pieces pieces answers' out')
        (write_buffer seek info answers out offset bytes)

  -- `write_start_flat_header` comes before.
  unfoldable pub write_flattened : List (ℕ × List ℕ) → List Answer → Out → Written
  write_flattened pieces answers out =
      then_go (λ out' answers'. write_pieces pieces answers' out')
        (write_start_flat_header true info answers out)

  then_go-true :
      (next : Out → List Answer → Written) (written : Written) {out : Out} {rest : List Answer}
      → then_go next written ≡ some (true, out, rest)
      → (out' : Out) × (left : List Answer) × (written ≡ some (true, out', left))
        × (next out' left ≡ some (true, out, rest))
  then_go-true next none {out} {rest} e = absurd (none-ne-some _ e)
  then_go-true next (some (true, o, left)) {out} {rest} e = (o, left, refl, e)
  then_go-true next (some (false, o, left)) {out} {rest} e = absurd (ground arith)

  write_pieces-flat_records :
      (pieces : List (ℕ × List ℕ)) (answers : List Answer) (out : Out) {out' : Out}
      {rest : List Answer}
      → info.flag_dry_run ≡ false
      → out.to_stdout ≡ true
      → out.pos ≡ length out.bytes
      → out.write_bytes + length (flat_records pieces) < 2 ^ 64
      → write_pieces pieces answers out ≡ some (true, out', rest)
      → out'.bytes ≡ out.bytes ++ flat_records pieces
  unfolding write_pieces flat_records write_end_flat_header
  write_pieces-flat_records [] answers out {out'} {rest} real piped at_end small e =
      (write_at_end info answers out end_flat_header real at_end (ground (arith, small, piped)) e).0
  write_pieces-flat_records ((offset, bytes) ∷ pieces) answers out {out'} {rest} real piped at_end
        small e =
      let header = data_header offset (length bytes) in
      let step =
        then_go-true (λ o a. write_pieces pieces a o)
          (write_buffer seek info answers out offset bytes) e in
      let o = step.0 in
      let sizes = length-data_header offset (length bytes) in
      let outer = length-append {0} header (bytes ++ flat_records pieces) in
      let inner = length-append {0} bytes (flat_records pieces) in
      let first =
        write_buffer-data_header seek info answers out offset bytes real piped at_end
          (omega (arith, small, sizes, outer, inner)) step.2 in
      let later =
        write_pieces-flat_records pieces step.1 o real first.3 first.1
          (omega (arith, small, sizes, outer, inner, first.2)) step.3 in
      later
      ∙ ap (λ t. t ++ flat_records pieces) first.0
      ∙ append_assoc out.bytes (header ++ bytes) (flat_records pieces)
      ∙ ap (λ t. out.bytes ++ t) (append_assoc header bytes (flat_records pieces))

  -- A dump of at least one piece that is written to an empty standard output, in the flattened format
  -- and with every write complete, is rearranged, with writes that succeed and with more fuel than
  -- there are further pieces, to the file that has each piece at its offset, the later ones over the
  -- earlier ones. No piece is empty, offsets and sizes are signed numbers of 64 bits, and the whole
  -- stream is shorter than 2 ^ 64 bytes.
  pub write_flattened-rearrange_dumpdata :
      (io : ℕ → Bool) (works : (place : ℕ) → io place ≡ true) (fuel offset : ℕ) (bytes : List ℕ)
      (pieces : List (ℕ × List ℕ)) (answers : List Answer) (out : Out) (file : List ℕ) {out' : Out}
      {rest : List Answer}
      → info.flag_dry_run ≡ false
      → out.to_stdout ≡ true
      → out.bytes ≡ []
      → out.pos ≡ 0
      → out.write_bytes ≡ 0
      → length (flattened ((offset, bytes) ∷ pieces)) < 2 ^ 64
      → AllProper ((offset, bytes) ∷ pieces)
      → length pieces < fuel
      → write_flattened ((offset, bytes) ∷ pieces) answers out ≡ some (true, out', rest)
      → rearrange_dumpdata io fuel out'.bytes file ≡ some (put_all ((offset, bytes) ∷ pieces) file)
  unfolding write_flattened write_start_flat_header
  write_flattened-rearrange_dumpdata io works fuel offset bytes pieces answers out file {out'}
        {rest} real piped empty front unwritten small proper enough e =
      let all : List (ℕ × List ℕ) = (offset, bytes) ∷ pieces in
      let step =
        then_go-true (λ o a. write_pieces all a o)
          (write_and_check_space info answers out start_flat_header) e in
      let total = length-append {0} start_flat_header (flat_records all) in
      let at_end : out.pos ≡ length out.bytes = front ∙ sym (ap (length {A = ℕ}) empty) in
      let first =
        write_at_end info answers out start_flat_header real at_end (ground (arith, small, total))
          step.2 in
      let later =
        write_pieces-flat_records all step.1 step.0 real (first.3 ∙ piped) first.1
          (omega (arith, small, total, first.2, unwritten)) step.3 in
      let stream : out'.bytes ≡ flattened all =
        later
        ∙ ap (λ t. t ++ flat_records all) (first.0 ∙ ap (λ t. t ++ start_flat_header) empty) in
      ap (λ input. rearrange_dumpdata io fuel input file) stream
      ∙ rearrange_dumpdata-flattened io works fuel offset bytes pieces file enough proper
