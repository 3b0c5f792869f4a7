-- ===== src/Buffered/Stream.antt =====
-- The buffer and the file together as one stream of bytes.
use makedumpfile.Prelude.{
  ℕ, ◌+◌, ◌-◌, ◌≤◌, ◌<◌, ◌^◌, ◌≡◌, ap, Bool, true, false, ◌&&◌, some, List, [], ◌∷◌, ◌++◌, length,
  get_or, take, drop, length-take, length-drop, length-append, ltb, leb, ◌==◌, if◌then◌else◌, arith,
  Option-cases, Bool-cases, inl, inr,
}
use makedumpfile.File.{pwrite}
use makedumpfile.File.Laws.{get_or-append, get_or-pwrite, get_or-take, get_or-drop, length-pwrite}
use makedumpfile.Output.{Answer, Info, Out, write_buffer}
use makedumpfile.Output.Complete.{write_buffer-true}
use makedumpfile.Buffered.{
  CacheData, append_buf, shift_buf, write_cache, write_cache_bufsz, write_all,
}

-- Byte `k` of the dump file, once the buffer is written out.
abbrev pub stream : CacheData → Out → ℕ → ℕ
stream cd out k =
    if leb cd.offset k && ltb k (cd.offset + cd.buf_size)
    then get_or cd.buf (k - cd.offset) 0
    else get_or out.bytes k 0

-- Where the next byte goes.
abbrev pub end_of : CacheData → ℕ
end_of cd = cd.offset + cd.buf_size

-- Room for a page past the cache, which is not full. The file is a real one.
pub record IsReady (page_size : ℕ) (cd : CacheData) (out : Out) : Type 0 where
  pub room : cd.cache_size + page_size ≤ length cd.buf
  pub page : page_size ≤ cd.cache_size
  pub below : cd.buf_size < cd.cache_size
  pub on_file : out.to_stdout ≡ false

-- Data copied behind the buffer is the next part of the stream.
append_buf-stream :
    (out : Out) (cd : CacheData) (bytes : List ℕ) (k : ℕ)
    → stream (append_buf cd bytes) out k ≡ (
        if leb (end_of cd) k && ltb k (end_of cd + length bytes)
        then get_or bytes (k - end_of cd) 0
        else stream cd out k)
append_buf-stream out cd bytes k =
    ground (arith, get_or-pwrite cd.buf_size bytes cd.buf (k - cd.offset))

-- What the front of the buffer holds after the rest is moved there.
get_or-moved :
    (buf : List ℕ) (size n i : ℕ)
    → size + n ≤ length buf
    → i < n
    → get_or (pwrite 0 (take n (drop size buf)) buf) i 0 ≡ get_or buf (size + i) 0
get_or-moved buf size n i h lt =
    let moved = take n (drop size buf) in
    let len : length moved ≡ n =
      omega (arith, length-take {0} n (drop size buf), length-drop {0} size buf) in
    let same : i - 0 ≡ i = omega arith in
    ground (
      arith,
      get_or-pwrite 0 moved buf i,
      ap (λ j. get_or moved j 0) same,
      get_or-take n i (drop size buf),
      get_or-drop size i buf,
    )

-- The first block written to the file and the rest moved to the front leave the stream as it was.
shift_buf-stream :
    (out out' : Out) (cd : CacheData) (k : ℕ)
    → cd.cache_size ≤ cd.buf_size
    → cd.buf_size ≤ length cd.buf
    → out'.bytes ≡ pwrite cd.offset (take cd.cache_size cd.buf) out.bytes
    → stream (shift_buf cd) out' k ≡ stream cd out k
shift_buf-stream out out' cd k full room e =
    let block = take cd.cache_size cd.buf in
    let at = k - (cd.offset + cd.cache_size) in
    let n = cd.buf_size - cd.cache_size in
    let len : length block ≡ cd.cache_size = omega (arith, length-take {0} cd.cache_size cd.buf) in
    let there : get_or out'.bytes k 0 ≡ get_or (pwrite cd.offset block out.bytes) k 0 =
      ap (λ ys. get_or ys k 0) e in
    ground (
      arith,
      there,
      len,
      get_or-pwrite cd.offset block out.bytes k,
      get_or-take cd.cache_size (k - cd.offset) cd.buf,
      get_or-moved cd.buf cd.cache_size n at,
    )

module _ (seek : ℕ → Bool) (info : Info) where
  -- On a file and in no dry run, with a buffer that is ready and data of at most a page: if it returns
  -- true, `write_cache` appends the data to the stream, changes no other byte of it, and leaves the
  -- buffer less than full.
  pub write_cache-stream :
      (page_size : ℕ) (answers : List Answer) (out : Out) (cd : CacheData) (bytes : List ℕ) (k : ℕ)
      {cd' : CacheData} {out' : Out} {rest : List Answer}
      → info.flag_dry_run ≡ false
      → IsReady page_size cd out
      → length bytes ≤ page_size
      → end_of cd + length bytes + cd.cache_size < 2 ^ 64
      → write_cache seek info answers out cd bytes ≡ some (true, cd', out', rest)
      → (stream cd' out' k ≡ (
          if leb (end_of cd) k && ltb k (end_of cd + length bytes)
          then get_or bytes (k - end_of cd) 0
          else stream cd out k))
        × (end_of cd' ≡ end_of cd + length bytes)
        × (cd'.cache_size ≡ cd.cache_size)
        × IsReady page_size cd' out'
  unfolding write_cache
  write_cache-stream page_size answers out cd bytes k {cd'} {out'} {rest} real ready fit small e =
      let cd₁ = append_buf cd bytes in
      let block = take cd₁.cache_size cd₁.buf in
      elim (Bool-cases (ltb cd₁.buf_size cd₁.cache_size)) [
        | inl more ↦
            ground (arith, append_buf-stream out cd bytes k, length-pwrite cd.buf_size bytes cd.buf)
        | inr over ↦ elim (Option-cases (write_buffer seek info answers out cd₁.offset block)) [
          | inl w ↦ absurd (ground arith)
          | inr ((false, o, left), w) ↦ absurd (ground arith)
          | inr ((true, o, left), w) ↦
              let grown = length-pwrite cd.buf_size bytes cd.buf in
              let len : length block ≡ cd.cache_size =
                omega (arith, length-take {0} cd.cache_size cd₁.buf) in
              let done =
                write_buffer-true seek info answers out cd.offset block real ready.on_file
                  (omega arith) w in
              let kept = shift_buf-stream out o cd₁ k (ground arith) (omega arith) done.0 in
              (
                ground (arith, kept, append_buf-stream out cd bytes k),
                ground arith,
                ground arith,
                ground (
                  arith,
                  grown,
                  done,
                  length-pwrite 0 (take (cd₁.buf_size - cd.cache_size) (drop cd.cache_size cd₁.buf))
                      cd₁.buf,
                ),
              )
        ]
      ]

  -- On a file, not the standard output, and in no dry run, where the buffer holds what is counted and
  -- the stream ends below 2^64: if it returns true, `write_cache_bufsz` empties the buffer, and the
  -- file alone is the stream, which ends where it did.
  pub write_cache_bufsz-stream :
      (answers : List Answer) (out : Out) (cd : CacheData) (k : ℕ) {cd' : CacheData} {out' : Out}
      {rest : List Answer}
      → info.flag_dry_run ≡ false
      → out.to_stdout ≡ false
      → cd.buf_size ≤ length cd.buf
      → end_of cd < 2 ^ 64
      → write_cache_bufsz seek info answers out cd ≡ some (true, cd', out', rest)
      → (get_or out'.bytes k 0 ≡ stream cd out k)
        × (cd'.buf_size ≡ 0)
        × (cd'.offset ≡ end_of cd)
        × (out'.to_stdout ≡ false)
  unfolding write_cache_bufsz
  write_cache_bufsz-stream answers out cd k {cd'} {out'} {rest} real on_file room small e =
      let block = take cd.buf_size cd.buf in
      elim (Bool-cases (cd.buf_size == 0)) [
        | inl empty ↦ ground arith
        | inr more ↦ elim (Option-cases (write_buffer seek info answers out cd.offset block)) [
          | inl w ↦ absurd (ground arith)
          | inr ((false, o, left), w) ↦ absurd (ground arith)
          | inr ((true, o, left), w) ↦
              let len : length block ≡ cd.buf_size =
                omega (arith, length-take {0} cd.buf_size cd.buf) in
              let done =
                write_buffer-true seek info answers out cd.offset block real on_file (omega arith)
                  w in
              let there : get_or o.bytes k 0 ≡ get_or (pwrite cd.offset block out.bytes) k 0 =
                ap (λ ys. get_or ys k 0) done.0 in
              ground (
                arith,
                len,
                done,
                there,
                get_or-pwrite cd.offset block out.bytes k,
                get_or-take cd.buf_size (k - cd.offset) cd.buf,
              )
        ]
      ]

abbrev pub AllFit : ℕ → List (List ℕ) → Type 0
AllFit page_size [] = Unit {0}
AllFit page_size (piece ∷ pieces) = (length piece ≤ page_size) × AllFit page_size pieces

-- The pieces one after the other.
abbrev pub concat : List (List ℕ) → List ℕ
concat [] = []
concat (piece ∷ pieces) = piece ++ concat pieces

-- A byte after a piece and then the rest are put behind `start`.
two_parts :
    (start next k : ℕ) (piece rest : List ℕ) (old : ℕ) {mid new : ℕ}
    → next ≡ start + length piece
    → mid
      ≡ (if leb start k && ltb k (start + length piece) then get_or piece (k - start) 0 else old)
    → new ≡ (if leb next k && ltb k (next + length rest) then get_or rest (k - next) 0 else mid)
    → new ≡ (
        if leb start k && ltb k (start + length (piece ++ rest))
        then get_or (piece ++ rest) (k - start) 0
        else old)
two_parts start next k piece rest old e first second =
    let shifted : get_or rest (k - next) 0 ≡ get_or rest (k - start - length piece) 0 =
      ap (λ i. get_or rest i 0) {x = k - next} (omega arith) in
    ground (arith, shifted, length-append {0} piece rest, get_or-append piece rest (k - start))

module _ (seek : ℕ → Bool) (info : Info) where
  -- On a file, not the standard output, and in no dry run, with a buffer that is less than full and
  -- has room for a page more, pieces of at most a page, and offsets below 2^64: if all the writes
  -- return true, the file holds the pieces one after the other from where the
  -- stream ended, and every other byte of the stream is as it was.
  pub write_all-stream :
      (page_size : ℕ) (answers : List Answer) (out : Out) (cd : CacheData) (pieces : List (List ℕ))
      (k : ℕ) {cd' : CacheData} {out' : Out} {rest : List Answer}
      → info.flag_dry_run ≡ false
      → IsReady page_size cd out
      → AllFit page_size pieces
      → end_of cd + length (concat pieces) + cd.cache_size < 2 ^ 64
      → write_all seek info answers out cd pieces ≡ some (true, cd', out', rest)
      → get_or out'.bytes k 0 ≡ (
          if leb (end_of cd) k && ltb k (end_of cd + length (concat pieces))
          then get_or (concat pieces) (k - end_of cd) 0
          else stream cd out k)
  unfolding write_all
  write_all-stream page_size answers out cd [] k real ready fit small e = ground (
    arith,
    write_cache_bufsz-stream seek info answers out cd k real ready.on_file (omega arith)
        (omega arith) e,
  )
  write_all-stream page_size answers out cd (piece ∷ pieces) k {cd'} {out'} {rest} real ready fit
        small e =
      elim (Option-cases (write_cache seek info answers out cd piece)) [
        | inl w ↦ absurd (ground arith)
        | inr ((false, c, o, left), w) ↦ absurd (ground arith)
        | inr ((true, c, o, left), w) ↦
            let len = length-append {0} piece (concat pieces) in
            let first =
              write_cache-stream seek info page_size answers out cd piece k real ready fit.0
                (omega (arith, len)) w in
            let others =
              write_all-stream page_size left o c pieces k {cd' = cd'} {out' = out'} {rest = rest}
                real first.3 fit.1 (omega (arith, len, first.1, first.2)) (ground arith) in
            two_parts (end_of cd) (end_of c) k piece (concat pieces) (stream cd out k) first.1
              first.0 others
      ]
