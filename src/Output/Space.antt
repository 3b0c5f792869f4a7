-- ===== src/Output/Space.antt =====
-- What `write_and_check_space` leaves in the file: a prefix of the buffer, cut at the size limit.
use makedumpfile.Prelude.{
  ℕ, zero, suc, ◌+◌, ◌-◌, ◌≤◌, ◌<◌, ◌^◌, ◌≡◌, refl, ap, ◌∙◌, sym, subst, Bool, true, false, ◌&&◌,
  not, Option, none, some, List, [], ◌∷◌, ◌++◌, length, take, drop, min, max, length-take,
  length-drop, ltb, ◌==◌, if◌then◌else◌, arith, Bool-cases, Option-cases, inl, inr,
}
use makedumpfile.File.{pwrite}
use makedumpfile.File.Split.{pwrite-append}
use makedumpfile.Output.{
  Answer, wrote, interrupted, nospace, failed, Info, Out, emit, write_loop, start_pos, over_limit,
  room_below, pos_known, finish_write, write_and_check_space,
}

take-nil : (m : ℕ) → take {A = ℕ} m [] ≡ []
take-nil zero = refl
take-nil (suc m) = refl

take-add : (k m : ℕ) (xs : List ℕ) → take (k + m) xs ≡ take k xs ++ take m (drop k xs)
take-add zero m xs = let e : zero + m ≡ m = omega arith in rw e
take-add (suc k) m [] = let e : suc k + m ≡ suc (k + m) = omega arith in rw e (sym (take-nil m))
take-add (suc k) m (x ∷ xs) =
    let e : suc k + m ≡ suc (k + m) = omega arith in rw e (ap (◌∷◌ x) (take-add k m xs))

-- Two writes, of `k` bytes of the buffer and of `m` more.
emit_twice :
    (pos k m : ℕ) (buf file : List ℕ)
    → k ≤ length buf
    → pwrite (pos + k) (take m (drop k buf)) (pwrite pos (take k buf) file)
      ≡ pwrite pos (take (k + m) buf) file
emit_twice pos k m buf file h =
    let e : length (take k buf) ≡ k = omega (arith, length-take {0} k buf) in
    rw take-add (
      subst
        (λ j.
          pwrite (pos + j) (take m (drop k buf)) (pwrite pos (take k buf) file)
          ≡ pwrite pos (take k buf ++ take m (drop k buf)) file)
        e (pwrite-append pos (take k buf) (take m (drop k buf)) file))

-- From `done` bytes on, the loop has written the next bytes of the buffer, up to its limit.
record Wrote (out : Out) (buf : List ℕ) (done limit d : ℕ) (out' : Out) : Type 0 where
  from : done ≤ d
  bounded : d ≤ limit
  bytes : out'.bytes ≡ pwrite out.pos (take (d - done) buf) out.bytes
  pos : out'.pos ≡ out.pos + (d - done)
  counted : out'.write_bytes ≡ out.write_bytes
  same : out'.to_stdout ≡ out.to_stdout

Wrote-none :
    (out : Out) (buf : List ℕ) (done limit : ℕ) (out' : Out)
    → done ≤ limit
    → out'.bytes ≡ out.bytes
    → out'.pos ≡ out.pos
    → out'.write_bytes ≡ out.write_bytes
    → out'.to_stdout ≡ out.to_stdout
    → Wrote out buf done limit done out'
unfolding pwrite
Wrote-none out buf done limit out' h b p w s =
    let e : done - done ≡ 0 = omega arith in
    record {
      from = omega arith;
      bounded = h;
      bytes = rw e b;
      pos = omega arith;
      counted = w;
      same = s;
    }

Wrote-emit :
    (out : Out) (buf : List ℕ) (done limit k d : ℕ) (out' : Out)
    → k ≤ length buf
    → Wrote (emit (take k buf) out) (drop k buf) (done + k) limit d out'
    → Wrote out buf done limit d out'
Wrote-emit out buf done limit k d out' h w =
    let len : length (take k buf) ≡ k = omega (arith, length-take {0} k buf) in
    let rest : k + (d - (done + k)) ≡ d - done = omega arith in
    record {
      from = omega arith;
      bounded = w.bounded;
      bytes =
          subst (λ m. out'.bytes ≡ pwrite out.pos (take m buf) out.bytes) rest
            (w.bytes
              ∙ ap
                  (λ j.
                    pwrite (out.pos + j) (take (d - (done + k)) (drop k buf))
                      (pwrite out.pos (take k buf) out.bytes))
                  len
              ∙ emit_twice out.pos k (d - (done + k)) buf out.bytes h);
      pos = omega arith;
      counted = w.counted;
      same = w.same;
    }

write_loop-Wrote :
    (answers : List Answer) (out : Out) (buf : List ℕ) (done limit : ℕ) {d : ℕ} {out' : Out}
    → done ≤ limit
    → limit - done ≤ length buf
    → {rest : List Answer} → write_loop answers out buf done limit ≡ some (d, out', rest)
    → Wrote out buf done limit d out'
unfolding write_loop
write_loop-Wrote [] out buf done limit {d} {out'} h room {rest} e =
    ground (arith, Wrote-none out buf done limit out')
write_loop-Wrote (wrote n ∷ answers) out buf done limit {d} {out'} h room {rest} e =
    let k = min n (limit - done) in
    elim (Bool-cases (ltb done limit && not (k == 0))) [
      | inl more ↦ Wrote-emit out buf done limit k d out' (omega arith) (
          write_loop-Wrote answers (emit (take k buf) out) (drop k buf) (done + k) limit
            (omega arith) (omega (arith, length-drop {0} k buf)) {rest = rest} (ground arith))
      | inr over ↦ ground (arith, Wrote-none out buf done limit out')
    ]
write_loop-Wrote (interrupted ∷ answers) out buf done limit {d} {out'} h room {rest} e =
    elim (Bool-cases (ltb done limit)) [
      | inl more ↦ write_loop-Wrote answers out buf done limit h room {rest = rest} (ground arith)
      | inr over ↦ ground (arith, Wrote-none out buf done limit out')
    ]
write_loop-Wrote (nospace ∷ answers) out buf done limit {d} {out'} h room {rest} e =
    ground (arith, Wrote-none out buf done limit out')
write_loop-Wrote (failed ∷ answers) out buf done limit {d} {out'} h room {rest} e =
    ground (arith, Wrote-none out buf done limit out')

-- From position `pos` on, `n` more bytes do not go past the size limit.
abbrev pub Within : Option ℕ → ℕ → ℕ → Type 0
Within none pos n = Unit {0}
Within (some size_limit) pos n = pos + n ≤ max size_limit pos

Within-limit :
    (size_limit : Option ℕ) (pos size n : ℕ)
    → pos + size < 2 ^ 64
    → n ≤ (if over_limit size_limit (pos + size) then room_below size_limit pos else size)
    → (n ≤ size) × Within size_limit pos n
Within-limit none pos size n small h = (ground arith, tt)
Within-limit (some l) pos size n small h = ground arith

Within-zero : (size_limit : Option ℕ) (pos : ℕ) → Within size_limit pos 0
Within-zero none pos = tt
Within-zero (some l) pos = omega arith

finish_write-Wrote :
    (info : Info) (answers : List Answer) (out : Out) (buf : List ℕ) (limit : ℕ) {ok : Bool}
    {out' : Out} {rest : List Answer}
    → limit ≤ length buf
    → finish_write (length buf) (write_loop answers out buf 0 limit) ≡ some (ok, out', rest)
    → (n : ℕ) × (n ≤ limit)
      × (out'.bytes ≡ pwrite out.pos (take n buf) out.bytes)
      × (out'.pos ≡ out.pos + n)
      × (out'.write_bytes ≡ out.write_bytes + n)
      × (ok ≡ (n == length buf))
      × (out'.to_stdout ≡ out.to_stdout)
finish_write-Wrote info answers out buf limit {ok} {out'} {rest} h e =
    elim (Option-cases (write_loop answers out buf 0 limit)) [
      | inl r ↦ absurd (ground arith)
      | inr ((d, o, left), r) ↦
          let w = write_loop-Wrote answers out buf 0 limit (omega arith) (omega arith) r in
          (
            d,
            w.bounded,
            ground (arith, w),
            ground (arith, w),
            ground (arith, w),
            ground arith,
            ground (arith, w),
          )
    ]

-- Unless it only counts, and where its sums stay below 2^64, `write_and_check_space` leaves in the file, at its position, a prefix of
-- the buffer, and nothing else changes there. It stays the same kind of output. The position and `write_bytes` advance by the length
-- of the prefix, the result is true exactly when the position is
-- known (`lseek` tells it, or the output is the standard output) and the prefix is the whole buffer, and the bytes
-- written do not go past the size limit.
pub write_and_check_space-prefix :
    (info : Info) (answers : List Answer) (out : Out) (buf : List ℕ) {ok : Bool} {out' : Out}
    {rest : List Answer}
    → info.flag_dry_run ≡ false
    → start_pos info out + length buf < 2 ^ 64
    → write_and_check_space info answers out buf ≡ some (ok, out', rest)
    → (n : ℕ) × (n ≤ length buf)
      × (out'.bytes ≡ pwrite out.pos (take n buf) out.bytes)
      × (out'.pos ≡ out.pos + n)
      × (out'.write_bytes ≡ out.write_bytes + n)
      × (ok ≡ (pos_known info out && n == length buf))
      × (out'.to_stdout ≡ out.to_stdout)
      × Within info.size_limit (start_pos info out) n
unfolding write_and_check_space pwrite
write_and_check_space-prefix info answers out buf {ok} {out'} {rest} real small e =
    let size = length buf in
    let pos = start_pos info out in
    let fresh_pos : out.pos ≡ out.pos + 0 = omega arith in
    let fresh_count : out.write_bytes ≡ out.write_bytes + 0 = omega arith in
    elim (Bool-cases (pos_known info out)) [
      | inr lost ↦
          let same : out' ≡ out = ground arith in
          (
            0,
            omega arith,
            ap (λ o. o.bytes) same,
            ap (λ o. o.pos) same ∙ fresh_pos,
            ap (λ o. o.write_bytes) same ∙ fresh_count,
            ground arith,
            ap (λ o. o.to_stdout) same,
            Within-zero info.size_limit pos,
          )
      | inl known ↦ elim (Bool-cases (over_limit info.size_limit (pos + size))) [
        | inl over ↦
            let limit = room_below info.size_limit pos in
            let fit = Within-limit info.size_limit pos size limit small (ground arith) in
            let marked = record out { flag_nospace = true } in
            let w =
              finish_write-Wrote info answers marked buf limit {ok = ok} {out' = out'} {rest = rest}
                fit.0 (ground arith) in
            (
              w.0,
              omega arith,
              w.2,
              w.3,
              w.4,
              ground (arith, known, w.5),
              w.6,
              (Within-limit info.size_limit pos size w.0 small (ground arith)).1,
            )
        | inr free ↦
            let w =
              finish_write-Wrote info answers out buf size {ok = ok} {out' = out'} {rest = rest}
                (omega arith) (ground arith) in
            (
              w.0,
              w.1,
              w.2,
              w.3,
              w.4,
              ground (arith, known, w.5),
              w.6,
              (Within-limit info.size_limit pos size w.0 small (ground arith)).1,
            )
      ]
    ]
