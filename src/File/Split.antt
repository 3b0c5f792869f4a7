-- ===== src/File/Split.antt =====
-- A write in two parts is the write of the whole.
use makedumpfile.Prelude.{
  ℕ, zero, suc, ◌+◌, ◌≤◌, ◌≡◌, refl, ap, ◌∙◌, List, [], ◌∷◌, ◌++◌, length, take, drop, arith,
  append-nil, length-take, take-append-drop, subst,
}
use makedumpfile.File.{splice, pwrite}

pub drop-nil : (n : ℕ) → drop {A = ℕ} n [] ≡ []
drop-nil zero = refl
drop-nil (suc n) = refl

-- Two writes that follow one another, at the start of a file.
splice-append_zero :
    (xs ys file : List ℕ)
    → splice (length xs) ys (xs ++ drop (length xs) file)
      ≡ (xs ++ ys) ++ drop (length (xs ++ ys)) file
unfolding splice
splice-append_zero [] ys file = refl
splice-append_zero (x ∷ xs) ys [] =
    let rest = splice-append_zero xs ys [] in
    ap (◌∷◌ x) (rw (drop-nil (length xs), drop-nil (length (xs ++ ys))) at rest)
splice-append_zero (x ∷ xs) ys (y ∷ file) = ap (◌∷◌ x) (splice-append_zero xs ys file)

splice-append :
    (off : ℕ) (xs ys file : List ℕ)
    → splice (off + length xs) ys (splice off xs file) ≡ splice off (xs ++ ys) file
unfolding splice
splice-append zero xs ys file =
    let e : zero + length xs ≡ length xs = omega arith in rw e (splice-append_zero xs ys file)
splice-append (suc off) xs ys [] =
    let e : suc off + length xs ≡ suc (off + length xs) = omega arith in
    rw e (ap (◌∷◌ 0) (splice-append off xs ys []))
splice-append (suc off) xs ys (x ∷ file) =
    let e : suc off + length xs ≡ suc (off + length xs) = omega arith in
    rw e (ap (◌∷◌ x) (splice-append off xs ys file))

pub pwrite-append :
    (off : ℕ) (xs ys file : List ℕ)
    → pwrite (off + length xs) ys (pwrite off xs file) ≡ pwrite off (xs ++ ys) file
unfolding pwrite
pwrite-append off [] [] file = refl
pwrite-append off [] (y ∷ ys) file = let e : off + length {A = ℕ} [] ≡ off = omega arith in rw e
pwrite-append off (x ∷ xs) [] file = rw append-nil
pwrite-append off (x ∷ xs) (y ∷ ys) file = splice-append off (x ∷ xs) (y ∷ ys) file

-- The first `n` bytes, then the rest.
pub pwrite_split :
    (off n : ℕ) (xs file : List ℕ)
    → n ≤ length xs
    → pwrite (off + n) (drop n xs) (pwrite off (take n xs) file) ≡ pwrite off xs file
pwrite_split off n xs file h =
    let e : length (take n xs) ≡ n = omega (arith, length-take {0} n xs) in
    subst (λ k. pwrite (off + k) (drop n xs) (pwrite off (take n xs) file) ≡ pwrite off xs file) e
      (pwrite-append off (take n xs) (drop n xs) file
        ∙ ap (λ ys. pwrite off ys file) (take-append-drop n xs))
