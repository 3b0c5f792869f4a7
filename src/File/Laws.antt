-- ===== src/File/Laws.antt =====
-- What is read of a file, byte by byte, after a write and by a read.
use makedumpfile.Prelude.{
  ℕ, zero, suc, ◌+◌, ◌-◌, ◌≤◌, ◌<◌, ◌≡◌, refl, ap, ◌∙◌, ◌&&◌, some, List, [], ◌∷◌, ◌++◌, max,
  length, length-append, length-take, length-drop, get_or, take, drop, ltb, leb, if◌then◌else◌,
  arith,
}
use makedumpfile.File.{splice, pwrite, pread}

pub get_or-append :
    (xs ys : List ℕ) (i : ℕ)
    → get_or (xs ++ ys) i 0
      ≡ (if ltb i (length xs) then get_or xs i 0 else get_or ys (i - length xs) 0)
get_or-append [] ys i = ground arith
get_or-append (x ∷ xs) ys zero = ground arith
get_or-append (x ∷ xs) ys (suc i) = ground (arith, get_or-append xs ys i)

pub get_or-drop : (n i : ℕ) (xs : List ℕ) → get_or (drop n xs) i 0 ≡ get_or xs (n + i) 0
get_or-drop zero i xs = ap (λ k. get_or xs k 0) (omega arith)
get_or-drop (suc n) i [] = refl
get_or-drop (suc n) i (x ∷ xs) =
    get_or-drop n i xs ∙ ap (λ k. get_or (x ∷ xs) k 0) {x = suc (n + i)} (omega arith)

pub get_or-take :
    (n i : ℕ) (xs : List ℕ) → get_or (take n xs) i 0 ≡ (if ltb i n then get_or xs i 0 else 0)
get_or-take zero i xs = ground arith
get_or-take (suc n) i [] = ground arith
get_or-take (suc n) zero (x ∷ xs) = ground arith
get_or-take (suc n) (suc i) (x ∷ xs) = ground (arith, get_or-take n i xs)

get_or-splice :
    (off : ℕ) (buf file : List ℕ) (i : ℕ)
    → get_or (splice off buf file) i 0
      ≡ (if leb off i && ltb i (off + length buf) then get_or buf (i - off) 0 else get_or file i 0)
unfolding splice
get_or-splice zero buf file i = ground (
  arith,
  get_or-append buf (drop (length buf) file) i,
  get_or-drop (length buf) (i - length buf) file,
)
get_or-splice (suc off) buf [] zero = ground arith
get_or-splice (suc off) buf [] (suc i) = ground (arith, get_or-splice off buf [] i)
get_or-splice (suc off) buf (x ∷ file) zero = ground arith
get_or-splice (suc off) buf (x ∷ file) (suc i) = ground (arith, get_or-splice off buf file i)

-- After a write the bytes of the range are those written, and all others are as they were.
pub get_or-pwrite :
    (off : ℕ) (buf file : List ℕ) (i : ℕ)
    → get_or (pwrite off buf file) i 0
      ≡ (if leb off i && ltb i (off + length buf) then get_or buf (i - off) 0 else get_or file i 0)
unfolding pwrite
get_or-pwrite off [] file i = ground arith
get_or-pwrite off (b ∷ buf) file i = get_or-splice off (b ∷ buf) file i

-- A read that is not short gives the bytes of the range.
pub get_or-pread :
    (off n : ℕ) (file : List ℕ) {buf : List ℕ} (i : ℕ)
    → pread off n file ≡ some buf
    → i < n
    → get_or buf i 0 ≡ get_or file (off + i) 0
unfolding pread
get_or-pread off n file {buf} i h lt =
    ground (arith, get_or-take n i (drop off file), get_or-drop off i file)

pub length-pread :
    (off n : ℕ) (file : List ℕ) {buf : List ℕ} → pread off n file ≡ some buf → length buf ≡ n
unfolding pread
length-pread off n file h = ground (arith, length-take n (drop off file), length-drop off file)

length-splice :
    (off : ℕ) (buf file : List ℕ)
    → length (splice off buf file) ≡ max (off + length buf) (length file)
unfolding splice
length-splice zero buf file =
    omega (arith, length-append {0} buf (drop (length buf) file), length-drop {0} (length buf) file)
length-splice (suc off) buf [] = omega (arith, length-splice off buf [])
length-splice (suc off) buf (x ∷ file) = omega (arith, length-splice off buf file)

pub length-pwrite : (off : ℕ) (buf file : List ℕ) → length file ≤ length (pwrite off buf file)
unfolding pwrite
length-pwrite off [] file = omega arith
length-pwrite off (b ∷ buf) file = omega (arith, length-splice off (b ∷ buf) file)
