-- ===== src/Bitmap/Bits.antt =====
-- One bit of a buffer of bytes, read after it is written.
use makedumpfile.Prelude.{
  ℕ, zero, suc, ◌*◌, ◌/◌, ◌%◌, ◌<◌, ◌≡◌, Bool, ◌&&◌, List, [], ◌∷◌, length, length-set, get_or, set,
  ltb, ◌==◌, if◌then◌else◌, arith,
}
use makedumpfile.Prelude.Bytes.{put_bit, test_bit-put_bit, put_bit-lt}
use makedumpfile.Bitmap.{is_on, assign}

-- Every element is the value of an 8-bit `char`.
abbrev pub IsBytes : List ℕ → Type 0
IsBytes buf = (k : ℕ) → get_or buf k 0 < 256

pub get_or-set :
    (xs : List ℕ) (i j v : ℕ)
    → get_or (set xs i v) j 0 ≡ (if i == j && ltb i (length xs) then v else get_or xs j 0)
get_or-set [] i j v = ground arith
get_or-set (x ∷ xs) zero zero v = ground arith
get_or-set (x ∷ xs) zero (suc j) v = ground arith
get_or-set (x ∷ xs) (suc i) zero v = ground arith
get_or-set (x ∷ xs) (suc i) (suc j) v = ground (arith, get_or-set xs i j v)

-- The bit with the index written has the new value, and every other bit has the old one.
pub is_on-assign :
    (buf : List ℕ) (i j : ℕ) (val : Bool)
    → IsBytes buf
    → i < 8 * length buf
    → is_on (assign buf i val) j ≡ (if i == j then val else is_on buf j)
is_on-assign buf i j val bytes lt = ground (
  arith,
  get_or-set buf (i / 8) (j / 8) (put_bit (get_or buf (i / 8) 0) (i % 8) val),
  test_bit-put_bit (get_or buf (i / 8) 0) (i % 8) (j % 8) val (bytes (i / 8)),
)

pub assign-IsBytes : (buf : List ℕ) (i : ℕ) (val : Bool) → IsBytes buf → IsBytes (assign buf i val)
assign-IsBytes buf i val bytes k = ground (
  arith,
  bytes k,
  get_or-set buf (i / 8) k (put_bit (get_or buf (i / 8) 0) (i % 8) val),
  put_bit-lt (get_or buf (i / 8) 0) (i % 8) val (bytes (i / 8)),
)

pub length-assign : (buf : List ℕ) (i : ℕ) (val : Bool) → length (assign buf i val) ≡ length buf
length-assign buf i val = length-set buf (i / 8) (put_bit (get_or buf (i / 8) 0) (i % 8) val)
