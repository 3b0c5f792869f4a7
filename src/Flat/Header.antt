-- ===== src/Flat/Header.antt =====
-- The headers are read as they were written.
use makedumpfile.Prelude.{
  ℕ, zero, suc, ◌+◌, ◌*◌, ◌/◌, ◌%◌, ◌^◌, ◌<◌, ◌≡◌, refl, ap, ◌∙◌, sym, some, List, [], ◌∷◌, ◌++◌,
  length, take, drop, length-append, replicate, arith,
}
use native.Mathlib.Nat.{
  pow-suc, one-le-pow, mod-lt, div-add-mod', mul-add-mod_self_right, mod-eq_of_lt,
}
use makedumpfile.Output.{big_endian, data_header}
use makedumpfile.Flat.{
  decoded, checked, read_buf_from_stdin, from_big_endian, read_flat_data_header, start_flat_header,
  end_flat_header, read_start_flat_header, end_flag,
}

length-big_endian : (k n : ℕ) → length (big_endian k n) ≡ k
unfolding big_endian
length-big_endian zero n = refl
length-big_endian (suc k) n = ap suc (length-big_endian k n)

parts_below : (b p r q : ℕ) → q ≡ p * 256 → b < 256 → r < p → b * p + r < q
parts_below b p r q e h k = grind arith

parts_equal : (a b p r q : ℕ) → q ≡ p * 256 → (a * 256 + b) * p + r ≡ a * q + (b * p + r)
parts_equal a b p r q e = rw e (grind arith)

top_digit : (n p q : ℕ) → 0 < p → q ≡ p * 256 → n / p % 256 * p + n % p ≡ n % q
top_digit n p q pos e =
    let a = n / p / 256 in
    let b = n / p % 256 in
    let low = b * p + n % p in
    let small : low < q = parts_below b p (n % p) q e (omega arith) (mod-lt n pos) in
    let digits : a * 256 + b ≡ n / p = omega arith in
    let whole : n ≡ a * q + low =
      sym (div-add-mod' n p)
      ∙ sym (ap (λ d. d * p + n % p) digits)
      ∙ parts_equal a b p (n % p) q e in
    sym (ap (λ m. m % q) whole ∙ mul-add-mod_self_right a q low ∙ mod-eq_of_lt small)

from-big_endian : (k n : ℕ) → from_big_endian (big_endian k n) ≡ n % 256 ^ k
unfolding from_big_endian big_endian
from-big_endian zero n = omega arith
from-big_endian (suc k) n =
    let len = length-big_endian k n in
    let ih = from-big_endian k n in
    rw len (ap (λ r. n / 256 ^ k % 256 * 256 ^ k + r) ih)
    ∙ top_digit n (256 ^ k) (256 ^ suc k) (one-le-pow k 256 (omega arith)) (pow-suc 256 k)

take_append : (n : ℕ) (xs ys : List ℕ) → length xs ≡ n → take n (xs ++ ys) ≡ xs
take_append zero [] ys e = refl
take_append zero (x ∷ xs) ys e = absurd (let no : ⊥ = omega (arith, e) in no)
take_append (suc n) [] ys e = absurd (let no : ⊥ = omega (arith, e) in no)
take_append (suc n) (x ∷ xs) ys e = ap (◌∷◌ x) (take_append n xs ys (omega arith))

drop_append : (n : ℕ) (xs ys : List ℕ) → length xs ≡ n → drop n (xs ++ ys) ≡ ys
drop_append zero [] ys e = refl
drop_append zero (x ∷ xs) ys e = absurd (let no : ⊥ = omega (arith, e) in no)
drop_append (suc n) [] ys e = absurd (let no : ⊥ = omega (arith, e) in no)
drop_append (suc n) (x ∷ xs) ys e = drop_append n xs ys (omega arith)

-- The bytes that are there are read.
pub read_buf :
    (n : ℕ) (xs rest : List ℕ)
    → length xs ≡ n
    → read_buf_from_stdin n (xs ++ rest) ≡ some (xs, rest)
unfolding read_buf_from_stdin
read_buf n xs rest e =
    ground (arith, length-append {0} xs rest, take_append n xs rest, drop_append n xs rest)

pub read-data_header :
    (offset buf_size : ℕ) (rest : List ℕ)
    → offset < 2 ^ 64
    → buf_size < 2 ^ 64
    → read_flat_data_header (data_header offset buf_size ++ rest) ≡ some (offset, buf_size, rest)
unfolding read_flat_data_header data_header big_endian
read-data_header offset buf_size rest h k =
    let first : from_big_endian (big_endian 8 offset) ≡ offset =
      omega (arith, from-big_endian 8 offset) in
    let second : from_big_endian (big_endian 8 buf_size) ≡ buf_size =
      omega (arith, from-big_endian 8 buf_size) in
    ap decoded (read_buf 16 (big_endian 8 offset ++ big_endian 8 buf_size) rest refl)
    ∙ ap (λ a. some (a, from_big_endian (big_endian 8 buf_size), rest)) first
    ∙ ap (λ b. some (offset, b, rest)) second

pub read-end_header :
    (rest : List ℕ)
    → read_flat_data_header (end_flat_header ++ rest) ≡ some (end_flag, end_flag, rest)
unfolding read_flat_data_header end_flat_header from_big_endian
read-end_header rest = ap decoded (read_buf 16 (replicate 16 0xff) rest refl)

pub read-start_header :
    (rest : List ℕ) → read_start_flat_header (start_flat_header ++ rest) ≡ some rest
unfolding read_start_flat_header start_flat_header from_big_endian big_endian
read-start_header rest = ap checked (read_buf 4096 start_flat_header rest refl)
