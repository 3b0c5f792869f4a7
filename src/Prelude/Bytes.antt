-- ===== src/Prelude/Bytes.antt =====
-- Single bits of a byte, as the masks `1 << bit` and `~(1 << bit)` read and write them. The laws
-- range over the 256 values of a byte and are checked by evaluation.
use Prim.Native.Nat.{ℕ, zero, suc, ◌-◌, ◌^◌, ◌<◌, bit_and, bit_or}
use mathlib.Core.Path.{◌≡◌, refl}
use mathlib.Core.Bool.{Bool, true, false, ◌&&◌, not}
use native.Mathlib.Omega.{arith}
use makedumpfile.Prelude.Tests.{ltb, ◌==◌, if◌then◌else◌}

-- `byte & (1 << bit)`, as a truth value
unfoldable pub test_bit : ℕ → ℕ → Bool
test_bit byte bit = not (bit_and byte (2 ^ bit) == 0)

-- `byte |= 1 << bit` or `byte &= ~(1 << bit)`, on an 8-bit `char`
unfoldable pub put_bit : ℕ → ℕ → Bool → ℕ
put_bit byte bit val = if val then bit_or byte (2 ^ bit) else bit_and byte (255 - 2 ^ bit)

-- Whether a test passes at every number below a bound.
passes : (ℕ → Bool) → ℕ → Bool
passes p zero = true
passes p (suc n) = passes p n && p n

passes_at : (p : ℕ → Bool) {x : ℕ} (n : ℕ) → passes p n ≡ true → x < n → p x ≡ true
unfolding passes
passes_at p zero ok lt = elim lt [ ]
passes_at p {x} (suc n) ok lt = ground (arith, passes_at p {x = x} n)

abbrev same : Bool → Bool → Bool
same true b = b
same false b = not b

same-eq : (a b : Bool) → same a b ≡ true → a ≡ b
same-eq a b h = ground arith

abbrev bit_law : ℕ → ℕ → ℕ → Bool
bit_law i j byte =
    same (test_bit (put_bit byte i true) j) (if i == j then true else test_bit byte j)
    && same (test_bit (put_bit byte i false) j) (if i == j then false else test_bit byte j)
    && ltb (put_bit byte i true) 256
    && ltb (put_bit byte i false) 256

bit_table : passes (λ i. passes (λ j. passes (bit_law i j) 256) 8) 8 ≡ true
unfolding passes test_bit put_bit
bit_table = refl

bit_law_holds : (i j byte : ℕ) → i < 8 → j < 8 → byte < 256 → bit_law i j byte ≡ true
bit_law_holds i j byte hi hj hb =
    let row = passes_at (λ i. passes (λ j. passes (bit_law i j) 256) 8) 8 bit_table hi in
    let column = passes_at (λ j. passes (bit_law i j) 256) 8 row hj in
    passes_at (bit_law i j) 256 column hb

-- Writing bit `i` of a byte determines that bit and leaves the others.
pub test_bit-put_bit :
    (byte i j : ℕ) (val : Bool)
    → byte < 256
    → i < 8
    → j < 8
    → test_bit (put_bit byte i val) j ≡ (if i == j then val else test_bit byte j)
test_bit-put_bit byte i j true hb hi hj =
    same-eq _ _ (ground (arith, bit_law_holds i j byte hi hj hb))
test_bit-put_bit byte i j false hb hi hj =
    same-eq _ _ (ground (arith, bit_law_holds i j byte hi hj hb))

pub put_bit-lt : (byte i : ℕ) (val : Bool) → byte < 256 → i < 8 → put_bit byte i val < 256
put_bit-lt byte i true hb hi = ground (arith, bit_law_holds i 0 byte hi (omega arith) hb)
put_bit-lt byte i false hb hi = ground (arith, bit_law_holds i 0 byte hi (omega arith) hb)
