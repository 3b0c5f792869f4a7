-- ===== src/File.antt =====
-- A file as its bytes: `lseek` followed by `write` or `read`, as every component here does them.
pub mod Laws
pub mod Split
use makedumpfile.Prelude.{
  ℕ, zero, suc, ◌+◌, Option, none, some, List, [], ◌∷◌, ◌++◌, length, take, drop, leb,
  if◌then◌else◌,
}

-- The bytes of `buf` over those of the file from `off` on; a gap past the end is filled with zeros.
unfoldable pub splice : ℕ → List ℕ → List ℕ → List ℕ
splice zero buf file = buf ++ drop (length buf) file
splice (suc off) buf [] = 0 ∷ splice off buf []
splice (suc off) buf (x ∷ file) = x ∷ splice off buf file

-- A write of no bytes leaves the file alone.
unfoldable pub pwrite : ℕ → List ℕ → List ℕ → List ℕ
unfolding splice
pwrite off [] file = file
pwrite off (b ∷ buf) file = splice off (b ∷ buf) file

-- `none` is a short read.
unfoldable pub pread : ℕ → ℕ → List ℕ → Option (List ℕ)
pread off n file = if leb (off + n) (length file) then some (take n (drop off file)) else none
