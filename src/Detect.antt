-- ===== src/Detect.antt =====
-- The cycle detection of detect_cycle.c, for lists that are walked by a callback.
pub mod Iterate
pub mod Invariant
pub mod Start
pub mod Found
mod Tests
use makedumpfile.Prelude.{
  ℕ, zero, suc, ◌+◌, ◌*◌, ◌%◌, ◌^◌, Bool, true, false, Option, none, some, ◌==◌, if◌then◌else◌,
}

-- `struct detect_cycle`, without the callback and its data: an entry is an address.
pub record DetectCycle : Type 0 where
  pub head : ℕ
  pub fast_p : ℕ
  pub slow_p : ℕ
  pub length : ℕ
  pub power : ℕ

abbrev pub started : ℕ → DetectCycle
started head = record { head = head; fast_p = head; slow_p = head; length = 0; power = 2 }

-- `none` if there is no memory.
unfoldable pub dc_init : Bool → ℕ → Option DetectCycle
dc_init allocated head = if allocated then some (started head) else none

abbrev pub jumped : DetectCycle → DetectCycle
jumped dc = record dc { length = 0; power = dc.power * 2 % 2 ^ 64; slow_p = dc.fast_p }

-- The first part of `dc_next`: the slow pointer jumps to the fast one when the length has reached
-- the power, which doubles.
unfoldable pub jump : DetectCycle → DetectCycle
jump dc = if dc.length == dc.power then jumped dc else dc

abbrev pub answered : Option ℕ → DetectCycle → Option DetectCycle → Option DetectCycle
answered none dc rest = some dc
answered (some entry) dc rest = rest

abbrev pub with_length : Option ℕ → ℕ → Option (ℕ × ℕ)
with_length none len = none
with_length (some first) len = some (first, len)

module _ (next : ℕ → ℕ) where
  unfoldable pub advance : DetectCycle → DetectCycle
  advance dc = record dc { fast_p = next dc.fast_p; length = (dc.length + 1) % 2 ^ 64 }

  -- The entry that is stored at `*next`, or `none` if the answer is 1: a cycle.
  unfoldable pub dc_next : DetectCycle → DetectCycle × Option ℕ
  unfolding jump advance
  dc_next dc =
      let dc' = advance (jump dc) in
      (dc', if dc'.slow_p == dc'.fast_p then none else some dc'.fast_p)

  -- The first loop of `dc_find_start`
  unfoldable pub ahead : ℕ → ℕ → ℕ
  ahead zero fast_p = fast_p
  ahead (suc tmp) fast_p = ahead tmp (next fast_p)

  -- The second loop, for as many rounds as there is fuel.
  unfoldable pub meet : ℕ → ℕ → ℕ → Option ℕ
  meet zero slow_p fast_p = if slow_p == fast_p then some slow_p else none
  meet (suc fuel) slow_p fast_p =
      let rest = meet fuel (next slow_p) (next fast_p) in
      if slow_p == fast_p then some slow_p else rest

  -- The first entry of the cycle, and its length.
  unfoldable pub dc_find_start : ℕ → DetectCycle → Option (ℕ × ℕ)
  unfolding ahead meet
  dc_find_start fuel dc = with_length (meet fuel dc.head (ahead dc.length dc.head)) dc.length

  -- What a caller does: it calls `dc_next` until the answer is 1, at most so many times. The result
  -- is the state at that answer, or `none` if there was none.
  unfoldable pub calls : ℕ → DetectCycle → Option DetectCycle
  unfolding dc_next
  calls zero dc = none
  calls (suc n) dc =
      let (dc', entry) = dc_next dc in let rest = calls n dc' in answered entry dc' rest
