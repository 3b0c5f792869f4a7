-- ===== src/Cycle.antt =====
-- The cycles of makedumpfile.c: the page frames are worked through in windows of `pfn_cyclic`
-- frames, by the loop `for_each_cycle` over `struct cycle` (makedumpfile.h).
pub mod Coverage
mod Tests
use makedumpfile.Prelude.{
  ℕ, zero, suc, ◌+◌, ◌*◌, ◌/◌, ◌%◌, ◌^◌, Bool, true, false, ◌&&◌, ◌||◌, not, Option, none, some,
  List, [], ◌∷◌, ltb, leb, if◌then◌else◌,
}
use mathlib.Core.Option

-- The statistics that an exclusion may count in: `&pfn_free` and the other counters.
pub data Counter : Type 0 where
  pfn_cache pfn_cache_private pfn_user pfn_free pfn_hwpoison pfn_offline : Counter

-- `struct cycle`; the pointer `exclude_pfn_counter` is null until a range is left pending.
pub record Cycle : Type 0 where
  pub start_pfn : ℕ
  pub end_pfn : ℕ
  pub exclude_pfn_start : ℕ
  pub exclude_pfn_end : ℕ
  pub exclude_pfn_counter : Option Counter

-- The fields of `struct DumpInfo` that the cycles depend on.
pub record Info : Type 0 where
  pub pfn_cyclic : ℕ
  pub flag_elf_dumpfile : Bool

abbrev pub round : ℕ → ℕ → ℕ
round x y = x / y * y

abbrev bitperbyte : ℕ
bitperbyte = 8

-- `unsigned long long` addition
abbrev pub add64 : ℕ → ℕ → ℕ
add64 a b = (a + b) % 2 ^ 64

-- `start + pfn_cyclic`, cut off at `max`
abbrev end_from : Info → ℕ → ℕ → ℕ
end_from info start max = let end = add64 start info.pfn_cyclic in if ltb max end then max else end

unfoldable pub first_cycle : Info → ℕ → ℕ → Cycle → Cycle
first_cycle info start max cycle =
    let first = round start info.pfn_cyclic in
    record cycle {
      start_pfn =
          if info.flag_elf_dumpfile && ltb first start then round start bitperbyte else first;
      end_pfn = end_from info first max;
      exclude_pfn_start = 0;
      exclude_pfn_end = 0;
    }

unfoldable pub update_cycle : Info → ℕ → Cycle → Cycle
update_cycle info max cycle = record cycle {
  start_pfn = cycle.end_pfn;
  end_pfn = end_from info cycle.end_pfn max;
}

unfoldable pub end_cycle : ℕ → Cycle → Bool
end_cycle max cycle = leb max cycle.start_pfn

-- The cycles from a given one on; `none` if the fuel runs out.
unfoldable pub cycles_from : ℕ → Info → ℕ → Cycle → Option (List Cycle)
unfolding end_cycle update_cycle
cycles_from zero info max cycle = none
cycles_from (suc fuel) info max cycle =
    let rest = cycles_from fuel info max (update_cycle info max cycle) in
    if end_cycle max cycle then some [] else Option.map (◌∷◌ cycle) rest

-- `for_each_cycle (start, max, C)`: the values that `C` has in the body of the loop.
unfoldable pub for_each_cycle : ℕ → Info → ℕ → ℕ → Cycle → Option (List Cycle)
unfolding first_cycle cycles_from
for_each_cycle fuel info start max cycle =
    cycles_from fuel info max (first_cycle info start max cycle)

-- `is_cyclic_region`; a null cycle has no region.
unfoldable pub is_cyclic_region : ℕ → Option Cycle → Bool
is_cyclic_region pfn none = false
is_cyclic_region pfn (some cycle) =
    if ltb pfn cycle.start_pfn || leb cycle.end_pfn pfn then false else true
