-- ===== src/Cycle/Coverage.antt =====
-- `for_each_cycle` visits every page frame of its range in exactly one cycle.
use makedumpfile.Prelude.{
  ℕ, zero, suc, ◌+◌, ◌*◌, ◌/◌, ◌^◌, ◌-◌, ◌≤◌, ◌<◌, ◌≡◌, refl, ap, Bool, true, false, ◌&&◌, Option,
  none, some, List, [], ◌∷◌, ◌⊎◌, inl, inr, ltb, leb, if◌then◌else◌, arith,
}
use makedumpfile.Cycle.{
  Cycle, Info, first_cycle, update_cycle, cycles_from, for_each_cycle, is_cyclic_region,
}
use mathlib.Core.Option
use native.Mathlib.Nat.{div-add-mod', mod-lt}

-- In how many of the cycles the frame lies.
pub visits : ℕ → List Cycle → ℕ
visits pfn [] = 0
visits pfn (c ∷ cs) = (if is_cyclic_region pfn (some c) then 1 else 0) + visits pfn cs

-- A cycle that the loop may stand at: past the end, or a non-empty window below it.
abbrev pub IsWindow : ℕ → Cycle → Type 0
IsWindow max c = (max ≤ c.start_pfn) ⊎ ((c.start_pfn < c.end_pfn) × (c.end_pfn ≤ max))

update_cycle-IsWindow :
    (info : Info) (max : ℕ) (c : Cycle)
    → 0 < info.pfn_cyclic
    → max + info.pfn_cyclic < 2 ^ 64
    → (c.start_pfn < c.end_pfn) × (c.end_pfn ≤ max)
    → IsWindow max (update_cycle info max c)
unfolding update_cycle
update_cycle-IsWindow info max c pos fits w = ground arith

-- What the loop has visited, from a window on.
record Visited (max : ℕ) (c : Cycle) (r : Option (List Cycle)) : Type 0 where
  cycles : List Cycle
  returned : r ≡ some cycles
  once : (pfn : ℕ) → visits pfn cycles ≡ (if leb c.start_pfn pfn && ltb pfn max then 1 else 0)

cycles_from-Visited :
    (fuel : ℕ) (info : Info) (max : ℕ) (c : Cycle)
    → 0 < info.pfn_cyclic
    → max + info.pfn_cyclic < 2 ^ 64
    → IsWindow max c
    → max - c.start_pfn < fuel
    → Visited max c (cycles_from fuel info max c)
unfolding cycles_from visits is_cyclic_region
cycles_from-Visited zero info max c pos fits w h = absurd (omega arith)
cycles_from-Visited (suc fuel) info max c pos fits (inl over) h = record {
  cycles = [];
  returned = ground arith;
  once = λ pfn. ground arith;
}
cycles_from-Visited (suc fuel) info max c pos fits (inr w) h =
    let v =
      cycles_from-Visited fuel info max (update_cycle info max c) pos fits
        (update_cycle-IsWindow info max c pos fits w) (omega arith) in
    record {
      cycles = c ∷ v.cycles;
      returned = ground arith;
      once = λ pfn. ground (arith, v.once pfn);
    }

first_cycle-IsWindow :
    (info : Info) (start max : ℕ) (c : Cycle)
    → 0 < info.pfn_cyclic
    → start + info.pfn_cyclic < 2 ^ 64
    → IsWindow max (first_cycle info start max c)
unfolding first_cycle
first_cycle-IsWindow info start max c pos fits =
    ground (arith, div-add-mod' start info.pfn_cyclic, mod-lt start pos)

first_cycle-le :
    (info : Info) (start max : ℕ) (c : Cycle)
    → 0 < info.pfn_cyclic
    → (first_cycle info start max c).start_pfn ≤ start
unfolding first_cycle
first_cycle-le info start max c pos = ground (arith, div-add-mod' start info.pfn_cyclic)

-- Where the sums do not wrap, the loop over the cycles of `[start, max)` ends within `max + 1`
-- rounds, every frame of the range is in exactly one cycle, and no frame past `max` is in any.
pub for_each_cycle-visits :
    (info : Info) (start max fuel : ℕ) (c : Cycle)
    → 0 < info.pfn_cyclic
    → start + info.pfn_cyclic < 2 ^ 64
    → max + info.pfn_cyclic < 2 ^ 64
    → max < fuel
    → (cycles : List Cycle) × (for_each_cycle fuel info start max c ≡ some cycles)
      × ((pfn : ℕ) → start ≤ pfn → pfn < max → visits pfn cycles ≡ 1)
      × ((pfn : ℕ) → max ≤ pfn → visits pfn cycles ≡ 0)
unfolding for_each_cycle
for_each_cycle-visits info start max fuel c pos fits_start fits_max enough =
    let first = first_cycle info start max c in
    let v =
      cycles_from-Visited fuel info max first pos fits_max
        (first_cycle-IsWindow info start max c pos fits_start) (omega arith) in
    (
      v.cycles,
      v.returned,
      λ pfn from below. ground (arith, v.once pfn, first_cycle-le info start max c pos),
      λ pfn past. ground (arith, v.once pfn),
    )

-- The frames of a cycle fit a buffer of `pfn_cyclic` bits.
abbrev pub Fits : Info → Cycle → Type 0
Fits info c = c.end_pfn ≤ c.start_pfn + info.pfn_cyclic

abbrev pub AllFit : Info → List Cycle → Type 0
AllFit info [] = Unit {0}
AllFit info (c ∷ cs) = Fits info c × AllFit info cs

update_cycle-Fits : (info : Info) (max : ℕ) (c : Cycle) → Fits info (update_cycle info max c)
unfolding update_cycle
update_cycle-Fits info max c = ground arith

round_result :
    (over : Bool) (c : Cycle) (r : Option (List Cycle)) {cycles : List Cycle}
    → (if over then some [] else Option.map (◌∷◌ c) r) ≡ some cycles
    → (cycles ≡ []) ⊎ ((rest : List Cycle) × (r ≡ some rest) × (cycles ≡ c ∷ rest))
round_result true c r e = inl (ground arith)
round_result false c none e = absurd (ground arith)
round_result false c (some rest) e = inr (rest, refl, ground arith)

cycles_from-AllFit :
    (fuel : ℕ) (info : Info) (max : ℕ) (c : Cycle) (cycles : List Cycle)
    → Fits info c
    → cycles_from fuel info max c ≡ some cycles
    → AllFit info cycles
unfolding cycles_from
cycles_from-AllFit zero info max c cycles fit e = absurd (ground arith)
cycles_from-AllFit (suc fuel) info max c cycles fit e =
    elim (round_result (leb max c.start_pfn) c (cycles_from fuel info max (update_cycle info max c))
      e) [
        | inl over ↦ rw over tt
        | inr (rest, found, same) ↦ rw same (
          fit,
          cycles_from-AllFit fuel info max (update_cycle info max c) rest
              (update_cycle-Fits info max c) found,
        )
      ]

first_cycle-Fits :
    (info : Info) (start max : ℕ) (c : Cycle) (bytes : ℕ)
    → info.pfn_cyclic ≡ bytes * 8
    → Fits info (first_cycle info start max c)
unfolding first_cycle
first_cycle-Fits info start max c bytes e =
    let q = start / info.pfn_cyclic in
    ground (arith, ap (λ t. q * t) e, div-add-mod' start info.pfn_cyclic)

-- If `pfn_cyclic` is the number of bits of a whole number of bytes, every cycle of the loop spans
-- at most `pfn_cyclic` frames.
pub for_each_cycle-AllFit :
    (info : Info) (start max fuel bytes : ℕ) (c : Cycle) (cycles : List Cycle)
    → info.pfn_cyclic ≡ bytes * 8
    → for_each_cycle fuel info start max c ≡ some cycles
    → AllFit info cycles
unfolding for_each_cycle
for_each_cycle-AllFit info start max fuel bytes c cycles e found =
    cycles_from-AllFit fuel info max (first_cycle info start max c) cycles
      (first_cycle-Fits info start max c bytes e) found
