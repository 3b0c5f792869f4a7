-- ===== src/Cycle/Tests.antt =====
-- Runs of the cycles, and the theorems about them at a concrete range.
use makedumpfile.Prelude.{ℕ, ◌≤◌, ◌<◌, ◌≡◌, refl, true, none, some, List, [], ◌∷◌, arith}
use makedumpfile.Cycle.{Cycle, Info, for_each_cycle}
use makedumpfile.Cycle.Coverage.{visits, for_each_cycle-visits, AllFit, for_each_cycle-AllFit}

abbrev pub info : Info
info = record { pfn_cyclic = 16; flag_elf_dumpfile = true }

abbrev pub blank : Cycle
blank = record {
  start_pfn = 0;
  end_pfn = 0;
  exclude_pfn_start = 0;
  exclude_pfn_end = 0;
  exclude_pfn_counter = none;
}

abbrev windows : List Cycle
windows =
    record blank { start_pfn = 24; end_pfn = 32 }
    ∷ record blank { start_pfn = 32; end_pfn = 48 }
    ∷ record blank { start_pfn = 48; end_pfn = 50 }
    ∷ []

-- An ELF dump of the frames from 27 to 50 starts at the multiple of 8 below 27.
windows-run : for_each_cycle 60 info 27 50 blank ≡ some windows
unfolding for_each_cycle
windows-run = refl

for_each_cycle-visits_example :
    (cycles : List Cycle) × (for_each_cycle 60 info 27 50 blank ≡ some cycles)
    × ((pfn : ℕ) → 27 ≤ pfn → pfn < 50 → visits pfn cycles ≡ 1)
    × ((pfn : ℕ) → 50 ≤ pfn → visits pfn cycles ≡ 0)
for_each_cycle-visits_example =
    for_each_cycle-visits info 27 50 60 blank (omega arith) (omega arith) (omega arith)
      (omega arith)

for_each_cycle-AllFit_example : AllFit info windows
for_each_cycle-AllFit_example = for_each_cycle-AllFit info 27 50 60 2 blank windows refl windows-run
