-- ===== src/Detect/Tests.antt =====
-- The detection on a list of two entries that runs into a cycle of three.
use makedumpfile.Prelude.{ℕ, ◌+◌, ◌<◌, ◌≡◌, ◌≢◌, refl, true, some, ◌==◌, if◌then◌else◌, arith}
use makedumpfile.Detect.{
  DetectCycle, started, dc_init, jump, advance, dc_next, ahead, meet, dc_find_start, calls,
}
use makedumpfile.Detect.Iterate.{iterate}
use makedumpfile.Detect.Found.{calls-dc_find_start, calls_detect}

-- 1, 2, 3, 4, 5, 3, …
abbrev following : ℕ → ℕ
following x = if x == 5 then 3 else x + 1

abbrev met_at : DetectCycle
met_at = record { head = 1; fast_p = 3; slow_p = 3; length = 3; power = 4 }

calls-run : calls following 5 (started 1) ≡ some met_at
unfolding calls dc_next jump advance
calls-run = refl

start-run : dc_find_start following 2 met_at ≡ some (3, 3)
unfolding dc_find_start ahead meet
start-run = refl

calls-dc_find_start_example :
    (first : ℕ) × (dc_find_start following 5 met_at ≡ some (iterate following first 1, 3))
    × (0 < 3)
    × (iterate following (first + 3) 1 ≡ iterate following first 1)
    × ((j : ℕ) → j < first → iterate following (j + 3) 1 ≢ iterate following j 1)
    × ((l : ℕ) → 0 < l → l < 3 → iterate following (first + l) 1 ≢ iterate following first 1)
unfolding dc_init
calls-dc_find_start_example =
    calls-dc_find_start following 1 true 5 5 {dc_0 = started 1} {dc = met_at} (omega arith)
      (omega arith) refl calls-run

calls_detect_example : (dc : DetectCycle) × (calls following 9 (started 1) ≡ some dc)
unfolding dc_init iterate
calls_detect_example =
    calls_detect following 1 true 2 3 3 {dc_0 = started 1} (omega arith) (omega arith) (omega arith)
      refl refl
