-- ===== src/Filter/Scan/Safety.antt =====
-- The loop ends, only ever clears bits, and leaves the frames before its start alone.
use makedumpfile.Prelude.{
  ℕ, zero, suc, ◌+◌, ◌-◌, ◌%◌, ◌^◌, ◌≤◌, ◌<◌, ◌≡◌, refl, ◌∙◌, Bool, true, ◌&&◌, not, Option, none,
  some, ltb, ◌==◌, if◌then◌else◌, arith, Bool-cases, Option-cases, inl, inr,
}
use native.Mathlib.Nat.{one-le-pow, pow-le-pow_right}
use makedumpfile.Cycle.{Counter, is_cyclic_region}
use makedumpfile.Filter.{
  Kernel, Page, BuddyTest, Decision, keep, exclude, decide, compound_of, check_order, classify,
  shift_one,
}
use makedumpfile.Filter.Stats.{Grows, Grows-refl, Grows-trans}
use makedumpfile.Filter.Range.{
  Bits, exclude_range-bit, exclude_range-Grows, clear_counted-bit, clear_counted-Grows,
}
use makedumpfile.Filter.Scan.{
  Source, PageCache, pgmm_cached, refresh, Work, execute, round_at, End, returned, out_of_fuel,
  scan,
}

pow_pos : (n : ℕ) → 0 < 2 ^ n
pow_pos n = one-le-pow n 2 (omega arith)

-- Not zero, and 2^31 below 2^64.
abbrev Moves : ℕ → Type 0
Moves n = (0 < n) × (n + 2 ^ 31 ≤ 2 ^ 64)

shift_one-Moves : (n : ℕ) → Moves (shift_one n)
unfolding shift_one
shift_one-Moves n = elim (Bool-cases (n % 32 == 31)) [
  | inl top ↦ rw top (omega arith, omega arith)
  | inr small ↦
      let bound : 2 ^ (n % 32) ≤ 2 ^ 31 = pow-le-pow_right (omega arith) {j = 31} (omega arith) in
      rw small (pow_pos (n % 32), omega (arith, bound))
]

decide-Moves :
    (k : Kernel) (buddy : BuddyTest) (dump_level : ℕ) (page : Page) (order dtor : ℕ) {c : Counter}
    {n : ℕ}
    → decide k buddy dump_level page order dtor ≡ exclude c n
    → Moves n
unfolding decide
decide-Moves k buddy dump_level page order dtor h = ground (
  arith,
  shift_one-Moves order,
  shift_one-Moves page.private,
  shift_one-Moves 0,
  shift_one-Moves (k.free_area_length + 2 ^ 64 - 1),
)

classify-Moves :
    (k : Kernel) (size : ℕ) (buddy : BuddyTest) (dump_level pfn : ℕ) (page next : Page)
    {c : Counter} {n : ℕ}
    → classify k size buddy dump_level pfn page next ≡ exclude c n
    → Moves n
unfolding classify
classify-Moves k size buddy dump_level pfn page next {c} {n} h =
    let mapcount : ℕ = (if k.has_mapcount then page.mapcount else 0) in
    let head = compound_of k mapcount next in
    ground (
      arith,
      decide-Moves k buddy dump_level page (check_order pfn head.0) head.1 {c = c} {n = n},
      decide-Moves k buddy dump_level page 0 0 {c = c} {n = n},
    )

module _ {first past : ℕ} (bits : Bits first past) (source : Source) where
  open bits use {State, Valid, bit}

  -- From the frame `pfn` on: bits are only cleared, and only from `pfn` on; the cycle stays the
  -- same window, and no counter falls.
  pub record Safe (pfn : ℕ) (w w' : Work bits source) : Type 0 where
    pub valid : Valid w'.state.0
    pub cleared : (q : ℕ) → bit w'.state.0 q ≡ true → bit w.state.0 q ≡ true
    pub before : (q : ℕ) → q < pfn → bit w'.state.0 q ≡ bit w.state.0 q
    pub counted : Grows w.state.1 w'.state.1
    pub start_kept : w'.cycle.start_pfn ≡ w.cycle.start_pfn
    pub end_kept : w'.cycle.end_pfn ≡ w.cycle.end_pfn

  execute-Safe :
      (d : Decision) (pfn : ℕ) (w : Work bits source)
      → Valid w.state.0
      → Safe pfn w (execute bits source d pfn w).1
  unfolding execute
  execute-Safe keep pfn w v = record {
    valid = v;
    cleared = λ q h. h;
    before = λ q h. refl;
    counted = Grows-refl (w.state.1);
    start_kept = refl;
    end_kept = refl;
  }
  execute-Safe (exclude counter n) pfn w v = elim (Bool-cases (n == 1)) [
    | inl one ↦
        rw (one, execute)
          (record {
            valid = (clear_counted-bit bits counter pfn 0 w.state v).1;
            cleared = λ q h. ground (arith, clear_counted-bit bits counter pfn q w.state v);
            before = λ q h. ground (arith, clear_counted-bit bits counter pfn q w.state v);
            counted = clear_counted-Grows bits counter pfn w.state;
            start_kept = refl;
            end_kept = refl;
          })
    | inr many ↦
        rw (many, execute)
          (record {
            valid = (exclude_range-bit bits counter pfn ((pfn + n) % 2 ^ 64) 0 w.cycle w.state v).1;
            cleared = λ q h. ground (
              arith,
              exclude_range-bit bits counter pfn ((pfn + n) % 2 ^ 64) q w.cycle w.state v,
            );
            before = λ q h. ground (
              arith,
              exclude_range-bit bits counter pfn ((pfn + n) % 2 ^ 64) q w.cycle w.state v,
            );
            counted = exclude_range-Grows bits counter pfn ((pfn + n) % 2 ^ 64) w.cycle w.state;
            start_kept =
                (exclude_range-bit bits counter pfn ((pfn + n) % 2 ^ 64) 0 w.cycle w.state v).6;
            end_kept =
                (exclude_range-bit bits counter pfn ((pfn + n) % 2 ^ 64) 0 w.cycle w.state v).7;
          })
  ]

  Safe-refl :
      (pfn : ℕ) (w w' : Work bits source)
      → Valid w.state.0
      → w'.state ≡ w.state
      → w'.cycle ≡ w.cycle
      → Safe pfn w w'
  Safe-refl pfn w w' v s c = record {
    valid = rw s v;
    cleared = λ q h. rw s at h;
    before = λ q h. rw s refl;
    counted = rw s (Grows-refl (w.state.1));
    start_kept = rw c refl;
    end_kept = rw c refl;
  }

  Safe-trans :
      {pfn next : ℕ} {w₁ w₂ w₃ : Work bits source}
      → pfn ≤ next
      → Safe pfn w₁ w₂
      → Safe next w₂ w₃
      → Safe pfn w₁ w₃
  Safe-trans {w₂ = w₂} h a b = record {
    valid = b.valid;
    cleared = λ q on. a.cleared q (b.cleared q on);
    before = λ q lt. b.before q (omega arith) ∙ a.before q lt;
    counted = Grows-trans {s = w₂.state.1} a.counted b.counted;
    start_kept = b.start_kept ∙ a.start_kept;
    end_kept = b.end_kept ∙ a.end_kept;
  }

  execute-next :
      (d : Decision) (pfn : ℕ) (w : Work bits source)
      → pfn < 2 ^ 31
      → ((c : Counter) (n : ℕ) → d ≡ exclude c n → Moves n)
      → pfn < (execute bits source d pfn w).0
  unfolding execute
  execute-next keep pfn w low pos = omega arith
  execute-next (exclude counter n) pfn w low pos = ground (arith, pos counter n refl)

  -- A round that is not cut short by a read error moves on, and is safe.
  abbrev RoundSafe : ℕ → Work bits source → Option (ℕ × Work bits source) → Type 0
  RoundSafe pfn w none = Unit {0}
  RoundSafe pfn w (some (next, w')) = (pfn < next) × Safe pfn w w'

  skip-Safe :
      (pfn : ℕ) (w : Work bits source)
      → Valid w.state.0
      → (pfn < pfn + 1)
        × Safe pfn w (record w { mem_map = (w.mem_map + source.size_page) % 2 ^ 64 })
  skip-Safe pfn w v = (
    omega arith,
    Safe-refl pfn w (record w { mem_map = (w.mem_map + source.size_page) % 2 ^ 64 }) v refl refl,
  )

  decided-Safe :
      (d : Decision) (pfn : ℕ) (w : Work bits source) (cache : PageCache)
      → Valid w.state.0
      → pfn < 2 ^ 31
      → ((c : Counter) (n : ℕ) → d ≡ exclude c n → Moves n)
      → RoundSafe pfn w (some (execute bits source d pfn (record w { cache = cache })))
  decided-Safe d pfn w cache v low pos =
      let w₁ = record w { cache = cache } in
      (
        execute-next d pfn w₁ low pos,
        Safe-trans {next = pfn} (omega arith) (Safe-refl pfn w w₁ v refl refl)
            (execute-Safe d pfn w₁ v),
      )

  round_at-Safe :
      (pfn_end pfn : ℕ) (w : Work bits source)
      → Valid w.state.0
      → pfn < 2 ^ 31
      → RoundSafe pfn w (round_at bits source pfn_end pfn w)
  unfolding round_at
  round_at-Safe pfn_end pfn w v low =
      elim (Bool-cases (source.flag_cyclic && not (is_cyclic_region pfn (some w.cycle)))) [
        | inl out ↦ rw out (skip-Safe pfn w v)
        | inr here ↦ elim (Bool-cases (source.in_segs pfn)) [
          | inr hole ↦ rw (here, hole) (skip-Safe pfn w v)
          | inl memory ↦ elim (Option-cases (refresh source w.mem_map pfn pfn_end w.cache)) [
            | inl error ↦ rw (here, memory, error) tt
            | inr (cache, read) ↦
                let index = pfn % pgmm_cached in
                let page = cache.entries index in
                let next = cache.entries (index + 1) in
                rw (here, memory, read)
                  (decided-Safe
                    (classify source.kernel pgmm_cached source.buddy source.dump_level pfn page
                      next)
                    pfn w cache v low
                    (λ c n e.
                      classify-Moves source.kernel pgmm_cached source.buddy source.dump_level pfn
                        page next e))
          ]
        ]
      ]

  -- The loop has ended by itself, and what it returned has the property.
  abbrev pub Ends : End bits source → (Bool → Work bits source → Type 0) → Type 0
  Ends out_of_fuel P = ⊥
  Ends (returned b w) P = P b w

  Ends-mono :
      {P Q : Bool → Work bits source → Type 0} (r : End bits source)
      → ((b : Bool) (w : Work bits source) → P b w → Q b w)
      → Ends r P
      → Ends r Q
  Ends-mono out_of_fuel f h = absurd h
  Ends-mono (returned b w) f h = f b w h

  -- For a memory map that ends at frame 2^31 or below and with fuel for the frames left, the loop over
  -- the page descriptors ends, whether it returns true or false and whatever the descriptors hold, a
  -- shift of 1 by 31 included. It only clears bits, only of frames from its start on, keeps the
  -- window of the cycle, and lowers none of the six counters.
  pub scan-Safe :
      (fuel pfn_end pfn : ℕ) (w : Work bits source)
      → Valid w.state.0
      → pfn_end ≤ 2 ^ 31
      → pfn_end ≤ pfn + fuel
      → Ends (scan bits source fuel pfn_end pfn w) (λ b w'. Safe pfn w w')
  unfolding scan
  scan-Safe zero pfn_end pfn w v few h = ground (arith, Safe-refl pfn w w v refl refl)
  scan-Safe (suc fuel) pfn_end pfn w v few h = elim (Bool-cases (ltb pfn pfn_end)) [
    | inr over ↦ rw over (Safe-refl pfn w w v refl refl)
    | inl more ↦
        let one = round_at-Safe pfn_end pfn w v (ground (arith, more)) in
        elim (Option-cases (round_at bits source pfn_end pfn w)) [
          | inl error ↦ rw (more, error) (Safe-refl pfn w w v refl refl)
          | inr ((next, w₁), done) ↦
              let safe : (pfn < next) × Safe pfn w w₁ = rw done at one in
              rw (more, done)
                (Ends-mono (scan bits source fuel pfn_end next w₁)
                  (λ b w' s. Safe-trans (omega arith) safe.1 s)
                  (scan-Safe fuel pfn_end next w₁ safe.1.valid few (omega arith)))
        ]
  ]
