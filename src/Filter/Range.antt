-- ===== src/Filter/Range.antt =====
-- `exclude_range`: the frames that it clears, those that it leaves for the next cycle, and how many
-- it counts, for any bitmap that keeps the laws of one.
use makedumpfile.Prelude.{
  ℕ, zero, suc, ◌+◌, ◌-◌, ◌≡◌, refl, Bool, false, ◌&&◌, some, min, max, ltb, leb, ◌==◌,
  if◌then◌else◌, arith, Bool-cases, inl, inr,
}
use makedumpfile.Cycle.{Counter, Cycle}
use makedumpfile.Filter.Stats.{
  Stats, bump, total, total-bump, Grows, Grows-refl, Grows-trans, bump-Grows,
}

-- A bitmap whose frames from `first` up to `past` can be cleared.
pub record Bits (first past : ℕ) : Type 1 where
  pub State : Type 0
  pub Valid : State → Type 0
  pub clear : ℕ → State → Bool × State
  pub bit : State → ℕ → Bool
  pub clear-done :
      (s : State) (pfn : ℕ) → Valid s → (clear pfn s).0 ≡ (leb first pfn && ltb pfn past)
  pub bit-clear :
      (s : State) (pfn q : ℕ)
      → Valid s
      → bit (clear pfn s).1 q ≡ (if (clear pfn s).0 && pfn == q then false else bit s q)
  pub clear-Valid : (s : State) (pfn : ℕ) → Valid s → Valid (clear pfn s).1

module _ {first past : ℕ} (bits : Bits first past) where
  open bits use {State, Valid, clear, bit, clear-done, bit-clear, clear-Valid}

  -- `if (clear_bit_on_2nd_bitmap_for_kernel (pfn, cycle)) (*counter)++;`
  unfoldable pub clear_counted : Counter → ℕ → State × Stats → State × Stats
  clear_counted counter pfn (s, stats) =
      let (done, s') = clear pfn s in (s', if done then bump counter stats else stats)

  -- The loop `while (pfn < endpfn)`, for the number of frames left.
  unfoldable pub clear_frames : Counter → ℕ → ℕ → State × Stats → State × Stats
  clear_frames counter pfn zero st = st
  clear_frames counter pfn (suc n) st =
      clear_frames counter (pfn + 1) n (clear_counted counter pfn st)

  -- The cycle keeps what lies past its end as a pending exclusion.
  unfoldable pub exclude_range : Counter → ℕ → ℕ → Cycle → State × Stats → Cycle × State × Stats
  exclude_range counter pfn endpfn cycle st =
      let stop : ℕ = (if ltb cycle.end_pfn endpfn then cycle.end_pfn else endpfn) in
      let (s, stats) = clear_frames counter pfn (stop - pfn) st in
      (
        record cycle {
          exclude_pfn_start = cycle.end_pfn;
          exclude_pfn_end = endpfn;
          exclude_pfn_counter = some counter;
        },
        s,
        stats,
      )

  pub clear_counted-bit :
      (counter : Counter) (pfn q : ℕ) (st : State × Stats)
      → Valid st.0
      → (bit (clear_counted counter pfn st).0 q
          ≡ (if leb first q && ltb q past && pfn == q then false else bit st.0 q))
        × Valid (clear_counted counter pfn st).0
        × (total (clear_counted counter pfn st).1
            ≡ total st.1 + (if leb first pfn && ltb pfn past then 1 else 0))
  unfolding clear_counted
  clear_counted-bit counter pfn q (s, stats) v = (
    ground (arith, clear-done s pfn v, bit-clear s pfn q v),
    clear-Valid s pfn v,
    ground (arith, clear-done s pfn v, total-bump counter stats),
  )

  -- Clearing `n` frames from `pfn` on clears those of them that the bitmap has, and counts each.
  clear_frames-bit :
      (counter : Counter) (pfn n q : ℕ) (st : State × Stats)
      → Valid st.0
      → (bit (clear_frames counter pfn n st).0 q ≡ (
          if leb first q && ltb q past && leb pfn q && ltb q (pfn + n) then false else bit st.0 q))
        × Valid (clear_frames counter pfn n st).0
        × (total (clear_frames counter pfn n st).1
            ≡ total st.1 + (min (pfn + n) past - max pfn first))
  unfolding clear_frames
  clear_frames-bit counter pfn zero q st v = (ground arith, v, omega arith)
  clear_frames-bit counter pfn (suc n) q st v =
      let one = clear_counted-bit counter pfn q st v in
      let rest = clear_frames-bit counter (pfn + 1) n q (clear_counted counter pfn st) one.1 in
      (ground (arith, one.0, rest.0), rest.1, ground (arith, one.2, rest.2))

  pub clear_counted-Grows :
      (counter : Counter) (pfn : ℕ) (st : State × Stats)
      → Grows st.1 (clear_counted counter pfn st).1
  unfolding clear_counted
  clear_counted-Grows counter pfn (s, stats) = elim (Bool-cases ((clear pfn s).0)) [
    | inl done ↦ rw done (bump-Grows counter stats)
    | inr ko ↦ rw ko (Grows-refl stats)
  ]

  clear_frames-Grows :
      (counter : Counter) (pfn n : ℕ) (st : State × Stats)
      → Grows st.1 (clear_frames counter pfn n st).1
  unfolding clear_frames
  clear_frames-Grows counter pfn zero st = Grows-refl (st.1)
  clear_frames-Grows counter pfn (suc n) st =
      Grows-trans {s = (clear_counted counter pfn st).1} (clear_counted-Grows counter pfn st)
        (clear_frames-Grows counter (pfn + 1) n (clear_counted counter pfn st))

  pub exclude_range-Grows :
      (counter : Counter) (pfn endpfn : ℕ) (cycle : Cycle) (st : State × Stats)
      → Grows st.1 (exclude_range counter pfn endpfn cycle st).2
  unfolding exclude_range
  exclude_range-Grows counter pfn endpfn cycle st =
      clear_frames-Grows counter pfn
        ((if ltb cycle.end_pfn endpfn then cycle.end_pfn else endpfn) - pfn) st

  -- `exclude_range` clears exactly the frames of its range below the end of the cycle that the
  -- bitmap has, counts each of them once, and leaves the range past the cycle's end pending.
  pub exclude_range-bit :
      (counter : Counter) (pfn endpfn q : ℕ) (cycle : Cycle) (st : State × Stats)
      → Valid st.0
      → let (cycle', s', stats') = exclude_range counter pfn endpfn cycle st in
        (bit s' q ≡ (
          if leb first q && ltb q past && leb pfn q && ltb q (min endpfn cycle.end_pfn)
          then false
          else bit st.0 q))
        × Valid s'
        × (total stats' ≡ total st.1 + (min (min endpfn cycle.end_pfn) past - max pfn first))
        × (cycle'.exclude_pfn_start ≡ cycle.end_pfn)
        × (cycle'.exclude_pfn_end ≡ endpfn)
        × (cycle'.exclude_pfn_counter ≡ some counter)
        × (cycle'.start_pfn ≡ cycle.start_pfn)
        × (cycle'.end_pfn ≡ cycle.end_pfn)
  unfolding exclude_range
  exclude_range-bit counter pfn endpfn q cycle st v =
      let stop : ℕ = (if ltb cycle.end_pfn endpfn then cycle.end_pfn else endpfn) in
      let all = clear_frames-bit counter pfn (stop - pfn) q st v in
      (ground (arith, all.0), all.1, ground (arith, all.2), refl, refl, refl, refl, refl)
