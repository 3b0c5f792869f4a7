-- ===== src/Threads/Queue.antt =====
-- The flags of a thread, in the order of their frames.
use makedumpfile.Prelude.{
  ℕ, zero, suc, ◌+◌, ◌≤◌, ◌<◌, ◌≡◌, ◌⊎◌, refl, ap, ◌∙◌, sym, subst, Bool, true, false, ◌&&◌, ◌||◌,
  not, List, [], ◌∷◌, ◌++◌, length, ltb, leb, ◌==◌, if◌then◌else◌, arith, Bool-cases, inl, inr,
}
use mathlib.Core.Bool.{false≢true}
use makedumpfile.Threads.{
  PageFlag, Producer, take_buffer, wait_flag, post, fill, leave, exited, failed, ThreadInfo,
  publish_page, publish_zero, filling, next_pfn,
}

abbrev pub has_pfn : ℕ → List PageFlag → Bool
has_pfn p [] = false
has_pfn p (flag ∷ queue) = flag.pfn == p || has_pfn p queue

abbrev pub is_post : Producer → Bool
is_post (take_buffer index) = false
is_post (wait_flag index) = false
is_post (post index pfn) = true
is_post (fill index pfn) = false
is_post (leave index) = false
is_post exited = false
is_post failed = false

abbrev pub is_empty : List PageFlag → Bool
is_empty [] = true
is_empty (flag ∷ queue) = false

-- The last flag is being filled.
abbrev pub IsOpen : List PageFlag → Type 0
IsOpen [] = ⊥
IsOpen (flag ∷ []) = flag.ready ≡ false
IsOpen (flag ∷ (next ∷ queue)) = IsOpen (next ∷ queue)

-- The first flag is ready, for this frame.
abbrev pub IsHead : ℕ → List PageFlag → Type 0
IsHead p [] = ⊥
IsHead p (flag ∷ queue) = (flag.ready ≡ true) × (flag.pfn ≡ p)

abbrev pub one_if : Bool → ℕ
one_if true = 1
one_if false = 0

module _ (info : ThreadInfo) where
  -- A thread that has found no more frames.
  abbrev pub at_end : Producer → Bool
  at_end (take_buffer index) = false
  at_end (wait_flag index) = false
  at_end (post index pfn) = leb info.end_pfn pfn
  at_end (fill index pfn) = false
  at_end (leave index) = true
  at_end exited = true
  at_end failed = false

  abbrev pub IsPage : ℕ → PageFlag → Type 0
  IsPage current flag =
      (flag.pfn < current) × (flag.pfn < info.end_pfn) × (info.dumpable flag.pfn ≡ true)

  -- Flags of dumpable frames below the current one, ascending from `low` on, and perhaps a last one
  -- that stands for the end.
  abbrev pub Flags : ℕ → Producer → ℕ → List PageFlag → Type 0
  Flags current pc low [] = Unit {0}
  Flags current pc low (flag ∷ queue) =
      (low ≤ flag.pfn)
      × ((IsPage current flag × Flags current pc (suc flag.pfn) queue)
          ⊎ ((info.end_pfn ≤ flag.pfn) × (flag.ready ≡ false) × (queue ≡ []) × (at_end pc ≡ true)))

  pub record IsThread (current low : ℕ) (pc : Producer) (queue : List PageFlag) : Type 0 where
    pub flags : Flags current pc low queue
    pub posting : is_post pc ≡ true → (info.end_pfn ≤ current) ⊎ IsOpen queue
    pub ending : at_end pc ≡ true → info.end_pfn ≤ current

  -- More frames may be taken meanwhile.
  pub Flags-current :
      (current current' low : ℕ) (pc : Producer) (queue : List PageFlag)
      → ((p : ℕ) → p < current → p < info.end_pfn → p < current')
      → Flags current pc low queue
      → Flags current' pc low queue
  Flags-current current current' low pc [] up flags = tt
  Flags-current current current' low pc (flag ∷ queue) up (le, inl (page, flags)) = (
    le,
    inl (
      (up flag.pfn page.0 page.1, page.1, page.2),
      Flags-current current current' (suc flag.pfn) pc queue up flags,
    ),
  )
  Flags-current current current' low pc (flag ∷ queue) up (le, inr last) = (le, inr last)

  pub Flags-low :
      (current low low' : ℕ) (pc : Producer) (queue : List PageFlag)
      → low' ≤ low
      → Flags current pc low queue
      → Flags current pc low' queue
  Flags-low current low low' pc [] le flags = tt
  Flags-low current low low' pc (flag ∷ queue) le (le', rest) = (omega (arith, le, le'), rest)

  -- Where a thread is matters only for the flag of the end.
  pub Flags-producer :
      (current low : ℕ) (pc pc' : Producer) (queue : List PageFlag)
      → (at_end pc ≡ true → at_end pc' ≡ true)
      → Flags current pc low queue
      → Flags current pc' low queue
  Flags-producer current low pc pc' [] same flags = tt
  Flags-producer current low pc pc' (flag ∷ queue) same (le, inl (page, flags)) =
      (le, inl (page, Flags-producer current (suc flag.pfn) pc pc' queue same flags))
  Flags-producer current low pc pc' (flag ∷ queue) same (le, inr last) =
      (le, inr (last.0, last.1, last.2, same last.3))

  -- A frame of the flags, and what is known of it.
  pub Flags-has_pfn :
      (current low p : ℕ) (pc : Producer) (queue : List PageFlag)
      → Flags current pc low queue
      → has_pfn p queue ≡ true
      → p < info.end_pfn
      → (low ≤ p) × (p < current) × (info.dumpable p ≡ true)
  Flags-has_pfn current low p pc [] flags has less = absurd (false≢true has)
  Flags-has_pfn current low p pc (flag ∷ queue) (le, rest) has less =
      elim (Bool-cases (flag.pfn == p)) [
        | inl same ↦
            let at : flag.pfn ≡ p = ground (arith, same) in
            elim rest [
              | inl (page, flags) ↦ (
                omega (arith, le, at),
                omega (arith, page.0, at),
                subst (λ n. info.dumpable n ≡ true) at page.2,
              )
              | inr last ↦ (let no : ⊥ = omega (arith, last.0, at, less) in absurd no)
            ]
        | inr other ↦ elim rest [
          | inl (page, flags) ↦
              let r =
                Flags-has_pfn current (suc flag.pfn) p pc queue flags (ground (arith, has, other))
                  less in
              (omega (arith, le, r.0), r.1, r.2)
          | inr last ↦
              let none : has_pfn p queue ≡ false = ap (has_pfn p) last.2 in
              absurd (false≢true (sym none ∙ ground (arith, has, other)))
        ]
      ]

  -- A new flag at the end, of the frame that is found next.
  pub Flags-append :
      (current low pfn : ℕ) (pc pc' : Producer) (queue : List PageFlag)
      → Flags current pc low queue
      → at_end pc ≡ false
      → current ≤ pfn
      → low ≤ pfn
      → ((pfn < info.end_pfn) × (info.dumpable pfn ≡ true))
        ⊎ ((info.end_pfn ≤ pfn) × (at_end pc' ≡ true))
      → Flags (pfn + 1) pc' low (queue ++ (filling info pfn ∷ []))
  Flags-append current low pfn pc pc' [] flags busy le above kind = (
    above,
    elim kind [
      | inl page ↦ inl ((omega arith, page.0, page.1), tt)
      | inr last ↦ inr (last.0, refl, refl, last.1)
    ],
  )
  Flags-append current low pfn pc pc' (flag ∷ queue) (le', inl (page, flags)) busy le above kind = (
    le',
    inl (
      (omega (arith, page.0, le), page.1, page.2),
      Flags-append current (suc flag.pfn) pfn pc pc' queue flags busy le (omega (arith, page.0, le))
          kind,
    ),
  )
  Flags-append current low pfn pc pc' (flag ∷ queue) (le', inr last) busy le above kind =
      absurd (false≢true (sym busy ∙ last.3))

  pub IsOpen-append : (queue : List PageFlag) (pfn : ℕ) → IsOpen (queue ++ (filling info pfn ∷ []))
  IsOpen-append [] pfn = refl
  IsOpen-append (flag ∷ []) pfn = refl
  IsOpen-append (flag ∷ (next ∷ queue)) pfn = IsOpen-append (next ∷ queue) pfn

  pub IsHead-append :
      (queue : List PageFlag) (p pfn : ℕ)
      → IsHead p queue
      → IsHead p (queue ++ (filling info pfn ∷ []))
  IsHead-append [] p pfn head = absurd head
  IsHead-append (flag ∷ queue) p pfn head = head

  pub has_pfn-append :
      (queue : List PageFlag) (p pfn : ℕ)
      → has_pfn p (queue ++ (filling info pfn ∷ [])) ≡ (has_pfn p queue || pfn == p)
  has_pfn-append [] p pfn = ground arith
  has_pfn-append (flag ∷ queue) p pfn = ground (arith, has_pfn-append queue p pfn)

  -- The loop over the frames finds the first dumpable one, or the end.
  pub next_pfn_lem :
      (fuel pfn : ℕ)
      → info.end_pfn ≤ pfn + fuel
      → let found = next_pfn info fuel pfn in
        (pfn ≤ found)
        × ((p : ℕ) → pfn ≤ p → p < found → info.dumpable p ≡ false)
        × (((found < info.end_pfn) × (info.dumpable found ≡ true)) ⊎ (info.end_pfn ≤ found))
  unfolding next_pfn
  next_pfn_lem zero pfn enough = (
    omega arith,
    (λ p low high. (let no : ⊥ = omega (arith, low, high) in absurd no)),
    inr (omega (arith, enough)),
  )
  next_pfn_lem (suc fuel) pfn enough =
      elim (Bool-cases (ltb pfn info.end_pfn && not (info.dumpable pfn))) [
        | inl skip ↦
            let step : next_pfn info (suc fuel) pfn ≡ next_pfn info fuel (pfn + 1) =
              ap (λ b. if b then next_pfn info fuel (pfn + 1) else pfn) skip in
            let (up, clear, kind) = next_pfn_lem fuel (pfn + 1) (omega (arith, enough)) in
            subst
              (λ found.
                (pfn ≤ found)
                × ((p : ℕ) → pfn ≤ p → p < found → info.dumpable p ≡ false)
                × (((found < info.end_pfn) × (info.dumpable found ≡ true))
                    ⊎ (info.end_pfn ≤ found)))
              (sym step)
              (
                omega (arith, up),
                (λ p low high. elim (Bool-cases (p == pfn)) [
                  | inl at ↦
                      let e : pfn ≡ p = ground (arith, at) in
                      let gap : info.dumpable pfn ≡ false = ground (arith, skip) in
                      subst (λ n. info.dumpable n ≡ false) e gap
                  | inr off ↦ clear p (ground (arith, off, low)) high
                ]),
                kind,
              )
        | inr stop ↦
            let step : next_pfn info (suc fuel) pfn ≡ pfn =
              ap (λ b. if b then next_pfn info fuel (pfn + 1) else pfn) stop in
            subst
              (λ found.
                (pfn ≤ found)
                × ((p : ℕ) → pfn ≤ p → p < found → info.dumpable p ≡ false)
                × (((found < info.end_pfn) × (info.dumpable found ≡ true))
                    ⊎ (info.end_pfn ≤ found)))
              (sym step)
              (
                omega arith,
                (λ p low high. (let no : ⊥ = omega (arith, low, high) in absurd no)),
                elim (Bool-cases (ltb pfn info.end_pfn)) [
                  | inl below ↦ inl (ground (arith, below), ground (arith, stop, below))
                  | inr above ↦ inr (ground (arith, above))
                ],
              )
      ]

  -- A flag is published: its frame stays.
  pub Flags-publish_page :
      (current low index : ℕ) (pc pc' : Producer) (queue : List PageFlag)
      → at_end pc ≡ false
      → Flags current pc low queue
      → Flags current pc' low (publish_page index queue)
  Flags-publish_page current low index pc pc' [] busy flags = tt
  Flags-publish_page current low index pc pc' (flag ∷ queue) busy (le, inr last) =
      absurd (false≢true (sym busy ∙ last.3))
  Flags-publish_page current low index pc pc' (flag ∷ []) busy (le, inl (page, flags)) =
      (le, inl (page, tt))
  Flags-publish_page current low index pc pc' (flag ∷ (next ∷ queue)) busy (le, inl (page, flags)) =
      (
        le,
        inl (
          page,
          Flags-publish_page current (suc flag.pfn) index pc pc' (next ∷ queue) busy flags,
        ),
      )

  pub Flags-publish_zero :
      (current low : ℕ) (pc pc' : Producer) (queue : List PageFlag)
      → at_end pc ≡ false
      → Flags current pc low queue
      → Flags current pc' low (publish_zero queue)
  Flags-publish_zero current low pc pc' [] busy flags = tt
  Flags-publish_zero current low pc pc' (flag ∷ queue) busy (le, inr last) =
      absurd (false≢true (sym busy ∙ last.3))
  Flags-publish_zero current low pc pc' (flag ∷ []) busy (le, inl (page, flags)) =
      (le, inl (page, tt))
  Flags-publish_zero current low pc pc' (flag ∷ (next ∷ queue)) busy (le, inl (page, flags)) =
      (le, inl (page, Flags-publish_zero current (suc flag.pfn) pc pc' (next ∷ queue) busy flags))

pub has_pfn-publish_page :
    (index p : ℕ) (queue : List PageFlag) → has_pfn p (publish_page index queue) ≡ has_pfn p queue
has_pfn-publish_page index p [] = refl
has_pfn-publish_page index p (flag ∷ []) = refl
has_pfn-publish_page index p (flag ∷ (next ∷ queue)) =
    ap (λ b. flag.pfn == p || b) (has_pfn-publish_page index p (next ∷ queue))

pub has_pfn-publish_zero :
    (p : ℕ) (queue : List PageFlag) → has_pfn p (publish_zero queue) ≡ has_pfn p queue
has_pfn-publish_zero p [] = refl
has_pfn-publish_zero p (flag ∷ []) = refl
has_pfn-publish_zero p (flag ∷ (next ∷ queue)) =
    ap (λ b. flag.pfn == p || b) (has_pfn-publish_zero p (next ∷ queue))

pub length-publish_page :
    (index : ℕ) (queue : List PageFlag) → length (publish_page index queue) ≡ length queue
length-publish_page index [] = refl
length-publish_page index (flag ∷ []) = refl
length-publish_page index (flag ∷ (next ∷ queue)) =
    ap suc (length-publish_page index (next ∷ queue))

pub length-publish_zero : (queue : List PageFlag) → length (publish_zero queue) ≡ length queue
length-publish_zero [] = refl
length-publish_zero (flag ∷ []) = refl
length-publish_zero (flag ∷ (next ∷ queue)) = ap suc (length-publish_zero (next ∷ queue))

pub IsHead-publish_page :
    (index p : ℕ) (queue : List PageFlag) → IsHead p queue → IsHead p (publish_page index queue)
IsHead-publish_page index p [] head = head
IsHead-publish_page index p (flag ∷ []) head = (refl, head.1)
IsHead-publish_page index p (flag ∷ (next ∷ queue)) head = head

pub IsHead-publish_zero :
    (p : ℕ) (queue : List PageFlag) → IsHead p queue → IsHead p (publish_zero queue)
IsHead-publish_zero p [] head = head
IsHead-publish_zero p (flag ∷ []) head = (refl, head.1)
IsHead-publish_zero p (flag ∷ (next ∷ queue)) head = head
