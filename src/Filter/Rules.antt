-- ===== src/Filter/Rules.antt =====
-- When a page is left out, and as what, independently of the order of the tests.
use makedumpfile.Prelude.{
  ℕ, ◌≡◌, Bool, true, false, ◌&&◌, ◌||◌, not, bit_and, ◌==◌, if◌then◌else◌, arith,
}
use makedumpfile.Cycle.{
  Counter, pfn_cache, pfn_cache_private, pfn_user, pfn_free, pfn_hwpoison, pfn_offline,
}
use makedumpfile.Filter.{
  Kernel, Page, BuddyTest, Decision, keep, exclude, level, bad_order, is_buddy, is_unaccepted,
  is_cache_page, is_private, is_anon, is_hugetlb, is_hwpoison, is_offline, decide, dl_exclude_cache,
  dl_exclude_cache_pri, dl_exclude_user_data, dl_exclude_free,
}

-- What the tests see of a page.
pub record View : Type 0 where
  pub tail : Bool
  pub buddy : Bool
  pub bad : Bool
  pub unaccepted : Bool
  pub cache : Bool
  pub private : Bool
  pub anon : Bool
  pub huge : Bool
  pub poison : Bool
  pub offline : Bool

module _ (k : Kernel) where
  unfoldable pub view : BuddyTest → Page → ℕ → View
  view buddy page dtor =
      let mapcount : ℕ = (if k.has_mapcount then page.mapcount else 0) in
      record {
        tail = not (bit_and (if k.has_compound_head then page.compound_head else 0) 1 == 0);
        buddy = is_buddy k buddy page.flags mapcount;
        bad = bad_order k (if k.has_private then page.private else 0);
        unaccepted = is_unaccepted k mapcount;
        cache = is_cache_page k page.flags;
        private = is_private k page.flags;
        anon = is_anon k page.mapping page.flags mapcount;
        huge = is_hugetlb k dtor;
        poison = is_hwpoison k page.flags;
        offline = is_offline k page.flags mapcount;
      }

-- Why a page may be counted in a statistic.
pub reason : Counter → ℕ → View → Bool
reason pfn_free l v =
    level l dl_exclude_free && (v.buddy && not v.bad || not v.buddy && v.unaccepted)
reason pfn_cache l v =
    (level l dl_exclude_cache || level l dl_exclude_cache_pri)
    && v.cache
    && not v.private
    && not v.anon
reason pfn_cache_private l v = level l dl_exclude_cache_pri && v.cache && v.private && not v.anon
reason pfn_user l v = level l dl_exclude_user_data && (v.anon || v.huge)
reason pfn_hwpoison l v = v.poison
reason pfn_offline l v = v.offline

pub any_reason : ℕ → View → Bool
any_reason l v =
    reason pfn_free l v
    || reason pfn_cache l v
    || reason pfn_cache_private l v
    || reason pfn_user l v
    || reason pfn_hwpoison l v
    || reason pfn_offline l v

unfoldable pub is_kept : Decision → Bool
is_kept keep = true
is_kept (exclude c n) = false

-- A page is left out only for a reason that its statistic stands for, and a compound tail never is.
pub decide-reason :
    (k : Kernel) (buddy : BuddyTest) (dump_level : ℕ) (page : Page) (order dtor : ℕ) {c : Counter}
    {n : ℕ}
    → decide k buddy dump_level page order dtor ≡ exclude c n
    → (reason c dump_level (view k buddy page dtor) ≡ true)
      × ((view k buddy page dtor).tail ≡ false)
unfolding decide view reason
decide-reason k buddy dump_level page order dtor h = ground arith

-- A page is kept exactly when it is a compound tail, a free page of an order that the zone does
-- not have, or there is no reason to leave it out.
pub is_kept-decide :
    (k : Kernel) (buddy : BuddyTest) (dump_level : ℕ) (page : Page) (order dtor : ℕ)
    → is_kept (decide k buddy dump_level page order dtor) ≡ (
        let v = view k buddy page dtor in
        v.tail
        || (level dump_level dl_exclude_free && v.buddy && v.bad)
        || not (any_reason dump_level v))
unfolding decide view any_reason reason is_kept
is_kept-decide k buddy dump_level page order dtor = ground arith

-- Each kind of page that the first level leaves out, the second does too.
abbrev pub Includes : ℕ → ℕ → Type 0
Includes high low =
    (level low dl_exclude_cache ≡ true → level high dl_exclude_cache ≡ true)
    × (level low dl_exclude_cache_pri ≡ true → level high dl_exclude_cache_pri ≡ true)
    × (level low dl_exclude_user_data ≡ true → level high dl_exclude_user_data ≡ true)
    × (level low dl_exclude_free ≡ true → level high dl_exclude_free ≡ true)

-- A higher dump level leaves out every page that a lower one does, if the page is not a free page
-- of an order that the zone does not have.
pub decide_monotone :
    (k : Kernel) (buddy : BuddyTest) (low high : ℕ) (page : Page) (order dtor : ℕ)
    → Includes high low
    → ((view k buddy page dtor).buddy && (view k buddy page dtor).bad) ≡ false
    → is_kept (decide k buddy low page order dtor) ≡ false
    → is_kept (decide k buddy high page order dtor) ≡ false
unfolding any_reason reason
decide_monotone k buddy low high page order dtor more good out =
    ground (
      arith,
      is_kept-decide k buddy low page order dtor,
      is_kept-decide k buddy high page order dtor,
    )
