-- ===== src/Filter/Stats.antt =====
-- The counters of the excluded pages.
use makedumpfile.Prelude.{ℕ, ◌+◌, ◌≤◌, ◌≡◌, arith}
use makedumpfile.Cycle.{
  Counter, pfn_cache, pfn_cache_private, pfn_user, pfn_free, pfn_hwpoison, pfn_offline,
}

pub record Stats : Type 0 where
  pub cache : ℕ
  pub cache_private : ℕ
  pub user : ℕ
  pub free : ℕ
  pub hwpoison : ℕ
  pub offline : ℕ

-- `(*counter)++`
unfoldable pub bump : Counter → Stats → Stats
bump pfn_cache s = record s { cache = s.cache + 1 }
bump pfn_cache_private s = record s { cache_private = s.cache_private + 1 }
bump pfn_user s = record s { user = s.user + 1 }
bump pfn_free s = record s { free = s.free + 1 }
bump pfn_hwpoison s = record s { hwpoison = s.hwpoison + 1 }
bump pfn_offline s = record s { offline = s.offline + 1 }

abbrev pub total : Stats → ℕ
total s = s.cache + s.cache_private + s.user + s.free + s.hwpoison + s.offline

pub total-bump : (c : Counter) (s : Stats) → total (bump c s) ≡ total s + 1
unfolding bump
total-bump pfn_cache s = omega arith
total-bump c s = omega arith

-- None of the counters is lower.
abbrev pub Grows : Stats → Stats → Type 0
Grows s t =
    (s.cache ≤ t.cache)
    × (s.cache_private ≤ t.cache_private)
    × (s.user ≤ t.user)
    × (s.free ≤ t.free)
    × (s.hwpoison ≤ t.hwpoison)
    × (s.offline ≤ t.offline)

pub Grows-refl : (s : Stats) → Grows s s
Grows-refl s = ground arith

pub Grows-trans : {r s t : Stats} → Grows r s → Grows s t → Grows r t
Grows-trans {r} {s} {t} g h = ground arith

pub bump-Grows : (c : Counter) (s : Stats) → Grows s (bump c s)
unfolding bump
bump-Grows pfn_cache s = ground arith
bump-Grows c s = ground arith
