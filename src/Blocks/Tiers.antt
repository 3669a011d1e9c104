-- ===== src/Blocks/Tiers.antt =====
-- client/src/main/blocks/tiers.ts: the eviction sweep and the expiry of old blocks. An error in a sweep
-- is swallowed by the source; no call of the model fails. What is left to free is a natural number: the
-- source's may fall below 0, which ends the loops as 0 does.
use united.Prelude.{
  ℕ, ◌+◌, ◌-◌, ◌*◌, Bool, ◌&&◌, List, [], ◌∷◌, map, keep, ltb, leb, ◌==◌, if◌then◌else◌,
}
use united.Prelude.Sort.{sort_by}
use united.Blocks.Types.{ContentTier, never_evict, hot, warm, altruistic, BlockMeta}
use united.Blocks.Store.{Platform, BlockStore, delete_block, total_size, in_tier}

abbrev pub eviction_tiers : List ContentTier
eviction_tiers = altruistic ∷ warm ∷ hot ∷ []

-- `datetime(created_at, '+n days') < datetime('now')`
abbrev pub is_expired : ℕ → ℕ → BlockMeta → Bool
is_expired ttl_days now r = ltb (r.created_at + ttl_days * 86400) now

module _ (p : Platform) where
  -- `SELECT … WHERE tier = ? ORDER BY last_accessed_at ASC`
  abbrev pub least_recent_first : ContentTier → List BlockMeta → List BlockMeta
  least_recent_first tier rows = sort_by (λ r. r.last_accessed_at) (keep (in_tier p tier) rows)

  -- The inner loop: what is left to free, and the store.
  unfoldable pub evict_blocks : List BlockMeta → ℕ → BlockStore p → ℕ × BlockStore p
  evict_blocks [] to_free s = (to_free, s)
  evict_blocks (block ∷ blocks) to_free s =
      let rest = evict_blocks blocks (to_free - block.size) (delete_block p block.hash s) in
      if to_free == 0 then (to_free, s) else rest

  -- The outer loop.
  unfoldable pub evict_tiers : List ContentTier → ℕ → BlockStore p → ℕ × BlockStore p
  evict_tiers [] to_free s = (to_free, s)
  evict_tiers (tier ∷ tiers) to_free s =
      let (left, s') = evict_blocks (least_recent_first tier s.meta) to_free s in
      let rest = evict_tiers tiers left s' in if to_free == 0 then (to_free, s) else rest

  unfoldable pub run_eviction_sweep : ℕ → BlockStore p → BlockStore p
  run_eviction_sweep budget s =
      let p1_usage = total_size p (keep (in_tier p never_evict) s.meta) in
      let evictable_budget = budget - p1_usage in
      let evictable_usage = total_size p s.meta - p1_usage in
      if leb evictable_usage evictable_budget
      then s
      else (evict_tiers eviction_tiers (evictable_usage - evictable_budget) s).1

  abbrev pub downgrade : ℕ → ℕ → BlockMeta → BlockMeta
  downgrade ttl_days now r =
      if in_tier p warm r && is_expired ttl_days now r then record r { tier = altruistic } else r

  unfoldable pub delete_all : List BlockMeta → BlockStore p → BlockStore p
  delete_all [] s = s
  delete_all (r ∷ rs) s = delete_all rs (delete_block p r.hash s)

  unfoldable pub check_ttl_expiry : ℕ → ℕ → BlockStore p → BlockStore p
  check_ttl_expiry ttl_days now s =
      let downgraded = map (downgrade ttl_days now) s.meta in
      delete_all (keep (λ r. in_tier p altruistic r && is_expired ttl_days now r) downgraded)
        (record s { meta = downgraded })
