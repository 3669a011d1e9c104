-- ===== src/Blocks/Reach.antt =====
-- The block store over time: calls of its operations in any order (client/src/main/blocks).
use united.Prelude.{ℕ, ◌≡◌, String, [], Option, none, some, length}
use united.Prelude.Dict.{lookup}
use united.Blocks.Types.{Buffer, ContentTier, BlockInfo}
use united.Blocks.Cache.{init_block_cache, clear_block_cache}
use united.Blocks.Store.{
  Platform, BlockStore, put_block, get_local_block, delete_block, maybe_upgrade_tier, set_config,
}
use united.Blocks.Tiers.{run_eviction_sweep, check_ttl_expiry}
use united.Blocks.Rows.{IsKeyed}
use united.Blocks.Sound.{IsCoherent, IsSound, meta-IsSound, cache-IsSound}
use united.Blocks.Integrity.{put_block-IsSound, get_local_block-IsSound}
use united.Blocks.Deletion.{
  delete_block-IsSound, run_eviction_sweep-IsSound, check_ttl_expiry-IsSound,
}
use united.Blocks.Eviction.{run_eviction_sweep-IsSwept}
use united.Blocks.Keyed.{
  put_block-IsKeyed, get_local_block-IsKeyed, delete_block-IsKeyed, maybe_upgrade_tier-IsKeyed,
  check_ttl_expiry-IsKeyed,
}

module _ (p : Platform) (key : Buffer) where
  -- A store that has been unlocked with the key, with nothing in it.
  abbrev pub unlocked_store : BlockStore p
  unlocked_store = record {
    key = some key;
    cache = none;
    meta = [];
    files = [];
    budget = none;
    warm_ttl = none;
  }

  pub data Step (s : BlockStore p) : BlockStore p → Type 0 where
    starts_cache : (bytes : ℕ) → Step s (record s { cache = init_block_cache p.lru bytes s.cache })
    drops_cache : Step s (record s { cache = clear_block_cache p.lru s.cache })
    puts :
        (block : Buffer) (tier : ContentTier) (info : BlockInfo) (now : ℕ) (random : ℕ → Buffer)
        → ((n : ℕ) → length (random n) ≡ n)
        → Step s (put_block p block tier info now random s).0
    gets : (hash : String) (now : ℕ) → Step s (get_local_block p hash now s).0
    deletes : (hash : String) → Step s (delete_block p hash s)
    upgrades : (hash : String) (tier : ContentTier) → Step s (maybe_upgrade_tier p hash tier s)
    configures : (budget warm_ttl : Option ℕ) → Step s (set_config p budget warm_ttl s)
    sweeps : (budget : ℕ) → Step s (run_eviction_sweep p budget s)
    expires : (ttl_days now : ℕ) → Step s (check_ttl_expiry p ttl_days now s)

  pub data Reach : BlockStore p → Type 0 where
    start : Reach unlocked_store
    next : {s t : BlockStore p} → Reach s → Step s t → Reach t

  created-IsCoherent : (bytes : ℕ) → IsCoherent p key (some (p.create bytes))
  created-IsCoherent bytes = λ hash block e. nothing hash block e
    where
      nothing :
          (hash : String) (block : Buffer)
          → p.peek hash (p.create bytes) ≡ some block
          → p.sha256_hex block ≡ hash
      nothing hash block e =
          let empty : p.peek hash (p.create bytes) ≡ none = p.peek-create bytes hash in absurd (cc)

  Step-IsSound : {s t : BlockStore p} → Step s t → IsSound p key s → IsSound p key t
  unfolding init_block_cache clear_block_cache maybe_upgrade_tier set_config
  Step-IsSound {s} (starts_cache bytes) v =
      cache-IsSound p key s (some (p.create bytes)) (created-IsCoherent bytes) v
  Step-IsSound {s} drops_cache v = cache-IsSound p key s none tt v
  Step-IsSound {s} (puts block tier info now random fills) v =
      put_block-IsSound p key block tier info now random s fills v
  Step-IsSound {s} (gets hash now) v = get_local_block-IsSound p key hash now s v
  Step-IsSound {s} (deletes hash) v = delete_block-IsSound p key hash s v
  Step-IsSound {s} (upgrades hash tier) v = meta-IsSound p key s _ v
  Step-IsSound {s} (configures budget warm_ttl) v = record {
    keyed = v.keyed;
    sealed = v.sealed;
    coherent = v.coherent;
  }
  Step-IsSound {s} (sweeps budget) v = run_eviction_sweep-IsSound p key budget s v
  Step-IsSound {s} (expires ttl_days now) v = check_ttl_expiry-IsSound p key ttl_days now s v

  Step-IsKeyed : {s t : BlockStore p} → Step s t → IsKeyed s.meta → IsKeyed t.meta
  unfolding set_config
  Step-IsKeyed {s} (starts_cache bytes) k = k
  Step-IsKeyed {s} drops_cache k = k
  Step-IsKeyed {s} (puts block tier info now random fills) k =
      put_block-IsKeyed p block tier info now random s k
  Step-IsKeyed {s} (gets hash now) k = get_local_block-IsKeyed p hash now s k
  Step-IsKeyed {s} (deletes hash) k = delete_block-IsKeyed p hash s k
  Step-IsKeyed {s} (upgrades hash tier) k = maybe_upgrade_tier-IsKeyed p hash tier s k
  Step-IsKeyed {s} (configures budget warm_ttl) k = k
  Step-IsKeyed {s} (sweeps budget) k = (run_eviction_sweep-IsSwept p budget s k).keyed
  Step-IsKeyed {s} (expires ttl_days now) k = check_ttl_expiry-IsKeyed p ttl_days now s k

  unlocked_store-IsSound : IsSound p key unlocked_store
  unfolding lookup
  unlocked_store-IsSound = record {
    keyed = λ k e. cc;
    sealed = λ hash encrypted e. absurd (cc);
    coherent = tt;
  }

  -- In every state that an empty unlocked block store reaches by its operations, the sweep and
  -- the expiry in any order, each file decrypts to a block with the hash that names it, each
  -- cache entry has the hash that it stands under, and no two rows have the same hash. The
  -- random source fills its buffers.
  pub Reach-IsSound : {s : BlockStore p} → Reach s → IsSound p key s × IsKeyed s.meta
  Reach-IsSound start = (unlocked_store-IsSound, tt)
  Reach-IsSound (next r st) = let v = Reach-IsSound r in (Step-IsSound st v.0, Step-IsKeyed st v.1)
