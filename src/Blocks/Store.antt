-- ===== src/Blocks/Store.antt =====
-- client/src/main/blocks/store.ts: blocks as encrypted files, their rows in SQLite, and the L0 cache.
-- The table `block_meta` is the list of its rows, the files are found by hash (a path is made of the
-- hash alone), and the time of a call is its argument `now`.
use united.Prelude.{
  ℕ, ◌+◌, String, str_eq, Bool, true, false, not, List, [], ◌∷◌, ◌++◌, map, Option, none, some,
  length, keep, find, ltb, ◌==◌, if◌then◌else◌,
}
use united.Prelude.Dict.{Dict, lookup, insert, erase}
use united.Blocks.Types.{
  Buffer, ContentTier, priority, BlockMeta, BlockInfo, BlockStoreConfig, default_budget_bytes,
  default_warm_ttl_days,
}
use united.Blocks.Crypto.{Sodium, encrypt_block, decrypt_block}
use united.Blocks.Cache.{LruPackage}

-- The packages that the store calls: the ciphers, SHA-256 in hexadecimal, and the cache.
pub record Platform : Type 1 where
  pub sodium : Sodium
  pub sha256_hex : Buffer → String
  pub lru : LruPackage
  pub open lru use *

pub data StoreError : Type 0 where
  key_not_available : StoreError
  -- The cache refuses an entry of size 0.
  invalid_entry_size : StoreError

pub data Outcome {ℓ} (A : Type ℓ) : Type ℓ where
  returns : A → Outcome A
  throws : StoreError → Outcome A

module _ (p : Platform) where
  -- A key or cache is `none` where it has not been set up.
  pub record BlockStore : Type 0 where
    pub key : Option Buffer
    pub cache : Option p.Cache
    pub meta : List BlockMeta
    pub files : Dict Buffer
    pub budget : Option ℕ
    pub warm_ttl : Option ℕ

  abbrev pub row_of : String → BlockStore → Option BlockMeta
  row_of hash s = find (λ r. str_eq r.hash hash) s.meta

  -- `UPDATE block_meta SET … WHERE hash = ?`
  abbrev pub update_rows : String → (BlockMeta → BlockMeta) → List BlockMeta → List BlockMeta
  update_rows hash f = map (λ r. if str_eq r.hash hash then f r else r)

  unfoldable pub touch_access : String → ℕ → BlockStore → BlockStore
  touch_access hash now s = record s {
    meta = update_rows hash (λ r. record r { last_accessed_at = now }) s.meta;
  }

  abbrev pub raise_tier : ContentTier → BlockMeta → BlockMeta
  raise_tier tier r = if ltb (priority tier) (priority r.tier) then record r { tier = tier } else r

  unfoldable pub maybe_upgrade_tier : String → ContentTier → BlockStore → BlockStore
  maybe_upgrade_tier hash tier s = record s { meta = update_rows hash (raise_tier tier) s.meta }

  -- `if (cache) cache.set(hash, data)`, at the end of `putBlock`.
  unfoldable pub cache_and_return : String → Buffer → BlockStore → BlockStore × Outcome String
  cache_and_return hash block s = elim s.cache [
    | none ↦ (s, returns hash)
    | some c ↦ elim (p.set hash block c) [
      | none ↦ (s, throws invalid_entry_size)
      | some c' ↦ (record s { cache = some c' }, returns hash)
    ]
  ]

  abbrev pub new_row : String → Buffer → ContentTier → BlockInfo → ℕ → BlockMeta
  new_row hash block tier info now = record {
    hash = hash;
    size = length block;
    tier = tier;
    mime_type = info.mime_type;
    width = info.width;
    height = info.height;
    filename = info.filename;
    created_at = now;
    last_accessed_at = now;
  }

  -- A block that is there: its tier may rise, and its access time is now.
  unfoldable pub put_existing :
      String → Buffer → ContentTier → ℕ → BlockMeta → BlockStore → BlockStore × Outcome String
  unfolding cache_and_return touch_access
  put_existing hash block tier now existing s =
      let raised =
        if ltb (priority tier) (priority existing.tier)
        then record s { meta = update_rows hash (λ r. record r { tier = tier }) s.meta }
        else s in
      cache_and_return hash block (touch_access hash now raised)

  unfoldable pub put_new :
      String
      → Buffer
      → ContentTier
      → BlockInfo
      → ℕ
      → (ℕ → Buffer)
      → BlockStore
      → BlockStore × Outcome String
  unfolding cache_and_return
  put_new hash block tier info now random s = elim s.key [
    | none ↦ (s, throws key_not_available)
    | some key ↦ cache_and_return hash block (record s {
      files = insert hash (encrypt_block p.sodium random block key) s.files;
      meta = s.meta ++ new_row hash block tier info now ∷ [];
    })
  ]

  unfoldable pub put_block :
      Buffer → ContentTier → BlockInfo → ℕ → (ℕ → Buffer) → BlockStore → BlockStore × Outcome String
  unfolding put_existing put_new
  put_block block tier info now random s =
      let hash = p.sha256_hex block in
      elim (row_of hash s) [
        | some existing ↦ put_existing hash block tier now existing s
        | none ↦ put_new hash block tier info now random s
      ]

  -- The text of a file, if there is one and it decrypts.
  abbrev pub read_file : String → BlockStore → Option Buffer
  read_file hash s = elim (row_of hash s) [
    | none ↦ none
    | some row ↦ elim (lookup hash s.files) [
      | none ↦ none
      | some encrypted ↦ elim s.key [
        | none ↦ none
        | some key ↦ decrypt_block p.sodium encrypted key
      ]
    ]
  ]

  -- The read from disk, with the cache that is there; an exception ends in `null`.
  unfoldable pub read_local : String → ℕ → BlockStore → BlockStore × Option Buffer
  unfolding touch_access
  read_local hash now s = elim (read_file hash s) [
    | none ↦ (s, none)
    | some block ↦ elim s.cache [
      | none ↦ (touch_access hash now s, some block)
      | some c ↦ elim (p.set hash block c) [
        | none ↦ (s, none)
        | some c' ↦ (touch_access hash now (record s { cache = some c' }), some block)
      ]
    ]
  ]

  -- What the cache finds, with the order of use after that.
  abbrev pub cached : String → BlockStore → Option Buffer
  cached hash s = elim s.cache [ none ↦ none | some c ↦ p.peek hash c ]

  abbrev pub after_lookup : String → BlockStore → BlockStore
  after_lookup hash s = record s {
    cache = elim s.cache [ none ↦ none | some c ↦ some (p.touch hash c) ];
  }

  unfoldable pub get_local_block : String → ℕ → BlockStore → BlockStore × Option Buffer
  unfolding read_local touch_access
  get_local_block hash now s =
      let s' = after_lookup hash s in
      elim (cached hash s) [
        | some block ↦ (touch_access hash now s', some block)
        | none ↦ read_local hash now s'
      ]

  unfoldable pub has_block : String → BlockStore → Bool
  has_block hash s = elim (row_of hash s) [ none ↦ false | some row ↦ true ]

  unfoldable pub delete_block : String → BlockStore → BlockStore
  delete_block hash s = record s {
    cache = elim s.cache [ none ↦ none | some c ↦ some (p.delete hash c) ];
    files = erase hash s.files;
    meta = keep (λ r. not (str_eq r.hash hash)) s.meta;
  }

  -- `SUM(size)` over some rows.
  abbrev pub total_size : List BlockMeta → ℕ
  total_size [] = 0
  total_size (r ∷ rs) = r.size + total_size rs

  abbrev pub in_tier : ContentTier → BlockMeta → Bool
  in_tier tier r = priority r.tier == priority tier

  -- The total, and the sizes by tier.
  unfoldable pub get_storage_usage : BlockStore → ℕ × (ContentTier → ℕ)
  get_storage_usage s =
      let by_tier = λ (tier : ContentTier). total_size (keep (in_tier tier) s.meta) in
      (
        by_tier ContentTier.never_evict
            + by_tier ContentTier.hot
            + by_tier ContentTier.warm
            + by_tier ContentTier.altruistic,
        by_tier,
      )

  abbrev or_default : Option ℕ → ℕ → ℕ
  or_default none d = d
  or_default (some n) d = n

  unfoldable pub get_config : BlockStore → BlockStoreConfig
  get_config s = record {
    budget_bytes = or_default s.budget default_budget_bytes;
    warm_ttl_days = or_default s.warm_ttl default_warm_ttl_days;
  }

  abbrev write_setting : Option ℕ → Option ℕ → Option ℕ
  write_setting none old = old
  write_setting (some n) old = some n

  unfoldable pub set_config : Option ℕ → Option ℕ → BlockStore → BlockStore
  set_config budget warm_ttl s = record s {
    budget = write_setting budget s.budget;
    warm_ttl = write_setting warm_ttl s.warm_ttl;
  }
