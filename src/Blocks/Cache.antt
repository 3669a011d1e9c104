-- ===== src/Blocks/Cache.antt =====
-- client/src/main/blocks/cache.ts: the L0 cache in memory. The cache itself is the package lru-cache,
-- a parameter: what its documentation promises of a cache with a byte budget.
use united.Prelude.{ℕ, ◌*◌, ◌≡◌, ◌≢◌, ◌⊎◌, String, Option, none, some, []}
use united.Blocks.Types.{Buffer}

-- `peek` is what `get` finds; `touch` is what `get` does to the order of use. To store an entry may
-- push out any entry, the new one included; an entry of size 0 is refused with an exception (`none`).
pub record LruPackage : Type 1 where
  pub Cache : Type 0
  pub create : ℕ → Cache
  pub peek : String → Cache → Option Buffer
  pub touch : String → Cache → Cache
  pub set : String → Buffer → Cache → Option Cache
  pub delete : String → Cache → Cache
  pub clear : Cache → Cache
  pub peek-create : (n : ℕ) (k : String) → peek k (create n) ≡ none
  pub peek-touch : (k j : String) (c : Cache) → peek j (touch k c) ≡ peek j c
  pub peek-set_self :
      (k : String) (v : Buffer) (c c' : Cache)
      → set k v c ≡ some c'
      → (peek k c' ≡ some v) ⊎ (peek k c' ≡ none)
  pub peek-set_ne :
      (k j : String) (v : Buffer) (c c' : Cache)
      → set k v c ≡ some c'
      → k ≢ j
      → (peek j c' ≡ peek j c) ⊎ (peek j c' ≡ none)
  pub set-empty : (k : String) (c : Cache) → set k [] c ≡ none
  pub set-nonempty :
      (k : String) (v : Buffer) (c : Cache) → v ≢ [] → (c' : Cache) × (set k v c ≡ some c')
  pub peek-delete_self : (k : String) (c : Cache) → peek k (delete k c) ≡ none
  pub peek-delete_ne :
      (k j : String) (c : Cache)
      → k ≢ j
      → (peek j (delete k c) ≡ peek j c) ⊎ (peek j (delete k c) ≡ none)
  pub peek-clear : (k : String) (c : Cache) → peek k (clear c) ≡ none

abbrev pub default_max_bytes : ℕ
default_max_bytes = 256 * 1024 * 1024

module _ (lru : LruPackage) where
  open lru use {Cache, create}

  -- `initBlockCache`: the cache that was there is cleared and replaced.
  unfoldable pub init_block_cache : ℕ → Option Cache → Option Cache
  init_block_cache max_bytes old = some (create max_bytes)

  -- `clearBlockCache`
  unfoldable pub clear_block_cache : Option Cache → Option Cache
  clear_block_cache old = none
