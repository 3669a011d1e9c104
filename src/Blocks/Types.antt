-- ===== src/Blocks/Types.antt =====
-- client/src/main/blocks/types.ts: the tiers, the rows of `block_meta`, and the configuration.
-- A buffer is the list of its bytes; a time is a number of seconds.
use united.Prelude.{ℕ, ◌*◌, String, Option, List}

abbrev pub Buffer : Type 0
Buffer = List ℕ

pub data ContentTier : Type 0 where
  never_evict hot warm altruistic : ContentTier

-- The enum's numbers: the lower, the higher the priority.
abbrev pub priority : ContentTier → ℕ
priority never_evict = 1
priority hot = 2
priority warm = 3
priority altruistic = 4

pub record BlockMeta : Type 0 where
  pub hash : String
  pub size : ℕ
  pub tier : ContentTier
  pub mime_type : Option String
  pub width : Option ℕ
  pub height : Option ℕ
  pub filename : Option String
  pub created_at : ℕ
  pub last_accessed_at : ℕ

-- The part of `Partial<BlockMeta>` that `putBlock` reads.
pub record BlockInfo : Type 0 where
  pub mime_type : Option String
  pub width : Option ℕ
  pub height : Option ℕ
  pub filename : Option String

pub record BlockStoreConfig : Type 0 where
  pub budget_bytes : ℕ
  pub warm_ttl_days : ℕ

abbrev pub default_budget_bytes : ℕ
default_budget_bytes = 5 * 1024 * 1024 * 1024

abbrev pub default_warm_ttl_days : ℕ
default_warm_ttl_days = 7
