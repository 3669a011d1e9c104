-- ===== src/Tests/Blocks.antt =====
-- Runs of the block store.
use united.Prelude.{ℕ, zero, suc, ◌≡◌, refl, String, [], ◌∷◌, none, some, arith, length}
use united.Prelude.Dict.{lookup}
use united.Blocks.Types.{Buffer, ContentTier, never_evict, hot, warm, altruistic, BlockMeta}
use united.Blocks.Store.{BlockStore, returns, put_block, get_local_block}
use united.Blocks.Tiers.{run_eviction_sweep, check_ttl_expiry}
use united.Blocks.Cascade.{no_info}
use united.Blocks.Rows.{IsKeyed}
use united.Blocks.Reach.{unlocked_store, puts, sweeps, start, next, Reach-IsSound}
use united.Blocks.Sound.{IsSound}
use united.Blocks.Integrity.{put_block-IsSound, sha256_hex-get_local_block}
use united.Blocks.RoundTrip.{get_local_block-put_block}
use united.Blocks.Eviction.{IsSwept, run_eviction_sweep-IsSwept}
use united.Blocks.Expiry.{check_ttl_expiry-meta}
use united.Tests.Platform.{plain_platform}

abbrev pub zeros : ℕ → Buffer
zeros zero = []
zeros (suc n) = 0 ∷ zeros n

pub length-zeros : (n : ℕ) → length (zeros n) ≡ n
length-zeros zero = refl
length-zeros (suc n) = omega (arith, length-zeros n)

-- An unlocked store without blocks.
abbrev pub empty_store : BlockStore plain_platform
empty_store = record {
  key = some (7 ∷ []);
  cache = some [];
  meta = [];
  files = [];
  budget = none;
  warm_ttl = none;
}

pub empty_store-IsSound : IsSound plain_platform (7 ∷ []) empty_store
unfolding lookup
empty_store-IsSound = record {
  keyed = λ k e. cc;
  sealed = λ hash encrypted e. absurd (cc);
  coherent = λ hash block e. absurd (cc);
}

abbrev pub one_block : BlockStore plain_platform
one_block = (put_block plain_platform (1 ∷ 2 ∷ []) warm no_info 100 zeros empty_store).0

pub one_block-IsSound : IsSound plain_platform (7 ∷ []) one_block
one_block-IsSound =
    put_block-IsSound plain_platform (7 ∷ []) (1 ∷ 2 ∷ []) warm no_info 100 zeros empty_store
      length-zeros empty_store-IsSound

get_local_block-put_block_example :
    ((put_block plain_platform (1 ∷ 2 ∷ []) warm no_info 100 zeros empty_store).1 ≡ returns "one")
    × ((get_local_block plain_platform "one" 200 one_block).1 ≡ some (1 ∷ 2 ∷ []))
get_local_block-put_block_example =
    get_local_block-put_block plain_platform (1 ∷ 2 ∷ []) warm no_info 100 zeros empty_store
      (7 ∷ []) 200 (λ e. cc) refl refl length-zeros

pub read_back : (get_local_block plain_platform "one" 200 one_block).1 ≡ some (1 ∷ 2 ∷ [])
read_back =
    (get_local_block-put_block plain_platform (1 ∷ 2 ∷ []) warm no_info 100 zeros empty_store
      (7 ∷ []) 200 (λ e. cc) refl refl length-zeros).1

sha256_hex-get_local_block_example : plain_platform.sha256_hex (1 ∷ 2 ∷ []) ≡ "one"
sha256_hex-get_local_block_example =
    sha256_hex-get_local_block plain_platform (7 ∷ []) "one" 200 one_block (1 ∷ 2 ∷ [])
      one_block-IsSound read_back

abbrev row : String → ℕ → ContentTier → ℕ → BlockMeta
row hash size tier at = record {
  hash = hash;
  size = size;
  tier = tier;
  mime_type = none;
  width = none;
  height = none;
  filename = none;
  created_at = at;
  last_accessed_at = at;
}

abbrev four_blocks : BlockStore plain_platform
four_blocks = record empty_store {
  meta =
      row "own" 40 never_evict 0
      ∷ row "recent" 30 hot 500000
      ∷ row "warm" 20 warm 0
      ∷ row "lent" 10 altruistic 300000
      ∷ [];
}

run_eviction_sweep-IsSwept_example :
    IsSwept plain_platform 30 four_blocks.meta
      (run_eviction_sweep plain_platform 70 four_blocks).meta
run_eviction_sweep-IsSwept_example =
    run_eviction_sweep-IsSwept plain_platform 70 four_blocks (refl, (refl, (refl, (refl, tt))))

check_ttl_expiry-meta_example :
    (check_ttl_expiry plain_platform 3 400000 four_blocks).meta
    ≡ row "own" 40 never_evict 0 ∷ row "recent" 30 hot 500000 ∷ row "lent" 10 altruistic 300000 ∷ []
check_ttl_expiry-meta_example =
    check_ttl_expiry-meta plain_platform 3 400000 four_blocks (refl, (refl, (refl, (refl, tt))))

-- A store with one block, over its budget.
abbrev swept : BlockStore plain_platform
swept =
    run_eviction_sweep plain_platform 1
      (put_block plain_platform (1 ∷ 2 ∷ []) warm no_info 100 zeros
        (unlocked_store plain_platform (7 ∷ []))).0

Reach-IsSound_example : IsSound plain_platform (7 ∷ []) swept × IsKeyed swept.meta
Reach-IsSound_example =
    Reach-IsSound plain_platform (7 ∷ [])
      (next (next start (puts (1 ∷ 2 ∷ []) warm no_info 100 zeros length-zeros)) (sweeps 1))
