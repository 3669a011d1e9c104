-- ===== src/Blocks/RoundTrip.antt =====
-- A new block, stored and then read (client/src/main/blocks/store.ts).
use united.Prelude.{
  ℕ, ◌≡◌, ◌≢◌, ◌⊎◌, refl, ◌∙◌, String, str_eq, eq_refl, inl, inr, [], ◌∷◌, ◌++◌, Option, none, some,
  arith, length, find, find-append, Option-cases,
}
use united.Prelude.Dict.{insert, lookup-insert_self}
use united.Blocks.Types.{Buffer, ContentTier, BlockInfo}
use united.Blocks.Crypto.{encrypt_block}
use united.Blocks.Seal.{decrypt_block-encrypt_block}
use united.Blocks.Store.{
  Platform, returns, BlockStore, row_of, put_block, put_new, cache_and_return, new_row, read_file,
  read_local, cached, after_lookup, get_local_block,
}

module _ (p : Platform) where
  read_file-after_lookup :
      (hash : String) (s : BlockStore p)
      → read_file p hash (after_lookup p hash s) ≡ read_file p hash s
  read_file-after_lookup hash s = refl

  -- A file that decrypts is read, where the cache takes it.
  read_local-read_file :
      (hash : String) (now : ℕ) (s : BlockStore p) (block : Buffer)
      → block ≢ []
      → read_file p hash s ≡ some block
      → (read_local p hash now s).1 ≡ some block
  unfolding read_local
  read_local-read_file hash now s block ne e = elim (Option-cases s.cache) [
    | inl cold ↦ rw (e, cold, read_local) refl
    | inr (c, warm) ↦
        let (c', stored) = p.set-nonempty hash block c ne in rw (e, warm, stored, read_local) refl
  ]

  get_local_block-read_file :
      (hash : String) (now : ℕ) (s : BlockStore p) (block : Buffer)
      → block ≢ []
      → read_file p hash s ≡ some block
      → (cached p hash s ≡ some block) ⊎ (cached p hash s ≡ none)
      → (get_local_block p hash now s).1 ≡ some block
  unfolding get_local_block
  get_local_block-read_file hash now s block ne e (inl hit) = rw (hit, get_local_block) refl
  get_local_block-read_file hash now s block ne e (inr miss) =
      rw (miss, get_local_block) (read_local-read_file hash now _ block ne e)

  module _ (block : Buffer) (tier : ContentTier) (info : BlockInfo) (now : ℕ) (random : ℕ → Buffer)
      (s : BlockStore p) (k : Buffer) where
    -- The store with the file and the row of a new block, and some cache.
    stored_with : Option p.Cache → BlockStore p
    stored_with cache = record s {
      cache = cache;
      files = insert (p.sha256_hex block) (encrypt_block p.sodium random block k) s.files;
      meta = s.meta ++ new_row p (p.sha256_hex block) block tier info now ∷ [];
    }

    read_file-stored_with :
        (cache : Option p.Cache)
        → row_of p (p.sha256_hex block) s ≡ none
        → s.key ≡ some k
        → ((n : ℕ) → length (random n) ≡ n)
        → read_file p (p.sha256_hex block) (stored_with cache) ≡ some block
    unfolding stored_with
    read_file-stored_with cache new unlocked fills =
        let hash = p.sha256_hex block in
        let row = new_row p hash block tier info now in
        let found : find (λ r. str_eq r.hash hash) (s.meta ++ row ∷ []) ≡ some row =
          find-append (λ r. str_eq r.hash hash) s.meta (row ∷ []) new ∙ rw (eq_refl hash) refl in
        rw
          (
            found,
            lookup-insert_self hash (encrypt_block p.sodium random block k) s.files,
            unlocked,
            read_file,
          )
          (decrypt_block-encrypt_block p.sodium random block k fills)

    put_block_cold :
        row_of p (p.sha256_hex block) s ≡ none
        → s.key ≡ some k
        → s.cache ≡ none
        → put_block p block tier info now random s
          ≡ (stored_with none, returns (p.sha256_hex block))
    unfolding put_block put_new cache_and_return stored_with
    put_block_cold new unlocked cold = ground arith

    put_block_warm :
        (c c' : p.Cache)
        → row_of p (p.sha256_hex block) s ≡ none
        → s.key ≡ some k
        → s.cache ≡ some c
        → p.set (p.sha256_hex block) block c ≡ some c'
        → put_block p block tier info now random s
          ≡ (stored_with (some c'), returns (p.sha256_hex block))
    unfolding put_block put_new cache_and_return stored_with
    put_block_warm c c' new unlocked warm kept = ground arith

    -- In an unlocked store, a block that is not empty and has no row yet is stored under its
    -- hash, and the next read of that hash, whatever the cache has kept, gives it back, where
    -- the random source fills its buffers.
    pub get_local_block-put_block :
        (later : ℕ)
        → block ≢ []
        → row_of p (p.sha256_hex block) s ≡ none
        → s.key ≡ some k
        → ((n : ℕ) → length (random n) ≡ n)
        → ((put_block p block tier info now random s).1 ≡ returns (p.sha256_hex block))
          × ((get_local_block p
                (p.sha256_hex block)
                later
                (put_block p block tier info now random s).0).1
              ≡ some block)
    unfolding stored_with
    get_local_block-put_block later ne new unlocked fills =
        let hash = p.sha256_hex block in
        elim (Option-cases s.cache) [
          | inl cold ↦ rw (put_block_cold new unlocked cold) (
            refl,
            get_local_block-read_file hash later (stored_with none) block ne
                (read_file-stored_with none new unlocked fills) (inr refl),
          )
          | inr (c, warm) ↦
              let (c', kept) = p.set-nonempty hash block c ne in
              rw (put_block_warm c c' new unlocked warm kept) (
                refl,
                get_local_block-read_file hash later (stored_with (some c')) block ne
                    (read_file-stored_with (some c') new unlocked fills)
                    (p.peek-set_self hash block c c' kept),
              )
        ]
