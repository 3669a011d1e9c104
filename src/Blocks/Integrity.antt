-- ===== src/Blocks/Integrity.antt =====
-- Content addressing in the block store (client/src/main/blocks/store.ts, putBlock and getLocalBlock).
use united.Prelude.{
  ℕ, ◌≡◌, refl, subst, ◌∙◌, String, str_eq, eq_iff, Bool, true, false, inl, inr, Option, none, some,
  arith, length, Option-cases, Bool-cases, ltb, if◌then◌else◌,
}
use united.Prelude.Dict.{lookup, lookup-insert}
use united.Blocks.Types.{Buffer, ContentTier, priority, BlockMeta, BlockInfo}
use united.Blocks.Crypto.{encrypt_block, decrypt_block}
use united.Blocks.Seal.{decrypt_block-encrypt_block}
use united.Blocks.Store.{
  Platform, BlockStore, row_of, update_rows, touch_access, put_block, put_existing, put_new,
  read_file, read_local, cached, get_local_block,
}
use united.Blocks.Sound.{
  IsCoherent, IsSound, set-IsCoherent, meta-IsSound, cache-IsSound, after_lookup-IsSound,
  cache_and_return-IsSound,
}

module _ (p : Platform) (key : Buffer) where
  touch_access-IsSound :
      (hash : String) (now : ℕ) (s : BlockStore p)
      → IsSound p key s
      → IsSound p key (touch_access p hash now s)
  unfolding touch_access
  touch_access-IsSound hash now s v = meta-IsSound p key s _ v

  put_existing-IsSound :
      (hash : String) (block : Buffer) (tier : ContentTier) (now : ℕ) (row : BlockMeta)
      (s : BlockStore p)
      → p.sha256_hex block ≡ hash
      → IsSound p key s
      → IsSound p key (put_existing p hash block tier now row s).0
  unfolding put_existing
  put_existing-IsSound hash block tier now row s right v =
      cache_and_return-IsSound p key hash block _ right
        (touch_access-IsSound hash now _ (raised (ltb (priority tier) (priority row.tier))))
    where
      raised :
          (b : Bool)
          → IsSound p key (
              if b
              then record s { meta = update_rows p hash (λ r. record r { tier = tier }) s.meta }
              else s)
      raised true = meta-IsSound p key s _ v
      raised false = v

  put_new-IsSound :
      (hash : String) (block : Buffer) (tier : ContentTier) (info : BlockInfo) (now : ℕ)
      (random : ℕ → Buffer) (s : BlockStore p)
      → p.sha256_hex block ≡ hash
      → ((n : ℕ) → length (random n) ≡ n)
      → IsSound p key s
      → IsSound p key (put_new p hash block tier info now random s).0
  unfolding put_new
  put_new-IsSound hash block tier info now random s right fills v = elim (Option-cases s.key) [
    | inl e ↦ rw (e, put_new) v
    | inr (k, e) ↦
        let opens : decrypt_block p.sodium (encrypt_block p.sodium random block k) key
            ≡ some block =
          rw (← v.keyed k e) (decrypt_block-encrypt_block p.sodium random block k fills) in
        rw (e, put_new)
          (cache_and_return-IsSound p key hash block _ right (record {
            keyed = v.keyed;
            sealed = λ j enc found. elim (Bool-cases (str_eq hash j)) [
              | inl same ↦
                  let stored : encrypt_block p.sodium random block k ≡ enc =
                    ground (
                      arith,
                      lookup-insert hash j (encrypt_block p.sodium random block k) s.files,
                    ) in
                  (block, rw (← stored) opens, right ∙ (eq_iff hash j).0 same)
              | inr other ↦ v.sealed j enc (
                  ground
                    (arith, lookup-insert hash j (encrypt_block p.sodium random block k) s.files))
            ];
            coherent = v.coherent;
          }))
  ]

  -- To store a block, new or not, whatever comes of it, keeps a sound store sound: every file
  -- and every cache entry stands under the hash of its content. The random source fills its
  -- buffers.
  pub put_block-IsSound :
      (block : Buffer) (tier : ContentTier) (info : BlockInfo) (now : ℕ) (random : ℕ → Buffer)
      (s : BlockStore p)
      → ((n : ℕ) → length (random n) ≡ n)
      → IsSound p key s
      → IsSound p key (put_block p block tier info now random s).0
  unfolding put_block
  put_block-IsSound block tier info now random s fills v =
      elim (Option-cases (row_of p (p.sha256_hex block) s)) [
        | inl e ↦ rw (e, put_block) (put_new-IsSound _ block tier info now random s refl fills v)
        | inr (row, e) ↦ rw (e, put_block) (put_existing-IsSound _ block tier now row s refl v)
      ]

  read_file_sound :
      (hash : String) (s : BlockStore p) (block : Buffer)
      → IsSound p key s
      → read_file p hash s ≡ some block
      → p.sha256_hex block ≡ hash
  read_file_sound hash s block v e = elim (Option-cases (row_of p hash s)) [
    | inl missing ↦ absurd (ground arith)
    | inr (row, found) ↦ elim (Option-cases (lookup hash s.files)) [
      | inl missing ↦ absurd (ground arith)
      | inr (enc, file) ↦ elim (Option-cases s.key) [
        | inl missing ↦ absurd (ground arith)
        | inr (k, unlocked) ↦
            let (d, opens, right) = v.sealed hash enc file in
            let same : d ≡ block = ground (arith, v.keyed k unlocked) in rw same at right
      ]
    ]
  ]

  -- What a read gives back: the state is sound, and a block has the hash that was asked for.
  abbrev ReadsRight : String → BlockStore p × Option Buffer → Type 0
  ReadsRight hash r =
      IsSound p key r.0 × ((block : Buffer) → r.1 ≡ some block → p.sha256_hex block ≡ hash)

  read_local-ReadsRight :
      (hash : String) (now : ℕ) (s : BlockStore p)
      → IsSound p key s
      → ReadsRight hash (read_local p hash now s)
  unfolding read_local
  read_local-ReadsRight hash now s v = elim (Option-cases (read_file p hash s)) [
    | inl e ↦ rw (e, read_local) (v, λ b q. absurd (cc))
    | inr (block, e) ↦
        let right = read_file_sound hash s block v e in
        elim (Option-cases s.cache) [
          | inl none_yet ↦
              rw (e, none_yet, read_local) (touch_access-IsSound hash now s v, λ b q. cc)
          | inr (c, there) ↦ elim (Option-cases (p.set hash block c)) [
            | inl refused ↦ rw (e, there, refused, read_local) (v, λ b q. absurd (cc))
            | inr (c', stored) ↦
                rw (e, there, stored, read_local)
                  (
                    touch_access-IsSound hash now _ (
                        cache-IsSound p key s (some c')
                          (set-IsCoherent p key hash block c c' stored right
                            (subst (IsCoherent p key) there v.coherent))
                          v),
                    λ b q. cc,
                  )
          ]
        ]
  ]

  get_local_block-ReadsRight :
      (hash : String) (now : ℕ) (s : BlockStore p)
      → IsSound p key s
      → ReadsRight hash (get_local_block p hash now s)
  unfolding get_local_block
  get_local_block-ReadsRight hash now s v =
      let sound = after_lookup-IsSound p key hash s v in
      elim (Option-cases (cached p hash s)) [
        | inl e ↦ rw (e, get_local_block) (read_local-ReadsRight hash now _ sound)
        | inr (block, e) ↦
            let right = cached_right hash s block v e in
            rw (e, get_local_block) (touch_access-IsSound hash now _ sound, λ b q. cc)
      ]
    where
      in_cache :
          (o : Option p.Cache) (hash : String) (block : Buffer)
          → IsCoherent p key o
          → elim o [ none ↦ none | some c ↦ p.peek hash c ] ≡ some block
          → p.sha256_hex block ≡ hash
      in_cache none hash block h e = absurd (cc)
      in_cache (some c) hash block h e = h hash block e

      cached_right :
          (hash : String) (s : BlockStore p) (block : Buffer)
          → IsSound p key s
          → cached p hash s ≡ some block
          → p.sha256_hex block ≡ hash
      cached_right hash s block v e = in_cache s.cache hash block v.coherent e

  -- A read, which may fill the cache and touch the access time, leaves a sound store sound.
  pub get_local_block-IsSound :
      (hash : String) (now : ℕ) (s : BlockStore p)
      → IsSound p key s
      → IsSound p key (get_local_block p hash now s).0
  get_local_block-IsSound hash now s v = (get_local_block-ReadsRight hash now s v).0

  -- In a sound store, a block that is read under a hash has that hash, whether it comes from the cache
  -- or from disk.
  pub sha256_hex-get_local_block :
      (hash : String) (now : ℕ) (s : BlockStore p) (block : Buffer)
      → IsSound p key s
      → (get_local_block p hash now s).1 ≡ some block
      → p.sha256_hex block ≡ hash
  sha256_hex-get_local_block hash now s block v e =
      (get_local_block-ReadsRight hash now s v).1 block e
