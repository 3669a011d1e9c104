-- ===== src/Blocks/Keyed.antt =====
-- The hash as the key of the table `block_meta`, under each operation of the block store
-- (client/src/main/blocks/store.ts, tiers.ts).
use united.Prelude.{
  ℕ, ◌≡◌, refl, sym, subst, String, str_eq, eq_iff, Bool, true, false, not, inl, inr, List, [], ◌∷◌,
  ◌++◌, none, some, arith, find, ltb, Option-cases, if◌then◌else◌,
}
use united.Blocks.Types.{Buffer, ContentTier, priority, BlockMeta, BlockInfo}
use united.Blocks.Store.{
  Platform, BlockStore, row_of, update_rows, touch_access, raise_tier, maybe_upgrade_tier,
  cache_and_return, new_row, put_existing, put_new, put_block, read_file, read_local, cached,
  after_lookup, get_local_block, delete_block,
}
use united.Blocks.Tiers.{check_ttl_expiry}
use united.Blocks.Rows.{has_hash, IsKeyed, keep-IsKeyed}
use united.Blocks.Expiry.{is_old, check_ttl_expiry-meta}

has_hash-append_one :
    (hash : String) (rs : List BlockMeta) (r : BlockMeta)
    → has_hash hash rs ≡ false
    → str_eq r.hash hash ≡ false
    → has_hash hash (rs ++ r ∷ []) ≡ false
has_hash-append_one hash [] r h ne = rw ne refl
has_hash-append_one hash (x ∷ xs) r h ne = ground (arith, has_hash-append_one hash xs r)

append_one-IsKeyed :
    (rs : List BlockMeta) (r : BlockMeta)
    → has_hash r.hash rs ≡ false
    → IsKeyed rs
    → IsKeyed (rs ++ r ∷ [])
append_one-IsKeyed [] r h k = (refl, tt)
append_one-IsKeyed (x ∷ xs) r h k = (
  has_hash-append_one x.hash xs r k.0 (ground (arith, eq_iff x.hash r.hash, eq_iff r.hash x.hash)),
  append_one-IsKeyed xs r (ground arith) k.1,
)

module _ (p : Platform) where
  -- A change of some rows that keeps their hashes keeps the key.
  module _ (hash : String) (f : BlockMeta → BlockMeta)
      (same : (r : BlockMeta) → (f r).hash ≡ r.hash) where
    has_hash-update_rows :
        (other : String) (rs : List BlockMeta)
        → has_hash other (update_rows p hash f rs) ≡ has_hash other rs
    has_hash-update_rows other [] = refl
    has_hash-update_rows other (r ∷ rs) = ground (arith, same r, has_hash-update_rows other rs)

    update_rows-IsKeyed : (rs : List BlockMeta) → IsKeyed rs → IsKeyed (update_rows p hash f rs)
    update_rows-IsKeyed [] k = tt
    update_rows-IsKeyed (r ∷ rs) k =
        (ground (arith, same r, has_hash-update_rows r.hash rs, k.0), update_rows-IsKeyed rs k.1)

  touch_access-IsKeyed :
      (hash : String) (now : ℕ) (s : BlockStore p)
      → IsKeyed s.meta
      → IsKeyed (touch_access p hash now s).meta
  unfolding touch_access
  touch_access-IsKeyed hash now s k = update_rows-IsKeyed hash _ (λ r. refl) s.meta k

  pub maybe_upgrade_tier-IsKeyed :
      (hash : String) (tier : ContentTier) (s : BlockStore p)
      → IsKeyed s.meta
      → IsKeyed (maybe_upgrade_tier p hash tier s).meta
  unfolding maybe_upgrade_tier
  maybe_upgrade_tier-IsKeyed hash tier s k =
      update_rows-IsKeyed hash (raise_tier p tier) (λ r. ground arith) s.meta k

  cache_and_return-meta :
      (hash : String) (block : Buffer) (s : BlockStore p)
      → (cache_and_return p hash block s).0.meta ≡ s.meta
  unfolding cache_and_return
  cache_and_return-meta hash block s = elim (Option-cases s.cache) [
    | inl e ↦ rw (e, cache_and_return) refl
    | inr (c, e) ↦ elim (Option-cases (p.set hash block c)) [
      | inl refused ↦ rw (e, refused, cache_and_return) refl
      | inr (c', stored) ↦ rw (e, stored, cache_and_return) refl
    ]
  ]

  put_existing-IsKeyed :
      (hash : String) (block : Buffer) (tier : ContentTier) (now : ℕ) (row : BlockMeta)
      (s : BlockStore p)
      → IsKeyed s.meta
      → IsKeyed (put_existing p hash block tier now row s).0.meta
  unfolding put_existing
  put_existing-IsKeyed hash block tier now row s k =
      let higher = ltb (priority tier) (priority row.tier) in
      let changed : BlockStore p =
        if higher
        then record s { meta = update_rows p hash (λ r. record r { tier = tier }) s.meta }
        else s in
      subst IsKeyed (sym (cache_and_return-meta hash block (touch_access p hash now changed)))
        (touch_access-IsKeyed hash now changed (raised higher))
    where
      raised :
          (b : Bool)
          → IsKeyed
              (if b
                then record s { meta = update_rows p hash (λ r. record r { tier = tier }) s.meta }
                else s).meta
      raised true = update_rows-IsKeyed hash _ (λ r. refl) s.meta k
      raised false = k

  absent_row :
      (hash : String) (rs : List BlockMeta)
      → find (λ r. str_eq r.hash hash) rs ≡ none
      → has_hash hash rs ≡ false
  absent_row hash [] e = refl
  absent_row hash (r ∷ rs) e = ground (arith, absent_row hash rs)

  put_new-IsKeyed :
      (hash : String) (block : Buffer) (tier : ContentTier) (info : BlockInfo) (now : ℕ)
      (random : ℕ → Buffer) (s : BlockStore p)
      → has_hash hash s.meta ≡ false
      → IsKeyed s.meta
      → IsKeyed (put_new p hash block tier info now random s).0.meta
  unfolding put_new
  put_new-IsKeyed hash block tier info now random s fresh k = elim (Option-cases s.key) [
    | inl e ↦ rw (e, put_new) k
    | inr (key, e) ↦
        rw (e, put_new)
          (subst IsKeyed (sym (cache_and_return-meta hash block _))
            (append_one-IsKeyed s.meta (new_row p hash block tier info now) fresh k))
  ]

  pub put_block-IsKeyed :
      (block : Buffer) (tier : ContentTier) (info : BlockInfo) (now : ℕ) (random : ℕ → Buffer)
      (s : BlockStore p)
      → IsKeyed s.meta
      → IsKeyed (put_block p block tier info now random s).0.meta
  unfolding put_block
  put_block-IsKeyed block tier info now random s k =
      let hash = p.sha256_hex block in
      elim (Option-cases (row_of p hash s)) [
        | inl e ↦
            rw (e, put_block)
              (put_new-IsKeyed hash block tier info now random s (absent_row hash s.meta e) k)
        | inr (row, e) ↦ rw (e, put_block) (put_existing-IsKeyed hash block tier now row s k)
      ]

  read_local-IsKeyed :
      (hash : String) (now : ℕ) (s : BlockStore p)
      → IsKeyed s.meta
      → IsKeyed (read_local p hash now s).0.meta
  unfolding read_local
  read_local-IsKeyed hash now s k = elim (Option-cases (read_file p hash s)) [
    | inl e ↦ rw (e, read_local) k
    | inr (block, e) ↦ elim (Option-cases s.cache) [
      | inl cold ↦ rw (e, cold, read_local) (touch_access-IsKeyed hash now s k)
      | inr (c, warm) ↦ elim (Option-cases (p.set hash block c)) [
        | inl refused ↦ rw (e, warm, refused, read_local) k
        | inr (c', stored) ↦
            rw (e, warm, stored, read_local)
              (touch_access-IsKeyed hash now (record s { cache = some c' }) k)
      ]
    ]
  ]

  pub get_local_block-IsKeyed :
      (hash : String) (now : ℕ) (s : BlockStore p)
      → IsKeyed s.meta
      → IsKeyed (get_local_block p hash now s).0.meta
  unfolding get_local_block
  get_local_block-IsKeyed hash now s k = elim (Option-cases (cached p hash s)) [
    | inl e ↦ rw (e, get_local_block) (read_local-IsKeyed hash now (after_lookup p hash s) k)
    | inr (block, e) ↦
        rw (e, get_local_block) (touch_access-IsKeyed hash now (after_lookup p hash s) k)
  ]

  pub delete_block-IsKeyed :
      (hash : String) (s : BlockStore p) → IsKeyed s.meta → IsKeyed (delete_block p hash s).meta
  unfolding delete_block
  delete_block-IsKeyed hash s k = keep-IsKeyed (λ r. not (str_eq r.hash hash)) s.meta k

  pub check_ttl_expiry-IsKeyed :
      (ttl_days now : ℕ) (s : BlockStore p)
      → IsKeyed s.meta
      → IsKeyed (check_ttl_expiry p ttl_days now s).meta
  check_ttl_expiry-IsKeyed ttl_days now s k =
      subst IsKeyed (sym (check_ttl_expiry-meta p ttl_days now s k))
        (keep-IsKeyed (λ r. not (is_old p ttl_days now r)) s.meta k)
