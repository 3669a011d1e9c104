-- ===== src/Blocks/Evicts.antt =====
-- One tier of an eviction sweep (client/src/main/blocks/tiers.ts, the inner loop of runEvictionSweep).
use united.Prelude.{
  ℕ, ◌+◌, ◌-◌, ◌≡◌, ◌≢◌, ◌≤◌, ◌⊎◌, refl, ◌∙◌, String, str_eq, eq_iff, false, not, inl, inr, List,
  [], ◌∷◌, arith, All, ◌==◌, ==_iff, leb, Bool-cases,
}
use united.Prelude.Sort.{sort_by, insert_by, sort_by-All, any-insert_by, any-sort_by}
use united.Blocks.Types.{ContentTier, BlockMeta}
use united.Blocks.Store.{Platform, BlockStore, delete_block, total_size, in_tier}
use united.Blocks.Tiers.{least_recent_first, evict_blocks}
use united.Blocks.Rows.{
  has_hash, IsKeyed, without, keep-IsKeyed, row_by-without, tier_rows, usage, tier_rows-without,
  usage-without, IsRowOf, tier_rows-IsRowOf,
}

module _ (key : BlockMeta → ℕ) where
  insert_by-IsKeyed :
      (r : BlockMeta) (rs : List BlockMeta)
      → has_hash r.hash rs ≡ false
      → IsKeyed rs
      → IsKeyed (insert_by key r rs)
  unfolding insert_by
  insert_by-IsKeyed r [] h k = (refl, tt)
  insert_by-IsKeyed r (x ∷ rs) h k = elim (Bool-cases (leb (key r) (key x))) [
    | inl e ↦ rw e (h, k)
    | inr e ↦ rw e (
      ground (
        arith,
        eq_iff r.hash x.hash,
        eq_iff x.hash r.hash,
        any-insert_by key (λ y. str_eq y.hash x.hash) r rs,
      ),
      insert_by-IsKeyed r rs (ground arith) k.1,
    )
  ]

  sort_by-IsKeyed : (rs : List BlockMeta) → IsKeyed rs → IsKeyed (sort_by key rs)
  unfolding sort_by
  sort_by-IsKeyed [] k = tt
  sort_by-IsKeyed (r ∷ rs) k =
      insert_by-IsKeyed r (sort_by key rs) (any-sort_by key (λ y. str_eq y.hash r.hash) rs ∙ k.0)
        (sort_by-IsKeyed rs k.1)

module _ (p : Platform) where
  total_size-insert_by :
      (key : BlockMeta → ℕ) (r : BlockMeta) (rs : List BlockMeta)
      → total_size p (insert_by key r rs) ≡ r.size + total_size p rs
  unfolding insert_by
  total_size-insert_by key r [] = refl
  total_size-insert_by key r (x ∷ rs) = ground (arith, total_size-insert_by key r rs)

  total_size-sort_by :
      (key : BlockMeta → ℕ) (rs : List BlockMeta) → total_size p (sort_by key rs) ≡ total_size p rs
  unfolding sort_by
  total_size-sort_by key [] = refl
  total_size-sort_by key (r ∷ rs) =
      omega (arith, total_size-insert_by key r (sort_by key rs), total_size-sort_by key rs)

  -- What an eviction within one tier does, from what was to be freed and the rows to what is left to
  -- free and the rows then; `candidates` is the size of the rows that it could delete.
  pub record Evicts (tier : ContentTier) (candidates : ℕ) (f : ℕ) (rows : List BlockMeta) (f' : ℕ)
      (rows' : List BlockMeta) : Type 0 where
    pub keyed : IsKeyed rows'
    pub frame : (u : ContentTier) → u ≢ tier → tier_rows p u rows' ≡ tier_rows p u rows
    pub freed : usage p tier rows' + f ≤ usage p tier rows + f'
    pub falls : f' ≤ f
    pub exhausts : (f' ≡ 0) ⊎ (usage p tier rows' + candidates ≡ usage p tier rows)
    pub idle : f ≡ 0 → rows' ≡ rows

  without-IsRowOf :
      (tier : ContentTier) (hash : String) (rows bs : List BlockMeta)
      → has_hash hash bs ≡ false
      → All (IsRowOf p tier rows) bs
      → All (IsRowOf p tier (without hash rows)) bs
  without-IsRowOf tier hash rows [] h a = tt
  without-IsRowOf tier hash rows (b ∷ bs) h a = (
    (row_by-without hash b.hash rows (λ e. ground (arith, eq_iff b.hash hash)) ∙ a.0.0, a.0.1),
    without-IsRowOf tier hash rows bs (ground arith) a.1,
  )

  -- The deletion of one row, and then the rest.
  Evicts-delete :
      (tier : ContentTier) (b : BlockMeta) (candidates f : ℕ) (rows : List BlockMeta) (f' : ℕ)
      (rows' : List BlockMeta)
      → IsKeyed rows
      → IsRowOf p tier rows b
      → f ≢ 0
      → Evicts tier candidates (f - b.size) (without b.hash rows) f' rows'
      → Evicts tier (b.size + candidates) f rows f' rows'
  Evicts-delete tier b candidates f rows f' rows' k (found, in_it) some_left v =
      let less : usage p tier (without b.hash rows) + b.size ≡ usage p tier rows =
        rw in_it at (usage-without p b.hash rows b k found) in
      record {
        keyed = v.keyed;
        frame = λ u ne.
            v.frame u ne ∙ tier_rows-without p b.hash rows b u k found (λ q. ne (q ∙ in_it));
        freed = omega (arith, less, v.freed);
        falls = omega (arith, v.falls);
        exhausts = omega (arith, less, v.exhausts);
        idle = λ q. absurd (some_left q);
      }

  evict_blocks-Evicts :
      (tier : ContentTier) (bs : List BlockMeta) (f : ℕ) (s : BlockStore p)
      → IsKeyed s.meta
      → IsKeyed bs
      → All (IsRowOf p tier s.meta) bs
      → Evicts tier
          (total_size p bs)
          f
          s.meta
          (evict_blocks p bs f s).0
          (evict_blocks p bs f s).1.meta
  unfolding evict_blocks delete_block
  evict_blocks-Evicts tier [] f s k d a = record {
    keyed = k;
    frame = λ u ne. refl;
    freed = omega arith;
    falls = omega arith;
    exhausts = inr (omega arith);
    idle = λ e. refl;
  }
  evict_blocks-Evicts tier (b ∷ bs) f s k d a = elim (Bool-cases (f == 0)) [
    | inl e ↦ rw e (record {
      keyed = k;
      frame = λ u ne. refl;
      freed = omega arith;
      falls = omega arith;
      exhausts = inl ((==_iff f 0).0 e);
      idle = λ q. refl;
    })
    | inr e ↦ rw e (
        Evicts-delete tier b (total_size p bs) f s.meta _ _ k a.0 (λ z. ground arith)
          (evict_blocks-Evicts tier bs (f - b.size) (delete_block p b.hash s)
            (keep-IsKeyed (λ r. not (str_eq r.hash b.hash)) s.meta k) d.1
            (without-IsRowOf tier b.hash s.meta bs d.0 a.1)))
  ]

  -- A whole tier, with the oldest access first.
  pub tier-Evicts :
      (tier : ContentTier) (f : ℕ) (s : BlockStore p)
      → IsKeyed s.meta
      → Evicts tier
          (usage p tier s.meta)
          f
          s.meta
          (evict_blocks p (least_recent_first p tier s.meta) f s).0
          (evict_blocks p (least_recent_first p tier s.meta) f s).1.meta
  tier-Evicts tier f s k =
      let last = λ (r : BlockMeta). r.last_accessed_at in
      let rows = tier_rows p tier s.meta in
      rw (total_size-sort_by last rows) at (
        evict_blocks-Evicts tier (least_recent_first p tier s.meta) f s k
          (sort_by-IsKeyed last rows (keep-IsKeyed (in_tier p tier) s.meta k))
          (sort_by-All last _ rows (tier_rows-IsRowOf p tier s.meta k)))
