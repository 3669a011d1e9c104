-- ===== src/Blocks/Eviction.antt =====
-- The eviction sweep and the budget (client/src/main/blocks/tiers.ts, runEvictionSweep).
use united.Prelude.{
  ℕ, zero, suc, ◌+◌, ◌-◌, ◌≡◌, ◌≤◌, ◌<◌, ◌⊎◌, refl, sym, ap, ◌∙◌, false, inl, inr, List, [], ◌∷◌,
  arith, ◌==◌, ==_iff, leb, Bool-cases,
}
use united.Blocks.Types.{ContentTier, never_evict, hot, warm, altruistic, BlockMeta}
use united.Blocks.Store.{Platform, BlockStore, total_size}
use united.Blocks.Tiers.{
  least_recent_first, evict_blocks, evict_tiers, eviction_tiers, run_eviction_sweep,
}
use united.Blocks.Rows.{IsKeyed, tier_rows, usage, total_size-usage}
use united.Blocks.Evicts.{Evicts, tier-Evicts}

module _ (p : Platform) where
  evict_blocks_zero : (bs : List BlockMeta) (s : BlockStore p) → evict_blocks p bs 0 s ≡ (0, s)
  unfolding evict_blocks
  evict_blocks_zero [] s = refl
  evict_blocks_zero (b ∷ bs) s = refl

  evict_tiers_zero :
      (tiers : List ContentTier) (s : BlockStore p) → evict_tiers p tiers 0 s ≡ (0, s)
  unfolding evict_tiers
  evict_tiers_zero [] s = refl
  evict_tiers_zero (t ∷ ts) s = refl

  evict_tiers-cons :
      (tier : ContentTier) (tiers : List ContentTier) (f : ℕ) (s : BlockStore p)
      → evict_tiers p (tier ∷ tiers) f s
        ≡ evict_tiers p tiers
            (evict_blocks p (least_recent_first p tier s.meta) f s).0
            (evict_blocks p (least_recent_first p tier s.meta) f s).1
  unfolding evict_tiers
  evict_tiers-cons tier tiers zero s =
      rw (evict_blocks_zero (least_recent_first p tier s.meta) s) (sym (evict_tiers_zero tiers s))
  evict_tiers-cons tier tiers (suc f) s =
      let some_left : (suc f == 0) ≡ false = ground arith in rw some_left refl

  -- The size of the rows that may be evicted.
  abbrev pub evictable : List BlockMeta → ℕ
  evictable rows = usage p hot rows + usage p warm rows + usage p altruistic rows

  -- The rows after a sweep whose evictable tiers may keep `limit` bytes.
  pub record IsSwept (limit : ℕ) (rows rows' : List BlockMeta) : Type 0 where
    pub keyed : IsKeyed rows'
    pub kept : tier_rows p never_evict rows' ≡ tier_rows p never_evict rows
    pub fits : evictable rows' ≤ limit
    pub spared : (rows' ≡ rows) ⊎ (limit < evictable rows)
    pub warm_last :
        (tier_rows p warm rows' ≡ tier_rows p warm rows) ⊎ (usage p altruistic rows' ≡ 0)
    pub hot_last :
        (tier_rows p hot rows' ≡ tier_rows p hot rows)
        ⊎ ((usage p altruistic rows' ≡ 0) × (usage p warm rows' ≡ 0))

  -- One tier after the other: the three results of the outer loop, put together.
  IsSwept-join :
      (limit f f₁ f₂ f₃ : ℕ) (rows rows₁ rows₂ rows₃ : List BlockMeta)
      → limit < evictable rows
      → evictable rows ≤ limit + f
      → Evicts p altruistic (usage p altruistic rows) f rows f₁ rows₁
      → Evicts p warm (usage p warm rows₁) f₁ rows₁ f₂ rows₂
      → Evicts p hot (usage p hot rows₂) f₂ rows₂ f₃ rows₃
      → IsSwept limit rows rows₃
  IsSwept-join limit f f₁ f₂ f₃ rows rows₁ rows₂ rows₃ over enough a b c =
      let size = total_size p in
      let h1 = ap size (a.frame hot (λ e. ground arith)) in
      let w1 = ap size (a.frame warm (λ e. ground arith)) in
      let h2 = ap size (b.frame hot (λ e. ground arith)) in
      let a2 = ap size (b.frame altruistic (λ e. ground arith)) in
      let w3 = ap size (c.frame warm (λ e. ground arith)) in
      let a3 = ap size (c.frame altruistic (λ e. ground arith)) in
      record {
        keyed = c.keyed;
        kept =
            c.frame never_evict (λ e. ground arith)
            ∙ b.frame never_evict (λ e. ground arith)
            ∙ a.frame never_evict (λ e. ground arith);
        fits = elim c.exhausts [
          | inl z ↦ omega (arith, enough, a.freed, b.freed, c.freed, h1, w1, h2, a2, w3, a3, z)
          | inr z ↦ elim (Bool-cases (f₃ == 0)) [
            | inl q ↦
                let done = (==_iff f₃ 0).0 q in
                omega (arith, enough, a.freed, b.freed, c.freed, h1, w1, h2, a2, w3, a3, done)
            | inr q ↦ ground (arith, a.exhausts, b.exhausts, c.falls, b.falls, a2, w3, a3, z)
          ]
        ];
        spared = inr over;
        warm_last = elim a.exhausts [
          | inl z ↦ inl (
              c.frame warm (λ e. ground arith)
              ∙ ap (tier_rows p warm) (b.idle z)
              ∙ a.frame warm (λ e. ground arith))
          | inr z ↦ inr (omega (arith, a2, a3, z))
        ];
        hot_last = elim (Bool-cases (f₂ == 0)) [
          | inl q ↦ inl (
              ap (tier_rows p hot) (c.idle ((==_iff f₂ 0).0 q))
              ∙ b.frame hot (λ e. ground arith)
              ∙ a.frame hot (λ e. ground arith))
          | inr q ↦ inr (
            ground (arith, a.exhausts, b.exhausts, b.falls, a2, a3),
            ground (arith, b.exhausts, w3),
          )
        ];
      }

  -- The largest number of bytes that the evictable tiers may keep.
  abbrev pub evictable_budget : ℕ → List BlockMeta → ℕ
  evictable_budget budget rows = budget - usage p never_evict rows

  -- The outer loop over the three tiers.
  evict_tiers-IsSwept :
      (limit : ℕ) (s : BlockStore p)
      → IsKeyed s.meta
      → limit < evictable s.meta
      → IsSwept limit s.meta (evict_tiers p eviction_tiers (evictable s.meta - limit) s).1.meta
  unfolding evict_tiers
  evict_tiers-IsSwept limit s k over =
      let f = evictable s.meta - limit in
      let (f₁, s₁) = evict_blocks p (least_recent_first p altruistic s.meta) f s in
      let (f₂, s₂) = evict_blocks p (least_recent_first p warm s₁.meta) f₁ s₁ in
      let a = tier-Evicts p altruistic f s k in
      let b = tier-Evicts p warm f₁ s₁ a.keyed in
      let c = tier-Evicts p hot f₂ s₂ b.keyed in
      rw
        (
          evict_tiers-cons altruistic (warm ∷ hot ∷ []) f s,
          evict_tiers-cons warm (hot ∷ []) f₁ s₁,
          evict_tiers-cons hot [] f₂ s₂,
        )
        (IsSwept-join limit f f₁ f₂ _ s.meta s₁.meta s₂.meta _ over (omega (arith, over)) a b c)

  -- Where no two rows have the same hash, a sweep leaves every row of the never-evict tier and
  -- brings the other tiers down to what the budget leaves for them. Where they are within it
  -- already, no row changes; a row of the warm tier goes only once the altruistic tier holds no
  -- bytes, and one of the hot tier only once the altruistic and the warm tier hold none. No two
  -- rows have the same hash afterwards.
  pub run_eviction_sweep-IsSwept :
      (budget : ℕ) (s : BlockStore p)
      → IsKeyed s.meta
      → IsSwept (evictable_budget budget s.meta) s.meta (run_eviction_sweep p budget s).meta
  unfolding run_eviction_sweep
  run_eviction_sweep-IsSwept budget s k =
      let limit = evictable_budget budget s.meta in
      let split : total_size p s.meta - usage p never_evict s.meta ≡ evictable s.meta =
        omega (arith, total_size-usage p s.meta) in
      rw split (elim (Bool-cases (leb (evictable s.meta) limit)) [
        | inl e ↦ rw e (record {
          keyed = k;
          kept = refl;
          fits = ground arith;
          spared = inl refl;
          warm_last = inl refl;
          hot_last = inl refl;
        })
        | inr e ↦ rw e (evict_tiers-IsSwept limit s k (ground arith))
      ])
