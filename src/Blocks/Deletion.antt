-- ===== src/Blocks/Deletion.antt =====
-- Deletions, the sweep and the expiry, and the invariant of the block store
-- (client/src/main/blocks/store.ts, tiers.ts).
use united.Prelude.{
  ℕ, ◌-◌, ◌≡◌, sym, subst, ◌∙◌, String, str_eq, List, [], ◌∷◌, Option, none, some, inl, inr, arith,
  map, keep, ◌==◌, leb, Bool-cases, eq_iff,
}
use united.Prelude.Dict.{lookup-erase}
use united.Blocks.Types.{Buffer, ContentTier, never_evict, BlockMeta}
use united.Blocks.Store.{Platform, BlockStore, delete_block, total_size, in_tier}
use united.Blocks.Tiers.{
  least_recent_first, evict_blocks, evict_tiers, eviction_tiers, run_eviction_sweep, downgrade,
  delete_all, check_ttl_expiry,
}
use united.Blocks.Sound.{IsCoherent, IsSound, meta-IsSound}

module _ (p : Platform) (key : Buffer) where
  delete-IsCoherent :
      (hash : String) (o : Option p.Cache)
      → IsCoherent p key o
      → IsCoherent p key (elim o [ none ↦ none | some c ↦ some (p.delete hash c) ])
  delete-IsCoherent hash none h = tt
  delete-IsCoherent hash (some c) h = λ j block e. delete_some hash c h j block e
    where
      delete_some :
          (hash : String) (c : p.Cache)
          → IsCoherent p key (some c)
          → (j : String) (block : Buffer) → p.peek j (p.delete hash c) ≡ some block
          → p.sha256_hex block ≡ j
      delete_some hash c h j block e = elim (Bool-cases (str_eq hash j)) [
        | inl same ↦
            let gone : p.peek j (p.delete hash c) ≡ none =
              subst (λ x. p.peek x (p.delete hash c) ≡ none) ((eq_iff hash j).0 same)
                (p.peek-delete_self hash c) in
            absurd (cc)
        | inr other ↦ elim (p.peek-delete_ne hash j c (λ q. ground (arith, eq_iff hash j))) [
          | inl kept ↦ h j block (sym kept ∙ e)
          | inr gone ↦ absurd (cc)
        ]
      ]

  pub delete_block-IsSound :
      (hash : String) (s : BlockStore p) → IsSound p key s → IsSound p key (delete_block p hash s)
  unfolding delete_block
  delete_block-IsSound hash s v = record {
    keyed = v.keyed;
    sealed = λ j encrypted e. v.sealed j encrypted (ground (arith, lookup-erase hash j s.files));
    coherent = delete-IsCoherent hash s.cache v.coherent;
  }

  delete_all-IsSound :
      (bs : List BlockMeta) (s : BlockStore p) → IsSound p key s → IsSound p key (delete_all p bs s)
  unfolding delete_all
  delete_all-IsSound [] s v = v
  delete_all-IsSound (b ∷ bs) s v = delete_all-IsSound bs _ (delete_block-IsSound b.hash s v)

  pub check_ttl_expiry-IsSound :
      (ttl_days now : ℕ) (s : BlockStore p)
      → IsSound p key s
      → IsSound p key (check_ttl_expiry p ttl_days now s)
  unfolding check_ttl_expiry
  check_ttl_expiry-IsSound ttl_days now s v =
      delete_all-IsSound _ (record s { meta = map (downgrade p ttl_days now) s.meta })
        (meta-IsSound p key s _ v)

  evict_blocks-IsSound :
      (bs : List BlockMeta) (f : ℕ) (s : BlockStore p)
      → IsSound p key s
      → IsSound p key (evict_blocks p bs f s).1
  unfolding evict_blocks
  evict_blocks-IsSound [] f s v = v
  evict_blocks-IsSound (b ∷ bs) f s v = elim (Bool-cases (f == 0)) [
    | inl e ↦ rw e v
    | inr e ↦ rw e (evict_blocks-IsSound bs (f - b.size) _ (delete_block-IsSound b.hash s v))
  ]

  evict_tiers-IsSound :
      (tiers : List ContentTier) (f : ℕ) (s : BlockStore p)
      → IsSound p key s
      → IsSound p key (evict_tiers p tiers f s).1
  unfolding evict_tiers
  evict_tiers-IsSound [] f s v = v
  evict_tiers-IsSound (t ∷ ts) f s v = elim (Bool-cases (f == 0)) [
    | inl e ↦ rw e v
    | inr e ↦
        rw e
          (evict_tiers-IsSound ts _ _ (evict_blocks-IsSound (least_recent_first p t s.meta) f s v))
  ]

  pub run_eviction_sweep-IsSound :
      (budget : ℕ) (s : BlockStore p)
      → IsSound p key s
      → IsSound p key (run_eviction_sweep p budget s)
  unfolding run_eviction_sweep
  run_eviction_sweep-IsSound budget s v =
      let p1_usage = total_size p (keep (in_tier p never_evict) s.meta) in
      elim (Bool-cases (leb (total_size p s.meta - p1_usage) (budget - p1_usage))) [
        | inl e ↦ rw e v
        | inr e ↦ rw e (evict_tiers-IsSound eviction_tiers _ s v)
      ]
