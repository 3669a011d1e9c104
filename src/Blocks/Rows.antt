-- ===== src/Blocks/Rows.antt =====
-- The rows of the block store under deletion (client/src/main/blocks/store.ts): sizes by tier, and what a
-- deletion by hash leaves of each tier.
use united.Prelude.{
  ℕ, ◌+◌, ◌≡◌, ◌≢◌, refl, String, str_eq, eq_iff, eq_refl, Bool, false, not, inl, inr, List, [],
  ◌∷◌, Option, some, arith, keep, any, find, All, Bool-cases,
}
use united.Blocks.Types.{ContentTier, never_evict, hot, warm, altruistic, BlockMeta}
use united.Blocks.Store.{Platform, total_size, in_tier}

abbrev pub has_hash : String → List BlockMeta → Bool
has_hash hash = any (λ r. str_eq r.hash hash)

-- The hash is the primary key of the table.
abbrev pub IsKeyed : List BlockMeta → Type 0
IsKeyed [] = Unit
IsKeyed (r ∷ rs) = (has_hash r.hash rs ≡ false) × IsKeyed rs

abbrev pub row_by : String → List BlockMeta → Option BlockMeta
row_by hash = find (λ r. str_eq r.hash hash)

abbrev pub without : String → List BlockMeta → List BlockMeta
without hash = keep (λ r. not (str_eq r.hash hash))

pub has_hash-keep :
    (hash : String) (q : BlockMeta → Bool) (rows : List BlockMeta)
    → has_hash hash rows ≡ false
    → has_hash hash (keep q rows) ≡ false
has_hash-keep hash q [] h = refl
has_hash-keep hash q (r ∷ rs) h = ground (arith, has_hash-keep hash q rs)

pub keep-IsKeyed :
    (q : BlockMeta → Bool) (rows : List BlockMeta) → IsKeyed rows → IsKeyed (keep q rows)
keep-IsKeyed q [] k = tt
keep-IsKeyed q (r ∷ rs) k = elim (Bool-cases (q r)) [
  | inl e ↦ rw e (has_hash-keep r.hash q rs k.0, keep-IsKeyed q rs k.1)
  | inr e ↦ rw e (keep-IsKeyed q rs k.1)
]

without_absent :
    (hash : String) (rows : List BlockMeta) → has_hash hash rows ≡ false → without hash rows ≡ rows
without_absent hash [] h = refl
without_absent hash (r ∷ rs) h = ground (arith, without_absent hash rs)

pub row_by-without :
    (hash other : String) (rows : List BlockMeta)
    → other ≢ hash
    → row_by other (without hash rows) ≡ row_by other rows
row_by-without hash other [] h = refl
row_by-without hash other (r ∷ rs) h =
    ground (arith, eq_iff r.hash hash, eq_iff r.hash other, row_by-without hash other rs h)

module _ (p : Platform) where
  abbrev pub tier_rows : ContentTier → List BlockMeta → List BlockMeta
  tier_rows tier = keep (in_tier p tier)

  abbrev pub usage : ContentTier → List BlockMeta → ℕ
  usage tier rows = total_size p (tier_rows tier rows)

  -- The tiers share out the rows.
  pub total_size-usage :
      (rows : List BlockMeta)
      → total_size p rows
        ≡ usage never_evict rows + usage hot rows + usage warm rows + usage altruistic rows
  total_size-usage [] = refl
  total_size-usage (r ∷ rs) = ground (arith, total_size-usage rs)

  not_in_tier : (r : BlockMeta) (tier : ContentTier) → tier ≢ r.tier → in_tier p tier r ≡ false
  not_in_tier r tier ne = ground arith

  -- To delete a row leaves the other tiers alone, and takes its size off its own.
  pub tier_rows-without :
      (hash : String) (rows : List BlockMeta) (b : BlockMeta) (tier : ContentTier)
      → IsKeyed rows
      → row_by hash rows ≡ some b
      → tier ≢ b.tier
      → tier_rows tier (without hash rows) ≡ tier_rows tier rows
  tier_rows-without hash [] b tier k e ne = refl
  tier_rows-without hash (r ∷ rs) b tier k e ne = elim (Bool-cases (str_eq r.hash hash)) [
    | inl same ↦
        let gone : without hash rs ≡ rs =
          without_absent hash rs (ground (arith, eq_iff r.hash hash)) in
        let is : r ≡ b = ground arith in rw (same, gone) (rw (not_in_tier r tier (rw is ne)) refl)
    | inr other ↦ rw other (ground (arith, tier_rows-without hash rs b tier k.1 (ground arith) ne))
  ]

  pub usage-without :
      (hash : String) (rows : List BlockMeta) (b : BlockMeta)
      → IsKeyed rows
      → row_by hash rows ≡ some b
      → usage b.tier (without hash rows) + b.size ≡ usage b.tier rows
  usage-without hash [] b k e = absurd (cc)
  usage-without hash (r ∷ rs) b k e = elim (Bool-cases (str_eq r.hash hash)) [
    | inl same ↦
        let gone : without hash rs ≡ rs =
          without_absent hash rs (ground (arith, eq_iff r.hash hash)) in
        let is : r ≡ b = ground arith in rw (same, gone, is) (ground arith)
    | inr other ↦ rw other (ground (arith, usage-without hash rs b k.1 (ground arith)))
  ]

  -- A row of the table, of some tier, is found by its hash.
  abbrev pub IsRowOf : ContentTier → List BlockMeta → BlockMeta → Type 0
  IsRowOf tier rows b = (row_by b.hash rows ≡ some b) × (b.tier ≡ tier)

  tier_rows-cons :
      (tier : ContentTier) (r : BlockMeta) (rs bs : List BlockMeta)
      → has_hash r.hash bs ≡ false
      → All (IsRowOf tier rs) bs
      → All (IsRowOf tier (r ∷ rs)) bs
  tier_rows-cons tier r rs [] h a = tt
  tier_rows-cons tier r rs (b ∷ bs) h a = (
    (ground (arith, eq_iff r.hash b.hash, eq_iff b.hash r.hash), a.0.1),
    tier_rows-cons tier r rs bs (ground arith) a.1,
  )

  pub tier_rows-IsRowOf :
      (tier : ContentTier) (rows : List BlockMeta)
      → IsKeyed rows
      → All (IsRowOf tier rows) (tier_rows tier rows)
  tier_rows-IsRowOf tier [] k = tt
  tier_rows-IsRowOf tier (r ∷ rs) k =
      let rest =
        tier_rows-cons tier r rs (tier_rows tier rs) (has_hash-keep r.hash (in_tier p tier) rs k.0)
          (tier_rows-IsRowOf tier rs k.1) in
      elim (Bool-cases (in_tier p tier r)) [
        | inl e ↦ rw e ((rw (eq_refl r.hash) refl, ground arith), rest)
        | inr e ↦ rw e rest
      ]
