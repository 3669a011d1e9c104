-- ===== src/Blocks/Expiry.antt =====
-- The expiry of old blocks (client/src/main/blocks/tiers.ts, checkTtlExpiry).
use united.Prelude.{
  ℕ, ◌≡◌, refl, sym, ap, ◌∙◌, String, str_eq, eq_iff, eq_refl, Bool, true, false, not, ◌&&◌, ◌||◌,
  inl, inr, List, [], ◌∷◌, map, arith, keep, All, All-imp, subst, Bool-cases,
}
use united.Blocks.Types.{warm, altruistic, BlockMeta}
use united.Blocks.Store.{Platform, BlockStore, delete_block, in_tier}
use united.Blocks.Tiers.{is_expired, downgrade, delete_all, check_ttl_expiry}
use united.Blocks.Rows.{has_hash, IsKeyed, has_hash-keep}

keep-All :
    (f g : BlockMeta → Bool) (rs : List BlockMeta) → All (λ r. f r ≡ g r) rs → keep f rs ≡ keep g rs
keep-All f g [] a = refl
keep-All f g (r ∷ rs) a = rw (a.0, keep-All f g rs a.1) refl

keep-delete :
    (b : BlockMeta) (bs rs : List BlockMeta)
    → keep (λ r. not (has_hash r.hash bs)) (keep (λ r. not (str_eq r.hash b.hash)) rs)
      ≡ keep (λ r. not (has_hash r.hash (b ∷ bs))) rs
keep-delete b bs [] = refl
keep-delete b bs (r ∷ rs) =
    ground (arith, eq_iff r.hash b.hash, eq_iff b.hash r.hash, keep-delete b bs rs)

found-cons :
    (q : BlockMeta → Bool) (x : BlockMeta) (ks rs : List BlockMeta)
    → has_hash x.hash rs ≡ false
    → All (λ r. has_hash r.hash ks ≡ q r) rs
    → All (λ r. has_hash r.hash (x ∷ ks) ≡ q r) rs
found-cons q x ks [] h a = tt
found-cons q x ks (r ∷ rs) h a = (
  ground (arith, a.0, eq_iff r.hash x.hash, eq_iff x.hash r.hash),
  found-cons q x ks rs (ground arith) a.1,
)

-- Of a table's rows, just those that were selected have the hash of a selected row.
found-keep :
    (q : BlockMeta → Bool) (rs : List BlockMeta)
    → IsKeyed rs
    → All (λ r. has_hash r.hash (keep q rs) ≡ q r) rs
found-keep q [] k = tt
found-keep q (r ∷ rs) k = elim (Bool-cases (q r)) [
  | inl e ↦
      let taken : keep q (r ∷ rs) ≡ r ∷ keep q rs = rw e refl in
      (
        ground (arith, eq_refl r.hash),
        subst (λ ks. All (λ x. has_hash x.hash ks ≡ q x) rs) (sym taken)
            (found-cons q r (keep q rs) rs k.0 (found-keep q rs k.1)),
      )
  | inr e ↦
      let left : keep q (r ∷ rs) ≡ keep q rs = rw e refl in
      (
        ap (has_hash r.hash) left ∙ has_hash-keep r.hash q rs k.0 ∙ sym e,
        subst (λ ks. All (λ x. has_hash x.hash ks ≡ q x) rs) (sym left) (found-keep q rs k.1),
      )
]

module _ (p : Platform) where
  delete_all-meta :
      (bs : List BlockMeta) (s : BlockStore p)
      → (delete_all p bs s).meta ≡ keep (λ r. not (has_hash r.hash bs)) s.meta
  unfolding delete_all delete_block
  delete_all-meta [] s = sym (keep_all s.meta)
    where
      keep_all : (rs : List BlockMeta) → keep (λ r. true) rs ≡ rs
      keep_all [] = refl
      keep_all (r ∷ rs) = rw (keep_all rs) refl
  delete_all-meta (b ∷ bs) s =
      delete_all-meta bs (delete_block p b.hash s) ∙ keep-delete b bs s.meta

  abbrev is_dated : ℕ → ℕ → BlockMeta → Bool
  is_dated ttl_days now r = in_tier p altruistic r && is_expired ttl_days now r

  -- A row that a downgrade and then the deletion take out.
  abbrev pub is_old : ℕ → ℕ → BlockMeta → Bool
  is_old ttl_days now r = (in_tier p warm r || in_tier p altruistic r) && is_expired ttl_days now r

  has_hash-map :
      (ttl_days now : ℕ) (hash : String) (rs : List BlockMeta)
      → has_hash hash (map (downgrade p ttl_days now) rs) ≡ has_hash hash rs
  has_hash-map ttl_days now hash [] = refl
  has_hash-map ttl_days now hash (r ∷ rs) = ground (arith, has_hash-map ttl_days now hash rs)

  map-downgrade-IsKeyed :
      (ttl_days now : ℕ) (rs : List BlockMeta)
      → IsKeyed rs
      → IsKeyed (map (downgrade p ttl_days now) rs)
  map-downgrade-IsKeyed ttl_days now [] k = tt
  map-downgrade-IsKeyed ttl_days now (r ∷ rs) k = (
    ground (arith, has_hash-map ttl_days now r.hash rs, k.0),
    map-downgrade-IsKeyed ttl_days now rs k.1,
  )

  keep-downgrade :
      (ttl_days now : ℕ) (rs : List BlockMeta)
      → keep (λ r. not (is_dated ttl_days now r)) (map (downgrade p ttl_days now) rs)
        ≡ keep (λ r. not (is_old ttl_days now r)) rs
  keep-downgrade ttl_days now [] = refl
  keep-downgrade ttl_days now (r ∷ rs) = ground (arith, keep-downgrade ttl_days now rs)

  -- Where no two rows have the same hash, the rows after the check are those, unchanged and in
  -- their order, that are not warm or altruistic and past the time to live at once: a warm row
  -- that is downgraded is deleted in the same check.
  pub check_ttl_expiry-meta :
      (ttl_days now : ℕ) (s : BlockStore p)
      → IsKeyed s.meta
      → (check_ttl_expiry p ttl_days now s).meta ≡ keep (λ r. not (is_old ttl_days now r)) s.meta
  unfolding check_ttl_expiry
  check_ttl_expiry-meta ttl_days now s k =
      let rows = map (downgrade p ttl_days now) s.meta in
      let dated = is_dated ttl_days now in
      delete_all-meta (keep dated rows) (record s { meta = rows })
      ∙ keep-All (λ r. not (has_hash r.hash (keep dated rows))) (λ r. not (dated r)) rows
          (All-imp (λ r e. ap not e) rows
            (found-keep dated rows (map-downgrade-IsKeyed ttl_days now s.meta k)))
      ∙ keep-downgrade ttl_days now s.meta
