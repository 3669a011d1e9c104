-- ===== src/Blocks/Sound.antt =====
-- The invariant of the block store (client/src/main/blocks/store.ts): what the cache and the files hold
-- under a hash has that hash.
use united.Prelude.{
  ◌≡◌, ◌≢◌, sym, subst, ◌∙◌, String, str_eq, eq_iff, inl, inr, List, Option, none, some, arith,
  Option-cases, Bool-cases,
}
use united.Prelude.Dict.{lookup, lookup-erase}
use united.Blocks.Types.{Buffer, BlockMeta}
use united.Blocks.Crypto.{decrypt_block}
use united.Blocks.Store.{Platform, BlockStore, cache_and_return, after_lookup, delete_block}

module _ (p : Platform) (key : Buffer) where
  -- A cache in which each block has the hash that it is found under.
  abbrev pub IsCoherent : Option p.Cache → Type 0
  IsCoherent none = Unit
  IsCoherent (some c) =
      (hash : String) (block : Buffer) → p.peek hash c ≡ some block → p.sha256_hex block ≡ hash

  -- Every file holds, under the key of the store, a block with the hash that the file is named by.
  pub record IsSound (s : BlockStore p) : Type 0 where
    pub keyed : (k : Buffer) → s.key ≡ some k → k ≡ key
    pub sealed :
        (hash : String) (encrypted : Buffer)
        → lookup hash s.files ≡ some encrypted
        → (block : Buffer) × (decrypt_block p.sodium encrypted key ≡ some block)
          × (p.sha256_hex block ≡ hash)
    pub coherent : IsCoherent s.cache

  module _ (hash : String) (block : Buffer) (c c' : p.Cache) (e : p.set hash block c ≡ some c')
      (right : p.sha256_hex block ≡ hash) (h : IsCoherent (some c)) where
    set_self-IsCoherent : (d : Buffer) → p.peek hash c' ≡ some d → p.sha256_hex d ≡ hash
    set_self-IsCoherent d found = elim (p.peek-set_self hash block c c' e) [
      | inl stored ↦ let same : d ≡ block = cc in rw same right
      | inr gone ↦ absurd (cc)
    ]

    set_ne-IsCoherent :
        (j : String) (d : Buffer) → hash ≢ j → p.peek j c' ≡ some d → p.sha256_hex d ≡ j
    set_ne-IsCoherent j d ne found = elim (p.peek-set_ne hash j block c c' e ne) [
      | inl kept ↦ h j d (sym kept ∙ found)
      | inr gone ↦ absurd (cc)
    ]

    pub set-IsCoherent : IsCoherent (some c')
    set-IsCoherent j d found = elim (Bool-cases (str_eq hash j)) [
      | inl same ↦
          let j_is : hash ≡ j = (eq_iff hash j).0 same in
          rw (← j_is) (set_self-IsCoherent d (subst (λ k. p.peek k c' ≡ some d) (sym j_is) found))
      | inr other ↦ set_ne-IsCoherent j d (λ q. ground (arith, eq_iff hash j)) found
    ]

  delete-IsCoherent :
      (hash : String) (c : p.Cache) → IsCoherent (some c) → IsCoherent (some (p.delete hash c))
  delete-IsCoherent hash c h j d found = elim (Bool-cases (str_eq hash j)) [
    | inl same ↦
        let gone = p.peek-delete_self hash c in
        let j_is : hash ≡ j = (eq_iff hash j).0 same in absurd (cc (j_is, gone))
    | inr other ↦ elim (p.peek-delete_ne hash j c (λ q. ground (arith, eq_iff hash j))) [
      | inl kept ↦ h j d (sym kept ∙ found)
      | inr gone ↦ absurd (cc)
    ]
  ]

  touch-IsCoherent :
      (hash : String) (c : p.Cache) → IsCoherent (some c) → IsCoherent (some (p.touch hash c))
  touch-IsCoherent hash c h j d found = h j d (sym (p.peek-touch hash j c) ∙ found)

  -- A change of the rows, or of the times of use, changes nothing of this.
  pub meta-IsSound :
      (s : BlockStore p) (rows : List BlockMeta) → IsSound s → IsSound (record s { meta = rows })
  meta-IsSound s rows v = record { keyed = v.keyed; sealed = v.sealed; coherent = v.coherent }

  pub cache-IsSound :
      (s : BlockStore p) (c : Option p.Cache)
      → IsCoherent c
      → IsSound s
      → IsSound (record s { cache = c })
  cache-IsSound s c h v = record { keyed = v.keyed; sealed = v.sealed; coherent = h }

  pub after_lookup-IsSound :
      (hash : String) (s : BlockStore p) → IsSound s → IsSound (after_lookup p hash s)
  after_lookup-IsSound hash s v = cache-IsSound s _ (go s.cache v.coherent) v
    where
      go :
          (o : Option p.Cache)
          → IsCoherent o
          → IsCoherent (elim o [ none ↦ none | some c ↦ some (p.touch hash c) ])
      go none h = tt
      go (some c) h = touch-IsCoherent hash c h

  pub delete_block-IsSound :
      (hash : String) (s : BlockStore p) → IsSound s → IsSound (delete_block p hash s)
  unfolding delete_block
  delete_block-IsSound hash s v = record {
    keyed = v.keyed;
    sealed = λ j enc e. v.sealed j enc (ground (arith, lookup-erase hash j s.files));
    coherent = go s.cache v.coherent;
  }
    where
      go :
          (o : Option p.Cache)
          → IsCoherent o
          → IsCoherent (elim o [ none ↦ none | some c ↦ some (p.delete hash c) ])
      go none h = tt
      go (some c) h = delete-IsCoherent hash c h

  pub cache_and_return-IsSound :
      (hash : String) (block : Buffer) (s : BlockStore p)
      → p.sha256_hex block ≡ hash
      → IsSound s
      → IsSound (cache_and_return p hash block s).0
  unfolding cache_and_return
  cache_and_return-IsSound hash block s right v = elim (Option-cases s.cache) [
    | inl e ↦ rw (e, cache_and_return) v
    | inr (c, e) ↦ elim (Option-cases (p.set hash block c)) [
      | inl refused ↦ rw (e, refused, cache_and_return) v
      | inr (c', stored) ↦
          rw (e, stored, cache_and_return)
            (cache-IsSound s (some c')
              (set-IsCoherent hash block c c' stored right (subst IsCoherent e v.coherent)) v)
    ]
  ]
