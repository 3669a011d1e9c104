-- ===== src/Dm/Unread.antt =====
-- The unread counts of the direct messages (stores/dm.ts, hooks/useDm.ts).
use united.Prelude.{
  ℕ, ◌+◌, ◌≡◌, refl, ap, String, str_eq, eq_iff, true, false, [], ◌∷◌, none, some, arith, inl, inr,
  Bool-cases,
}
use united.Prelude.Dict.{Dict, lookup, insert, erase}
use united.Dm.Types.{DmSlice}
use united.Dm.Slice.{
  unread_count, sum_counts, clear_dm_unread, set_active_dm_conversation, get_total_dm_unread,
}

-- An object has each key once.
abbrev pub HasKeysOnce : Dict ℕ → Type 0
HasKeysOnce [] = Unit
HasKeysOnce ((k, n) ∷ d) = (lookup k d ≡ none) × HasKeysOnce d

lookup-insert_other :
    (j k : String) (n : ℕ) (d : Dict ℕ)
    → str_eq k j ≡ false
    → lookup j d ≡ none
    → lookup j (insert k n d) ≡ none
unfolding lookup insert
lookup-insert_other j k n [] ne h = rw ne refl
lookup-insert_other j k n ((i, m) ∷ d) ne h =
    ground (arith, eq_iff k j, eq_iff i k, eq_iff i j, lookup-insert_other j k n d ne)

pub insert-HasKeysOnce :
    (k : String) (n : ℕ) (d : Dict ℕ) → HasKeysOnce d → HasKeysOnce (insert k n d)
unfolding lookup insert
insert-HasKeysOnce k n [] h = (refl, tt)
insert-HasKeysOnce k n ((j, m) ∷ d) h = elim (Bool-cases (str_eq j k)) [
  | inl e ↦ rw e (ground (arith, eq_iff j k), h.1)
  | inr e ↦ rw e (
    lookup-insert_other j k n d (ground (arith, eq_iff j k, eq_iff k j)) h.0,
    insert-HasKeysOnce k n d h.1,
  )
]

lookup-erase-none : (j k : String) (d : Dict ℕ) → lookup j d ≡ none → lookup j (erase k d) ≡ none
unfolding lookup erase
lookup-erase-none j k [] h = refl
lookup-erase-none j k ((i, m) ∷ d) h = ground (arith, lookup-erase-none j k d)

pub erase-HasKeysOnce : (k : String) (d : Dict ℕ) → HasKeysOnce d → HasKeysOnce (erase k d)
unfolding erase
erase-HasKeysOnce k [] h = tt
erase-HasKeysOnce k ((j, m) ∷ d) h = elim (Bool-cases (str_eq j k)) [
  | inl e ↦ rw e (erase-HasKeysOnce k d h.1)
  | inr e ↦ rw e (lookup-erase-none j k d h.0, erase-HasKeysOnce k d h.1)
]

erase_absent : (k : String) (d : Dict ℕ) → lookup k d ≡ none → erase k d ≡ d
unfolding lookup erase
erase_absent k [] h = refl
erase_absent k ((j, m) ∷ d) h = ground (arith, erase_absent k d)

erase_same :
    (k j : String) (m : ℕ) (d : Dict ℕ) → str_eq j k ≡ true → erase k ((j, m) ∷ d) ≡ erase k d
unfolding erase
erase_same k j m d e = rw e refl

erase_other :
    (k j : String) (m : ℕ) (d : Dict ℕ)
    → str_eq j k ≡ false
    → erase k ((j, m) ∷ d) ≡ (j, m) ∷ erase k d
unfolding erase
erase_other k j m d e = rw e refl

sum_counts-erase :
    (k : String) (d : Dict ℕ)
    → HasKeysOnce d
    → sum_counts (erase k d) + unread_count k d ≡ sum_counts d
unfolding lookup erase
sum_counts-erase k [] h = refl
sum_counts-erase k ((j, m) ∷ d) h = elim (Bool-cases (str_eq j k)) [
  | inl e ↦
      let gone : erase k d ≡ d = erase_absent k d (ground (arith, eq_iff j k)) in
      let here : unread_count k ((j, m) ∷ d) ≡ m = rw (e, unread_count, lookup) refl in
      omega (arith, here, ap sum_counts gone, ap sum_counts (erase_same k j m d e))
  | inr e ↦
      let here : unread_count k ((j, m) ∷ d) ≡ unread_count k d =
        rw (e, unread_count, lookup) refl in
      omega (arith, here, sum_counts-erase k d h.1, ap sum_counts (erase_other k j m d e))
]

-- To open a conversation takes its unread messages, and no others, off the total, where the id is not
-- empty and the counts have each conversation once.
get_total_dm_unread-set_active_dm_conversation :
    (id : String) (s : DmSlice)
    → str_eq id "" ≡ false
    → HasKeysOnce s.dm_unread_counts
    → get_total_dm_unread (set_active_dm_conversation (some id) s)
        + unread_count id s.dm_unread_counts
      ≡ get_total_dm_unread s
unfolding get_total_dm_unread set_active_dm_conversation clear_dm_unread
get_total_dm_unread-set_active_dm_conversation id s named once =
    rw named (sum_counts-erase id s.dm_unread_counts once)
