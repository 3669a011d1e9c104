-- ===== src/Dm/Window.antt =====
-- The invariant of the windows of the direct messages (stores/dm.ts), operation by operation.
use united.Prelude.{
  ℕ, ◌≤◌, ◌≡◌, subst, String, str_eq, Bool, false, not, inl, inr, [], ◌∷◌, ◌++◌, Option, some,
  arith, length, length-keep-le, Bool-cases, Option-cases,
}
use united.Prelude.Dict.{Dict, lookup, insert, lookup-insert}
use united.Prelude.Sort.{
  sort_by, has_key, unseen, IsDistinct, sort_by-IsDistinct, keep-IsDistinct, append-IsDistinct,
  unseen-append-IsDistinct, length-sort_by,
}
use united.Prelude.Ends.{length-first_n-le, length-last_n-le, first_n-IsDistinct, last_n-IsDistinct}
use united.Dm.Types.{
  DecryptedDmMessage, DmHistory, ConversationMessages, DmSlice, max_dm_messages,
  default_dm_page_size, dm_sequence,
}
use united.Dm.Slice.{
  or_empty_conversation, conversation_of, with_conversation, load_dm_start, load_dm_done,
  load_dm_failed, load_older_dm_start, load_older_dm_done, load_older_dm_failed, extend_older_dm,
  append_new_dm, append_dm_message, delete_local_dm_message,
}

-- At most 200 messages, each sequence number once.
pub record IsDmWindow (c : ConversationMessages) : Type 0 where
  pub bounded : length c.messages ≤ max_dm_messages
  pub distinct : IsDistinct dm_sequence c.messages

abbrev pub AreDmWindows : Dict ConversationMessages → Type 0
AreDmWindows d = (id : String) (c : ConversationMessages) → lookup id d ≡ some c → IsDmWindow c

-- What the main process promises of a page of history.
pub record IsDmPage (r : DmHistory) : Type 0 where
  pub fits : length r.messages ≤ default_dm_page_size
  pub distinct : IsDistinct dm_sequence r.messages

same_dms-IsDmWindow :
    (c : ConversationMessages) (loading : Bool)
    → IsDmWindow c
    → IsDmWindow (record c { loading = loading })
same_dms-IsDmWindow c loading w = record { bounded = w.bounded; distinct = w.distinct }

append_new_dm-IsDmWindow :
    (m : DecryptedDmMessage) (c : ConversationMessages)
    → has_key dm_sequence (dm_sequence m) c.messages ≡ false
    → IsDmWindow c
    → IsDmWindow (append_new_dm m c)
unfolding append_new_dm
append_new_dm-IsDmWindow m c new w = record {
  bounded = length-last_n-le max_dm_messages (c.messages ++ m ∷ []);
  distinct =
      last_n-IsDistinct dm_sequence max_dm_messages (c.messages ++ m ∷ [])
        (append-IsDistinct dm_sequence c.messages m new w.distinct);
}

extend_older_dm-IsDmWindow :
    (r : DmHistory) (c : ConversationMessages)
    → IsDistinct dm_sequence r.messages
    → IsDmWindow c
    → IsDmWindow (extend_older_dm r c)
unfolding extend_older_dm
extend_older_dm-IsDmWindow r c d w =
    let merged = unseen dm_sequence c.messages (sort_by dm_sequence r.messages) ++ c.messages in
    record {
      bounded = length-first_n-le max_dm_messages merged;
      distinct = first_n-IsDistinct dm_sequence max_dm_messages merged (
          unseen-append-IsDistinct dm_sequence _ c.messages
            (sort_by-IsDistinct dm_sequence r.messages d) w.distinct);
    }

module _ (id : String) (s : DmSlice) (v : AreDmWindows s.dm_messages) where
  stored-AreDmWindows :
      (c : ConversationMessages) → IsDmWindow c → AreDmWindows (insert id c s.dm_messages)
  stored-AreDmWindows c w j d e = elim (Bool-cases (str_eq id j)) [
    | inl same ↦
        subst IsDmWindow {x = c} {y = d} (ground (arith, lookup-insert id j c s.dm_messages)) w
    | inr other ↦ v j d (ground (arith, lookup-insert id j c s.dm_messages))
  ]

  current-IsDmWindow : IsDmWindow (or_empty_conversation (conversation_of id s))
  current-IsDmWindow = elim (Option-cases (conversation_of id s)) [
    | inl e ↦ rw e (record { bounded = omega arith; distinct = tt })
    | inr (c, e) ↦ rw e (v id c e)
  ]

  pub load_dm_start-AreDmWindows :
      (t : DmSlice) → load_dm_start id s ≡ some t → AreDmWindows t.dm_messages
  unfolding load_dm_start
  load_dm_start-AreDmWindows t e =
      let c = or_empty_conversation (conversation_of id s) in
      subst (λ (x : DmSlice). AreDmWindows x.dm_messages)
        {x = with_conversation id (record c { loading = Bool.true }) s} {y = t} (ground arith)
        (stored-AreDmWindows _ (same_dms-IsDmWindow c Bool.true current-IsDmWindow))

  pub load_dm_done-AreDmWindows :
      (r : DmHistory) → IsDmPage r → AreDmWindows (load_dm_done id r s).dm_messages
  unfolding load_dm_done
  load_dm_done-AreDmWindows r page = stored-AreDmWindows _ (record {
    bounded = omega (arith, page.fits, length-sort_by dm_sequence r.messages);
    distinct = sort_by-IsDistinct dm_sequence r.messages page.distinct;
  })

  pub load_dm_failed-AreDmWindows : AreDmWindows (load_dm_failed id s).dm_messages
  unfolding load_dm_failed
  load_dm_failed-AreDmWindows =
      stored-AreDmWindows _ (same_dms-IsDmWindow _ false current-IsDmWindow)

  pub load_older_dm_start-AreDmWindows :
      (t : DmSlice) (before : Option ℕ)
      → load_older_dm_start id s ≡ some (t, before)
      → AreDmWindows t.dm_messages
  unfolding load_older_dm_start
  load_older_dm_start-AreDmWindows t before e = elim (Option-cases (conversation_of id s)) [
    | inl missing ↦ absurd (ground arith)
    | inr (c, found) ↦
        subst (λ (x : DmSlice). AreDmWindows x.dm_messages)
          {x = with_conversation id (record c { loading = Bool.true }) s} {y = t} (ground arith)
          (stored-AreDmWindows _ (same_dms-IsDmWindow c Bool.true (v id c found)))
  ]

  pub load_older_dm_done-AreDmWindows :
      (r : DmHistory) → IsDmPage r → AreDmWindows (load_older_dm_done id r s).dm_messages
  unfolding load_older_dm_done
  load_older_dm_done-AreDmWindows r page = elim (Option-cases (conversation_of id s)) [
    | inl missing ↦ rw (missing, load_older_dm_done) v
    | inr (c, found) ↦
        rw (found, load_older_dm_done)
          (stored-AreDmWindows _ (extend_older_dm-IsDmWindow r c page.distinct (v id c found)))
  ]

  pub load_older_dm_failed-AreDmWindows :
      (t : DmSlice) → load_older_dm_failed id s ≡ some t → AreDmWindows t.dm_messages
  unfolding load_older_dm_failed
  load_older_dm_failed-AreDmWindows t e = elim (Option-cases (conversation_of id s)) [
    | inl missing ↦ absurd (ground arith)
    | inr (c, found) ↦
        subst (λ (x : DmSlice). AreDmWindows x.dm_messages)
          {x = with_conversation id (record c { loading = false }) s} {y = t} (ground arith)
          (stored-AreDmWindows _ (same_dms-IsDmWindow c false (v id c found)))
  ]

  pub append_dm_message-AreDmWindows :
      (m : DecryptedDmMessage) → AreDmWindows (append_dm_message id m s).dm_messages
  unfolding append_dm_message
  append_dm_message-AreDmWindows m =
      let c = or_empty_conversation (conversation_of id s) in
      elim (Bool-cases (has_key dm_sequence (dm_sequence m) c.messages)) [
        | inl old ↦ rw old v
        | inr new ↦
            rw new (stored-AreDmWindows _ (append_new_dm-IsDmWindow m c new current-IsDmWindow))
      ]

  pub delete_local_dm_message-AreDmWindows :
      (message_id : String) → AreDmWindows (delete_local_dm_message id message_id s).dm_messages
  unfolding delete_local_dm_message
  delete_local_dm_message-AreDmWindows message_id = elim (Option-cases (conversation_of id s)) [
    | inl missing ↦ rw (missing, delete_local_dm_message) v
    | inr (c, found) ↦
        let w = v id c found in
        let other = λ (m : DecryptedDmMessage). not (str_eq m.id message_id) in
        rw (found, delete_local_dm_message)
          (stored-AreDmWindows _ (record {
            bounded = omega (arith, w.bounded, length-keep-le other c.messages);
            distinct = keep-IsDistinct dm_sequence other c.messages w.distinct;
          }))
  ]
