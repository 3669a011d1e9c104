-- ===== src/Dm/Valid.antt =====
-- The invariant of the direct messages, operation by operation (stores/dm.ts, hooks/useDm.ts).
use united.Prelude.{
  ℕ, ◌≡◌, refl, sym, subst, Option-cases, String, Option, none, some, arith, inl, inr, Bool-cases,
  map,
}
use united.Prelude.Sort.{has_key}
use united.Dm.Types.{DecryptedDmMessage, DmHistory, DmSlice, dm_sequence}
use united.Dm.Slice.{
  or_empty_conversation, conversation_of, touch_conversation, load_dm_start, load_older_dm_start,
  load_older_dm_done, load_older_dm_failed, append_dm_message, send_dm_message_done,
  delete_local_dm_message, increment_dm_unread, clear_dm_unread,
}
use united.Dm.Events.{
  DmEvent, DmEventType, new, conversation_created, key_rotated, is_active, on_new_dm,
  handle_dm_event,
}
use united.Dm.Recent.{IsRecentFirst, sort_conversations-IsRecentFirst}
use united.Dm.Window.{AreDmWindows, append_dm_message-AreDmWindows}
use united.Dm.Unread.{HasKeysOnce, insert-HasKeysOnce, erase-HasKeysOnce}

-- What holds of the store.
pub record IsDmValid (s : DmSlice) : Type 0 where
  pub windows : AreDmWindows s.dm_messages
  pub recent : IsRecentFirst s.dm_conversations
  pub once : HasKeysOnce s.dm_unread_counts

module _ (s : DmSlice) (v : IsDmValid s) where
  pub append_dm_message-IsDmValid :
      (id : String) (m : DecryptedDmMessage) → IsDmValid (append_dm_message id m s)
  unfolding append_dm_message
  append_dm_message-IsDmValid id m =
      let windows = append_dm_message-AreDmWindows id s v.windows m in
      elim (Bool-cases (
        has_key dm_sequence (dm_sequence m)
          (or_empty_conversation (conversation_of id s)).messages)) [
            | inl old ↦ rw old v
            | inr fresh ↦ rw fresh (record {
              windows = rw (fresh, append_dm_message) at windows;
              recent =
                  sort_conversations-IsRecentFirst
                    (map (touch_conversation id m.timestamp) s.dm_conversations);
              once = v.once;
            })
          ]

  increment_dm_unread-IsDmValid : (id : String) → IsDmValid (increment_dm_unread id s)
  unfolding increment_dm_unread
  increment_dm_unread-IsDmValid id = record {
    windows = v.windows;
    recent = v.recent;
    once = insert-HasKeysOnce id _ s.dm_unread_counts v.once;
  }

  pub clear_dm_unread-IsDmValid : (id : String) → IsDmValid (clear_dm_unread id s)
  unfolding clear_dm_unread
  clear_dm_unread-IsDmValid id = record {
    windows = v.windows;
    recent = v.recent;
    once = erase-HasKeysOnce id s.dm_unread_counts v.once;
  }

on_new_dm-IsDmValid :
    (m : DecryptedDmMessage) (s : DmSlice) → IsDmValid s → IsDmValid (on_new_dm m s).0
unfolding on_new_dm
on_new_dm-IsDmValid m s v =
    let appended = append_dm_message-IsDmValid s v m.conversation_id m in
    elim (Bool-cases (is_active m.conversation_id s)) [
      | inl e ↦ rw e appended
      | inr e ↦ rw e (increment_dm_unread-IsDmValid _ appended m.conversation_id)
    ]

pub handle_dm_event-IsDmValid :
    (e : DmEvent) (s : DmSlice) → IsDmValid s → IsDmValid (handle_dm_event e s).0
unfolding handle_dm_event
handle_dm_event-IsDmValid e s v = go e.type e.message
  where
    go :
        (type : DmEventType) (message : Option DecryptedDmMessage)
        → IsDmValid (handle_dm_event (record e { type = type; message = message }) s).0
    go new none = v
    go new (some m) = on_new_dm-IsDmValid m s v
    go conversation_created message = v
    go key_rotated message = v

-- The operations on one window leave the rest of the store alone.
unfoldable pub AreSameLists : DmSlice → DmSlice → Type 0
AreSameLists s t =
    (t.dm_conversations ≡ s.dm_conversations) × (t.dm_unread_counts ≡ s.dm_unread_counts)

pub windows-IsDmValid :
    (s t : DmSlice) → AreSameLists s t → AreDmWindows t.dm_messages → IsDmValid s → IsDmValid t
unfolding AreSameLists
windows-IsDmValid s t same windows v = record {
  windows = windows;
  recent = subst IsRecentFirst (sym same.0) v.recent;
  once = subst HasKeysOnce (sym same.1) v.once;
}

module _ (id : String) (s : DmSlice) where
  pub load_dm_start_same : (t : DmSlice) → load_dm_start id s ≡ some t → AreSameLists s t
  unfolding AreSameLists load_dm_start
  load_dm_start_same t e = (ground arith, ground arith)

  pub load_older_dm_start_same :
      (t : DmSlice) (before : Option ℕ)
      → load_older_dm_start id s ≡ some (t, before)
      → AreSameLists s t
  unfolding AreSameLists load_older_dm_start
  load_older_dm_start_same t before e = elim (Option-cases (conversation_of id s)) [
    | inl missing ↦ absurd (ground arith)
    | inr (c, found) ↦ (ground arith, ground arith)
  ]

  pub load_older_dm_failed_same :
      (t : DmSlice) → load_older_dm_failed id s ≡ some t → AreSameLists s t
  unfolding AreSameLists load_older_dm_failed
  load_older_dm_failed_same t e = elim (Option-cases (conversation_of id s)) [
    | inl missing ↦ absurd (ground arith)
    | inr (c, found) ↦ (ground arith, ground arith)
  ]

  pub load_older_dm_done_same : (r : DmHistory) → AreSameLists s (load_older_dm_done id r s)
  unfolding AreSameLists load_older_dm_done
  load_older_dm_done_same r = elim (Option-cases (conversation_of id s)) [
    | inl missing ↦ rw (missing, load_older_dm_done) (refl, refl)
    | inr (c, found) ↦ rw (found, load_older_dm_done) (refl, refl)
  ]

  pub delete_local_dm_message_same :
      (message_id : String) → AreSameLists s (delete_local_dm_message id message_id s)
  unfolding AreSameLists delete_local_dm_message
  delete_local_dm_message_same message_id = elim (Option-cases (conversation_of id s)) [
    | inl missing ↦ rw (missing, delete_local_dm_message) (refl, refl)
    | inr (c, found) ↦ rw (found, delete_local_dm_message) (refl, refl)
  ]

  pub send_dm_message_done-none :
      (t : DmSlice) → send_dm_message_done id none s ≡ some t → IsDmValid t
  unfolding send_dm_message_done
  send_dm_message_done-none t e = absurd (cc)

  pub send_dm_message_done-some :
      (m : DecryptedDmMessage) (t : DmSlice)
      → send_dm_message_done id (some m) s ≡ some t
      → append_dm_message id m s ≡ t
  unfolding send_dm_message_done
  send_dm_message_done-some m t e = cc
