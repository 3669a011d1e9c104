-- ===== src/Dm/Reach.antt =====
-- The direct messages over time: requests, answers and events in any order (stores/dm.ts, hooks/useDm.ts).
use united.Prelude.{
  ℕ, ◌≡◌, subst, String, str_eq, Bool, List, ◌∷◌, Option, none, some, inl, inr, Bool-cases,
}
use united.Prelude.Dict.{lookup}
use united.Dm.Types.{DmConversation, DecryptedDmMessage, DmHistory, DmSlice, empty_dm_slice}
use united.Dm.Slice.{
  load_conversations_done, set_active_dm_conversation, set_dm_view, load_dm_start, load_dm_done,
  load_dm_failed, load_older_dm_start, load_older_dm_done, load_older_dm_failed,
  create_conversation_done, send_dm_message_done, delete_local_dm_message,
  dismiss_encryption_banner, check_peer_key_status_done, clear_dm_unread,
}
use united.Dm.Events.{DmEvent, handle_dm_event}
use united.Dm.Recent.{sort_conversations-IsRecentFirst}
use united.Dm.Window.{
  IsDmPage, load_dm_start-AreDmWindows, load_dm_done-AreDmWindows, load_dm_failed-AreDmWindows,
  load_older_dm_start-AreDmWindows, load_older_dm_done-AreDmWindows,
  load_older_dm_failed-AreDmWindows, delete_local_dm_message-AreDmWindows,
}
use united.Dm.Valid.{
  IsDmValid, append_dm_message-IsDmValid, clear_dm_unread-IsDmValid, handle_dm_event-IsDmValid,
  windows-IsDmValid, load_dm_start_same, load_older_dm_start_same, load_older_dm_failed_same,
  load_older_dm_done_same, delete_local_dm_message_same, send_dm_message_done-none,
  send_dm_message_done-some,
}

pub data Step (s : DmSlice) : DmSlice → Type 0 where
  lists : (cs : List DmConversation) → Step s (load_conversations_done cs s)
  opens : (id : Option String) → Step s (set_active_dm_conversation id s)
  views : (active : Bool) → Step s (set_dm_view active s)
  load_starts : {t : DmSlice} (id : String) → load_dm_start id s ≡ some t → Step s t
  load_ends : (id : String) (r : DmHistory) → IsDmPage r → Step s (load_dm_done id r s)
  load_fails : (id : String) → Step s (load_dm_failed id s)
  load_older_starts :
      {t : DmSlice} {before : Option ℕ} (id : String)
      → load_older_dm_start id s ≡ some (t, before)
      → Step s t
  load_older_ends : (id : String) (r : DmHistory) → IsDmPage r → Step s (load_older_dm_done id r s)
  load_older_fails : {t : DmSlice} (id : String) → load_older_dm_failed id s ≡ some t → Step s t
  creates : (c : DmConversation) → Step s (create_conversation_done c s)
  sends :
      {t : DmSlice} (id : String) (answer : Option DecryptedDmMessage)
      → send_dm_message_done id answer s ≡ some t
      → Step s t
  deletes : (id message_id : String) → Step s (delete_local_dm_message id message_id s)
  dismisses : Step s (dismiss_encryption_banner s)
  checks :
      (pubkey : String) (available : Bool) → Step s (check_peer_key_status_done pubkey available s)
  clears : (id : String) → Step s (clear_dm_unread id s)
  event : (e : DmEvent) → Step s (handle_dm_event e s).0

pub data Reach (s : DmSlice) : DmSlice → Type 0 where
  start : Reach s s
  next : {t u : DmSlice} → Reach s t → Step t u → Reach s u

Step-IsDmValid : {s t : DmSlice} → Step s t → IsDmValid s → IsDmValid t
unfolding load_conversations_done set_active_dm_conversation set_dm_view create_conversation_done
    dismiss_encryption_banner check_peer_key_status_done load_dm_done load_dm_failed
Step-IsDmValid {s} (lists cs) v = record {
  windows = v.windows;
  recent = sort_conversations-IsRecentFirst cs;
  once = v.once;
}
Step-IsDmValid {s} (opens none) v = record { windows = v.windows; recent = v.recent; once = v.once }
Step-IsDmValid {s} (opens (some id)) v = elim (Bool-cases (str_eq id "")) [
  | inl e ↦
      rw (e, set_active_dm_conversation)
        (record { windows = v.windows; recent = v.recent; once = v.once })
  | inr e ↦
      rw (e, set_active_dm_conversation)
        (clear_dm_unread-IsDmValid (record s { active_dm_conversation_id = some id })
          (record { windows = v.windows; recent = v.recent; once = v.once }) id)
]
Step-IsDmValid {s} (views active) v = record {
  windows = v.windows;
  recent = v.recent;
  once = v.once;
}
Step-IsDmValid {s} (load_starts {t} id e) v =
    windows-IsDmValid s t (load_dm_start_same id s t e)
      (load_dm_start-AreDmWindows id s v.windows t e) v
Step-IsDmValid {s} (load_ends id r page) v = record {
  windows = load_dm_done-AreDmWindows id s v.windows r page;
  recent = v.recent;
  once = v.once;
}
Step-IsDmValid {s} (load_fails id) v = record {
  windows = load_dm_failed-AreDmWindows id s v.windows;
  recent = v.recent;
  once = v.once;
}
Step-IsDmValid {s} (load_older_starts {t} {before} id e) v =
    windows-IsDmValid s t (load_older_dm_start_same id s t before e)
      (load_older_dm_start-AreDmWindows id s v.windows t before e) v
Step-IsDmValid {s} (load_older_ends id r page) v =
    windows-IsDmValid s _ (load_older_dm_done_same id s r)
      (load_older_dm_done-AreDmWindows id s v.windows r page) v
Step-IsDmValid {s} (load_older_fails {t} id e) v =
    windows-IsDmValid s t (load_older_dm_failed_same id s t e)
      (load_older_dm_failed-AreDmWindows id s v.windows t e) v
Step-IsDmValid {s} (creates c) v = record {
  windows = v.windows;
  recent = sort_conversations-IsRecentFirst (c ∷ s.dm_conversations);
  once = v.once;
}
Step-IsDmValid {s} (sends {t} id none e) v = send_dm_message_done-none id s t e
Step-IsDmValid {s} (sends {t} id (some m) e) v =
    subst IsDmValid (send_dm_message_done-some id s m t e) (append_dm_message-IsDmValid s v id m)
Step-IsDmValid {s} (deletes id message_id) v =
    windows-IsDmValid s _ (delete_local_dm_message_same id s message_id)
      (delete_local_dm_message-AreDmWindows id s v.windows message_id) v
Step-IsDmValid {s} dismisses v = record { windows = v.windows; recent = v.recent; once = v.once }
Step-IsDmValid {s} (checks pubkey available) v = record {
  windows = v.windows;
  recent = v.recent;
  once = v.once;
}
Step-IsDmValid {s} (clears id) v = clear_dm_unread-IsDmValid s v id
Step-IsDmValid {s} (event e) v = handle_dm_event-IsDmValid e s v

-- In every state that the empty store reaches by requests, answers, failures and events in any order,
-- every window has at most 200 messages and no sequence number twice, the conversations stand with the
-- most recent first, and no conversation has two unread counts. The pages of the server are no longer
-- than asked for and have no sequence number twice.
pub Reach-IsDmValid : {s : DmSlice} → Reach empty_dm_slice s → IsDmValid s
unfolding lookup
Reach-IsDmValid start = record { windows = λ id c e. absurd (cc); recent = tt; once = tt }
Reach-IsDmValid (next r st) = Step-IsDmValid st (Reach-IsDmValid r)
