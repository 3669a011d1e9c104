-- ===== src/Chat/Reach.antt =====
-- The chat store over time: requests and events in any order, and what holds in every state that is
-- reached (stores/messages.ts, hooks/useMessages.ts, hooks/usePrefetch.ts).
use united.Prelude.{
  ℕ, ◌≡◌, refl, String, Option-cases, Option, some, false, List, inl, inr, Bool-cases, str_eq,
}
use united.Prelude.Dict.{lookup}
use united.Chat.Message.{ChatMessage, ChatHistoryResponse}
use united.Chat.Slice.{
  MessagesSlice, empty_slice, default_page_size, load_start, load_failed, load_older_start,
  load_older_done, mark_channel_read, prefetch_messages,
}
use united.Chat.Events.{
  ChatEvent, ChatEventType, new, edited, deleted, reaction_added, reaction_removed, navigate,
  present, is_channel, reaction_of, on_new, on_edited, on_deleted, on_reaction_added,
  on_reaction_removed, dispatch, handle_chat_event,
}
use united.Chat.Entries.{
  Entries, no_entries, is_windowless, on_entry, load_older_failed, entry_loaded, clear_entry,
  target,
}
use united.Chat.Window.{
  IsValid, IsPage, update_message-IsValid, remove_message-IsValid, add_reaction-IsValid,
  remove_reaction-IsValid, append_message-IsValid,
}
use united.Chat.Loads.{
  prefetch_limit, load_start-IsValid, load_failed-IsValid, load_done-IsValid,
  prefetch_messages-IsValid, clear_channel_messages-IsValid, load_older_start-IsValid,
  load_older_done-IsValid, on_entry-IsValid, load_older_failed-IsValid, mark_channel_read-IsValid,
}

module _ (now id : String) (e : ChatEvent) (s : MessagesSlice) (v : IsValid s) where
  on_new-IsValid : IsValid (on_new id e s)
  unfolding on_new
  on_new-IsValid = elim (Option-cases e.message) [
    | inl missing ↦ rw (missing, on_new) v
    | inr (m, found) ↦ elim (Bool-cases (str_eq m.channel_id id)) [
      | inl viewed ↦ rw (found, viewed, on_new) (append_message-IsValid id s v m)
      | inr other ↦ rw (found, other, on_new) (append_message-IsValid m.channel_id s v m)
    ]
  ]

  on_edited-IsValid : IsValid (on_edited now id e s)
  unfolding on_edited
  on_edited-IsValid = elim (Option-cases (present e.message_id)) [
    | inl missing ↦ rw (missing, on_edited) v
    | inr (m, found) ↦ elim (Bool-cases (is_channel id e.channel_id)) [
      | inl viewed ↦ rw (found, viewed, on_edited) (update_message-IsValid id s v m _ refl)
      | inr other ↦ rw (found, other, on_edited) v
    ]
  ]

  on_deleted-IsValid : IsValid (on_deleted id e s)
  unfolding on_deleted
  on_deleted-IsValid = elim (Option-cases (present e.message_id)) [
    | inl missing ↦ rw (missing, on_deleted) v
    | inr (m, found) ↦ elim (Bool-cases (is_channel id e.channel_id)) [
      | inl viewed ↦ rw (found, viewed, on_deleted) (remove_message-IsValid id s v m)
      | inr other ↦ rw (found, other, on_deleted) v
    ]
  ]

  on_reaction_added-IsValid : IsValid (on_reaction_added id e s)
  unfolding on_reaction_added
  on_reaction_added-IsValid = elim (Option-cases (reaction_of e)) [
    | inl missing ↦ rw (missing, on_reaction_added) v
    | inr ((m, emoji, pubkey), found) ↦
        rw (found, on_reaction_added) (add_reaction-IsValid id s v m emoji pubkey)
  ]

  on_reaction_removed-IsValid : IsValid (on_reaction_removed id e s)
  unfolding on_reaction_removed
  on_reaction_removed-IsValid = elim (Option-cases (reaction_of e)) [
    | inl missing ↦ rw (missing, on_reaction_removed) v
    | inr ((m, emoji, pubkey), found) ↦
        rw (found, on_reaction_removed) (remove_reaction-IsValid id s v m emoji pubkey)
  ]

  dispatch-IsValid : (type : ChatEventType) → IsValid (dispatch type now id e s)
  unfolding dispatch
  dispatch-IsValid new = on_new-IsValid
  dispatch-IsValid edited = on_edited-IsValid
  dispatch-IsValid deleted = on_deleted-IsValid
  dispatch-IsValid reaction_added = on_reaction_added-IsValid
  dispatch-IsValid reaction_removed = on_reaction_removed-IsValid
  dispatch-IsValid navigate = v

  handle_chat_event-IsValid : IsValid (handle_chat_event now id e s)
  unfolding handle_chat_event
  handle_chat_event-IsValid = dispatch-IsValid e.type

-- What happens to the entries. To load an entry without messages throws, or returns, and is no step.
pub data Step (s : Entries) : Entries → Type 0 where
  load_starts :
      {t : MessagesSlice} (id : String)
      → is_windowless id s ≡ false
      → load_start id s.slice ≡ some t
      → Step s (record s { slice = t })
  load_ends :
      (id : String) (r : ChatHistoryResponse) (last_read : Option ℕ)
      → IsPage default_page_size r.messages
      → Step s (entry_loaded id r last_read s)
  load_fails : (id : String) → Step s (on_entry id (load_failed id) s)
  load_older_starts :
      {t : MessagesSlice} {before : Option ℕ} (id : String)
      → is_windowless id s ≡ false
      → load_older_start id s.slice ≡ some (t, before)
      → Step s (record s { slice = t })
  load_older_ends :
      (id : String) (r : ChatHistoryResponse)
      → IsPage default_page_size r.messages
      → Step s (on_entry id (load_older_done id r) s)
  load_older_fails : (id : String) → Step s (load_older_failed id s)
  event :
      (now id : String) (e : ChatEvent)
      → Step s (on_entry (target id e) (handle_chat_event now id e) s)
  read : (id : String) → Step s (on_entry id (λ x. (mark_channel_read id x).0) s)
  clear : (id : String) → Step s (clear_entry id s)
  prefetch :
      (id : String) (ms : List ChatMessage)
      → IsPage prefetch_limit ms
      → Step s (on_entry id (prefetch_messages id ms) s)

pub data Reach (s : Entries) : Entries → Type 0 where
  start : Reach s s
  next : {t u : Entries} → Reach s t → Step t u → Reach s u

-- Whatever the order of requests, answers and events, no window has more than 500 messages or the
-- same sequence number twice.
pub Step-IsValid : {s t : Entries} → Step s t → IsValid s.slice → IsValid t.slice
unfolding entry_loaded clear_entry
Step-IsValid {s} (load_starts {t} id w e) v = load_start-IsValid id s.slice v t e
Step-IsValid {s} (load_ends id r last_read page) v = load_done-IsValid id s.slice v r last_read page
Step-IsValid {s} (load_fails id) v =
    on_entry-IsValid id s v (load_failed id) (load_failed-IsValid id s.slice v)
Step-IsValid {s} (load_older_starts {t} {before} id w e) v =
    load_older_start-IsValid id s.slice v t before e
Step-IsValid {s} (load_older_ends id r page) v =
    on_entry-IsValid id s v (load_older_done id r) (load_older_done-IsValid id s.slice v r page)
Step-IsValid {s} (load_older_fails id) v = load_older_failed-IsValid id s v
Step-IsValid {s} (event now id e) v =
    on_entry-IsValid (target id e) s v (handle_chat_event now id e)
      (handle_chat_event-IsValid now id e s.slice v)
Step-IsValid {s} (read id) v =
    on_entry-IsValid id s v (λ x. (mark_channel_read id x).0)
      (mark_channel_read-IsValid id s.slice v)
Step-IsValid {s} (clear id) v = clear_channel_messages-IsValid id s.slice v
Step-IsValid {s} (prefetch id ms page) v =
    on_entry-IsValid id s v (prefetch_messages id ms)
      (prefetch_messages-IsValid id s.slice v ms page)

empty_slice-IsValid : IsValid empty_slice
unfolding lookup
empty_slice-IsValid id c e = cc

-- In every state that the empty store reaches by requests, answers, failures, events, reads, clears and
-- prefetches in any order, every window has at most 500 messages and no sequence number twice, and is
-- empty if it has no oldest position. The pages of the server are no longer than asked for and have no
-- sequence number twice. The entry without messages that a failed request for older messages leaves of a
-- channel that was cleared meanwhile is no window; the actions that throw at it change nothing.
pub Reach-IsValid : {s : Entries} → Reach no_entries s → IsValid s.slice
Reach-IsValid start = empty_slice-IsValid
Reach-IsValid (next r st) = Step-IsValid st (Reach-IsValid r)
