-- ===== src/Dm/Slice.antt =====
-- The slice of client/src/renderer/src/stores/dm.ts: conversations with the most recent first, a window
-- of messages for each, and unread counts. A load is two operations, since the store changes while a
-- request is on its way; the answers of the main process are arguments. Times are milliseconds.
use united.Prelude.{
  ℕ, ◌+◌, String, str_eq, Bool, true, false, not, ◌||◌, List, [], ◌∷◌, ◌++◌, map, Option, none,
  some, length, keep, ltb, leb, if◌then◌else◌,
}
use united.Prelude.Dict.{Dict, lookup, insert, erase}
use united.Prelude.Sort.{sort_by, has_key, unseen}
use united.Prelude.Ends.{first_n, last_n}
use united.Dm.Types.{
  DmConversation, DecryptedDmMessage, DmHistory, max_dm_messages, ConversationMessages, DmSlice,
  empty_conversation_messages, dm_sequence, first_dm_sequence, last_dm_sequence, or_other,
}

-- A stable sort by `b.lastMessageAt - a.lastMessageAt`, one conversation at a time.
unfoldable pub insert_conversation : DmConversation → List DmConversation → List DmConversation
insert_conversation c [] = c ∷ []
insert_conversation c (d ∷ ds) =
    if leb d.last_message_at c.last_message_at then c ∷ d ∷ ds else d ∷ insert_conversation c ds

unfoldable pub sort_conversations : List DmConversation → List DmConversation
sort_conversations [] = []
sort_conversations (c ∷ cs) = insert_conversation c (sort_conversations cs)

abbrev pub conversation_of : String → DmSlice → Option ConversationMessages
conversation_of id s = lookup id s.dm_messages

abbrev pub or_empty_conversation : Option ConversationMessages → ConversationMessages
or_empty_conversation none = empty_conversation_messages
or_empty_conversation (some c) = c

abbrev pub with_conversation : String → ConversationMessages → DmSlice → DmSlice
with_conversation id c s = record s { dm_messages = insert id c s.dm_messages }

unfoldable pub load_conversations_done : List DmConversation → DmSlice → DmSlice
load_conversations_done conversations s = record s {
  dm_conversations = sort_conversations conversations;
  dm_conversations_loaded = true;
}

unfoldable pub clear_dm_unread : String → DmSlice → DmSlice
clear_dm_unread id s = record s { dm_unread_counts = erase id s.dm_unread_counts }

-- An id that is empty counts as none.
unfoldable pub set_active_dm_conversation : Option String → DmSlice → DmSlice
unfolding clear_dm_unread
set_active_dm_conversation none s = record s { active_dm_conversation_id = none }
set_active_dm_conversation (some id) s =
    let s' = record s { active_dm_conversation_id = some id } in
    if str_eq id "" then s' else clear_dm_unread id s'

unfoldable pub set_dm_view : Bool → DmSlice → DmSlice
set_dm_view active s = record s { dm_view = active }

abbrev is_loaded_or_loading : Option ConversationMessages → Bool
is_loaded_or_loading none = false
is_loaded_or_loading (some c) = ltb 0 (length c.messages) || c.loading

-- `none`: nothing is requested.
unfoldable pub load_dm_start : String → DmSlice → Option DmSlice
load_dm_start id s =
    let existing = conversation_of id s in
    if is_loaded_or_loading existing
    then none
    else some (with_conversation id (record (or_empty_conversation existing) { loading = true }) s)

unfoldable pub load_dm_done : String → DmHistory → DmSlice → DmSlice
load_dm_done id result s =
    let sorted = sort_by dm_sequence result.messages in
    with_conversation id
      (record {
        messages = sorted;
        oldest_loaded = first_dm_sequence sorted;
        newest_loaded = last_dm_sequence sorted;
        has_more_history = result.has_more;
        loading = false;
      })
      s

unfoldable pub load_dm_failed : String → DmSlice → DmSlice
load_dm_failed id s =
    with_conversation id (record (or_empty_conversation (conversation_of id s)) { loading = false })
      s

-- The new store, and the cursor of the request.
unfoldable pub load_older_dm_start : String → DmSlice → Option (DmSlice × Option ℕ)
load_older_dm_start id s = elim (conversation_of id s) [
  | none ↦ none
  | some c ↦
      if not c.has_more_history || c.loading
      then none
      else some (with_conversation id (record c { loading = true }) s, c.oldest_loaded)
]

unfoldable pub extend_older_dm : DmHistory → ConversationMessages → ConversationMessages
extend_older_dm result c =
    let sorted_new = sort_by dm_sequence result.messages in
    let trimmed =
      first_n max_dm_messages (unseen dm_sequence c.messages sorted_new ++ c.messages) in
    record c {
      messages = trimmed;
      oldest_loaded = or_other (first_dm_sequence trimmed) c.oldest_loaded;
      has_more_history = result.has_more;
      loading = false;
    }

unfoldable pub load_older_dm_done : String → DmHistory → DmSlice → DmSlice
load_older_dm_done id result s = elim (conversation_of id s) [
  | none ↦ s
  | some c ↦ with_conversation id (extend_older_dm result c) s
]

-- No action takes a window away, so a conversation whose older page failed has one.
unfoldable pub load_older_dm_failed : String → DmSlice → Option DmSlice
load_older_dm_failed id s = elim (conversation_of id s) [
  | none ↦ none
  | some c ↦ some (with_conversation id (record c { loading = false }) s)
]

unfoldable pub append_new_dm : DecryptedDmMessage → ConversationMessages → ConversationMessages
append_new_dm message c =
    let updated = c.messages ++ message ∷ [] in
    let trimmed = last_n max_dm_messages updated in
    record c {
      messages = trimmed;
      newest_loaded = some (dm_sequence message);
      oldest_loaded = or_other (first_dm_sequence trimmed) c.oldest_loaded;
      has_more_history = if ltb (length trimmed) (length updated) then true else c.has_more_history;
    }

abbrev pub touch_conversation : String → ℕ → DmConversation → DmConversation
touch_conversation id at c = if str_eq c.id id then record c { last_message_at = at } else c

unfoldable pub append_dm_message : String → DecryptedDmMessage → DmSlice → DmSlice
append_dm_message id message s =
    let current = or_empty_conversation (conversation_of id s) in
    if has_key dm_sequence (dm_sequence message) current.messages
    then s
    else record (with_conversation id (append_new_dm message current) s) {
      dm_conversations =
          sort_conversations (map (touch_conversation id message.timestamp) s.dm_conversations);
    }

unfoldable pub create_conversation_done : DmConversation → DmSlice → DmSlice
create_conversation_done conversation s = record s {
  dm_conversations = sort_conversations (conversation ∷ s.dm_conversations);
}

-- The answer is the message that was sent, or (`none`) an error, which is thrown.
unfoldable pub send_dm_message_done : String → Option DecryptedDmMessage → DmSlice → Option DmSlice
unfolding append_dm_message
send_dm_message_done id none s = none
send_dm_message_done id (some message) s = some (append_dm_message id message s)

unfoldable pub delete_local_dm_message : String → String → DmSlice → DmSlice
delete_local_dm_message id message_id s = elim (conversation_of id s) [
  | none ↦ s
  | some c ↦
      with_conversation id
        (record c { messages = keep (λ m. not (str_eq m.id message_id)) c.messages }) s
]

unfoldable pub dismiss_encryption_banner : DmSlice → DmSlice
dismiss_encryption_banner s = record s { dm_encryption_banner_dismissed = true }

unfoldable pub check_peer_key_status_done : String → Bool → DmSlice → DmSlice
check_peer_key_status_done pubkey available s = record s {
  dm_key_status = insert pubkey available s.dm_key_status;
}

-- `dmUnreadCounts[id] || 0`
abbrev pub unread_count : String → Dict ℕ → ℕ
unread_count id counts = elim (lookup id counts) [ none ↦ 0 | some n ↦ n ]

unfoldable pub increment_dm_unread : String → DmSlice → DmSlice
increment_dm_unread id s = record s {
  dm_unread_counts = insert id (unread_count id s.dm_unread_counts + 1) s.dm_unread_counts;
}

-- `Object.values(counts).reduce((sum, count) => sum + count, 0)`
abbrev pub sum_counts : Dict ℕ → ℕ
sum_counts [] = 0
sum_counts ((id, n) ∷ counts) = n + sum_counts counts

unfoldable pub get_total_dm_unread : DmSlice → ℕ
get_total_dm_unread s = sum_counts s.dm_unread_counts
