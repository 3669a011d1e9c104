-- ===== src/Chat/Slice.antt =====
-- The slice of client/src/renderer/src/stores/messages.ts: the windows of messages by channel.
-- A load is two operations, since the store changes while a request is on its way: `_start` up to the
-- request and, when it ends, `_done` or `_failed`. The answers of the server are arguments. What the
-- failure of a request for older messages does is in Chat/Entries.
use united.Prelude.{
  ℕ, String, str_eq, Bool, true, false, not, ◌||◌, List, [], ◌∷◌, ◌++◌, map, Option, none, some,
  length, get_last?, keep, any, ltb, ◌==◌, if◌then◌else◌,
}
use united.Prelude.Dict.{Dict, lookup, insert, erase}
use united.Prelude.Sort.{sort_by, has_key, unseen}
use united.Prelude.Ends.{first_n, last_n}
use united.Chat.Message.{
  ChatMessage, ChatHistoryResponse, MessageUpdates, given, merge_updates, react, unreact,
}

abbrev pub max_messages_per_channel : ℕ
max_messages_per_channel = 500

abbrev pub default_page_size : ℕ
default_page_size = 50

pub record ChannelMessages : Type 0 where
  pub messages : List ChatMessage
  pub oldest_loaded : Option ℕ
  pub newest_loaded : Option ℕ
  pub has_more_history : Bool
  pub last_read_sequence : ℕ
  pub loading : Bool

pub record MessagesSlice : Type 0 where
  pub channel_messages : Dict ChannelMessages
  pub prefetched_channels : List String

abbrev pub empty_channel_messages : ChannelMessages
empty_channel_messages = record {
  messages = [];
  oldest_loaded = none;
  newest_loaded = none;
  has_more_history = true;
  last_read_sequence = 0;
  loading = false;
}

abbrev pub empty_slice : MessagesSlice
empty_slice = record { channel_messages = []; prefetched_channels = [] }

abbrev pub sequence : ChatMessage → ℕ
sequence m = m.server_sequence

-- `xs.length > 0 ? xs[0].server_sequence : null`, and so for the last one.
abbrev pub first_sequence : List ChatMessage → Option ℕ
first_sequence [] = none
first_sequence (m ∷ ms) = some (sequence m)

abbrev pub last_sequence : List ChatMessage → Option ℕ
last_sequence ms = elim (get_last? ms) [ none ↦ none | some m ↦ some (sequence m) ]

abbrev pub or_else {ℓ} : {A : Type ℓ} → Option A → Option A → Option A
or_else none b = b
or_else (some a) b = some a

abbrev pub or_empty : Option ChannelMessages → ChannelMessages
or_empty none = empty_channel_messages
or_empty (some c) = c

abbrev pub channel_of : String → MessagesSlice → Option ChannelMessages
channel_of id s = lookup id s.channel_messages

abbrev pub with_channel : String → ChannelMessages → MessagesSlice → MessagesSlice
with_channel id c s = record s { channel_messages = insert id c s.channel_messages }

-- `existing && existing.messages.length > 0`
abbrev pub has_messages : Option ChannelMessages → Bool
has_messages none = false
has_messages (some c) = ltb 0 (length c.messages)

abbrev pub is_loading : Option ChannelMessages → Bool
is_loading none = false
is_loading (some c) = c.loading

-- `none`: the channel is loaded or loading already, and nothing is requested.
unfoldable pub load_start : String → MessagesSlice → Option MessagesSlice
load_start id s =
    let existing = channel_of id s in
    if has_messages existing
    then none
    else if is_loading existing
    then none
    else some (with_channel id (record (or_empty existing) { loading = true }) s)

-- The window that a page of history fills.
abbrev pub page_window : List ChatMessage → Bool → ℕ → ChannelMessages
page_window sorted more last_read = record {
  messages = sorted;
  oldest_loaded = first_sequence sorted;
  newest_loaded = last_sequence sorted;
  has_more_history = more;
  last_read_sequence = last_read;
  loading = false;
}

-- The last-read position is `none` where the second request fails.
unfoldable pub load_done : String → ChatHistoryResponse → Option ℕ → MessagesSlice → MessagesSlice
load_done id result last_read s =
    let sorted = sort_by sequence result.messages in
    with_channel id (page_window sorted result.has_more (given last_read 0)) s

unfoldable pub load_failed : String → MessagesSlice → MessagesSlice
load_failed id s = with_channel id (record (or_empty (channel_of id s)) { loading = false }) s

-- The new store and the cursor of the request; `none` where nothing is requested.
unfoldable pub load_older_start : String → MessagesSlice → Option (MessagesSlice × Option ℕ)
load_older_start id s = elim (channel_of id s) [
  | none ↦ none
  | some c ↦
      if not c.has_more_history || c.loading
      then none
      else some (with_channel id (record c { loading = true }) s, c.oldest_loaded)
]

-- `merged.length > MAX ? merged.slice(0, MAX) : merged`
abbrev pub trim_newest : List ChatMessage → List ChatMessage
trim_newest = first_n max_messages_per_channel

-- `updated.length > MAX ? updated.slice(updated.length - MAX) : updated`
abbrev pub trim_oldest : List ChatMessage → List ChatMessage
trim_oldest = last_n max_messages_per_channel

-- What an older page makes of a window.
unfoldable pub extend_older : ChatHistoryResponse → ChannelMessages → ChannelMessages
extend_older result c =
    let sorted_new = sort_by sequence result.messages in
    let trimmed = trim_newest (unseen sequence c.messages sorted_new ++ c.messages) in
    record c {
      messages = trimmed;
      oldest_loaded = or_else (first_sequence trimmed) c.oldest_loaded;
      has_more_history = result.has_more;
      loading = false;
    }

unfoldable pub load_older_done : String → ChatHistoryResponse → MessagesSlice → MessagesSlice
load_older_done id result s = elim (channel_of id s) [
  | none ↦ s
  | some c ↦ with_channel id (extend_older result c) s
]

-- A window with a message that it does not have yet.
unfoldable pub append_new : ChatMessage → ChannelMessages → ChannelMessages
append_new msg c =
    let updated = c.messages ++ msg ∷ [] in
    let trimmed = trim_oldest updated in
    record c {
      messages = trimmed;
      newest_loaded = some (sequence msg);
      oldest_loaded = or_else (first_sequence trimmed) c.oldest_loaded;
      has_more_history = if ltb (length trimmed) (length updated) then true else c.has_more_history;
    }

unfoldable pub append_message : String → ChatMessage → MessagesSlice → MessagesSlice
append_message id msg s =
    let current = or_empty (channel_of id s) in
    if has_key sequence (sequence msg) current.messages
    then s
    else with_channel id (append_new msg current) s

-- The operations that rewrite the messages of a channel that is there, and do nothing else.
abbrev pub on_messages :
    String → (List ChatMessage → List ChatMessage) → MessagesSlice → MessagesSlice
on_messages id f s = elim (channel_of id s) [
  | none ↦ s
  | some c ↦ with_channel id (record c { messages = f c.messages }) s
]

abbrev pub on_message : String → (ChatMessage → ChatMessage) → List ChatMessage → List ChatMessage
on_message message_id f = map (λ m. if str_eq m.id message_id then f m else m)

unfoldable pub update_message : String → String → MessageUpdates → MessagesSlice → MessagesSlice
update_message id message_id updates =
    on_messages id (on_message message_id (λ m. merge_updates m updates))

unfoldable pub remove_message : String → String → MessagesSlice → MessagesSlice
remove_message id message_id = on_messages id (keep (λ m. not (str_eq m.id message_id)))

unfoldable pub add_reaction : String → String → String → String → MessagesSlice → MessagesSlice
add_reaction id message_id emoji pubkey =
    on_messages id (on_message message_id (react emoji pubkey))

unfoldable pub remove_reaction : String → String → String → String → MessagesSlice → MessagesSlice
remove_reaction id message_id emoji pubkey =
    on_messages id (on_message message_id (unreact emoji pubkey))

-- A position that is `null`, or 0, counts as none (`!current.newestLoaded`).
abbrev pub read_position : ChannelMessages → Option ℕ
read_position c = elim c.newest_loaded [ none ↦ none | some n ↦ if n == 0 then none else some n ]

-- The new store, and the position that is sent to the server.
unfoldable pub mark_channel_read : String → MessagesSlice → MessagesSlice × Option ℕ
mark_channel_read id s = elim (channel_of id s) [
  | none ↦ (s, none)
  | some c ↦ elim (read_position c) [
    | none ↦ (s, none)
    | some newest ↦ (with_channel id (record c { last_read_sequence = newest }) s, some newest)
  ]
]

unfoldable pub get_unread_count : String → MessagesSlice → ℕ
get_unread_count id s = elim (channel_of id s) [
  | none ↦ 0
  | some c ↦ length (keep (λ m. ltb c.last_read_sequence (sequence m)) c.messages)
]

unfoldable pub clear_channel_messages : String → MessagesSlice → MessagesSlice
clear_channel_messages id s = record s { channel_messages = erase id s.channel_messages }

-- `new Set(channels).add(id)`
abbrev pub add_member : String → List String → List String
add_member id ids = if any (λ x. str_eq x id) ids then ids else ids ++ id ∷ []

unfoldable pub prefetch_messages : String → List ChatMessage → MessagesSlice → MessagesSlice
prefetch_messages id messages s =
    if has_messages (channel_of id s)
    then s
    else record (with_channel id (page_window (sort_by sequence messages) true 0) s) {
      prefetched_channels = add_member id s.prefetched_channels;
    }
