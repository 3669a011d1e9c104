-- ===== src/Chat/Events.antt =====
-- The chat events of client/src/renderer/src/hooks/useMessages.ts: what the listener of a viewed
-- channel does to the store with each event that the main process pushes.
use united.Prelude.{String, str_eq, Bool, false, Option, none, some, if◌then◌else◌}
use united.Chat.Message.{ChatMessage, MessageUpdates}
use united.Chat.Slice.{
  MessagesSlice, append_message, update_message, remove_message, add_reaction, remove_reaction,
}

pub data ChatEventType : Type 0 where
  new edited deleted reaction_added reaction_removed navigate : ChatEventType

pub record ChatEvent : Type 0 where
  pub type : ChatEventType
  pub message : Option ChatMessage
  pub message_id : Option String
  pub channel_id : Option String
  pub new_content : Option String
  pub edit_timestamp : Option String
  pub user_pubkey : Option String
  pub emoji : Option String

-- A text that is missing or empty counts as false.
abbrev pub present : Option String → Option String
present none = none
present (some t) = if str_eq t "" then none else some t

abbrev pub with_default : Option String → String → String
with_default none d = d
with_default (some t) d = t

-- `event.channelId === channelId`
abbrev pub is_channel : String → Option String → Bool
is_channel id none = false
is_channel id (some other) = str_eq other id

-- The updates of an edit: its new content, and when it was made.
abbrev pub edit_updates : String → String → MessageUpdates
edit_updates content edited_at = record {
  id = none;
  channel_id = none;
  sender_pubkey = none;
  sender_display_name = none;
  content = some content;
  timestamp = none;
  server_sequence = none;
  reply_to_id = none;
  reply_to_preview = none;
  edited_at = some (some edited_at);
  reactions = none;
  block_refs = none;
}

unfoldable pub on_new : String → ChatEvent → MessagesSlice → MessagesSlice
on_new id e s = elim e.message [
  | none ↦ s
  | some m ↦
      if str_eq m.channel_id id then append_message id m s else append_message m.channel_id m s
]

-- `now` is `new Date().toISOString()`.
unfoldable pub on_edited : String → String → ChatEvent → MessagesSlice → MessagesSlice
on_edited now id e s = elim (present e.message_id) [
  | none ↦ s
  | some message_id ↦
      if is_channel id e.channel_id
      then update_message id message_id
          (edit_updates (with_default e.new_content "") (with_default e.edit_timestamp now)) s
      else s
]

unfoldable pub on_deleted : String → ChatEvent → MessagesSlice → MessagesSlice
on_deleted id e s = elim (present e.message_id) [
  | none ↦ s
  | some message_id ↦ if is_channel id e.channel_id then remove_message id message_id s else s
]

-- The message, the emoji and the user of a reaction, where the event has all three.
abbrev pub reaction_of : ChatEvent → Option (String × String × String)
reaction_of e = elim (present e.message_id) [
  | none ↦ none
  | some message_id ↦ elim (present e.emoji) [
    | none ↦ none
    | some emoji ↦ elim (present e.user_pubkey) [
      | none ↦ none
      | some pubkey ↦ some (message_id, emoji, pubkey)
    ]
  ]
]

unfoldable pub on_reaction_added : String → ChatEvent → MessagesSlice → MessagesSlice
on_reaction_added id e s = elim (reaction_of e) [
  | none ↦ s
  | some (message_id, emoji, pubkey) ↦ add_reaction id message_id emoji pubkey s
]

unfoldable pub on_reaction_removed : String → ChatEvent → MessagesSlice → MessagesSlice
on_reaction_removed id e s = elim (reaction_of e) [
  | none ↦ s
  | some (message_id, emoji, pubkey) ↦ remove_reaction id message_id emoji pubkey s
]

unfoldable pub dispatch :
    ChatEventType → String → String → ChatEvent → MessagesSlice → MessagesSlice
dispatch new now id e s = on_new id e s
dispatch edited now id e s = on_edited now id e s
dispatch deleted now id e s = on_deleted id e s
dispatch reaction_added now id e s = on_reaction_added id e s
dispatch reaction_removed now id e s = on_reaction_removed id e s
dispatch navigate now id e s = s

-- The listener of the channel `id`.
unfoldable pub handle_chat_event : String → String → ChatEvent → MessagesSlice → MessagesSlice
unfolding dispatch on_new on_edited on_deleted on_reaction_added on_reaction_removed
handle_chat_event now id e s = dispatch e.type now id e s
