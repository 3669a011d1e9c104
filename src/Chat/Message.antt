-- ===== src/Chat/Message.antt =====
-- The messages of shared/types/ipc-bridge.ts, and what client/src/renderer/src/stores/messages.ts
-- does to one message: the merge of an edit, and the two changes of its reactions.
use united.Prelude.{
  ℕ, ◌+◌, String, str_eq, Bool, not, List, [], ◌∷◌, ◌++◌, map, Option, none, some, length, keep,
  any, find, ltb, if◌then◌else◌,
}

pub record ReactionSummary : Type 0 where
  pub emoji : String
  pub count : ℕ
  pub user_pubkeys : List String

pub record BlockRefData : Type 0 where
  pub hash : String
  pub size : ℕ
  pub mime_type : String
  pub width : ℕ
  pub height : ℕ
  pub micro_thumbnail : Option String
  pub blurhash : Option String
  pub filename : String

pub record ChatMessage : Type 0 where
  pub id : String
  pub channel_id : String
  pub sender_pubkey : String
  pub sender_display_name : String
  pub content : String
  pub timestamp : String
  pub server_sequence : ℕ
  pub reply_to_id : Option String
  pub reply_to_preview : Option String
  pub edited_at : Option String
  pub reactions : List ReactionSummary
  pub block_refs : Option (List BlockRefData)

pub record ChatHistoryResponse : Type 0 where
  pub messages : List ChatMessage
  pub has_more : Bool

-- `Partial<ChatMessage>`: `none` is a field that the object does not have.
pub record MessageUpdates : Type 0 where
  pub id : Option String
  pub channel_id : Option String
  pub sender_pubkey : Option String
  pub sender_display_name : Option String
  pub content : Option String
  pub timestamp : Option String
  pub server_sequence : Option ℕ
  pub reply_to_id : Option (Option String)
  pub reply_to_preview : Option (Option String)
  pub edited_at : Option (Option String)
  pub reactions : Option (List ReactionSummary)
  pub block_refs : Option (Option (List BlockRefData))

-- One field of `{ ...m, ...updates }`.
abbrev pub given {ℓ} : {A : Type ℓ} → Option A → A → A
given none old = old
given (some new) old = new

unfoldable pub merge_updates : ChatMessage → MessageUpdates → ChatMessage
merge_updates m u = record {
  id = given u.id m.id;
  channel_id = given u.channel_id m.channel_id;
  sender_pubkey = given u.sender_pubkey m.sender_pubkey;
  sender_display_name = given u.sender_display_name m.sender_display_name;
  content = given u.content m.content;
  timestamp = given u.timestamp m.timestamp;
  server_sequence = given u.server_sequence m.server_sequence;
  reply_to_id = given u.reply_to_id m.reply_to_id;
  reply_to_preview = given u.reply_to_preview m.reply_to_preview;
  edited_at = given u.edited_at m.edited_at;
  reactions = given u.reactions m.reactions;
  block_refs = given u.block_refs m.block_refs;
}

-- `pubkeys.includes(pubkey)`
abbrev pub includes : String → List String → Bool
includes pubkey = any (λ pk. str_eq pk pubkey)

abbrev pub add_user : String → ReactionSummary → ReactionSummary
add_user pubkey r = record r { count = r.count + 1; user_pubkeys = r.user_pubkeys ++ pubkey ∷ [] }

-- The body of `addReaction` for the message that was reacted to.
unfoldable pub react : String → String → ChatMessage → ChatMessage
react emoji pubkey m = elim (find (λ r. str_eq r.emoji emoji) m.reactions) [
  | some existing ↦ if includes pubkey existing.user_pubkeys then m else record m {
    reactions = map (λ r. if str_eq r.emoji emoji then add_user pubkey r else r) m.reactions;
  }
  | none ↦ record m {
    reactions =
        m.reactions ++ (record { emoji = emoji; count = 1; user_pubkeys = pubkey ∷ [] }) ∷ [];
  }
]

abbrev pub drop_user : String → ReactionSummary → ReactionSummary
drop_user pubkey r =
    let users = keep (λ pk. not (str_eq pk pubkey)) r.user_pubkeys in
    record r { count = length users; user_pubkeys = users }

-- The body of `removeReaction` for the message that lost a reaction.
unfoldable pub unreact : String → String → ChatMessage → ChatMessage
unreact emoji pubkey m = record m {
  reactions =
      keep (λ r. ltb 0 r.count)
        (map (λ r. if str_eq r.emoji emoji then drop_user pubkey r else r) m.reactions);
}
