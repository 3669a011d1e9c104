-- ===== src/Dm/Types.antt =====
-- The state of client/src/renderer/src/stores/dm.ts, with the types of shared/types/ipc-bridge.ts. Times
-- are milliseconds.
use united.Prelude.{ℕ, String, Bool, true, false, List, [], ◌∷◌, Option, none, some, get_last?}
use united.Prelude.Dict.{Dict}

pub record DmConversation : Type 0 where
  pub id : String
  pub participant_a_pubkey : String
  pub participant_b_pubkey : String
  pub participant_a_display_name : String
  pub participant_b_display_name : String
  pub created_at : ℕ
  pub last_message_at : ℕ

pub record DecryptedDmMessage : Type 0 where
  pub id : String
  pub conversation_id : String
  pub sender_pubkey : String
  pub sender_display_name : String
  pub content : String
  pub timestamp : ℕ
  pub server_sequence : ℕ
  pub decryption_failed : Bool

-- The answer of `dm.fetchHistory`.
pub record DmHistory : Type 0 where
  pub messages : List DecryptedDmMessage
  pub has_more : Bool

abbrev pub max_dm_messages : ℕ
max_dm_messages = 200

abbrev pub default_dm_page_size : ℕ
default_dm_page_size = 50

pub record ConversationMessages : Type 0 where
  pub messages : List DecryptedDmMessage
  pub oldest_loaded : Option ℕ
  pub newest_loaded : Option ℕ
  pub has_more_history : Bool
  pub loading : Bool

pub record DmSlice : Type 0 where
  pub dm_conversations : List DmConversation
  pub dm_messages : Dict ConversationMessages
  pub active_dm_conversation_id : Option String
  pub dm_unread_counts : Dict ℕ
  pub dm_view : Bool
  pub dm_encryption_banner_dismissed : Bool
  pub dm_key_status : Dict Bool
  pub dm_conversations_loaded : Bool

abbrev pub empty_conversation_messages : ConversationMessages
empty_conversation_messages = record {
  messages = [];
  oldest_loaded = none;
  newest_loaded = none;
  has_more_history = true;
  loading = false;
}

abbrev pub empty_dm_slice : DmSlice
empty_dm_slice = record {
  dm_conversations = [];
  dm_messages = [];
  active_dm_conversation_id = none;
  dm_unread_counts = [];
  dm_view = false;
  dm_encryption_banner_dismissed = false;
  dm_key_status = [];
  dm_conversations_loaded = false;
}

abbrev pub dm_sequence : DecryptedDmMessage → ℕ
dm_sequence m = m.server_sequence

abbrev pub first_dm_sequence : List DecryptedDmMessage → Option ℕ
first_dm_sequence [] = none
first_dm_sequence (m ∷ ms) = some (dm_sequence m)

abbrev pub last_dm_sequence : List DecryptedDmMessage → Option ℕ
last_dm_sequence ms = elim (get_last? ms) [ none ↦ none | some m ↦ some (dm_sequence m) ]

abbrev pub or_other {ℓ} : {A : Type ℓ} → Option A → Option A → Option A
or_other none b = b
or_other (some a) b = some a
