-- ===== src/Dm/Events.antt =====
-- The listener of client/src/renderer/src/hooks/useDm.ts for the events that the main process pushes.
use united.Prelude.{String, str_eq, Bool, true, false, not, Option, none, some, any, if◌then◌else◌}
use united.Dm.Types.{DmConversation, DecryptedDmMessage, DmSlice}
use united.Dm.Slice.{append_dm_message, increment_dm_unread}

pub data DmEventType : Type 0 where
  new conversation_created key_rotated : DmEventType

pub record DmEvent : Type 0 where
  pub type : DmEventType
  pub message : Option DecryptedDmMessage
  pub conversation : Option DmConversation
  pub user_pubkey : Option String

abbrev pub is_active : String → DmSlice → Bool
is_active id s = elim s.active_dm_conversation_id [ none ↦ false | some active ↦ str_eq id active ]

-- A new message: the store, and whether the conversations are fetched again.
unfoldable pub on_new_dm : DecryptedDmMessage → DmSlice → DmSlice × Bool
on_new_dm msg s =
    let s₁ = append_dm_message msg.conversation_id msg s in
    let s₂ =
      if is_active msg.conversation_id s then s₁ else increment_dm_unread msg.conversation_id s₁ in
    (s₂, not (any (λ c. str_eq c.id msg.conversation_id) s₂.dm_conversations))

abbrev pub is_given : Option DmConversation → Bool
is_given none = false
is_given (some c) = true

unfoldable pub handle_dm_event : DmEvent → DmSlice → DmSlice × Bool
unfolding on_new_dm
handle_dm_event e s = elim e.type [
  | new ↦ elim e.message [ none ↦ (s, false) | some msg ↦ on_new_dm msg s ]
  | conversation_created ↦ (s, is_given e.conversation)
  | key_rotated ↦ (s, false)
]
