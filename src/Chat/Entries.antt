-- ===== src/Chat/Entries.antt =====
-- The entries of `channelMessages` that are no windows (stores/messages.ts). A request for older messages
-- that fails stores `{ ...undefined, loading: false }` where the channel was cleared meanwhile: an object
-- without messages. Every other action then throws at `messages`, or returns, and leaves the entry as it
-- is, but for a page of history, which replaces it, and another clear.
use united.Prelude.{
  ℕ, String, str_eq, Bool, false, not, List, [], Option, none, some, any, keep, if◌then◌else◌,
}
use united.Chat.Message.{ChatHistoryResponse}
use united.Chat.Slice.{
  MessagesSlice, empty_slice, channel_of, with_channel, add_member, load_done,
  clear_channel_messages,
}
use united.Chat.Events.{ChatEvent, ChatEventType, new}

-- The windows, and the channels whose entry has no messages.
pub record Entries : Type 0 where
  pub slice : MessagesSlice
  pub windowless : List String

abbrev pub no_entries : Entries
no_entries = record { slice = empty_slice; windowless = [] }

unfoldable pub is_windowless : String → Entries → Bool
is_windowless id s = any (λ x. str_eq x id) s.windowless

abbrev pub without : String → List String → List String
without id = keep (λ x. not (str_eq x id))

-- An action on a channel that leaves an entry without messages as it is.
unfoldable pub on_entry : String → (MessagesSlice → MessagesSlice) → Entries → Entries
on_entry id f s = if is_windowless id s then s else record s { slice = f s.slice }

unfoldable pub load_older_failed : String → Entries → Entries
load_older_failed id s = elim (channel_of id s.slice) [
  | none ↦ record s { windowless = add_member id s.windowless }
  | some c ↦ record s { slice = with_channel id (record c { loading = false }) s.slice }
]

unfoldable pub entry_loaded : String → ChatHistoryResponse → Option ℕ → Entries → Entries
entry_loaded id r last_read s = record {
  slice = load_done id r last_read s.slice;
  windowless = without id s.windowless;
}

unfoldable pub clear_entry : String → Entries → Entries
clear_entry id s = record {
  slice = clear_channel_messages id s.slice;
  windowless = without id s.windowless;
}

-- The channel that an event changes: that of a new message, and else the one that is viewed.
unfoldable pub target : String → ChatEvent → String
target id e = new_target e.type
  where
    new_target : ChatEventType → String
    new_target new = elim e.message [ none ↦ id | some m ↦ m.channel_id ]
    new_target other = id
