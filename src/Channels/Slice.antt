-- ===== src/Channels/Slice.antt =====
-- client/src/renderer/src/stores/channels.ts: categories with their channels, and the active channel. The
-- answers of the server are arguments: `none` is a request that fails. An action that waits for the
-- server and then fetches is split where it waits. What is kept in the storage of the main process is
-- part of the result.
use united.Prelude.{
  ℕ, String, str_eq, Bool, true, false, not, List, [], ◌∷◌, ◌++◌, map, keep, Option, none, some,
  if◌then◌else◌,
}

pub record ChannelResponse : Type 0 where
  pub id : String
  pub name : String
  pub channel_type : String
  pub category_id : String
  pub position : ℕ
  pub topic : Option String

pub record CategoryResponse : Type 0 where
  pub id : String
  pub name : String
  pub position : ℕ

pub record CategoryWithChannels : Type 0 where
  pub category : CategoryResponse
  pub channels : List ChannelResponse

pub record ChannelsSlice : Type 0 where
  pub categories_with_channels : List CategoryWithChannels
  pub active_channel_id : Option String
  pub channels_loading : Bool

unfoldable pub create_channels_slice : ChannelsSlice
create_channels_slice = record {
  categories_with_channels = [];
  active_channel_id = none;
  channels_loading = false;
}

unfoldable pub fetch_channels_start : ChannelsSlice → ChannelsSlice
fetch_channels_start s = record s { channels_loading = true }

unfoldable pub fetch_channels_done :
    Option (List CategoryWithChannels) → ChannelsSlice → ChannelsSlice
fetch_channels_done none s = record s { channels_loading = false }
fetch_channels_done (some categories) s = record s {
  categories_with_channels = categories;
  channels_loading = false;
}

-- The state, and the id that is stored.
unfoldable pub set_active_channel : String → ChannelsSlice → ChannelsSlice × String
set_active_channel id s = (record s { active_channel_id = some id }, id)

-- `get().activeChannelId === id`, and then none is active.
unfoldable pub leave_deleted : String → ChannelsSlice → ChannelsSlice
leave_deleted id s = elim s.active_channel_id [
  | none ↦ s
  | some active ↦ if str_eq active id then record s { active_channel_id = none } else s
]

-- The actions that only ask the server (create, rename, reorder, and those of the categories), once it
-- has answered.
unfoldable pub changed_channels : Bool → ChannelsSlice → ChannelsSlice
changed_channels ok s = if ok then fetch_channels_start s else s

unfoldable pub delete_channel : String → Bool → ChannelsSlice → ChannelsSlice
delete_channel id ok s = if ok then fetch_channels_start (leave_deleted id s) else s

-- The event by its type, with the fields that its type is read for.
pub data ChannelEvent : Type 0 where
  created : Option ChannelResponse → Option CategoryResponse → ChannelEvent
  updated : Option ChannelResponse → ChannelEvent
  deleted : Option String → ChannelEvent
  reordered : ChannelEvent

unfoldable pub add_channel : ChannelResponse → CategoryWithChannels → CategoryWithChannels
add_channel channel c =
    if str_eq c.category.id channel.category_id
    then record c { channels = c.channels ++ channel ∷ [] }
    else c

unfoldable pub replace_channel : ChannelResponse → CategoryWithChannels → CategoryWithChannels
replace_channel channel c = record c {
  channels =
      map (λ (ch : ChannelResponse). if str_eq ch.id channel.id then channel else ch) c.channels;
}

unfoldable pub drop_channel : String → CategoryWithChannels → CategoryWithChannels
drop_channel id c = record c {
  channels = keep (λ (ch : ChannelResponse). not (str_eq ch.id id)) c.channels;
}

unfoldable pub handle_channel_event : ChannelEvent → ChannelsSlice → ChannelsSlice
handle_channel_event (created (some channel) category) s = record s {
  categories_with_channels = map (add_channel channel) s.categories_with_channels;
}
handle_channel_event (created none (some category)) s = record s {
  categories_with_channels =
      s.categories_with_channels ++ record { category = category; channels = [] } ∷ [];
}
handle_channel_event (created none none) s = s
handle_channel_event (updated (some channel)) s = record s {
  categories_with_channels = map (replace_channel channel) s.categories_with_channels;
}
handle_channel_event (updated none) s = s
handle_channel_event (deleted none) s = s
handle_channel_event (deleted (some id)) s =
    if str_eq id ""
    then s
    else leave_deleted id (record s {
      categories_with_channels = map (drop_channel id) (
          keep (λ (c : CategoryWithChannels). not (str_eq c.category.id id))
            s.categories_with_channels);
    })
handle_channel_event reordered s = fetch_channels_start s
