-- ===== src/Tests/Channels.antt =====
-- Runs of the channels.
use united.Prelude.{false, none, some, [], ◌∷◌}
use united.Channels.Slice.{ChannelResponse, ChannelsSlice, created, handle_channel_event}
use united.Channels.Filed.{AreFiled, handle_channel_event-AreFiled}

abbrev lounge : ChannelResponse
lounge = record {
  id = "lounge";
  name = "lounge";
  channel_type = "voice";
  category_id = "home";
  position = 0;
  topic = none;
}

abbrev home : ChannelsSlice
home = record {
  categories_with_channels =
      record { category = record { id = "home"; name = "home"; position = 0 }; channels = [] } ∷ [];
  active_channel_id = none;
  channels_loading = false;
}

handle_channel_event-AreFiled_example :
    AreFiled (handle_channel_event (created (some lounge) none) home)
handle_channel_event-AreFiled_example =
    handle_channel_event-AreFiled (created (some lounge) none) home tt (tt, tt)
