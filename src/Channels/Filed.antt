-- ===== src/Channels/Filed.antt =====
-- Channels stand in their own categories (stores/channels.ts).
use united.Prelude.{
  ◌≡◌, subst, sym, String, str_eq, eq_iff, true, List, [], ◌∷◌, map, All, All-append, All-keep, any,
  none, some, inl, inr, Bool-cases, if◌then◌else◌, arith,
}
use united.Channels.Slice.{
  ChannelResponse, CategoryWithChannels, ChannelsSlice, ChannelEvent, created, updated, deleted,
  reordered, add_channel, replace_channel, drop_channel, leave_deleted, fetch_channels_start,
  handle_channel_event,
}

-- Each channel stands in the category that it names.
abbrev pub IsFiled : CategoryWithChannels → Type 0
IsFiled c = All (λ (ch : ChannelResponse). ch.category_id ≡ c.category.id) c.channels

abbrev pub AreFiled : ChannelsSlice → Type 0
AreFiled s = All IsFiled s.categories_with_channels

-- An updated channel names the category that it stands in.
abbrev pub Stays : ChannelEvent → ChannelsSlice → Type 0
Stays (updated (some channel)) s =
    All
      (λ (c : CategoryWithChannels).
        any (λ (ch : ChannelResponse). str_eq ch.id channel.id) c.channels ≡ true
        → channel.category_id ≡ c.category.id)
      s.categories_with_channels
Stays e s = Unit

add_channel-IsFiled :
    (channel : ChannelResponse) (c : CategoryWithChannels)
    → IsFiled c
    → IsFiled (add_channel channel c)
unfolding add_channel
add_channel-IsFiled channel c f = elim (Bool-cases (str_eq c.category.id channel.category_id)) [
  | inl e ↦ rw e (
      All-append _ c.channels (channel ∷ []) f
        (ground (arith, eq_iff c.category.id channel.category_id), tt))
  | inr e ↦ rw e f
]

replaced-IsFiled :
    (channel : ChannelResponse) (id : String) (chs : List ChannelResponse)
    → All (λ (ch : ChannelResponse). ch.category_id ≡ id) chs
    → (any (λ (ch : ChannelResponse). str_eq ch.id channel.id) chs ≡ true
        → channel.category_id ≡ id)
    → All
        (λ (ch : ChannelResponse). ch.category_id ≡ id)
        (map (λ (ch : ChannelResponse). if str_eq ch.id channel.id then channel else ch) chs)
replaced-IsFiled channel id [] a h = tt
replaced-IsFiled channel id (ch ∷ chs) (own, rest) h =
    (ground (arith, own, h), replaced-IsFiled channel id chs rest (λ e. h (ground (arith, e))))

All-map :
    (P Q : CategoryWithChannels → Type 0) (f : CategoryWithChannels → CategoryWithChannels)
    (cs : List CategoryWithChannels)
    → ((c : CategoryWithChannels) → P c → Q (f c))
    → All P cs
    → All Q (map f cs)
All-map P Q f [] h a = tt
All-map P Q f (c ∷ cs) h (own, rest) = (h c own, All-map P Q f cs h rest)

leave_deleted-AreFiled :
    (id : String) (s : ChannelsSlice) → AreFiled s → AreFiled (leave_deleted id s)
unfolding leave_deleted
leave_deleted-AreFiled id s f =
    let same : (leave_deleted id s).categories_with_channels ≡ s.categories_with_channels =
      ground arith in
    subst (λ (cs : List CategoryWithChannels). All IsFiled cs) (sym same) f

map-replace_channel :
    (channel : ChannelResponse) (cs : List CategoryWithChannels)
    → All IsFiled cs
    → All
        (λ (c : CategoryWithChannels).
          any (λ (ch : ChannelResponse). str_eq ch.id channel.id) c.channels ≡ true
          → channel.category_id ≡ c.category.id)
        cs
    → All IsFiled (map (replace_channel channel) cs)
unfolding replace_channel
map-replace_channel channel [] f h = tt
map-replace_channel channel (c ∷ cs) (own, rest) (here, later) = (
  replaced-IsFiled channel c.category.id c.channels own here,
  map-replace_channel channel cs rest later,
)

-- Every event keeps the channels in the categories that they name, if an updated channel still names
-- the category that it stands in.
pub handle_channel_event-AreFiled :
    (e : ChannelEvent) (s : ChannelsSlice)
    → Stays e s
    → AreFiled s
    → AreFiled (handle_channel_event e s)
unfolding handle_channel_event drop_channel fetch_channels_start
handle_channel_event-AreFiled (created (some channel) category) s h f =
    All-map IsFiled IsFiled _ s.categories_with_channels (add_channel-IsFiled channel) f
handle_channel_event-AreFiled (created none (some category)) s h f =
    All-append IsFiled s.categories_with_channels _ f (tt, tt)
handle_channel_event-AreFiled (created none none) s h f = f
handle_channel_event-AreFiled (updated (some channel)) s h f =
    map-replace_channel channel s.categories_with_channels f h
handle_channel_event-AreFiled (updated none) s h f = f
handle_channel_event-AreFiled (deleted none) s h f = f
handle_channel_event-AreFiled (deleted (some id)) s h f = elim (Bool-cases (str_eq id "")) [
  | inl e ↦ rw e f
  | inr e ↦ rw e (
      leave_deleted-AreFiled id _ (
        All-map IsFiled IsFiled _ _
          (λ (c : CategoryWithChannels) (own : IsFiled c). All-keep _ _ c.channels own)
          (All-keep IsFiled _ s.categories_with_channels f)))
]
handle_channel_event-AreFiled reordered s h f = f
