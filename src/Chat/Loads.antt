-- ===== src/Chat/Loads.antt =====
-- The requests of the chat store, one by one, and the invariant of its windows (stores/messages.ts).
use united.Prelude.{
  ℕ, ◌≡◌, subst, String, Option-cases, Option, some, List, arith, inl, inr, Bool, true, false,
  Bool-cases,
}
use united.Prelude.Dict.{lookup-erase}
use united.Chat.Message.{ChatMessage, ChatHistoryResponse}
use united.Chat.Slice.{
  ChannelMessages, MessagesSlice, channel_of, or_empty, with_channel, has_messages,
  default_page_size, load_start, load_done, load_failed, load_older_start, load_older_done,
  mark_channel_read, clear_channel_messages, prefetch_messages, read_position,
}
use united.Chat.Entries.{Entries, is_windowless, on_entry, load_older_failed}
use united.Chat.Window.{
  IsWindow, IsValid, IsPage, or_empty-IsWindow, with_channel-IsValid, page_window-IsWindow,
  extend_older-IsWindow,
}

-- usePrefetch.ts asks for so many messages.
abbrev pub prefetch_limit : ℕ
prefetch_limit = 20

-- A change of the other fields of a window.
same_messages-IsWindow :
    (c : ChannelMessages) (last_read : ℕ) (loading : Bool)
    → IsWindow c
    → IsWindow (record c { last_read_sequence = last_read; loading = loading })
same_messages-IsWindow c last_read loading w = record {
  bounded = w.bounded;
  distinct = w.distinct;
  anchored = w.anchored;
}

module _ (id : String) (s : MessagesSlice) (v : IsValid s) where
  pub load_start-IsValid : (t : MessagesSlice) → load_start id s ≡ some t → IsValid t
  unfolding load_start
  load_start-IsValid t e =
      let c = or_empty (channel_of id s) in
      subst IsValid {x = with_channel id (record c { loading = true }) s} {y = t} (ground arith) (
        with_channel-IsValid id _ s
          (same_messages-IsWindow c c.last_read_sequence true (or_empty-IsWindow id s v)) v)

  pub load_failed-IsValid : IsValid (load_failed id s)
  unfolding load_failed
  load_failed-IsValid =
      with_channel-IsValid id _ s
        (same_messages-IsWindow _ (or_empty (channel_of id s)).last_read_sequence false
          (or_empty-IsWindow id s v))
        v

  pub load_done-IsValid :
      (r : ChatHistoryResponse) (last_read : Option ℕ)
      → IsPage default_page_size r.messages
      → IsValid (load_done id r last_read s)
  unfolding load_done
  load_done-IsValid r last_read page =
      with_channel-IsValid id _ s
        (page_window-IsWindow default_page_size r.messages _ _ (omega arith) page) v

  pub prefetch_messages-IsValid :
      (ms : List ChatMessage) → IsPage prefetch_limit ms → IsValid (prefetch_messages id ms s)
  unfolding prefetch_messages
  prefetch_messages-IsValid ms page = elim (Bool-cases (has_messages (channel_of id s))) [
    | inl loaded ↦ rw loaded v
    | inr missing ↦ rw missing (
        with_channel-IsValid id _ s
          (page_window-IsWindow prefetch_limit ms true 0 (omega arith) page) v)
  ]

  pub clear_channel_messages-IsValid : IsValid (clear_channel_messages id s)
  unfolding clear_channel_messages
  clear_channel_messages-IsValid j c e =
      v j c (ground (arith, lookup-erase id j s.channel_messages))

-- The operations on a channel that may be missing, by cases on it.
module _ (id : String) (s : MessagesSlice) (v : IsValid s) where
  pub load_older_start-IsValid :
      (t : MessagesSlice) (before : Option ℕ) → load_older_start id s ≡ some (t, before) → IsValid t
  unfolding load_older_start
  load_older_start-IsValid t before e = elim (Option-cases (channel_of id s)) [
    | inl missing ↦ absurd (ground arith)
    | inr (c, found) ↦
        subst IsValid {x = with_channel id (record c { loading = true }) s} {y = t} (ground arith) (
          with_channel-IsValid id _ s
            (same_messages-IsWindow c c.last_read_sequence true (v id c found)) v)
  ]

  pub load_older_done-IsValid :
      (r : ChatHistoryResponse)
      → IsPage default_page_size r.messages
      → IsValid (load_older_done id r s)
  unfolding load_older_done
  load_older_done-IsValid r page = elim (Option-cases (channel_of id s)) [
    | inl missing ↦ rw (missing, load_older_done) v
    | inr (c, found) ↦
        rw (found, load_older_done)
          (with_channel-IsValid id _ s (extend_older-IsWindow r c page.distinct (v id c found)) v)
  ]

  pub mark_channel_read-IsValid : IsValid (mark_channel_read id s).0
  unfolding mark_channel_read
  mark_channel_read-IsValid = elim (Option-cases (channel_of id s)) [
    | inl missing ↦ rw (missing, mark_channel_read) v
    | inr (c, found) ↦ elim (Option-cases (read_position c)) [
      | inl unread ↦ rw (found, unread, mark_channel_read) v
      | inr (n, position) ↦
          rw (found, position, mark_channel_read)
            (with_channel-IsValid id _ s (same_messages-IsWindow c n c.loading (v id c found)) v)
    ]
  ]

-- The operations on the entries, by what they do to the windows.
module _ (id : String) (s : Entries) (v : IsValid s.slice) where
  pub on_entry-IsValid :
      (f : MessagesSlice → MessagesSlice) → IsValid (f s.slice) → IsValid (on_entry id f s).slice
  unfolding on_entry
  on_entry-IsValid f done = elim (Bool-cases (is_windowless id s)) [
    | inl e ↦ rw (on_entry, e) v
    | inr e ↦ rw (on_entry, e) done
  ]

  pub load_older_failed-IsValid : IsValid (load_older_failed id s).slice
  unfolding load_older_failed
  load_older_failed-IsValid = elim (Option-cases (channel_of id s.slice)) [
    | inl missing ↦ rw (load_older_failed, missing) v
    | inr (c, found) ↦
        rw (load_older_failed, found)
          (with_channel-IsValid id _ s.slice
            (same_messages-IsWindow c c.last_read_sequence false (v id c found)) v)
  ]
