-- ===== src/Chat/Window.antt =====
-- The invariant of the windows of the chat store (stores/messages.ts).
use united.Prelude.{
  ℕ, ◌≤◌, ◌≡◌, refl, subst, String, str_eq, Bool, false, inl, inr, List, [], ◌∷◌, ◌++◌, Option,
  none, some, arith, length, keep, length-keep-le, length-map, Bool-cases, if◌then◌else◌,
}
use united.Prelude.Dict.{lookup-insert}
use united.Prelude.Sort.{
  sort_by, has_key, unseen, IsDistinct, sort_by-IsDistinct, keep-IsDistinct, append-IsDistinct,
  unseen-append-IsDistinct, length-sort_by,
}
use united.Prelude.Ends.{length-first_n-le, length-last_n-le, first_n-IsDistinct, last_n-IsDistinct}
use united.Chat.Message.{
  ChatMessage, ChatHistoryResponse, MessageUpdates, merge_updates, react, unreact,
}
use united.Chat.Slice.{
  ChannelMessages, MessagesSlice, max_messages_per_channel, sequence, empty_channel_messages,
  or_else, first_sequence, or_empty, channel_of, with_channel, page_window, on_message, on_messages,
  trim_oldest, trim_newest, append_new, append_message, update_message, remove_message,
  add_reaction, remove_reaction, extend_older,
}

-- At most 500 messages, each sequence number once, and an oldest position where there are messages.
pub record IsWindow (c : ChannelMessages) : Type 0 where
  pub bounded : length c.messages ≤ max_messages_per_channel
  pub distinct : IsDistinct sequence c.messages
  pub anchored : c.oldest_loaded ≡ none → c.messages ≡ []

abbrev pub IsValid : MessagesSlice → Type 0
IsValid s = (id : String) (c : ChannelMessages) → channel_of id s ≡ some c → IsWindow c

-- What the server promises of a page: no more than was asked for, and no sequence number twice.
pub record IsPage (n : ℕ) (ms : List ChatMessage) : Type 0 where
  pub fits : length ms ≤ n
  pub distinct : IsDistinct sequence ms

pub empty-IsWindow : IsWindow empty_channel_messages
empty-IsWindow = record { bounded = omega arith; distinct = tt; anchored = λ _. refl }

pub or_empty-IsWindow :
    (id : String) (s : MessagesSlice) → IsValid s → IsWindow (or_empty (channel_of id s))
or_empty-IsWindow id s v = go (channel_of id s) refl
  where
    go : (o : Option ChannelMessages) → channel_of id s ≡ o → IsWindow (or_empty o)
    go none e = empty-IsWindow
    go (some c) e = v id c e

pub with_channel-IsValid :
    (id : String) (c : ChannelMessages) (s : MessagesSlice)
    → IsWindow c
    → IsValid s
    → IsValid (with_channel id c s)
with_channel-IsValid id c s w v j d e = elim (Bool-cases (str_eq id j)) [
  | inl same ↦ subst IsWindow (ground (arith, lookup-insert id j c s.channel_messages)) w
  | inr other ↦ v j d (ground (arith, lookup-insert id j c s.channel_messages))
]

-- The oldest position is that of the first message, if there is one.
first_none : (ms : List ChatMessage) (o : Option ℕ) → or_else (first_sequence ms) o ≡ none → ms ≡ []
first_none [] o e = refl
first_none (m ∷ ms) o e = cc

-- A page makes a window.
pub page_window-IsWindow :
    (n : ℕ) (ms : List ChatMessage) (more : Bool) (last_read : ℕ)
    → n ≤ max_messages_per_channel
    → IsPage n ms
    → IsWindow (page_window (sort_by sequence ms) more last_read)
page_window-IsWindow n ms more last_read h page = record {
  bounded = omega (arith, page.fits, length-sort_by sequence ms);
  distinct = sort_by-IsDistinct sequence ms page.distinct;
  anchored = λ e. first_none (sort_by sequence ms) none (ground (arith, e));
}

pub append_new-IsWindow :
    (m : ChatMessage) (c : ChannelMessages)
    → has_key sequence (sequence m) c.messages ≡ false
    → IsWindow c
    → IsWindow (append_new m c)
unfolding append_new
append_new-IsWindow m c new w = record {
  bounded = length-last_n-le max_messages_per_channel (c.messages ++ m ∷ []);
  distinct =
      last_n-IsDistinct sequence max_messages_per_channel (c.messages ++ m ∷ [])
        (append-IsDistinct sequence c.messages m new w.distinct);
  anchored = first_none (trim_oldest (c.messages ++ m ∷ [])) c.oldest_loaded;
}

pub extend_older-IsWindow :
    (r : ChatHistoryResponse) (c : ChannelMessages)
    → IsDistinct sequence r.messages
    → IsWindow c
    → IsWindow (extend_older r c)
unfolding extend_older
extend_older-IsWindow r c d w =
    let merged = unseen sequence c.messages (sort_by sequence r.messages) ++ c.messages in
    record {
      bounded = length-first_n-le max_messages_per_channel merged;
      distinct = first_n-IsDistinct sequence max_messages_per_channel merged (
          unseen-append-IsDistinct sequence _ c.messages (sort_by-IsDistinct sequence r.messages d)
            w.distinct);
      anchored = first_none (trim_newest merged) c.oldest_loaded;
    }

-- A rewrite that keeps the sequence numbers keeps what is said of them.
module _ (message_id : String) (f : ChatMessage → ChatMessage)
    (same : (m : ChatMessage) → sequence (f m) ≡ sequence m) where
  has_key-on_message :
      (n : ℕ) (ms : List ChatMessage)
      → has_key sequence n (on_message message_id f ms) ≡ has_key sequence n ms
  has_key-on_message n [] = refl
  has_key-on_message n (m ∷ ms) = ground (arith, same m, has_key-on_message n ms)

  on_message-IsDistinct :
      (ms : List ChatMessage)
      → IsDistinct sequence ms
      → IsDistinct sequence (on_message message_id f ms)
  on_message-IsDistinct [] d = tt
  on_message-IsDistinct (m ∷ ms) d =
      (ground (arith, same m, has_key-on_message (sequence m) ms), on_message-IsDistinct ms d.1)

  on_message-IsWindow :
      (c : ChannelMessages)
      → IsWindow c
      → IsWindow (record c { messages = on_message message_id f c.messages })
  on_message-IsWindow c w = record {
    bounded =
        omega (
          arith,
          w.bounded,
          length-map (λ m. if str_eq m.id message_id then f m else m) c.messages,
        );
    distinct = on_message-IsDistinct c.messages w.distinct;
    anchored = λ e. rw (w.anchored e) refl;
  }

-- The operations on the messages of one channel.
on_messages-IsValid :
    (id : String) (f : List ChatMessage → List ChatMessage) (s : MessagesSlice)
    → ((c : ChannelMessages) → IsWindow c → IsWindow (record c { messages = f c.messages }))
    → IsValid s
    → IsValid (on_messages id f s)
on_messages-IsValid id f s keeps v = go (channel_of id s) refl
  where
    go :
        (o : Option ChannelMessages)
        → channel_of id s ≡ o
        → IsValid (elim o [
          | none ↦ s
          | some c ↦ with_channel id (record c { messages = f c.messages }) s
        ])
    go none e = v
    go (some c) e = with_channel-IsValid id _ s (keeps c (v id c e)) v

keep-IsWindow :
    (p : ChatMessage → Bool) (c : ChannelMessages)
    → IsWindow c
    → IsWindow (record c { messages = keep p c.messages })
keep-IsWindow p c w = record {
  bounded = omega (arith, w.bounded, length-keep-le p c.messages);
  distinct = keep-IsDistinct sequence p c.messages w.distinct;
  anchored = λ e. rw (w.anchored e) refl;
}

sequence-react :
    (emoji pubkey : String) (m : ChatMessage) → sequence (react emoji pubkey m) ≡ sequence m
unfolding react
sequence-react emoji pubkey m = ground arith

sequence-unreact :
    (emoji pubkey : String) (m : ChatMessage) → sequence (unreact emoji pubkey m) ≡ sequence m
unfolding unreact
sequence-unreact emoji pubkey m = refl

sequence-merge_updates :
    (u : MessageUpdates) (m : ChatMessage)
    → u.server_sequence ≡ none
    → sequence (merge_updates m u) ≡ sequence m
unfolding merge_updates
sequence-merge_updates u m e = rw e refl

module _ (id : String) (s : MessagesSlice) (v : IsValid s) where
  pub append_message-IsValid : (m : ChatMessage) → IsValid (append_message id m s)
  unfolding append_message
  append_message-IsValid m =
      let c = or_empty (channel_of id s) in
      elim (Bool-cases (has_key sequence (sequence m) c.messages)) [
        | inl old ↦ rw old v
        | inr new ↦
            rw new (
              with_channel-IsValid id _ s (append_new-IsWindow m c new (or_empty-IsWindow id s v))
                v)
      ]

  pub update_message-IsValid :
      (message_id : String) (u : MessageUpdates)
      → u.server_sequence ≡ none
      → IsValid (update_message id message_id u s)
  unfolding update_message
  update_message-IsValid message_id u e =
      on_messages-IsValid id _ s
        (on_message-IsWindow message_id (λ m. merge_updates m u)
          (λ m. sequence-merge_updates u m e))
        v

  pub remove_message-IsValid : (message_id : String) → IsValid (remove_message id message_id s)
  unfolding remove_message
  remove_message-IsValid message_id = on_messages-IsValid id _ s (keep-IsWindow _) v

  pub add_reaction-IsValid :
      (message_id emoji pubkey : String) → IsValid (add_reaction id message_id emoji pubkey s)
  unfolding add_reaction
  add_reaction-IsValid message_id emoji pubkey =
      on_messages-IsValid id _ s
        (on_message-IsWindow message_id (react emoji pubkey) (sequence-react emoji pubkey)) v

  pub remove_reaction-IsValid :
      (message_id emoji pubkey : String) → IsValid (remove_reaction id message_id emoji pubkey s)
  unfolding remove_reaction
  remove_reaction-IsValid message_id emoji pubkey =
      on_messages-IsValid id _ s
        (on_message-IsWindow message_id (unreact emoji pubkey) (sequence-unreact emoji pubkey)) v
