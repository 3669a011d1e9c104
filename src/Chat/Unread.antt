-- ===== src/Chat/Unread.antt =====
-- Unread messages (`markChannelRead` and `getUnreadCount` of stores/messages.ts).
use united.Prelude.{
  ℕ, suc, ◌≡◌, ◌≤◌, ◌<◌, refl, ap, ◌∙◌, String, false, [], ◌∷◌, ◌++◌, some, arith, length, keep,
  ltb, All, All-imp, keep_none, keep-append, length-append, ==_false,
}
use united.Prelude.Dict.{lookup-insert_self}
use united.Prelude.Sort.{has_key}
use united.Prelude.Ends.{last_n, last_n_short}
use united.Chat.Message.{ChatMessage}
use united.Chat.Slice.{
  ChannelMessages, MessagesSlice, max_messages_per_channel, sequence, channel_of, with_channel,
  read_position, append_new, append_message, mark_channel_read, get_unread_count,
}

unread_of : ChannelMessages → ℕ
unread_of c = length (keep (λ m. ltb c.last_read_sequence (sequence m)) c.messages)

get_unread_count-some :
    (id : String) (s : MessagesSlice) (c : ChannelMessages)
    → channel_of id s ≡ some c
    → get_unread_count id s ≡ unread_of c
unfolding get_unread_count unread_of
get_unread_count-some id s c e = rw (e, get_unread_count) refl

-- In a channel that is there, where no message of the window lies behind the newest position and
-- that is above 0, nothing is unread once the channel is marked as read, and the server is told
-- that position.
pub get_unread_count-mark_channel_read :
    (id : String) (s : MessagesSlice) (c : ChannelMessages) (n : ℕ)
    → channel_of id s ≡ some c
    → c.newest_loaded ≡ some n
    → 0 < n
    → All (λ m. sequence m ≤ n) c.messages
    → (get_unread_count id (mark_channel_read id s).0 ≡ 0) × ((mark_channel_read id s).1 ≡ some n)
unfolding mark_channel_read unread_of
get_unread_count-mark_channel_read id s c n e newest h a =
    let position : read_position c ≡ some n = rw (newest, ==_false n 0 (λ z. omega arith)) refl in
    let c' : ChannelMessages = record c { last_read_sequence = n } in
    (
      rw (e, position, mark_channel_read)
          (get_unread_count-some id (with_channel id c' s) c'
              (lookup-insert_self id c' s.channel_messages)
            ∙ ap length (
                keep_none (λ m. ltb n (sequence m)) c.messages
                  (All-imp (λ m l. ground arith) c.messages a))),
      rw (e, position, mark_channel_read) refl,
    )

-- A message that the window does not have yet, behind the last-read position, is one more unread
-- message, where the window has room.
pub get_unread_count-append_message :
    (id : String) (m : ChatMessage) (s : MessagesSlice) (c : ChannelMessages)
    → channel_of id s ≡ some c
    → has_key sequence (sequence m) c.messages ≡ false
    → c.last_read_sequence < sequence m
    → length c.messages < max_messages_per_channel
    → get_unread_count id (append_message id m s) ≡ suc (get_unread_count id s)
unfolding append_message append_new unread_of
get_unread_count-append_message id m s c e new later room =
    let c' : ChannelMessages = append_new m c in
    let short : last_n max_messages_per_channel (c.messages ++ m ∷ []) ≡ c.messages ++ m ∷ [] =
      last_n_short max_messages_per_channel (c.messages ++ m ∷ [])
        (omega (arith, length-append c.messages (m ∷ []))) in
    let unread = λ (x : ChatMessage). ltb c.last_read_sequence (sequence x) in
    let one : length (keep unread (c.messages ++ m ∷ [])) ≡ suc (length (keep unread c.messages)) =
      ground (
        arith,
        keep-append unread c.messages (m ∷ []),
        length-append (keep unread c.messages) (m ∷ []),
      ) in
    rw (get_unread_count-some id s c e, e, append_message)
      (rw new (
        get_unread_count-some id (with_channel id c' s) c'
          (lookup-insert_self id c' s.channel_messages)
        ∙ rw short one))
