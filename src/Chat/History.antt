-- ===== src/Chat/History.antt =====
-- What the windows of the chat store hold, as sequences (stores/messages.ts).
use mathlib.Core.List.{append_assoc, append-nil}
use united.Prelude.{
  ℕ, ◌+◌, ◌≡◌, ◌≤◌, ◌<◌, refl, sym, ap, ◌∙◌, String, false, inl, inr, List, [], ◌∷◌, ◌++◌, Option,
  arith, length, All, All-imp, Bool-cases, length-append,
}
use united.Prelude.Dict.{lookup-insert_self, insert-insert}
use united.Prelude.Sort.{
  sort_by, has_key, has_key-sort_by, unseen, IsDistinct, IsSorted, has_key-drop, has_key-take,
  has_key_middle, append-IsSorted, sort_by-All, sort_by-IsSorted, sort_by-IsDistinct,
  unseen-append-IsDistinct, unseen_below, length-sort_by,
}
use united.Prelude.Ends.{
  first_n, first_n-append_one, first_n-IsSorted, last_n, last_n-eq-drop, last_n-append,
  last_n_short,
}
use united.Chat.Message.{ChatMessage, ChatHistoryResponse}
use united.Chat.Slice.{
  ChannelMessages, MessagesSlice, max_messages_per_channel, sequence, or_empty, channel_of,
  with_channel, load_done, append_new, append_message, extend_older,
}

abbrev pub window_of : String → MessagesSlice → List ChatMessage
window_of id s = (or_empty (channel_of id s)).messages

-- Messages that arrive one after the other.
pub append_all : String → List ChatMessage → MessagesSlice → MessagesSlice
append_all id [] s = s
append_all id (m ∷ ms) s = append_all id ms (append_message id m s)

window-with_channel :
    (id : String) (c : ChannelMessages) (s : MessagesSlice)
    → window_of id (with_channel id c s) ≡ c.messages
window-with_channel id c s =
    ap (λ o. (or_empty o).messages) (lookup-insert_self id c s.channel_messages)

window-append_message :
    (id : String) (m : ChatMessage) (s : MessagesSlice)
    → has_key sequence (sequence m) (window_of id s) ≡ false
    → window_of id (append_message id m s)
      ≡ last_n max_messages_per_channel (window_of id s ++ m ∷ [])
unfolding append_message append_new
window-append_message id m s new =
    rw (new, append_message) (window-with_channel id (append_new m (or_empty (channel_of id s))) s)

has_key-last_n :
    (k n : ℕ) (ms : List ChatMessage)
    → has_key sequence k ms ≡ false
    → has_key sequence k (last_n n ms) ≡ false
has_key-last_n k n ms h = rw last_n-eq-drop (has_key-drop sequence k _ ms h)

append_all-last_n :
    (id : String) (ms all : List ChatMessage) (s : MessagesSlice)
    → window_of id s ≡ last_n max_messages_per_channel all
    → IsDistinct sequence (all ++ ms)
    → window_of id (append_all id ms s) ≡ last_n max_messages_per_channel (all ++ ms)
unfolding append_all
append_all-last_n id [] all s e d = rw append-nil e
append_all-last_n id (m ∷ ms) all s e d =
    let new =
      has_key-last_n (sequence m) max_messages_per_channel all
        (has_key_middle sequence all m ms d) in
    let step : window_of id (append_message id m s)
        ≡ last_n max_messages_per_channel (all ++ m ∷ []) =
      window-append_message id m s (rw e new)
      ∙ rw e (last_n-append max_messages_per_channel all (m ∷ [])) in
    let regroup = append_assoc all (m ∷ []) ms in
    rw regroup at
      (append_all-last_n id ms (all ++ m ∷ []) (append_message id m s) step (rw regroup d))

-- Messages that come in one by one leave the last 500 of what the window had and what came, where
-- the window has no more than 500 and no sequence number stands twice among them all.
pub window-append_all :
    (id : String) (ms : List ChatMessage) (s : MessagesSlice)
    → length (window_of id s) ≤ max_messages_per_channel
    → IsDistinct sequence (window_of id s ++ ms)
    → window_of id (append_all id ms s) ≡ last_n max_messages_per_channel (window_of id s ++ ms)
window-append_all id ms s h d =
    append_all-last_n id ms (window_of id s) s
      (sym (last_n_short max_messages_per_channel (window_of id s) h)) d

window-load_done :
    (id : String) (r : ChatHistoryResponse) (last_read : Option ℕ) (s : MessagesSlice)
    → window_of id (load_done id r last_read s) ≡ sort_by sequence r.messages
unfolding load_done
window-load_done id r last_read s = window-with_channel id _ s

load_done-replaces :
    (id : String) (m : ChatMessage) (r : ChatHistoryResponse) (last_read : Option ℕ)
    (s : MessagesSlice)
    → load_done id r last_read (append_message id m s) ≡ load_done id r last_read s
unfolding load_done append_message
load_done-replaces id m r last_read s =
    let c = or_empty (channel_of id s) in
    elim (Bool-cases (has_key sequence (sequence m) c.messages)) [
      | inl old ↦ rw old refl
      | inr new ↦ rw new (
          ap (λ d. record s { channel_messages = d })
            (insert-insert id _ (append_new m c) s.channel_messages))
    ]

-- A page of history replaces the window: the store is the same whether or not a message came in for
-- the channel while the page was on its way, and the window then has the sequence number of that
-- message exactly if the page has it, so that a message that the page does not have is lost.
pub load_done-append_message :
    (id : String) (m : ChatMessage) (r : ChatHistoryResponse) (last_read : Option ℕ)
    (s : MessagesSlice)
    → (load_done id r last_read (append_message id m s) ≡ load_done id r last_read s)
      × (has_key sequence
            (sequence m)
            (window_of id (load_done id r last_read (append_message id m s)))
          ≡ has_key sequence (sequence m) r.messages)
load_done-append_message id m r last_read s = (
  load_done-replaces id m r last_read s,
  ap (has_key sequence (sequence m)) (window-load_done id r last_read (append_message id m s))
      ∙ has_key-sort_by sequence (sequence m) r.messages,
)

-- An older page, all of whose messages lie before those of a sorted window, goes in front of it
-- in order; the first 500 of both remain, and the window is sorted.
pub extend_older-IsSorted :
    (n : ℕ) (r : ChatHistoryResponse) (c : ChannelMessages)
    → All (λ m. sequence m < n) r.messages
    → All (λ m. n ≤ sequence m) c.messages
    → IsSorted sequence c.messages
    → ((extend_older r c).messages
        ≡ first_n max_messages_per_channel (sort_by sequence r.messages ++ c.messages))
      × IsSorted sequence (extend_older r c).messages
unfolding extend_older
extend_older-IsSorted n r c before after s =
    let page = sort_by sequence r.messages in
    let fresh : unseen sequence c.messages page ≡ page =
      unseen_below sequence n page c.messages (sort_by-All sequence _ r.messages before) after in
    (
      rw fresh refl,
      rw fresh (
          first_n-IsSorted sequence max_messages_per_channel (page ++ c.messages) (
            append-IsSorted sequence n page c.messages (sort_by-IsSorted sequence r.messages) s
              (All-imp (λ m h. omega arith) page (sort_by-All sequence _ r.messages before))
              after)),
    )

-- Where an older page lies before a window, the page and the window without its newest message
-- have 500 messages or more, and neither has a sequence number twice, the newest message leaves
-- the window, and the newest position stays as it was.
pub extend_older-drops_newest :
    (n : ℕ) (r : ChatHistoryResponse) (c : ChannelMessages) (older : List ChatMessage)
    (newest : ChatMessage)
    → c.messages ≡ older ++ newest ∷ []
    → max_messages_per_channel ≤ length r.messages + length older
    → All (λ m. sequence m < n) r.messages
    → All (λ m. n ≤ sequence m) c.messages
    → IsDistinct sequence r.messages
    → IsDistinct sequence c.messages
    → (has_key sequence (sequence newest) (extend_older r c).messages ≡ false)
      × ((extend_older r c).newest_loaded ≡ c.newest_loaded)
unfolding extend_older
extend_older-drops_newest n r c older newest e full before after dr dc =
    let page = sort_by sequence r.messages in
    let fresh : unseen sequence c.messages page ≡ page =
      unseen_below sequence n page c.messages (sort_by-All sequence _ r.messages before) after in
    let regroup : page ++ c.messages ≡ (page ++ older) ++ newest ∷ [] =
      rw e (sym (append_assoc page older (newest ∷ []))) in
    let apart : IsDistinct sequence ((page ++ older) ++ newest ∷ []) =
      rw (← regroup, ← fresh)
        (unseen-append-IsDistinct sequence page c.messages
          (sort_by-IsDistinct sequence r.messages dr) dc) in
    let long : max_messages_per_channel ≤ length (page ++ older) =
      omega (arith, length-append page older, length-sort_by sequence r.messages) in
    (
      rw (fresh, regroup, first_n-append_one max_messages_per_channel (page ++ older) newest long)
          (has_key-take sequence (sequence newest) max_messages_per_channel (page ++ older)
            (has_key_middle sequence (page ++ older) newest [] apart)),
      refl,
    )
