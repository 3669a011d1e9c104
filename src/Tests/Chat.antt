-- ===== src/Tests/Chat.antt =====
-- Runs of the chat store.
use united.Prelude.{
  ◌≡◌, refl, true, false, [], ◌∷◌, ◌++◌, none, some, arith, All-append, All-imp, ◌≤◌,
}
use united.Prelude.Sort.{IsSorted, has_key, sort_by, append-IsDistinct}
use united.Prelude.Ends.{first_n, last_n}
use united.Prelude.Dict.{lookup, insert, erase}
use united.Chat.Message.{ChatMessage, ChatHistoryResponse, react, unreact}
use united.Chat.Slice.{
  ChannelMessages, MessagesSlice, page_window, sequence, load_done, append_message, extend_older,
  clear_channel_messages, mark_channel_read, get_unread_count, add_reaction, remove_reaction,
}
use united.Chat.Events.{ChatEvent, new, handle_chat_event}
use united.Chat.Entries.{
  Entries, no_entries, is_windowless, on_entry, load_older_failed, entry_loaded, clear_entry,
  target,
}
use united.Chat.Window.{IsValid, IsPage}
use united.Chat.Reach.{start, next, load_ends, load_older_fails, clear, event, Reach-IsValid}
use united.Chat.History.{
  window_of, append_all, window-append_all, load_done-append_message, extend_older-IsSorted,
  extend_older-drops_newest,
}
use united.Chat.Unread.{get_unread_count-mark_channel_read}
use united.Chat.Tally.{IsTally}
use united.Chat.Reactions.{react-IsTally, remove_reaction-add_reaction}
use united.Tests.Numbered.{
  message, numbered, length-numbered, numbered-All-ge, numbered_below, numbered-IsDistinct,
}

abbrev page : ChatHistoryResponse
page = record { messages = message 2 ∷ message 1 ∷ []; has_more = true }

abbrev new_event : ChatEvent
new_event = record {
  type = new;
  message = some (message 3);
  message_id = none;
  channel_id = some "general";
  new_content = none;
  edit_timestamp = none;
  user_pubkey = none;
  emoji = none;
}

-- A page is loaded and the channel is cleared, a request for older messages fails, and then a message
-- comes in, first for the entry without messages and then, after a page, for a window.
abbrev failed_older : Entries
failed_older =
    load_older_failed "general"
      (clear_entry "general" (entry_loaded "general" page none no_entries))

abbrev missed : Entries
missed =
    on_entry (target "general" new_event) (handle_chat_event "now" "general" new_event) failed_older

fetched-IsPage : IsPage 50 page.messages
fetched-IsPage = record { fits = omega arith; distinct = (refl, (refl, tt)) }

missed-windowless : missed.windowless ≡ "general" ∷ []
unfolding load_older_failed clear_entry entry_loaded load_done clear_channel_messages target
    on_entry is_windowless lookup insert erase
missed-windowless = refl

Reach-IsValid_example :
    IsValid
      (on_entry
        (target "general" new_event)
        (handle_chat_event "now" "general" new_event)
        (entry_loaded "general" page none missed)).slice
Reach-IsValid_example = Reach-IsValid (
    next
      (next
        (next
          (next (next (next start (load_ends "general" page none fetched-IsPage)) (clear "general"))
            (load_older_fails "general"))
          (event "now" "general" new_event))
        (load_ends "general" page none fetched-IsPage))
      (event "now" "general" new_event))

abbrev window : ChannelMessages
window = page_window (message 1 ∷ message 2 ∷ []) true 1

abbrev one_channel : MessagesSlice
one_channel = record { channel_messages = ("general", window) ∷ []; prefetched_channels = [] }

window-append_all_example :
    window_of "general" (append_all "general" (message 3 ∷ message 4 ∷ []) one_channel)
    ≡ last_n 500 (window_of "general" one_channel ++ message 3 ∷ message 4 ∷ [])
unfolding lookup
window-append_all_example =
    window-append_all "general" (message 3 ∷ message 4 ∷ []) one_channel (omega arith)
      (refl, (refl, (refl, (refl, tt))))

load_done-append_message_example :
    (load_done "general" page none (append_message "general" (message 3) one_channel)
      ≡ load_done "general" page none one_channel)
    × (has_key sequence 3 (
          window_of "general"
            (load_done "general" page none (append_message "general" (message 3) one_channel)))
        ≡ has_key sequence 3 page.messages)
load_done-append_message_example =
    load_done-append_message "general" (message 3) page none one_channel

extend_older-IsSorted_example :
    ((extend_older page (page_window (message 5 ∷ message 6 ∷ []) true 0)).messages
      ≡ first_n 500 (sort_by sequence page.messages ++ message 5 ∷ message 6 ∷ []))
    × IsSorted sequence
        (extend_older page (page_window (message 5 ∷ message 6 ∷ []) true 0)).messages
extend_older-IsSorted_example =
    extend_older-IsSorted 3 page (page_window (message 5 ∷ message 6 ∷ []) true 0)
      (omega arith, (omega arith, tt)) (omega arith, (omega arith, tt))
      ((omega arith, tt), (tt, tt))

abbrev full : ChannelMessages
full = page_window (numbered 10 499 ++ message 509 ∷ []) true 0

extend_older-drops_newest_example :
    (has_key sequence 509 (extend_older page full).messages ≡ false)
    × ((extend_older page full).newest_loaded ≡ full.newest_loaded)
extend_older-drops_newest_example =
    extend_older-drops_newest 3 page full (numbered 10 499) (message 509) refl
      (omega (arith, length-numbered 10 499)) (omega arith, (omega arith, tt))
      (All-append (λ m. 3 ≤ sequence m) (numbered 10 499) (message 509 ∷ [])
        (All-imp (λ m h. omega (arith, h)) (numbered 10 499) (numbered-All-ge 10 499))
        (omega arith, tt))
      (refl, (refl, tt))
      (append-IsDistinct sequence (numbered 10 499) (message 509)
        (numbered_below 10 509 499 (omega arith)) (numbered-IsDistinct 10 499))

get_unread_count-mark_channel_read_example :
    (get_unread_count "general" (mark_channel_read "general" one_channel).0 ≡ 0)
    × ((mark_channel_read "general" one_channel).1 ≡ some 2)
unfolding lookup
get_unread_count-mark_channel_read_example =
    get_unread_count-mark_channel_read "general" one_channel window 2 refl refl (omega arith)
      (omega arith, (omega arith, tt))

abbrev liked : ChatMessage
liked = record (message 7) {
  reactions = (record { emoji = "like"; count = 1; user_pubkeys = "bob" ∷ [] }) ∷ [];
}

liked-IsTally : IsTally liked.reactions
liked-IsTally = (record { counted = refl; positive = omega arith; users = (refl, tt) }, refl, tt)

react-IsTally_example :
    IsTally (react "like" "alice" liked).reactions
    × IsTally (unreact "like" "alice" liked).reactions
react-IsTally_example = react-IsTally "like" "alice" liked liked-IsTally

abbrev liked_window : ChannelMessages
liked_window = page_window (liked ∷ []) true 1

abbrev liked_channel : MessagesSlice
liked_channel = record {
  channel_messages = ("general", liked_window) ∷ [];
  prefetched_channels = [];
}

remove_reaction-add_reaction_example :
    remove_reaction "general" "m" "like" "alice"
      (add_reaction "general" "m" "like" "alice" liked_channel)
    ≡ liked_channel
unfolding lookup
remove_reaction-add_reaction_example =
    remove_reaction-add_reaction "general" "m" "like" "alice" liked_channel liked_window refl
      (λ _. (liked-IsTally, refl), tt)
