-- ===== src/Tests/Presence.antt =====
-- Runs of the presence slice.
use united.Presence.Slice.{PresenceSlice, Timer, empty_presence_slice, add_typing_user, timer_fires}
use united.Presence.Typing.{AreTypingLists, types, fires, start, next, Reach-AreTypingLists}

abbrev two_typing : PresenceSlice
two_typing =
    add_typing_user "general" "bob" "Bob"
      (add_typing_user "general" "alice" "Alice" empty_presence_slice)

abbrev of_alice : Timer
of_alice = record { number = 1; channel_id = "general"; user_id = "alice" }

-- Two users type, and the timer of the first one runs out.
Reach-AreTypingLists_example : AreTypingLists (timer_fires of_alice two_typing).typing_users
Reach-AreTypingLists_example = Reach-AreTypingLists (
    next (next (next start (types "general" "alice" "Alice")) (types "general" "bob" "Bob"))
      (fires of_alice))
