-- ===== src/Presence/Slice.antt =====
-- The slice of client/src/renderer/src/stores/presence.ts, with the timers of the window that it sets:
-- a timer that is pending has a number, and the channel and the user that it will take out. The numbers
-- are positive, so that the tests of the source on a number always hold.
use united.Prelude.{
  ℕ, suc, String, str_eq, Bool, not, List, [], ◌∷◌, ◌++◌, none, some, keep, find, ◌==◌,
}
use united.Prelude.Dict.{Dict, lookup, insert, erase}

pub data PresenceStatus : Type 0 where
  online away dnd offline : PresenceStatus

pub record PresenceInfo : Type 0 where
  pub status : PresenceStatus
  pub display_name : String

pub record TypingUser : Type 0 where
  pub user_id : String
  pub display_name : String
  pub timeout : ℕ

pub record Timer : Type 0 where
  pub number : ℕ
  pub channel_id : String
  pub user_id : String

pub record PresenceSlice : Type 0 where
  pub user_presence : Dict PresenceInfo
  pub typing_users : Dict (List TypingUser)
  pub timers : List Timer
  pub next_timer : ℕ

abbrev pub empty_presence_slice : PresenceSlice
empty_presence_slice = record { user_presence = []; typing_users = []; timers = []; next_timer = 1 }

unfoldable pub set_presence : String → PresenceStatus → String → PresenceSlice → PresenceSlice
set_presence pubkey status display_name s = record s {
  user_presence =
      insert pubkey (record { status = status; display_name = display_name }) s.user_presence;
}

unfoldable pub set_bulk_presence : List (String × PresenceInfo) → PresenceSlice → PresenceSlice
set_bulk_presence [] s = s
set_bulk_presence ((pubkey, info) ∷ updates) s =
    set_bulk_presence updates (record s { user_presence = insert pubkey info s.user_presence })

abbrev pub clear_timeout : ℕ → List Timer → List Timer
clear_timeout n = keep (λ t. not (t.number == n))

abbrev pub is_user : String → TypingUser → Bool
is_user user_id u = str_eq u.user_id user_id

abbrev pub without_user : String → List TypingUser → List TypingUser
without_user user_id = keep (λ u. not (is_user user_id u))

abbrev pub typing_in : String → PresenceSlice → List TypingUser
typing_in channel_id s = elim (lookup channel_id s.typing_users) [ none ↦ [] | some us ↦ us ]

-- The timers without that of the user, if they are in the list.
abbrev pub clear_timeout_of : String → List TypingUser → List Timer → List Timer
clear_timeout_of user_id us timers = elim (find (is_user user_id) us) [
  | none ↦ timers
  | some u ↦ clear_timeout u.timeout timers
]

unfoldable pub add_typing_user : String → String → String → PresenceSlice → PresenceSlice
add_typing_user channel_id user_id display_name s =
    let existing = typing_in channel_id s in
    let entry : TypingUser = record {
      user_id = user_id;
      display_name = display_name;
      timeout = s.next_timer;
    } in
    let timer : Timer = record {
      number = s.next_timer;
      channel_id = channel_id;
      user_id = user_id;
    } in
    record s {
      timers = clear_timeout_of user_id existing s.timers ++ timer ∷ [];
      next_timer = suc s.next_timer;
      typing_users = insert channel_id (without_user user_id existing ++ entry ∷ []) s.typing_users;
    }

abbrev pub store_typing : String → List TypingUser → Dict (List TypingUser) → Dict (List TypingUser)
store_typing channel_id [] d = erase channel_id d
store_typing channel_id (u ∷ us) d = insert channel_id (u ∷ us) d

unfoldable pub remove_typing_user : String → String → PresenceSlice → PresenceSlice
remove_typing_user channel_id user_id s = elim (lookup channel_id s.typing_users) [
  | none ↦ s
  | some us ↦ record s {
    timers = clear_timeout_of user_id us s.timers;
    typing_users = store_typing channel_id (without_user user_id us) s.typing_users;
  }
]

abbrev pub clear_timeouts : List TypingUser → List Timer → List Timer
clear_timeouts [] timers = timers
clear_timeouts (u ∷ us) timers = clear_timeouts us (clear_timeout u.timeout timers)

unfoldable pub clear_typing_for_channel : String → PresenceSlice → PresenceSlice
clear_typing_for_channel channel_id s = record s {
  timers = clear_timeouts (typing_in channel_id s) s.timers;
  typing_users = erase channel_id s.typing_users;
}

-- A pending timer runs out: it is no longer pending, and its callback runs.
unfoldable pub timer_fires : Timer → PresenceSlice → PresenceSlice
unfolding remove_typing_user
timer_fires t s =
    remove_typing_user t.channel_id t.user_id
      (record s { timers = clear_timeout t.number s.timers })
