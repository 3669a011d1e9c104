-- ===== src/Notify/Twice.antt =====
-- The first notification of a channel is shown twice (ipc/notifications.ts).
use united.Prelude.{
  ℕ, ◌+◌, ◌<◌, ◌==◌, ◌≡◌, refl, String, Bool, true, false, List, [], ◌∷◌, ◌++◌, find, keep, not,
  All, Option, none, some, arith,
}
use united.Prelude.Dict.{lookup, lookup-erase_self}
use united.Notify.Center.{
  Shown, Timer, Center, set_timer, holds_back, show_message_notification, on_timer,
}

-- The handles of the pending timers have been given out.
abbrev pub AreGiven : Center → Type 0
AreGiven c = All (λ (t : Timer). t.handle < c.next_handle) c.pending

find_new :
    (n : ℕ) (ts us : List Timer) (t : Timer)
    → All (λ (u : Timer). u.handle < n) ts
    → t.handle ≡ n
    → find (λ (u : Timer). u.handle == n) ((ts ++ t ∷ []) ++ us) ≡ some t
find_new n [] us t a e = ground (arith, e)
find_new n (u ∷ ts) us t (h, rest) e = ground (arith, h, find_new n ts us t rest e)

keep_new :
    (n : ℕ) (ts : List Timer) (t u : Timer)
    → All (λ (u : Timer). u.handle < n) ts
    → t.handle ≡ n
    → n < u.handle
    → keep (λ (u : Timer). not (u.handle == n)) ((ts ++ t ∷ []) ++ u ∷ []) ≡ ts ++ u ∷ []
keep_new n [] t u a e h = ground (arith, e, h)
keep_new n (v ∷ ts) t u (b, rest) e h = ground (arith, b, keep_new n ts t u rest e h)

abbrev pub waits : ℕ → ℕ → String → Option Shown → Timer
waits handle delay channel_id shows = record {
  handle = handle;
  delay = delay;
  channel_id = channel_id;
  shows = shows;
}

-- The state after the message: one timer that will display it, and the one of the window.
show_message_notification-first :
    (channel_id : String) (shown : Shown) (is_mention focused : Bool) (c : Center)
    → holds_back channel_id is_mention focused c ≡ false
    → lookup channel_id c.coalescing_timers ≡ none
    → show_message_notification channel_id shown is_mention focused true c
      ≡ (set_timer channel_id none 2000 (set_timer channel_id (some shown) 100 c), shown ∷ [])
unfolding show_message_notification
show_message_notification-first channel_id shown is_mention focused c free idle =
    rw (free, idle, show_message_notification) refl

-- A message that is not held back, in a channel that has no timer, is displayed at once and leaves two
-- timers pending: one of 100 ms, and one of 2 s for the window in which further notifications should be
-- held back. When the one of 100 ms runs out with nothing in between, the message is displayed again
-- and the channel has no timer in the map any more, while the one of 2 s still pends: the window has
-- ended. Notifications are supported, and no pending timer has the handle of one to come.
pub on_timer-show_message_notification :
    (channel_id : String) (shown : Shown) (is_mention focused : Bool) (c : Center)
    → AreGiven c
    → holds_back channel_id is_mention focused c ≡ false
    → lookup channel_id c.coalescing_timers ≡ none
    → let first = show_message_notification channel_id shown is_mention focused true c in
      let second = on_timer c.next_handle true first.0 in
      let soon = waits c.next_handle 100 channel_id (some shown) in
      let window = waits (c.next_handle + 1) 2000 channel_id none in
      (first.1 ≡ shown ∷ [])
      × ((first.0.pending ≡ (c.pending ++ soon ∷ []) ++ window ∷ [])
          × ((second.1 ≡ shown ∷ [])
              × ((lookup channel_id second.0.coalescing_timers ≡ none)
                  × (second.0.pending ≡ c.pending ++ window ∷ []))))
unfolding on_timer set_timer
on_timer-show_message_notification channel_id shown is_mention focused c given free idle =
    let first = show_message_notification-first channel_id shown is_mention focused c free idle in
    let soon = waits c.next_handle 100 channel_id (some shown) in
    let window = waits (c.next_handle + 1) 2000 channel_id none in
    let pends = find_new c.next_handle c.pending (window ∷ []) soon given refl in
    let left = keep_new c.next_handle c.pending soon window given refl (omega arith) in
    rw (first, on_timer, pends, first)
      (refl, (refl, (refl, (lookup-erase_self channel_id _, left))))
