-- ===== src/Tests/Notify.antt =====
-- Runs of the notifications.
use united.Prelude.{◌≡◌, refl, true, false, none, some, [], ◌∷◌, ◌++◌, ◌+◌}
use united.Prelude.Dict.{lookup}
use united.Notify.Center.{
  Shown, new_center, is_muted, notifies_all, holds_back, show_message_notification, on_timer,
}
use united.Notify.Twice.{waits, on_timer-show_message_notification}

abbrev hello : Shown
hello = record { title = "ann in #lounge"; body = "hello"; subtitle = "home" }

mention-free : holds_back "lounge" true false new_center ≡ false
unfolding holds_back is_muted notifies_all new_center lookup
mention-free = refl

on_timer-show_message_notification_example :
    let first = show_message_notification "lounge" hello true false true new_center in
    let second = on_timer 0 true first.0 in
    let soon = waits 0 100 "lounge" (some hello) in
    let window = waits (0 + 1) 2000 "lounge" none in
    (first.1 ≡ hello ∷ [])
    × ((first.0.pending ≡ ([] ++ soon ∷ []) ++ window ∷ [])
        × ((second.1 ≡ hello ∷ [])
            × ((lookup "lounge" second.0.coalescing_timers ≡ none)
                × (second.0.pending ≡ [] ++ window ∷ []))))
unfolding new_center lookup
on_timer-show_message_notification_example =
    on_timer-show_message_notification "lounge" hello true false new_center tt mention-free refl
