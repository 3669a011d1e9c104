-- ===== src/Notify/Slice.antt =====
-- client/src/renderer/src/stores/notifications.ts: the mention counts and the preferences of channels.
-- `undefined` is `none`.
use united.Prelude.{ℕ, ◌+◌, String, Bool, false, [], Option, none, some}
use united.Prelude.Dict.{Dict, lookup, insert, erase}
use united.Notify.Center.{NotificationPrefs}

pub record NotificationsSlice : Type 0 where
  pub channel_mention_counts : Dict ℕ
  pub notification_prefs : Dict NotificationPrefs

unfoldable pub create_notifications_slice : NotificationsSlice
create_notifications_slice = record { channel_mention_counts = []; notification_prefs = [] }

abbrev pub or_else {ℓ} : {A : Type ℓ} → Option A → A → A
or_else none a = a
or_else (some b) a = b

unfoldable pub increment_mention_count : String → NotificationsSlice → NotificationsSlice
increment_mention_count channel_id s = record s {
  channel_mention_counts =
      insert channel_id (or_else (lookup channel_id s.channel_mention_counts) 0 + 1)
        s.channel_mention_counts;
}

unfoldable pub clear_mention_count : String → NotificationsSlice → NotificationsSlice
clear_mention_count channel_id s = record s {
  channel_mention_counts = erase channel_id s.channel_mention_counts;
}

-- The state, and the preferences that go to the main process.
unfoldable pub set_notification_pref :
    String → Option Bool → Option Bool → NotificationsSlice → NotificationsSlice × NotificationPrefs
set_notification_pref channel_id muted notify_all s =
    let current =
      or_else (lookup channel_id s.notification_prefs)
        (record { muted = false; notify_all = false }) in
    let updated : NotificationPrefs = record {
      muted = or_else muted current.muted;
      notify_all = or_else notify_all current.notify_all;
    } in
    (record s { notification_prefs = insert channel_id updated s.notification_prefs }, updated)
