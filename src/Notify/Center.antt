-- ===== src/Notify/Center.antt =====
-- client/src/main/ipc/notifications.ts: what is shown, and the timers that hold notifications back. A
-- timer that is set stays pending until it runs out or is cleared; each has a number of its own, which
-- stands for its handle. Whether the window is focused and notifications are supported are arguments. A
-- click on a notification is not modelled.
use united.Prelude.{
  ℕ, ◌+◌, ◌==◌, String, str_eq, Bool, false, not, ◌&&◌, ◌||◌, List, [], ◌∷◌, ◌++◌, keep, find,
  Option, none, some, if◌then◌else◌,
}
use united.Prelude.Dict.{Dict, lookup, insert, erase}

pub record NotificationPrefs : Type 0 where
  pub muted : Bool
  pub notify_all : Bool

-- What a notification says: the title and the text.
pub record Shown : Type 0 where
  pub title : String
  pub body : String
  pub subtitle : String

-- A timer that is pending: when it runs out the channel is forgotten, and `shows` is displayed.
pub record Timer : Type 0 where
  pub handle : ℕ
  pub delay : ℕ
  pub channel_id : String
  pub shows : Option Shown

pub record Center : Type 0 where
  pub channel_prefs : Dict NotificationPrefs
  pub coalescing_timers : Dict ℕ
  pub active_view_channel_id : Option String
  pub pending : List Timer
  pub next_handle : ℕ

unfoldable pub new_center : Center
new_center = record {
  channel_prefs = [];
  coalescing_timers = [];
  active_view_channel_id = none;
  pending = [];
  next_handle = 0;
}

-- `coalescingTimers.set(channelId, setTimeout(…, delay))`
unfoldable pub set_timer : String → Option Shown → ℕ → Center → Center
set_timer channel_id shows delay c = record c {
  coalescing_timers = insert channel_id c.next_handle c.coalescing_timers;
  pending =
      c.pending
      ++ record { handle = c.next_handle; delay = delay; channel_id = channel_id; shows = shows }
        ∷ [];
  next_handle = c.next_handle + 1;
}

unfoldable pub clear_timer : ℕ → Center → Center
clear_timer handle c = record c {
  pending = keep (λ (t : Timer). not (t.handle == handle)) c.pending;
}

abbrev pub displayed : Option Shown → Bool → List Shown
displayed none supported = []
displayed (some shown) supported = if supported then shown ∷ [] else []

unfoldable pub is_muted : String → Center → Bool
is_muted channel_id c = elim (lookup channel_id c.channel_prefs) [
  | none ↦ false
  | some prefs ↦ prefs.muted
]

unfoldable pub notifies_all : String → Center → Bool
notifies_all channel_id c = elim (lookup channel_id c.channel_prefs) [
  | none ↦ false
  | some prefs ↦ prefs.notify_all
]

abbrev pub is_active : String → Center → Bool
is_active channel_id c = elim c.active_view_channel_id [
  | none ↦ false
  | some id ↦ str_eq id channel_id
]

-- The conditions under which a message is held back.
unfoldable pub holds_back : String → Bool → Bool → Center → Bool
holds_back channel_id is_mention focused c =
    is_muted channel_id c
    || ((not is_mention && not (notifies_all channel_id c)) || (focused && is_active channel_id c))

-- `shown` is the notification of the message.
unfoldable pub show_message_notification :
    String → Shown → Bool → Bool → Bool → Center → Center × List Shown
show_message_notification channel_id shown is_mention focused supported c =
    if holds_back channel_id is_mention focused c
    then (c, [])
    else elim (lookup channel_id c.coalescing_timers) as (λ t. Center × List Shown) [
      | some handle ↦ (set_timer channel_id (some shown) 100 (clear_timer handle c), [])
      | none ↦ (
        set_timer channel_id none 2000 (set_timer channel_id (some shown) 100 c),
        displayed (some shown) supported,
      )
    ]

-- A timer runs out.
unfoldable pub on_timer : ℕ → Bool → Center → Center × List Shown
on_timer handle supported c = elim (find (λ (t : Timer). t.handle == handle) c.pending) [
  | none ↦ (c, [])
  | some t ↦ (
    record c {
      pending = keep (λ (u : Timer). not (u.handle == handle)) c.pending;
      coalescing_timers = erase t.channel_id c.coalescing_timers;
    },
    displayed t.shows supported,
  )
]

unfoldable pub set_active_view_channel : Option String → Center → Center
set_active_view_channel channel_id c = record c { active_view_channel_id = channel_id }

unfoldable pub set_prefs : String → NotificationPrefs → Center → Center
set_prefs channel_id prefs c = record c { channel_prefs = insert channel_id prefs c.channel_prefs }

-- The handler of a notification that the renderer asks for.
unfoldable pub show : String → Shown → Bool → Bool → Center → Center × List Shown
show channel_id shown focused supported c =
    if not supported
    then (c, [])
    else if focused && is_active channel_id c
    then (c, [])
    else elim (lookup channel_id c.coalescing_timers) as (λ t. Center × List Shown) [
      | some handle ↦ (c, [])
      | none ↦ (set_timer channel_id none 2000 c, shown ∷ [])
    ]
