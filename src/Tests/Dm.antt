-- ===== src/Tests/Dm.antt =====
-- Runs of the direct messages.
use united.Prelude.{ℕ, refl, false, [], ◌∷◌, none, some, arith}
use united.Dm.Types.{DecryptedDmMessage, DmHistory, DmSlice, empty_dm_slice}
use united.Dm.Slice.{load_dm_done}
use united.Dm.Events.{DmEvent, new, handle_dm_event}
use united.Prelude.Dict.{lookup}
use united.Dm.Unread.{HasKeysOnce}
use united.Dm.Valid.{IsDmValid}
use united.Dm.Reach.{start, next, load_ends, event, Reach-IsDmValid}

abbrev note : ℕ → DecryptedDmMessage
note n = record {
  id = "n";
  conversation_id = "ab";
  sender_pubkey = "bob";
  sender_display_name = "Bob";
  content = "hi";
  timestamp = n;
  server_sequence = n;
  decryption_failed = false;
}

abbrev history : DmHistory
history = record { messages = note 2 ∷ note 1 ∷ []; has_more = false }

abbrev new_note : DmEvent
new_note = record { type = new; message = some (note 3); conversation = none; user_pubkey = none }

Reach-IsDmValid_example :
    IsDmValid (handle_dm_event new_note (load_dm_done "ab" history empty_dm_slice)).0
Reach-IsDmValid_example = Reach-IsDmValid (
    next
      (next start
        (load_ends "ab" history (record { fits = omega arith; distinct = (refl, (refl, tt)) })))
      (event new_note))

abbrev unread : DmSlice
unread = record empty_dm_slice { dm_unread_counts = ("ab", 2) ∷ ("cd", 3) ∷ [] }

unread-HasKeysOnce : HasKeysOnce unread.dm_unread_counts
unfolding lookup
unread-HasKeysOnce = (refl, (refl, tt))
