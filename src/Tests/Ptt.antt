-- ===== src/Tests/Ptt.antt =====
-- Runs of push to talk.
use united.Prelude.{◌≡◌, refl, true, false, List, [], ◌∷◌, ◌++◌, some}
use united.Ptt.Hook.{
  Callbacks, Ptt, initial, start_ptt, stop_ptt, chosen_key, KeyEvent, keydown, keyup, emit_all,
}
use united.Ptt.Keys.{held, states, changes, told}
use united.Ptt.Life.{Reach, start, last_or, start_ptt-changes, stop_ptt-told}

abbrev silent : Callbacks
silent = record { on_activate = false; on_deactivate = false }

-- The key 41 is chosen, the key 30 was set before.
abbrev fresh : Ptt
fresh = initial 30

fresh-Reach : Reach 30 fresh
fresh-Reach = start

-- The key 41 goes down and repeats its event while another key is pressed.
abbrev presses : List KeyEvent
presses = keydown 41 ∷ keydown 41 ∷ keydown 30 ∷ keyup 30 ∷ []

start_ptt-changes_example :
    ((emit_all presses (start_ptt (some 41) silent true fresh).0).0.ptt_active
      ≡ held (chosen_key (some 41) fresh) false presses)
    × (told (emit_all presses (start_ptt (some 41) silent true fresh).0).1
        ≡ changes false (states (chosen_key (some 41) fresh) false presses))
start_ptt-changes_example = start_ptt-changes (some 41) silent presses fresh-Reach

stop_ptt-told_example :
    let t = emit_all presses (start_ptt (some 41) silent true fresh).0 in
    let u = emit_all (keyup 41 ∷ []) (stop_ptt t.0) in
    (u.0.ptt_active ≡ false) × ((u.1 ≡ []) × (last_or false (told t.1 ++ told u.1) ≡ true))
stop_ptt-told_example = stop_ptt-told (some 41) silent presses (keyup 41 ∷ []) fresh-Reach refl
