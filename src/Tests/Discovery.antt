-- ===== src/Tests/Discovery.antt =====
-- Runs of the reconnection to a peer.
use united.Prelude.{ℕ, ◌≡◌, ◌≤◌, refl, true, false, none, List, [], ◌∷◌, arith}
use united.Discovery.Reconnect.{ReconnectState, schedule_reconnect, try_reconnect}
use united.Discovery.Attempts.{fail_all, waited, try_reconnect-waited}

abbrev jitters : List ℕ
jitters = 10 ∷ 20 ∷ 30 ∷ 40 ∷ 50 ∷ 60 ∷ []

abbrev first : ReconnectState
first = (schedule_reconnect 5 (record { peer_id = "bob"; attempt = 0; timer = none })).0

try_reconnect-waited_example :
    ((try_reconnect false 0 (fail_all jitters first)).1 ≡ true)
    × (((try_reconnect false 0 (fail_all jitters first)).0.timer ≡ none)
        × ((91000 ≤ waited jitters first) × (waited jitters first ≤ 92400)))
try_reconnect-waited_example =
    try_reconnect-waited "bob" 5 0 jitters (omega arith)
      (omega arith, (omega arith, (omega arith, (omega arith, (omega arith, (omega arith, tt))))))
      refl
