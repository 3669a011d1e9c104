-- ===== src/Discovery/Reconnect.antt =====
-- client/src/main/p2p/discovery.ts: the reconnection to a peer that is gone. A chain of attempts is an
-- object that its timer refers to, also after the map has another for the peer; each has a number of its
-- own. Whether one of the peer's known addresses answers, and the random part of a delay, are arguments.
use united.Prelude.{
  ℕ, ◌+◌, ◌*◌, ◌^◌, min, leb, ◌==◌, String, Bool, true, false, List, [], ◌∷◌, ◌++◌, map, find,
  Option, none, some, if◌then◌else◌,
}
use united.Prelude.Dict.{Dict, lookup, insert, erase}

abbrev pub backoff_base_ms : ℕ
backoff_base_ms = 1000

abbrev pub backoff_max_ms : ℕ
backoff_max_ms = 30000

abbrev pub max_reconnect_before_directory : ℕ
max_reconnect_before_directory = 7

-- The jitter is `Math.random() * 200`.
unfoldable pub calculate_backoff : ℕ → ℕ → ℕ
calculate_backoff attempt jitter = min (backoff_base_ms * 2 ^ attempt) backoff_max_ms + jitter

-- `timer` is the delay of the timer that is set.
pub record ReconnectState : Type 0 where
  pub peer_id : String
  pub attempt : ℕ
  pub timer : Option ℕ

-- The next attempt, or `none` and a query of the directory in its place.
unfoldable pub schedule_reconnect : ℕ → ReconnectState → ReconnectState × Bool
schedule_reconnect jitter s =
    if leb max_reconnect_before_directory s.attempt
    then (record s { timer = none }, true)
    else (record s { timer = some (calculate_backoff s.attempt jitter) }, false)

-- The timer runs out: `answers` tells whether an address of the peer answers. The second part is
-- whether the directory is asked.
unfoldable pub try_reconnect : Bool → ℕ → ReconnectState → ReconnectState × Bool
try_reconnect answers jitter s =
    if answers
    then (record s { timer = none }, false)
    else schedule_reconnect jitter (record s { attempt = s.attempt + 1; timer = none })

-- `reconnectStates` by peer, and every object that is still referred to.
pub record Reconnection : Type 0 where
  pub reconnect_states : Dict ℕ
  pub objects : List (ℕ × ReconnectState)
  pub next : ℕ

unfoldable pub no_reconnection : Reconnection
no_reconnection = record { reconnect_states = []; objects = []; next = 0 }

abbrev pub write : ℕ → ReconnectState → List (ℕ × ReconnectState) → List (ℕ × ReconnectState)
write n s = map (λ (o : ℕ × ReconnectState). if o.0 == n then (n, s) else o)

-- A disconnected peer; `has_topics` tells whether this node has topics at all.
unfoldable pub on_peer_disconnect : String → Bool → ℕ → Reconnection → Reconnection
on_peer_disconnect peer_id has_topics jitter r =
    let s : ReconnectState = record { peer_id = peer_id; attempt = 0; timer = none } in
    if has_topics
    then record {
      reconnect_states = insert peer_id r.next r.reconnect_states;
      objects = r.objects ++ (r.next, (schedule_reconnect jitter s).0) ∷ [];
      next = r.next + 1;
    }
    else r

abbrev pub clear_timer : ReconnectState → ReconnectState
clear_timer s = record s { timer = none }

unfoldable pub on_peer_connect : String → Reconnection → Reconnection
on_peer_connect peer_id r = elim (lookup peer_id r.reconnect_states) [
  | none ↦ r
  | some n ↦ record r {
    reconnect_states = erase peer_id r.reconnect_states;
    objects =
        map (λ (o : ℕ × ReconnectState). if o.0 == n then (n, clear_timer o.1) else o) r.objects;
  }
]

-- The timer of the object `n` runs out.
unfoldable pub on_timer : ℕ → Bool → ℕ → Reconnection → Reconnection × Bool
on_timer n answers jitter r = elim (find (λ (o : ℕ × ReconnectState). o.0 == n) r.objects) [
  | none ↦ (r, false)
  | some (m, s) ↦
      let (t, asks) = try_reconnect answers jitter s in
      (
        record r {
          objects = write n t r.objects;
          reconnect_states =
              if asks then erase s.peer_id r.reconnect_states else r.reconnect_states;
        },
        asks,
      )
]

-- The timers of the objects in the map are cleared, and the map is emptied.
unfoldable pub clear_reconnection_state : Reconnection → Reconnection
clear_reconnection_state r = record r {
  reconnect_states = [];
  objects =
      map
        (λ (o : ℕ × ReconnectState).
          elim (find (λ (e : String × ℕ). e.1 == o.0) r.reconnect_states) [
            | none ↦ o
            | some e ↦ (o.0, clear_timer o.1)
          ])
        r.objects;
}
