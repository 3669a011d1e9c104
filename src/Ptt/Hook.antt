-- ===== src/Ptt/Hook.antt =====
-- client/src/main/voice/ptt.ts: the global key of push to talk. The package uiohook-napi is what hands
-- key events to the handlers that are registered; whether its start throws is an argument. Each
-- operation returns the state and what it calls and broadcasts, in order.
use united.Prelude.{
  ℕ, ◌==◌, Bool, true, false, not, ◌&&◌, List, [], ◌∷◌, ◌++◌, Option, none, some, if◌then◌else◌,
}

-- Which of the optional callbacks were given.
pub record Callbacks : Type 0 where
  pub on_activate : Bool
  pub on_deactivate : Bool

pub data Output : Type 0 where
  activate : Output
  deactivate : Output
  broadcast : Bool → Output

-- `handlers` are those that the hook has for both kinds of event, and `own` tells whether the module
-- holds the last of them in `keydownHandler` and `keyupHandler`.
pub record Ptt : Type 0 where
  pub current_key : ℕ
  pub ptt_active : Bool
  pub running : Bool
  pub handlers : List Callbacks
  pub own : Bool

unfoldable pub initial : ℕ → Ptt
initial default_ptt_key = record {
  current_key = default_ptt_key;
  ptt_active = false;
  running = false;
  handlers = [];
  own = false;
}

-- `uIOhook.off` of the handler that was registered last.
abbrev pub drop_last : List Callbacks → List Callbacks
drop_last [] = []
drop_last (h ∷ []) = []
drop_last (h ∷ g ∷ gs) = h ∷ drop_last (g ∷ gs)

unfoldable pub stop_ptt : Ptt → Ptt
stop_ptt s =
    if s.running
    then record s {
      handlers = if s.own then drop_last s.handlers else s.handlers;
      own = false;
      ptt_active = false;
      running = false;
    }
    else s

-- `key: number = currentKey`
abbrev pub chosen_key : Option ℕ → Ptt → ℕ
chosen_key none s = s.current_key
chosen_key (some key) s = key

-- The second part is whether the call returned.
unfoldable pub start_ptt : Option ℕ → Callbacks → Bool → Ptt → Ptt × Bool
start_ptt key callbacks starts s =
    let stopped = stop_ptt s in
    (
      record stopped {
        current_key = chosen_key key s;
        ptt_active = false;
        handlers = stopped.handlers ++ callbacks ∷ [];
        own = true;
        running = if starts then true else stopped.running;
      },
      starts,
    )

unfoldable pub change_ptt_key : ℕ → Bool → Ptt → Ptt × Bool
change_ptt_key key starts s =
    let s' = record s { current_key = key } in
    if s.running
    then start_ptt (some key) (record { on_activate = false; on_deactivate = false }) starts
        (stop_ptt s')
    else (s', true)

pub data KeyEvent : Type 0 where
  keydown : ℕ → KeyEvent
  keyup : ℕ → KeyEvent

-- One handler and one event.
unfoldable pub handle : Callbacks → KeyEvent → Ptt → Ptt × List Output
handle h (keydown code) s =
    if code == s.current_key && not s.ptt_active
    then (
      record s { ptt_active = true },
      (if h.on_activate then activate ∷ [] else []) ++ broadcast true ∷ [],
    )
    else (s, [])
handle h (keyup code) s =
    if code == s.current_key && s.ptt_active
    then (
      record s { ptt_active = false },
      (if h.on_deactivate then deactivate ∷ [] else []) ++ broadcast false ∷ [],
    )
    else (s, [])

-- The handlers are called in the order in which they were registered.
unfoldable pub emit : List Callbacks → KeyEvent → Ptt → Ptt × List Output
emit [] e s = (s, [])
emit (h ∷ hs) e s =
    let (s1, out) = handle h e s in let (s2, more) = emit hs e s1 in (s2, out ++ more)

unfoldable pub emit_all : List KeyEvent → Ptt → Ptt × List Output
emit_all [] s = (s, [])
emit_all (e ∷ es) s =
    let (s1, out) = emit s.handlers e s in let (s2, more) = emit_all es s1 in (s2, out ++ more)
