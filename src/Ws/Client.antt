-- ===== src/Ws/Client.antt =====
-- client/src/main/ws/client.ts and shared/types/ws-protocol.ts: the WebSocket client. What the system
-- does is an argument: whether the constructor `WebSocket` succeeds, and the random part of a delay.
-- Each operation returns the state and what it emits, in order. Delays are whole milliseconds, as a
-- timer counts them. Listeners are not modelled.
use united.Prelude.{
  ℕ, ◌+◌, ◌*◌, ◌^◌, ◌==◌, min, leb, String, str_eq, Bool, true, false, List, [], ◌∷◌, ◌++◌, Option,
  none, some, if◌then◌else◌,
}

pub data ConnectionStatus : Type 0 where
  connected : ConnectionStatus
  reconnecting : ConnectionStatus
  disconnected : ConnectionStatus

unfoldable pub same_status : ConnectionStatus → ConnectionStatus → Bool
same_status connected connected = true
same_status reconnecting reconnecting = true
same_status disconnected disconnected = true
same_status _ _ = false

-- `max_attempts` is `none` for Infinity.
pub record ReconnectConfig : Type 0 where
  pub base_delay : ℕ
  pub max_delay : ℕ
  pub max_attempts : Option ℕ

abbrev pub default_reconnect_config : ReconnectConfig
default_reconnect_config = record { base_delay = 1000; max_delay = 30000; max_attempts = none }

-- `WS_CLOSE_CODES`
abbrev pub token_expired : ℕ
token_expired = 4001

abbrev pub token_invalid : ℕ
token_invalid = 4002

abbrev pub banned : ℕ
banned = 4003

-- The jitter is `Math.random() * config.baseDelay`.
unfoldable pub calculate_reconnect_delay : ℕ → ReconnectConfig → ℕ → ℕ
calculate_reconnect_delay attempt config jitter =
    min (config.base_delay * 2 ^ attempt) config.max_delay + jitter

-- The `readyState` of the socket that the client holds.
-- A socket that is closing counts as open until its `close` event.
pub data ReadyState : Type 0 where
  connecting : ReadyState
  open_state : ReadyState

pub data Emitted : Type 0 where
  status : ConnectionStatus → Emitted
  message : List ℕ → Emitted
  auth_error : ℕ → String → Emitted

-- `reconnect_timer` is the delay of the timer that is set.
pub record WsClient : Type 0 where
  pub ws : Option ReadyState
  pub url : Option String
  pub attempt : ℕ
  pub reconnect_timer : Option ℕ
  pub state : ConnectionStatus
  pub config : ReconnectConfig

unfoldable pub new_client : ReconnectConfig → WsClient
new_client config = record {
  ws = none;
  url = none;
  attempt = 0;
  reconnect_timer = none;
  state = disconnected;
  config = config;
}

-- `!this.url`
unfoldable pub no_url : Option String → Bool
no_url none = true
no_url (some u) = str_eq u ""

unfoldable pub set_status : ConnectionStatus → WsClient → WsClient × List Emitted
set_status s c = if same_status c.state s then (c, []) else (record c { state = s }, status s ∷ [])

-- `this.attempt >= this.config.maxAttempts`
unfoldable pub is_exhausted : ℕ → Option ℕ → Bool
is_exhausted attempt none = false
is_exhausted attempt (some m) = leb m attempt

unfoldable pub schedule_reconnect : ℕ → WsClient → WsClient × List Emitted
schedule_reconnect jitter c =
    if no_url c.url
    then (c, [])
    else if is_exhausted c.attempt c.config.max_attempts
    then set_status disconnected c
    else (let (c', out) = set_status reconnecting c in
        (
          record c' {
            attempt = c'.attempt + 1;
            reconnect_timer = some (calculate_reconnect_delay c'.attempt c'.config jitter);
          },
          out,
        ))

-- The timer and the socket that are dropped before another socket is made.
unfoldable pub drop_socket : WsClient → WsClient
drop_socket c = record c { reconnect_timer = none; ws = none }

-- `made` says whether the constructor returned.
unfoldable pub do_connect : Bool → ℕ → WsClient → WsClient × List Emitted
do_connect made jitter c =
    if no_url c.url
    then (c, [])
    else if made
    then (record (drop_socket c) { ws = some connecting }, [])
    else schedule_reconnect jitter (drop_socket c)

unfoldable pub connect : String → Bool → ℕ → WsClient → WsClient × List Emitted
connect url made jitter c = do_connect made jitter (record c { url = some url; attempt = 0 })

unfoldable pub disconnect : WsClient → WsClient × List Emitted
disconnect c = set_status disconnected (record (drop_socket c) { url = none })

unfoldable pub retry_now : Bool → ℕ → WsClient → WsClient × List Emitted
retry_now made jitter c = do_connect made jitter (record c { attempt = 0; reconnect_timer = none })

-- What the socket is handed; `none` is an error.
unfoldable pub send : List ℕ → WsClient → Option (List ℕ)
send bytes c = elim c.ws [ some open_state ↦ some bytes | some connecting ↦ none | none ↦ none ]

-- The socket is open.
unfoldable pub on_open : WsClient → WsClient × List Emitted
on_open c = set_status connected (record c { ws = some open_state; attempt = 0 })

unfoldable pub on_message : List ℕ → WsClient → WsClient × List Emitted
on_message bytes c = (c, message bytes ∷ [])

-- The end of the handler of `close`, after what it emits for an expired token.
unfoldable pub reconnect_after : List Emitted → ℕ → WsClient → WsClient × List Emitted
reconnect_after out jitter c =
    if no_url c.url
    then (c, out)
    else (let (c', more) = schedule_reconnect jitter c in (c', out ++ more))

unfoldable pub refuse : ℕ → String → WsClient → WsClient × List Emitted
refuse code text c =
    let (c', out) = set_status disconnected c in (c', out ++ auth_error code text ∷ [])

unfoldable pub on_close : ℕ → ℕ → WsClient → WsClient × List Emitted
on_close code jitter c =
    let c' = record c { ws = none } in
    if code == token_invalid
    then refuse code "Token invalid — please log in again" c'
    else if code == banned
    then refuse code "You have been banned from this server" c'
    else if code == token_expired
    then reconnect_after (auth_error code "Token expired — refreshing" ∷ []) jitter c'
    else reconnect_after [] jitter c'

-- The timer runs out.
unfoldable pub on_timer : Bool → ℕ → WsClient → WsClient × List Emitted
on_timer = do_connect
