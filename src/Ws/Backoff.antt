-- ===== src/Ws/Backoff.antt =====
-- The delays of the reconnection, and its end where the attempts are bounded (ws/client.ts,
-- shared/types/ws-protocol.ts).
use united.Prelude.{
  ℕ, zero, suc, ◌+◌, ◌*◌, ◌^◌, ◌≤◌, ◌==◌, min, ◌≡◌, refl, String, Bool, Option, none, some, inl,
  inr, Bool-cases, arith,
}
use united.Ws.Client.{
  ConnectionStatus, connected, reconnecting, disconnected, ReconnectConfig, ReadyState, connecting,
  open_state, WsClient, new_client, no_url, set_status, is_exhausted, calculate_reconnect_delay,
  schedule_reconnect, drop_socket, do_connect, connect, disconnect, retry_now, on_open, on_message,
  reconnect_after, refuse, on_close, on_timer, token_invalid, banned, token_expired,
}
use united.Ws.Connected.{
  Step, connects, disconnects, retries, opens, receives, closes, times_out, Reach, start, next,
  set_status_state,
}

one_power : (n : ℕ) → 1 ≤ 2 ^ n
one_power zero = ground arith
one_power (suc n) = ground (arith, one_power n)

mul_one : (a b : ℕ) → 1 ≤ b → a ≤ a * b
mul_one a zero h = absurd (ground arith)
mul_one a (suc b) h = omega arith

-- A delay is between the base delay, or the cap where that is less, and the cap with the random part.
calculate_reconnect_delay_bounds :
    (attempt : ℕ) (config : ReconnectConfig) (jitter : ℕ)
    → (min config.base_delay config.max_delay ≤ calculate_reconnect_delay attempt config jitter)
      × (calculate_reconnect_delay attempt config jitter ≤ config.max_delay + jitter)
unfolding calculate_reconnect_delay
calculate_reconnect_delay_bounds attempt config jitter =
    (ground (arith, mul_one config.base_delay (2 ^ attempt) (one_power attempt)), ground arith)

-- The delay of the timer that is set, if one is, and the attempts that were made.
pub record IsBounded (config : ReconnectConfig) (c : WsClient) : Type 0 where
  pub same : c.config ≡ config
  pub delays :
      (d : ℕ)
      → c.reconnect_timer ≡ some d
      → (min config.base_delay config.max_delay ≤ d) × (d ≤ config.max_delay + config.base_delay)
  pub attempts : (m : ℕ) → config.max_attempts ≡ some m → c.attempt ≤ m

set_status-IsBounded :
    (config : ReconnectConfig) (s : ConnectionStatus) (c : WsClient)
    → IsBounded config c
    → IsBounded config (set_status s c).0
set_status-IsBounded config s c b =
    rw (set_status_state s c) (record { same = b.same; delays = b.delays; attempts = b.attempts })

schedule_reconnect-IsBounded :
    (config : ReconnectConfig) (jitter : ℕ) (c : WsClient)
    → jitter ≤ config.base_delay
    → IsBounded config c
    → IsBounded config (schedule_reconnect jitter c).0
unfolding schedule_reconnect is_exhausted
schedule_reconnect-IsBounded config jitter c j b = elim (Bool-cases (no_url c.url)) [
  | inl e ↦ rw e b
  | inr e ↦ elim (Bool-cases (is_exhausted c.attempt c.config.max_attempts)) [
    | inl f ↦ rw (e, f) (set_status-IsBounded config disconnected c b)
    | inr f ↦
        let at = calculate_reconnect_delay_bounds c.attempt c.config jitter in
        let eq = set_status_state reconnecting c in
        rw (e, f, eq)
          (record {
            same = b.same;
            delays = λ d g. ground (arith, at, b.same);
            attempts = λ m g. ground (arith, b.attempts m g, b.same);
          })
  ]
]

-- To drop the timer, the socket or the count of attempts keeps the bounds.
drop-IsBounded :
    (config : ReconnectConfig) (ws : Option ReadyState) (url : Option String) (c : WsClient)
    → IsBounded config c
    → IsBounded config (record c { ws = ws; url = url; reconnect_timer = none })
drop-IsBounded config ws url c b = record {
  same = b.same;
  delays = λ d e. absurd (cc);
  attempts = b.attempts;
}

reset-IsBounded :
    (config : ReconnectConfig) (ws : Option ReadyState) (url : Option String) (c : WsClient)
    → IsBounded config c
    → IsBounded config (record c { ws = ws; url = url; attempt = 0 })
reset-IsBounded config ws url c b = record {
  same = b.same;
  delays = b.delays;
  attempts = λ m e. ground arith;
}

do_connect-IsBounded :
    (config : ReconnectConfig) (made : Bool) (jitter : ℕ) (c : WsClient)
    → jitter ≤ config.base_delay
    → IsBounded config c
    → IsBounded config (do_connect made jitter c).0
unfolding do_connect drop_socket
do_connect-IsBounded config made jitter c j b = elim (Bool-cases (no_url c.url)) [
  | inl e ↦ rw e b
  | inr e ↦ elim (Bool-cases made) [
    | inl f ↦ rw (e, f) (drop-IsBounded config (some connecting) c.url c b)
    | inr f ↦
        rw (e, f)
          (schedule_reconnect-IsBounded config jitter _ j (drop-IsBounded config none c.url c b))
  ]
]

on_close-IsBounded :
    (config : ReconnectConfig) (code jitter : ℕ) (c : WsClient)
    → jitter ≤ config.base_delay
    → IsBounded config c
    → IsBounded config (on_close code jitter c).0
unfolding on_close refuse reconnect_after
on_close-IsBounded config code jitter c j b =
    let closed : IsBounded config (record c { ws = none }) = record {
      same = b.same;
      delays = b.delays;
      attempts = b.attempts;
    } in
    let off = set_status-IsBounded config disconnected _ closed in
    let again = schedule_reconnect-IsBounded config jitter _ j closed in
    elim (Bool-cases (code == token_invalid)) [
      | inl e ↦ rw e off
      | inr e ↦ elim (Bool-cases (code == banned)) [
        | inl f ↦ rw (e, f) off
        | inr f ↦ elim (Bool-cases (code == token_expired)) [
          | inl g ↦ elim (Bool-cases (no_url c.url)) [
            | inl h ↦ rw (e, f, g, h) closed
            | inr h ↦ rw (e, f, g, h) again
          ]
          | inr g ↦ elim (Bool-cases (no_url c.url)) [
            | inl h ↦ rw (e, f, g, h) closed
            | inr h ↦ rw (e, f, g, h) again
          ]
        ]
      ]
    ]

Step-IsBounded :
    {config : ReconnectConfig} {c d : WsClient} → Step c d → IsBounded config c → IsBounded config d
unfolding connect disconnect retry_now on_open on_message on_timer drop_socket
Step-IsBounded {config} {c} (connects url made jitter e j) b =
    do_connect-IsBounded config made jitter _ (ground (arith, b.same))
      (reset-IsBounded config c.ws (some url) c b)
Step-IsBounded {config} {c} disconnects b =
    set_status-IsBounded config disconnected _ (drop-IsBounded config none none c b)
Step-IsBounded {config} {c} (retries made jitter j) b =
    do_connect-IsBounded config made jitter _ (ground (arith, b.same))
      (drop-IsBounded config c.ws c.url _ (reset-IsBounded config c.ws c.url c b))
Step-IsBounded {config} {c} (opens e) b =
    set_status-IsBounded config connected _ (reset-IsBounded config (some open_state) c.url c b)
Step-IsBounded {config} {c} (receives bytes e) b = b
Step-IsBounded {config} {c} (closes r code jitter e j) b =
    on_close-IsBounded config code jitter c (ground (arith, b.same)) b
Step-IsBounded {config} {c} (times_out d made jitter e j) b =
    do_connect-IsBounded config made jitter c (ground (arith, b.same)) b

-- In every state that the client reaches, the delay of the timer that is set is at least the base
-- delay, or the cap where that is less, and at most the cap and one base delay more; and where the
-- attempts are bounded, their count is within the bound.
pub Reach-IsBounded :
    {config : ReconnectConfig} {c : WsClient} → Reach config c → IsBounded config c
unfolding new_client
Reach-IsBounded start = record {
  same = refl;
  delays = λ d e. absurd (cc);
  attempts = λ m e. ground arith;
}
Reach-IsBounded (next r s) = Step-IsBounded s (Reach-IsBounded r)
