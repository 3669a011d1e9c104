-- ===== src/Ws/Connected.antt =====
-- The states that the client reaches (ws/client.ts).
use united.Prelude.{
  ℕ, ◌≡◌, ◌≢◌, ◌≤◌, ◌⊎◌, refl, ap, String, str_eq, Bool, true, false, not, List, Option, none, some,
  inl, inr, Bool-cases, arith, [], ◌∷◌,
}
use united.Ws.Client.{
  ConnectionStatus, connected, reconnecting, disconnected, same_status, ReconnectConfig, ReadyState,
  connecting, open_state, WsClient, new_client, no_url, set_status, schedule_reconnect, drop_socket,
  do_connect, connect, disconnect, retry_now, send, on_open, on_message, reconnect_after, Emitted,
  auth_error, refuse, on_close, on_timer,
}

-- The calls and events that change a client: the caller's, with an address that is not empty, those of
-- the socket that it holds, and its timer's. The random part of a delay is at most the base delay.
pub data Step (c : WsClient) : WsClient → Type 0 where
  connects :
      (url : String) (made : Bool) (jitter : ℕ)
      → str_eq url "" ≡ false
      → jitter ≤ c.config.base_delay
      → Step c (connect url made jitter c).0
  disconnects : Step c (disconnect c).0
  retries :
      (made : Bool) (jitter : ℕ) → jitter ≤ c.config.base_delay → Step c (retry_now made jitter c).0
  opens : c.ws ≡ some connecting → Step c (on_open c).0
  receives : (bytes : List ℕ) → c.ws ≡ some open_state → Step c (on_message bytes c).0
  closes :
      (r : ReadyState) (code jitter : ℕ)
      → c.ws ≡ some r
      → jitter ≤ c.config.base_delay
      → Step c (on_close code jitter c).0
  times_out :
      (d : ℕ) (made : Bool) (jitter : ℕ)
      → c.reconnect_timer ≡ some d
      → jitter ≤ c.config.base_delay
      → Step c (on_timer made jitter c).0

pub data Reach (config : ReconnectConfig) : WsClient → Type 0 where
  start : Reach config (new_client config)
  next : {c d : WsClient} → Reach config c → Step c d → Reach config d

-- What the status means: a client that is connected has a socket, an open socket is never hidden
-- behind another status, one that reconnects has either a socket or a timer, never both, and one
-- without an address or that has given up has no timer.
unfoldable pub fits : ConnectionStatus → Option ReadyState → Option ℕ → Bool → Bool
fits connected (some r) none addressed = addressed
fits reconnecting (some connecting) none addressed = addressed
fits reconnecting none (some d) addressed = addressed
fits disconnected none none addressed = true
fits disconnected (some connecting) none addressed = addressed
fits _ _ _ _ = false

abbrev pub Fits : WsClient → Type 0
Fits c = fits c.state c.ws c.reconnect_timer (not (no_url c.url)) ≡ true

same_status_lem : (s t : ConnectionStatus) → same_status s t ≡ true → s ≡ t
unfolding same_status
same_status_lem connected connected e = refl
same_status_lem reconnecting reconnecting e = refl
same_status_lem disconnected disconnected e = refl
same_status_lem connected reconnecting e = absurd (cc)
same_status_lem connected disconnected e = absurd (cc)
same_status_lem reconnecting connected e = absurd (cc)
same_status_lem reconnecting disconnected e = absurd (cc)
same_status_lem disconnected connected e = absurd (cc)
same_status_lem disconnected reconnecting e = absurd (cc)

-- Whether it emits or not, the status is the new one and nothing else changes.
pub set_status_state :
    (s : ConnectionStatus) (c : WsClient) → (set_status s c).0 ≡ record c { state = s }
unfolding set_status
set_status_state s c = elim (Bool-cases (same_status c.state s)) [
  | inl e ↦
      rw e (ap (λ (t : ConnectionStatus). record c { state = t }) (same_status_lem c.state s e))
  | inr e ↦ rw e refl
]

schedule_reconnect-Fits :
    (jitter : ℕ) (c : WsClient)
    → no_url c.url ≡ false
    → c.ws ≡ none
    → c.reconnect_timer ≡ none
    → Fits (schedule_reconnect jitter c).0
unfolding schedule_reconnect fits
schedule_reconnect-Fits jitter c addressed closed idle =
    ground (arith, set_status_state reconnecting c, set_status_state disconnected c)

do_connect-Fits :
    (made : Bool) (jitter : ℕ) (c : WsClient)
    → (no_url c.url ≡ true → Fits c)
    → Fits (do_connect made jitter c).0
unfolding do_connect drop_socket fits
do_connect-Fits true jitter c h = elim (Bool-cases (no_url c.url)) [
  | inl e ↦ rw e (h e)
  | inr e ↦ rw e (ground arith)
]
do_connect-Fits false jitter c h = elim (Bool-cases (no_url c.url)) [
  | inl e ↦ rw e (h e)
  | inr e ↦ rw e (schedule_reconnect-Fits jitter (drop_socket c) e refl refl)
]

set_status-Fits :
    (s : ConnectionStatus) (c : WsClient) → Fits (record c { state = s }) → Fits (set_status s c).0
set_status-Fits s c h = rw (set_status_state s c) h

reconnect_after-Fits :
    (out : List Emitted) (jitter : ℕ) (c : WsClient)
    → c.ws ≡ none
    → c.reconnect_timer ≡ none
    → (no_url c.url ≡ true → c.state ≡ disconnected)
    → Fits (reconnect_after out jitter c).0
unfolding reconnect_after fits
reconnect_after-Fits out jitter c closed idle h = elim (Bool-cases (no_url c.url)) [
  | inl e ↦ rw e (ground (arith, h e))
  | inr e ↦ rw e (schedule_reconnect-Fits jitter c e closed idle)
]

-- A client that has a socket has no timer, and has an address.
Fits-some :
    (c : WsClient) (r : ReadyState)
    → Fits c
    → c.ws ≡ some r
    → (c.reconnect_timer ≡ none) × (no_url c.url ≡ false)
unfolding fits
Fits-some c r v e = ground arith

Step-Fits : {c d : WsClient} → Step c d → Fits c → Fits d
unfolding connect disconnect retry_now on_open on_message on_close on_timer drop_socket refuse fits
    no_url
Step-Fits {c} (connects url made jitter e j) v = do_connect-Fits made jitter _ (λ f. absurd (cc))
Step-Fits {c} disconnects v = set_status-Fits disconnected _ refl
Step-Fits {c} (retries made jitter j) v = do_connect-Fits made jitter _ (λ f. ground arith)
Step-Fits {c} (opens e) v = set_status-Fits connected _ (ground arith)
Step-Fits {c} (receives bytes e) v = v
Step-Fits {c} (closes r code jitter e j) v =
    let alone = Fits-some c r v e in
    let off = set_status-Fits disconnected (record c { ws = none }) (rw (alone.0) refl) in
    let again = λ (out : List Emitted).
      reconnect_after-Fits out jitter (record c { ws = none }) refl alone.0 (λ f. absurd (cc)) in
    ground (arith, off, again (auth_error code "Token expired — refreshing" ∷ []), again [])
Step-Fits {c} (times_out d made jitter e j) v = do_connect-Fits made jitter c (λ f. v)

Reach-Fits : {config : ReconnectConfig} {c : WsClient} → Reach config c → Fits c
unfolding new_client fits
Reach-Fits start = refl
Reach-Fits (next r s) = Step-Fits s (Reach-Fits r)

pub record IsCoherent (c : WsClient) : Type 0 where
  pub one : (c.ws ≡ none) ⊎ (c.reconnect_timer ≡ none)
  pub has_socket : c.state ≡ connected → c.ws ≢ none
  pub is_connected : c.ws ≡ some open_state → c.state ≡ connected
  pub retries_soon : c.state ≡ reconnecting → (c.ws ≢ none) ⊎ (c.reconnect_timer ≢ none)
  pub waits : c.reconnect_timer ≢ none → c.state ≡ reconnecting
  pub rests :
      no_url c.url ≡ true → (c.state ≡ disconnected) × ((c.ws ≡ none) × (c.reconnect_timer ≡ none))

Fits-IsCoherent : (c : WsClient) → Fits c → IsCoherent c
unfolding fits
Fits-IsCoherent c v = record {
  one = ground arith;
  has_socket = λ e. ground arith;
  is_connected = λ e. ground arith;
  retries_soon = λ e. ground arith;
  waits = λ e. ground arith;
  rests = λ e. ground arith;
}

-- In every state that the client reaches by calls with addresses that are not empty, by events of its
-- socket and by its timer: it never has a socket and a timer at once; where the status is `connected`
-- it has a socket; where its socket is open the status is `connected`; where the status is
-- `reconnecting` it has a socket or a timer, and a timer only there; and without an address it is
-- disconnected, with neither.
pub Reach-IsCoherent : {config : ReconnectConfig} {c : WsClient} → Reach config c → IsCoherent c
Reach-IsCoherent {c = c} r = Fits-IsCoherent c (Reach-Fits r)

schedule_reconnect-ws : (jitter : ℕ) (c : WsClient) → (schedule_reconnect jitter c).0.ws ≡ c.ws
unfolding schedule_reconnect
schedule_reconnect-ws jitter c =
    ground (arith, set_status_state reconnecting c, set_status_state disconnected c)

retry_now-send :
    (bytes : List ℕ) (made : Bool) (jitter : ℕ) (c : WsClient)
    → IsCoherent c
    → send bytes (retry_now made jitter c).0 ≡ none
unfolding send retry_now do_connect drop_socket
retry_now-send bytes made jitter c v = elim (Bool-cases (no_url c.url)) [
  | inl e ↦ rw e (ground (arith, v.rests e))
  | inr e ↦ elim (Bool-cases made) [
    | inl f ↦ rw (e, f) refl
    | inr f ↦
        rw (e, f)
          (ground (arith, schedule_reconnect-ws jitter (record (drop_socket c) { attempt = 0 })))
  ]
]

-- In every state that the client reaches, to send is an error unless the status is `connected`, and
-- also right after a retry, whose socket is not open yet.
pub send-Reach :
    {config : ReconnectConfig} {c : WsClient} (bytes : List ℕ) (made : Bool) (jitter : ℕ)
    → Reach config c
    → c.state ≢ connected
    → (send bytes c ≡ none) × (send bytes (retry_now made jitter c).0 ≡ none)
unfolding send
send-Reach {c = c} bytes made jitter r off =
    let v = Reach-IsCoherent r in
    (ground (arith, v.is_connected), retry_now-send bytes made jitter c v)
