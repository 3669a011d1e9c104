-- ===== src/Ws/GiveUp.antt =====
-- The end of the reconnection where the attempts are bounded (ws/client.ts).
use united.Prelude.{
  ℕ, suc, ◌+◌, ◌≤◌, ◌<◌, ◌==◌, length, ◌≡◌, subst, refl, Bool, true, false, not, ◌&&◌, List, [],
  ◌∷◌, none, some, arith,
}
use united.Ws.Client.{
  reconnecting, disconnected, WsClient, no_url, is_exhausted, schedule_reconnect, drop_socket,
  do_connect, reconnect_after, refuse, on_close, on_timer, token_invalid, banned,
}
use united.Ws.Connected.{set_status_state}

-- A timer that runs out to no end: the constructor throws, or the socket closes before it opens.
pub data Failure : Type 0 where
  throws : ℕ → Failure
  breaks : (code jitter : ℕ) → Failure

-- The server neither refuses the token nor the user.
abbrev pub is_retried : Failure → Bool
is_retried (throws jitter) = true
is_retried (breaks code jitter) = not (code == token_invalid) && not (code == banned)

abbrev pub are_retried : List Failure → Bool
are_retried [] = true
are_retried (f ∷ fs) = is_retried f && are_retried fs

abbrev pub fail : Failure → WsClient → WsClient
fail (throws jitter) c = (on_timer false jitter c).0
fail (breaks code jitter) c = (on_close code jitter (on_timer true jitter c).0).0

abbrev pub fail_all : List Failure → WsClient → WsClient
fail_all [] c = c
fail_all (f ∷ fs) c = fail_all fs (fail f c)

-- The client waits for its timer; `a` attempts of `m` are made.
pub record IsWaiting (a m : ℕ) (c : WsClient) : Type 0 where
  pub addressed : no_url c.url ≡ false
  pub closed : c.ws ≡ none
  pub timed : (d : ℕ) × (c.reconnect_timer ≡ some d)
  pub bound : c.config.max_attempts ≡ some m
  pub attempts : c.attempt ≡ a

-- The client has given up: it has no socket and no timer, so nothing happens until it is called.
pub record HasGivenUp (c : WsClient) : Type 0 where
  pub off : c.state ≡ disconnected
  pub closed : c.ws ≡ none
  pub untimed : c.reconnect_timer ≡ none

-- Both kinds of failure come to the same: a reconnection is scheduled.
fail-schedule_reconnect :
    (f : Failure) (c : WsClient)
    → no_url c.url ≡ false
    → is_retried f ≡ true
    → (jitter : ℕ) × (fail f c ≡ (schedule_reconnect jitter (drop_socket c)).0)
unfolding on_timer do_connect on_close reconnect_after drop_socket refuse
fail-schedule_reconnect (throws jitter) c a r = (jitter, rw (a, fail) refl)
fail-schedule_reconnect (breaks code jitter) c a r = (jitter, rw (a, fail) (ground (arith, a, r)))

schedule_reconnect-IsWaiting :
    (a m jitter : ℕ) (c : WsClient)
    → IsWaiting a m c
    → a < m
    → IsWaiting (a + 1) m (schedule_reconnect jitter (drop_socket c)).0
unfolding schedule_reconnect drop_socket is_exhausted
schedule_reconnect-IsWaiting a m jitter c w less =
    let more : is_exhausted c.attempt c.config.max_attempts ≡ false =
      ground (arith, w.bound, w.attempts) in
    rw (w.addressed, more, set_status_state reconnecting (drop_socket c))
      (record {
        addressed = w.addressed;
        closed = refl;
        timed = (_, refl);
        bound = w.bound;
        attempts = ground (arith, w.attempts);
      })

schedule_reconnect-HasGivenUp :
    (m jitter : ℕ) (c : WsClient)
    → IsWaiting m m c
    → HasGivenUp (schedule_reconnect jitter (drop_socket c)).0
unfolding schedule_reconnect drop_socket is_exhausted
schedule_reconnect-HasGivenUp m jitter c w =
    let full : is_exhausted c.attempt c.config.max_attempts ≡ true =
      ground (arith, w.bound, w.attempts) in
    rw (w.addressed, full, set_status_state disconnected (drop_socket c))
      (record { off = refl; closed = refl; untimed = refl })

fail_all-IsWaiting :
    (a m : ℕ) (fs : List Failure) (c : WsClient)
    → a + length fs ≤ m
    → IsWaiting a m c
    → are_retried fs ≡ true
    → IsWaiting (a + length fs) m (fail_all fs c)
fail_all-IsWaiting a m [] c le w r =
    subst (λ (n : ℕ). IsWaiting n m c) {x = a} {y = a + 0} (omega arith) w
fail_all-IsWaiting a m (f ∷ fs) c le w r =
    let (jitter, e) = fail-schedule_reconnect f c w.addressed (ground (arith, r)) in
    let waits : IsWaiting (a + 1) m (fail f c) =
      rw e (schedule_reconnect-IsWaiting a m jitter c w (omega arith)) in
    subst (λ (n : ℕ). IsWaiting n m (fail_all fs (fail f c))) {x = a + 1 + length fs}
      {y = a + suc (length fs)} (omega arith)
      (fail_all-IsWaiting (a + 1) m fs (fail f c) (omega arith) waits (ground (arith, r)))

-- A client that waits after `a` of `m` attempts still waits after as many failures of its timer as it
-- has attempts left, and the next failure ends it: it is disconnected, with neither a socket nor a
-- timer. The failures are constructors that throw and sockets that close before they open, with any
-- code but the two that refuse the token or the user.
pub fail-HasGivenUp :
    (a m : ℕ) (fs : List Failure) (f : Failure) (c : WsClient)
    → a + length fs ≡ m
    → IsWaiting a m c
    → are_retried fs ≡ true
    → is_retried f ≡ true
    → IsWaiting m m (fail_all fs c) × HasGivenUp (fail f (fail_all fs c))
fail-HasGivenUp a m fs f c all w rs r =
    let waits : IsWaiting m m (fail_all fs c) =
      subst (λ (n : ℕ). IsWaiting n m (fail_all fs c)) all
        (fail_all-IsWaiting a m fs c (omega arith) w rs) in
    let (jitter, e) = fail-schedule_reconnect f (fail_all fs c) waits.addressed r in
    (waits, rw e (schedule_reconnect-HasGivenUp m jitter (fail_all fs c) waits))
