-- ===== src/Tests/Ws.antt =====
-- Runs of the WebSocket client.
use united.Prelude.{refl, false, [], ◌∷◌, some, arith}
use united.Ws.Client.{
  ReconnectConfig, default_reconnect_config, WsClient, new_client, connect, do_connect, drop_socket,
  schedule_reconnect, is_exhausted, set_status, same_status, no_url,
}
use united.Ws.Connected.{Reach, start, next, connects, IsCoherent, Reach-IsCoherent}
use united.Ws.Backoff.{IsBounded, Reach-IsBounded}
use united.Ws.GiveUp.{throws, breaks, fail_all, IsWaiting, HasGivenUp, fail, fail-HasGivenUp}

-- The constructor throws, and the timer is set.
abbrev unlucky : WsClient
unlucky = (connect "wss://example.org" false 300 (new_client default_reconnect_config)).0

unlucky-Reach : Reach default_reconnect_config unlucky
unfolding new_client
unlucky-Reach = next start (connects "wss://example.org" false 300 refl (ground arith))

Reach-IsCoherent_example : IsCoherent unlucky
Reach-IsCoherent_example = Reach-IsCoherent unlucky-Reach

Reach-IsBounded_example : IsBounded default_reconnect_config unlucky
Reach-IsBounded_example = Reach-IsBounded unlucky-Reach

-- Two attempts at most, of which one is made.
abbrev two_attempts : ReconnectConfig
two_attempts = record { base_delay = 1000; max_delay = 30000; max_attempts = some 2 }

abbrev waiting : WsClient
waiting = (connect "wss://example.org" false 300 (new_client two_attempts)).0

waiting-IsWaiting : IsWaiting 1 2 waiting
unfolding new_client connect do_connect no_url drop_socket schedule_reconnect is_exhausted
    set_status same_status
waiting-IsWaiting = record {
  addressed = refl;
  closed = refl;
  timed = (_, refl);
  bound = refl;
  attempts = refl;
}

fail-HasGivenUp_example :
    IsWaiting 2 2 (fail_all (throws 5 ∷ []) waiting)
    × HasGivenUp (fail (breaks 1006 7) (fail_all (throws 5 ∷ []) waiting))
fail-HasGivenUp_example =
    fail-HasGivenUp 1 2 (throws 5 ∷ []) (breaks 1006 7) waiting refl waiting-IsWaiting refl refl
