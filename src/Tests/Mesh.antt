-- ===== src/Tests/Mesh.antt =====
-- Runs of the connections of a voice channel.
use united.Prelude.{
  ◌+◌, ◌≡◌, ◌≢◌, eq_iff, refl, String, true, false, not, ◌&&◌, ◌||◌, [], ◌∷◌, some, none, arith,
}
use united.Prelude.Dict.{lookup}
use united.Voice.Slice.{VoiceQualityMetrics, degraded}
use united.Mesh.Peer.{PeerConnection, new_peer_connection, take_candidate, describe}
use united.Mesh.Manager.{
  VoiceManager, new_manager, join_channel, connect_all, handle_new_participant, has_peer,
}
use united.Mesh.Loops.{quality_order, poll_stats}
use united.Mesh.Candidates.{Trace, created, arrives, described, has, queued, Trace-handed}
use united.Mesh.Offers.{offers_made, offers-join_channel}
use united.Mesh.Polling.{worst_order, worst_metrics, poll_stats-worst_metrics}

-- A candidate waits for the description, and one comes while the loop runs.
abbrev flowing : PeerConnection
flowing = take_candidate "two" (describe (take_candidate "one" (new_peer_connection "bob")))

flowing-Trace : Trace "bob" ("one" ∷ "two" ∷ []) flowing
flowing-Trace = arrives "two" (described (arrives "one" created))

Trace-handed_example : has "one" ("one" ∷ "two" ∷ []) ≡ (
    has "one" flowing.handed
    || (queued "one" flowing.loops
        || (not flowing.remote_description_set && has "one" flowing.pending_candidates)))
Trace-handed_example = Trace-handed "one" flowing-Trace

abbrev bobs : VoiceManager
bobs = (join_channel "lounge" "bob" [] (λ id. none) true new_manager).0

bobs-id : bobs.local_user_id ≡ "bob"
unfolding join_channel connect_all new_manager
bobs-id = refl

bobs-alone : has_peer "ann" bobs ≡ false
unfolding join_channel connect_all new_manager lookup
bobs-alone = refl

ann_bob : ◌≢◌ {A = String} "ann" "bob"
ann_bob e = ground (arith, eq_iff "ann" "bob")

sdp_full : ◌≢◌ {A = String} "v=0" ""
sdp_full e = ground (arith, eq_iff "v=0" "")

offers-join_channel_example :
    offers_made (join_channel "lounge" "ann" ("bob" ∷ []) (λ id. some "v=0") true new_manager).1.0
      + offers_made (handle_new_participant "ann" (λ id. some "v=0") bobs).1.0
    ≡ 1
offers-join_channel_example =
    offers-join_channel "lounge" "ann" "bob" "v=0" "v=0" new_manager bobs ann_bob sdp_full sdp_full
      bobs-id bobs-alone

abbrev two : VoiceManager
two = (join_channel "lounge" "ann" ("bob" ∷ []) (λ id. some "v=0") true new_manager).0

abbrev slow : VoiceQualityMetrics
slow = record { rtt_ms = 200; packet_loss = 0; jitter = 3; quality = degraded }

poll_stats-worst_metrics_example :
    (quality_order (poll_stats (none ∷ some slow ∷ [])).0 ≡ worst_order (none ∷ some slow ∷ []))
    × ((poll_stats (none ∷ some slow ∷ [])).1 ≡ worst_metrics (none ∷ some slow ∷ []))
poll_stats-worst_metrics_example = poll_stats-worst_metrics (none ∷ some slow ∷ [])
