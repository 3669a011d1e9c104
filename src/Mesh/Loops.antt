-- ===== src/Mesh/Loops.antt =====
-- client/src/renderer/src/voice/VoiceManager.ts: the two loops that run while the user is in a channel,
-- one pass of each. What the audio pipeline and the browser report are arguments; a round trip is in
-- milliseconds and a loss in thousandths, where the source has seconds and fractions.
use united.Prelude.{
  ℕ, ltb, String, Bool, true, false, not, ◌||◌, List, [], ◌∷◌, map, Option, none, some,
  if◌then◌else◌,
}
use united.Prelude.Dict.{Dict, lookup, insert}
use united.Voice.Slice.{ConnectionQuality, good, degraded, poor, VoiceQualityMetrics}
use united.Mesh.Peer.{PeerConnection}
use united.Mesh.Manager.{VoiceManager, Output, speaking, local_speaking}

-- `a === b`
abbrev pub same : Bool → Bool → Bool
same true b = b
same false b = not b

-- `this.previousSpeakingState.get(peerId) ?? false`
unfoldable pub was_speaking : String → Dict Bool → Bool
was_speaking id d = elim (lookup id d) [ none ↦ false | some b ↦ b ]

unfoldable pub check_peers : List String → (String → Bool) → Dict Bool → Dict Bool × List Output
check_peers [] now d = (d, [])
check_peers (id ∷ ids) now d =
    let changed = not (same (now id) (was_speaking id d)) in
    let (d', out) = check_peers ids now (if changed then insert id (now id) d else d) in
    (d', if changed then speaking id (now id) ∷ out else out)

-- One pass of the speaking loop. The own state is also sent to the other participants, which the
-- output stands for too.
unfoldable pub detect_speaking : Bool → (String → Bool) → VoiceManager → VoiceManager × List Output
detect_speaking local_now now m =
    let ids = map (λ (e : String × PeerConnection). e.0) m.peers in
    let (d, out) = check_peers ids now m.previous_speaking_state in
    let m' = record m { previous_speaking_state = d } in
    if same local_now m.local_speaking
    then (m', out)
    else (record m' { local_speaking = local_now }, local_speaking local_now ∷ out)

unfoldable pub classify_quality : ℕ → ℕ → ConnectionQuality
classify_quality rtt loss =
    if ltb 300 rtt || ltb 50 loss
    then poor
    else if ltb 150 rtt || ltb 20 loss
    then degraded
    else good

-- A report of the browser: the round trip, the loss and the jitter. The last report of the right kind
-- counts; `none` is a connection that is gone or whose report fails.
unfoldable pub get_stats : Option (ℕ × (ℕ × ℕ)) → Option VoiceQualityMetrics
get_stats none = none
get_stats (some (rtt, (loss, jitter))) = some (record {
  rtt_ms = rtt;
  packet_loss = loss;
  jitter = jitter;
  quality = classify_quality rtt loss;
})

unfoldable pub quality_order : ConnectionQuality → ℕ
quality_order good = 0
quality_order degraded = 1
quality_order poor = 2

abbrev pub no_metrics : VoiceQualityMetrics
no_metrics = record { rtt_ms = 0; packet_loss = 0; jitter = 0; quality = good }

-- The worst quality and its metrics, through the peers in order.
unfoldable pub poll_peers :
    List (Option VoiceQualityMetrics)
    → ConnectionQuality × VoiceQualityMetrics
    → ConnectionQuality × VoiceQualityMetrics
poll_peers [] worst = worst
poll_peers (none ∷ ms) worst = poll_peers ms worst
poll_peers (some m ∷ ms) worst =
    poll_peers ms
      (if ltb (quality_order worst.0) (quality_order m.quality) then (m.quality, m) else worst)

-- One pass of the stats loop: what `onOverallQualityChange` is called with.
unfoldable pub poll_stats :
    List (Option VoiceQualityMetrics) → ConnectionQuality × VoiceQualityMetrics
poll_stats ms = poll_peers ms (good, no_metrics)
