-- ===== src/Mesh/Polling.antt =====
-- What the two loops of a voice channel report (voice/VoiceManager.ts).
use united.Prelude.{
  ℕ, ltb, leb, max, ◌==◌, ◌≡◌, refl, ap, ◌∙◌, String, str_eq, eq_iff, Bool, true, false, not, List,
  [], ◌∷◌, map, Option, none, some, inl, inr, any, if◌then◌else◌, Bool-cases, eq_refl, arith,
}
use united.Prelude.Dict.{Dict, insert, lookup-insert}
use united.Voice.Slice.{ConnectionQuality, good, VoiceQualityMetrics}
use united.Mesh.Peer.{PeerConnection}
use united.Mesh.Manager.{VoiceManager}
use united.Mesh.Loops.{
  same, was_speaking, check_peers, detect_speaking, quality_order, no_metrics, poll_peers,
  poll_stats,
}

abbrev pub listed : String → List String → Bool
listed id ids = any (λ (x : String). str_eq x id) ids

was_speaking-insert :
    (id j : String) (b : Bool) (d : Dict Bool)
    → was_speaking j (insert id b d) ≡ (if str_eq id j then b else was_speaking j d)
unfolding was_speaking
was_speaking-insert id j b d = ground (arith, lookup-insert id j b d)

check_peers-was_speaking :
    (id : String) (ids : List String) (now : String → Bool) (d : Dict Bool)
    → was_speaking id (check_peers ids now d).0
      ≡ (if listed id ids then now id else was_speaking id d)
unfolding check_peers
check_peers-was_speaking id [] now d = refl
check_peers-was_speaking id (j ∷ ids) now d =
    let d' = if not (same (now j) (was_speaking j d)) then insert j (now j) d else d in
    check_peers-was_speaking id ids now d'
    ∙ ground (arith, eq_iff j id, was_speaking-insert j id (now j) d)

-- A pass over peers that are all recorded as they are reports nothing and changes nothing.
check_peers-same :
    (ids : List String) (now : String → Bool) (d : Dict Bool)
    → ((id : String) → listed id ids ≡ true → now id ≡ was_speaking id d)
    → check_peers ids now d ≡ (d, [])
unfolding check_peers
check_peers-same [] now d h = refl
check_peers-same (j ∷ ids) now d h =
    let it : same (now j) (was_speaking j d) ≡ true = ground (arith, h j, eq_refl j) in
    let rest = check_peers-same ids now d (λ id e. h id (ground arith)) in rw (it, rest) refl

same_self : (b : Bool) → same b b ≡ true
same_self true = refl
same_self false = refl

same_lem : (a b : Bool) → same a b ≡ true → b ≡ a
same_lem true true e = refl
same_lem true false e = absurd (cc)
same_lem false true e = absurd (cc)
same_lem false false e = refl

detect_speaking_state :
    (local_now : Bool) (now : String → Bool) (m : VoiceManager)
    → (detect_speaking local_now now m).0 ≡ record m {
      local_speaking = local_now;
      previous_speaking_state =
          (check_peers
            (map (λ (e : String × PeerConnection). e.0) m.peers)
            now
            m.previous_speaking_state).0;
    }
unfolding detect_speaking
detect_speaking_state local_now now m = elim (Bool-cases (same local_now m.local_speaking)) [
  | inl e ↦ rw e (
      ap
        (λ (b : Bool). record m {
          local_speaking = b;
          previous_speaking_state =
              (check_peers (map (λ (e : String × PeerConnection). e.0) m.peers) now
                m.previous_speaking_state).0;
        })
        (same_lem local_now m.local_speaking e))
  | inr e ↦ rw e refl
]

-- After a pass of the speaking loop every peer is recorded as the audio pipeline reports them, nobody
-- else's record changes, and the same passes again report nothing and change nothing: a peer who goes
-- on speaking is reported once.
detect_speaking-again :
    (local_now : Bool) (now : String → Bool) (id : String) (m : VoiceManager)
    → (was_speaking id (detect_speaking local_now now m).0.previous_speaking_state ≡ (
        if listed id (map (λ (e : String × PeerConnection). e.0) m.peers)
        then now id
        else was_speaking id m.previous_speaking_state))
      × (detect_speaking local_now now (detect_speaking local_now now m).0
          ≡ ((detect_speaking local_now now m).0, []))
unfolding detect_speaking
detect_speaking-again local_now now id m =
    let ids = map (λ (e : String × PeerConnection). e.0) m.peers in
    let recorded = (check_peers ids now m.previous_speaking_state).0 in
    let known = λ (j : String). check_peers-was_speaking j ids now m.previous_speaking_state in
    let quiet : check_peers ids now recorded ≡ (recorded, []) =
      check_peers-same ids now recorded (λ j e. ground (arith, known j)) in
    rw (detect_speaking_state local_now now m) (known id, rw (quiet, same_self local_now) refl)

-- The reference: how bad the worst connection that is measured is, and the first one as bad as that.
abbrev pub worst_order : List (Option VoiceQualityMetrics) → ℕ
worst_order [] = 0
worst_order (none ∷ ms) = worst_order ms
worst_order (some m ∷ ms) = max (quality_order m.quality) (worst_order ms)

abbrev pub first_of : ℕ → List (Option VoiceQualityMetrics) → Option VoiceQualityMetrics
first_of n [] = none
first_of n (none ∷ ms) = first_of n ms
first_of n (some m ∷ ms) = if quality_order m.quality == n then some m else first_of n ms

poll_peers-worst_order :
    (ms : List (Option VoiceQualityMetrics)) (q : ConnectionQuality) (w : VoiceQualityMetrics)
    → quality_order (poll_peers ms (q, w)).0 ≡ max (quality_order q) (worst_order ms)
unfolding poll_peers
poll_peers-worst_order [] q w = ground arith
poll_peers-worst_order (none ∷ ms) q w = poll_peers-worst_order ms q w
poll_peers-worst_order (some m ∷ ms) q w =
    ground (arith, poll_peers-worst_order ms q w, poll_peers-worst_order ms m.quality m)

first_of-some :
    (ms : List (Option VoiceQualityMetrics))
    → ltb 0 (worst_order ms) ≡ true
    → (m : VoiceQualityMetrics) × (first_of (worst_order ms) ms ≡ some m)
first_of-some [] h = absurd (ground arith)
first_of-some (none ∷ ms) h = first_of-some ms h
first_of-some (some m ∷ ms) h = elim (Bool-cases (leb (worst_order ms) (quality_order m.quality))) [
  | inl e ↦ (m, ground arith)
  | inr e ↦
      let (m', is) = first_of-some ms (ground arith) in
      let top : max (quality_order m.quality) (worst_order ms) ≡ worst_order ms = ground arith in
      let other : (quality_order m.quality == worst_order ms) ≡ false = ground arith in
      (m', ap (λ (n : ℕ). first_of n (some m ∷ ms)) top ∙ rw other is)
]

poll_peers-first_of :
    (ms : List (Option VoiceQualityMetrics)) (q : ConnectionQuality) (w : VoiceQualityMetrics)
    → (poll_peers ms (q, w)).1 ≡ (
        if ltb (quality_order q) (worst_order ms)
        then (elim (first_of (worst_order ms) ms) [ none ↦ w | some m ↦ m ])
        else w)
unfolding poll_peers
poll_peers-first_of [] q w = ground arith
poll_peers-first_of (none ∷ ms) q w = poll_peers-first_of ms q w
poll_peers-first_of (some m ∷ ms) q w =
    let a = quality_order m.quality in
    let below = λ (e : max a (worst_order ms) ≡ worst_order ms). ap (λ (n : ℕ). first_of n ms) e in
    ground (
      arith,
      poll_peers-first_of ms q w,
      poll_peers-first_of ms m.quality m,
      below,
      first_of-some ms,
    )

-- The metrics of the first connection that is as bad as the worst, where that is worse than good, and
-- zeros where every connection is good.
abbrev pub worst_metrics : List (Option VoiceQualityMetrics) → VoiceQualityMetrics
worst_metrics ms =
    if ltb 0 (worst_order ms)
    then (elim (first_of (worst_order ms) ms) [ none ↦ no_metrics | some m ↦ m ])
    else no_metrics

-- The overall quality that the stats loop reports is that of the worst connection that is measured, and
-- the metrics are those of the first connection as bad as that, but zeros where every connection is
-- good.
pub poll_stats-worst_metrics :
    (ms : List (Option VoiceQualityMetrics))
    → (quality_order (poll_stats ms).0 ≡ worst_order ms) × ((poll_stats ms).1 ≡ worst_metrics ms)
unfolding poll_stats quality_order
poll_stats-worst_metrics ms = (
  ground (arith, poll_peers-worst_order ms good no_metrics),
  poll_peers-first_of ms good no_metrics,
)
