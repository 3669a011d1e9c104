-- ===== src/Mesh/Candidates.antt =====
-- No ICE candidate of a connection is lost (voice/VoiceManager.ts).
use united.Prelude.{
  ℕ, zero, suc, ◌≡◌, ◌≢◌, refl, ap, String, str_eq, Bool, true, false, not, ◌&&◌, ◌||◌, List, [],
  ◌∷◌, ◌++◌, any, any-append, inl, inr, Bool-cases, arith,
}
use united.Mesh.Peer.{
  PeerConnection, new_peer_connection, take_candidate, describe, Turn, idle, hands, ends, behind,
  turn, after_turn, process_queued_candidates,
}

-- How a connection comes about, with the candidates that arrived for it in order.
pub data Trace (user_id : String) : List String → PeerConnection → Type 0 where
  created : Trace user_id [] (new_peer_connection user_id)
  arrives :
      {cs : List String} {p : PeerConnection} (candidate : String)
      → Trace user_id cs p
      → Trace user_id (cs ++ candidate ∷ []) (take_candidate candidate p)
  described :
      {cs : List String} {p : PeerConnection} → Trace user_id cs p → Trace user_id cs (describe p)
  turns :
      {cs : List String} {p : PeerConnection} (i : ℕ)
      → Trace user_id cs p
      → Trace user_id cs (process_queued_candidates i p)

abbrev pub has : String → List String → Bool
has c cs = any (λ (x : String). str_eq x c) cs

abbrev pub queued : String → List (List String) → Bool
queued c ls = any (λ (l : List String). has c l) ls

-- Before the description is set nothing is handed over and all that arrived waits, in order; from then
-- on all that arrived is handed over or left to a loop, and nothing else is handed over.
pub record IsComplete (cs : List String) (p : PeerConnection) : Type 0 where
  pub waits :
      p.remote_description_set ≡ false
      → (p.pending_candidates ≡ cs) × ((p.handed ≡ []) × (p.loops ≡ []))
  pub flows :
      p.remote_description_set ≡ true
      → (c : String) → has c cs ≡ (has c p.handed || queued c p.loops)
  pub queue : (c : String) → has c p.pending_candidates ≡ true → has c cs ≡ true

-- What a turn leaves of the candidates that the loops have.
abbrev pub Left : String → List (List String) → Turn → Type 0
Left x ls idle = queued x ls ≡ queued x ls
Left x ls (hands c ls') = queued x ls ≡ (str_eq c x || queued x ls')
Left x ls (ends ls') = queued x ls ≡ queued x ls'

behind-Left :
    (x : String) (l : List String) (ls : List (List String)) (t : Turn)
    → Left x ls t
    → Left x (l ∷ ls) (behind l t)
behind-Left x l ls idle e = refl
behind-Left x l ls (hands c ls') e = ground (arith, e)
behind-Left x l ls (ends ls') e = ap (λ (b : Bool). has x l || b) e

turn-Left : (x : String) (i : ℕ) (ls : List (List String)) → Left x ls (turn i ls)
turn-Left x i [] = refl
turn-Left x zero ([] ∷ ls) = refl
turn-Left x zero ((c ∷ cs) ∷ ls) = ground arith
turn-Left x (suc i) (l ∷ ls) = behind-Left x l ls (turn i ls) (turn-Left x i ls)

has-append : (x c : String) (cs : List String) → has x (cs ++ c ∷ []) ≡ (has x cs || str_eq c x)
has-append x c cs = ground (arith, any-append (λ (y : String). str_eq y x) cs (c ∷ []))

queued-append :
    (x : String) (l : List String) (ls : List (List String))
    → queued x (ls ++ l ∷ []) ≡ (queued x ls || has x l)
queued-append x l ls = ground (arith, any-append (λ (m : List String). has x m) ls (l ∷ []))

take_candidate-IsComplete :
    (c : String) (cs : List String) (p : PeerConnection)
    → IsComplete cs p
    → IsComplete (cs ++ c ∷ []) (take_candidate c p)
unfolding take_candidate
take_candidate-IsComplete c cs p v = elim (Bool-cases p.remote_description_set) [
  | inl e ↦ rw e (record {
    waits = λ f. absurd (cc);
    flows = λ f x. ground (arith, v.flows e x, has-append x c cs, has-append x c p.handed);
    queue = λ x h. ground (arith, v.queue x h, has-append x c cs);
  })
  | inr e ↦
      let (pending, none_yet) = v.waits e in
      rw e (record {
        waits = λ f. (ap (λ (ds : List String). ds ++ c ∷ []) pending, none_yet);
        flows = λ f. absurd (cc);
        queue = λ x h.
            ground (arith, v.queue x, has-append x c cs, has-append x c p.pending_candidates);
      })
]

describe-IsComplete :
    (cs : List String) (p : PeerConnection) → IsComplete cs p → IsComplete cs (describe p)
unfolding describe
describe-IsComplete cs p v = record {
  waits = λ f. absurd (cc);
  flows = λ f x. elim (Bool-cases p.remote_description_set) [
    | inl e ↦ ground (arith, v.flows e x, queued-append x p.pending_candidates p.loops, v.queue x)
    | inr e ↦
        let (pending, (unhanded, unlooped)) = v.waits e in
        rw (queued-append x p.pending_candidates p.loops, pending, unhanded, unlooped) refl
  ];
  queue = v.queue;
}

hands-idle : (c : String) (ls : List (List String)) → hands c ls ≢ idle
hands-idle c ls e = absurd (cc)

ends-idle : (ls : List (List String)) → ends ls ≢ idle
ends-idle ls e = absurd (cc)

-- Only a connection with a described remote side has loops.
after_turn-IsComplete :
    (t : Turn) (cs : List String) (p : PeerConnection)
    → ((x : String) → Left x p.loops t)
    → (p.loops ≡ [] → t ≡ idle)
    → IsComplete cs p
    → IsComplete cs (after_turn t p)
unfolding after_turn
after_turn-IsComplete idle cs p left none_left v = v
after_turn-IsComplete (hands c ls) cs p left none_left v = record {
  waits = λ f. absurd (hands-idle c ls (none_left (v.waits f).1.1));
  flows = λ f x. ground (arith, v.flows f x, left x, has-append x c p.handed);
  queue = v.queue;
}
after_turn-IsComplete (ends ls) cs p left none_left v = record {
  waits = λ f. absurd (ends-idle ls (none_left (v.waits f).1.1));
  flows = λ f x. ground (arith, v.flows f x, left x);
  queue = λ x h. absurd (cc);
}

turn-nil : (i : ℕ) (ls : List (List String)) → ls ≡ [] → turn i ls ≡ idle
turn-nil i [] e = refl
turn-nil i (l ∷ ls) e = absurd (cc)

Trace-IsComplete :
    {user_id : String} {cs : List String} {p : PeerConnection}
    → Trace user_id cs p
    → IsComplete cs p
unfolding new_peer_connection process_queued_candidates
Trace-IsComplete created = record {
  waits = λ f. (refl, (refl, refl));
  flows = λ f. absurd (cc);
  queue = λ x h. h;
}
Trace-IsComplete (arrives {cs} {p} c t) = take_candidate-IsComplete c cs p (Trace-IsComplete t)
Trace-IsComplete (described {cs} {p} t) = describe-IsComplete cs p (Trace-IsComplete t)
Trace-IsComplete (turns {cs} {p} i t) =
    after_turn-IsComplete (turn i p.loops) cs p (λ x. turn-Left x i p.loops) (turn-nil i p.loops)
      (Trace-IsComplete t)

-- However candidates, descriptions and the turns of the loops over the queue follow on each other, no
-- ICE candidate of a connection is lost and none is made up: what arrived is what was handed to the
-- browser's connection, what a loop that runs has left, and, until the remote description is set, what
-- waits in the queue.
pub Trace-handed :
    {user_id : String} {cs : List String} {p : PeerConnection} (c : String)
    → Trace user_id cs p
    → has c cs ≡ (
        has c p.handed
        || (queued c p.loops || (not p.remote_description_set && has c p.pending_candidates)))
Trace-handed {cs = cs} {p = p} c t =
    let v = Trace-IsComplete t in
    elim (Bool-cases p.remote_description_set) [
      | inl e ↦ ground (arith, v.flows e c)
      | inr e ↦
          let (pending, (unhanded, unlooped)) = v.waits e in
          rw (e, pending, unhanded, unlooped) refl
    ]
