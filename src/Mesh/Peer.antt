-- ===== src/Mesh/Peer.antt =====
-- One connection of client/src/renderer/src/voice/VoiceManager.ts: its queue of ICE candidates. The
-- browser's RTCPeerConnection is what takes the candidates; `handed` are those that it was given. The
-- loop over the queue waits after each candidate, so that other events come between: `loops` has what
-- each loop that runs has left. A candidate is its text.
use united.Prelude.{ℕ, zero, suc, String, Bool, true, false, List, [], ◌∷◌, ◌++◌, if◌then◌else◌}

pub record PeerConnection : Type 0 where
  pub user_id : String
  pub pending_candidates : List String
  pub remote_description_set : Bool
  pub has_disconnect_timer : Bool
  pub handed : List String
  pub loops : List (List String)

unfoldable pub new_peer_connection : String → PeerConnection
new_peer_connection user_id = record {
  user_id = user_id;
  pending_candidates = [];
  remote_description_set = false;
  has_disconnect_timer = false;
  handed = [];
  loops = [];
}

-- A candidate arrives.
unfoldable pub take_candidate : String → PeerConnection → PeerConnection
take_candidate candidate p =
    if p.remote_description_set
    then record p { handed = p.handed ++ candidate ∷ [] }
    else record p { pending_candidates = p.pending_candidates ++ candidate ∷ [] }

-- The remote description is set, and the loop over the queue begins.
unfoldable pub describe : PeerConnection → PeerConnection
describe p = record p {
  remote_description_set = true;
  loops = p.loops ++ p.pending_candidates ∷ [];
}

-- What the next turn of a loop does: nothing, since there is no such loop, hand over a candidate, or
-- end.
pub data Turn : Type 0 where
  idle : Turn
  hands : String → List (List String) → Turn
  ends : List (List String) → Turn

abbrev pub behind : List String → Turn → Turn
behind l idle = idle
behind l (hands c ls) = hands c (l ∷ ls)
behind l (ends ls) = ends (l ∷ ls)

abbrev pub turn : ℕ → List (List String) → Turn
turn i [] = idle
turn zero ([] ∷ ls) = ends ls
turn zero ((c ∷ cs) ∷ ls) = hands c (cs ∷ ls)
turn (suc i) (l ∷ ls) = behind l (turn i ls)

unfoldable pub after_turn : Turn → PeerConnection → PeerConnection
after_turn idle p = p
after_turn (hands c ls) p = record p { handed = p.handed ++ c ∷ []; loops = ls }
after_turn (ends ls) p = record p { pending_candidates = []; loops = ls }

-- The body of the loop of `processQueuedCandidates`, once for its `i`-th call that is not over.
unfoldable pub process_queued_candidates : ℕ → PeerConnection → PeerConnection
process_queued_candidates i p = after_turn (turn i p.loops) p
