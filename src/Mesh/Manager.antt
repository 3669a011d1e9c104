-- ===== src/Mesh/Manager.antt =====
-- client/src/renderer/src/voice/VoiceManager.ts: who is connected to whom. What the browser makes of a
-- request for an offer or an answer is an argument: `none` if it throws, else a text, which may be
-- empty. Each operation returns the state and what it sends and calls, in order; `false` tells that it
-- throws. The audio pipeline and the tracks of a connection are calls of the browser.
use united.Prelude.{
  String, str_eq, str_lt, Bool, true, false, List, [], ◌∷◌, ◌++◌, Option, none, some, if◌then◌else◌,
}
use united.Prelude.Dict.{Dict, lookup, insert, erase}
use united.Mesh.Peer.{PeerConnection, new_peer_connection, take_candidate, describe}

pub data Output : Type 0 where
  sdp_offer : String → String → Output
  sdp_answer : String → String → Output
  speaking : String → Bool → Output
  local_speaking : Bool → Output
  leaves : Output

-- The intervals are the two loops that run or do not.
pub record VoiceManager : Type 0 where
  pub peers : Dict PeerConnection
  pub local_user_id : String
  pub channel_id : String
  pub speaking_interval : Bool
  pub stats_interval : Bool
  pub previous_speaking_state : Dict Bool
  pub local_speaking : Bool

unfoldable pub new_manager : VoiceManager
new_manager = record {
  peers = [];
  local_user_id = "";
  channel_id = "";
  speaking_interval = false;
  stats_interval = false;
  previous_speaking_state = [];
  local_speaking = false;
}

unfoldable pub should_offer : String → VoiceManager → Bool
should_offer remote_user_id m = str_lt m.local_user_id remote_user_id

-- `if (offer.sdp)`
unfoldable pub send_offer : String → Option String → List Output × Bool
send_offer remote_user_id none = ([], false)
send_offer remote_user_id (some sdp) =
    (if str_eq sdp "" then [] else sdp_offer remote_user_id sdp ∷ [], true)

unfoldable pub create_peer_connection :
    String → Bool → Option String → VoiceManager → VoiceManager × (List Output × Bool)
create_peer_connection remote_user_id is_offerer offer m = (
  record m { peers = insert remote_user_id (new_peer_connection remote_user_id) m.peers },
  if is_offerer then send_offer remote_user_id offer else ([], true),
)

-- The loop of `joinChannel`; `offers` is what the browser offers to each peer.
unfoldable pub connect_all :
    List String → (String → Option String) → VoiceManager → VoiceManager × (List Output × Bool)
connect_all [] offers m = (m, ([], true))
connect_all (id ∷ ids) offers m =
    let (m1, (out, ok)) = create_peer_connection id (should_offer id m) (offers id) m in
    let (m2, (more, all_ok)) = connect_all ids offers m1 in
    let skipped = connect_all ids offers m in
    if str_eq id m.local_user_id
    then skipped
    else if ok
    then (m2, (out ++ more, all_ok))
    else (m1, (out, false))

-- `mic` tells whether the microphone could be captured.
unfoldable pub join_channel :
    String
    → String
    → List String
    → (String → Option String)
    → Bool
    → VoiceManager
    → VoiceManager × (List Output × Bool)
join_channel channel_id local_user_id participants offers mic m =
    let m' = record m { channel_id = channel_id; local_user_id = local_user_id } in
    let (m1, (out, ok)) = connect_all participants offers m' in
    if mic
    then (
      if ok then record m1 { speaking_interval = true; stats_interval = true } else m1,
      (out, ok),
    )
    else (m', ([], false))

abbrev pub has_peer : String → VoiceManager → Bool
has_peer id m = elim (lookup id m.peers) [ none ↦ false | some p ↦ true ]

unfoldable pub handle_new_participant :
    String → (String → Option String) → VoiceManager → VoiceManager × (List Output × Bool)
handle_new_participant id offers m =
    if str_eq id m.local_user_id
    then (m, ([], true))
    else if has_peer id m
    then (m, ([], true))
    else create_peer_connection id (should_offer id m) (offers id) m

unfoldable pub close_peer_connection : String → VoiceManager → VoiceManager
close_peer_connection id m =
    if has_peer id m
    then record m {
      peers = erase id m.peers;
      previous_speaking_state = erase id m.previous_speaking_state;
    }
    else m

unfoldable pub handle_participant_left : String → VoiceManager → VoiceManager
handle_participant_left = close_peer_connection

unfoldable pub with_peer : String → (PeerConnection → PeerConnection) → VoiceManager → VoiceManager
with_peer id f m = elim (lookup id m.peers) [
  | none ↦ m
  | some p ↦ record m { peers = insert id (f p) m.peers }
]

-- An offer arrives: until the remote description is set.
unfoldable pub handle_sdp_offer_start : String → VoiceManager → VoiceManager
handle_sdp_offer_start id m =
    if has_peer id m then m else (create_peer_connection id false none m).0

-- The remote description is set, by an offer or by an answer: until the loop over the queue waits. The
-- connection of the user is taken to be the one from before the wait, which the source marks.
unfoldable pub remote_described : String → VoiceManager → VoiceManager
remote_described id m = with_peer id describe m

-- The loop over the queue is over: the answer to an offer.
unfoldable pub send_answer : String → Option String → List Output × Bool
send_answer id none = ([], false)
send_answer id (some sdp) = (if str_eq sdp "" then [] else sdp_answer id sdp ∷ [], true)

unfoldable pub handle_ice_candidate : String → String → VoiceManager → VoiceManager
handle_ice_candidate id candidate m = with_peer id (take_candidate candidate) m

pub data IceConnectionState : Type 0 where
  failed : IceConnectionState
  disconnected : IceConnectionState
  connected : IceConnectionState
  completed : IceConnectionState

-- `oniceconnectionstatechange`; what the browser offers counts for `failed`.
unfoldable pub on_ice_connection_state_change :
    String → IceConnectionState → Option String → VoiceManager → VoiceManager × List Output
on_ice_connection_state_change id failed offer m = (m, (send_offer id offer).0)
on_ice_connection_state_change id disconnected offer m =
    (with_peer id (λ p. record p { has_disconnect_timer = true }) m, [])
on_ice_connection_state_change id connected offer m =
    (with_peer id (λ p. record p { has_disconnect_timer = false }) m, [])
on_ice_connection_state_change id completed offer m =
    (with_peer id (λ p. record p { has_disconnect_timer = false }) m, [])

-- The timer of a connection that stays disconnected.
unfoldable pub on_disconnect_timeout : String → VoiceManager → VoiceManager × List Output
on_disconnect_timeout id m = (close_peer_connection id m, speaking id false ∷ [])

-- Whether the request to leave succeeds makes no difference.
unfoldable pub leave_channel : VoiceManager → VoiceManager × List Output
leave_channel m = (
  record m {
    speaking_interval = false;
    stats_interval = false;
    peers = [];
    previous_speaking_state = [];
    local_speaking = false;
  },
  leaves ∷ [],
)
