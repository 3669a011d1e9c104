-- ===== src/Discovery/Directory.antt =====
-- client/src/main/p2p/discovery.ts: the peers that the directory of the server names. The dials of
-- libp2p are arguments; a connection that is made counts for the peers that follow.
use united.Prelude.{String, str_eq, Bool, false, List, [], ◌∷◌, any, if◌then◌else◌}

-- An entry of the directory; the kind of its NAT is a text, which may be empty.
pub record ProtoPeerInfo : Type 0 where
  pub united_id : String
  pub peer_id : String
  pub multiaddrs : List String
  pub channels : List String
  pub nat_type : String

pub record PeerInfo : Type 0 where
  pub united_id : String
  pub peer_id : String
  pub multiaddrs : List String
  pub channels : List String
  pub nat_type : String
  pub relayed : Bool

unfoldable pub proto_peer_to_local : ProtoPeerInfo → Bool → PeerInfo
proto_peer_to_local proto relayed = record {
  united_id = proto.united_id;
  peer_id = proto.peer_id;
  multiaddrs = proto.multiaddrs;
  channels = proto.channels;
  nat_type = if str_eq proto.nat_type "" then "unknown" else proto.nat_type;
  relayed = relayed;
}

-- The loop over the answer: what is returned. `connections` are the peers that are connected, and
-- `dials` tells which addresses answer.
unfoldable pub connect_peers :
    String → (String → Bool) → List String → List ProtoPeerInfo → List PeerInfo
connect_peers self dials connections [] = []
connect_peers self dials connections (peer ∷ peers) =
    let known = any (λ (id : String). str_eq id peer.peer_id) connections in
    let rest = connect_peers self dials connections peers in
    let after = connect_peers self dials (peer.peer_id ∷ connections) peers in
    if str_eq peer.peer_id self
    then rest
    else if known
    then proto_peer_to_local peer false ∷ rest
    else if any dials peer.multiaddrs
    then proto_peer_to_local peer false ∷ after
    else rest
