-- ===== src/Blocks/Protocol.antt =====
-- client/src/main/blocks/protocol.ts: blocks exchanged with other peers. The streams are those of libp2p:
-- what a peer answers, and in which order requests end, are arguments. The counters of bytes and blocks
-- are not modelled.
use united.Prelude.{
  String, str_eq, Bool, List, [], ◌∷◌, ◌++◌, map, Option, none, some, any, ℕ, if◌then◌else◌,
}
use united.Blocks.Types.{Buffer}
use united.Blocks.Store.{Platform, BlockStore, get_local_block}

-- What comes of a request: an error of the stream, or the bytes of the response, after which the
-- stream closes or fails to.
pub data PeerAnswer : Type 0 where
  stream_error : PeerAnswer
  response : Buffer → Bool → PeerAnswer

-- `unique_peers` in the order of the connections; `seen` is `seenPeerIds`.
unfoldable pub unique_peers : List String → List String → List String
unique_peers seen [] = []
unique_peers seen (peer ∷ peers) =
    let rest = unique_peers seen peers in
    let later = unique_peers (seen ++ peer ∷ []) peers in
    if any (λ x. str_eq x peer) seen then rest else peer ∷ later

-- The first request that succeeds wins (`Promise.any`).
unfoldable pub promise_any : List (Option Buffer) → Option Buffer
promise_any [] = none
promise_any (none ∷ rs) = promise_any rs
promise_any (some block ∷ rs) = some block

-- The connections, what each peer answers, and the order in which the requests end.
pub record Network : Type 0 where
  pub connections : List String
  pub answer : String → PeerAnswer
  pub settle : List String → List String

module _ (p : Platform) where
  -- The block; `none` is an error.
  unfoldable pub fetch_block_from_peer : String → PeerAnswer → Option Buffer
  fetch_block_from_peer hash stream_error = none
  fetch_block_from_peer hash (response [] closes) = none
  fetch_block_from_peer hash (response (b ∷ bs) closes) =
      if str_eq (p.sha256_hex (b ∷ bs)) hash then (if closes then some (b ∷ bs) else none) else none

  unfoldable pub fetch_from_hot_peers : String → Network → Option Buffer
  fetch_from_hot_peers hash net = elim (unique_peers [] net.connections) [
    | [] ↦ none
    | peer ∷ peers ↦
        promise_any
          (map (λ id. fetch_block_from_peer hash (net.answer id)) (net.settle (peer ∷ peers)))
  ]

  -- The handler of the protocol: the response to a request, which is empty for a block that is not
  -- there.
  unfoldable pub serve_block : String → ℕ → BlockStore p → BlockStore p × Buffer
  serve_block hash now s =
      let (s', found) = get_local_block p hash now s in
      (s', elim found [ none ↦ [] | some block ↦ block ])
