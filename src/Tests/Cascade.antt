-- ===== src/Tests/Cascade.antt =====
-- Runs of the lookup through all layers.
use united.Prelude.{ℕ, ◌≡◌, ◌≢◌, refl, String, Bool, true, List, [], ◌∷◌, Option, none, some}
use united.Blocks.Types.{Buffer}
use united.Blocks.Store.{BlockStore, get_local_block}
use united.Blocks.Protocol.{response, Network, fetch_from_hot_peers, serve_block}
use united.Blocks.Cascade.{not_asked, World, resolve_block, resolve_block_with_progress}
use united.Blocks.Resolve.{sha256_hex-resolve_block}
use united.Blocks.Exchange.{
  fetch_from_hot_peers-serve_block, resolve_block_with_progress-resolve_block,
}
use united.Tests.Platform.{plain_platform}
use united.Tests.Blocks.{
  zeros, length-zeros, empty_store, empty_store-IsSound, one_block, one_block-IsSound, read_back,
}

-- Two peers, the second of which serves the block.
abbrev net : Network
net = record {
  connections = "idle" ∷ "seed" ∷ "idle" ∷ [];
  answer = λ id. response (serve_block plain_platform "one" 200 one_block).1 true;
  settle = λ ids. ids;
}

abbrev world : World
world = record { hot = some net; discovered = none; server = not_asked }

found : fetch_from_hot_peers plain_platform "one" net ≡ some (1 ∷ 2 ∷ [])
unfolding fetch_from_hot_peers united.Blocks.Protocol.unique_peers
    united.Blocks.Protocol.promise_any united.Blocks.Protocol.fetch_block_from_peer serve_block
    get_local_block united.Blocks.Store.read_local united.Blocks.Store.put_block
    united.Blocks.Store.put_new united.Blocks.Store.cache_and_return united.Prelude.Dict.lookup
    united.Prelude.Dict.insert
found = refl

resolved : (resolve_block plain_platform "one" 200 zeros world empty_store).1 ≡ some (1 ∷ 2 ∷ [])
unfolding resolve_block united.Blocks.Cascade.from_memory united.Blocks.Cascade.from_peers
    united.Blocks.Cascade.persist fetch_from_hot_peers united.Blocks.Protocol.unique_peers
    united.Blocks.Protocol.promise_any united.Blocks.Protocol.fetch_block_from_peer serve_block
    get_local_block united.Blocks.Store.read_local united.Blocks.Store.put_block
    united.Blocks.Store.put_new united.Blocks.Store.cache_and_return united.Prelude.Dict.lookup
    united.Prelude.Dict.insert
resolved = refl

sha256_hex-resolve_block_example : plain_platform.sha256_hex (1 ∷ 2 ∷ []) ≡ "one"
sha256_hex-resolve_block_example =
    sha256_hex-resolve_block plain_platform "one" (7 ∷ []) 200 zeros length-zeros world empty_store
      (1 ∷ 2 ∷ []) empty_store-IsSound tt resolved

fetch_from_hot_peers-serve_block_example :
    (b : Buffer) × (fetch_from_hot_peers plain_platform "one" net ≡ some b)
fetch_from_hot_peers-serve_block_example =
    fetch_from_hot_peers-serve_block plain_platform (7 ∷ []) "one" net "seed" 200 one_block
      (1 ∷ 2 ∷ []) one_block-IsSound read_back (λ e. cc) refl refl (λ ids h. h)

resolve_block_with_progress-resolve_block_example :
    (resolve_block_with_progress plain_platform "one" 200 zeros world empty_store).1
    ≡ resolve_block plain_platform "one" 200 zeros world empty_store
resolve_block_with_progress-resolve_block_example =
    resolve_block_with_progress-resolve_block plain_platform "one" 200 zeros world empty_store
