-- ===== src/Blocks/Exchange.antt =====
-- Peers that have a block and peers that ask for it (client/src/main/blocks/protocol.ts), and the lookup
-- that reports its progress (client/src/main/blocks/cascade.ts).
use united.Prelude.{
  ℕ, ◌≡◌, ◌≢◌, refl, ap, ◌∙◌, String, str_eq, eq_iff, eq_refl, Bool, true, false, List, [], ◌∷◌,
  ◌++◌, map, Option, none, some, inl, inr, arith, any, Option-cases, Bool-cases,
}
use united.Blocks.Types.{Buffer}
use united.Blocks.Store.{Platform, BlockStore, get_local_block}
use united.Blocks.Protocol.{
  response, Network, unique_peers, promise_any, fetch_block_from_peer, fetch_from_hot_peers,
  serve_block,
}
use united.Blocks.Cascade.{
  World, l1, l2, l3, l4, Progress, announce, or_next, or_next_layer, from_memory, from_peers,
  from_directory, from_server, resolve_block, resolve_block_with_progress,
}
use united.Blocks.Sound.{IsSound}
use united.Blocks.Integrity.{sha256_hex-get_local_block}

abbrev pub is_among : String → List String → Bool
is_among id = any (λ x. str_eq x id)

promise_any_found :
    (f : String → Option Buffer) (id : String) (ids : List String) (block : Buffer)
    → is_among id ids ≡ true
    → f id ≡ some block
    → (b : Buffer) × (promise_any (map f ids) ≡ some b)
unfolding promise_any
promise_any_found f id [] block h e = absurd (cc)
promise_any_found f id (x ∷ xs) block h e = elim (Option-cases (f x)) [
  | inr (b, found) ↦ (b, rw (found, promise_any) refl)
  | inl failed ↦
      let elsewhere : is_among id xs ≡ true = ground (arith, eq_iff x id, failed, e) in
      rw (failed, promise_any) (promise_any_found f id xs block elsewhere e)
]

is_among-append_one :
    (id x : String) (xs : List String)
    → is_among id xs ≡ false
    → str_eq x id ≡ false
    → is_among id (xs ++ x ∷ []) ≡ false
is_among-append_one id x [] h ne = rw ne refl
is_among-append_one id x (y ∷ ys) h ne = ground (arith, is_among-append_one id x ys)

unique_peers-is_among :
    (id : String) (seen peers : List String)
    → is_among id peers ≡ true
    → is_among id seen ≡ false
    → is_among id (unique_peers seen peers) ≡ true
unfolding unique_peers
unique_peers-is_among id seen [] h fresh = absurd (cc)
unique_peers-is_among id seen (x ∷ xs) h fresh = elim (Bool-cases (str_eq x id)) [
  | inl same ↦
      let is : x ≡ id = (eq_iff x id).0 same in
      let unseen_yet : is_among x seen ≡ false = rw is fresh in rw unseen_yet (rw same refl)
  | inr other ↦
      let later : is_among id xs ≡ true = ground arith in
      elim (Bool-cases (is_among x seen)) [
        | inl old ↦ rw old (unique_peers-is_among id seen xs later fresh)
        | inr new ↦
            rw (new, other)
              (unique_peers-is_among id (seen ++ x ∷ []) xs later
                (is_among-append_one id x seen fresh other))
      ]
]

module _ (p : Platform) (key : Buffer) (hash : String) where
  -- A block that a peer with a sound store can read is accepted by the peer that asked for it.
  fetch_block_from_peer-serve_block :
      (now : ℕ) (s : BlockStore p) (block : Buffer)
      → IsSound p key s
      → (get_local_block p hash now s).1 ≡ some block
      → block ≢ []
      → fetch_block_from_peer p hash (response (serve_block p hash now s).1 true) ≡ some block
  unfolding serve_block fetch_block_from_peer
  fetch_block_from_peer-serve_block now s block v e ne =
      let sent : (serve_block p hash now s).1 ≡ block =
        ap (λ (o : Option Buffer). elim o [ none ↦ [] | some b ↦ b ]) e in
      ap (λ b. fetch_block_from_peer p hash (response b true)) sent
      ∙ go block ne (sha256_hex-get_local_block p key hash now s block v e)
    where
      go :
          (b : Buffer)
          → b ≢ []
          → p.sha256_hex b ≡ hash
          → fetch_block_from_peer p hash (response b true) ≡ some b
      go [] ne right = absurd (ne refl)
      go (b ∷ bs) ne right = rw right (rw (eq_refl hash) refl)

  -- If one of the connected peers serves the block from a sound store in which it can read it, the block
  -- not being empty, and no request is lost from the order in which they end, the fetch from all
  -- connected peers finds a block, whatever the other peers answer.
  pub fetch_from_hot_peers-serve_block :
      (net : Network) (id : String) (now : ℕ) (s : BlockStore p) (block : Buffer)
      → IsSound p key s
      → (get_local_block p hash now s).1 ≡ some block
      → block ≢ []
      → is_among id net.connections ≡ true
      → net.answer id ≡ response (serve_block p hash now s).1 true
      → ((ids : List String) → is_among id ids ≡ true → is_among id (net.settle ids) ≡ true)
      → (b : Buffer) × (fetch_from_hot_peers p hash net ≡ some b)
  unfolding fetch_from_hot_peers
  fetch_from_hot_peers-serve_block net id now s block v e ne connected served settles =
      go (unique_peers [] net.connections)
        (unique_peers-is_among id [] net.connections connected refl)
    where
      go :
          (ids : List String)
          → is_among id ids ≡ true
          → (b : Buffer) × (elim ids [
            | [] ↦ none
            | peer ∷ peers ↦ promise_any (
                map
                  (λ id. fetch_block_from_peer p hash (net.answer id))
                  (net.settle (peer ∷ peers)))
          ]
              ≡ some b)
      go [] h = absurd (cc)
      go (x ∷ xs) h =
          promise_any_found (λ id. fetch_block_from_peer p hash (net.answer id)) id
            (net.settle (x ∷ xs)) block (settles (x ∷ xs) h)
            (ap (fetch_block_from_peer p hash) served
              ∙ fetch_block_from_peer-serve_block now s block v e ne)

module _ (p : Platform) (hash : String) (now : ℕ) (random : ℕ → Buffer) where
  or_next_layer-or_next :
      (r : BlockStore p × Option Buffer) (next : BlockStore p → Progress p hash now random)
      (next' : BlockStore p → BlockStore p × Option Buffer)
      → ((s : BlockStore p) → (next s).1 ≡ next' s)
      → (or_next_layer p hash now random r next).1 ≡ or_next p hash now random r next'
  or_next_layer-or_next (s, none) next next' same = same s
  or_next_layer-or_next (s, some block) next next' same = refl

  -- The lookup that reports its progress finds what the other one finds, and leaves the same store.
  pub resolve_block_with_progress-resolve_block :
      (world : World) (s : BlockStore p)
      → (resolve_block_with_progress p hash now random world s).1
        ≡ resolve_block p hash now random world s
  unfolding resolve_block_with_progress resolve_block
  resolve_block_with_progress-resolve_block world s =
      let step = or_next_layer p hash now random in
      let plain = or_next p hash now random in
      let peers = from_peers p hash now random world.hot in
      let directory = from_directory p hash now random world in
      let server = from_server p hash now random world.server in
      let disk = get_local_block p hash now in
      let n₄ : BlockStore p → Progress p hash now random =
        λ s₄. announce p hash now random l4 ([], server s₄) in
      let n₃ : BlockStore p → Progress p hash now random =
        λ s₃. announce p hash now random l3 (step (directory s₃) n₄) in
      let n₂ : BlockStore p → Progress p hash now random =
        λ s₂. announce p hash now random l2 (step (peers s₂) n₃) in
      let n₁ : BlockStore p → Progress p hash now random =
        λ s₁. announce p hash now random l1 (step (disk s₁) n₂) in
      let m₃ = λ (s₃ : BlockStore p). plain (directory s₃) server in
      let m₂ = λ (s₂ : BlockStore p). plain (peers s₂) m₃ in
      let m₁ = λ (s₁ : BlockStore p). plain (disk s₁) m₂ in
      or_next_layer-or_next (from_memory p hash now random s) n₁ m₁ λ s₁.
        or_next_layer-or_next (disk s₁) n₂ m₂ λ s₂.
          or_next_layer-or_next (peers s₂) n₃ m₃
            λ s₃. or_next_layer-or_next (directory s₃) n₄ server λ s₄. refl
