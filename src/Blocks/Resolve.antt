-- ===== src/Blocks/Resolve.antt =====
-- What the layers of a lookup return and leave behind (client/src/main/blocks/cascade.ts, protocol.ts).
use united.Prelude.{
  ℕ, ◌≡◌, refl, sym, subst, ◌∙◌, String, str_eq, eq_iff, List, [], ◌∷◌, map, Option, none, some,
  inl, inr, arith, length, Option-cases, Bool-cases,
}
use united.Blocks.Types.{Buffer, ContentTier, warm, altruistic}
use united.Blocks.Store.{
  Platform, BlockStore, Outcome, returns, throws, put_block, cached, get_local_block,
}
use united.Blocks.Protocol.{
  PeerAnswer, stream_error, response, Network, unique_peers, promise_any, fetch_block_from_peer,
  fetch_from_hot_peers,
}
use united.Blocks.Cascade.{
  ServerAnswer, not_asked, request_error, not_ok, ok, World, no_info, persist, from_peers,
  from_directory, from_server, or_next, from_memory, resolve_block,
}
use united.Blocks.Sound.{IsSound, after_lookup-IsSound}
use united.Blocks.Integrity.{put_block-IsSound, get_local_block-IsSound, sha256_hex-get_local_block}

promise_any-map :
    (f : String → Option Buffer) (ids : List String) (block : Buffer)
    → promise_any (map f ids) ≡ some block
    → (id : String) × (f id ≡ some block)
unfolding promise_any
promise_any-map f [] block e = absurd (cc)
promise_any-map f (id ∷ ids) block e = elim (Option-cases (f id)) [
  | inl failed ↦ promise_any-map f ids block (rw (failed, promise_any) at e)
  | inr (b, found) ↦ (id, found ∙ (rw (found, promise_any) at e))
]

module _ (p : Platform) (hash : String) where
  sha256_hex-fetch_block_from_peer :
      (answer : PeerAnswer) (block : Buffer)
      → fetch_block_from_peer p hash answer ≡ some block
      → p.sha256_hex block ≡ hash
  unfolding fetch_block_from_peer
  sha256_hex-fetch_block_from_peer stream_error block e = absurd (cc)
  sha256_hex-fetch_block_from_peer (response [] closes) block e = absurd (cc)
  sha256_hex-fetch_block_from_peer (response (b ∷ bs) closes) block e =
      elim (Bool-cases (str_eq (p.sha256_hex (b ∷ bs)) hash)) [
        | inl right ↦
            let is : b ∷ bs ≡ block = ground arith in
            rw (sym is) (ground (arith, eq_iff (p.sha256_hex (b ∷ bs)) hash))
        | inr wrong ↦ absurd (ground arith)
      ]

  -- Whatever the peers answer and in whatever order, a block that is fetched from them has the hash
  -- that was asked for.
  pub sha256_hex-fetch_from_hot_peers :
      (net : Network) (block : Buffer)
      → fetch_from_hot_peers p hash net ≡ some block
      → p.sha256_hex block ≡ hash
  unfolding fetch_from_hot_peers
  sha256_hex-fetch_from_hot_peers net block e = go (unique_peers [] net.connections) e
    where
      go :
          (ids : List String)
          → elim ids [
            | [] ↦ none
            | peer ∷ peers ↦ promise_any (
                map
                  (λ id. fetch_block_from_peer p hash (net.answer id))
                  (net.settle (peer ∷ peers)))
          ]
            ≡ some block
          → p.sha256_hex block ≡ hash
      go [] e = absurd (cc)
      go (peer ∷ peers) e =
          let (id, found) =
            promise_any-map (λ id. fetch_block_from_peer p hash (net.answer id))
              (net.settle (peer ∷ peers)) block e in
          sha256_hex-fetch_block_from_peer (net.answer id) block found

  -- The server sends the block that was asked for.
  abbrev pub SendsRight : ServerAnswer → Type 0
  SendsRight not_asked = Unit
  SendsRight request_error = Unit
  SendsRight not_ok = Unit
  SendsRight (ok block) = p.sha256_hex block ≡ hash

  module _ (key : Buffer) (now : ℕ) (random : ℕ → Buffer) (fills : (n : ℕ) → length (random n) ≡ n)
      (world : World) where
    -- The store is sound, and what was found has the hash, if the server can be relied on.
    abbrev ResolvesRight : BlockStore p × Option Buffer → Type 0
    ResolvesRight r =
        IsSound p key r.0
        × ((block : Buffer)
            → r.1 ≡ some block
            → SendsRight world.server
            → p.sha256_hex block ≡ hash)

    or_next-ResolvesRight :
        (r : BlockStore p × Option Buffer) (next : BlockStore p → BlockStore p × Option Buffer)
        → ResolvesRight r
        → ((s : BlockStore p) → IsSound p key s → ResolvesRight (next s))
        → ResolvesRight (or_next p hash now random r next)
    or_next-ResolvesRight (s, none) next h keeps = keeps s h.0
    or_next-ResolvesRight (s, some block) next h keeps = h

    persist-ResolvesRight :
        (tier : ContentTier) (block : Buffer) (s : BlockStore p)
        → (SendsRight world.server → p.sha256_hex block ≡ hash)
        → IsSound p key s
        → ResolvesRight (persist p hash now random tier block s)
    unfolding persist
    persist-ResolvesRight tier block s right v = (
      put_block-IsSound p key block tier no_info now random s fills v,
      go (put_block p block tier no_info now random s).1,
    )
      where
        go :
            (o : Outcome String) (b : Buffer)
            → elim o [ returns h ↦ some block | throws e ↦ none ] ≡ some b
            → SendsRight world.server
            → p.sha256_hex b ≡ hash
        go (returns h) b e honest = let is : block ≡ b = cc in rw (sym is) (right honest)
        go (throws t) b e honest = absurd (cc)

    from_peers-ResolvesRight :
        (net : Option Network) (s : BlockStore p)
        → IsSound p key s
        → ResolvesRight (from_peers p hash now random net s)
    unfolding from_peers
    from_peers-ResolvesRight none s v = (v, λ b e honest. absurd (cc))
    from_peers-ResolvesRight (some net) s v =
        elim (Option-cases (fetch_from_hot_peers p hash net)) [
          | inl e ↦ rw (e, from_peers) (v, λ b q honest. absurd (cc))
          | inr (block, e) ↦
              rw (e, from_peers)
                (persist-ResolvesRight warm block s
                  (λ h. sha256_hex-fetch_from_hot_peers net block e) v)
        ]

    from_directory-ResolvesRight :
        (s : BlockStore p)
        → IsSound p key s
        → ResolvesRight (from_directory p hash now random world s)
    unfolding from_directory
    from_directory-ResolvesRight s v = elim (Option-cases world.hot) [
      | inl e ↦ rw (e, from_directory) (v, λ b q honest. absurd (cc))
      | inr (net, e) ↦ rw (e, from_directory) (from_peers-ResolvesRight world.discovered s v)
    ]

    from_server-ResolvesRight :
        (s : BlockStore p)
        → IsSound p key s
        → ResolvesRight (from_server p hash now random world.server s)
    unfolding from_server
    from_server-ResolvesRight s v = go world.server refl
      where
        go :
            (a : ServerAnswer)
            → world.server ≡ a
            → ResolvesRight (from_server p hash now random a s)
        go not_asked e = (v, λ b q honest. absurd (cc))
        go request_error e = (v, λ b q honest. absurd (cc))
        go not_ok e = (v, λ b q honest. absurd (cc))
        go (ok block) e =
            persist-ResolvesRight altruistic block s (λ honest. subst SendsRight e honest) v

    get_local_block-ResolvesRight :
        (s : BlockStore p) → IsSound p key s → ResolvesRight (get_local_block p hash now s)
    get_local_block-ResolvesRight s v = (
      get_local_block-IsSound p key hash now s v,
      λ b e honest. sha256_hex-get_local_block p key hash now s b v e,
    )

    from_memory_hit :
        (s : BlockStore p) (block : Buffer)
        → cached p hash s ≡ some block
        → get_local_block p hash now s ≡ from_memory p hash now random s
    unfolding from_memory get_local_block
    from_memory_hit s block e = rw (e, from_memory, get_local_block) refl

    from_memory-ResolvesRight :
        (s : BlockStore p) → IsSound p key s → ResolvesRight (from_memory p hash now random s)
    unfolding from_memory
    from_memory-ResolvesRight s v = elim (Option-cases (cached p hash s)) [
      | inl e ↦ rw (e, from_memory) (after_lookup-IsSound p key hash s v, λ b q honest. absurd (cc))
      | inr (block, e) ↦
          subst ResolvesRight (from_memory_hit s block e) (get_local_block-ResolvesRight s v)
    ]

    resolve_block-ResolvesRight :
        (s : BlockStore p)
        → IsSound p key s
        → ResolvesRight (resolve_block p hash now random world s)
    unfolding resolve_block
    resolve_block-ResolvesRight s v =
        or_next-ResolvesRight _ _ (from_memory-ResolvesRight s v) λ s₁ v₁.
          or_next-ResolvesRight _ _ (get_local_block-ResolvesRight s₁ v₁) λ s₂ v₂.
            or_next-ResolvesRight _ _ (from_peers-ResolvesRight world.hot s₂ v₂) λ s₃ v₃.
              or_next-ResolvesRight _ _ (from_directory-ResolvesRight s₃ v₃)
                from_server-ResolvesRight

    -- A lookup through all layers leaves a sound store sound, whatever the peers and the
    -- server send, where the random source fills its buffers.
    pub resolve_block-IsSound :
        (s : BlockStore p)
        → IsSound p key s
        → IsSound p key (resolve_block p hash now random world s).0
    resolve_block-IsSound s v = (resolve_block-ResolvesRight s v).0

    -- From a sound store, what a lookup through all layers returns has the hash that was
    -- asked for, whatever the peers send, if the block that the server sends has it and the
    -- random source fills its buffers.
    pub sha256_hex-resolve_block :
        (s : BlockStore p) (block : Buffer)
        → IsSound p key s
        → SendsRight world.server
        → (resolve_block p hash now random world s).1 ≡ some block
        → p.sha256_hex block ≡ hash
    sha256_hex-resolve_block s block v honest e = (resolve_block-ResolvesRight s v).1 block e honest
