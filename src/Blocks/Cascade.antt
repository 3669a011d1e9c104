-- ===== src/Blocks/Cascade.antt =====
-- client/src/main/blocks/cascade.ts: a block is looked up in five layers: the cache, the disk, the peers
-- that are connected, the peers that a directory adds, and the server.
use united.Prelude.{ℕ, String, List, [], ◌∷◌, Option, none, some}
use united.Blocks.Types.{Buffer, ContentTier, warm, altruistic, BlockInfo}
use united.Blocks.Store.{
  Platform, BlockStore, returns, throws, put_block, touch_access, cached, after_lookup,
  get_local_block,
}
use united.Blocks.Protocol.{Network, fetch_from_hot_peers}

-- What comes of the request to the server, where a URL and a token are there.
pub data ServerAnswer : Type 0 where
  not_asked request_error not_ok : ServerAnswer
  ok : Buffer → ServerAnswer

-- `hot` is `none` where there is no node; `discovered` is `none` where the directory has no peers, or
-- the request to it fails.
pub record World : Type 0 where
  pub hot : Option Network
  pub discovered : Option Network
  pub server : ServerAnswer

pub data Layer : Type 0 where
  l0 l1 l2 l3 l4 : Layer

abbrev pub no_info : BlockInfo
no_info = record { mime_type = none; width = none; height = none; filename = none }

module _ (p : Platform) (hash : String) (now : ℕ) (random : ℕ → Buffer) where
  -- `putBlock(data, tier)`, and then `return data`; an exception leads on to the next layer, with what
  -- `putBlock` had done by then.
  unfoldable pub persist : ContentTier → Buffer → BlockStore p → BlockStore p × Option Buffer
  persist tier block s =
      let (s', outcome) = put_block p block tier no_info now random s in
      (s', elim outcome [ returns h ↦ some block | throws e ↦ none ])

  -- A layer of peers.
  unfoldable pub from_peers : Option Network → BlockStore p → BlockStore p × Option Buffer
  unfolding persist
  from_peers none s = (s, none)
  from_peers (some net) s = elim (fetch_from_hot_peers p hash net) [
    | none ↦ (s, none)
    | some block ↦ persist warm block s
  ]

  -- Without a node there is no directory to ask.
  unfoldable pub from_directory : World → BlockStore p → BlockStore p × Option Buffer
  unfolding from_peers
  from_directory world s = elim world.hot [
    | none ↦ (s, none)
    | some net ↦ from_peers world.discovered s
  ]

  unfoldable pub from_server : ServerAnswer → BlockStore p → BlockStore p × Option Buffer
  unfolding persist
  from_server not_asked s = (s, none)
  from_server request_error s = (s, none)
  from_server not_ok s = (s, none)
  from_server (ok block) s = persist altruistic block s

  -- A layer, and where it has nothing, the layers below it.
  abbrev pub or_next :
      BlockStore p × Option Buffer
      → (BlockStore p → BlockStore p × Option Buffer)
      → BlockStore p × Option Buffer
  or_next r next = elim r.1 [ some block ↦ (r.0, some block) | none ↦ next r.0 ]

  unfoldable pub from_memory : BlockStore p → BlockStore p × Option Buffer
  unfolding touch_access
  from_memory s =
      let s' = after_lookup p hash s in
      elim (cached p hash s) [
        | none ↦ (s', none)
        | some block ↦ (touch_access p hash now s', some block)
      ]

  unfoldable pub resolve_block : World → BlockStore p → BlockStore p × Option Buffer
  unfolding from_memory from_peers from_directory from_server
  resolve_block world s = or_next (from_memory s) λ s₁.
      or_next (get_local_block p hash now s₁) λ s₂.
        or_next (from_peers world.hot s₂)
          λ s₃. or_next (from_directory world s₃) λ s₄. from_server world.server s₄

  -- The layers that are announced, and what was found. A layer is announced before it is asked.
  abbrev pub Progress : Type 0
  Progress = List Layer × (BlockStore p × Option Buffer)

  abbrev pub announce : Layer → Progress → Progress
  announce layer (layers, r) = (layer ∷ layers, r)

  abbrev pub or_next_layer : BlockStore p × Option Buffer → (BlockStore p → Progress) → Progress
  or_next_layer r next = elim r.1 [ some block ↦ ([], (r.0, some block)) | none ↦ next r.0 ]

  unfoldable pub resolve_block_with_progress : World → BlockStore p → Progress
  unfolding from_memory from_peers from_directory from_server
  resolve_block_with_progress world s = announce l0 (
      or_next_layer (from_memory s) λ s₁. announce l1 (
        or_next_layer (get_local_block p hash now s₁) λ s₂. announce l2 (
          or_next_layer (from_peers world.hot s₂) λ s₃. announce l3 (
            or_next_layer (from_directory world s₃)
              λ s₄. announce l4 ([], from_server world.server s₄)))))
