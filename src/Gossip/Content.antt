-- ===== src/Gossip/Content.antt =====
-- client/src/main/p2p/gossipsub.ts: content that goes with a message, or is stored as a block and
-- referred to. The micro-thumbnail is made by a package: `none` if it fails.
use united.Prelude.{
  ℕ, ◌*◌, ◌<◌, ◌≡◌, ◌≢◌, refl, leb, String, str_eq, Bool, true, false, List, [], ◌∷◌, any, length,
  Option, none, some, if◌then◌else◌, arith,
}
use united.Blocks.Types.{Buffer, hot, BlockInfo}
use united.Blocks.Store.{
  Platform, BlockStore, row_of, Outcome, returns, throws, put_block, get_local_block,
}
use united.Blocks.RoundTrip.{get_local_block-put_block}

abbrev pub inline_size_limit : ℕ
inline_size_limit = 50 * 1024

-- `BlockRefData` of this file, which has no blur hash.
pub record BlockRef : Type 0 where
  pub hash : String
  pub size : ℕ
  pub mime_type : String
  pub width : ℕ
  pub height : ℕ
  pub micro_thumbnail : Option Buffer
  pub filename : String

pub record GossipContentResult : Type 0 where
  pub inline : Bool
  pub payload : Buffer
  pub block_ref : Option BlockRef

-- `IMAGE_MIMES` and `isImageMime` of blocks/thumbnails.ts.
abbrev pub image_mimes : List String
image_mimes = "image/jpeg" ∷ "image/png" ∷ "image/gif" ∷ "image/webp" ∷ []

unfoldable pub is_image_mime : String → Bool
is_image_mime mime_type = any (λ (m : String). str_eq m mime_type) image_mimes

-- The picture's size and thumbnail, zeros and none for what is no picture or cannot be read.
unfoldable pub block_ref_of : String → ℕ → String → String → Option (Buffer × (ℕ × ℕ)) → BlockRef
block_ref_of hash size mime_type filename none = record {
  hash = hash;
  size = size;
  mime_type = mime_type;
  width = 0;
  height = 0;
  micro_thumbnail = none;
  filename = filename;
}
block_ref_of hash size mime_type filename (some (thumbnail, (width, height))) = record {
  hash = hash;
  size = size;
  mime_type = mime_type;
  width = width;
  height = height;
  micro_thumbnail = some thumbnail;
  filename = filename;
}

abbrev pub info_of : String → String → BlockInfo
info_of mime_type filename = record {
  mime_type = some mime_type;
  width = none;
  height = none;
  filename = some filename;
}

block_ref_of_lem :
    (hash : String) (size : ℕ) (mime_type filename : String) (thumbnail : Option (Buffer × (ℕ × ℕ)))
    → ((block_ref_of hash size mime_type filename thumbnail).hash ≡ hash)
      × ((block_ref_of hash size mime_type filename thumbnail).size ≡ size)
unfolding block_ref_of
block_ref_of_lem hash size mime_type filename none = (refl, refl)
block_ref_of_lem hash size mime_type filename (some (t, (w, h))) = (refl, refl)

long_block : (block : Buffer) (n : ℕ) → n < length block → block ≢ []
long_block [] n h e = absurd (omega arith)
long_block (b ∷ bs) n h e = absurd (cc)

module _ (p : Platform) where
  -- The reference, once the block is put.
  unfoldable pub refer :
      BlockRef → BlockStore p × Outcome String → BlockStore p × Outcome GossipContentResult
  refer ref (s, throws e) = (s, throws e)
  refer ref (s, returns hash) =
      (s, returns (record { inline = false; payload = []; block_ref = some ref }))

  unfoldable pub prepare_content_for_gossip :
      Buffer
      → String
      → String
      → Option (Buffer × (ℕ × ℕ))
      → ℕ
      → (ℕ → Buffer)
      → BlockStore p
      → BlockStore p × Outcome GossipContentResult
  prepare_content_for_gossip block filename mime_type thumbnail now random s =
      let hash = p.sha256_hex block in
      let shown = if is_image_mime mime_type then thumbnail else none in
      if leb (length block) inline_size_limit
      then (s, returns (record { inline = true; payload = block; block_ref = none }))
      else refer (block_ref_of hash (length block) mime_type filename shown)
          (put_block p block hot (info_of mime_type filename) now random s)

  refer-returns :
      (ref : BlockRef) (hash : String) (r : BlockStore p × Outcome String)
      → r.1 ≡ returns hash
      → ((refer ref r).0 ≡ r.0)
        × ((refer ref r).1
            ≡ returns (record { inline = false; payload = []; block_ref = some ref }))
  unfolding refer
  refer-returns ref hash (s, returns h) e = (refl, refl)
  refer-returns ref hash (s, throws t) e = absurd (cc)

  -- Content that is too large to go with the message, and is not stored yet, is stored by an unlocked
  -- store, and the reference that goes in its place has its size and the hash under which the next read
  -- gives it back, whether a thumbnail could be made or not. The random source fills its buffers.
  pub get_local_block-prepare_content_for_gossip :
      (block : Buffer) (filename mime_type : String) (thumbnail : Option (Buffer × (ℕ × ℕ)))
      (now later : ℕ) (random : ℕ → Buffer) (s : BlockStore p) (k : Buffer)
      → inline_size_limit < length block
      → row_of p (p.sha256_hex block) s ≡ none
      → s.key ≡ some k
      → ((n : ℕ) → length (random n) ≡ n)
      → let r = prepare_content_for_gossip block filename mime_type thumbnail now random s in
        (ref : BlockRef) × ((r.1
            ≡ returns (record { inline = false; payload = []; block_ref = some ref }))
          × ((ref.size ≡ length block) × ((get_local_block p ref.hash later r.0).1 ≡ some block)))
  unfolding prepare_content_for_gossip
  get_local_block-prepare_content_for_gossip block filename mime_type thumbnail now later random s k
        large new unlocked fills =
      let (put, read) =
        get_local_block-put_block p block hot (info_of mime_type filename) now random s k later
          (long_block block inline_size_limit large) new unlocked fills in
      let shown = if is_image_mime mime_type then thumbnail else none in
      let ref = block_ref_of (p.sha256_hex block) (length block) mime_type filename shown in
      let (named, sized) =
        block_ref_of_lem (p.sha256_hex block) (length block) mime_type filename shown in
      let (kept, referred) =
        refer-returns ref (p.sha256_hex block)
          (put_block p block hot (info_of mime_type filename) now random s) put in
      let too_long : leb (length block) inline_size_limit ≡ false = ground arith in
      (ref, rw (too_long, kept, referred, named) (refl, (sized, read)))
