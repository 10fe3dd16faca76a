-- ===== src/FullNode/Evidence.antt =====
-- What a full node has seen of a block before it moves a pointer to it.
use podseq.Prelude.{ℕ, ◌≡◌, some, List, ok}
use podseq.Core.{Block, verify_block_signature}
use podseq.Engine.{ExecutionPayload}
use podseq.FullNode.{FullNode}
use podseq.FullNode.Frame.{Answered}
use podseq.FullNode.Sync.{find_height}

module _ {W : Type 0} (c : FullNode W) where
  -- The sequencer's key verifies the block.
  abbrev pub Signed : Block → Type 0
  Signed b = verify_block_signature c.verify b ≡ ok tt

  -- The registry settled a blob at the height, in a table that is known to be its own; this block has the height in the batch that the data
  -- layer gave for the blob, and the sequencer's key verifies it.
  pub record Settled (Known : ℕ → Type 0) (height : ℕ) (b : Block) : Type 0 where
    pub table_uid : ℕ
    pub known : Known table_uid
    pub blob_id : ℕ
    pub blocks : List Block
    pub committed : Answered (c.commitment_at table_uid height) (some blob_id)
    pub fetched : Answered (c.fetch blob_id) blocks
    pub found : find_height height blocks ≡ some b
    pub at_height : b.header.height ≡ height
    pub signed : Signed b

  -- The hash in the payload of a block.
  pub record HashOf (b : Block) (hash : ℕ) : Type 0 where
    pub payload : ExecutionPayload
    pub decodes : c.decode_payload b.contents ≡ ok payload
    pub is_hash : payload.block_hash ≡ hash
