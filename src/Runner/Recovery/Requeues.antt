-- ===== src/Runner/Recovery/Requeues.antt =====
-- What `recover_pending` of crates/node/src/runner.rs leaves in the channel and in the pending store,
-- told by what the block store answers for the marked heights, in their order.
use podseq.Prelude.{ℕ, ◌≡◌, refl, ◌∙◌, ap, true, List, [], ◌∷◌, ◌++◌, Result, ok, err}
use podseq.Call.{pure, gets, select, modify, attempt, focus, continue, ◌>>=◌}
use podseq.Core.{Block}
use podseq.Core.Octets.{Bytes}
use podseq.Engine.{ExecutionPayload}
use podseq.Store.Disk.{StoreError, Disk}
use podseq.Store.Blocks.{Dir, get}
use podseq.Store.Pending.{clear, pending}
use podseq.Runner.{PendingBlock, State, Runner, on_blocks, on_pending, send, enqueue}
use podseq.Runner.Recovery.{
  decode_block_hash, drop_marker, requeue, recover_block, recover_each, recover_heights,
  recover_pending,
}

module _ {W : Type 0} (r : Runner W)
    (decode_payload : Bytes → Result (Unit {0}) ExecutionPayload) where
  abbrev pub Answer : Type 0
  Answer = ℕ × Result StoreError Block

  -- What the block store answers for these heights, one after the other.
  abbrev pub answers : List ℕ → Dir → List Answer
  answers [] d = []
  answers (h ∷ hs) d = (h, (get r.block_codec h d).0) ∷ answers hs (get r.block_codec h d).1

  abbrev hashed : ℕ → Block → Result (Unit {0}) ℕ → List PendingBlock → List PendingBlock
  hashed h b (ok hash) ps = record { block = b; block_hash = hash; height = h } ∷ ps
  hashed h b (err _) ps = ps

  -- The blocks that the store has and whose payload decodes.
  abbrev pub kept : List Answer → List PendingBlock
  kept [] = []
  kept ((h, ok b) ∷ xs) = hashed h b (decode_block_hash r decode_payload b.contents) (kept xs)
  kept ((h, err _) ∷ xs) = kept xs

  abbrev undecoded : ℕ → Result (Unit {0}) ℕ → List ℕ → List ℕ
  undecoded h (ok hash) hs = hs
  undecoded h (err _) hs = h ∷ hs

  -- The other heights.
  abbrev pub lost : List Answer → List ℕ
  lost [] = []
  lost ((h, ok b) ∷ xs) = undecoded h (decode_block_hash r decode_payload b.contents) (lost xs)
  lost ((h, err _) ∷ xs) = h ∷ lost xs

  abbrev pub clear_each : List ℕ → Disk → Disk
  clear_each [] d = d
  clear_each (h ∷ hs) d = clear_each hs (clear r.heights_codec h d).1

  -- The kept blocks stand behind those of the queue, and exactly the markers of the lost heights were
  -- dropped.
  pub record Exact (queue : List PendingBlock) (markers : Disk) (xs : List Answer) (st : State W)
      : Type 0 where
    pub queued : st.queue ≡ queue ++ kept xs
    pub cleared : st.pending_disk ≡ clear_each (lost xs) markers

  -- By what the pending store answers.
  abbrev pub Recovered : State W → Result StoreError (List ℕ) × Disk → State W → Type 0
  Recovered st (ok heights, d) st' = Exact st.queue d (answers heights st.blocks) st'
  Recovered st (err e, d) st' = (st'.queue ≡ st.queue) × (st'.pending_disk ≡ d)

  append_nil : (xs : List PendingBlock) → xs ≡ xs ++ []
  append_nil [] = refl
  append_nil (x ∷ xs) = ap (λ t. x ∷ t) (append_nil xs)

  append_one :
      (xs ys : List PendingBlock) (p : PendingBlock) → (xs ++ p ∷ []) ++ ys ≡ xs ++ (p ∷ ys)
  append_one [] ys p = refl
  append_one (x ∷ xs) ys p = ap (λ t. x ∷ t) (append_one xs ys p)

  -- The rest of the loop does what it should, from any state with an open channel.
  Rest : List ℕ → Type 0
  Rest hs =
      (st : State W)
      → st.channel_open ≡ true
      → Exact st.queue st.pending_disk (answers hs st.blocks)
          (recover_each r decode_payload hs st).1

  abbrev dropped : ℕ → State W → State W
  dropped h st = record st { pending_disk = (clear r.heights_codec h st.pending_disk).1 }

  drop_marker-runs :
      (h : ℕ) (st : State W) → drop_marker r decode_payload h st ≡ (ok tt, dropped h st)
  unfolding drop_marker on_pending attempt focus pure ◌>>=◌
  drop_marker-runs h st = refl

  send-runs :
      (p : PendingBlock) (st : State W)
      → st.channel_open ≡ true
      → send r p st ≡ (ok tt, enqueue r p st)
  unfolding send gets select modify pure ◌>>=◌
  send-runs p st o = ap (λ b. select b (modify (enqueue r p)) (pure tt) st) o

  dropped-Exact :
      (h : ℕ) (hs : List ℕ) (st : State W)
      → Rest hs
      → st.channel_open ≡ true
      → (st' : State W) → st' ≡ (recover_each r decode_payload hs (dropped h st)).1
      → (st'.queue ≡ st.queue ++ kept (answers hs st.blocks))
        × (st'.pending_disk ≡ clear_each (h ∷ lost (answers hs st.blocks)) st.pending_disk)
  unfolding Rest
  dropped-Exact h hs st rest o st' e =
      let x = rest (dropped h st) o in
      (ap (λ s. s.queue) e ∙ x.queued, ap (λ s. s.pending_disk) e ∙ x.cleared)

  requeued-Exact :
      (h : ℕ) (b : Block) (hash : Result (Unit {0}) ℕ) (hs : List ℕ) (st : State W)
      → Rest hs
      → st.channel_open ≡ true
      → let st' =
          (continue
            (requeue r decode_payload h b hash st)
            (λ _. recover_each r decode_payload hs)).1 in
        (st'.queue ≡ st.queue ++ hashed h b hash (kept (answers hs st.blocks)))
        × (st'.pending_disk
            ≡ clear_each (undecoded h hash (lost (answers hs st.blocks))) st.pending_disk)
  unfolding requeue Rest
  requeued-Exact h b (ok hash) hs st rest o =
      let p : PendingBlock = record { block = b; block_hash = hash; height = h } in
      let e = ap (λ x. (continue x (λ _. recover_each r decode_payload hs)).1) (send-runs p st o) in
      let x = rest (enqueue r p st) o in
      (
        ap (λ s. s.queue) e ∙ (x.queued ∙ append_one st.queue (kept (answers hs st.blocks)) p),
        ap (λ s. s.pending_disk) e ∙ x.cleared,
      )
  requeued-Exact h b (err _) hs st rest o =
      dropped-Exact h hs st rest o _
        (ap (λ x. (continue x (λ _. recover_each r decode_payload hs)).1) (drop_marker-runs h st))

  block-Exact :
      (h : ℕ) (x : Result StoreError Block) (hs : List ℕ) (st : State W)
      → Rest hs
      → st.channel_open ≡ true
      → let st' =
          (continue
            (recover_block r decode_payload h x st)
            (λ _. recover_each r decode_payload hs)).1 in
        (st'.queue ≡ st.queue ++ kept ((h, x) ∷ answers hs st.blocks))
        × (st'.pending_disk ≡ clear_each (lost ((h, x) ∷ answers hs st.blocks)) st.pending_disk)
  unfolding recover_block
  block-Exact h (ok b) hs st rest o =
      requeued-Exact h b (decode_block_hash r decode_payload b.contents) hs st rest o
  block-Exact h (err e) hs st rest o =
      dropped-Exact h hs st rest o _
        (ap (λ x. (continue x (λ _. recover_each r decode_payload hs)).1) (drop_marker-runs h st))

  each-Exact : (hs : List ℕ) → Rest hs
  unfolding recover_each on_blocks attempt focus pure ◌>>=◌ Rest
  each-Exact [] st o = record { queued = append_nil st.queue; cleared = refl }
  each-Exact (h ∷ hs) st o =
      let x =
        block-Exact h (get r.block_codec h st.blocks).0 hs
          (record st { blocks = (get r.block_codec h st.blocks).1 }) (each-Exact hs) o in
      record { queued = x.0; cleared = x.1 }

  heights-Recovered :
      (st : State W) (x : Result StoreError (List ℕ)) (d : Disk)
      → st.channel_open ≡ true
      → Recovered st (x, d) (recover_heights r decode_payload x (record st { pending_disk = d })).1
  unfolding recover_heights pure Rest
  heights-Recovered st (ok hs) d o = each-Exact hs (record st { pending_disk = d }) o
  heights-Recovered st (err e) d o = (refl, refl)

  -- While the channel is open, the recovery asks the block store for the marked heights in turn. It puts
  -- behind the queue exactly the blocks that the store gives and whose payload decodes, in order, with
  -- the hash of that payload, and drops exactly the markers of the other heights. When the markers
  -- cannot be read it queues and drops nothing.
  pub recover_pending-Recovered :
      (st : State W)
      → st.channel_open ≡ true
      → Recovered st
          (pending r.heights_codec st.pending_disk)
          (recover_pending r decode_payload st).1
  unfolding recover_pending on_pending attempt focus ◌>>=◌
  recover_pending-Recovered st o =
      heights-Recovered st (pending r.heights_codec st.pending_disk).0
        (pending r.heights_codec st.pending_disk).1 o
