-- ===== src/FullNode/Reaches.antt =====
-- The sync loop of crates/node/src/full_node.rs reaches the settled frontier when what it calls
-- answers.
use podseq.Prelude.{
  ℕ, zero, suc, ◌+◌, ◌-◌, ◌<◌, ◌≤◌, ◌≡◌, refl, sym, ◌∙◌, ap, max, Option, none, some, List, arith,
  Result, ok, err, leb→le, ==_iff,
}
use mathlib.Core.Path.{subst}
use podseq.Call.Ensures.{
  Post, Ensures-pure, Ensures-gets, Ensures-bind, Ensures-bind_fact, Ensures-weaken, Ensures-select,
}
use podseq.Core.{Block}
use podseq.Engine.{require}
use podseq.FullNode.{
  SyncError, not_found, NodeState, State, FullNode, decoded, verify_signature, apply_and_finalize,
}
use podseq.FullNode.Succeeds.{
  Reliable, Returns, Succeeds, world_ok, lift_ok, apply_and_finalize-Succeeds,
}
use podseq.FullNode.Frame.{Ensures-on_node}
use podseq.FullNode.Sync.{
  find_height, sync_heights, settled_block, blocks_of, fetch_blob, sync_to, table_or_read,
  sync_from_settlement, set_table,
}

succeeded :
    {W : Type 0} {k : ℕ} (r : Result SyncError (Unit {0}) × State W)
    → Post (λ _ st. st.node.synced_height ≡ k) (λ _ _. ⊥) r
    → (r.0 ≡ ok tt) × (r.1.node.synced_height ≡ k)
succeeded (ok tt, st) h = (refl, h)
succeeded (err e, st) h = absurd h

module _ {W : Type 0} (c : FullNode W) (latest : ℕ) (h : Reliable c latest) where
  Kept : Option (ℕ × List Block) → Type 0
  Kept none = Unit {0}
  Kept (some (id, blocks)) = blocks ≡ h.batch id

  module _ (P : NodeState → Type 0) where
    fetch_blob-Succeeds :
        (height id : ℕ)
        → 0 < height
        → height ≤ latest
        → id ≡ h.blob_of height
        → Succeeds P (fetch_blob c id) (λ blocks n. P n × (blocks ≡ h.batch id))
    unfolding fetch_blob
    fetch_blob-Succeeds height id z l e =
        subst (λ i. Succeeds P (fetch_blob c i) (λ blocks n. P n × (blocks ≡ h.batch i))) (sym e)
          (world_ok P _ _ (c.fetch (h.blob_of height)) (h.stored height z l))

    blocks_of-Succeeds :
        (cached : Option (ℕ × List Block)) (height id : ℕ)
        → 0 < height
        → height ≤ latest
        → id ≡ h.blob_of height
        → Kept cached
        → Succeeds P (blocks_of c cached id) (λ blocks n. P n × (blocks ≡ h.batch id))
    unfolding blocks_of Kept
    blocks_of-Succeeds none height id z l i k = fetch_blob-Succeeds height id z l i
    blocks_of-Succeeds (some (cached_id, blocks)) height id z l i k =
        Ensures-select _
          (λ e. Ensures-pure blocks (λ _ p. (p, k ∙ ap h.batch ((==_iff cached_id id).0 e))))
          (λ _. fetch_blob-Succeeds height id z l i)

    settled_block-Succeeds :
        (uid height : ℕ) (cached : Option (ℕ × List Block))
        → 0 < height
        → height ≤ latest
        → uid ≡ h.table_uid
        → Kept cached
        → Succeeds P
            (settled_block c uid height cached)
            (λ r n. P n × ((r.0 ≡ h.block_at height) × Kept (some (r.1, r.2))))
    unfolding settled_block Kept
    settled_block-Succeeds uid height cached z l own k =
        Ensures-bind_fact
          (world_ok P _ _ (c.commitment_at uid height) (
            subst (λ u. Returns (c.commitment_at u height) (λ o. o ≡ some (h.blob_of height)))
              (sym own) (h.settled height z l)))
          λ o e. Ensures-bind_fact (lift_ok P _ (h.blob_of height) (ap (require _) e)) λ id i.
            Ensures-bind_fact (blocks_of-Succeeds cached height id z l i k) λ blocks b.
              Ensures-bind_fact
                (lift_ok P _ (h.block_at height) (
                  ap (λ bs. require (not_found height) (find_height height bs)) (b ∙ ap h.batch i)
                  ∙ ap (require _) (h.found height z l)))
                λ block found.
                  Ensures-bind_fact
                    (lift_ok P _ tt (ap (verify_signature c) found ∙ h.signed height z l))
                    λ _ _. Ensures-pure (block, id, blocks) λ _ p. (p, (found, b))

  sync_heights-Succeeds :
      (uid height count : ℕ) (cached : Option (ℕ × List Block))
      → 0 < height
      → height + count ≤ suc latest
      → uid ≡ h.table_uid
      → Kept cached
      → Succeeds
          (λ n. suc n.synced_height ≡ height)
          (sync_heights c uid height count cached)
          (λ _ n. suc n.synced_height ≡ height + count)
  unfolding sync_heights
  sync_heights-Succeeds uid height zero cached z l own k = Ensures-pure tt (λ _ e. omega (arith, e))
  sync_heights-Succeeds uid height (suc count) cached z l own k =
      let below : height ≤ latest = omega arith in
      Ensures-bind_fact
        (settled_block-Succeeds (λ n. suc n.synced_height ≡ height) uid height cached z below own k)
        λ found (is_block, kept). Ensures-bind (applied height found.0 z below is_block) λ _.
          Ensures-weaken (λ _ e. ap suc e) (λ _ _ e. omega (arith, e)) (λ _ _ q. q)
            (sync_heights-Succeeds uid (suc height) count (some (found.1, found.2)) (omega arith)
              (omega arith) own kept)
    where
      applied :
          (height : ℕ) (b : Block)
          → 0 < height
          → height ≤ latest
          → b ≡ h.block_at height
          → Succeeds
              (λ n. suc n.synced_height ≡ height)
              (apply_and_finalize c b)
              (λ _ n. n.synced_height ≡ height)
      applied height b z l e =
          Ensures-weaken (λ _ q. omega (arith, q))
            (λ _ _ q. q ∙ ap (λ x. x.header.height) e ∙ h.at_height height z l) (λ _ _ q. q)
            (apply_and_finalize-Succeeds c latest h (height - 1) b (h.payload_at height)
              (ap (decoded c) e ∙ h.decodes height z l))

  table_or_read-Succeeds :
      (P : NodeState → Type 0)
      → ((uid : ℕ) (n : NodeState) → P n → P (set_table c uid n))
      → (o : Option ℕ) → ((uid : ℕ) → o ≡ some uid → uid ≡ h.table_uid)
      → Succeeds P (table_or_read c o) (λ uid n. P n × (uid ≡ h.table_uid))
  unfolding table_or_read
  table_or_read-Succeeds P tables (some uid) k = Ensures-pure uid (λ _ p. (p, k uid refl))
  table_or_read-Succeeds P tables none k =
      Ensures-bind_fact (world_ok P _ _ c.read_table_uid h.table) λ uid own.
        Ensures-bind (Ensures-on_node P P _ (tables uid)) λ _. Ensures-pure uid (λ _ p. (p, own))

  -- A table that the node has already is that of the registry.
  abbrev Ready : ℕ → NodeState → Type 0
  Ready synced n =
      (n.synced_height ≡ synced) × ((uid : ℕ) → n.table_uid ≡ some uid → uid ≡ h.table_uid)

  sync_to-Succeeds :
      (synced : ℕ)
      → Succeeds
          (Ready synced)
          (sync_to c latest synced)
          (λ _ n. n.synced_height ≡ max synced latest)
  unfolding sync_to Kept
  sync_to-Succeeds synced =
      Ensures-select _
        (λ e.
          let l = leb→le latest synced e in Ensures-pure tt (λ _ q. let p = q.0 in ground arith))
        (λ e.
          let l : synced < latest = ground arith in
          Ensures-bind_fact {Q = λ _ st. st.node.synced_height ≡ synced}
            {F = λ o. (uid : ℕ) → o ≡ some uid → uid ≡ h.table_uid} (Ensures-gets _ (λ _ q. q))
            λ cached k.
              Ensures-bind_fact
                (table_or_read-Succeeds (λ n. n.synced_height ≡ synced) (λ _ _ q. q) cached k)
                λ uid own.
                  Ensures-weaken (λ _ q. ap suc q) (λ _ _ q. ground arith) (λ _ _ q. q)
                    (sync_heights-Succeeds uid (suc synced) (latest - synced) none (omega arith)
                      (omega arith) own tt))

  sync-Succeeds :
      (synced : ℕ)
      → Succeeds
          (Ready synced)
          (sync_from_settlement c)
          (λ _ n. n.synced_height ≡ max synced latest)
  unfolding sync_from_settlement
  sync-Succeeds synced =
      Ensures-bind_fact (world_ok (Ready synced) _ _ c.latest_height h.frontier) λ top e.
        Ensures-bind_fact
          (Ensures-gets {Q = λ x st. Ready synced st.node × (x ≡ synced)} _ (λ _ q. (q, q.0)))
          λ x i.
            subst
              (λ t.
                Succeeds (Ready synced) (sync_to c t x)
                  (λ _ n. n.synced_height ≡ max synced latest))
              (sym e)
              (subst
                (λ y.
                  Succeeds (Ready synced) (sync_to c latest y)
                    (λ _ n. n.synced_height ≡ max synced latest))
                (sym i) (sync_to-Succeeds synced))

  -- When the registry, the data layer and the execution client answer, and every height up to
  -- `latest` is settled in the registry's table under a blob that the data layer serves, with a batch
  -- that holds its signed block, one sync of a node that has no table yet, or this one, succeeds and
  -- leaves the cursor at `latest`, or where it was if that is higher.
  pub sync_from_settlement-reaches :
      (st : State W)
      → ((uid : ℕ) → st.node.table_uid ≡ some uid → uid ≡ h.table_uid)
      → ((sync_from_settlement c st).0 ≡ ok tt)
        × ((sync_from_settlement c st).1.node.synced_height ≡ max st.node.synced_height latest)
  sync_from_settlement-reaches st own =
      succeeded (sync_from_settlement c st)
        ((sync-Succeeds st.node.synced_height).holds st (refl, own))
