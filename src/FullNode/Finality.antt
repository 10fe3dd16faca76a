-- ===== src/FullNode/Finality.antt =====
-- What the pointers of a full node (crates/node/src/full_node.rs) name after any run of the loop.
use podseq.Prelude.{Option, some, ℕ, suc, ◌<◌, ◌≡◌, refl, sym, ◌⊎◌, inl, inr, arith}
use mathlib.Core.Path.{subst}
use podseq.Call.Ensures.{Keeps-after}
use podseq.Core.{Block}
use podseq.FullNode.{NodeState, State, FullNode}
use podseq.FullNode.Frame.{Answered}
use podseq.FullNode.Evidence.{Signed, Settled, HashOf}
use podseq.FullNode.Sync.{poll_p2p, ticks}
use podseq.FullNode.Invariant.{Closed, poll_p2p-Keeps, ticks-Closed}

-- The data layer's pointers are those of the state before.
pub record SamePointers (n0 : NodeState) (synced safe finalized : ℕ) : Type 0 where
  pub same_synced : synced ≡ n0.synced_height
  pub same_safe : safe ≡ n0.safe
  pub same_finalized : finalized ≡ n0.finalized

module _ {W : Type 0} (c : FullNode W) where
  -- The registry's table: the one that the node had at first, or one that the registry answered.
  abbrev pub OwnTable : NodeState → ℕ → Type 0
  OwnTable n0 uid = (n0.table_uid ≡ some uid) ⊎ Answered c.read_table_uid uid

  -- They have moved up, to a block that the registry settled at the height of the cursor.
  pub record Advanced (n0 : NodeState) (synced safe finalized : ℕ) : Type 0 where
    pub above : n0.synced_height < synced
    pub block : Block
    pub settled : Settled c (OwnTable n0) synced block
    pub hash_of : HashOf c block finalized
    pub safe_too : safe ≡ finalized

  abbrev pub FinalAt : NodeState → ℕ → ℕ → ℕ → Type 0
  FinalAt n0 synced safe finalized =
      SamePointers n0 synced safe finalized ⊎ Advanced n0 synced safe finalized

  abbrev pub Final : NodeState → NodeState → Type 0
  Final n0 n = FinalAt n0 n.synced_height n.safe n.finalized

  Final-below : (n0 n : NodeState) → Final n0 n → n0.synced_height < suc n.synced_height
  Final-below n0 n (inl s) = let e = s.same_synced in omega arith
  Final-below n0 n (inr a) = let l = a.above in omega arith

  Final-next :
      (n0 n : NodeState) (b : Block) (hash : ℕ)
      → Settled c (OwnTable n0) (suc n.synced_height) b
      → HashOf c b hash
      → Final n0 n
      → FinalAt n0 b.header.height hash hash
  Final-next n0 n b hash settled hash_of p =
      subst (λ h. FinalAt n0 h hash hash) (sym settled.at_height)
        (inr (record {
          above = Final-below n0 n p;
          block = b;
          settled = settled;
          hash_of = hash_of;
          safe_too = refl;
        }))

  HasOwnTable : NodeState → NodeState → Type 0
  HasOwnTable n0 n = (uid : ℕ) → n.table_uid ≡ some uid → OwnTable n0 uid

  some_same : (a b : ℕ) → ◌≡◌ {A = Option ℕ} (some a) (some b) → a ≡ b
  some_same a b e = cc

  Final-Closed : (n0 : NodeState) → Closed c (OwnTable n0) (λ n. Final n0 n × HasOwnTable n0 n)
  unfolding HasOwnTable
  Final-Closed n0 = record {
    heads = λ b signed hash hash_of n p. p;
    finals = λ b n settled hash hash_of p. (Final-next n0 n b hash settled hash_of p.0, p.1);
    tables = λ uid n k p. (p.0, λ u e. subst (OwnTable n0) (some_same uid u e) k);
    cached = λ n p. p.1;
    reads = λ uid a. inr a;
    gates = λ gate n p. p;
  }

  -- After any number of ticks the cursor and the safe and finalized hashes are those of the start, or
  -- the cursor is above it and both hashes are the one that the contents of a block name whose header
  -- the sequencer signed and which stands at the cursor's height in a batch that the registry settled
  -- for this height: the commitment was read in the table that the registry answered to be its own, or
  -- that the node had at the start.
  pub ticks-Final : (k : ℕ) (st : State W) → Final st.node (ticks c k st).node
  unfolding HasOwnTable
  ticks-Final k st =
      (ticks-Closed c (OwnTable st.node) (λ n. Final st.node n × HasOwnTable st.node n)
        (Final-Closed st.node) k st
        (
          inl (record { same_synced = refl; same_safe = refl; same_finalized = refl }),
          λ uid e. inl e,
        )).0

  -- The peer-to-peer poll leaves the cursor and the safe and finalized hashes as they are, whatever
  -- the peers send and however the calls end.
  pub poll_p2p-SamePointers :
      (st : State W)
      → let n = (poll_p2p c st).1.node in SamePointers st.node n.synced_height n.safe n.finalized
  poll_p2p-SamePointers st =
      Keeps-after
        (poll_p2p-Keeps c (λ n. SamePointers st.node n.synced_height n.safe n.finalized)
          (λ b signed hash hash_of n p. p))
        st (record { same_synced = refl; same_safe = refl; same_finalized = refl })

  -- The head is that of the start, or is named by the contents of a block whose header is signed.
  abbrev pub SignedHead : NodeState → NodeState → Type 0
  SignedHead n0 n = (n.head ≡ n0.head) ⊎ ((b : Block) × Signed c b × HashOf c b n.head)

  -- After any number of ticks the head is that of the start, or the hash that the contents of a block
  -- name whose header the sequencer signed. The signature does not cover the contents.
  pub ticks-SignedHead : (k : ℕ) (st : State W) → SignedHead st.node (ticks c k st).node
  ticks-SignedHead k st =
      ticks-Closed c (λ _. Unit {0}) (SignedHead st.node)
        (record {
          heads = λ b signed hash hash_of n p. inr (b, signed, hash_of);
          finals = λ b n settled hash hash_of p. p;
          tables = λ uid n k p. p;
          cached = λ n p uid e. tt;
          reads = λ uid a. tt;
          gates = λ gate n p. p;
        })
        k st (inl refl)
