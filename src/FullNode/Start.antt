-- ===== src/FullNode/Start.antt =====
-- The start of a full node (crates/node/src/full_node.rs): `new` reads the stored fork choice, `run`
-- takes it or asks the execution client.
pub mod Restores
use podseq.Prelude.{
  ℕ, Bool, true, false, ◌&&◌, Option, none, some, [], ◌∷◌, Result, ok, err, if◌then◌else◌,
}
use podseq.Call.{Call, ◌>>=◌}
use podseq.Engine.{EngineError, current_head_with_height}
use podseq.Store.Disk.{Text, StoreError, Disk, is_whitespace}
use podseq.Store.State.{ChainState, load}
use podseq.FullNode.{NodeState, State, FullNode, on_world, on_node}

unfoldable pub trim_start : Text → Text
trim_start [] = []
trim_start (x ∷ xs) = if is_whitespace x then trim_start xs else x ∷ xs

abbrev null : Text → Bool
null [] = true
null (x ∷ xs) = false

unfoldable pub trim_end : Text → Text
trim_end [] = []
trim_end (x ∷ xs) = let rest = trim_end xs in if is_whitespace x && null rest then [] else x ∷ rest

unfoldable pub trim : Text → Text
unfolding trim_start trim_end
trim s = trim_end (trim_start s)

module _ (from_str : Text → Option ℕ) where
  -- The closure of `parse_forkchoice`.
  unfoldable pub parse_hash : Text → Option ℕ
  unfolding trim
  parse_hash s = let t = trim s in if null t then none else from_str t

  unfoldable pub parse_forkchoice : ChainState → Option (ℕ × ℕ × ℕ)
  unfolding parse_hash
  parse_forkchoice state = elim (parse_hash state.head) [
    | none ↦ none
    | some head ↦ elim (parse_hash state.safe) [
      | none ↦ none
      | some safe ↦ elim (parse_hash state.finalized) [
        | none ↦ none
        | some finalized ↦ some (head, safe, finalized)
      ]
    ]
  ]

  -- The cursor and the hashes, from what the store answers; `.ok().flatten()` takes an error for an
  -- absent file.
  unfoldable pub resumed : Result StoreError (Option ChainState) → ℕ × Option (ℕ × ℕ × ℕ)
  unfolding parse_forkchoice
  resumed (ok (some state)) = (state.height, parse_forkchoice state)
  resumed (ok none) = (0, none)
  resumed (err e) = (0, none)

unfoldable fresh_node : ℕ → NodeState
fresh_node synced_height = record {
  synced_height = synced_height;
  head = 0;
  head_height = synced_height;
  safe = 0;
  finalized = 0;
  table_uid = none;
  halt_gate = record { last = none };
}

module _ {W : Type 0} (c : FullNode W) (from_str : Text → Option ℕ) where
  -- The node and the persisted fork choice.
  unfoldable created : ℕ × Option (ℕ × ℕ × ℕ) → NodeState × Option (ℕ × ℕ × ℕ)
  unfolding fresh_node
  created (synced_height, persisted) = (fresh_node synced_height, persisted)

  unfoldable pub new : Disk → NodeState × Option (ℕ × ℕ × ℕ)
  unfolding created resumed
  new d = created (resumed from_str (load c.state_codec d).0)

  abbrev pub take_persisted : ℕ → ℕ → ℕ → NodeState → NodeState
  take_persisted head safe finalized n = record n {
    head = head;
    head_height = n.synced_height;
    safe = safe;
    finalized = finalized;
  }

  abbrev pub take_discovered : ℕ → ℕ → NodeState → NodeState
  take_discovered head height n = record n {
    head = head;
    head_height = height;
    safe = head;
    finalized = head;
    synced_height = height;
  }

  -- What `run` does before its loop; `retries` is that of `current_head_with_height`.
  unfoldable pub start : ℕ → Option (ℕ × ℕ × ℕ) → Call (State W) EngineError (Unit {0})
  unfolding on_node on_world
  start retries (some (head, safe, finalized)) = on_node (take_persisted head safe finalized)
  start retries none = do
    found ← on_world (current_head_with_height c.engine retries)
    height ← on_world c.engine.block_number
    on_node (take_discovered found.0 height)
