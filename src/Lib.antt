-- ===== src/Lib.antt =====
-- podseq: a Sui-settled sequencer node for an EVM chain, its full nodes and their stores.
--
-- A sequencer produces blocks, forces transactions of an on-chain inbox into them and settles them
-- on Sui; full nodes follow it and stop when a forced transaction is overdue. These parts are
-- modelled:
--
-- Rotation (Rotation.antt and Rotation/): the hand-over of the sequencer's authority from the
--   configured key to a staged key, on two objects, the settlement Registry and the bridge Vault.
--   Rotation.antt: `derive_role` and `plan` of crates/sui/src/rotation.rs.
--   Contract: the authority record of move/sources/rotation.move; a call gives the new record or
--     an abort.
--   Guard, Apply: `AdoptionGuard` and `apply` of crates/sui/src/rotation.rs. The executor is a
--     record of operations, as the trait is; key and error types are parameters.
--   Sinks: `SwapSinks::swap_signers` of crates/node/src/rotation.rs, and how
--     `BridgeClient::new_or_adopted` (crates/sui/src/bridge.rs), `setup_relayer` and
--     `relay_until_ready` (crates/node/src/bridge.rs) build and share the relayer's client.
--   World: the transactions `submit_claim` and `submit_retire_previous`, which change both objects
--     or neither, and one round of the loop in crates/node/src/rotation.rs, `poll`. A round is
--     given the clocks, whether the status was readable, and what became of its transaction.
--   Watcher: `RotationWatcher` over the transport of Deadline/Monitor, and `ensure_entombed` of
--     crates/node/src/rotation.rs, which gives objects of an older package their record.
--   Roles, Plans, Relayers, Safety, Converge, Migration hold the proofs, Tests and MigrationTests
--     the runs.
-- Store (Store.antt and Store/): the files of crates/node/src/store/.
--   Disk: `load_raw`, `save_raw` and `mutate`, over a file system that answers a chosen number of
--     calls and then fails, and that may leave any text in the file of a failed write. serde_json
--     is a parameter, `Codec`, with the law that a printed value is read back.
--   Map: `BTreeMap<u64, _>` as pairs in ascending order of the keys.
--   Inbox: inbox_store.rs, the record of each forced nonce; Inbox/Memory has a concrete codec.
--   Pending: pending_store.rs, the heights that are not settled yet.
--   State: state_store.rs, the fork-choice state. Blocks: block_store.rs, a file per height that is
--     written in place; BCS is a parameter.
-- Deadline (Deadline.antt and Deadline/): when a full node stops.
--   Deadline.antt: `classify` of crates/sui/src/deadline.rs, and the types of
--     crates/sui/src/inbox.rs.
--   Monitor: `DeadlineMonitor`, over a transport whose every read may change the state of the
--     chain; the BCS decoders are parameters.
--   Gate: `HaltGate` of crates/node/src/full_node.rs; its log lines are part of the result.
--   Inbox: `submit` and `enforce_settle` of move/sources/inbox.move.
--   Classify, Confirm, Witness hold the proofs, Tests the runs.
-- Window (Window.antt and Window/): the time that a forced transaction has.
--   Window.antt: `InboxReader::window`, `effective_window_ms` and `validate_window_change` of
--     crates/sui/src/inbox.rs. Contract: the window fields of move/sources/inbox.move.
--   Changes, Reads hold the proofs, Tests the runs.
-- Tracker (Tracker.antt and Tracker/): `InboxTracker` of crates/node/src/inbox.rs, which keeps its
--   state in the inbox store, reads the chain by the transport of Deadline/Monitor and the window by
--   Window.antt, and is asked by block production and settlement.
--   Sync: `sync` and `refresh_window`. Observe: `observe_transactions`. Halt: `halt_check` and
--   `wait_inclusion_gate`.
--   Poll: `poll_pass`. Tracker.antt has the other operations. The hash and the hex library are parameters.
--   Sync/Recorded, Observe/Contents, Budget and Halt hold the proofs, Tests the runs.
-- FullNode (FullNode.antt and FullNode/): `FullNode` of crates/node/src/full_node.rs, over a state of
--   the world outside. Its calls of the settlement, the data layer and the peer-to-peer receiver
--   are parameters, as is the decoding of a payload.
--   FullNode.antt: `apply_block`, `mark_finalized`, `apply_and_finalize`. Sync: the sync loop, the
--   poll and the tick, with the gate of Deadline/Gate. Start: `new` and the start of `run`, with the
--   state file of Store/State.
--   Evidence says what the node has seen of a block; Frame, Changes, Lookup, Invariant, Finality,
--   Succeeds, Reaches and Start/Restores hold the proofs, Tests the runs.
-- Runner (Runner.antt and Runner/): the sequencer of crates/node/src/runner.rs, with the stores of
--   Store and the client of Engine. Publishing and settling a block are parameters.
--   Runner.antt: `produce_block`, `advance_finalized`, `persist_state`. Flush: `flush_batch` and
--   `finalize_buffered_locally`. Loop: the branches of `finalize_blocks`, and runs that interleave
--   them with the producer; an event runs whole. Recovery: `recover_pending`, and `serve`, a run from
--   its start: the recovery and then the events.
--   Frame, Keeps, Events, Markers, Locals, Unmoved, Timer and Settles hold the proofs, Tests the runs.
-- Settlement (Settlement.antt and Settlement/): `do_settle` of move/sources/settlement.move, the commit
--   calls of crates/sui/src/settlement.rs, `settle_with_gate` and `commit_with_inbox` of
--   crates/node/src/inbox.rs and `retry_with_backoff` of crates/node/src/runner.rs, with the gate of
--   Tracker and the inbox of Deadline/Inbox. Conflict, Ledger and Gate hold the proofs, Tests the runs.
-- Walrus (Walrus.antt and Walrus/): `store_blob`, `fetch_blob`, `publish` and `fetch` of
--   crates/sui/src/lib.rs with the ids of blob_id.rs, over the requests, JSON and base64, which are
--   parameters.
--   ReadsBack holds the proof, Tests the run.
-- Bridge (Bridge.antt and Bridge/): the relayer of crates/node/src/bridge.rs and the contracts that it
--   works on. Abi: the logs that it decodes. Registry: `TokenRegistry` and the cursors. Requests,
--   Deposits, Withdrawals, Restore: its calls of the L2, both passes and its start.
--   Vault: move/sources/bridge.move. Token: solidity/src/Bridge.sol.
--   Chains: both chains under a schedule, which says what happens before each request, and which
--   requests fail. The relayer's key is the only one that mints: setRelayer of Bridge.sol and
--   adoptBridge of BridgeFactory.sol are not among the events. Its children hold the proofs: Sound
--   says what holds of the chains, Updates, Events, Effects and Moments keep it, Context is what a
--   request adds, and Minting, Sending, Entries, Tokens, Deliveries, Passes, Absorbs, Rounds, Starts
--   follow the relayer. Tests has the runs.
--   History is about the scan at the start, Burns about the withdrawal pass, and Vault/Ledger about
--   calls of the vault in a row.
-- Engine (Engine.antt and Engine/): the facade of crates/engine/src/lib.rs over the requests of
--   client.rs, which are parameters. Confirmed holds the proofs.
-- Core (Core.antt and Core/): headers and blocks of crates/core/src/lib.rs and the check of a
--   signature in crates/sui/src/lib.rs. Wire: crates/sui/src/wire.rs, BCS being a parameter. Gossip:
--   the announcement and the digest of crates/p2p/src/. Octets, Signing hold the lemmas and proofs.
-- Call (Call.antt and Call/Ensures): calls with a state and an error, and what a call ensures.
-- Prelude: names of the library, Boolean tests, lists and results over the native numbers.
--
-- Numbers: a u64 is a natural number; `saturating_add` stops at 2^64 - 1, and an addition in Move
-- aborts past it. An address is the number that its bytes spell, and the address of a key is a
-- parameter. The attempts of the monitor and of the Engine facade are bounded by the code itself, by
-- `CONFIRM_LIMIT` and `MAX_RETRIES`. A flush is given a number of attempts to publish, since the code
-- tries without end until a shutdown; one attempt is enough when the data layer answers. The retries
-- of a settlement are given a number of rounds in the same way. The wait for
-- the head of the execution client is given the number of failures that its 60 seconds allow, and
-- the wait for a receipt of the L2 the number of polls. The scan of the factory's history is given
-- the head and 8 requests more: each but the six that halve the chunk moves by a block at least.
--
-- Not modelled: the transactions and reads of the settlement client; the admission poll of the full
-- node and the peer-to-peer transport; the bridge's factory preflight; the state root commands; RPC, transaction
-- building, command line, key files, configuration and metrics, which are input and output.
pub mod Prelude
pub mod Call
pub mod Core
pub mod Engine
pub mod Rotation
pub mod Store
pub mod Deadline
pub mod Window
pub mod Tracker
pub mod FullNode
pub mod Settlement
pub mod Runner
pub mod Walrus
pub mod Bridge
