-- ===== src/Rotation/Sinks.antt =====
-- The in-memory signers of the sequencer process and who shares them: `SwapSinks` of
-- crates/node/src/rotation.rs, and the relayer that crates/node/src/bridge.rs builds and starts.
-- The Sui bridge client of the first relayer is put into a `OnceCell`, through which the watcher
-- reaches it; a `OnceCell` that is full refuses a second value.
use podseq.Prelude.{ℕ, Option, none, some}

-- The client of the running relayer: none runs, the one in the cell, or one that the cell refused.
pub data Relayer (K : Type 0) : Type 0 where
  down : Relayer K
  shared : Relayer K
  own : K → Relayer K

pub record SwapSinks (K : Type 0) : Type 0 where
  pub adopted_key : Option K
  pub settlement_key : K
  pub sender : ℕ
  pub sender_snapshot : ℕ
  pub sui_bridge : Option K  -- the key of the client in the cell
  pub building : Option K  -- the key of a client whose relayer is still being set up
  pub relayer : Relayer K

-- `OnceCell::get` and `BridgeClient::swap_key` on what it gives.
swap_bridge : {K : Type 0} → K → Option K → Option K
swap_bridge key none = none
swap_bridge key (some old) = some key

abbrev pub or_file : {K : Type 0} → Option K → K → K
or_file none file_key = file_key
or_file (some key) file_key = key

module _ {K : Type 0} (derive_address : K → ℕ) where
  unfoldable pub swap_signers : K → SwapSinks K → SwapSinks K
  unfolding swap_bridge
  swap_signers key s = record s {
    adopted_key = some key;
    settlement_key = key;
    sender = derive_address key;
    sender_snapshot = derive_address key;
    sui_bridge = swap_bridge key s.sui_bridge;
  }

  -- A new process, whose settlement signer is built from the configured key file.
  unfoldable pub boot_sinks : K → SwapSinks K
  boot_sinks file_key = record {
    adopted_key = none;
    settlement_key = file_key;
    sender = derive_address file_key;
    sender_snapshot = derive_address file_key;
    sui_bridge = none;
    building = none;
    relayer = down;
  }

-- `BridgeClient::new_or_adopted`, on the way through `BridgeRelayer::new`.
unfoldable pub build_client : {K : Type 0} → K → SwapSinks K → SwapSinks K
build_client file_key s = record s { building = some (or_file s.adopted_key file_key) }

share_client : {K : Type 0} → Option K → Option K → SwapSinks K → SwapSinks K
share_client none cell s = s
share_client (some key) none s = record s {
  sui_bridge = some key;
  building = none;
  relayer = shared;
}
share_client (some key) (some old) s = record s { building = none; relayer = own key }

-- The end of `setup_relayer`: `let _ = sui_bridge.set(…)`, and the relayer runs.
unfoldable pub start_relayer : {K : Type 0} → SwapSinks K → SwapSinks K
unfolding share_client
start_relayer s = share_client s.building s.sui_bridge s

-- `relayer.run` returned an error; `relay_until_ready` will set up another.
unfoldable pub relayer_failed : {K : Type 0} → SwapSinks K → SwapSinks K
relayer_failed s = record s { relayer = down }

client_key : {K : Type 0} → Relayer K → Option K → Option K
client_key down cell = none
client_key shared cell = cell
client_key (own key) cell = some key

-- The key that the running relayer signs withdrawals with.
unfoldable pub relayer_key : {K : Type 0} → SwapSinks K → Option K
unfolding client_key
relayer_key s = client_key s.relayer s.sui_bridge
