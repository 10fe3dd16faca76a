-- ===== src/Bridge.antt =====
-- The relayer of crates/node/src/bridge.rs: deposits of Sui are minted on the L2, and burns of the L2
-- are released on Sui. The requests to both chains are calls on the state `W` of the world outside.
pub mod Abi
pub mod Registry
pub mod Requests
pub mod Deposits
pub mod Withdrawals
pub mod Restore
pub mod Token
pub mod Vault
pub mod Chains
pub mod History
pub mod Burns
mod Tests
use podseq.Prelude.{ℕ, ◌-◌, not, Option, none, List, Result}
use podseq.Call.{Call, within, ◌>>=◌}
use podseq.Core.Octets.{Bytes}
use podseq.Bridge.Abi.{Texts, RpcLog}
use podseq.Bridge.Registry.{TokenRegistry, Cursors, Spelling}

-- `DepositRecord` of crates/sui/src/bridge.rs.
pub record DepositRecord : Type 0 where
  pub amount : ℕ
  pub recipient_l2 : Bytes
  pub coin_type : Bytes

-- `IL2Token` and `IBridgeFactory`; the ABI encoding is that of a library.
pub data Calldata : Type 0 where
  mint : ℕ → ℕ → ℕ → Calldata  -- the recipient, the amount and the nonce
  create_bridge : Bytes → Bytes → Bytes → Calldata

pub data Selector : Type 0 where
  last_minted_deposit_nonce minted_any : Selector

pub record Transaction : Type 0 where
  pub nonce : ℕ
  pub gas_limit : ℕ
  pub max_fee_per_gas : ℕ
  pub max_priority_fee_per_gas : ℕ
  pub to : ℕ
  pub input : Calldata

pub record Receipt : Type 0 where
  pub status : Bytes
  pub logs : List RpcLog

-- The requests of the relayer, and the texts of the libraries. Sending includes the signature.
pub record Relayer (W : Type 0) : Type 0 where
  pub vault_status : Call W (Unit {0}) ℕ  -- the field `deposit_nonce`
  pub deposit_at : ℕ → Call W (Unit {0}) (Option DepositRecord)
  pub transaction_count : Call W (Unit {0}) ℕ
  pub gas_price : Call W (Unit {0}) ℕ  -- 0 where the answer is no number
  pub send_raw_transaction : Transaction → Call W (Unit {0}) ℕ  -- its hash
  pub transaction_receipt : ℕ → Call W (Unit {0}) (Option Receipt)
  pub eth_call : ℕ → Selector → Call W (Unit {0}) Bytes
  pub block_number : Call W (Unit {0}) ℕ
  pub get_logs : List ℕ → Bytes → ℕ → ℕ → Call W (Unit {0}) (List RpcLog)
  pub withdraw : ℕ → Bytes → ℕ → ℕ → Call W (Unit {0}) (Unit {0})
  pub write_cursors : Cursors → W → W
  pub read_cursors : W → Option Cursors  -- `none` for a file that is missing or does not parse
  pub texts : Texts
  pub spelling : Spelling
  pub normalize_coin_type : Bytes → Result (Unit {0}) Bytes
  pub coin_type_tag : Bytes → Result (Unit {0}) ℕ
  pub created_topic : Bytes
  pub withdrawal_topic : Bytes
  pub factory : ℕ
  pub polls : ℕ  -- of a receipt, within the 60 seconds

pub record State (W : Type 0) : Type 0 where
  pub cursors : Cursors
  pub tokens : TokenRegistry
  pub world : W

abbrev pub mint_gas_limit : ℕ
mint_gas_limit = 120000

abbrev pub create_bridge_gas_limit : ℕ
create_bridge_gas_limit = 3000000
