-- ===== src/Bridge/Registry.antt =====
-- `TokenRegistry` and `Cursors` of crates/node/src/bridge.rs: the canonical L2 token of each coin type.
-- The order of a hash map is that of the insertions here.
pub mod Finds
use podseq.Prelude.{
  ℕ, Bool, true, false, not, Option, none, some, List, [], ◌∷◌, map, Result, ok, ◌>>=◌, ◌==◌,
  if◌then◌else◌,
}
use podseq.Core.Octets.{Bytes}
use podseq.Store.Map.{get, insert}
use podseq.Bridge.Abi.{same_bytes}

-- A map whose keys are bytes.
module _ {V : Type 0} where
  unfoldable pub find : Bytes → List (Bytes × V) → Option V
  find k [] = none
  find k ((j, v) ∷ m) = if same_bytes j k then some v else find k m

  unfoldable pub put : Bytes → V → List (Bytes × V) → List (Bytes × V)
  put k v [] = (k, v) ∷ []
  put k v ((j, w) ∷ m) = if same_bytes j k then (j, v) ∷ m else (j, w) ∷ put k v m

pub record TokenRegistry : Type 0 where
  pub by_coin_type : List (Bytes × ℕ)
  pub by_address : List (ℕ × Bytes)

abbrev pub empty_registry : TokenRegistry
empty_registry = record { by_coin_type = []; by_address = [] }

unfoldable pub claimed_by_other : Option ℕ → ℕ → Bool
claimed_by_other none token = false
claimed_by_other (some existing) token = not (existing == token)

-- The registry left, and whether the token was taken in.
unfoldable pub add_token : Bytes → ℕ → TokenRegistry → TokenRegistry × Bool
unfolding find put claimed_by_other
add_token coin_type token r =
    if claimed_by_other (find coin_type r.by_coin_type) token then (r, false) else (
      record {
        by_coin_type = put coin_type token r.by_coin_type;
        by_address = insert token coin_type r.by_address;
      },
      true,
    )

unfoldable pub token_for : Bytes → TokenRegistry → Option ℕ
unfolding find
token_for coin_type r = find coin_type r.by_coin_type

unfoldable pub coin_for : ℕ → TokenRegistry → Option Bytes
coin_for token r = get token r.by_address

unfoldable pub addresses : TokenRegistry → List ℕ
addresses r = map (λ e. e.0) r.by_address

-- How the file spells coin types and addresses.
pub record Spelling : Type 0 where
  pub hex_encode : Bytes → Bytes
  pub hex_decode : Bytes → Result (Unit {0}) Bytes
  pub print_address : ℕ → Bytes
  pub parse_address : Bytes → Result (Unit {0}) ℕ

pub record Cursors : Type 0 where
  pub next_deposit_nonce : ℕ
  pub next_l2_block : ℕ
  pub tokens : List (Bytes × Bytes)

abbrev pub default_cursors : Cursors
default_cursors = record { next_deposit_nonce = 0; next_l2_block = 0; tokens = [] }

module _ (p : Spelling) where
  unfoldable pub snapshot : TokenRegistry → List (Bytes × Bytes)
  snapshot r = map (λ e. (p.hex_encode e.0, p.print_address e.1)) r.by_coin_type

  unfoldable pub restore_into :
      TokenRegistry → List (Bytes × Bytes) → Result (Unit {0}) TokenRegistry
  unfolding add_token
  restore_into r [] = ok r
  restore_into r ((coin_hex, token_hex) ∷ rest) = do
    coin ← p.hex_decode coin_hex
    token ← p.parse_address token_hex
    restore_into (add_token coin token r).0 rest

  unfoldable pub from_snapshot : List (Bytes × Bytes) → Result (Unit {0}) TokenRegistry
  unfolding restore_into
  from_snapshot entries = restore_into empty_registry entries
