-- ===== src/Bridge/Vault.antt =====
-- The vault of move/sources/bridge.move: `deposit` and the body of `withdraw_as`. A coin type is a
-- number with its key as bytes beside it; an abort changes nothing. The rotation gate is that of Rotation.
pub mod Frame
pub mod Ledger
use podseq.Prelude.{
  ℕ, suc, ◌+◌, ◌-◌, Bool, true, false, Option, none, some, List, ◌++◌, Result, ok, err, ◌>>=◌,
  length, ◌==◌, ltb, leb,
}
use podseq.Core.Octets.{Bytes, to_le_bytes}
use podseq.Store.Map.{insert}
use podseq.Bridge.{DepositRecord}
use podseq.Bridge.Registry.{find, put}

pub record Vault : Type 0 where
  pub deposit_nonce : ℕ
  pub withdraw_nonce : ℕ
  pub reserves : List (Bytes × ℕ)
  pub deposits : List (ℕ × DepositRecord)
  pub processed_withdrawals : List (Bytes × Unit {0})

pub data Abort : Type 0 where
  zero_amount insufficient_liquidity invalid_recipient : Abort

abbrev assert : Bool → Abort → Result Abort (Unit {0})
assert true e = ok tt
assert false e = err e

abbrev held : Option ℕ → ℕ
held none = 0
held (some n) = n

-- The locked balance of a coin type, 0 where there is none.
unfoldable pub reserve : Bytes → Vault → ℕ
unfolding find
reserve coin_type v = held (find coin_type v.reserves)

unfoldable pub deposit : Bytes → ℕ → Bytes → Vault → Result Abort Vault
unfolding reserve put
deposit coin_type amount recipient_l2 v = do
  _ ← assert (ltb 0 amount) zero_amount
  _ ← assert (length recipient_l2 == 20) invalid_recipient
  ok (record v {
    reserves = put coin_type (reserve coin_type v + amount) v.reserves;
    deposits =
        insert v.deposit_nonce
          (record { amount = amount; recipient_l2 = recipient_l2; coin_type = coin_type })
          v.deposits;
    deposit_nonce = suc v.deposit_nonce;
  })

-- The key and the little-endian bytes of the nonce.
unfoldable pub withdraw_key : Bytes → ℕ → Bytes
withdraw_key coin_type l2_nonce = coin_type ++ to_le_bytes 8 l2_nonce

split_coin : Bytes → ℕ → Bytes → Option ℕ → Vault → Result Abort (Vault × Bool)
split_coin coin_type amount key none v = err insufficient_liquidity
split_coin coin_type amount key (some n) v = do
  _ ← assert (leb amount n) insufficient_liquidity
  ok (
    record v {
      reserves = put coin_type (n - amount) v.reserves;
      processed_withdrawals = put key tt v.processed_withdrawals;
      withdraw_nonce = suc v.withdraw_nonce;
    },
    true,
  )

first_release : Bytes → ℕ → Bytes → Option (Unit {0}) → Vault → Result Abort (Vault × Bool)
unfolding split_coin
first_release coin_type amount key (some _) v = ok (v, false)
first_release coin_type amount key none v = do
  _ ← assert (ltb 0 amount) zero_amount
  split_coin coin_type amount key (find coin_type v.reserves) v

-- Whether coins were released; a burn that was released before is passed over.
unfoldable pub do_withdraw : Bytes → ℕ → ℕ → Vault → Result Abort (Vault × Bool)
unfolding first_release withdraw_key
do_withdraw coin_type amount l2_nonce v =
    first_release coin_type amount (withdraw_key coin_type l2_nonce)
      (find (withdraw_key coin_type l2_nonce) v.processed_withdrawals) v
