-- ===== src/Bridge/Token.antt =====
-- solidity/src/Bridge.sol: one bridged coin type on the L2. A revert changes nothing. The events and
-- the allowances are left out.
use podseq.Prelude.{
  ℕ, suc, ◌+◌, ◌-◌, Bool, true, false, not, Option, none, some, List, Result, ok, err, ◌>>=◌, ◌==◌,
  ltb,
}
use podseq.Store.Map.{get, insert}

pub record Token : Type 0 where
  pub relayer : ℕ
  pub total_supply : ℕ
  pub balance_of : List (ℕ × ℕ)
  pub last_minted_deposit_nonce : ℕ
  pub minted_any : Bool
  pub last_withdrawal_nonce : ℕ

pub data Revert : Type 0 where
  not_relayer stale_nonce mint_to_zero overflow zero_amount zero_recipient insufficient_balance
        transfer_to_zero :
      Revert

abbrev pub uint256_max : ℕ
uint256_max = 115792089237316195423570985008687907853269984665640564039457584007913129639935

abbrev pub require : Bool → Revert → Result Revert (Unit {0})
require true e = ok tt
require false e = err e

-- A mapping gives 0 for a key it does not hold.
abbrev pub or_zero : Option ℕ → ℕ
or_zero none = 0
or_zero (some n) = n

unfoldable pub balance : ℕ → Token → ℕ
balance account t = or_zero (get account t.balance_of)

abbrev pub next_nonce : Bool → ℕ → ℕ → Bool
next_nonce true last nonce = ltb last nonce
next_nonce false last nonce = nonce == 0

unfoldable pub mint_token : ℕ → ℕ → ℕ → ℕ → Token → Result Revert Token
unfolding balance
mint_token sender recipient amount nonce t = do
  _ ← require (sender == t.relayer) not_relayer
  _ ← require (next_nonce t.minted_any t.last_minted_deposit_nonce nonce) stale_nonce
  _ ← require (not (recipient == 0)) mint_to_zero
  _ ← require (not (ltb uint256_max (t.total_supply + amount))) overflow
  ok (record t {
    last_minted_deposit_nonce = nonce;
    minted_any = true;
    total_supply = t.total_supply + amount;
    balance_of = insert recipient (balance recipient t + amount) t.balance_of;
  })

unfoldable pub initiate_withdrawal : ℕ → ℕ → ℕ → Token → Result Revert Token
unfolding balance
initiate_withdrawal sender sui_recipient amount t = do
  _ ← require (ltb 0 amount) zero_amount
  _ ← require (not (sui_recipient == 0)) zero_recipient
  _ ← require (not (ltb (balance sender t) amount)) insufficient_balance
  ok (record t {
    balance_of = insert sender (balance sender t - amount) t.balance_of;
    total_supply = t.total_supply - amount;
    last_withdrawal_nonce = suc t.last_withdrawal_nonce;
  })

unfoldable pub debited : ℕ → ℕ → Token → Token
unfolding balance
debited from amount t = record t { balance_of = insert from (balance from t - amount) t.balance_of }

unfoldable pub credited : ℕ → ℕ → Token → Token
unfolding balance
credited to amount t = record t { balance_of = insert to (balance to t + amount) t.balance_of }

-- `transfer`, from the sender's account.
unfoldable pub transfer : ℕ → ℕ → ℕ → Token → Result Revert Token
unfolding debited credited
transfer from to amount t = do
  _ ← require (not (to == 0)) transfer_to_zero
  _ ← require (not (ltb (balance from t) amount)) insufficient_balance
  ok (credited to amount (debited from amount t))
