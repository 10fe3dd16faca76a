-- ===== src/Bridge/Chains/Effects.antt =====
-- What a call that goes through on either chain leaves: a mint, a burn, a transfer, a deposit and a
-- creation.
use podseq.Prelude.{
  ℕ, ◌≡◌, refl, sym, ◌∙◌, inr, Bool, true, false, [], ◌∷◌, Result, ok, err, arith, ◌&&◌,
}
use mathlib.Core.Path.{subst}
use podseq.Core.Octets.{Bytes}
use podseq.Bridge.Abi.{RpcLog, RelayError, parse_bridge_created_log}
use podseq.Bridge.Registry.Finds.{same_bytes→eq}
use podseq.Bridge.{Calldata, create_bridge}
use podseq.Bridge.Token.{Token, mint_token, initiate_withdrawal, transfer}
use podseq.Bridge.Vault.{Vault, deposit}
use podseq.Bridge.Chains.{Outside, tells_coin, coined}
use podseq.Bridge.Chains.Sound.{LogsOf, OfCall}
use podseq.Bridge.Chains.Updates.{NextVault}

-- A mint that goes through was not of a stale nonce.
pub mint_token-ok :
    (sender recipient amount nonce : ℕ) (t u : Token)
    → mint_token sender recipient amount nonce t ≡ ok u
    → (u.minted_any ≡ true)
      × (u.last_minted_deposit_nonce ≡ nonce)
      × (recipient ≡ 0 → ⊥)
      × (t.minted_any ≡ false → nonce ≡ 0)
unfolding mint_token
mint_token-ok sender recipient amount nonce t u e =
    (ground arith, ground arith, λ z. ground arith, λ f. ground arith)

pub initiate_withdrawal-ok :
    (sender to amount : ℕ) (t u : Token)
    → initiate_withdrawal sender to amount t ≡ ok u
    → (u.minted_any ≡ t.minted_any) × (u.last_minted_deposit_nonce ≡ t.last_minted_deposit_nonce)
unfolding initiate_withdrawal
initiate_withdrawal-ok sender to amount t u e = ground arith

pub transfer-ok :
    (from to amount : ℕ) (t u : Token)
    → transfer from to amount t ≡ ok u
    → (u.minted_any ≡ t.minted_any) × (u.last_minted_deposit_nonce ≡ t.last_minted_deposit_nonce)
unfolding transfer
transfer-ok from to amount t u e = ground arith

pub both : (a b : Bool) → (a && b) ≡ true → b ≡ true
both true b e = e
both false b e = cc

pub both_left : (a b : Bool) → (a && b) ≡ true → a ≡ true
both_left true b e = refl
both_left false b e = cc

same_calldata : (x y z x' y' z' : Bytes) → create_bridge x y z ≡ create_bridge x' y' z' → z ≡ z'
same_calldata x y z x' y' z' e = cc

pub deposit-NextVault :
    (o : Outside) (c : Bytes) (a : ℕ) (r : Bytes) (v v' : Vault)
    → deposit c a r v ≡ ok v'
    → NextVault o v v'
unfolding deposit
deposit-NextVault o c a r v v' e =
    inr (record { amount = a; recipient_l2 = r; coin_type = c }, ground arith, ground arith)

coined-ok :
    (x : Result RelayError (Bytes × ℕ)) (coin coin_type : Bytes) (a : ℕ)
    → coined x coin_type ≡ true
    → x ≡ ok (coin, a)
    → coin ≡ coin_type
unfolding coined
coined-ok (ok (c, b)) coin coin_type a h e = same_bytes→eq coin coin_type (ground arith)
coined-ok (err _) coin coin_type a h e = cc

pub tells_coin-ok :
    (o : Outside) (log : RpcLog) (coin_type : Bytes)
    → tells_coin o log coin_type ≡ true
    → LogsOf o coin_type (log ∷ [])
unfolding tells_coin
tells_coin-ok o log coin_type h = (
  λ coin a e. coined-ok (parse_bridge_created_log o.texts o.created_topic log) coin coin_type a h e,
  tt,
)

pub call_of :
    (o : Outside) (c : Calldata) (x y z : Bytes) (log : RpcLog)
    → c ≡ create_bridge x y z
    → LogsOf o z (log ∷ [])
    → OfCall o c (log ∷ [])
call_of o c x y z log q h x' y' z' e =
    subst (λ k. LogsOf o k (log ∷ [])) (same_calldata x y z x' y' z' (sym q ∙ e)) h
