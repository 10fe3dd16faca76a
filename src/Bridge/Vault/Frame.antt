-- ===== src/Bridge/Vault/Frame.antt =====
-- What a release leaves as it was.
use podseq.Prelude.{ℕ, ◌≡◌, Bool, Option, none, some, ok, arith}
use podseq.Core.Octets.{Bytes}
use podseq.Bridge.Registry.{find}
use podseq.Bridge.Vault.{Vault, do_withdraw, first_release, split_coin}

split_coin-deposits :
    (coin : Bytes) (amount : ℕ) (key : Bytes) (x : Option ℕ) (v v' : Vault) (b : Bool)
    → split_coin coin amount key x v ≡ ok (v', b)
    → (v'.deposits ≡ v.deposits) × (v'.deposit_nonce ≡ v.deposit_nonce)
unfolding split_coin
split_coin-deposits coin amount key none v v' b e = ground arith
split_coin-deposits coin amount key (some n) v v' b e = ground arith

first_release-deposits :
    (coin : Bytes) (amount : ℕ) (key : Bytes) (x : Option (Unit {0})) (v v' : Vault) (b : Bool)
    → first_release coin amount key x v ≡ ok (v', b)
    → (v'.deposits ≡ v.deposits) × (v'.deposit_nonce ≡ v.deposit_nonce)
unfolding first_release
first_release-deposits coin amount key (some _) v v' b e = ground arith
first_release-deposits coin amount key none v v' b e =
    ground (arith, split_coin-deposits coin amount key (find coin v.reserves) v v' b)

pub do_withdraw-deposits :
    (coin : Bytes) (amount nonce : ℕ) (v v' : Vault) (b : Bool)
    → do_withdraw coin amount nonce v ≡ ok (v', b)
    → (v'.deposits ≡ v.deposits) × (v'.deposit_nonce ≡ v.deposit_nonce)
unfolding do_withdraw
do_withdraw-deposits coin amount nonce v v' b e =
    first_release-deposits coin amount _ (find _ v.processed_withdrawals) v v' b e
