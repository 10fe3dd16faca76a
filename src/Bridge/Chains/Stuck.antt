-- ===== src/Bridge/Chains/Stuck.antt =====
-- Deposits that the relayer of crates/node/src/bridge.rs can never pass, over any rounds and restarts.
use podseq.Prelude.{
  ℕ, ◌≤◌, ◌≡◌, sym, ap, ◌∙◌, false, Option, some, List, arith, Bool-cases, inl, inr, ◌⊎◌, ok, ltb,
  ltb→lt,
}
use podseq.Core.Octets.{Bytes}
use podseq.Store.Map.{get}
use podseq.Bridge.Abi.{from_be_bytes}
use podseq.Bridge.{State, DepositRecord}
use podseq.Bridge.Withdrawals.{Round, rounds}
use podseq.Bridge.Restore.{start}
use podseq.Bridge.Chains.{Chains, Outside, relayer}
use podseq.Bridge.Chains.Sound.{Deposited}
use podseq.Bridge.Chains.Context.{Spells}
use podseq.Bridge.Chains.Deliveries.{InOrder}
use podseq.Bridge.Chains.Safety.{IsFresh, fresh-InOrder, rounds-InOrder}

-- The coin type is this one, as it is spelled or in its normal form.
abbrev pub IsSpelt : Outside → Bytes → Bytes → Type 0
IsSpelt o coin coin_type = (coin ≡ coin_type) ⊎ (o.normalize_coin_type coin ≡ ok coin_type)

-- The vault holds deposits under both nonces, and they are of one coin type.
abbrev pub SameCoin : Outside → ℕ → ℕ → Chains → Type 0
SameCoin o k n w =
    (coin : Bytes) × ((d : DepositRecord) × (get k w.vault.deposits ≡ some d)
      × IsSpelt o coin d.coin_type)
    × ((d : DepositRecord) × (get n w.vault.deposits ≡ some d) × IsSpelt o coin d.coin_type)

some_injective : {A : Type 0} {a b : A} → ◌≡◌ {A = Option A} (some a) (some b) → a ≡ b
some_injective e = cc

zero_passed :
    (o : Outside) (w : Chains) (k t r a : ℕ) (d : DepositRecord)
    → Deposited o k t r a w
    → get k w.vault.deposits ≡ some d
    → from_be_bytes 0 d.recipient_l2 ≡ 0
    → r ≡ 0
zero_passed o w k t r a d (d', e, p, q, _) f z =
    p ∙ ap (λ x. from_be_bytes 0 x.recipient_l2) (some_injective (sym e ∙ f)) ∙ z

module _ (o : Outside) (spells : Spells o) (st : State Chains) (xs : List Round)
    (fresh : IsFresh st) where
  abbrev after : State Chains
  after = (rounds (relayer o) (start (relayer o)) xs (false, st)).1

  in_order : InOrder o after
  in_order = rounds-InOrder o spells xs (false, st) (fresh-InOrder o spells st fresh)

  -- From a first start on fresh chains, over any rounds and restarts, while only the relayer's key
  -- mints, the cursor never passes a deposit for the zero address, which the vault takes from
  -- anyone.
  pub rounds-zero_recipient :
      (k : ℕ) (d : DepositRecord)
      → get k after.world.vault.deposits ≡ some d
      → from_be_bytes 0 d.recipient_l2 ≡ 0
      → after.cursors.next_deposit_nonce ≤ k
  rounds-zero_recipient k d e z = elim (Bool-cases (ltb k after.cursors.next_deposit_nonce)) [
    | inl t ↦
        let (h, g) = in_order in
        let p = g.cursors_fine.0 in
        let l = ltb→lt k after.cursors.next_deposit_nonce t in
        let (m, i, same, dep) = g.chains.delivered k (omega arith) in
        absurd (
          (g.chains.minted_fine m i).2
            (zero_passed o after.world k m.token m.recipient m.amount d dep e z))
    | inr f ↦ ground arith
  ]
