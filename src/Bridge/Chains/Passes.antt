-- ===== src/Bridge/Chains/Passes.antt =====
-- Passes of the relayer over both chains keep its state in order.
use podseq.Prelude.{
  ℕ, zero, suc, ◌-◌, ◌≤◌, ◌≡◌, refl, sym, ◌∙◌, false, Option, some, Result, ok, err, leb,
  ok_injective,
}
use mathlib.Core.Path.{subst}
use podseq.Call.Ensures.{
  Ensures, Ensures-given, Keeps, Ensures-pure, Ensures-gets, Ensures-bind, Ensures-weaken,
  Ensures-select, Ensures-attempt,
}
use podseq.Store.Map.{get}
use podseq.Bridge.Abi.{RelayError}
use podseq.Bridge.{State, DepositRecord}
use podseq.Bridge.Requests.{request}
use podseq.Bridge.Deposits.{relay_next, relay_up_to, with_status, relay_deposits}
use podseq.Bridge.Chains.{Chains, Outside, relayer, ask}
use podseq.Bridge.Chains.Context.{Spells, Kept, Good, At, Ensures-ask}
use podseq.Bridge.Chains.Deliveries.{InOrder, with_deposit-Ensures}

module _ (o : Outside) (spells : Spells o) where
  abbrev Nothing : Chains → Type 0
  Nothing _ = Unit {0}

  kept-Nothing : Kept Nothing
  kept-Nothing w w' g u = tt

  read_deposit :
      (high n : ℕ)
      → Ensures
          (At o high n Nothing)
          (request (relayer o) ((relayer o).deposit_at n))
          (λ x st. At o high n Nothing st × (x ≡ get n st.world.vault.deposits))
          (λ _. At o high n Nothing)
  unfolding relayer
  read_deposit high n =
      Ensures-weaken (λ _ p. p) (λ _ _ p. ((p.0, p.1, tt), p.2.1)) (λ _ _ p. p)
        (Ensures-ask o high n Nothing kept-Nothing (λ w. get n w.vault.deposits)
          (λ x w. x ≡ get n w.vault.deposits) (λ _ _ _. refl))

  deposit_read :
      (high n : ℕ) (st : State Chains) (x : Option DepositRecord)
      → At o high n Nothing st × (x ≡ get n st.world.vault.deposits)
      → At o high n Nothing st
        × ((rec : DepositRecord)
            → ◌≡◌ {A = Result RelayError (Option DepositRecord)} (ok x) (ok (some rec))
            → get n st.world.vault.deposits ≡ some rec)
  deposit_read high n st x (p, e) = (p, λ rec h. sym e ∙ ok_injective h)

  next_at :
      (latest high : ℕ)
      → Ensures (Good o high) (relay_next (relayer o) latest) (λ _. InOrder o) (λ _. InOrder o)
  unfolding relay_next
  next_at latest high =
      Ensures-bind
        (Ensures-gets {Q = λ n. At o high n Nothing} (λ st. st.cursors.next_deposit_nonce)
          (λ st p. (p, refl, tt)))
        λ n.
          Ensures-select (leb latest n) (λ _. Ensures-pure false (λ st p. (high, p.0)))
            (λ _.
              Ensures-given (n ≤ high) (λ st p. subst (λ k. k ≤ high) p.1 p.0.cursors_fine.0)
                λ le.
                  Ensures-bind
                    (Ensures-attempt
                      {Q = λ x st.
                        At o high n Nothing st
                        × ((rec : DepositRecord)
                            → x ≡ ok (some rec)
                            → get n st.world.vault.deposits ≡ some rec)}
                      {R = λ _. InOrder o}
                      (Ensures-weaken (λ _ p. p) (λ x st p. deposit_read high n st x p)
                        (λ _ _ p. (p, λ rec h. absurd (err_ok h))) (read_deposit high n)))
                    (with_deposit-Ensures o spells high n le))
    where
      err_ok : {E A : Type 0} {e : E} {a : A} → ◌≡◌ {A = Result E A} (err e) (ok a) → ⊥
      err_ok h = cc

  relay_next-Keeps : (latest : ℕ) → Keeps (InOrder o) (relay_next (relayer o) latest)
  relay_next-Keeps latest = record { holds = λ st p. (next_at latest p.0).holds st p.1 }

  relay_up_to-Keeps : (latest n : ℕ) → Keeps (InOrder o) (relay_up_to (relayer o) latest n)
  unfolding relay_up_to
  relay_up_to-Keeps latest zero = Ensures-pure tt (λ st p. p)
  relay_up_to-Keeps latest (suc n) = Ensures-bind (relay_next-Keeps latest) λ more.
      Ensures-select more (λ _. relay_up_to-Keeps latest n) (λ _. Ensures-pure tt (λ st p. p))

  -- A request that reads, from a state in order.
  Keeps-ask : {A : Type 0} (f : Chains → A) → Keeps (InOrder o) (request (relayer o) (ask o f))
  Keeps-ask f = record {
    holds = λ st p. (asked p.0 st.cursors.next_deposit_nonce).holds st (p.1, refl, tt);
  }
    where
      asked :
          (high n : ℕ)
          → Ensures
              (At o high n Nothing)
              (request (relayer o) (ask o f))
              (λ _. InOrder o)
              (λ _. InOrder o)
      asked high n =
          Ensures-weaken (λ _ p. p) (λ _ _ p. (high, p.0)) (λ _ _ p. (high, p.0))
            (Ensures-ask o high n Nothing kept-Nothing f (λ _ _. Unit {0}) (λ _ _ _. tt))

  with_status-Keeps : (x : Result RelayError ℕ) → Keeps (InOrder o) (with_status (relayer o) x)
  unfolding with_status
  with_status-Keeps (err _) = Ensures-pure tt (λ st p. p)
  with_status-Keeps (ok latest) =
      Ensures-bind (Ensures-gets {Q = λ _. InOrder o} _ (λ st p. p))
        λ n. relay_up_to-Keeps latest (suc (latest - n))

  pub relay_deposits-Keeps : Keeps (InOrder o) (relay_deposits (relayer o))
  unfolding relay_deposits relayer
  relay_deposits-Keeps =
      Ensures-bind (Ensures-attempt (Keeps-ask (λ w. w.vault.deposit_nonce))) with_status-Keeps
