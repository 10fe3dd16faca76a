-- ===== src/Bridge/Chains/Rounds.antt =====
-- A withdrawal pass, and so a whole pass, keeps the relayer's state in order.
use podseq.Prelude.{ℕ, ◌≤◌, ◌≡◌, refl, sym, inl, Bool, List, [], ◌∷◌, Result, ok, err, ltb}
use mathlib.Core.Path.{subst}
use podseq.Call.{lift}
use podseq.Call.Ensures.{
  Ensures, Keeps, Ensures-pure, Ensures-lift, Ensures-gets, Ensures-modify, Ensures-bind,
  Ensures-weaken, Ensures-select, Ensures-attempt,
}
use podseq.Core.Octets.{Bytes}
use podseq.Bridge.Abi.{RelayError, RpcLog}
use podseq.Bridge.Registry.{empty_registry, snapshot, from_snapshot}
use podseq.Bridge.{State}
use podseq.Bridge.Vault.{Vault, Abort, do_withdraw}
use podseq.Bridge.Requests.{request}
use podseq.Bridge.Withdrawals.{
  eth_get_logs, process_withdrawal_log, process_logs, release_burns, relay_blocks,
  relay_withdrawals, pass, is_nil,
}
use podseq.Bridge.Chains.{Chains, Outside, relayer, act, factory_logs, same_topic, withdrawn}
use podseq.Bridge.Chains.Sound.{Sound}
use podseq.Bridge.Chains.Updates.{Later, Later-vault}
use podseq.Bridge.Chains.Moments.{Later-same}
use podseq.Bridge.Chains.Entries.{restore_into-RegistryFine}
use podseq.Bridge.Chains.Context.{Spells, At, Ensures-act}
use podseq.Bridge.Chains.Deliveries.{InOrder, persisted}
use podseq.Bridge.Chains.Passes.{relay_deposits-Keeps}
use podseq.Bridge.Vault.Frame.{do_withdraw-deposits}
use podseq.Bridge.Chains.Absorbs.{asks, absorb_creations-Keeps}

module _ (o : Outside) (spells : Spells o) where
  withdrawn-Later :
      (w : Chains) (high : ℕ) (x : Result Abort (Vault × Bool))
      → Sound o high w
      → ((v : Vault) (b : Bool)
          → x ≡ ok (v, b)
          → (v.deposits ≡ w.vault.deposits) × (v.deposit_nonce ≡ w.vault.deposit_nonce))
      → Later o high w (withdrawn o w x).1
  unfolding withdrawn
  withdrawn-Later w high (ok (v, b)) s k = Later-vault o w v s (inl (k v b refl))
  withdrawn-Later w high (err _) s k = Later-same o w s

  release-Keeps :
      (tag : ℕ) (recipient : Bytes) (amount nonce : ℕ)
      → Keeps (InOrder o) (request (relayer o) ((relayer o).withdraw tag recipient amount nonce))
  unfolding relayer
  release-Keeps tag recipient amount nonce = record {
    holds = λ st p. (acted p.0 st.cursors.next_deposit_nonce).holds st (p.1, refl, tt);
  }
    where
      acted :
          (high n : ℕ)
          → Ensures
              (At o high n (λ _. Unit {0}))
              (request
                (relayer o)
                (act o (λ w. withdrawn o w (do_withdraw (o.coin_of_tag tag) amount nonce w.vault))))
              (λ _. InOrder o)
              (λ _. InOrder o)
      acted high n =
          Ensures-weaken (λ _ p. p) (λ _ _ p. (high, p.0)) (λ _ _ p. (high, p.0))
            (Ensures-act o high n (λ _. Unit {0}) (λ w w' g u. tt) _ (λ _ _. Unit {0})
              (λ w s _. (
                withdrawn-Later w high (do_withdraw (o.coin_of_tag tag) amount nonce w.vault) s
                    (λ v b e. do_withdraw-deposits (o.coin_of_tag tag) amount nonce w.vault v b e),
                tt,
              )))

  process_withdrawal_log-Keeps :
      (log : RpcLog) → Keeps (InOrder o) (process_withdrawal_log (relayer o) log)
  unfolding process_withdrawal_log
  process_withdrawal_log-Keeps log = Ensures-bind (lifts _) λ emitter.
      Ensures-bind (Ensures-gets {Q = λ _. InOrder o} _ (λ st p. p)) λ tokens.
        Ensures-bind (lifts _) λ coin. Ensures-bind (lifts _) λ _. Ensures-bind (lifts _) λ tag.
          Ensures-bind (lifts _)
            λ parsed. release-Keeps tag parsed.sui_recipient parsed.amount parsed.nonce
    where
      lifts : {A : Type 0} (x : Result RelayError A) → Keeps (InOrder o) (lift x)
      lifts x = Ensures-lift x (λ _ _ st p. p) (λ _ _ st p. p)

  process_logs-Keeps : (logs : List RpcLog) → Keeps (InOrder o) (process_logs (relayer o) logs)
  unfolding process_logs
  process_logs-Keeps [] = Ensures-pure tt (λ st p. p)
  process_logs-Keeps (log ∷ logs) =
      Ensures-bind (process_withdrawal_log-Keeps log) λ _. process_logs-Keeps logs

  read_logs-Keeps :
      (tokens : List ℕ) (topic0 : Bytes) (from to : ℕ)
      → Keeps (InOrder o) (eth_get_logs (relayer o) tokens topic0 from to)
  unfolding eth_get_logs relayer
  read_logs-Keeps tokens topic0 from to =
      Ensures-bind (Ensures-lift _ (λ _ _ st p. p) (λ _ _ st p. p)) λ _.
        Ensures-weaken (λ _ p. p) (λ _ _ p. p.0) (λ _ _ p. p)
          (asks o spells (factory_logs o (same_topic o topic0) tokens from to) (λ _ _. Unit {0})
            (λ _ _ _. tt))

  release_burns-Keeps :
      (tokens : List ℕ) (from to : ℕ) → Keeps (InOrder o) (release_burns (relayer o) tokens from to)
  unfolding release_burns
  release_burns-Keeps tokens from to =
      Ensures-select (is_nil tokens) (λ _. Ensures-pure tt (λ st p. p))
        (λ _. Ensures-bind (read_logs-Keeps tokens _ from to) process_logs-Keeps)

  -- Cursors that spell the registry are fine.
  pub spelled :
      (st : State Chains) (n b : ℕ)
      → InOrder o st
      → n ≡ st.cursors.next_deposit_nonce
      → InOrder o (record st {
        cursors = record {
          next_deposit_nonce = n;
          next_l2_block = b;
          tokens = snapshot o.spelling st.tokens;
        };
      })
  unfolding snapshot from_snapshot
  spelled st n b (h, g) e = (
    h,
    record {
      chains = g.chains;
      cursors_fine = (
        subst (λ k. k ≤ h) (sym e) g.cursors_fine.0,
        λ tokens p.
            restore_into-RegistryFine o spells st.world st.tokens.by_coin_type empty_registry tokens
              g.registry tt p,
      );
      registry = g.registry;
      filed = g.filed;
    },
  )

  relay_blocks-Keeps : (from to : ℕ) → Keeps (InOrder o) (relay_blocks (relayer o) from to)
  unfolding relay_blocks relayer
  relay_blocks-Keeps from to = Ensures-bind (absorb_creations-Keeps o spells from to) λ _.
      Ensures-bind (Ensures-gets {Q = λ _. InOrder o} _ (λ st p. p)) λ known.
        Ensures-bind (release_burns-Keeps known from to) λ _.
          Ensures-bind (Ensures-modify {Q = λ _. InOrder o} _ (λ st p. spelled st _ _ p refl))
            λ _. Ensures-modify _ (λ st p. persisted o spells st p)

  pub pass-Keeps : Keeps (InOrder o) (pass (relayer o))
  unfolding pass relay_withdrawals relayer
  pass-Keeps =
      Ensures-bind (Ensures-attempt (relay_deposits-Keeps o spells))
        λ _. Ensures-bind (Ensures-attempt withdrawals) λ _. Ensures-pure tt (λ st p. p)
    where
      withdrawals : Keeps (InOrder o) (relay_withdrawals (relayer o))
      withdrawals = Ensures-bind (Ensures-gets {Q = λ _. InOrder o} _ (λ st p. p)) λ from.
          Ensures-bind
            (Ensures-weaken (λ _ p. p) (λ _ _ p. p.0) (λ _ _ p. p)
              (asks o spells (λ w. w.head) (λ _ _. Unit {0}) (λ _ _ _. tt)))
            λ latest.
              Ensures-select (ltb latest from) (λ _. Ensures-pure tt (λ st p. p))
                (λ _. relay_blocks-Keeps from latest)
