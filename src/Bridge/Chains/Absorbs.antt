-- ===== src/Bridge/Chains/Absorbs.antt =====
-- The creation logs that the relayer takes in name tokens that are there.
use podseq.Prelude.{
  ℕ, ◌≡◌, refl, inl, inr, ◌&&◌, List, [], ◌∷◌, Result, ok, err, All, leb, Bool-cases,
}
use podseq.Call.Ensures.{
  Ensures, Keeps, Ensures-pure, Ensures-lift, Ensures-modify, Ensures-bind, Ensures-weaken,
}
use podseq.Core.Octets.{Bytes}
use podseq.Bridge.Abi.{RelayError, RpcLog, same_bytes, parse_bridge_created_log}
use podseq.Bridge.Registry.{TokenRegistry}
use podseq.Bridge.{State}
use podseq.Bridge.Requests.{request}
use podseq.Bridge.Withdrawals.{
  eth_get_logs, add_normal, absorb_parsed, absorb_logs, take_in, absorb_creations,
}
use podseq.Bridge.Chains.{Chains, Outside, relayer, ask, logs_between, factory_logs, same_topic}
use podseq.Bridge.Chains.Sound.{HasToken, Origin, Stands, LogFine, CreatedFine, Sound}
use podseq.Bridge.Registry.Finds.{same_bytes_refl}
use podseq.Bridge.Chains.Entries.{RegistryFine-add}
use podseq.Bridge.Chains.Context.{Spells, RegistryFine, Kept, At, Ensures-ask}
use podseq.Bridge.Chains.Deliveries.{InOrder}

module _ (o : Outside) (spells : Spells o) where
  abbrev pub Nothing : Chains → Type 0
  Nothing _ = Unit {0}

  pub kept-Nothing : Kept Nothing
  kept-Nothing w w' g u = tt

  -- A request that reads, from a state in order.
  pub asks :
      {A : Type 0} (f : Chains → A) (G : A → Chains → Type 0)
      → ((w : Chains) (high : ℕ) → Sound o high w → G (f w) w)
      → Ensures
          (InOrder o)
          (request (relayer o) (ask o f))
          (λ a st. InOrder o st × G a st.world)
          (λ _. InOrder o)
  asks f G gives = record {
    holds = λ st p. (asked p.0 st.cursors.next_deposit_nonce).holds st (p.1, refl, tt);
  }
    where
      asked :
          (high n : ℕ)
          → Ensures
              (At o high n Nothing)
              (request (relayer o) (ask o f))
              (λ a st. InOrder o st × G a st.world)
              (λ _. InOrder o)
      asked high n =
          Ensures-weaken (λ _ p. p) (λ _ _ p. ((high, p.0), p.2.1)) (λ _ _ p. (high, p.0))
            (Ensures-ask o high n Nothing kept-Nothing f G (λ w s _. gives w high s))

  between_fine :
      (from to : ℕ) (w : Chains) (es : List (ℕ × RpcLog))
      → CreatedFine o w es
      → All (LogFine o w) (logs_between from to es)
  unfolding logs_between
  between_fine from to w [] h = tt
  between_fine from to w ((b, log) ∷ es) (l, h) = elim (Bool-cases (leb from b && leb b to)) [
    | inl t ↦ rw t (l, between_fine from to w es h)
    | inr f ↦ rw f (between_fine from to w es h)
  ]

  add_normal-fine :
      (w : Chains) (x : Result (Unit {0}) Bytes) (a : ℕ) (tokens : TokenRegistry)
      → ((key : Bytes) → x ≡ ok key → Stands o key a w)
      → RegistryFine o tokens w
      → RegistryFine o (add_normal x a tokens) w
  unfolding add_normal
  add_normal-fine w (ok key) a tokens h f = RegistryFine-add o key a tokens w f (h key refl)
  add_normal-fine w (err _) a tokens h f = f

  absorb_parsed-fine :
      (w : Chains) (x : Result RelayError (Bytes × ℕ)) (tokens : TokenRegistry)
      → ((coin : Bytes) (a : ℕ) → x ≡ ok (coin, a) → HasToken a w × Origin o coin a w)
      → RegistryFine o tokens w
      → RegistryFine o (absorb_parsed (relayer o) x tokens) w
  unfolding absorb_parsed relayer
  absorb_parsed-fine w (err _) tokens l f = f
  absorb_parsed-fine w (ok (coin, a)) tokens l f =
      let (t, h) = l coin a refl in add_normal-fine w _ a tokens (λ key e. (t, (coin, inr e, h))) f

  absorb_logs-fine :
      (w : Chains) (logs : List RpcLog) (tokens : TokenRegistry)
      → All (LogFine o w) logs
      → RegistryFine o tokens w
      → RegistryFine o (absorb_logs (relayer o) logs tokens) w
  unfolding absorb_logs relayer
  absorb_logs-fine w [] tokens h f = f
  absorb_logs-fine w (log ∷ logs) tokens (l, h) f =
      absorb_logs-fine w logs _ h
        (absorb_parsed-fine w (parse_bridge_created_log o.texts o.created_topic log) tokens l f)

  taken_in :
      (logs : List RpcLog) (st : State Chains)
      → InOrder o st × All (LogFine o st.world) logs
      → InOrder o (take_in (relayer o) logs st)
  taken_in logs st ((h, g), l) = (
    h,
    record {
      chains = g.chains;
      cursors_fine = g.cursors_fine;
      registry = absorb_logs-fine st.world logs st.tokens l g.registry;
      filed = g.filed;
    },
  )

  pub absorb_creations-Keeps :
      (from to : ℕ) → Keeps (InOrder o) (absorb_creations (relayer o) from to)
  unfolding absorb_creations eth_get_logs relayer same_topic
  absorb_creations-Keeps from to =
      Ensures-bind
        (Ensures-bind (Ensures-lift _ (λ _ _ st p. p) (λ _ _ st p. p)) λ _.
          asks
            (factory_logs o (same_bytes o.created_topic o.created_topic) (o.factory ∷ []) from to)
            (λ logs w. All (LogFine o w) logs)
            (λ w high s.
              rw (same_bytes_refl o.created_topic)
                (between_fine from to w w.created s.created_fine)))
        λ logs.
          Ensures-bind (Ensures-modify {Q = λ _. InOrder o} _ (λ st p. taken_in logs st p))
            λ _. Ensures-pure _ (λ st p. p)
