-- ===== src/Bridge/Chains/Tokens.antt =====
-- The tokens that the relayer finds or creates are there on the L2.
use podseq.Prelude.{
  ℕ, ◌≡◌, refl, inl, ap, ◌∙◌, Option, none, some, List, [], ◌∷◌, Result, ok, err, All, arith,
  ok_injective,
}
use mathlib.Core.Path.{subst}
use podseq.Call.{lift}
use podseq.Call.Ensures.{
  Ensures, Ensures-pure, Ensures-lift, Ensures-gets, Ensures-modify, Ensures-bind, Ensures-weaken,
  Ensures-select,
}
use podseq.Core.Octets.{Bytes}
use podseq.Bridge.Abi.{RelayError, RpcLog, ok_or, parse_bridge_created_log}
use podseq.Bridge.Registry.{TokenRegistry, find, add_token, token_for}
use podseq.Bridge.{State, Receipt, create_bridge}
use podseq.Bridge.Requests.{found_or, wait_for_receipt}
use podseq.Bridge.Deposits.{
  created_token, register, create_token, ensure_token, set_tokens, derive_token_metadata,
}
use podseq.Bridge.Chains.{Chains, Outside, relayer}
use podseq.Bridge.Chains.Sound.{Stands, LogFine, LogsOf}
use podseq.Bridge.Chains.Context.{RegistryFine, Kept, Good, At}
use podseq.Bridge.Chains.Entries.{find-Stands, RegistryFine-add}
use podseq.Bridge.Chains.Sending.{send_l2_tx-Ensures, poll_receipt-Ensures}

created_or :
    (o : Outside) (coin : Bytes) (w : Chains) (log : RpcLog) (logs : List RpcLog)
    (x : Result RelayError (Bytes × ℕ)) (a : ℕ)
    → parse_bridge_created_log o.texts o.created_topic log ≡ x
    → ((c : Bytes) (b : ℕ)
        → parse_bridge_created_log o.texts o.created_topic log ≡ ok (c, b)
        → Stands o coin b w)
    → (created_token (relayer o) logs ≡ some a → Stands o coin a w)
    → created_token (relayer o) (log ∷ logs) ≡ some a
    → Stands o coin a w
unfolding created_token relayer
created_or o coin w log logs (ok (c, b)) a e fine rest h =
    subst (λ k. Stands o coin k w) (ground arith) (fine c b e)
created_or o coin w log logs (err _) a e fine rest h = rest (ground arith)

created_token-Stands :
    (o : Outside) (coin : Bytes) (w : Chains) (logs : List RpcLog) (a : ℕ)
    → All (LogFine o w) logs
    → LogsOf o coin logs
    → created_token (relayer o) logs ≡ some a
    → Stands o coin a w
unfolding created_token
created_token-Stands o coin w [] a fine of e = cc
created_token-Stands o coin w (log ∷ logs) a (f, fine) (k, of) e =
    created_or o coin w log logs (parse_bridge_created_log o.texts o.created_topic log) a refl
      (λ c b p. let (t, h) = f c b p in (t, (c, inl (k c b p), h)))
      (λ h. created_token-Stands o coin w logs a fine of h) e

module _ (o : Outside) (high n : ℕ) (F : Chains → Type 0) (kept : Kept F) where
  abbrev Known : Bytes → ℕ → Chains → Type 0
  Known coin a w = F w × Stands o coin a w

  Good-tokens :
      (st : State Chains) (tokens : TokenRegistry)
      → Good o high st
      → RegistryFine o tokens st.world
      → Good o high (set_tokens (relayer o) tokens st)
  Good-tokens st tokens g f = record {
    chains = g.chains;
    cursors_fine = g.cursors_fine;
    registry = f;
    filed = g.filed;
  }

  -- The token that stands for the coin type in the end.
  canonical :
      (coin : Bytes) (tokens : TokenRegistry)
      → Ensures
          (λ st. At o high n F st × RegistryFine o tokens st.world)
          (lift (ok_or RelayError.no_canonical_token (token_for coin tokens)))
          (λ b. At o high n (Known coin b))
          (λ _. At o high n F)
  unfolding token_for
  canonical coin tokens = canonical_of (find coin tokens.by_coin_type) refl
    where
      canonical_of :
          (x : Option ℕ)
          → find coin tokens.by_coin_type ≡ x
          → Ensures
              (λ st. At o high n F st × RegistryFine o tokens st.world)
              (lift (ok_or RelayError.no_canonical_token x))
              (λ b. At o high n (Known coin b))
              (λ _. At o high n F)
      canonical_of none e = Ensures-lift _ (λ b p. cc) (λ _ _ st p. p.0)
      canonical_of (some a) e =
          Ensures-lift _
            (λ b p st q. (
              q.0.0,
              q.0.1,
              (
                q.0.2,
                find-Stands o coin b st.world tokens.by_coin_type q.1
                    (e ∙ ap some (ok_injective p)),
              ),
            ))
            (λ _ _ st p. p.0)

  register-Ensures :
      (coin : Bytes) (a : ℕ)
      → Ensures
          (At o high n (Known coin a))
          (register (relayer o) coin a)
          (λ b. At o high n (Known coin b))
          (λ _. At o high n F)
  unfolding register
  register-Ensures coin a =
      Ensures-bind
        (Ensures-gets
          {Q = λ tokens st. At o high n (Known coin a) st × RegistryFine o tokens st.world}
          (λ st. st.tokens) (λ st p. (p, p.0.registry)))
        λ tokens.
          Ensures-bind
            (Ensures-modify
              {Q = λ _ st. At o high n (Known coin a) st × RegistryFine o tokens st.world}
              (set_tokens (relayer o) (add_token coin a tokens).0)
              (λ st p. (
                (
                  Good-tokens st (add_token coin a tokens).0 p.0.0
                      (RegistryFine-add o coin a tokens st.world p.1 p.0.2.1),
                  p.0.1,
                  p.0.2,
                ),
                p.1,
              )))
            λ _.
              Ensures-select _ (λ _. Ensures-pure a (λ st p. p.0))
                (λ _.
                  Ensures-weaken (λ st p. ((p.0.0, p.0.1, p.0.2.0), p.1)) (λ _ _ p. p) (λ _ _ p. p)
                    (canonical coin tokens))

  create_token-Ensures :
      (coin : Bytes)
      → Ensures
          (At o high n F)
          (create_token (relayer o) coin)
          (λ b. At o high n (Known coin b))
          (λ _. At o high n F)
  unfolding create_token wait_for_receipt relayer
  create_token-Ensures coin = Ensures-bind (Ensures-lift _ (λ _ _ st p. p) (λ _ _ st p. p)) λ _.
      Ensures-bind
        (send_l2_tx-Ensures o high n F kept o.factory
          (create_bridge (derive_token_metadata coin).0 (derive_token_metadata coin).1 coin) _
          (λ w f. tt))
        λ i.
          Ensures-bind
            (poll_receipt-Ensures o high n F kept i o.factory _
              (λ x w. All (LogFine o w) x.logs × LogsOf o coin x.logs)
              (λ w s b sound f e p q r. let l = (sound.sent_fine i s e).1 in (l.0, l.1 _ _ coin q))
              o.polls)
            λ x. Ensures-bind (Ensures-lift _ (λ _ _ st p. p) (λ _ _ st p. (p.0, p.1, p.2.0))) λ _.
              Ensures-bind (created_step x (created_token (relayer o) x.logs) refl)
                λ a. register-Ensures coin a
    where
      created_step :
          (x : Receipt) (t : Option ℕ)
          → created_token (relayer o) x.logs ≡ t
          → Ensures
              (At o high n (λ w. F w × (All (LogFine o w) x.logs × LogsOf o coin x.logs)))
              (lift (ok_or RelayError.no_created_log t))
              (λ a. At o high n (Known coin a))
              (λ _. At o high n F)
      created_step x none e = Ensures-lift _ (λ b p. cc) (λ _ _ st p. (p.0, p.1, p.2.0))
      created_step x (some a) e =
          Ensures-lift _
            (λ b p st q. (
              q.0,
              q.1,
              (
                q.2.0,
                created_token-Stands o coin st.world x.logs b q.2.1.0 q.2.1.1
                    (e ∙ ap some (ok_injective p)),
              ),
            ))
            (λ _ _ st p. (p.0, p.1, p.2.0))

  pub ensure_token-Ensures :
      (coin : Bytes)
      → Ensures
          (At o high n F)
          (ensure_token (relayer o) coin)
          (λ b. At o high n (Known coin b))
          (λ _. At o high n F)
  unfolding ensure_token token_for found_or
  ensure_token-Ensures coin =
      Ensures-bind
        (Ensures-gets
          {Q = λ x st. At o high n F st × ((a : ℕ) → x ≡ some a → Stands o coin a st.world)}
          (λ st. find coin st.tokens.by_coin_type)
          (λ st p. (p, λ a e. find-Stands o coin a st.world st.tokens.by_coin_type p.0.registry e)))
        λ x. known_or x
    where
      known_or :
          (x : Option ℕ)
          → Ensures
              (λ st. At o high n F st × ((a : ℕ) → x ≡ some a → Stands o coin a st.world))
              (found_or (relayer o) (create_token (relayer o) coin) x)
              (λ b. At o high n (Known coin b))
              (λ _. At o high n F)
      known_or none =
          Ensures-weaken (λ st p. p.0) (λ _ _ p. p) (λ _ _ p. p) (create_token-Ensures coin)
      known_or (some a) = Ensures-pure a (λ st p. (p.0.0, p.0.1, (p.0.2, p.1 a refl)))
