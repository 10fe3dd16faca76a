-- ===== src/Bridge/Chains/Deliveries.antt =====
-- The deposit pass over both chains: the cursor passes a deposit when it has been minted, and only then.
use podseq.Prelude.{
  ℕ, suc, ◌≤◌, ◌≡◌, refl, inl, inr, Bool, true, false, Option, none, some, [], ◌∷◌, Result, ok, err,
  arith, ltb, ltb→lt, Bool-cases, ok_injective,
}
use mathlib.Core.Path.{subst}
use podseq.Call.{lift}
use podseq.Call.Ensures.{
  Ensures, Ensures-pure, Ensures-lift, Ensures-modify, Ensures-bind, Ensures-weaken, Ensures-select,
  Ensures-attempt,
}
use podseq.Store.Map.{get}
use podseq.Bridge.Abi.{RelayError, ensure, from_be_bytes, same_bytes, trim_0x}
use podseq.Bridge.Registry.{TokenRegistry, empty_registry, Cursors, snapshot, from_snapshot}
use podseq.Bridge.Chains.Entries.{restore_into-RegistryFine}
use podseq.Bridge.{State, Receipt, DepositRecord, mint, mint_gas_limit}
use podseq.Bridge.Requests.{wait_for_receipt, wait_for_receipt_success, ensure_receipt_success}
use podseq.Bridge.Deposits.{
  mint_on_l2, set_next_deposit, persist_cursors, advance, after_mint, already_minted, with_token,
  with_deposit,
}
use podseq.Bridge.Chains.{Chains, Sent, Outside, relayer, write_file, moment}
use podseq.Bridge.Chains.Sound.{event, Stands, Stands-kept, Delivered, Sound, Sound-higher, TxFine}
use podseq.Bridge.Chains.Context.{Spells, CursorsFine, Kept, Good, At}
use podseq.Bridge.Chains.Minting.{eth_mint_cursor-Ensures}
use podseq.Bridge.Chains.Sending.{send_l2_tx-Ensures, poll_receipt-Ensures}
use podseq.Bridge.Chains.Tokens.{ensure_token-Ensures}

-- The relayer's state is in order, for some next nonce.
abbrev pub InOrder : Outside → State Chains → Type 0
InOrder o st = (high : ℕ) × Good o high st

le_suc : {a b : ℕ} → a ≤ b → a ≤ suc b
le_suc h = omega arith

module _ (o : Outside) (spells : Spells o) where
  module _ (high n : ℕ) (le : n ≤ high) (rec : DepositRecord) where
    abbrev Read : Chains → Type 0
    Read w = get n w.vault.deposits ≡ some rec

    Read-kept : Kept Read
    Read-kept w w' g e = g.deposits_kept n rec e

    Succeeded : Receipt → Chains → Type 0
    Succeeded x w = same_bytes (trim_0x x.status) (49 ∷ []) ≡ true → Delivered o n w

    module _ (token : ℕ) where
      abbrev Ready : Chains → Type 0
      Ready w = Read w × Stands o rec.coin_type token w

      Ready-kept : Kept Ready
      Ready-kept w w' g (e, h) = (Read-kept w w' g e, Stands-kept o rec.coin_type token g h)

      succeeded :
          (w : Chains) (s : Sent) (i : ℕ) (b : Bool)
          → Sound o high w
          → Ready w
          → get i w.sent ≡ some s
          → s.tx.to ≡ token
          → s.tx.input ≡ mint (from_be_bytes 0 rec.recipient_l2) rec.amount n
          → s.status ≡ some b
          → same_bytes (trim_0x (o.status_text b)) (49 ∷ []) ≡ true
          → Delivered o n w
      succeeded w s i false sound f e p q r t = absurd (cc (spells.failed_status, t))
      succeeded w s i true sound f e p q r t =
          let (l, d, h, m) =
            subst (λ c. TxFine o high w s.tx.to c s.status) q (sound.sent_fine i s e).0 in
          (event s.tx.to n (from_be_bytes 0 rec.recipient_l2) rec.amount, m r, refl, d)

      mint_on_l2-Ensures :
          Ensures
            (At o high n Ready)
            (mint_on_l2 (relayer o) token n rec.recipient_l2 rec.amount)
            (λ _. At o high n (Delivered o n))
            (λ _. At o high n Read)
      unfolding mint_on_l2 wait_for_receipt_success wait_for_receipt relayer ensure_receipt_success
          Succeeded
      mint_on_l2-Ensures =
          Ensures-bind (Ensures-lift _ (λ _ _ st p. p) (λ _ _ st p. (p.0, p.1, p.2.0))) λ _.
            Ensures-bind
              (Ensures-weaken (λ _ p. p) (λ _ _ p. p) (λ _ _ p. (p.0, p.1, p.2.0))
                (send_l2_tx-Ensures o high n Ready Ready-kept token
                  (mint (from_be_bytes 0 rec.recipient_l2) rec.amount n) mint_gas_limit
                  (λ w f. (le, (rec, f.0, refl, refl, f.1.1), f.1.0, λ k. cc))))
              λ i.
                Ensures-bind
                  (Ensures-weaken (λ _ p. p) (λ _ _ p. p) (λ _ _ p. (p.0, p.1, p.2.0))
                    (poll_receipt-Ensures o high n Ready Ready-kept i token
                      (mint (from_be_bytes 0 rec.recipient_l2) rec.amount n) Succeeded
                      (λ w s b sound f e p q r t. succeeded w s i b sound f e p q r t) o.polls))
                  λ x. success (same_bytes (trim_0x x.status) (49 ∷ []))
        where
          success :
              (b : Bool)
              → Ensures
                  (At o high n (λ w. Ready w × (b ≡ true → Delivered o n w)))
                  (lift (ensure b RelayError.reverted))
                  (λ _. At o high n (Delivered o n))
                  (λ _. At o high n Read)
          success true =
              Ensures-lift _ (λ _ _ st p. (p.0, p.1, p.2.1 refl)) (λ _ _ st p. (p.0, p.1, p.2.0.0))
          success false = Ensures-lift _ (λ _ e. cc) (λ _ _ st p. (p.0, p.1, p.2.0.0))

    -- The cursor moves past a deposit that was minted.
    passed :
        (st : State Chains)
        → At o high n (Delivered o n) st
        → InOrder o (set_next_deposit (relayer o) n st)
    unfolding relayer snapshot from_snapshot
    passed st (g, c, d) =
        let spelled =
          λ (tokens : TokenRegistry)
              (e : from_snapshot o.spelling (snapshot o.spelling st.tokens) ≡ ok tokens).
            restore_into-RegistryFine o spells st.world st.tokens.by_coin_type empty_registry tokens
              g.registry tt e in
        elim (Bool-cases (ltb n high)) [
          | inl t ↦ (
            high,
            record {
              chains = g.chains;
              cursors_fine = (ltb→lt n high t, spelled);
              registry = g.registry;
              filed = g.filed;
            },
          )
          | inr f ↦
              let same : n ≡ high = ground arith in
              (
                suc high,
                record {
                  chains = Sound-higher o g.chains (subst (λ k. Delivered o k st.world) same d);
                  cursors_fine = (omega arith, spelled);
                  registry = g.registry;
                  filed = λ c e. let l = g.filed c e in (le_suc l.0, l.1);
                },
              )
        ]

module _ (o : Outside) (spells : Spells o) where
  some_injective : {A : Type 0} {a b : A} → ◌≡◌ {A = Option A} (some a) (some b) → a ≡ b
  some_injective e = cc

  filed_Sound :
      {h : ℕ} {w : Chains} (c : Cursors) → Sound o h w → Sound o h (record w { file = some c })
  filed_Sound c s = record {
    deposits_below = s.deposits_below;
    sent_below = s.sent_below;
    minted_fine = s.minted_fine;
    sent_fine = s.sent_fine;
    tokens_fine = s.tokens_fine;
    created_fine = s.created_fine;
    one_origin = s.one_origin;
    delivered = s.delivered;
  }

  written :
      (st : State Chains) (b : Bool)
      → InOrder o st
      → InOrder o (record st { world = write_file o b st.cursors st.world })
  unfolding write_file
  written st false (h, g) = (h, g)
  written st true (h, g) = (
    h,
    record {
      chains = filed_Sound st.cursors g.chains;
      cursors_fine = g.cursors_fine;
      registry = g.registry;
      filed = λ c e.
          subst (CursorsFine o h (record st.world { file = some st.cursors })) (some_injective e)
            g.cursors_fine;
    },
  )

  pub persisted : (st : State Chains) → InOrder o st → InOrder o (persist_cursors (relayer o) st)
  unfolding relayer
  persisted st p = written st (moment o st.world).answered p

  advance-Ensures :
      (high n : ℕ) (le : n ≤ high) (rec : DepositRecord)
      → Ensures
          (At o high n (Delivered o n))
          (advance (relayer o) n)
          (λ _. InOrder o)
          (λ _. InOrder o)
  unfolding advance
  advance-Ensures high n le rec =
      Ensures-bind (Ensures-modify {Q = λ _. InOrder o} _ (passed o spells high n le rec)) λ _.
        Ensures-bind (Ensures-modify {Q = λ _. InOrder o} _ persisted)
          λ _. Ensures-pure true (λ st p. p)

  module _ (high n : ℕ) (le : n ≤ high) (rec : DepositRecord) where
    stays : (F : Chains → Type 0) (st : State Chains) → At o high n F st → InOrder o st
    stays F st p = (high, p.0)

    MintedOr : Result RelayError (Unit {0}) → State Chains → Type 0
    MintedOr (ok _) = At o high n (Delivered o n)
    MintedOr (err _) = At o high n (Read o spells high n le rec)

    after_mint-Ensures :
        (x : Result RelayError (Unit {0}))
        → Ensures (MintedOr x) (after_mint (relayer o) n x) (λ _. InOrder o) (λ _. InOrder o)
    unfolding after_mint MintedOr
    after_mint-Ensures (ok _) = advance-Ensures high n le rec
    after_mint-Ensures (err _) = Ensures-pure false (λ st p. (high, p.0))

    with_token-Ensures :
        (token : Result RelayError ℕ)
        → Ensures
            (λ st.
              At o high n (Read o spells high n le rec) st
              × ((a : ℕ) → token ≡ ok a → Stands o rec.coin_type a st.world))
            (with_token (relayer o) n rec token)
            (λ _. InOrder o)
            (λ _. InOrder o)
    unfolding with_token MintedOr
    with_token-Ensures (err _) = Ensures-pure false (λ st p. (high, p.0.0))
    with_token-Ensures (ok a) =
        Ensures-bind
          (Ensures-weaken (λ st p. (p.0.0, p.0.1, (p.0.2, p.1 a refl))) (λ _ _ p. p) (λ _ _ p. p)
            (Ensures-attempt
              {Q = λ x. At o high n (λ w.
                Ready o spells high n le rec a w
                × (already_minted (relayer o) n x ≡ true → Delivered o n w))}
              {R = λ _. InOrder o}
              (Ensures-weaken (λ _ p. p) (λ _ _ p. p) (λ _ _ p. (p.0, p.1, (p.2, λ k. cc)))
                (eth_mint_cursor-Ensures o spells high n le (Ready o spells high n le rec a)
                  (Ready-kept o spells high n le rec a) a))))
          λ x.
            Ensures-select (already_minted (relayer o) n x)
              (λ t.
                Ensures-weaken (λ st p. (p.0, p.1, p.2.1 t)) (λ _ _ p. p) (λ _ _ p. p)
                  (advance-Ensures high n le rec))
              (λ f.
                Ensures-bind
                  (Ensures-weaken {R = λ _. InOrder o} (λ st p. (p.0, p.1, p.2.0)) (λ _ _ p. p)
                    (λ _ _ p. p)
                    (Ensures-attempt {Q = MintedOr} (mint_on_l2-Ensures o spells high n le rec a)))
                  after_mint-Ensures)

  pub with_deposit-Ensures :
      (high n : ℕ) (le : n ≤ high) (x : Result RelayError (Option DepositRecord))
      → Ensures
          (λ st.
            At o high n (λ _. Unit {0}) st
            × ((rec : DepositRecord)
                → x ≡ ok (some rec)
                → get n st.world.vault.deposits ≡ some rec))
          (with_deposit (relayer o) n x)
          (λ _. InOrder o)
          (λ _. InOrder o)
  unfolding with_deposit
  with_deposit-Ensures high n le (err _) = Ensures-pure false (λ st p. (high, p.0.0))
  with_deposit-Ensures high n le (ok none) = Ensures-pure false (λ st p. (high, p.0.0))
  with_deposit-Ensures high n le (ok (some rec)) =
      Ensures-weaken (λ st p. (p.0.0, p.0.1, p.1 rec refl)) (λ _ _ p. p) (λ _ _ p. p)
        (Ensures-bind
          (Ensures-weaken (λ _ p. p) (λ _ _ p. p) (λ _ _ p. p)
            (Ensures-attempt
              {Q = λ x st.
                At o high n (Read o spells high n le rec) st
                × ((a : ℕ) → x ≡ ok a → Stands o rec.coin_type a st.world)}
              {R = λ _. InOrder o}
              (Ensures-weaken (λ _ p. p)
                (λ a st p. (
                  (p.0, p.1, p.2.0),
                  λ b e. subst (λ k. Stands o rec.coin_type k st.world) (ok_injective e) p.2.1,
                ))
                (λ e st p. (p, λ b h. absurd (err_ok h)))
                (ensure_token-Ensures o high n (Read o spells high n le rec)
                  (Read-kept o spells high n le rec) rec.coin_type))))
          (with_token-Ensures high n le rec))
    where
      err_ok : {E A : Type 0} {e : E} {a : A} → ◌≡◌ {A = Result E A} (err e) (ok a) → ⊥
      err_ok h = cc
