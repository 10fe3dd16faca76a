-- ===== src/Bridge/Chains/Events.antt =====
-- Each event on both chains, and each moment, keeps what holds of them.
use podseq.Prelude.{
  ℕ, ◌≤◌, ◌<◌, ◌≡◌, refl, sym, ap, ◌∙◌, inl, inr, Bool, true, Option, some, List, Result, ok, err,
  arith, ◌==◌, ==_iff, Bool-cases,
}
use mathlib.Core.Path.{subst}
use podseq.Core.Octets.{Bytes}
use podseq.Store.Map.{get, get-insert}
use podseq.Bridge.Abi.{RelayError, RpcLog, parse_bridge_created_log}
use podseq.Bridge.Token.{Token}
use podseq.Bridge.Chains.{
  named, Chains, Sent, DepositMinted, Outside, fresh_token, names, mined, deploy, vacant, emit,
}
use podseq.Bridge.Chains.Updates.{inserted, insert-HasToken, get-insert_self, Later, Sound-Extends}
use podseq.Bridge.Chains.Sound.{
  HasToken, Deposited, MintedFirst, event, TxFine, Extends, TxFine-kept, LogFine, SentLogs, In,
  Origin, origin_fine, Deposited-kept, LogsFine-kept, CreatedFine-kept, Sound,
}

some_injective : {A : Type 0} {a b : A} → ◌≡◌ {A = Option A} (some a) (some b) → a ≡ b
some_injective e = cc

-- The entry that a key finds is the same for an equal key.
same_sent :
    (i j : ℕ) (s x : Sent) (m : List (ℕ × Sent))
    → (i == j) ≡ true
    → get i m ≡ some s
    → get j m ≡ some x
    → s ≡ x
same_sent i j s x m t e h =
    let p = (==_iff i j).0 t in let q = sym e ∙ ap (λ k. get k m) p ∙ h in some_injective q

minted_event :
    (b : ℕ) (m : DepositMinted) (x : Token)
    → b ≡ m.token
    → x.last_minted_deposit_nonce ≡ m.nonce
    → event b x.last_minted_deposit_nonce m.recipient m.amount ≡ m
minted_event b m x p q = cc

names-ok :
    (o : Outside) (log : RpcLog) (a b : ℕ) (coin : Bytes) (x : Result RelayError (Bytes × ℕ))
    → x ≡ ok (coin, b)
    → named x a ≡ true
    → b ≡ a
unfolding named
names-ok o log a b coin (ok (c, d)) e h = ground arith
names-ok o log a b coin (err _) e h = ground arith

same_coin :
    (x : Result RelayError (Bytes × ℕ)) (c c' : Bytes) (b b' : ℕ)
    → x ≡ ok (c, b)
    → x ≡ ok (c', b')
    → c ≡ c'
same_coin x c c' b b' p q = cc

module _ (o : Outside) where
  names-LogFine :
      (block : ℕ) (log : RpcLog) (a : ℕ) (w : Chains)
      → names o log a ≡ true
      → HasToken a w
      → In (block, log) w.created
      → LogFine o w log
  unfolding names
  names-LogFine block log a w h t i coin b e =
      let p = names-ok o log a b coin (parse_bridge_created_log o.texts o.created_topic log) e h in
      (subst (λ k. HasToken k w) (sym p) t, ((block, log), i, e))

  vacant_none : (a : ℕ) (w : Chains) → vacant a w ≡ true → HasToken a w → ⊥
  vacant_none a w v (t, e) = cc

  of_log :
      (x e : ℕ × RpcLog) (c : Bytes) (b : ℕ)
      → e ≡ x
      → parse_bridge_created_log o.texts o.created_topic e.1 ≡ ok (c, b)
      → parse_bridge_created_log o.texts o.created_topic x.1 ≡ ok (c, b)
  of_log x e c b p q =
      subst (λ k. parse_bridge_created_log o.texts o.created_topic k.1 ≡ ok (c, b)) p q

  taken :
      {high : ℕ} (w : Chains) (block a : ℕ) (log : RpcLog)
      → Sound o high w
      → names o log a ≡ true
      → vacant a w ≡ true
      → (c c' : Bytes) (b : ℕ) (e : ℕ × RpcLog)
      → parse_bridge_created_log o.texts o.created_topic log ≡ ok (c, b)
      → In e w.created
      → parse_bridge_created_log o.texts o.created_topic e.1 ≡ ok (c', b)
      → ⊥
  unfolding names
  taken w block a log s h v c c' b e p i q =
      let t = (origin_fine o w w.created e s.created_fine i c' b q).0 in
      let same = names-ok o log a b c (parse_bridge_created_log o.texts o.created_topic log) p h in
      vacant_none a w v (subst (λ k. HasToken k w) same t)

  -- A token has one creation.
  deploy-Origin :
      {high : ℕ} (w : Chains) (block a : ℕ) (log : RpcLog)
      → Sound o high w
      → names o log a ≡ true
      → vacant a w ≡ true
      → (c c' : Bytes) (b : ℕ) → Origin o c b (deploy o block a log w)
      → Origin o c' b (deploy o block a log w)
      → c ≡ c'
  unfolding names
  deploy-Origin w block a log s h v c c' b (e, inl p, q) (e', inl p', q') =
      same_coin _ c c' b b (of_log (block, log) e c b p q) (of_log (block, log) e' c' b p' q')
  deploy-Origin w block a log s h v c c' b (e, inl p, q) (e', inr i, q') =
      absurd (taken w block a log s h v c c' b e' (of_log (block, log) e c b p q) i q')
  deploy-Origin w block a log s h v c c' b (e, inr i, q) (e', inl p, q') =
      absurd (taken w block a log s h v c' c b e (of_log (block, log) e' c' b p q') i q)
  deploy-Origin w block a log s h v c c' b (e, inr i, q) (e', inr i', q') =
      s.one_origin c c' b (e, i, q) (e', i', q')

  -- A transaction of the relayer is mined.
  pub Later-mined :
      {high : ℕ} (w : Chains) (i : ℕ) (s : Sent) (status : Bool) (logs : List RpcLog)
      → Sound o high w
      → get i w.sent ≡ some s
      → TxFine o high w s.tx.to s.tx.input (some status)
      → SentLogs o w s.tx.input logs
      → Later o high w (mined i s status logs w)
  Later-mined {high} w i s status logs sound e f l =
      let s' : Sent = record s { status = some status; logs = logs } in
      let g : Extends w (mined i s status logs w) = record {
        deposits_kept = λ n d h. h;
        minted_kept = λ m k. k;
        tokens_kept = λ a h. h;
        sent_kept = λ j x h. elim (Bool-cases (i == j)) [
          | inl t ↦ (
            s',
            ground (arith, get-insert i j s' w.sent),
            ap (λ y. y.tx) (same_sent i j s x w.sent t e h),
          )
          | inr n ↦ (x, ground (arith, get-insert i j s' w.sent), refl)
        ];
        created_kept = λ e i. i;
        file_kept = refl;
      } in
      (
        Sound-Extends o g sound sound.one_origin sound.deposits_below
            (λ j x h. elim (inserted i j s' x w.sent h) [
              | inl (p, q) ↦ subst (λ k. k < w.next_hash) (sym p) (sound.sent_below i s e)
              | inr old ↦ sound.sent_below j x old
            ])
            (λ m k. inl k)
            (λ j x h. elim (inserted i j s' x w.sent h) [
              | inl (p, q) ↦ inr (
                  subst
                    (λ y.
                      TxFine o high (mined i s status logs w) y.tx.to y.tx.input y.status
                      × SentLogs o (mined i s status logs w) y.tx.input y.logs)
                    (sym q)
                    (
                      TxFine-kept o high s.tx.to s.tx.input (some status) g f,
                      (LogsFine-kept o logs g l.0, l.1),
                    ))
              | inr old ↦ inl old
            ])
            (λ a t h. inl h) (CreatedFine-kept o w.created g sound.created_fine),
        g,
      )

  pub Later-emit :
      {high : ℕ} (w : Chains) (m : DepositMinted) (t : Token)
      → Sound o high w
      → m.nonce ≤ high
      → Deposited o m.nonce m.token m.recipient m.amount w
      → (m.recipient ≡ 0 → ⊥)
      → MintedFirst m.token (emit m t w)
      → t.minted_any ≡ true
      → t.last_minted_deposit_nonce ≡ m.nonce
      → Later o high w (emit m t w)
  Later-emit {high} w m t sound l d z first p q =
      let g : Extends w (emit m t w) = record {
        deposits_kept = λ n x h. h;
        minted_kept = λ x k. inr k;
        tokens_kept = λ b h. insert-HasToken b m.token t w.tokens h;
        sent_kept = λ i x h. (x, h, refl);
        created_kept = λ e i. i;
        file_kept = refl;
      } in
      (
        Sound-Extends o g sound sound.one_origin sound.deposits_below sound.sent_below
            (λ x k. elim k [
              | inl e ↦ inr (
                  subst
                    (λ y.
                      (y.nonce ≤ high)
                      × Deposited o y.nonce y.token y.recipient y.amount (emit m t w)
                      × (y.recipient ≡ 0 → ⊥)
                      × MintedFirst y.token (emit m t w))
                    (sym e)
                    (l, Deposited-kept o m.nonce m.token m.recipient m.amount g d, z, first))
              | inr old ↦ inl old
            ])
            (λ i x h. inl h)
            (λ b x h. elim (inserted m.token b t x w.tokens h) [
              | inl (i, j) ↦ inr (
                λ z. cc (z, p, j),
                λ _. (
                  m.recipient,
                  m.amount,
                  inl (minted_event b m x i (ap (λ y. y.last_minted_deposit_nonce) j ∙ q)),
                ),
              )
              | inr old ↦ inl old
            ])
            (CreatedFine-kept o w.created g sound.created_fine),
        g,
      )

  pub Later-deploy :
      {high : ℕ} (w : Chains) (block a : ℕ) (log : RpcLog)
      → Sound o high w
      → names o log a ≡ true
      → vacant a w ≡ true
      → Later o high w (deploy o block a log w)
  Later-deploy {high} w block a log sound named free =
      let g : Extends w (deploy o block a log w) = record {
        deposits_kept = λ n x h. h;
        minted_kept = λ x k. k;
        tokens_kept = λ b h. insert-HasToken b a (fresh_token o.relayer_key) w.tokens h;
        sent_kept = λ i x h. (x, h, refl);
        created_kept = λ e i. inr i;
        file_kept = refl;
      } in
      let here : HasToken a (deploy o block a log w) =
        (fresh_token o.relayer_key, get-insert_self a (fresh_token o.relayer_key) w.tokens) in
      (
        Sound-Extends o g sound (deploy-Origin w block a log sound named free) sound.deposits_below
            sound.sent_below (λ x k. inl k) (λ i x h. inl h)
            (λ b x h. elim (inserted a b (fresh_token o.relayer_key) x w.tokens h) [
              | inl (i, j) ↦ inr (
                λ _. ap (λ y. y.last_minted_deposit_nonce) j,
                λ k. cc (k, ap (λ y. y.minted_any) j),
              )
              | inr old ↦ inl old
            ])
            (
              names-LogFine block log a (deploy o block a log w) named here (inl refl),
              CreatedFine-kept o w.created g sound.created_fine,
            ),
        g,
      )
