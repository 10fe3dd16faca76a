-- ===== src/Bridge/Chains/Sending.antt =====
-- A transaction that the relayer sends, and what its receipt tells of both chains.
use podseq.Prelude.{
  ℕ, zero, suc, ◌≡◌, refl, sym, ap, ◌∙◌, inl, inr, Bool, Option, none, some, [], arith,
  if◌then◌else◌,
}
use mathlib.Core.Path.{subst}
use podseq.Call.{lift}
use podseq.Call.Ensures.{Ensures, Ensures-pure, Ensures-lift, Ensures-bind, Ensures-weaken}
use podseq.Store.Map.{get}
use podseq.Bridge.Abi.{RelayError, ok_or}
use podseq.Bridge.{Calldata, Transaction, Receipt}
use podseq.Bridge.Requests.{send_l2_tx, found_or, poll_receipt}
use podseq.Bridge.Chains.{Chains, Sent, Outside, ask, send, receipt_at, receipt_of, relayer}
use podseq.Bridge.Chains.Sound.{TxFine, Extends, Sound, SentLogs, CreatedFine-kept}
use podseq.Bridge.Chains.Updates.{Later, inserted, insert-kept, get-insert_self, Sound-Extends}
use podseq.Bridge.Chains.Context.{Kept, At, Ensures-ask, Ensures-act}

-- The transaction `i` is this call.
abbrev pub IsCall : ℕ → ℕ → Calldata → Chains → Type 0
IsCall i to c w = (s : Sent) × (get i w.sent ≡ some s) × (s.tx.to ≡ to) × (s.tx.input ≡ c)

pub IsCall-kept : (i to : ℕ) (c : Calldata) → Kept (IsCall i to c)
IsCall-kept i to c w w' g (s, e, p, q) =
    let (s', e', t) = g.sent_kept i s e in (s', e', ap (λ x. x.to) t ∙ p, ap (λ x. x.input) t ∙ q)

module _ (o : Outside) (high n : ℕ) where
  Later-send :
      (w : Chains) (tx : Transaction)
      → Sound o high w
      → TxFine o high w tx.to tx.input none
      → Later o high w (send tx w).1
  unfolding send
  Later-send w tx s f =
      let entry : Sent = record { tx = tx; status = none; logs = [] } in
      let fresh = λ (i : ℕ) (x : Sent) (e : get i w.sent ≡ some x) (p : i ≡ w.next_hash).
        let b = s.sent_below i x e in let z : ⊥ = omega arith in z in
      let g : Extends w (send tx w).1 = record {
        deposits_kept = λ k d h. h;
        minted_kept = λ m k. k;
        tokens_kept = λ a h. h;
        sent_kept = λ i x h. (x, insert-kept w.next_hash i entry x w.sent (fresh i x h) h, refl);
        created_kept = λ e i. i;
        file_kept = refl;
      } in
      (
        Sound-Extends o g s s.one_origin s.deposits_below
            (λ i x h. elim (inserted w.next_hash i entry x w.sent h) [
              | inl (p, q) ↦ omega arith
              | inr old ↦ let b = s.sent_below i x old in omega arith
            ])
            (λ m k. inl k)
            (λ i x h. elim (inserted w.next_hash i entry x w.sent h) [
              | inl (p, q) ↦ inr (
                  subst
                    (λ y.
                      TxFine o high (send tx w).1 y.tx.to y.tx.input y.status
                      × SentLogs o (send tx w).1 y.tx.input y.logs)
                    (sym q) (f, (tt, λ _ _ _ _. tt)))
              | inr old ↦ inl old
            ])
            (λ a t h. inl h) (CreatedFine-kept o w.created g s.created_fine),
        g,
      )

  sent-IsCall : (w : Chains) (tx : Transaction) → IsCall (send tx w).0 tx.to tx.input (send tx w).1
  unfolding send
  sent-IsCall w tx = (
    record { tx = tx; status = none; logs = [] },
    get-insert_self w.next_hash _ w.sent,
    refl,
    refl,
  )

  module _ (F : Chains → Type 0) (kept : Kept F) where
    pub send_l2_tx-Ensures :
        (to : ℕ) (c : Calldata) (gas : ℕ)
        → ((w : Chains) → F w → TxFine o high w to c none)
        → Ensures
            (At o high n F)
            (send_l2_tx (relayer o) to c gas)
            (λ i. At o high n (λ w. F w × IsCall i to c w))
            (λ _. At o high n F)
    unfolding send_l2_tx relayer
    send_l2_tx-Ensures to c gas fine =
        Ensures-bind
          (Ensures-weaken (λ _ p. p) (λ _ st p. (p.0, p.1, p.2.0)) (λ _ _ p. p)
            (Ensures-ask o high n F kept (λ w. w.next_hash) (λ _ _. Unit {0}) (λ _ _ _. tt)))
          λ nonce_tx.
            Ensures-bind
              (Ensures-weaken (λ _ p. p) (λ _ st p. (p.0, p.1, p.2.0)) (λ _ _ p. p)
                (Ensures-ask o high n F kept (λ _. o.gas_price) (λ _ _. Unit {0}) (λ _ _ _. tt)))
              λ answered.
                Ensures-act o high n F kept _ (λ i. IsCall i to c)
                  (λ w s f. (Later-send w _ s (fine w f), sent-IsCall w _))

    -- What the chains tell by the receipt of a call.
    module _ (i to : ℕ) (c : Calldata) (G : Receipt → Chains → Type 0)
        (tells : (w : Chains) (s : Sent) (b : Bool)
          → Sound o high w
          → F w
          → get i w.sent ≡ some s
          → s.tx.to ≡ to
          → s.tx.input ≡ c
          → s.status ≡ some b
          → G (record { status = o.status_text b; logs = s.logs }) w) where
      Tells : Option Receipt → Chains → Type 0
      Tells none w = Unit {0}
      Tells (some x) w = G x w

      mined-Tells :
          (w : Chains) (s : Sent) (st : Option Bool)
          → Sound o high w
          → F w
          → get i w.sent ≡ some s
          → s.tx.to ≡ to
          → s.tx.input ≡ c
          → s.status ≡ st
          → Tells (receipt_at o st s.logs) w
      unfolding Tells receipt_at
      mined-Tells w s none sound f e p q r = tt
      mined-Tells w s (some b) sound f e p q r = tells w s b sound f e p q r

      receipt-Tells :
          (w : Chains)
          → Sound o high w
          → F w × IsCall i to c w
          → Tells (receipt_of o (get i w.sent)) w
      unfolding receipt_of
      receipt-Tells w sound (f, (s, e, p, q)) =
          subst (λ x. Tells (receipt_of o x) w) (sym e)
            (mined-Tells w s s.status sound f e p q refl)

      kept-IsCall : Kept (λ w. F w × IsCall i to c w)
      kept-IsCall w w' g (f, h) = (kept w w' g f, IsCall-kept i to c w w' g h)

      one_poll :
          Ensures
            (At o high n (λ w. F w × IsCall i to c w))
            (podseq.Bridge.Requests.request (relayer o) (ask o (λ w. receipt_of o (get i w.sent))))
            (λ x. At o high n (λ w. (F w × IsCall i to c w) × Tells x w))
            (λ _. At o high n F)
      one_poll =
          Ensures-weaken (λ _ p. p) (λ _ _ p. p) (λ _ _ p. (p.0, p.1, p.2.0))
            (Ensures-ask o high n (λ w. F w × IsCall i to c w) kept-IsCall _ Tells receipt-Tells)

      polled_none :
          (x : Option Receipt)
          → Ensures
              (At o high n (λ w. (F w × IsCall i to c w) × Tells x w))
              (lift (ok_or RelayError.timed_out x))
              (λ x. At o high n (λ w. F w × G x w))
              (λ _. At o high n F)
      unfolding Tells
      polled_none none = Ensures-lift _ (λ a e. cc) (λ _ _ st p. (p.0, p.1, p.2.0.0))
      polled_none (some x) =
          Ensures-lift _
            (λ a e st p. (
              p.0,
              p.1,
              (p.2.0.0, subst (λ y. G y st.world) (podseq.Prelude.ok_injective e) p.2.1),
            ))
            (λ _ _ st p. (p.0, p.1, p.2.0.0))

      polled_or :
          (x : Option Receipt) (k : ℕ)
          → Ensures
              (At o high n (λ w. F w × IsCall i to c w))
              (poll_receipt (relayer o) k i)
              (λ x. At o high n (λ w. F w × G x w))
              (λ _. At o high n F)
          → Ensures
              (At o high n (λ w. (F w × IsCall i to c w) × Tells x w))
              (found_or (relayer o) (poll_receipt (relayer o) k i) x)
              (λ x. At o high n (λ w. F w × G x w))
              (λ _. At o high n F)
      unfolding found_or Tells
      polled_or none k h = Ensures-weaken (λ st p. (p.0, p.1, p.2.0)) (λ _ _ p. p) (λ _ _ p. p) h
      polled_or (some x) k h = Ensures-pure x (λ st p. (p.0, p.1, (p.2.0.0, p.2.1)))

      pub poll_receipt-Ensures :
          (k : ℕ)
          → Ensures
              (At o high n (λ w. F w × IsCall i to c w))
              (poll_receipt (relayer o) k i)
              (λ x. At o high n (λ w. F w × G x w))
              (λ _. At o high n F)
      unfolding poll_receipt relayer Tells
      poll_receipt-Ensures zero = Ensures-bind one_poll λ x. polled_none x
      poll_receipt-Ensures (suc k) =
          Ensures-bind one_poll λ x. polled_or x k (poll_receipt-Ensures k)
