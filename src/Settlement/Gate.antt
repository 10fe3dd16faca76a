-- ===== src/Settlement/Gate.antt =====
-- When `settle_with_gate` of crates/node/src/inbox.rs answers that the block is committed.
use podseq.Prelude.{
  ℕ, zero, suc, ◌≡◌, refl, Bool, true, false, Option, none, some, List, arith, Result, ok, err,
}
use podseq.Call.{Call}
use podseq.Call.Ensures.{
  Ensures, Ensures-pure, Ensures-gets, Ensures-attempt, Ensures-bind, Ensures-weaken,
  Ensures-select, Ensures-answer, Ensures-ok,
}
use podseq.Core.{Header}
use podseq.Tracker.{TrackerError, HaltCheck}
use podseq.Settlement.{
  Signer, Outcome, committed, interrupted, exhausted, commit_with_inbox, after_op,
  retry_with_backoff, after_gate, settle_with_gate,
}

module _ {W : Type 0} (shutting_down : W → Bool) (op : Call W (Unit {0}) (Unit {0})) where
  -- The operation has just succeeded.
  Ran : W → Type 0
  Ran w = (w0 : W) × (op w0 ≡ (ok tt, w))

  Reports : Outcome → W → Type 0
  unfolding Ran
  Reports committed w = Ran w
  Reports interrupted w = Unit {0}
  Reports exhausted w = Unit {0}

  after_op-Reports :
      (rest : Call W (Unit {0}) Outcome) (a : Result (Unit {0}) (Unit {0}))
      → Ensures (λ _. Unit {0}) rest Reports (λ _ _. ⊥)
      → Ensures (λ w. a ≡ ok tt → Ran w) (after_op shutting_down rest a) Reports (λ _ _. ⊥)
  unfolding after_op Reports Ran
  after_op-Reports rest (ok tt) h = Ensures-pure committed (λ w p. p refl)
  after_op-Reports rest (err e) h = Ensures-weaken (λ _ _. tt) (λ _ _ q. q) (λ _ _ q. q) h

  retry-Reports :
      (n : ℕ) → Ensures (λ _. Unit {0}) (retry_with_backoff shutting_down n op) Reports (λ _ _. ⊥)
  unfolding retry_with_backoff Reports Ran
  retry-Reports zero = Ensures-pure exhausted (λ _ _. tt)
  retry-Reports (suc n) =
      Ensures-bind (Ensures-gets {Q = λ _ _. Unit {0}} _ (λ _ _. tt)) λ stopping.
        Ensures-select stopping (λ _. Ensures-pure interrupted (λ _ _. tt))
          (λ _.
            Ensures-bind
              (Ensures-attempt {Q = λ a w. a ≡ ok tt → Ran w} (
                Ensures-weaken (λ _ p. p) (λ _ _ p _. p) (λ _ _ _ e. ground arith)
                  (Ensures-answer op)))
              λ a. after_op-Reports (retry_with_backoff shutting_down n op) a (retry-Reports n))

  after_gate-Reports :
      (n : ℕ) (o : Option Bool)
      → Ensures (λ _. Unit {0}) (after_gate shutting_down n op o) Reports (λ _ _. ⊥)
  unfolding after_gate Reports
  after_gate-Reports n none = Ensures-pure exhausted (λ _ _. tt)
  after_gate-Reports n (some false) = Ensures-pure interrupted (λ _ _. tt)
  after_gate-Reports n (some true) = retry-Reports n

  Reports-committed :
      (m : Call W (Unit {0}) Outcome) (w w' : W)
      → Ensures (λ _. Unit {0}) m Reports (λ _ _. ⊥)
      → m w ≡ (ok committed, w')
      → (w0 : W) × (op w0 ≡ (ok tt, w'))
  unfolding Reports Ran
  Reports-committed m w w' h e = Ensures-ok h w tt e

-- A block is reported as committed only when the last commit of the retries, with the sequencer's own
-- cursor or the one on chain, succeeded.
pub settle_with_gate-committed :
    {W : Type 0} (shutting_down : W → Bool) (s : Signer W) (cursor : Option (Result TrackerError ℕ))
    (header : Header) (blob : ℕ) (rounds : List (Bool × Result TrackerError HaltCheck)) (n : ℕ)
    (w w' : W)
    → settle_with_gate shutting_down s cursor header blob rounds n w ≡ (ok committed, w')
    → (w0 : W) × (commit_with_inbox s header blob cursor w0 ≡ (ok tt, w'))
unfolding settle_with_gate
settle_with_gate-committed shutting_down s cursor header blob rounds n w w' e =
    Reports-committed shutting_down (commit_with_inbox s header blob cursor) _ w w'
      (after_gate-Reports shutting_down (commit_with_inbox s header blob cursor) n _) e
