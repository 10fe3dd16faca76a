-- ===== src/Settlement/Conflict.antt =====
-- A height that is settled under one blob, and the retries to settle it under another.
use podseq.Prelude.{
  ℕ, zero, suc, ◌≡◌, ◌≢◌, refl, Bool, Option, none, some, arith, Result, ok, err, Bool-cases, inl,
  inr,
}
use podseq.Call.{Call, pure, gets, select, attempt, ◌>>=◌}
use podseq.Core.{Header}
use podseq.Store.Map.{get}
use podseq.Tracker.{TrackerError}
use podseq.Settlement.{
  Registry, conflicting_blob, do_settle, same_blob, answered, committed, commit_with_cursor, commit,
  commit_tracked, commit_with_inbox, after_op, retry_with_backoff, contract_signer, settle_block_ts,
}

module _ (r : Registry) (header : Header) (blob settled : ℕ) where
  refused :
      (block_ts cursor : ℕ)
      → header.height ≡ r.latest_height
      → get header.height r.commitments ≡ some settled
      → settled ≢ blob
      → do_settle r blob header.height block_ts cursor ≡ err conflicting_blob
  unfolding do_settle same_blob
  refused block_ts cursor h g d = ground arith

  commit-refused :
      (cursor : Option (Result TrackerError ℕ))
      → header.height ≡ r.latest_height
      → get header.height r.commitments ≡ some settled
      → settled ≢ blob
      → commit_with_inbox contract_signer header blob cursor r ≡ (err tt, r)
  unfolding commit_with_inbox commit_tracked commit commit_with_cursor contract_signer answered
      ◌>>=◌
  commit-refused none h g d = rw (refused (settle_block_ts header.timestamp) _ h g d) refl
  commit-refused (some (ok c)) h g d = rw (refused (settle_block_ts header.timestamp) _ h g d) refl
  commit-refused (some (err e)) h g d = rw (refused (settle_block_ts header.timestamp) _ h g d) refl

retry-refused :
    {W : Type 0} (shutting_down : W → Bool) (op : Call W (Unit {0}) (Unit {0})) (w : W) (n : ℕ)
    → op w ≡ (err tt, w)
    → ((retry_with_backoff shutting_down n op w).0 ≢ ok committed)
      × ((retry_with_backoff shutting_down n op w).1 ≡ w)
unfolding retry_with_backoff after_op gets select attempt pure ◌>>=◌
retry-refused shutting_down op w zero e = (λ h. ground arith, refl)
retry-refused shutting_down op w (suc n) e = elim (Bool-cases (shutting_down w)) [
  | inl t ↦ rw t (λ h. ground arith, refl)
  | inr f ↦ rw f (rw e (retry-refused shutting_down op w n e))
]

-- When the latest settled height has another blob, no number of retries against the contract commits
-- a block of this height, whichever cursor is sent, and the registry stays as it is. Nothing else
-- changes the registry between the retries here.
pub retry_with_backoff-conflict :
    (r : Registry) (header : Header) (blob settled : ℕ) (cursor : Option (Result TrackerError ℕ))
    (shutting_down : Registry → Bool) (n : ℕ)
    → header.height ≡ r.latest_height
    → get header.height r.commitments ≡ some settled
    → settled ≢ blob
    → ((retry_with_backoff shutting_down n
          (commit_with_inbox contract_signer header blob cursor)
          r).0
        ≢ ok committed)
      × ((retry_with_backoff shutting_down n
            (commit_with_inbox contract_signer header blob cursor)
            r).1
          ≡ r)
retry_with_backoff-conflict r header blob settled cursor shutting_down n h g d =
    retry-refused shutting_down (commit_with_inbox contract_signer header blob cursor) r n
      (commit-refused r header blob settled cursor h g d)
