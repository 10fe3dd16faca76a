-- ===== src/Settlement/Tests.antt =====
-- Instances of the theorems on settlement: height 7 is settled under blob 40.
use podseq.Prelude.{◌≡◌, ◌≢◌, refl, some, List, [], ◌∷◌, ok, arith, false}
use podseq.Core.{Header}
use podseq.Store.Map.{get}
use podseq.Call.{pure, gets, select, attempt, ◌>>=◌}
use podseq.Tracker.{clear}
use podseq.Tracker.Halt.{wait_inclusion_gate, wait_rounds}
use podseq.Settlement.{
  Registry, committed, do_settle, same_blob, answered, commit_with_cursor, commit_tracked,
  commit_with_inbox, after_op, retry_with_backoff, after_gate, settle_with_gate, contract_signer,
}
use podseq.Settlement.Gate.{settle_with_gate-committed}
use podseq.Settlement.Conflict.{retry_with_backoff-conflict}
use podseq.Settlement.Ledger.{SettleCall, Within, run_settles, run_settles-append_only}

abbrev registry : Registry
registry = record {
  latest_height = 7;
  commitments = (7, 40) ∷ [];
  inbox = record { included_count = 2; last_settled_ts = 1000; pending = [] };
}

abbrev header : Header
header = record { height = 7; parent_hash = []; state_root = []; timestamp = 1007 }

retry_with_backoff-conflict_example :
    ((retry_with_backoff
        (λ _. false)
        9
        (commit_with_inbox contract_signer header 41 (some (ok 2)))
        registry).0
      ≢ ok committed)
    × ((retry_with_backoff
          (λ _. false)
          9
          (commit_with_inbox contract_signer header 41 (some (ok 2)))
          registry).1
        ≡ registry)
unfolding get
retry_with_backoff-conflict_example =
    retry_with_backoff-conflict registry header 41 40 (some (ok 2)) (λ _. false) 9 refl refl
      (omega arith)

registry-Within : Within registry
unfolding get
registry-Within h b g = ground arith

-- Heights 8 and 9 follow, then 7 again under another blob.
abbrev calls : List SettleCall
calls =
    record { blob_id = 41; height = 8; block_ts = 1008; inbox_cursor = 2 }
    ∷ record { blob_id = 41; height = 9; block_ts = 1009; inbox_cursor = 2 }
    ∷ record { blob_id = 50; height = 7; block_ts = 1010; inbox_cursor = 2 }
    ∷ []

run_settles-append_only_example : get 7 (run_settles registry calls).commitments ≡ some 40
unfolding get
run_settles-append_only_example = run_settles-append_only registry calls 7 40 registry-Within refl

-- The height that is settled already, under its own blob.
settle_with_gate-committed_example :
    (r : Registry) × (commit_with_inbox contract_signer header 40 (some (ok 2)) r
      ≡ (ok tt, registry))
unfolding settle_with_gate after_gate wait_inclusion_gate wait_rounds retry_with_backoff after_op
    commit_with_inbox commit_tracked commit_with_cursor contract_signer answered do_settle same_blob
    get gets select attempt pure ◌>>=◌
settle_with_gate-committed_example =
    settle_with_gate-committed (λ _. false) contract_signer (some (ok 2)) header 40
      ((false, ok clear) ∷ []) 1 registry registry refl
