-- ===== src/Rotation/World.antt =====
-- crates/node/src/rotation.rs: the two
-- transactions that the watcher submits, its executor, and one round of its loop with a staged key. The chain is the pair
-- of records of rotation.move; a transaction changes both or neither. A key's address is a parameter.
use podseq.Prelude.{ℕ, Bool, true, false, some, Result, ok, err, ◌>>=◌}
use podseq.Rotation.{RotationState, plan}
use podseq.Rotation.Guard.{AdoptionGuard, new_guard}
use podseq.Rotation.Contract.{Abort, claim_rotation, retire_previous}
use podseq.Rotation.Sinks.{SwapSinks, swap_signers, boot_sinks}
use podseq.Rotation.Apply.{RotationExecutor, Action, apply}

-- What becomes of a submitted transaction: it runs and is confirmed, it never runs, or it runs and
-- the client's deadline expires first.
pub data Delivery : Type 0 where
  confirmed lost unconfirmed : Delivery

-- `SettlementError` of the two submissions.
pub data SubmitError : Type 0 where
  aborted : Abort → SubmitError
  timed_out : SubmitError

pub record Chain : Type 0 where
  pub settlement : RotationState
  pub vault : RotationState

-- The two move calls of `submit_claim`, in one transaction.
unfoldable pub claim_both : Chain → ℕ → ℕ → Result Abort Chain
claim_both c now sender = do
  s ← claim_rotation c.settlement now sender
  v ← claim_rotation c.vault now sender
  ok (record { settlement = s; vault = v })

-- The two move calls of `submit_retire_previous`, in one transaction.
unfoldable pub retire_both : Chain → ℕ → Result Abort Chain
retire_both c sender = do
  s ← retire_previous c.settlement sender
  v ← retire_previous c.vault sender
  ok (record { settlement = s; vault = v })

pub deliver : Delivery → Chain → Result Abort Chain → Result SubmitError (Unit {0}) × Chain
deliver lost c r = (err timed_out, c)
deliver confirmed c (ok c') = (ok tt, c')
deliver confirmed c (err a) = (err (aborted a), c)
deliver unconfirmed c (ok c') = (err timed_out, c')
deliver unconfirmed c (err a) = (err timed_out, c)

-- The chain and the sinks, which the executor mutates.
pub record Live (K : Type 0) : Type 0 where
  pub chain : Chain
  pub sinks : SwapSinks K

pub record World (K : Type 0) : Type 0 where
  pub live : Live K
  pub guard : AdoptionGuard

-- What one round meets: the chain's clock at the read and when the transaction runs, the process's
-- clock, the transaction's fate, and whether the status can be read.
pub record Tick : Type 0 where
  pub now_ms : ℕ
  pub exec_ms : ℕ
  pub instant : ℕ
  pub delivery : Delivery
  pub readable : Bool

module _ {K : Type 0} (derive_address : K → ℕ) where
  with_chain :
      Live K → Result SubmitError (Unit {0}) × Chain → Result SubmitError (Unit {0}) × Live K
  with_chain x (r, c) = (r, record x { chain = c })

  unfoldable pub executor : Tick → RotationExecutor K (Live K) SubmitError
  unfolding with_chain deliver swap_signers
  executor t = record {
    claim = λ key x.
        with_chain x
          (deliver t.delivery x.chain (claim_both x.chain t.exec_ms (derive_address key)));
    adopt = λ key x. (ok tt, record x { sinks = swap_signers derive_address key x.sinks });
    retire_previous = λ key x.
        with_chain x (deliver t.delivery x.chain (retire_both x.chain (derive_address key)));
  }

  after : Result SubmitError Action × AdoptionGuard × Live K → World K
  after (r, g, x) = record { live = x; guard = g }

  -- One round of the loop of `spawn`. While both rotation states exist, a failed read changes
  -- nothing: the migration finds both present, or fails in turn.
  unfoldable pub poll : ℕ → K → Tick → World K → World K
  unfolding after executor apply
  poll active staged t w =
      let step = after (
        apply (executor t)
          (plan w.live.chain.settlement w.live.chain.vault t.now_ms active (derive_address staged))
          (some staged) t.instant w.guard w.live) in
      elim t.readable [ true ↦ step | false ↦ w ]

  -- A new process on the chain as it stands.
  unfoldable pub boot : K → ℕ → Chain → World K
  unfolding new_guard boot_sinks
  boot file_key quiet c = record {
    live = record { chain = c; sinks = boot_sinks derive_address file_key };
    guard = new_guard quiet;
  }
