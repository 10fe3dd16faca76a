-- ===== src/Deadline/Gate.antt =====
-- `HaltGate` of crates/node/src/full_node.rs: a read of the deadline status becomes the decision
-- whether to skip this tick. The log lines are part of the result.
use podseq.Prelude.{
  ◌≡◌, refl, Bool, true, false, Option, none, some, List, [], ◌∷◌, arith, if◌then◌else◌, Result, ok,
  err, ◌==◌, ◌&&◌,
}
use podseq.Deadline.{DeadlineStatus, active, halted, violated, is_halted}
use podseq.Deadline.Monitor.{DeadlineError}

pub data Log : Type 0 where
  halting : DeadlineStatus → Log
  cleared : Log
  unavailable : DeadlineError → Log

pub record HaltGate : Type 0 where
  pub last : Option DeadlineStatus

-- The derived `==` of `DeadlineStatus`.
unfoldable pub same_status : DeadlineStatus → DeadlineStatus → Bool
same_status active active = true
same_status (halted n d) (halted n' d') = (n == n') && (d == d')
same_status (violated n d t) (violated n' d' t') = (n == n') && (d == d') && (t == t')
same_status _ _ = false

same_last : Option DeadlineStatus → DeadlineStatus → Bool
unfolding same_status
same_last none status = false
same_last (some old) status = same_status old status

clear_logs : Option DeadlineStatus → List Log
clear_logs none = []
clear_logs (some old) = cleared ∷ []

-- The new gate, whether the tick is skipped, and what is logged.
unfoldable pub update : HaltGate → Result DeadlineError DeadlineStatus → HaltGate × Bool × List Log
unfolding same_last clear_logs is_halted
update g (ok status) =
    if is_halted status
    then (
      record { last = some status },
      true,
      if same_last g.last status then [] else halting status ∷ [],
    )
    else (record { last = none }, false, clear_logs g.last)
update g (err e) = (g, false, unavailable e ∷ [])

-- The decisions over a run of ticks.
unfoldable pub decisions : HaltGate → List (Result DeadlineError DeadlineStatus) → List Bool
decisions g [] = []
decisions g (r ∷ rs) = let (g', skip, logs) = update g r in skip ∷ decisions g' rs

-- A tick is skipped exactly when its own read is a halting status.
abbrev pub halts : Result DeadlineError DeadlineStatus → Bool
halts (ok status) = is_halted status
halts (err e) = false

update-skip : (g : HaltGate) (r : Result DeadlineError DeadlineStatus) → (update g r).1 ≡ halts r
unfolding update
update-skip g (ok status) = ground arith
update-skip g (err e) = refl

abbrev pub each_halts : List (Result DeadlineError DeadlineStatus) → List Bool
each_halts [] = []
each_halts (r ∷ rs) = halts r ∷ each_halts rs

-- Over any run of ticks the gate skips exactly the ticks whose own read is a halting status, so a
-- failed read, an unconfirmed one and what was read before never skip a tick.
pub decisions-halts :
    (g : HaltGate) (rs : List (Result DeadlineError DeadlineStatus))
    → decisions g rs ≡ each_halts rs
unfolding decisions
decisions-halts g [] = refl
decisions-halts g (r ∷ rs) = rw (update-skip g r, decisions-halts (update g r).0 rs)

same_status_refl : (v : DeadlineStatus) → same_status v v ≡ true
unfolding same_status
same_status_refl active = refl
same_status_refl (halted n d) = ground arith
same_status_refl (violated n d t) = ground arith

abbrev pub fail_all : List DeadlineError → List (Result DeadlineError DeadlineStatus)
fail_all [] = []
fail_all (e ∷ es) = err e ∷ fail_all es

unfoldable pub after_reads : HaltGate → List (Result DeadlineError DeadlineStatus) → HaltGate
after_reads g [] = g
after_reads g (r ∷ rs) = after_reads (update g r).0 rs

after_reads-fail : (g : HaltGate) (es : List DeadlineError) → after_reads g (fail_all es) ≡ g
unfolding after_reads update
after_reads-fail g [] = refl
after_reads-fail g (e ∷ es) = after_reads-fail g es

-- A halting status that is read again, with any failed reads between, is not logged again.
pub update-logs_once :
    (g : HaltGate) (v : DeadlineStatus) (es : List DeadlineError)
    → is_halted v ≡ true
    → (update (after_reads (update g (ok v)).0 (fail_all es)) (ok v)).2 ≡ []
unfolding update
update-logs_once g v es h =
    rw (after_reads-fail (update g (ok v)).0 es) (ground (arith, same_status_refl v))
