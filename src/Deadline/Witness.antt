-- ===== src/Deadline/Witness.antt =====
-- Whether a violation can be seen on a chain that runs the contract.
use podseq.Prelude.{
  drop-nil, ok_injective, inl, inr, ℕ, ◌+◌, ◌-◌, ◌≤◌, ◌<◌, ◌≡◌, ◌≢◌, refl, List, [], ◌∷◌, ◌++◌,
  arith, drop, ok, u64_max, Bool-cases, leb,
}
use mathlib.Core.Path.{subst}
use podseq.Deadline.{PendingTx, violated, classify}
use podseq.Deadline.Inbox.{Inbox, oldest, view, submit, enforce_settle, gate}

pub data Step : Inbox → Inbox → Type 0 where
  submits :
      {i j : Inbox} (now window : ℕ) (bytes : List ℕ) → submit i now window bytes ≡ ok j → Step i j
  settles : {i j : Inbox} (block_ts cursor : ℕ) → enforce_settle i block_ts cursor ≡ ok j → Step i j

pub data Reach (i : Inbox) : Inbox → Type 0 where
  here : Reach i i
  next : {j k : Inbox} → Reach i j → Step j k → Reach i k

-- Each submission of the history got a deadline that no settled block had passed.
unfoldable pub StepInTime : {i j : Inbox} → Step i j → Type 0
StepInTime {i} (submits now window bytes e) = i.last_settled_ts ≤ now + window
StepInTime (settles block_ts cursor e) = Unit {0}

unfoldable pub AllInTime : {i j : Inbox} → Reach i j → Type 0
unfolding StepInTime
AllInTime here = Unit {0}
AllInTime (next r s) = AllInTime r × StepInTime s

-- The oldest deadline has not passed the settled blocks.
abbrev pub InTime : List PendingTx → ℕ → Type 0
InTime [] settled = Unit {0}
InTime (tx ∷ rest) settled = settled ≤ tx.deadline_ms

append-InTime :
    (xs : List PendingTx) (tx : PendingTx) (settled : ℕ)
    → InTime xs settled
    → settled ≤ tx.deadline_ms
    → InTime (xs ++ tx ∷ []) settled
append-InTime [] tx settled t h = h
append-InTime (x ∷ xs) tx settled t h = t

submit-InTime :
    (i j : Inbox) (now window : ℕ) (bytes : List ℕ)
    → i.last_settled_ts ≤ now + window
    → submit i now window bytes ≡ ok j
    → InTime i.pending i.last_settled_ts
    → InTime j.pending j.last_settled_ts
unfolding submit
submit-InTime i j now window [] h e t = cc
submit-InTime i j now window (b ∷ bytes) h e t =
    subst (λ (k : Inbox). InTime k.pending k.last_settled_ts) (ok_injective e)
      (append-InTime i.pending _ i.last_settled_ts t h)

gate-InTime :
    (left : List PendingTx) (block_ts : ℕ) (i j : Inbox)
    → i.pending ≡ left
    → i.last_settled_ts ≡ block_ts
    → gate left block_ts i ≡ ok j
    → InTime j.pending j.last_settled_ts
unfolding gate
gate-InTime [] block_ts i j p q e =
    subst (λ (k : Inbox). InTime k.pending k.last_settled_ts) (ok_injective e) (rw p tt)
gate-InTime (tx ∷ rest) block_ts i j p q e = elim (Bool-cases (leb block_ts tx.deadline_ms)) [
  | inl h ↦
      subst (λ (k : Inbox). InTime k.pending k.last_settled_ts) (ok_injective (rw h at e))
        (rw p (ground arith))
  | inr h ↦ ground arith
]

enforce_settle-InTime :
    (i j : Inbox) (block_ts cursor : ℕ)
    → enforce_settle i block_ts cursor ≡ ok j
    → InTime j.pending j.last_settled_ts
unfolding enforce_settle
enforce_settle-InTime i j block_ts cursor e =
    let left = drop (cursor - i.included_count) i.pending in
    let i' : Inbox = record {
      included_count = cursor;
      last_settled_ts = block_ts;
      pending = left;
    } in
    gate-InTime left block_ts i' j refl refl (ground arith)

Step-InTime :
    {i j : Inbox} (s : Step i j)
    → StepInTime s
    → InTime i.pending i.last_settled_ts
    → InTime j.pending j.last_settled_ts
unfolding StepInTime
Step-InTime (submits now window bytes e) h t = submit-InTime _ _ now window bytes h e t
Step-InTime (settles block_ts cursor e) h t = enforce_settle-InTime _ _ block_ts cursor e

Reach-InTime :
    {i j : Inbox} (r : Reach i j)
    → AllInTime r
    → InTime i.pending i.last_settled_ts
    → InTime j.pending j.last_settled_ts
unfolding AllInTime
Reach-InTime here h t = t
Reach-InTime (next r s) (h, k) t = Step-InTime s k (Reach-InTime r h t)

InTime-classify :
    (now margin table : ℕ) (i : Inbox) (xs : List PendingTx)
    → i.pending ≡ xs
    → InTime xs i.last_settled_ts
    → (n d t : ℕ) → classify now margin (view i table) (oldest i) ≢ violated n d t
unfolding classify
InTime-classify now margin table i [] p h n d t = rw p λ e. cc
InTime-classify now margin table i (tx ∷ rest) p h n d t = rw p λ e. ground arith

abbrev pub empty_inbox : Inbox
empty_inbox = record { included_count = 0; last_settled_ts = 0; pending = [] }

-- In every history from the empty inbox in which no block is settled with a timestamp beyond the
-- deadline that a later submission gets, a full node never sees a violation.
pub Reach-never_violated :
    (i : Inbox) (now margin table n d t : ℕ)
    → (r : Reach empty_inbox i) → AllInTime r
    → classify now margin (view i table) (oldest i) ≢ violated n d t
Reach-never_violated i now margin table n d t r h =
    InTime-classify now margin table i i.pending refl (Reach-InTime r h tt) n d t

-- The contract accepts, on a drained inbox, a block with any timestamp that is not older than the
-- last one, and then a submission; if the block was stamped beyond that submission's deadline, a
-- full node sees a violation once the margin has passed.
pub future_block-violated :
    (i : Inbox) (block_ts now window later margin table b : ℕ) (bytes : List ℕ)
    → i.pending ≡ []
    → i.last_settled_ts ≤ block_ts
    → now + window < block_ts
    → now + window + margin < later
    → now + window + margin ≤ u64_max
    → (j : Inbox) × (k : Inbox) × (enforce_settle i block_ts i.included_count ≡ ok j)
      × (submit j now window (b ∷ bytes) ≡ ok k)
      × (classify later margin (view k table) (oldest k)
          ≡ violated i.included_count (now + window) block_ts)
unfolding enforce_settle gate submit classify
future_block-violated i block_ts now window later margin table b bytes p h f l m = (
  record { included_count = i.included_count; last_settled_ts = block_ts; pending = [] },
  record {
    included_count = i.included_count;
    last_settled_ts = block_ts;
    pending = record { deadline_ms = now + window; tx_bytes = b ∷ bytes } ∷ [];
  },
  rw p (ground (arith, drop-nil {A = PendingTx} (i.included_count - i.included_count))),
  refl,
  ground arith,
)
