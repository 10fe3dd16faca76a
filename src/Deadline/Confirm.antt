-- ===== src/Deadline/Confirm.antt =====
-- A halting verdict is asserted on a confirmed snapshot only.
use podseq.Prelude.{
  ==_refl, ◌⊎◌, inl, inr, ℕ, zero, suc, ◌≡◌, refl, true, Option, none, some, arith, Result, ok, err,
  Bool-cases, ◌∙◌, ap,
}
use podseq.Deadline.{InboxStatus, PendingTx, DeadlineStatus, is_halted, classify}
use podseq.Deadline.Monitor.{
  InboxError, InboxTransport, Decoders, DeadlineMonitor, Snapshot, read_inbox, read_snapshot,
  agrees, confirm_unchanged, verdict, attempt, attempts, status, confirm_limit,
}

-- The two ways in which a read ends.
pub Read-cases :
    {S A : Type 0} (p : Result InboxError A × S)
    → ((a : A) × (t : S) × (p ≡ (ok a, t))) ⊎ ((e : InboxError) × (t : S) × (p ≡ (err e, t)))
Read-cases (ok a, t) = inl (a, t, refl)
Read-cases (err e, t) = inr (e, t, refl)

classify-fields :
    (now margin : ℕ) (a b : InboxStatus) (oldest : Option PendingTx)
    → a.included_count ≡ b.included_count
    → a.last_settled_ts ≡ b.last_settled_ts
    → classify now margin a oldest ≡ classify now margin b oldest
unfolding classify
classify-fields now margin a b none e f = refl
classify-fields now margin a b (some tx) e f = ground arith

module _ {S : Type 0} (transport : InboxTransport S) (decode : Decoders) (m : DeadlineMonitor) where
  -- An attempt from `s` that read a snapshot, whose verdict halts, and then read the inbox anew.
  pub record Confirmed (s : S) (verdict_given : DeadlineStatus) : Type 0 where
    pub snap : Snapshot
    pub between : S
    pub confirm : InboxStatus
    pub end : S
    pub first : read_snapshot transport decode m s ≡ (ok snap, between)
    pub second : read_inbox transport decode m.inbox between ≡ (ok confirm, end)
    pub same_cursor : confirm.included_count ≡ snap.status.included_count
    pub same_witness : confirm.last_settled_ts ≡ snap.status.last_settled_ts
    pub given : verdict_given ≡ classify snap.now_ms m.margin_ms confirm snap.oldest

  attempt-Confirmed :
      (s s' : S) (v : DeadlineStatus)
      → attempt transport decode m s ≡ (ok (some v), s')
      → is_halted v ≡ true
      → Confirmed s v
  unfolding attempt confirm_unchanged agrees
  attempt-Confirmed s s' v h k = elim (Read-cases (read_snapshot transport decode m s)) [
    | inr (e, t, p) ↦ ground arith
    | inl (snap, t, p) ↦ elim (Bool-cases (is_halted (verdict m snap))) [
      | inr live ↦ ground arith
      | inl halt ↦ elim (Read-cases (read_inbox transport decode m.inbox t)) [
        | inr (e, u, q) ↦ ground arith
        | inl (confirm, u, q) ↦ record {
          snap = snap;
          between = t;
          confirm = confirm;
          end = u;
          first = p;
          second = q;
          same_cursor = ground arith;
          same_witness = ground arith;
          given =
              ground
                (arith, classify-fields snap.now_ms m.margin_ms confirm snap.status snap.oldest);
        }
      ]
    ]
  ]

  -- `s'` is where some number of earlier attempts, none of which confirmed its verdict, left `s`.
  pub data Retried (s : S) : S → Type 0 where
    here : Retried s s
    again : {t u : S} → Retried s t → attempt transport decode m t ≡ (ok none, u) → Retried s u

  attempts-Confirmed :
      (n : ℕ) (s t s' : S) (v : DeadlineStatus)
      → Retried s t
      → attempts transport decode n m t ≡ (ok v, s')
      → is_halted v ≡ true
      → (u : S) × Retried s u × Confirmed u v
  unfolding attempts
  attempts-Confirmed zero s t s' v r h k = cc
  attempts-Confirmed (suc n) s t s' v r h k = elim (Read-cases (attempt transport decode m t)) [
    | inr (e, u, q) ↦ ground arith
    | inl (none, u, q) ↦ attempts-Confirmed n s u s' v (again r q) (ground arith) k
    | inl (some w, u, q) ↦
        let same : w ≡ v = ground arith in
        (t, r, attempt-Confirmed t u v (q ∙ ap (λ x. (ok (some x), u)) same) k)
  ]

  -- A halting status is given only by an attempt whose snapshot was confirmed: the inbox was read
  -- anew, its settle cursor and its settlement witness were those of the snapshot, and the status is
  -- the classification by the confirming read. However the chain moves between two reads.
  pub status-Confirmed :
      (s s' : S) (v : DeadlineStatus)
      → status transport decode m s ≡ (ok v, s')
      → is_halted v ≡ true
      → (u : S) × Retried s u × Confirmed u v
  unfolding status
  status-Confirmed s s' v h k = attempts-Confirmed confirm_limit s s s' v here h k

  -- On a chain that does not move while it is read, the first attempt gives the verdict.
  pub status-stable :
      (s : S) (snap : Snapshot)
      → read_snapshot transport decode m s ≡ (ok snap, s)
      → read_inbox transport decode m.inbox s ≡ (ok snap.status, s)
      → status transport decode m s ≡ (ok (verdict m snap), s)
  unfolding status attempt confirm_unchanged agrees
  status-stable s snap p q =
      ground (arith, ==_refl snap.status.included_count, ==_refl snap.status.last_settled_ts)
