-- ===== src/Tracker/Sync/Recorded.antt =====
-- What a pass of `sync` has recorded when it succeeds.
use podseq.Prelude.{
  ℕ, zero, suc, ◌≡◌, refl, inl, inr, none, some, List, [], ◌∷◌, ◌++◌, All, arith, Result, ok, err,
  Result-cases, Bool-cases, ◌∙◌, ap, ok_injective, ◌-◌, saturating_add,
}
use mathlib.Core.Path.{subst}
use podseq.Deadline.{InboxStatus, PendingTx}
use podseq.Deadline.Monitor.{Bytes}
use podseq.Deadline.Confirm.{Read-cases}
use podseq.Store.Disk.{Disk, Codec, IsRoundTrip}
use podseq.Store.Disk.Atomic.{contents, mutate-AllOrNothing}
use podseq.Store.Map.{get, get-insert, contains_key}
use podseq.Store.Inbox.{
  Submission, NonceRecord, Nonces, submitted, add_submitted, record_submitted, snapshot,
}
use podseq.Store.Inbox.Queries.{snapshot-cases}
use podseq.Tracker.{TrackerError, transport, store, TrackedSubmission}
use podseq.Tracker.Sync.{
  InboxTracker, TrackerState, refresh_window, submission, fresh_one, sync_each, sync,
}

module _ {S : Type 0} (t : InboxTracker S) (c : Codec Nonces) where
  -- The record of a submission that was handed out.
  abbrev pub record_of : TrackedSubmission → Submission
  record_of x = record {
    deadline_height = x.deadline_height;
    deadline_ms = x.deadline_ms;
    first_seen_height = x.first_seen_height;
    tx_hash = t.hash_text x.tx_hash;
    tx_bytes = t.encode x.tx_bytes;
  }

  abbrev pub IsRecorded : ℕ → ℕ → Nonces → TrackedSubmission → Type 0
  IsRecorded at_height deadline m x =
      (get x.nonce m ≡ some (submitted (record_of x)))
      × (x.first_seen_height ≡ at_height)
      × (x.deadline_height ≡ deadline)

  abbrev pub Keeps : Nonces → Nonces → Type 0
  Keeps m m' = (n : ℕ) (r : NonceRecord) → get n m ≡ some r → get n m' ≡ some r

  All-Keeps :
      (at_height deadline : ℕ) (m m' : Nonces) (xs : List TrackedSubmission)
      → Keeps m m'
      → All (IsRecorded at_height deadline m) xs
      → All (IsRecorded at_height deadline m') xs
  All-Keeps at_height deadline m m' [] k a = tt
  All-Keeps at_height deadline m m' (x ∷ xs) k (r, a) = (
    (k x.nonce (submitted (record_of x)) r.0, r.1, r.2),
    All-Keeps at_height deadline m m' xs k a,
  )

  All-append :
      (at_height deadline : ℕ) (m : Nonces) (xs : List TrackedSubmission) (x : TrackedSubmission)
      → All (IsRecorded at_height deadline m) xs
      → IsRecorded at_height deadline m x
      → All (IsRecorded at_height deadline m) (xs ++ x ∷ [])
  All-append at_height deadline m [] x a r = (r, tt)
  All-append at_height deadline m (y ∷ xs) x (q, a) r =
      (q, All-append at_height deadline m xs x a r)

  add_submitted-Keeps :
      (nonce : ℕ) (s : Submission) (m y : Nonces)
      → add_submitted nonce s m ≡ ok y
      → Keeps m y × (get nonce y ≡ some (submitted s))
  unfolding add_submitted contains_key
  add_submitted-Keeps nonce s m y h = (
    λ n r e. ground (arith, get-insert nonce n (submitted s) m),
    ground (arith, get-insert nonce nonce (submitted s) m),
  )

  record_submitted-Keeps :
      (laws : IsRoundTrip c) (nonce : ℕ) (s : Submission) (d : Disk) (m : Nonces)
      → contents c d ≡ ok m
      → (record_submitted c nonce s d).0 ≡ ok tt
      → (y : Nonces) × (contents c (record_submitted c nonce s d).1 ≡ ok y)
        × Keeps m y
        × (get nonce y ≡ some (submitted s))
  unfolding record_submitted
  record_submitted-Keeps laws nonce s d m h k =
      elim (mutate-AllOrNothing c laws (add_submitted nonce s) d) [
        | inr (e, p, q) ↦ cc
        | inl (x, y, p, q, r, z) ↦
            let (keeps, found) = add_submitted-Keeps nonce s m y (ground arith) in
            (y, z, keeps, found)
      ]

  module _ (table at_height deadline count : ℕ) (tracked : Nonces) (nonce : ℕ)
      (fresh : List TrackedSubmission) (s : S) (d : Disk) where
    -- What the first nonce of the loop leads to, if the loop succeeds in the end.
    pub data Next : Type 0 where
      skipped :
          (u : S)
          → sync_each t c table at_height deadline (suc count) tracked nonce fresh s d
            ≡ sync_each t c table at_height deadline count tracked (suc nonce) fresh u d
          → Next
      stored :
          (u : S) (p : PendingTx)
          → (record_submitted c nonce (submission t c at_height deadline p) d).0 ≡ ok tt
          → sync_each t c table at_height deadline (suc count) tracked nonce fresh s d
            ≡ sync_each t c table at_height deadline count tracked
                (suc nonce)
                (fresh ++ fresh_one t c nonce at_height deadline p ∷ [])
                u
                (record_submitted c nonce (submission t c at_height deadline p) d).1
          → Next
      failed :
          (e : TrackerError)
          → (sync_each t c table at_height deadline (suc count) tracked nonce fresh s d).0 ≡ err e
          → Next

    next : Next
    unfolding sync_each
    next = elim (Bool-cases (contains_key nonce tracked)) [
      | inl k ↦ skipped s (ground arith)
      | inr k ↦ elim (Read-cases (t.transport.field_contents table nonce s)) [
        | inr (e, u, p) ↦ failed transport (ground arith)
        | inl (none, u, p) ↦ skipped u (ground arith)
        | inl (some bytes, u, p) ↦ elim (Result-cases (t.decode.pending_tx bytes)) [
          | inr (e, q) ↦ failed transport (ground arith)
          | inl (tx, q) ↦
              elim (Result-cases
                (record_submitted c nonce (submission t c at_height deadline tx) d).0) [
                  | inr (e, r) ↦ failed (store e) (ground arith)
                  | inl (x, r) ↦ stored u tx r (ground arith)
                ]
        ]
      ]
    ]

  -- The file keeps every record of `m`, and has the record of each of the submissions.
  abbrev pub Records : ℕ → ℕ → Nonces → List TrackedSubmission → Disk → Type 0
  Records at_height deadline m xs d =
      (m' : Nonces) × (contents c d ≡ ok m')
      × Keeps m m'
      × All (IsRecorded at_height deadline m') xs

  sync_each-Records :
      (laws : IsRoundTrip c) (table at_height deadline count : ℕ) (tracked m : Nonces) (nonce : ℕ)
      (fresh res : List TrackedSubmission) (s : S) (d : Disk)
      → contents c d ≡ ok m
      → All (IsRecorded at_height deadline m) fresh
      → (sync_each t c table at_height deadline count tracked nonce fresh s d).0 ≡ ok res
      → Records at_height deadline m res
          (sync_each t c table at_height deadline count tracked nonce fresh s d).2
  unfolding sync_each
  sync_each-Records laws table at_height deadline zero tracked m nonce fresh res s d h a k =
      (m, h, λ n r e. e, subst (All (IsRecorded at_height deadline m)) (ok_injective k) a)
  sync_each-Records laws table at_height deadline (suc count) tracked m nonce fresh res s d h a k =
      elim (next table at_height deadline count tracked nonce fresh s d) [
        | failed e p ↦ cc
        | skipped u p ↦
            let (m', w, f, b) =
              sync_each-Records laws table at_height deadline count tracked m (suc nonce) fresh res
                u d h a (cc p) in
            (m', ap (λ z. contents c z.2) p ∙ w, f, b)
        | stored u tx r p ↦
            let x = fresh_one t c nonce at_height deadline tx in
            let d' = (record_submitted c nonce (submission t c at_height deadline tx) d).1 in
            let (y, w, f, g) =
              record_submitted-Keeps laws nonce (submission t c at_height deadline tx) d m h r in
            let b =
              All-append at_height deadline y fresh x (All-Keeps at_height deadline m y fresh f a)
                (g, refl, refl) in
            let (m', v, i, j) =
              sync_each-Records laws table at_height deadline count tracked y (suc nonce)
                (fresh ++ x ∷ []) res u d' w b (cc p) in
            (m', ap (λ z. contents c z.2) p ∙ v, λ n q e. i n q (f n q e), j)
      ]

  module _ (at_height : ℕ) (st : TrackerState S) (m : Nonces) (bytes : Bytes) (s : S)
      (status : InboxStatus) (d : Disk)
      (read : t.transport.object_contents t.inbox_id st.chain ≡ (ok bytes, s))
      (parsed : t.decode.inbox_status bytes ≡ ok status)
      (taken : snapshot c st.disk ≡ (ok m, d)) where
    abbrev budget : ℕ
    budget = (refresh_window t c st.deadline_blocks s).0

    -- The loop of this pass.
    abbrev pass : Result TrackerError (List TrackedSubmission) × S × Disk
    pass =
        sync_each t c status.pending_table_uid at_height (saturating_add at_height budget)
          (status.next_nonce - status.included_count) m status.included_count []
          (refresh_window t c st.deadline_blocks s).1 d

    sync-pass :
        sync t c at_height st
        ≡ (pass.0, record { chain = pass.1; disk = pass.2; deadline_blocks = budget })
    unfolding sync
    sync-pass = ground arith

  -- When `sync` succeeds, the store has kept every record, and each transaction that `sync` hands out
  -- is recorded as submitted, with the height of this pass and a deadline of that height and the
  -- refreshed budget.
  pub sync-Records :
      (laws : IsRoundTrip c) (at_height : ℕ) (st : TrackerState S) (m : Nonces)
      (res : List TrackedSubmission)
      → contents c st.disk ≡ ok m
      → (sync t c at_height st).0 ≡ ok res
      → let st' = (sync t c at_height st).1 in
        Records at_height (saturating_add at_height st'.deadline_blocks) m res st'.disk
  sync-Records laws at_height st m res h k =
      elim (Read-cases (t.transport.object_contents t.inbox_id st.chain)) [
        | inr (e, s, p) ↦ absurd (unfold sync in ground arith)
        | inl (bytes, s, p) ↦ elim (Result-cases (t.decode.inbox_status bytes)) [
          | inr (e, q) ↦ absurd (unfold sync in ground arith)
          | inl (status, q) ↦ elim (snapshot-cases c st.disk m h) [
            | inl (e, r) ↦ absurd (unfold sync in ground arith)
            | inr (d, r, w) ↦
                let e = sync-pass at_height st m bytes s status d p q r in
                rw e (
                  sync_each-Records laws status.pending_table_uid at_height _
                    (status.next_nonce - status.included_count) m m status.included_count [] res _ d
                    w tt (rw e at k))
          ]
        ]
      ]
