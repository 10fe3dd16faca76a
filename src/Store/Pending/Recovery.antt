-- ===== src/Store/Pending/Recovery.antt =====
-- Crash recovery: what is pending after any calls, faults and restarts.
use podseq.Prelude.{
  Result-cases, ℕ, ◌≡◌, refl, ◌⊎◌, inl, inr, Bool, true, not, ◌&&◌, ◌||◌, List, [], ◌∷◌, arith,
  ◌==◌, ok, err, contains, ◌∙◌, ap,
}
use podseq.Store.Disk.{Fault, with_fault, StoreError, Disk, Io, Codec, IsRoundTrip, load_raw}
use podseq.Store.Disk.Atomic.{contents, contents-main, AllOrNothing, mutate-AllOrNothing}
use podseq.Store.Pending.{normalize, mark_height, clear_height, mark, clear, pending}
use podseq.Store.Pending.Heights.{
  Ascending, normalize-Ascending, contains-normalize, mark_height-Ascending, contains-mark_height,
  clear_height-Ascending, contains-clear_height,
}

pub data Call : Type 0 where
  marks clears : ℕ → Call

module _ (c : Codec (List ℕ)) (laws : IsRoundTrip c) where
  -- Whatever the file holds, the pending heights that are read ascend strictly.
  pub pending-Ascending :
      (d : Disk) (heights : List ℕ) → (pending c d).0 ≡ ok heights → Ascending 0 heights
  unfolding pending
  pending-Ascending d heights h = elim (Result-cases (load_raw c d).0) [
    | inl (xs, e) ↦
        let same : heights ≡ normalize xs = ground arith in rw same (normalize-Ascending xs)
    | inr (e, k) ↦ ground arith
  ]

  abbrev pub change : Call → List ℕ → List ℕ
  change (marks h) xs = mark_height h (normalize xs)
  change (clears h) xs = clear_height h (normalize xs)

  unfoldable pub perform : Call → Io (Unit {0})
  perform (marks h) = mark c h
  perform (clears h) = clear c h

  perform-AllOrNothing :
      (call : Call) (d : Disk) → AllOrNothing c (λ xs. ok (change call xs)) d (perform call d)
  unfolding perform mark clear
  perform-AllOrNothing (marks h) d = mutate-AllOrNothing c laws _ d
  perform-AllOrNothing (clears h) d = mutate-AllOrNothing c laws _ d

  abbrev pub has_after : Call → ℕ → Bool → Bool
  has_after (marks h) k b = (h == k) || b
  has_after (clears h) k b = not (h == k) && b

  contains-change :
      (call : Call) (k : ℕ) (xs : List ℕ)
      → contains k (change call xs) ≡ has_after call k (contains k xs)
  contains-change (marks h) k xs =
      rw (contains-mark_height k h (normalize xs), contains-normalize k xs)
  contains-change (clears h) k xs =
      rw (
        contains-clear_height 0 k h (normalize xs) (normalize-Ascending xs),
        contains-normalize k xs,
      )

  change-Ascending : (call : Call) (xs : List ℕ) → Ascending 0 (change call xs)
  change-Ascending (marks h) xs =
      mark_height-Ascending 0 h (normalize xs) (omega arith) (normalize-Ascending xs)
  change-Ascending (clears h) xs =
      clear_height-Ascending 0 h (normalize xs) (normalize-Ascending xs)

  -- A call that reports success leaves a strictly ascending list that holds exactly the heights of
  -- before, with its own added or removed; one that reports an error leaves the heights of before.
  pub perform-contents :
      (call : Call) (d : Disk) (xs : List ℕ)
      → contents c d ≡ ok xs
      → let (r, d') = perform call d in
        ((ys : List ℕ) × (r ≡ ok tt)
          × (contents c d' ≡ ok ys)
          × Ascending 0 ys
          × ((k : ℕ) → contains k ys ≡ has_after call k (contains k xs)))
        ⊎ ((e : StoreError) × (r ≡ err e) × (contents c d' ≡ ok xs))
  perform-contents call d xs h = elim (perform-AllOrNothing call d) [
    | inl (x, y, p, q, r, s) ↦
        let same : y ≡ change call xs = ground arith in
        inl (
          change call xs,
          r,
          s ∙ ap ok same,
          change-Ascending call xs,
          λ k. contains-change call k xs,
        )
    | inr (e, r, s) ↦ inr (e, r, contents-main c d _ s ∙ h)
  ]

  -- A process that runs calls, is killed and starts again, at any point.
  unfoldable pub run_calls : Disk → List (Fault × Call) → Disk
  run_calls d [] = d
  run_calls d ((f, call) ∷ calls) = run_calls (perform call (with_fault f d)).1 calls

  abbrev pub never_clears : ℕ → List (Fault × Call) → Bool
  never_clears h [] = true
  never_clears h ((f, marks k) ∷ calls) = never_clears h calls
  never_clears h ((f, clears k) ∷ calls) = not (k == h) && never_clears h calls

  -- A height that is pending stays pending, over any calls but a `clear` of it and any crashes, with
  -- reads, writes and renames that fail from any one on. The test whether the file exists is taken to
  -- answer rightly.
  pub run_calls-still_pending :
      (calls : List (Fault × Call)) (d : Disk) (xs : List ℕ) (h : ℕ)
      → contents c d ≡ ok xs
      → contains h xs ≡ true
      → never_clears h calls ≡ true
      → (ys : List ℕ) × (contents c (run_calls d calls) ≡ ok ys) × (contains h ys ≡ true)
  unfolding run_calls
  run_calls-still_pending [] d xs h e k n = (xs, e, k)
  run_calls-still_pending ((f, marks j) ∷ calls) d xs h e k n =
      elim (perform-contents (marks j) (with_fault f d) xs (contents-main c d _ refl ∙ e)) [
        | inl (ys, r, s, a, m) ↦ run_calls-still_pending calls _ ys h s (ground (arith, m h)) n
        | inr (x, r, s) ↦ run_calls-still_pending calls _ xs h s k n
      ]
  run_calls-still_pending ((f, clears j) ∷ calls) d xs h e k n =
      elim (perform-contents (clears j) (with_fault f d) xs (contents-main c d _ refl ∙ e)) [
        | inl (ys, r, s, a, m) ↦
            run_calls-still_pending calls _ ys h s (ground (arith, m h)) (ground arith)
        | inr (x, r, s) ↦ run_calls-still_pending calls _ xs h s k (ground arith)
      ]
