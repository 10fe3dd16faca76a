-- ===== src/Tracker/Halt.antt =====
-- The settlement gate of crates/node/src/inbox.rs: `halt_check`, and `wait_inclusion_gate` over the
-- rounds of its loop.
use podseq.Prelude.{
  ℕ, ◌≤◌, ◌<◌, ◌≡◌, refl, Bool, true, false, ◌||◌, Option, none, some, List, [], ◌∷◌, arith, ltb,
  if◌then◌else◌, Result, ok, err,
}
use podseq.Store.Disk.{Disk, Codec, load_raw}
use podseq.Store.Disk.Atomic.{contents}
use podseq.Store.Map.{get, contains_key, insert}
use podseq.Store.Inbox.{
  Submission, NonceRecord, Nonces, submitted, included, snapshot, add_submitted,
}
use podseq.Tracker.{TrackerError, HaltCheck, clear, halt, from_store}

-- The loop over the snapshot: the first submitted nonce decides.
unfoldable pub first_halt : ℕ → Nonces → HaltCheck
first_halt next_height [] = clear
first_halt next_height ((n, included h x) ∷ m) = first_halt next_height m
first_halt next_height ((n, submitted s) ∷ m) =
    if ltb s.deadline_height next_height then halt n s.deadline_height next_height else clear

module _ (c : Codec Nonces) where
  check_snapshot : ℕ → Result TrackerError Nonces × Disk → Result TrackerError HaltCheck × Disk
  check_snapshot next_height (ok m, d) = (ok (first_halt next_height m), d)
  check_snapshot next_height (err e, d) = (err e, d)

  unfoldable pub halt_check : ℕ → Disk → Result TrackerError HaltCheck × Disk
  unfolding check_snapshot
  halt_check next_height d = check_snapshot next_height (from_store (snapshot c d))

-- The loop of `wait_inclusion_gate`: each round reads the shutdown flag and then the gate. `none` is
-- a wait that these rounds do not end; a node without an inbox does not wait.
unfoldable pub wait_rounds : List (Bool × Result TrackerError HaltCheck) → Option Bool
wait_rounds [] = none
wait_rounds ((true, r) ∷ rounds) = some false
wait_rounds ((false, ok clear) ∷ rounds) = some true
wait_rounds ((false, ok (halt n d h)) ∷ rounds) = wait_rounds rounds
wait_rounds ((false, err e) ∷ rounds) = some true

unfoldable pub wait_inclusion_gate :
    Bool → List (Bool × Result TrackerError HaltCheck) → Option Bool
unfolding wait_rounds
wait_inclusion_gate false rounds = some true
wait_inclusion_gate true rounds = wait_rounds rounds

abbrev pub overdue : ℕ → NonceRecord → Bool
overdue next_height (submitted s) = ltb s.deadline_height next_height
overdue next_height (included h x) = false

abbrev pub any_overdue : ℕ → Nonces → Bool
any_overdue next_height [] = false
any_overdue next_height ((n, r) ∷ m) = overdue next_height r || any_overdue next_height m

-- The deadlines of the submitted nonces do not decrease, and none is before `lo`.
abbrev pub DeadlinesFrom : ℕ → Nonces → Type 0
DeadlinesFrom lo [] = Unit {0}
DeadlinesFrom lo ((n, submitted s) ∷ m) =
    (lo ≤ s.deadline_height) × DeadlinesFrom s.deadline_height m
DeadlinesFrom lo ((n, included h x) ∷ m) = DeadlinesFrom lo m

any_overdue-late :
    (lo next : ℕ) (m : Nonces) → DeadlinesFrom lo m → next ≤ lo → any_overdue next m ≡ false
any_overdue-late lo next [] o h = refl
any_overdue-late lo next ((n, submitted s) ∷ m) o h =
    ground (arith, any_overdue-late s.deadline_height next m o.1)
any_overdue-late lo next ((n, included i x) ∷ m) o h = ground (arith, any_overdue-late lo next m o)

abbrev pub is_halt : HaltCheck → Bool
is_halt clear = false
is_halt (halt n d h) = true

first_halt-any_overdue :
    (lo next : ℕ) (m : Nonces)
    → DeadlinesFrom lo m
    → is_halt (first_halt next m) ≡ any_overdue next m
unfolding first_halt
first_halt-any_overdue lo next [] o = refl
first_halt-any_overdue lo next ((n, submitted s) ∷ m) o =
    ground (arith, any_overdue-late s.deadline_height next m o.1)
first_halt-any_overdue lo next ((n, included i x) ∷ m) o =
    ground (arith, first_halt-any_overdue lo next m o)

-- While the deadlines of the submitted nonces do not decrease, and the file can be read, the gate
-- refuses exactly when some submitted nonce is past its deadline.
pub halt_check-any_overdue :
    (c : Codec Nonces) (d : Disk) (m : Nonces) (next : ℕ)
    → contents c d ≡ ok m
    → 1 ≤ d.healthy
    → DeadlinesFrom 0 m
    → (check : HaltCheck) × ((halt_check c next d).0 ≡ ok check)
      × (is_halt check ≡ any_overdue next m)
unfolding halt_check snapshot load_raw contents
halt_check-any_overdue c d m next h one o =
    (first_halt next m, ground arith, first_halt-any_overdue 0 next m o)

-- Once two nonces were recorded of which the later one has the earlier deadline, the gate clears the
-- heights between the two deadlines, at which the later nonce is overdue.
pub first_halt-misses :
    (n k next : ℕ) (s t : Submission) (m : Nonces)
    → n < k
    → t.deadline_height < next
    → next ≤ s.deadline_height
    → add_submitted n s [] ≡ ok m
    → (m' : Nonces) × (add_submitted k t m ≡ ok m')
      × (first_halt next m' ≡ clear)
      × (any_overdue next m' ≡ true)
unfolding add_submitted contains_key get insert first_halt
first_halt-misses n k next s t m h l u e =
    ((n, submitted s) ∷ (k, submitted t) ∷ [], ground arith, ground arith, ground arith)
