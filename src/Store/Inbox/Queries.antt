-- ===== src/Store/Inbox/Queries.antt =====
-- What a second call on a nonce answers, and what the queries say of the stored map.
use podseq.Prelude.{
  ap, ◌⊎◌, Result-cases, ℕ, suc, ◌+◌, ◌≤◌, ◌≡◌, refl, ◌≢◌, inl, inr, none, some, [], ◌∷◌, arith,
  ◌==◌, if◌then◌else◌, ok, err, length, retain, ◌∙◌, Option-cases,
}
use podseq.Store.Disk.{
  StoreError, Fault, with_fault, Text, conflict, Disk, Codec, IsRoundTrip, load_raw,
}
use podseq.Store.Disk.Atomic.{contents, contents-main, mutate-AllOrNothing, mutate-err, mutate-ok}
use podseq.Store.Map.{get, contains_key, get-insert, SortedFrom, get-SortedFrom}
use podseq.Store.Inbox.{
  Submission, Nonces, submitted, included, add_submitted, set_included, record_submitted, snapshot,
  mark_included, is_submitted, is_included, submitted_records, included_count,
}

set_included-get :
    (nonce height : ℕ) (m m' : Nonces)
    → set_included nonce height m ≡ ok m'
    → (x : Text) × (get nonce m' ≡ some (included height x))
unfolding set_included
set_included-get nonce height m m' h = elim (Option-cases (get nonce m)) [
  | inl e ↦ ground arith
  | inr (submitted s, e) ↦
      (s.tx_hash, ground (arith, get-insert nonce nonce (included height s.tx_hash) m))
  | inr (included i x, e) ↦ (x, ground arith)
]

set_included-again :
    (nonce height other : ℕ) (m m' : Nonces)
    → set_included nonce height m ≡ ok m'
    → set_included nonce other m' ≡ (if height == other then ok m' else err (conflict nonce))
unfolding set_included
set_included-again nonce height other m m' h =
    let (x, e) = set_included-get nonce height m m' h in rw e

-- The submitted records are those of the map, in its order.
get-retain_submitted :
    (lo n : ℕ) (m : Nonces)
    → SortedFrom lo m
    → get n (retain is_submitted m) ≡ elim (get n m) [
      | none ↦ none
      | some (submitted s) ↦ some (submitted s)
      | some (included h x) ↦ none
    ]
unfolding get
get-retain_submitted lo n [] s = refl
get-retain_submitted lo n ((k, submitted s) ∷ m) o =
    ground (arith, get-retain_submitted (suc k) n m o.1)
get-retain_submitted lo n ((k, included h x) ∷ m) o =
    ground (arith, get-retain_submitted (suc k) n m o.1, get-SortedFrom (suc k) n m o.1)

-- Every record is counted once.
length-retain :
    (m : Nonces) → length (retain is_submitted m) + length (retain is_included m) ≡ length m
length-retain [] = omega arith
length-retain ((k, submitted s) ∷ m) = omega (arith, length-retain m)
length-retain ((k, included h x) ∷ m) = omega (arith, length-retain m)

module _ (c : Codec Nonces) (laws : IsRoundTrip c) (d : Disk) where
  -- Once `mark_included` has reported a nonce included at one height, a call that names another
  -- height is refused as soon as the file can be read, and the file stands as it was; so is a new
  -- submission of the nonce.
  pub marked_once :
      (nonce height other : ℕ) (s : Submission) (f : Fault)
      → (mark_included c nonce height d).0 ≡ ok tt
      → other ≢ height
      → 1 ≤ f.healthy
      → let d' = with_fault f (mark_included c nonce height d).1 in
        ((mark_included c nonce other d').0 ≡ err (conflict nonce))
        × ((mark_included c nonce other d').1.main ≡ d'.main)
        × ((record_submitted c nonce s d').0 ≡ err (conflict nonce))
        × ((record_submitted c nonce s d').1.main ≡ d'.main)
  unfolding mark_included record_submitted
  marked_once nonce height other s f done ne pos =
      elim (mutate-AllOrNothing c laws (set_included nonce height) d) [
        | inr (e, r, k) ↦ cc
        | inl (x, y, p, q, r, k) ↦
            let d' : Disk = with_fault f (mark_included c nonce height d).1 in
            let read : contents c d' ≡ ok y =
              contents-main c (mark_included c nonce height d).1 d' refl ∙ k in
            let (h, e) = set_included-get nonce height x y q in
            let again : set_included nonce other y ≡ err (conflict nonce) =
              ground (arith, set_included-again nonce height other x y q) in
            let resubmit : add_submitted nonce s y ≡ err (conflict nonce) =
              unfold add_submitted contains_key in rw e in
            let a = mutate-err c (set_included nonce other) d' y (conflict nonce) pos read again in
            let b = mutate-err c (add_submitted nonce s) d' y (conflict nonce) pos read resubmit in
            (a.0, a.1, b.0, b.1)
      ]

  -- Marking a nonce again at its own height succeeds, if the map can be printed and three calls of
  -- the file system succeed, and changes nothing of what is read.
  pub mark_included-idempotent :
      (nonce height : ℕ) (f : Fault) (m m' : Nonces) (text : Text)
      → contents c d ≡ ok m
      → set_included nonce height m ≡ ok m'
      → (mark_included c nonce height d).0 ≡ ok tt
      → c.to_string_pretty m' ≡ ok text
      → 3 ≤ f.healthy
      → let d' = with_fault f (mark_included c nonce height d).1 in
        ((mark_included c nonce height d').0 ≡ ok tt)
        × (contents c (mark_included c nonce height d').1 ≡ ok m')
  unfolding mark_included
  mark_included-idempotent nonce height f m m' text stored h done pr three =
      elim (mutate-AllOrNothing c laws (set_included nonce height) d) [
        | inr (e, r, k) ↦ cc
        | inl (x, y, p, q, r, k) ↦
            let d' : Disk = with_fault f (mark_included c nonce height d).1 in
            let same : y ≡ m' = ground arith in
            mutate-ok c laws (set_included nonce height) d' m' m' text three
              (contents-main c (mark_included c nonce height d).1 d' refl ∙ k ∙ ap ok same)
              (ground (arith, set_included-again nonce height height m m' h)) pr
      ]

-- With one call of the file system that succeeds, `submitted` gives exactly the submitted records
-- of the stored map, as they are, and `included_count` the number of all others.
pub submitted-and-included :
    (c : Codec Nonces) (d : Disk) (m : Nonces)
    → contents c d ≡ ok m
    → SortedFrom 0 m
    → 1 ≤ d.healthy
    → (pending : Nonces) × (count : ℕ) × ((submitted_records c d).0 ≡ ok pending)
      × ((included_count c d).0 ≡ ok count)
      × ((n : ℕ)
          → get n pending ≡ elim (get n m) [
            | none ↦ none
            | some (submitted s) ↦ some (submitted s)
            | some (included h x) ↦ none
          ])
      × (length pending + count ≡ length m)
unfolding submitted_records included_count load_raw contents
submitted-and-included c d m h o one = (
  retain is_submitted m,
  length (retain is_included m),
  ground arith,
  ground arith,
  λ n. get-retain_submitted 0 n m o,
  length-retain m,
)

-- A snapshot fails, or is the stored map and leaves the file as it was.
pub snapshot-cases :
    (c : Codec Nonces) (d : Disk) (m : Nonces)
    → contents c d ≡ ok m
    → ((e : StoreError) × ((snapshot c d).0 ≡ err e))
      ⊎ ((d' : Disk) × (snapshot c d ≡ (ok m, d')) × (contents c d' ≡ ok m))
unfolding snapshot load_raw contents
snapshot-cases c d m h = elim (Result-cases (load_raw c d).0) [
  | inr (e, p) ↦ inl (e, p)
  | inl (x, p) ↦ inr ((load_raw c d).1, ground arith, ground arith)
]
