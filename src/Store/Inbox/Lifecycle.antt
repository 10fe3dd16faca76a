-- ===== src/Store/Inbox/Lifecycle.antt =====
-- The life of a nonce over any sequence of calls, with reads, writes and renames that may fail between them.
use podseq.Prelude.{
  ◌∙◌, Option-cases, ℕ, ◌≡◌, refl, ◌≢◌, inl, inr, Option, none, some, List, [], ◌∷◌, arith, Result,
  ok,
}
use podseq.Store.Disk.{Fault, with_fault, StoreError, Disk, Io, Codec, IsRoundTrip}
use native.Mathlib.Decide.{ℕ_discrete}
use podseq.Store.Disk.Atomic.{contents-main, contents, AllOrNothing, mutate-AllOrNothing}
use podseq.Store.Map.{get, contains_key, get-insert, SortedFrom, insert-SortedFrom}
use podseq.Store.Inbox.{
  Submission, NonceRecord, Nonces, submitted, included, add_submitted, set_included,
  record_submitted, mark_included,
}

-- What may become of a nonce: it may be recorded as submitted, and a submitted nonce may be
-- included once, under its own hash. An included one stays as it is, and no nonce is forgotten.
abbrev pub Evolves : Option NonceRecord → Option NonceRecord → Type 0
Evolves none r = Unit {0}
Evolves (some (submitted s)) none = ⊥
Evolves (some (submitted s)) (some (submitted t)) = t ≡ s
Evolves (some (submitted s)) (some (included h x)) = x ≡ s.tx_hash
Evolves (some (included h x)) none = ⊥
Evolves (some (included h x)) (some (submitted s)) = ⊥
Evolves (some (included h x)) (some (included i y)) = (i ≡ h) × (y ≡ x)

Evolves-refl : (r : Option NonceRecord) → Evolves r r
Evolves-refl none = tt
Evolves-refl (some (submitted s)) = refl
Evolves-refl (some (included h x)) = (refl, refl)

Evolves-trans : (p q r : Option NonceRecord) → Evolves p q → Evolves q r → Evolves p r
Evolves-trans none q r e f = tt
Evolves-trans (some (submitted s)) none r e f = absurd e
Evolves-trans (some (submitted s)) (some (submitted t)) none e f = f
Evolves-trans (some (submitted s)) (some (submitted t)) (some (submitted u)) e f = f ∙ e
Evolves-trans (some (submitted s)) (some (submitted t)) (some (included h x)) e f = ground arith
Evolves-trans (some (submitted s)) (some (included h x)) none e f = f
Evolves-trans (some (submitted s)) (some (included h x)) (some (submitted u)) e f = absurd f
Evolves-trans (some (submitted s)) (some (included h x)) (some (included i y)) e f = f.1 ∙ e
Evolves-trans (some (included h x)) none r e f = absurd e
Evolves-trans (some (included h x)) (some (submitted t)) r e f = absurd e
Evolves-trans (some (included h x)) (some (included i y)) none e f = f
Evolves-trans (some (included h x)) (some (included i y)) (some (submitted u)) e f = absurd f
Evolves-trans (some (included h x)) (some (included i y)) (some (included j z)) e f =
    (f.0 ∙ e.0, f.1 ∙ e.1)

add_submitted-Evolves :
    (nonce n : ℕ) (s : Submission) (m m' : Nonces)
    → add_submitted nonce s m ≡ ok m'
    → Evolves (get n m) (get n m')
unfolding add_submitted contains_key
add_submitted-Evolves nonce n s m m' h =
    ground (arith, get-insert nonce n (submitted s) m, Evolves-refl (get n m))

set_included-Evolves_self :
    (nonce height : ℕ) (m m' : Nonces)
    → set_included nonce height m ≡ ok m'
    → Evolves (get nonce m) (get nonce m')
unfolding set_included
set_included-Evolves_self nonce height m m' h = elim (Option-cases (get nonce m)) [
  | inl e ↦ rw e tt
  | inr (submitted s, e) ↦ ground (arith, get-insert nonce nonce (included height s.tx_hash) m)
  | inr (included i x, e) ↦ ground arith
]

set_included-Evolves_ne :
    (nonce n height : ℕ) (m m' : Nonces)
    → nonce ≢ n
    → set_included nonce height m ≡ ok m'
    → get n m' ≡ get n m
unfolding set_included
set_included-Evolves_ne nonce n height m m' ne h = elim (Option-cases (get nonce m)) [
  | inl e ↦ ground arith
  | inr (submitted s, e) ↦ ground (arith, get-insert nonce n (included height s.tx_hash) m)
  | inr (included i x, e) ↦ ground arith
]

set_included-Evolves :
    (nonce n height : ℕ) (m m' : Nonces)
    → set_included nonce height m ≡ ok m'
    → Evolves (get n m) (get n m')
set_included-Evolves nonce n height m m' h = elim (ℕ_discrete nonce n) [
  | yes e ↦ rw (← e) (set_included-Evolves_self nonce height m m' h)
  | no ne ↦ rw (set_included-Evolves_ne nonce n height m m' ne h) (Evolves-refl (get n m))
]

-- A call that changes the store.
pub data Call : Type 0 where
  submits : ℕ → Submission → Call
  includes : ℕ → ℕ → Call

abbrev pub change : Call → Nonces → Result StoreError Nonces
change (submits nonce s) = add_submitted nonce s
change (includes nonce height) = set_included nonce height

change-Evolves :
    (call : Call) (n : ℕ) (m m' : Nonces) → change call m ≡ ok m' → Evolves (get n m) (get n m')
change-Evolves (submits nonce s) n m m' h = add_submitted-Evolves nonce n s m m' h
change-Evolves (includes nonce height) n m m' h = set_included-Evolves nonce n height m m' h

change-SortedFrom :
    (call : Call) (m m' : Nonces) → change call m ≡ ok m' → SortedFrom 0 m → SortedFrom 0 m'
unfolding add_submitted set_included
change-SortedFrom (submits nonce s) m m' h k =
    ground (arith, insert-SortedFrom 0 nonce (submitted s) m)
change-SortedFrom (includes nonce height) m m' h k = elim (Option-cases (get nonce m)) [
  | inl e ↦ ground arith
  | inr (submitted s, e) ↦ ground (arith, insert-SortedFrom 0 nonce (included height s.tx_hash) m)
  | inr (included i x, e) ↦ ground arith
]

module _ (c : Codec Nonces) where
  unfoldable pub perform : Call → Io (Unit {0})
  perform (submits nonce s) = record_submitted c nonce s
  perform (includes nonce height) = mark_included c nonce height

  -- A process that runs calls, is killed and starts again, at any point.
  unfoldable pub run_calls : Disk → List (Fault × Call) → Disk
  run_calls d [] = d
  run_calls d ((f, call) ∷ calls) = run_calls (perform call (with_fault f d)).1 calls

  perform-AllOrNothing :
      (laws : IsRoundTrip c) (call : Call) (d : Disk)
      → AllOrNothing c (change call) d (perform call d)
  unfolding perform record_submitted mark_included
  perform-AllOrNothing laws (submits nonce s) d =
      mutate-AllOrNothing c laws (add_submitted nonce s) d
  perform-AllOrNothing laws (includes nonce height) d =
      mutate-AllOrNothing c laws (set_included nonce height) d

  -- What is stored evolves: the new contents are those of a `BTreeMap`, and each nonce evolved.
  abbrev pub StoreEvolves : Nonces → Disk → Type 0
  StoreEvolves m d =
      (m' : Nonces) × (contents c d ≡ ok m')
      × SortedFrom 0 m'
      × ((n : ℕ) → Evolves (get n m) (get n m'))

  perform-Evolves :
      (laws : IsRoundTrip c) (f : Fault) (call : Call) (d : Disk) (m : Nonces)
      → contents c d ≡ ok m
      → SortedFrom 0 m
      → StoreEvolves m (perform call (with_fault f d)).1
  perform-Evolves laws f call d m h k = elim (perform-AllOrNothing laws call (with_fault f d)) [
    | inl (x, y, p, q, r, s) ↦
        let same : x ≡ m = cc (contents-main c d (with_fault f d) refl) in
        (
          y,
          s,
          change-SortedFrom call m y (rw (← same) q) k,
          λ n. change-Evolves call n m y (rw (← same) q),
        )
    | inr (e, r, s) ↦ (m, contents-main c d _ s ∙ h, k, λ n. Evolves-refl (get n m))
  ]

  -- Over any calls and any crashes, with reads, writes and renames that fail from any one on, what the
  -- file holds is a map again, in which every nonce has evolved: an included nonce is included at the
  -- same height under the same hash, and a submitted one is still submitted as it was, or included.
  -- The test whether the file exists is taken to answer rightly.
  pub run_calls-Evolves :
      (laws : IsRoundTrip c) (calls : List (Fault × Call)) (d : Disk) (m : Nonces)
      → contents c d ≡ ok m
      → SortedFrom 0 m
      → StoreEvolves m (run_calls d calls)
  unfolding run_calls
  run_calls-Evolves laws [] d m h k = (m, h, k, λ n. Evolves-refl (get n m))
  run_calls-Evolves laws ((f, call) ∷ calls) d m h k =
      let (m₁, h₁, k₁, e₁) = perform-Evolves laws f call d m h k in
      let (m₂, h₂, k₂, e₂) =
        run_calls-Evolves laws calls (perform call (with_fault f d)).1 m₁ h₁ k₁ in
      (m₂, h₂, k₂, λ n. Evolves-trans (get n m) (get n m₁) (get n m₂) (e₁ n) (e₂ n))
