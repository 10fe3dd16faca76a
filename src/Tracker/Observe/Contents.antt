-- ===== src/Tracker/Observe/Contents.antt =====
-- What a pass of `observe_transactions` leaves in the store.
use podseq.Prelude.{
  ℕ, suc, ◌≡◌, refl, inl, inr, Bool, true, false, Option, none, some, List, [], ◌∷◌, ◌++◌, map,
  arith, ◌==◌, ==_refl, if◌then◌else◌, ok, err, Result-cases, Option-cases, Bool-cases, ◌∙◌,
}
use podseq.Store.Disk.{StoreError, Disk, Codec, IsRoundTrip}
use podseq.Store.Disk.Atomic.{contents, mutate-AllOrNothing}
use podseq.Store.Map.{get, get-insert, SortedFrom, get-SortedFrom}
use podseq.Store.Inbox.{NonceRecord, Nonces, submitted, included, set_included, mark_included}
use podseq.Tracker.{Bytes, TrackerError, Hex, hash_of, is_new, contains_hash, parse_tx_hash, store}
use podseq.Store.Inbox.Queries.{snapshot-cases}
use podseq.Tracker.Observe.{observe_each, observe_transactions, observed}

module _ (hex : Hex) (c : Codec Nonces) where
  set_included-found :
      (nonce height n : ℕ) (r : NonceRecord) (m y : Nonces)
      → get nonce m ≡ some r
      → set_included nonce height m ≡ ok y
      → get n y ≡ (if nonce == n then some (included height (hash_of r)) else get n m)
  unfolding set_included
  set_included-found nonce height n (submitted s) m y h e =
      ground (arith, get-insert nonce n (included height s.tx_hash) m)
  set_included-found nonce height n (included i x) m y h e = ground arith

  mark_included-found :
      (laws : IsRoundTrip c) (nonce height : ℕ) (r : NonceRecord) (d : Disk) (m : Nonces)
      → contents c d ≡ ok m
      → get nonce m ≡ some r
      → (mark_included c nonce height d).0 ≡ ok tt
      → (y : Nonces) × (contents c (mark_included c nonce height d).1 ≡ ok y)
        × ((n : ℕ) → get n y ≡ (if nonce == n then some (included height (hash_of r)) else get n m))
  unfolding mark_included
  mark_included-found laws nonce height r d m h g k =
      elim (mutate-AllOrNothing c laws (set_included nonce height) d) [
        | inr (e, p, q) ↦ cc
        | inl (x, y, p, q, s, t) ↦
            (y, t, λ n. set_included-found nonce height n r m y g (ground arith))
      ]

  -- What the nonce `n` has after the rest of the snapshot, `l`, was gone through from `m`.
  abbrev pub after_rest : ℕ → List Bytes → Nonces → Nonces → ℕ → Option NonceRecord
  after_rest height hashes l m n = elim (get n l) [
    | none ↦ get n m
    | some r ↦ some (observed hex c height hashes r)
  ]

  -- Every record of the rest is the stored one.
  abbrev pub Agrees : Nonces → Nonces → Type 0
  Agrees l m = (n : ℕ) (r : NonceRecord) → get n l ≡ some r → get n m ≡ some r

  get-head : (k : ℕ) (r : NonceRecord) (l : Nonces) → get k ((k, r) ∷ l) ≡ some r
  unfolding get
  get-head k r l = ground (arith, ==_refl k)

  get-tail :
      (k n : ℕ) (r q : NonceRecord) (l : Nonces)
      → SortedFrom (suc k) l
      → get n l ≡ some q
      → ((k == n) ≡ false) × (get n ((k, r) ∷ l) ≡ some q)
  unfolding get
  get-tail k n r q l o e = elim (Bool-cases (k == n)) [
    | inl h ↦ ground (arith, get-SortedFrom (suc k) n l o)
    | inr h ↦ (h, ground arith)
  ]

  -- The record at the head of the rest was dealt with: `y` has its successor, and is `m` elsewhere.
  after_rest-cons :
      (height : ℕ) (hashes : List Bytes) (k n : ℕ) (r : NonceRecord) (l m y : Nonces)
      → SortedFrom (suc k) l
      → get n y ≡ (if k == n then some (observed hex c height hashes r) else get n m)
      → after_rest height hashes l y n ≡ after_rest height hashes ((k, r) ∷ l) m n
  unfolding get
  after_rest-cons height hashes k n r l m y o e = elim (Bool-cases (k == n)) [
    | inl h ↦ ground (arith, get-SortedFrom (suc k) n l o)
    | inr h ↦ ground arith
  ]

  Agrees-tail :
      (k : ℕ) (r q : NonceRecord) (l m y : Nonces)
      → SortedFrom (suc k) l
      → Agrees ((k, r) ∷ l) m
      → ((n : ℕ) → get n y ≡ (if k == n then some q else get n m))
      → Agrees l y
  Agrees-tail k r q l m y o a e n p g =
      let (ne, found) = get-tail k n r p l o g in let stored = a n p found in ground (arith, e n)

  module _ (height k : ℕ) (hashes : List Bytes) (r : NonceRecord) (l : Nonces) (marked : List ℕ)
      (d : Disk) (x : Bytes) (parsed : parse_tx_hash hex (hash_of r) ≡ ok x) where
    observe_each-miss :
        contains_hash x hashes ≡ false
        → observe_each hex c height hashes ((k, r) ∷ l) marked d
          ≡ observe_each hex c height hashes l marked d
    unfolding observe_each
    observe_each-miss h = ground arith

    observe_each-hit :
        contains_hash x hashes ≡ true
        → (mark_included c k height d).0 ≡ ok tt
        → observe_each hex c height hashes ((k, r) ∷ l) marked d
          ≡ observe_each hex c height hashes l
              (if is_new r then marked ++ k ∷ [] else marked)
              (mark_included c k height d).1
    unfolding observe_each
    observe_each-hit h e = ground arith

    observe_each-refused :
        (e : StoreError)
        → contains_hash x hashes ≡ true
        → (mark_included c k height d).0 ≡ err e
        → (observe_each hex c height hashes ((k, r) ∷ l) marked d).0 ≡ err (store e)
    unfolding observe_each
    observe_each-refused e h q = ground arith

  observe_each-unparsed :
      (height k : ℕ) (hashes : List Bytes) (r : NonceRecord) (l : Nonces) (marked : List ℕ)
      (d : Disk) (e : TrackerError)
      → parse_tx_hash hex (hash_of r) ≡ err e
      → (observe_each hex c height hashes ((k, r) ∷ l) marked d).0 ≡ err e
  unfolding observe_each
  observe_each-unparsed height k hashes r l marked d e p = ground arith

  -- The file holds what the rest `l` made of `m`.
  abbrev pub Observes : ℕ → List Bytes → Nonces → Nonces → Disk → Type 0
  Observes height hashes l m d =
      (m' : Nonces) × (contents c d ≡ ok m') × ((n : ℕ) → get n m' ≡ after_rest height hashes l m n)

  observed-hit :
      (height : ℕ) (hashes : List Bytes) (r : NonceRecord) (x : Bytes) (b : Bool)
      → parse_tx_hash hex (hash_of r) ≡ ok x
      → contains_hash x hashes ≡ b
      → observed hex c height hashes r ≡ (if b then included height (hash_of r) else r)
  observed-hit height hashes r x b p h = ground arith

  observe_each-Observes :
      (laws : IsRoundTrip c) (height lo : ℕ) (hashes : List Bytes) (l m : Nonces)
      (marked res : List ℕ) (d : Disk)
      → SortedFrom lo l
      → contents c d ≡ ok m
      → Agrees l m
      → (observe_each hex c height hashes l marked d).0 ≡ ok res
      → Observes height hashes l m (observe_each hex c height hashes l marked d).1
  observe_each-Observes laws height lo hashes [] m marked res d o h a k =
      (m, unfold observe_each in h, λ n. unfold get in refl)
  observe_each-Observes laws height lo hashes ((j, r) ∷ l) m marked res d o h a k =
      let stored : get j m ≡ some r = a j r (get-head j r l) in
      elim (Result-cases (parse_tx_hash hex (hash_of r))) [
        | inr (e, p) ↦ cc (observe_each-unparsed height j hashes r l marked d e p)
        | inl (x, p) ↦ elim (Bool-cases (contains_hash x hashes)) [
          | inr out ↦
              let e = observe_each-miss height j hashes r l marked d x p out in
              let same : (n : ℕ) → get n m ≡ (if j == n then some r else get n m) =
                λ n. ground (arith) in
              let (m', q, f) =
                observe_each-Observes laws height (suc j) hashes l m marked res d o.1 h
                  (Agrees-tail j r r l m m o.1 a same) (cc e) in
              (
                m',
                rw e q,
                λ n.
                    f n
                    ∙ after_rest-cons height hashes j n r l m m o.1
                        (same n ∙ rw (observed-hit height hashes r x false p out)),
              )
          | inl hit ↦ elim (Result-cases (mark_included c j height d).0) [
            | inr (e, q) ↦ cc (observe_each-refused height j hashes r l marked d x p e hit q)
            | inl (u, q) ↦
                let e = observe_each-hit height j hashes r l marked d x p hit q in
                let (y, z, g) = mark_included-found laws j height r d m h stored q in
                let next = if is_new r then marked ++ j ∷ [] else marked in
                let d' = (mark_included c j height d).1 in
                let (m', w, f) =
                  observe_each-Observes laws height (suc j) hashes l y next res d' o.1 z
                    (Agrees-tail j r (included height (hash_of r)) l m y o.1 a g) (cc e) in
                (
                  m',
                  rw e w,
                  λ n.
                      f n
                      ∙ after_rest-cons height hashes j n r l m y o.1
                          (g n ∙ rw (observed-hit height hashes r x true p hit)),
                )
          ]
        ]
      ]

  after_rest_self :
      (height : ℕ) (hashes : List Bytes) (n : ℕ) (m : Nonces)
      → after_rest height hashes m m n
        ≡ elim (get n m) [ none ↦ none | some r ↦ some (observed hex c height hashes r) ]
  after_rest_self height hashes n m = elim (Option-cases (get n m)) [
    | inl e ↦ ground arith
    | inr (r, e) ↦ ground arith
  ]

  -- A successful pass over a block leaves a map in which every nonce whose transaction is in the
  -- block is included at its height under its own hash, and every other nonce is as it was.
  pub observe_transactions-contents :
      (laws : IsRoundTrip c) (height : ℕ) (raw_txs : List Bytes) (m : Nonces) (res : List ℕ)
      (d : Disk)
      → contents c d ≡ ok m
      → SortedFrom 0 m
      → (observe_transactions hex c height raw_txs d).0 ≡ ok res
      → (m' : Nonces) × (contents c (observe_transactions hex c height raw_txs d).1 ≡ ok m')
        × ((n : ℕ)
            → get n m' ≡ elim (get n m) [
              | none ↦ none
              | some r ↦ some (observed hex c height (map hex.keccak256 raw_txs) r)
            ])
  unfolding observe_transactions
  observe_transactions-contents laws height raw_txs m res d h o k =
      let hashes = map hex.keccak256 raw_txs in
      elim (snapshot-cases c d m h) [
        | inl (e, p) ↦ ground arith
        | inr (d', p, q) ↦
            let (m', w, f) =
              observe_each-Observes laws height 0 hashes m m [] res d' o q (λ n r e. e)
                (rw p at k) in
            (m', rw p w, λ n. f n ∙ after_rest_self height hashes n m)
      ]
