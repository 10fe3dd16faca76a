-- ===== src/Bridge/Vault/Ledger.antt =====
-- Calls of the vault in a row, with the coins that each one locked or released. An abort is passed over.
use podseq.Prelude.{
  ℕ, ◌+◌, ◌-◌, ◌≤◌, ◌≡◌, refl, sym, ap, ◌∙◌, Bool, true, false, Bool-cases, inl, inr, Option, none,
  some, List, [], ◌∷◌, Result, ok, err, arith, if◌then◌else◌,
}
use mathlib.Core.Path.{subst}
use podseq.Core.Octets.{Bytes}
use podseq.Bridge.Abi.{same_bytes}
use podseq.Bridge.Registry.{find, put}
use podseq.Bridge.Vault.{
  Vault, Abort, reserve, deposit, withdraw_key, do_withdraw, first_release, split_coin, held,
}
use podseq.Bridge.Registry.Finds.{same_bytes_refl, same_bytes→eq, find-put, find-same}

pub data VaultCall : Type 0 where
  deposits : Bytes → ℕ → Bytes → VaultCall  -- the coin type, the amount and the recipient
  withdraws : Bytes → ℕ → ℕ → VaultCall  -- the coin type, the amount and the nonce of the burn

pub data Entry : Type 0 where
  locked : Bytes → ℕ → Entry
  released : Bytes → ℕ → ℕ → Entry  -- the coin type, the nonce of the burn and the amount

abbrev Book : Type 0
Book = Vault × List Entry

book_deposit : Bytes → ℕ → Result Abort Vault → Book → Book
book_deposit coin amount (ok v) b = (v, locked coin amount ∷ b.1)
book_deposit coin amount (err _) b = b

book_withdraw : Bytes → ℕ → ℕ → Result Abort (Vault × Bool) → Book → Book
book_withdraw coin amount nonce (ok (v, true)) b = (v, released coin nonce amount ∷ b.1)
book_withdraw coin amount nonce (ok (v, false)) b = (v, b.1)
book_withdraw coin amount nonce (err _) b = b

call : VaultCall → Book → Book
unfolding book_deposit book_withdraw
call (deposits coin amount recipient) b =
    book_deposit coin amount (deposit coin amount recipient b.0) b
call (withdraws coin amount nonce) b =
    book_withdraw coin amount nonce (do_withdraw coin amount nonce b.0) b

unfoldable pub calls : List VaultCall → Book → Book
unfolding call
calls [] b = b
calls (c ∷ cs) b = calls cs (call c b)

abbrev counted : Bool → ℕ → ℕ
counted true n = n
counted false n = 0

-- What was locked of a coin type.
unfoldable pub locked_of : Bytes → List Entry → ℕ
locked_of coin [] = 0
locked_of coin (locked c n ∷ es) = counted (same_bytes c coin) n + locked_of coin es
locked_of coin (released _ _ _ ∷ es) = locked_of coin es

-- What was released of a coin type.
unfoldable pub released_of : Bytes → List Entry → ℕ
released_of coin [] = 0
released_of coin (locked _ _ ∷ es) = released_of coin es
released_of coin (released c _ n ∷ es) = counted (same_bytes c coin) n + released_of coin es

-- How often a burn was released, by its key.
unfoldable pub releases : Bytes → List Entry → ℕ
releases key [] = 0
releases key (locked _ _ ∷ es) = releases key es
releases key (released c nonce _ ∷ es) =
    counted (same_bytes (withdraw_key c nonce) key) 1 + releases key es

deposit-puts :
    (coin : Bytes) (amount : ℕ) (recipient : Bytes) (v v' : Vault)
    → deposit coin amount recipient v ≡ ok v'
    → (v'.reserves ≡ put coin (reserve coin v + amount) v.reserves)
      × (v'.processed_withdrawals ≡ v.processed_withdrawals)
unfolding deposit
deposit-puts coin amount recipient v v' e = ground arith

split_coin-puts :
    (coin : Bytes) (amount : ℕ) (key : Bytes) (x : Option ℕ) (v v' : Vault) (b : Bool)
    → split_coin coin amount key x v ≡ ok (v', b)
    → (b ≡ true)
      × (amount ≤ held x)
      × (v'.reserves ≡ put coin (held x - amount) v.reserves)
      × (v'.processed_withdrawals ≡ put key tt v.processed_withdrawals)
unfolding split_coin
split_coin-puts coin amount key none v v' b e = ground arith
split_coin-puts coin amount key (some n) v v' b e = ground arith

first_release-puts :
    (coin : Bytes) (amount : ℕ) (key : Bytes) (x : Option (Unit {0})) (v v' : Vault)
    → first_release coin amount key x v ≡ ok (v', true)
    → (x ≡ none)
      × (amount ≤ reserve coin v)
      × (v'.reserves ≡ put coin (reserve coin v - amount) v.reserves)
      × (v'.processed_withdrawals ≡ put key tt v.processed_withdrawals)
unfolding first_release reserve
first_release-puts coin amount key (some _) v v' e = ground arith
first_release-puts coin amount key none v v' e =
    ground (arith, split_coin-puts coin amount key (find coin v.reserves) v v' true)

first_release-again :
    (coin : Bytes) (amount : ℕ) (key : Bytes) (x : Option (Unit {0})) (v v' : Vault)
    → first_release coin amount key x v ≡ ok (v', false)
    → (v' ≡ v) × (x ≡ some tt)
unfolding first_release
first_release-again coin amount key (some _) v v' e = ground arith
first_release-again coin amount key none v v' e =
    ground (arith, split_coin-puts coin amount key (find coin v.reserves) v v' false)

-- A call that succeeds leaves its burn marked, also when it releases nothing, and no mark is lost.
module _ (coin : Bytes) (amount nonce : ℕ) (v v' : Vault) where
  pub do_withdraw-marks :
      (b : Bool)
      → do_withdraw coin amount nonce v ≡ ok (v', b)
      → find (withdraw_key coin nonce) v'.processed_withdrawals ≡ some tt
  unfolding do_withdraw
  do_withdraw-marks true e =
      ap (find (withdraw_key coin nonce)) (first_release-puts coin amount _ _ v v' e).3
      ∙ find-put (withdraw_key coin nonce) (withdraw_key coin nonce) tt v.processed_withdrawals
      ∙ rw (same_bytes_refl (withdraw_key coin nonce)) refl
  do_withdraw-marks false e =
      let p = first_release-again coin amount _ _ v v' e in
      ap (λ u. find (withdraw_key coin nonce) u.processed_withdrawals) p.0 ∙ p.1

  pub do_withdraw-keeps :
      (b : Bool) (key : Bytes)
      → do_withdraw coin amount nonce v ≡ ok (v', b)
      → find key v.processed_withdrawals ≡ some tt
      → find key v'.processed_withdrawals ≡ some tt
  unfolding do_withdraw
  do_withdraw-keeps true key e h =
      ap (find key) (first_release-puts coin amount _ _ v v' e).3
      ∙ find-put (withdraw_key coin nonce) key tt v.processed_withdrawals
      ∙ kept (same_bytes (withdraw_key coin nonce) key) _ h
    where
      kept : (c : Bool) (x : Option (Unit {0})) → x ≡ some tt → (if c then some tt else x) ≡ some tt
      kept true x h = refl
      kept false x h = h
  do_withdraw-keeps false key e h =
      ap (λ u. find key u.processed_withdrawals) (first_release-again coin amount _ _ v v' e).0 ∙ h

reserve-put :
    (coin c : Bytes) (n : ℕ) (v v' : Vault)
    → v'.reserves ≡ put coin n v.reserves
    → reserve c v' ≡ (if same_bytes coin c then n else reserve c v)
unfolding reserve
reserve-put coin c n v v' e =
    ap (λ m. held (find c m)) e
    ∙ ap held (find-put coin c n v.reserves)
    ∙ held_if (same_bytes coin c) n (find c v.reserves)
  where
    held_if :
        (b : Bool) (n : ℕ) (x : Option ℕ)
        → held (if b then some n else x) ≡ (if b then n else held x)
    held_if true n x = refl
    held_if false n x = refl

same_reserve :
    (coin c : Bytes) (v : Vault) → same_bytes coin c ≡ true → reserve coin v ≡ reserve c v
same_reserve coin c v h = ap (λ x. reserve x v) (same_bytes→eq coin c h)

abbrev seen : Option (Unit {0}) → ℕ
seen none = 0
seen (some _) = 1

-- What a vault owes: its reserves and what it released make up what it held and locked, and no burn
-- was released more often than it is marked.
record Solvent (v0 : Vault) (b : Book) : Type 0 where
  balance : (c : Bytes) → reserve c b.0 + released_of c b.1 ≡ reserve c v0 + locked_of c b.1
  marked : (key : Bytes) → releases key b.1 ≤ seen (find key b.0.processed_withdrawals)

book_deposit-Solvent :
    (v0 : Vault) (coin : Bytes) (amount : ℕ) (recipient : Bytes) (b : Book) (x : Result Abort Vault)
    → deposit coin amount recipient b.0 ≡ x
    → Solvent v0 b
    → Solvent v0 (book_deposit coin amount x b)
unfolding book_deposit locked_of released_of releases
book_deposit-Solvent v0 coin amount recipient b (err _) e s = s
book_deposit-Solvent v0 coin amount recipient b (ok v) e s = record {
  balance = λ c. elim (Bool-cases (same_bytes coin c)) [
    | inl t ↦ ground (
      arith,
      t,
      s.balance c,
      same_reserve coin c b.0 t,
      reserve-put coin c _ b.0 v (deposit-puts coin amount recipient b.0 v e).0,
    )
    | inr f ↦ ground (
      arith,
      f,
      s.balance c,
      reserve-put coin c _ b.0 v (deposit-puts coin amount recipient b.0 v e).0,
    )
  ];
  marked = λ key. rw ((deposit-puts coin amount recipient b.0 v e).1) (s.marked key);
}

book_withdraw-Solvent :
    (v0 : Vault) (coin : Bytes) (amount nonce : ℕ) (b : Book) (x : Result Abort (Vault × Bool))
    → do_withdraw coin amount nonce b.0 ≡ x
    → Solvent v0 b
    → Solvent v0 (book_withdraw coin amount nonce x b)
unfolding book_withdraw do_withdraw locked_of released_of releases
book_withdraw-Solvent v0 coin amount nonce b (err _) e s = s
book_withdraw-Solvent v0 coin amount nonce b (ok (v, false)) e s =
    subst (λ u. Solvent v0 (u, b.1)) (sym ((first_release-again coin amount _ _ b.0 v e).0)) s
book_withdraw-Solvent v0 coin amount nonce b (ok (v, true)) e s =
    let p =
      first_release-puts coin amount (withdraw_key coin nonce)
        (find (withdraw_key coin nonce) b.0.processed_withdrawals) b.0 v e in
    record {
      balance = λ c. elim (Bool-cases (same_bytes coin c)) [
        | inl t ↦
            ground
              (arith, t, p, s.balance c, same_reserve coin c b.0 t, reserve-put coin c _ b.0 v p.2)
        | inr f ↦ ground (arith, f, s.balance c, reserve-put coin c _ b.0 v p.2)
      ];
      marked = λ key. elim (Bool-cases (same_bytes (withdraw_key coin nonce) key)) [
        | inl t ↦ ground (
          arith,
          t,
          p,
          s.marked key,
          ap seen (ap (find key) p.3),
          ap seen (find-put (withdraw_key coin nonce) key tt b.0.processed_withdrawals),
          find-same (withdraw_key coin nonce) key b.0.processed_withdrawals t,
        )
        | inr f ↦ ground (
          arith,
          f,
          s.marked key,
          ap seen (ap (find key) p.3),
          ap seen (find-put (withdraw_key coin nonce) key tt b.0.processed_withdrawals),
        )
      ];
    }

at_first : (v : Vault) → Solvent v (v, [])
unfolding locked_of released_of releases
at_first v = record { balance = λ c. refl; marked = λ key. omega arith }

call-Solvent : (v0 : Vault) (x : VaultCall) (b : Book) → Solvent v0 b → Solvent v0 (call x b)
unfolding call
call-Solvent v0 (deposits coin amount recipient) b s =
    book_deposit-Solvent v0 coin amount recipient b _ refl s
call-Solvent v0 (withdraws coin amount nonce) b s =
    book_withdraw-Solvent v0 coin amount nonce b _ refl s

calls-Solvent :
    (v0 : Vault) (cs : List VaultCall) (b : Book) → Solvent v0 b → Solvent v0 (calls cs b)
unfolding calls
calls-Solvent v0 [] b s = s
calls-Solvent v0 (x ∷ cs) b s = calls-Solvent v0 cs (call x b) (call-Solvent v0 x b s)

-- After any deposits and withdrawals of a vault, aborts included, the reserve of a coin type and what
-- was released of it since are what it held at first and what was locked since; and no burn of a coin
-- type was released more than once.
pub calls_balance :
    (v : Vault) (cs : List VaultCall) (coin : Bytes) (nonce : ℕ)
    → (reserve coin (calls cs (v, [])).0 + released_of coin (calls cs (v, [])).1
        ≡ reserve coin v + locked_of coin (calls cs (v, [])).1)
      × (releases (withdraw_key coin nonce) (calls cs (v, [])).1 ≤ 1)
calls_balance v cs coin nonce =
    let s = calls-Solvent v cs (v, []) (at_first v) in
    (s.balance coin, once _ _ (s.marked (withdraw_key coin nonce)))
  where
    once : (n : ℕ) (x : Option (Unit {0})) → n ≤ seen x → n ≤ 1
    once n none h = omega (arith, h)
    once n (some _) h = h
