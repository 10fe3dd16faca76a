-- ===== src/Bridge/Chains/Updates.antt =====
-- Changes of both chains that keep what holds of them.
use podseq.Prelude.{
  ℕ, suc, ◌≤◌, ◌<◌, ◌≡◌, refl, sym, ap, ◌∙◌, ◌⊎◌, inl, inr, false, some, List, arith, ◌==◌, ==_iff,
  ==_refl, Bool-cases,
}
use mathlib.Core.Path.{subst}
use podseq.Core.Octets.{Bytes}
use podseq.Store.Map.{get, insert, get-insert}
use podseq.Bridge.{DepositRecord}
use podseq.Bridge.Token.{Token}
use podseq.Bridge.Vault.{Vault}
use podseq.Bridge.Chains.{Chains, Sent, DepositMinted, Outside}
use podseq.Bridge.Chains.Sound.{
  In, Origin, Deposited, MintedFirst, TxFine, TokenFine, Extends, Extends-trans, Deposited-kept,
  Delivered-kept, TxFine-kept, TokenFine-kept, SentLogs, LogsFine-kept, CreatedFine,
  CreatedFine-kept, Sound,
}

pub inserted :
    {V : Type 0} (k j : ℕ) (v x : V) (m : List (ℕ × V))
    → get j (insert k v m) ≡ some x
    → ((j ≡ k) × (x ≡ v)) ⊎ (get j m ≡ some x)
inserted k j v x m e = elim (Bool-cases (k == j)) [
  | inl t ↦ inl (sym ((==_iff k j).0 t), ground (arith, get-insert k j v m))
  | inr f ↦ inr (ground (arith, get-insert k j v m))
]

-- A write of a key that is not there keeps the others.
pub insert-kept :
    {V : Type 0} (k j : ℕ) (v x : V) (m : List (ℕ × V))
    → (j ≡ k → ⊥)
    → get j m ≡ some x
    → get j (insert k v m) ≡ some x
insert-kept k j v x m h e = elim (Bool-cases (k == j)) [
  | inl t ↦ absurd (h (sym ((==_iff k j).0 t)))
  | inr f ↦ ground (arith, get-insert k j v m)
]

pub insert-HasToken :
    (a b : ℕ) (t : Token) (m : List (ℕ × Token))
    → (u : Token) × (get a m ≡ some u)
    → (u : Token) × (get a (insert b t m) ≡ some u)
insert-HasToken a b t m (u, e) = elim (Bool-cases (b == a)) [
  | inl h ↦ (t, ground (arith, get-insert b a t m))
  | inr f ↦ (u, ground (arith, get-insert b a t m))
]

pub get-insert_self :
    {V : Type 0} (k : ℕ) (v : V) (m : List (ℕ × V)) → get k (insert k v m) ≡ some v
get-insert_self k v m = ground (arith, get-insert k k v m, ==_refl k)

module _ (o : Outside) where
  abbrev pub Later : ℕ → Chains → Chains → Type 0
  Later high w w' = Sound o high w' × Extends w w'

  pub Later-trans : {high : ℕ} {u v w : Chains} → Later high u v → Later high v w → Later high u w
  Later-trans (s, f) (t, g) = (t, Extends-trans f g)

  -- What is new has to be looked at only.
  pub Sound-Extends :
      {high : ℕ} {w w' : Chains}
      → Extends w w'
      → Sound o high w
      → ((c c' : Bytes) (a : ℕ) → Origin o c a w' → Origin o c' a w' → c ≡ c')
      → ((n : ℕ) (d : DepositRecord)
          → get n w'.vault.deposits ≡ some d
          → n < w'.vault.deposit_nonce)
      → ((i : ℕ) (s : Sent) → get i w'.sent ≡ some s → i < w'.next_hash)
      → ((m : DepositMinted)
          → In m w'.minted
          → In m w.minted
            ⊎ ((m.nonce ≤ high)
                × Deposited o m.nonce m.token m.recipient m.amount w'
                × (m.recipient ≡ 0 → ⊥)
                × MintedFirst m.token w'))
      → ((i : ℕ) (s : Sent)
          → get i w'.sent ≡ some s
          → (get i w.sent ≡ some s)
            ⊎ (TxFine o high w' s.tx.to s.tx.input s.status × SentLogs o w' s.tx.input s.logs))
      → ((a : ℕ) (t : Token)
          → get a w'.tokens ≡ some t
          → (get a w.tokens ≡ some t) ⊎ TokenFine a t w')
      → CreatedFine o w' w'.created
      → Sound o high w'
  Sound-Extends {high} {w} {w'} g s oo db sb mf sf tf cf = record {
    deposits_below = db;
    sent_below = sb;
    minted_fine = λ m i. elim (mf m i) [
      | inl old ↦
          let (l, d, z, f) = s.minted_fine m old in
          (
            l,
            Deposited-kept o m.nonce m.token m.recipient m.amount g d,
            z,
            (f.0, f.1, g.minted_kept _ f.2),
          )
      | inr new ↦ new
    ];
    sent_fine = λ i t e. elim (sf i t e) [
      | inl old ↦
          let (f, l) = s.sent_fine i t old in
          (TxFine-kept o high t.tx.to t.tx.input t.status g f, (LogsFine-kept o t.logs g l.0, l.1))
      | inr new ↦ new
    ];
    tokens_fine = λ a t e. elim (tf a t e) [
      | inl old ↦ TokenFine-kept a t g (s.tokens_fine a t old)
      | inr new ↦ new
    ];
    created_fine = cf;
    one_origin = oo;
    delivered = λ n h. Delivered-kept o n g (s.delivered n h);
  }

  -- A change of the vault that keeps its deposits, or adds the next one.
  abbrev pub NextVault : Vault → Vault → Type 0
  NextVault v v' =
      ((v'.deposits ≡ v.deposits) × (v'.deposit_nonce ≡ v.deposit_nonce))
      ⊎ ((d : DepositRecord) × (v'.deposits ≡ insert v.deposit_nonce d v.deposits)
          × (v'.deposit_nonce ≡ suc v.deposit_nonce))

  vault_kept :
      (v v' : Vault)
      → ((n : ℕ) (d : DepositRecord) → get n v.deposits ≡ some d → n < v.deposit_nonce)
      → NextVault v v'
      → ((n : ℕ) (d : DepositRecord) → get n v.deposits ≡ some d → get n v'.deposits ≡ some d)
        × ((n : ℕ) (d : DepositRecord) → get n v'.deposits ≡ some d → n < v'.deposit_nonce)
  vault_kept v v' below (inl (e, f)) = (
    λ n d h. ap (get n) e ∙ h,
    λ n d h. let l = below n d (sym (ap (get n) e) ∙ h) in omega (arith, f),
  )
  vault_kept v v' below (inr (d0, e, f)) = (
    λ n d h.
        let l = below n d h in
        ap (get n) e ∙ insert-kept v.deposit_nonce n d0 d v.deposits (λ p. omega arith) h,
    λ n d h. elim (inserted v.deposit_nonce n d0 d v.deposits (sym (ap (get n) e) ∙ h)) [
      | inl (p, q) ↦ omega (arith, f)
      | inr old ↦ let l = below n d old in omega (arith, f)
    ],
  )

  pub Later-vault :
      {high : ℕ} (w : Chains) (v : Vault)
      → Sound o high w
      → NextVault w.vault v
      → Later high w (record w { vault = v })
  Later-vault {high} w v s n =
      let (kept, below) = vault_kept w.vault v s.deposits_below n in
      let g : Extends w (record w { vault = v }) = record {
        deposits_kept = kept;
        minted_kept = λ m i. i;
        tokens_kept = λ a h. h;
        sent_kept = λ i t e. (t, e, refl);
        created_kept = λ e i. i;
        file_kept = refl;
      } in
      (
        Sound-Extends g s s.one_origin below s.sent_below (λ m i. inl i) (λ i t e. inl e)
            (λ a t e. inl e) (CreatedFine-kept o w.created g s.created_fine),
        g,
      )

  -- A token that changes without a mint.
  pub Later-token :
      {high : ℕ} (w : Chains) (a : ℕ) (t u : Token)
      → Sound o high w
      → get a w.tokens ≡ some t
      → u.minted_any ≡ t.minted_any
      → u.last_minted_deposit_nonce ≡ t.last_minted_deposit_nonce
      → Later high w (record w { tokens = insert a u w.tokens })
  Later-token w a t u s e p q =
      let g : Extends w (record w { tokens = insert a u w.tokens }) = record {
        deposits_kept = λ n d h. h;
        minted_kept = λ m i. i;
        tokens_kept = λ b h. insert-HasToken b a u w.tokens h;
        sent_kept = λ i x h. (x, h, refl);
        created_kept = λ e i. i;
        file_kept = refl;
      } in
      (
        Sound-Extends g s s.one_origin s.deposits_below s.sent_below (λ m i. inl i) (λ i x h. inl h)
            (λ b x h. elim (inserted a b u x w.tokens h) [
              | inl (i, j) ↦
                  let (z, m) = s.tokens_fine a t e in
                  inr (
                    subst (λ y. y.minted_any ≡ false → y.last_minted_deposit_nonce ≡ 0) (sym j)
                        (λ k. q ∙ z (sym p ∙ k)),
                    λ k.
                        let (r, am, l) = m (sym p ∙ ap (λ y. y.minted_any) (sym j) ∙ k) in
                        (r, am, subst (λ y. In y w.minted) (cc) l),
                  )
              | inr old ↦ inl old
            ])
            (CreatedFine-kept o w.created g s.created_fine),
        g,
      )
