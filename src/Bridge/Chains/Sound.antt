-- ===== src/Bridge/Chains/Sound.antt =====
-- What holds of both chains while the relayer works, and what later states of them keep.
use podseq.Prelude.{
  ℕ, suc, ltb, ltb→lt, Bool-cases, ◌≤◌, ◌<◌, ◌≡◌, refl, sym, ◌∙◌, ◌⊎◌, inl, inr, Bool, true, false,
  Option, some, List, [], ◌∷◌, ok, All, arith,
}
use mathlib.Core.Path.{subst}
use podseq.Core.Octets.{Bytes}
use podseq.Store.Map.{get}
use podseq.Bridge.Abi.{RpcLog, from_be_bytes, parse_bridge_created_log}
use podseq.Bridge.{DepositRecord, Calldata, mint, create_bridge}
use podseq.Bridge.Token.{Token}
use podseq.Bridge.Chains.{Chains, Sent, DepositMinted, Outside}

abbrev pub In : {A : Type 0} → A → List A → Type 0
In x [] = ⊥
In x (y ∷ ys) = (x ≡ y) ⊎ In x ys

abbrev pub HasToken : ℕ → Chains → Type 0
HasToken a w = (t : Token) × (get a w.tokens ≡ some t)

-- The factory has logged the creation of the token for this coin type.
abbrev pub Origin : Outside → Bytes → ℕ → Chains → Type 0
Origin o coin a w =
    (e : ℕ × RpcLog) × In e w.created
    × (parse_bridge_created_log o.texts o.created_topic e.1 ≡ ok (coin, a))

-- The token was created for the coin type, as it is spelled or as it is in normal form.
abbrev pub OfCoin : Outside → Bytes → ℕ → Chains → Type 0
OfCoin o coin_type a w =
    (coin : Bytes) × ((coin ≡ coin_type) ⊎ (o.normalize_coin_type coin ≡ ok coin_type))
    × Origin o coin a w

abbrev pub Stands : Outside → Bytes → ℕ → Chains → Type 0
Stands o coin_type a w = HasToken a w × OfCoin o coin_type a w

-- The vault holds this deposit under the nonce, and the token is of its coin type.
abbrev pub Deposited : Outside → ℕ → ℕ → ℕ → ℕ → Chains → Type 0
Deposited o n token recipient amount w =
    (d : DepositRecord) × (get n w.vault.deposits ≡ some d)
    × (recipient ≡ from_be_bytes 0 d.recipient_l2)
    × (amount ≡ d.amount)
    × OfCoin o d.coin_type token w

-- The deposit of the nonce was minted on a token of its coin type, to its recipient and in its amount.
abbrev pub Delivered : Outside → ℕ → Chains → Type 0
Delivered o n w =
    (m : DepositMinted) × In m w.minted
    × (m.nonce ≡ n)
    × Deposited o n m.token m.recipient m.amount w

abbrev pub event : ℕ → ℕ → ℕ → ℕ → DepositMinted
event token nonce recipient amount = record {
  token = token;
  nonce = nonce;
  recipient = recipient;
  amount = amount;
}

abbrev pub TxFine : Outside → ℕ → Chains → ℕ → Calldata → Option Bool → Type 0
TxFine o high w to (mint r a n) status =
    (n ≤ high)
    × Deposited o n to r a w
    × HasToken to w
    × (status ≡ some true → In (event to n r a) w.minted)
TxFine o high w to (create_bridge _ _ _) status = Unit {0}

abbrev pub TokenFine : ℕ → Token → Chains → Type 0
TokenFine a t w =
    (t.minted_any ≡ false → t.last_minted_deposit_nonce ≡ 0)
    × (t.minted_any ≡ true
        → (r : ℕ) × (x : ℕ) × In (event a t.last_minted_deposit_nonce r x) w.minted)

-- The token has minted the first deposit of the vault.
abbrev pub MintedFirst : ℕ → Chains → Type 0
MintedFirst a w = (r : ℕ) × (x : ℕ) × In (event a 0 r x) w.minted

-- What later states keep.
pub record Extends (w w' : Chains) : Type 0 where
  pub deposits_kept :
      (n : ℕ) (d : DepositRecord)
      → get n w.vault.deposits ≡ some d
      → get n w'.vault.deposits ≡ some d
  pub minted_kept : (m : DepositMinted) → In m w.minted → In m w'.minted
  pub tokens_kept : (a : ℕ) → HasToken a w → HasToken a w'
  pub sent_kept :
      (i : ℕ) (s : Sent)
      → get i w.sent ≡ some s
      → (s' : Sent) × (get i w'.sent ≡ some s') × (s'.tx ≡ s.tx)
  pub created_kept : (e : ℕ × RpcLog) → In e w.created → In e w'.created
  pub file_kept : w'.file ≡ w.file

pub Extends-refl : (w : Chains) → Extends w w
Extends-refl w = record {
  deposits_kept = λ n d e. e;
  minted_kept = λ m i. i;
  tokens_kept = λ a h. h;
  sent_kept = λ i s e. (s, e, refl);
  created_kept = λ e i. i;
  file_kept = refl;
}

pub Extends-trans : {u v w : Chains} → Extends u v → Extends v w → Extends u w
Extends-trans f g = record {
  deposits_kept = λ n d e. g.deposits_kept n d (f.deposits_kept n d e);
  minted_kept = λ m i. g.minted_kept m (f.minted_kept m i);
  tokens_kept = λ a h. g.tokens_kept a (f.tokens_kept a h);
  sent_kept = λ i s e.
      let (s', e', p) = f.sent_kept i s e in
      let (s'', e'', q) = g.sent_kept i s' e' in (s'', e'', q ∙ p);
  created_kept = λ e i. g.created_kept e (f.created_kept e i);
  file_kept = g.file_kept ∙ f.file_kept;
}

pub Stands-kept :
    {w w' : Chains} (o : Outside) (coin_type : Bytes) (a : ℕ)
    → Extends w w'
    → Stands o coin_type a w
    → Stands o coin_type a w'
Stands-kept o coin_type a g (t, (c, s, (e, i, p))) =
    (g.tokens_kept a t, (c, s, (e, g.created_kept e i, p)))

pub Deposited-kept :
    {w w' : Chains} (o : Outside) (n t r a : ℕ)
    → Extends w w'
    → Deposited o n t r a w
    → Deposited o n t r a w'
Deposited-kept o n t r a g (d, e, p, q, (c, s, (l, i, h))) =
    (d, g.deposits_kept n d e, p, q, (c, s, (l, g.created_kept l i, h)))

pub Delivered-kept :
    {w w' : Chains} (o : Outside) (n : ℕ) → Extends w w' → Delivered o n w → Delivered o n w'
Delivered-kept o n g (m, i, e, d) =
    (m, g.minted_kept m i, e, Deposited-kept o n m.token m.recipient m.amount g d)

pub TxFine-kept :
    {w w' : Chains} (o : Outside) (high to : ℕ) (c : Calldata) (status : Option Bool)
    → Extends w w'
    → TxFine o high w to c status
    → TxFine o high w' to c status
TxFine-kept o high to (mint r a n) status g (l, d, t, i) = (
  l,
  Deposited-kept o n to r a g d,
  g.tokens_kept to t,
  λ e. g.minted_kept (event to n r a) (i e),
)
TxFine-kept o high to (create_bridge _ _ _) status g h = tt

pub TxFine-higher :
    (o : Outside) (w : Chains) (high high' to : ℕ) (c : Calldata) (status : Option Bool)
    → high ≤ high'
    → TxFine o high w to c status
    → TxFine o high' w to c status
TxFine-higher o w high high' to (mint r a n) status h (l, d, t, i) = (omega arith, d, t, i)
TxFine-higher o w high high' to (create_bridge _ _ _) status h _ = tt

pub TokenFine-kept :
    {w w' : Chains} (a : ℕ) (t : Token) → Extends w w' → TokenFine a t w → TokenFine a t w'
TokenFine-kept a t g (z, i) = (z, λ e. let (r, x, h) = i e in (r, x, g.minted_kept _ h))

module _ (o : Outside) where
  -- A creation log names a token that is there.
  abbrev pub LogFine : Chains → RpcLog → Type 0
  LogFine w log =
      (coin : Bytes) (a : ℕ)
      → parse_bridge_created_log o.texts o.created_topic log ≡ ok (coin, a)
      → HasToken a w × Origin o coin a w

  LogFine-kept : {w w' : Chains} (log : RpcLog) → Extends w w' → LogFine w log → LogFine w' log
  LogFine-kept log g l c a p =
      let (t, (e, i, q)) = l c a p in (g.tokens_kept a t, (e, g.created_kept e i, q))

  -- The logs of a creation are of the coin type that was asked for.
  abbrev pub LogsOf : Bytes → List RpcLog → Type 0
  LogsOf coin_type logs =
      All
        (λ log.
          (coin : Bytes) (a : ℕ)
          → parse_bridge_created_log o.texts o.created_topic log ≡ ok (coin, a)
          → coin ≡ coin_type)
        logs

  abbrev pub OfCall : Calldata → List RpcLog → Type 0
  OfCall c logs =
      (name symbol coin_type : Bytes)
      → c ≡ create_bridge name symbol coin_type
      → LogsOf coin_type logs

  abbrev pub SentLogs : Chains → Calldata → List RpcLog → Type 0
  SentLogs w c logs = All (LogFine w) logs × OfCall c logs

  pub LogsFine-kept :
      {w w' : Chains} (logs : List RpcLog)
      → Extends w w'
      → All (LogFine w) logs
      → All (LogFine w') logs
  LogsFine-kept [] g h = tt
  LogsFine-kept (log ∷ logs) g (l, h) = (LogFine-kept log g l, LogsFine-kept logs g h)

  abbrev pub CreatedFine : Chains → List (ℕ × RpcLog) → Type 0
  CreatedFine w es = All (λ e. LogFine w e.1) es

  pub CreatedFine-kept :
      {w w' : Chains} (es : List (ℕ × RpcLog)) → Extends w w' → CreatedFine w es → CreatedFine w' es
  CreatedFine-kept [] g h = tt
  CreatedFine-kept (e ∷ es) g (l, h) = (LogFine-kept e.1 g l, CreatedFine-kept es g h)

  pub origin_fine :
      (w : Chains) (es : List (ℕ × RpcLog)) (e : ℕ × RpcLog)
      → CreatedFine w es
      → In e es
      → LogFine w e.1
  origin_fine w [] e h i = absurd i
  origin_fine w (x ∷ es) e (l, h) (inl p) = subst (λ k. LogFine w k.1) (sym p) l
  origin_fine w (x ∷ es) e (l, h) (inr i) = origin_fine w es e h i

  -- `high` is the next nonce that no relayer has passed.
  pub record Sound (high : ℕ) (w : Chains) : Type 0 where
    pub deposits_below :
        (n : ℕ) (d : DepositRecord) → get n w.vault.deposits ≡ some d → n < w.vault.deposit_nonce
    pub sent_below : (i : ℕ) (s : Sent) → get i w.sent ≡ some s → i < w.next_hash
    pub minted_fine :
        (m : DepositMinted)
        → In m w.minted
        → (m.nonce ≤ high)
          × Deposited o m.nonce m.token m.recipient m.amount w
          × (m.recipient ≡ 0 → ⊥)
          × MintedFirst m.token w
    pub sent_fine :
        (i : ℕ) (s : Sent)
        → get i w.sent ≡ some s
        → TxFine o high w s.tx.to s.tx.input s.status × SentLogs w s.tx.input s.logs
    pub tokens_fine : (a : ℕ) (t : Token) → get a w.tokens ≡ some t → TokenFine a t w
    pub created_fine : CreatedFine w w.created
    pub one_origin : (c c' : Bytes) (a : ℕ) → Origin o c a w → Origin o c' a w → c ≡ c'
    pub delivered : (n : ℕ) → n < high → Delivered o n w

  pub Sound-higher :
      {high : ℕ} {w : Chains} → Sound high w → Delivered o high w → Sound (suc high) w
  Sound-higher {high} {w} s d = record {
    deposits_below = s.deposits_below;
    sent_below = s.sent_below;
    minted_fine = λ m i. let (l, h, z, f) = s.minted_fine m i in (omega arith, h, z, f);
    sent_fine = λ i t e.
        let (f, l) = s.sent_fine i t e in
        (TxFine-higher o w high (suc high) t.tx.to t.tx.input t.status (omega arith) f, l);
    tokens_fine = s.tokens_fine;
    created_fine = s.created_fine;
    one_origin = s.one_origin;
    delivered = λ n h. elim (Bool-cases (ltb n high)) [
      | inl t ↦ s.delivered n (ltb→lt n high t)
      | inr f ↦ let e : n ≡ high = ground arith in subst (λ k. Delivered o k w) (sym e) d
    ];
  }
