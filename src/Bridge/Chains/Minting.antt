-- ===== src/Bridge/Chains/Minting.antt =====
-- What the relayer's mint calls tell of both chains: a mint cursor at or above the nonce, and a receipt
-- of success, are each of a deposit that was minted.
use podseq.Prelude.{
  ℕ, zero, suc, ◌≤◌, ◌<◌, ◌≡◌, refl, sym, ◌∙◌, inl, inr, Bool, true, false, ◌&&◌, Option, none,
  some, ok, arith, leb, ltb, ltb→lt, Bool-cases,
}
use mathlib.Core.Path.{subst}
use podseq.Call.Ensures.{
  Ensures, Ensures-pure, Ensures-lift, Ensures-bind, Ensures-weaken, Ensures-attempt,
}
use podseq.Core.Octets.{Bytes}
use podseq.Store.Map.{get}
use podseq.Bridge.Abi.{slice, from_be_bytes}
use podseq.Bridge.{last_minted_deposit_nonce, minted_any}
use podseq.Bridge.Token.{Token}
use podseq.Bridge.Requests.{eth_call_u64, eth_call_bool, or_zero, eth_mint_cursor, last_is_set}
use podseq.Bridge.Chains.{Chains, Outside, word_of, relayer}
use podseq.Bridge.Chains.Sound.{Deposited, Delivered, Delivered-kept, event, Sound}
use podseq.Bridge.Chains.Context.{Spells, Kept, At, Ensures-ask}

module _ (o : Outside) (spells : Spells o) (high n : ℕ) (le : n ≤ high) where
  -- A token at or above the nonce has minted its deposit.
  minted_at :
      (w : Chains) (a : ℕ) (t : Token)
      → Sound o high w
      → get a w.tokens ≡ some t
      → t.minted_any ≡ true
      → n ≤ t.last_minted_deposit_nonce
      → Delivered o n w
  minted_at w a t s e m l = elim (Bool-cases (ltb n high)) [
    | inl h ↦ s.delivered n (ltb→lt n high h)
    | inr h ↦
        let (r, x, i) = (s.tokens_fine a t e).1 m in
        let (u, d, z, f) = s.minted_fine (event a t.last_minted_deposit_nonce r x) i in
        let same : t.last_minted_deposit_nonce ≡ n = ground arith in
        (
          event a t.last_minted_deposit_nonce r x,
          i,
          same,
          subst (λ k. Deposited o k a r x w) same d,
        )
  ]

  abbrev LastTells : Bytes → Chains → Type 0
  LastTells bytes w =
      (low : Bytes)
      → slice 24 32 bytes ≡ ok low
      → 0 < from_be_bytes 0 low
      → n ≤ from_be_bytes 0 low
      → Delivered o n w

  abbrev AnyTells : Bytes → Chains → Type 0
  AnyTells bytes w = last_is_set bytes ≡ true → n ≡ 0 → Delivered o n w

  last_tells :
      (w : Chains) (a : ℕ) (x : Option Token)
      → Sound o high w
      → get a w.tokens ≡ x
      → LastTells (word_of o last_minted_deposit_nonce x) w
  unfolding word_of slice
  last_tells w a none s e low h p l = ground arith
  last_tells w a (some t) s e low h p l =
      let q = spells.last_word t low h in
      elim (Bool-cases t.minted_any) [
        | inl m ↦ minted_at w a t s e m (omega (arith, q))
        | inr m ↦ absurd (let z = (s.tokens_fine a t e).0 m in omega (arith, q, z))
      ]

  any_tells :
      (w : Chains) (a : ℕ) (x : Option Token)
      → Sound o high w
      → get a w.tokens ≡ x
      → AnyTells (word_of o minted_any x) w
  unfolding word_of
  any_tells w a none s e m z = cc
  any_tells w a (some t) s e m z = minted_at w a t s e (sym (spells.any_word t) ∙ m) (omega arith)

  abbrev pub LastDelivers : ℕ → Chains → Type 0
  LastDelivers v w = 0 < v → n ≤ v → Delivered o n w

  abbrev pub AnyDelivers : Bool → Chains → Type 0
  AnyDelivers any w = any ≡ true → n ≡ 0 → Delivered o n w

  module _ (F : Chains → Type 0) (kept : Kept F) where
    Kept-delivers : {H : Type 0} → Kept (λ w. F w × (H → Delivered o n w))
    Kept-delivers w w' g (f, d) = (kept w w' g f, λ h. Delivered-kept o n g (d h))

    eth_call_u64-Ensures :
        (a : ℕ)
        → Ensures
            (At o high n F)
            (eth_call_u64 (relayer o) a last_minted_deposit_nonce)
            (λ v. At o high n (λ w. F w × LastDelivers v w))
            (λ _. At o high n F)
    unfolding eth_call_u64 relayer
    eth_call_u64-Ensures a =
        Ensures-bind
          (Ensures-ask o high n F kept (λ w. word_of o last_minted_deposit_nonce (get a w.tokens))
            LastTells (λ w s f. last_tells w a (get a w.tokens) s refl))
          λ bytes.
            Ensures-bind (Ensures-lift _ (λ _ _ st p. p) (λ _ _ st p. (p.0, p.1, p.2.0))) λ _.
              Ensures-bind
                (Ensures-lift
                  {Q = λ low. At o high n (λ w. F w × LastDelivers (from_be_bytes 0 low) w)} _
                  (λ low e st p. (p.0, p.1, (p.2.0, p.2.1 low e))) (λ _ _ st p. (p.0, p.1, p.2.0)))
                λ low. Ensures-pure _ (λ st p. p)

    eth_call_bool-Ensures :
        (a : ℕ)
        → Ensures
            (At o high n F)
            (eth_call_bool (relayer o) a minted_any)
            (λ any. At o high n (λ w. F w × AnyDelivers any w))
            (λ _. At o high n F)
    unfolding eth_call_bool relayer
    eth_call_bool-Ensures a =
        Ensures-bind
          (Ensures-ask o high n F kept (λ w. word_of o minted_any (get a w.tokens)) AnyTells
            (λ w s f. any_tells w a (get a w.tokens) s refl))
          λ bytes. Ensures-pure _ (λ st p. p)

  delivers :
      (any : Bool) (v : ℕ) (w : Chains)
      → LastDelivers v w
      → AnyDelivers any w
      → (any && leb n v) ≡ true
      → Delivered o n w
  delivers false v w l a h = cc
  delivers true zero w l a h = a refl (ground arith)
  delivers true (suc v) w l a h = l (omega arith) (ground arith)

  -- What the mint cursor reports of the nonce.
  pub eth_mint_cursor-Ensures :
      (F : Chains → Type 0) (kept : Kept F) (a : ℕ)
      → Ensures
          (At o high n F)
          (eth_mint_cursor (relayer o) a)
          (λ x. At o high n (λ w. F w × ((x.0 && leb n x.1) ≡ true → Delivered o n w)))
          (λ _. At o high n F)
  unfolding eth_mint_cursor
  eth_mint_cursor-Ensures F kept a =
      Ensures-bind
        (Ensures-attempt (
          Ensures-weaken (λ _ p. p) (λ v st p. p)
            (λ e st p. (p.0, p.1, (p.2, λ z. absurd (omega arith))))
            (eth_call_u64-Ensures F kept a)))
        λ last.
          Ensures-bind
            (Ensures-weaken (λ _ p. p) (λ _ _ p. p) (λ _ st p. (p.0, p.1, p.2.0))
              (eth_call_bool-Ensures (λ w. F w × LastDelivers (or_zero (relayer o) last) w)
                (λ w w' g f. (kept w w' g f.0, λ z l. Delivered-kept o n g (f.1 z l))) a))
            λ any. Ensures-pure _ (λ st p.
              (p.0, p.1, (p.2.0.0, delivers any (or_zero (relayer o) last) st.world p.2.0.1 p.2.1)))
