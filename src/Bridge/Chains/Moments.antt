-- ===== src/Bridge/Chains/Moments.antt =====
-- Whatever happens on both chains before a request keeps what holds of them.
use podseq.Prelude.{
  ℕ, ◌≤◌, ◌≡◌, refl, sym, ap, suc, inl, inr, Bool, true, false, Option, none, some, List, [], ◌∷◌,
  Result, ok, err, Bool-cases, if◌then◌else◌, ◌&&◌,
}
use mathlib.Core.Path.{subst}
use podseq.Store.Map.{get}
use podseq.Bridge.Abi.{RpcLog}
use podseq.Bridge.{Calldata, mint, create_bridge}
use podseq.Bridge.Token.{Token, Revert, mint_token, initiate_withdrawal, transfer}
use podseq.Bridge.Vault.{Vault, Abort, deposit}
use podseq.Bridge.Chains.{
  Chains, Sent, Outside, Event, Moment, deposits, mines, creates, burns, moves, produces, passes,
  names, tells_coin, mined, deploy, vacant, emit, happen, happen_all, elapse, moment, later,
  set_vault, set_token, on_token, mine, mine_pending, mine_input, mine_mint, mine_minted,
}
use podseq.Bridge.Chains.Sound.{
  OfCall, Deposited-kept, HasToken, Deposited, MintedFirst, event, TxFine, Extends, Extends-refl,
  Sound,
}
use podseq.Bridge.Chains.Updates.{Later, Later-trans, NextVault, Later-vault, Later-token}
use podseq.Bridge.Chains.Events.{Later-mined, Later-emit, Later-deploy}
use podseq.Bridge.Chains.Effects.{
  mint_token-ok, initiate_withdrawal-ok, transfer-ok, both, both_left, deposit-NextVault,
  tells_coin-ok, call_of,
}

rescheduled :
    {w w' : Chains} (ms : List Moment) → Extends w w' → Extends w (record w' { schedule = ms })
rescheduled ms g = record {
  deposits_kept = g.deposits_kept;
  minted_kept = g.minted_kept;
  tokens_kept = g.tokens_kept;
  sent_kept = g.sent_kept;
  created_kept = g.created_kept;
  file_kept = g.file_kept;
}

module _ (o : Outside) {high : ℕ} where
  pub Later-same : (w : Chains) → Sound o high w → Later o high w w
  Later-same w s = (s, Extends-refl w)

  Later-set_vault :
      (w : Chains) (x : Result Abort Vault)
      → Sound o high w
      → ((v : Vault) → x ≡ ok v → NextVault o w.vault v)
      → Later o high w (set_vault w x)
  unfolding set_vault
  Later-set_vault w (ok v) s n = Later-vault o w v s (n v refl)
  Later-set_vault w (err _) s n = Later-same w s

  Later-set_token :
      (w : Chains) (a : ℕ) (t : Token) (x : Result Revert Token)
      → Sound o high w
      → get a w.tokens ≡ some t
      → ((u : Token)
          → x ≡ ok u
          → (u.minted_any ≡ t.minted_any)
            × (u.last_minted_deposit_nonce ≡ t.last_minted_deposit_nonce))
      → Later o high w (set_token a w x)
  unfolding set_token
  Later-set_token w a t (ok u) s e n = Later-token o w a t u s e (n u refl).0 (n u refl).1
  Later-set_token w a t (err _) s e n = Later-same w s

  Later-on_token :
      (w : Chains) (a : ℕ) (f : Token → Result Revert Token) (x : Option Token)
      → Sound o high w
      → get a w.tokens ≡ x
      → ((t u : Token)
          → f t ≡ ok u
          → (u.minted_any ≡ t.minted_any)
            × (u.last_minted_deposit_nonce ≡ t.last_minted_deposit_nonce))
      → Later o high w (on_token o a f w x)
  unfolding on_token
  Later-on_token w a f none s e n = Later-same w s
  Later-on_token w a f (some t) s e n = Later-set_token w a t (f t) s e (n t)

  -- A mint that goes through is the token's first, of the nonce 0, or follows one.
  first_mint :
      (w : Chains) (to n r a : ℕ) (t u : Token)
      → Sound o high w
      → get to w.tokens ≡ some t
      → (t.minted_any ≡ false → n ≡ 0)
      → MintedFirst to (emit (event to n r a) u w)
  first_mint w to n r a t u sound e z = elim (Bool-cases t.minted_any) [
    | inl m ↦
        let (r', x, i) = (sound.tokens_fine to t e).1 m in
        let f = (sound.minted_fine (event to t.last_minted_deposit_nonce r' x) i).3 in
        (f.0, f.1, inr f.2)
    | inr f ↦ (r, a, inl (ap (λ k. event to k r a) (sym (z f))))
  ]

  Later-mine_minted :
      (w : Chains) (i : ℕ) (s : Sent) (r a n : ℕ) (t : Token) (x : Result Revert Token)
      → Sound o high w
      → get i w.sent ≡ some s
      → s.tx.input ≡ mint r a n
      → ((n ≤ high) × Deposited o n s.tx.to r a w × HasToken s.tx.to w)
      → get s.tx.to w.tokens ≡ some t
      → ((u : Token)
          → x ≡ ok u
          → (u.minted_any ≡ true)
            × (u.last_minted_deposit_nonce ≡ n)
            × (r ≡ 0 → ⊥)
            × (t.minted_any ≡ false → n ≡ 0))
      → Later o high w (mine_minted o i s (event s.tx.to n r a) w x)
  unfolding mine_minted
  Later-mine_minted w i s r a n t (ok u) sound e q (l, d, h) k m =
      let (p, v, z, first) = m u refl in
      let em =
        Later-emit o w (event s.tx.to n r a) u sound l d z
          (first_mint w s.tx.to n r a t u sound k first) p v in
      Later-trans o em (
        Later-mined o (emit (event s.tx.to n r a) u w) i s true [] em.0 e
          (subst (λ c. TxFine o high (emit (event s.tx.to n r a) u w) s.tx.to c (some true)) (sym q)
            (l, Deposited-kept o n s.tx.to r a em.1 d, em.1.tokens_kept s.tx.to h, λ _. inl refl))
          (tt, λ _ _ _ _. tt))
  Later-mine_minted w i s r a n t (err _) sound e q (l, d, h) k m =
      Later-mined o w i s false [] sound e
        (subst (λ c. TxFine o high w s.tx.to c (some false)) (sym q) (l, d, h, λ k. cc))
        (tt, λ _ _ _ _. tt)

  Later-mine_mint :
      (w : Chains) (i : ℕ) (s : Sent) (r a n : ℕ) (x : Option Token)
      → Sound o high w
      → get i w.sent ≡ some s
      → s.tx.input ≡ mint r a n
      → ((n ≤ high) × Deposited o n s.tx.to r a w × HasToken s.tx.to w)
      → get s.tx.to w.tokens ≡ x
      → Later o high w (mine_mint o i s (event s.tx.to n r a) w x)
  unfolding mine_mint
  Later-mine_mint w i s r a n none sound e q (l, d, (t, h)) k = absurd (cc)
  Later-mine_mint w i s r a n (some t) sound e q f k =
      Later-mine_minted w i s r a n t (mint_token o.relayer_key r a n t) sound e q f k
        (λ u p. mint_token-ok o.relayer_key r a n t u p)

  Later-created :
      (w : Chains) (i a : ℕ) (log : RpcLog) (s : Sent) (b : Bool)
      → (b ≡ true → (names o log a ≡ true) × (vacant a w ≡ true))
      → (b ≡ true → OfCall o s.tx.input (log ∷ []))
      → Sound o high w
      → get i w.sent ≡ some s
      → ((w' : Chains) (st : Option Bool) → TxFine o high w' s.tx.to s.tx.input st)
      → Later o high w
          (if b then deploy o w.head a log (mined i s true (log ∷ []) w) else mined i s false [] w)
  Later-created w i a log s true n k sound e f =
      let d = Later-deploy o w w.head a log sound (n refl).0 (n refl).1 in
      Later-trans o d (
        Later-mined o (deploy o w.head a log w) i s true (log ∷ []) d.0 e
          (f (deploy o w.head a log w) (some true)) ((d.0.created_fine.0, tt), k refl))
  Later-created w i a log s false n k sound e f =
      Later-mined o w i s false [] sound e (f w (some false)) (tt, λ _ _ _ _. tt)

  Later-mine_input :
      (w : Chains) (i a : ℕ) (log : RpcLog) (s : Sent) (c : Calldata) (st : Option Bool)
      → Sound o high w
      → get i w.sent ≡ some s
      → s.tx.input ≡ c
      → TxFine o high w s.tx.to c st
      → Later o high w (mine_input o i a log s w c)
  unfolding mine_input
  Later-mine_input w i a log s (mint r x n) st sound e q (l, d, h, _) =
      Later-mine_mint w i s r x n (get s.tx.to w.tokens) sound e q (l, d, h) refl
  Later-mine_input w i a log s (create_bridge x y z) st sound e q f =
      Later-created w i a log s (vacant a w && (names o log a && tells_coin o log z))
        (λ h. (both_left (names o log a) _ (both (vacant a w) _ h), both_left (vacant a w) _ h))
        (λ h.
          call_of o s.tx.input x y z log q
            (tells_coin-ok o log z (both (names o log a) _ (both (vacant a w) _ h))))
        sound e (λ w' k. subst (λ c. TxFine o high w' s.tx.to c k) (sym q) tt)

  Later-mine_pending :
      (w : Chains) (i a : ℕ) (log : RpcLog) (s : Sent) (st : Option Bool)
      → Sound o high w
      → get i w.sent ≡ some s
      → Later o high w (mine_pending o i a log s w st)
  unfolding mine_pending
  Later-mine_pending w i a log s none sound e =
      Later-mine_input w i a log s s.tx.input s.status sound e refl (sound.sent_fine i s e).0
  Later-mine_pending w i a log s (some _) sound e = Later-same w sound

  Later-mine :
      (w : Chains) (i a : ℕ) (log : RpcLog) (x : Option Sent)
      → Sound o high w
      → get i w.sent ≡ x
      → Later o high w (mine o i a log w x)
  unfolding mine
  Later-mine w i a log none sound e = Later-same w sound
  Later-mine w i a log (some s) sound e = Later-mine_pending w i a log s s.status sound e

  Later-creates :
      (w : Chains) (block a : ℕ) (log : RpcLog) (b : Bool)
      → (b ≡ true → (names o log a ≡ true) × (vacant a w ≡ true))
      → Sound o high w
      → Later o high w (if b then deploy o block a log w else w)
  Later-creates w block a log true n sound =
      Later-deploy o w block a log sound (n refl).0 (n refl).1
  Later-creates w block a log false n sound = Later-same w sound

  produced : (w : Chains) → Sound o high w → Later o high w (record w { head = suc w.head })
  produced w s = (
    record {
      deposits_below = s.deposits_below;
      sent_below = s.sent_below;
      minted_fine = s.minted_fine;
      sent_fine = s.sent_fine;
      tokens_fine = s.tokens_fine;
      created_fine = s.created_fine;
      one_origin = s.one_origin;
      delivered = s.delivered;
    },
    record {
      deposits_kept = λ n d h. h;
      minted_kept = λ m i. i;
      tokens_kept = λ a h. h;
      sent_kept = λ i t e. (t, e, refl);
      created_kept = λ e i. i;
      file_kept = refl;
    },
  )

  happen-Later : (e : Event) (w : Chains) → Sound o high w → Later o high w (happen o e w)
  unfolding happen
  happen-Later (deposits c a r) w s =
      Later-set_vault w (deposit c a r w.vault) s (λ v p. deposit-NextVault o c a r w.vault v p)
  happen-Later (mines i a log) w s = Later-mine w i a log (get i w.sent) s refl
  happen-Later (creates block a log) w s =
      Later-creates w block a log (vacant a w && names o log a)
        (λ h. (both (vacant a w) (names o log a) h, both_left (vacant a w) _ h)) s
  happen-Later (burns a sender to amount) w s =
      Later-on_token w a (initiate_withdrawal sender to amount) (get a w.tokens) s refl
        (initiate_withdrawal-ok sender to amount)
  happen-Later (moves a sender to amount) w s =
      Later-on_token w a (transfer sender to amount) (get a w.tokens) s refl
        (transfer-ok sender to amount)
  happen-Later produces w s = produced w s
  happen-Later passes w s = Later-same w s

  happen_all-Later :
      (es : List Event) (w : Chains) → Sound o high w → Later o high w (happen_all o es w)
  unfolding happen_all
  happen_all-Later [] w s = Later-same w s
  happen_all-Later (e ∷ es) w s =
      let l = happen-Later e w s in Later-trans o l (happen_all-Later es (happen o e w) l.0)

  scheduled :
      {w : Chains} (ms : List Moment) → Sound o high w → Sound o high (record w { schedule = ms })
  scheduled ms s = record {
    deposits_below = s.deposits_below;
    sent_below = s.sent_below;
    minted_fine = s.minted_fine;
    sent_fine = s.sent_fine;
    tokens_fine = s.tokens_fine;
    created_fine = s.created_fine;
    one_origin = s.one_origin;
    delivered = s.delivered;
  }

  -- The schedule is no part of it.
  pub elapse-Later : (w : Chains) → Sound o high w → Later o high w (elapse o w)
  unfolding elapse
  elapse-Later w s =
      let l = happen_all-Later (moment o w).events w s in
      (scheduled (later o w.schedule) l.0, rescheduled (later o w.schedule) l.1)
