-- ===== src/Bridge/Chains/Safety.antt =====
-- What the cursor of the relayer (crates/node/src/bridge.rs) says, over any rounds and restarts.
use podseq.Prelude.{
  ℕ, ◌<◌, ◌≡◌, sym, ap, ◌∙◌, Bool, true, false, Option, none, some, List, [], ◌∷◌, Result, ok, err,
  arith, ok_injective,
}
use mathlib.Core.Path.{subst}
use podseq.Call.Ensures.{Keeps-after}
use podseq.Store.Map.{get}
use podseq.Bridge.Abi.{RelayError}
use podseq.Bridge.Registry.{empty_registry, Cursors, default_cursors, from_snapshot}
use podseq.Bridge.{State}
use podseq.Bridge.Withdrawals.{Round, passes, restarts, started, round, rounds}
use podseq.Bridge.Restore.{start}
use podseq.Bridge.Chains.{Chains, Sent, Outside, relayer}
use podseq.Bridge.Chains.Sound.{In, Delivered, CreatedFine}
use podseq.Bridge.Chains.Context.{Spells, CursorsFine, RegistryFine}
use podseq.Bridge.Chains.Deliveries.{InOrder}
use podseq.Bridge.Chains.Rounds.{pass-Keeps}
use podseq.Bridge.Chains.Starts.{start-Keeps}
use podseq.Bridge.Token.{Token}
use podseq.Bridge.{DepositRecord}

-- A relayer that was never started, and chains on which no bridged token was minted.
pub record IsFresh (st : State Chains) : Type 0 where
  pub cursor : st.cursors ≡ default_cursors
  pub registry : st.tokens ≡ empty_registry
  pub file : st.world.file ≡ none
  pub nothing_sent : st.world.sent ≡ []
  pub nothing_minted : st.world.minted ≡ []
  pub nothing_created : st.world.created ≡ []
  pub deposits_below :
      (n : ℕ) (d : DepositRecord)
      → get n st.world.vault.deposits ≡ some d
      → n < st.world.vault.deposit_nonce
  pub tokens_unminted :
      (a : ℕ) (t : Token)
      → get a st.world.tokens ≡ some t
      → (t.minted_any ≡ false) × (t.last_minted_deposit_nonce ≡ 0)

none_sent : (i : ℕ) (s : Sent) → get i [] ≡ some s → ⊥
unfolding get
none_sent i s e = cc

no_file : (c : Cursors) → ◌≡◌ {A = Option Cursors} none (some c) → ⊥
no_file c e = cc

no_true : (b : Bool) → b ≡ true → b ≡ false → ⊥
no_true b p q = cc

module _ (o : Outside) (spells : Spells o) where
  pub fresh-InOrder : (st : State Chains) → IsFresh st → InOrder o st
  unfolding from_snapshot
  fresh-InOrder st f = (
    0,
    record {
      chains = record {
        deposits_below = f.deposits_below;
        sent_below = λ i s e. absurd (none_sent i s (sym (ap (get i) f.nothing_sent) ∙ e));
        minted_fine = λ m i. elim (subst (In m) f.nothing_minted i) [ ];
        sent_fine = λ i s e. absurd (none_sent i s (sym (ap (get i) f.nothing_sent) ∙ e));
        tokens_fine = λ a t e.
            let (x, y) = f.tokens_unminted a t e in
            (λ _. y, λ m. absurd (no_true t.minted_any m x));
        created_fine = subst (CreatedFine o st.world) (sym f.nothing_created) tt;
        one_origin = λ c c' a x y. let (e, i, p) = x in absurd (subst (In e) f.nothing_created i);
        delivered = λ n h. elim h [ ];
      };
      cursors_fine =
          subst (CursorsFine o 0 st.world) (sym f.cursor)
            (omega arith, λ tokens p. subst (λ t. RegistryFine o t st.world) (ok_injective p) tt);
      registry = subst (λ t. RegistryFine o t st.world) (sym f.registry) tt;
      filed = λ c e. absurd (no_file c (sym f.file ∙ e));
    },
  )

  left_InOrder :
      (x : Result RelayError (Unit {0}) × State Chains)
      → InOrder o x.1
      → InOrder o (started (relayer o) (start (relayer o)) x).1
  unfolding started
  left_InOrder (ok _, st) p = p
  left_InOrder (err _, st) p = p

  round-InOrder :
      (x : Round) (b : Bool) (st : State Chains)
      → InOrder o st
      → InOrder o (round (relayer o) (start (relayer o)) x (b, st)).1
  unfolding round
  round-InOrder restarts b st p =
      left_InOrder (start (relayer o) st) (Keeps-after (start-Keeps o spells) st p)
  round-InOrder passes true st p = Keeps-after (pass-Keeps o spells) st p
  round-InOrder passes false st p = p

  pub rounds-InOrder :
      (xs : List Round) (s : Bool × State Chains)
      → InOrder o s.1
      → InOrder o (rounds (relayer o) (start (relayer o)) xs s).1
  unfolding rounds
  rounds-InOrder [] s p = p
  rounds-InOrder (x ∷ xs) (b, st) p =
      rounds-InOrder xs (round (relayer o) (start (relayer o)) x (b, st)) (round-InOrder x b st p)

  -- From a first start on chains with no token creation logged and no token minted, over any rounds
  -- and restarts of the relayer, whatever requests fail, each deposit below the cursor was minted: a
  -- token created for its coin type, as it is spelled or in normal form, has logged a mint of its
  -- nonce, its recipient and its amount. Between the requests deposits, transactions mined,
  -- creations, blocks, burns and transfers may happen in any order; the relayer's key stays the only
  -- one that mints, so no token's relayer is set anew, and no token is adopted by the factory.
  pub rounds-Delivered :
      (st : State Chains) (xs : List Round) (n : ℕ)
      → IsFresh st
      → n < (rounds (relayer o) (start (relayer o)) xs (false, st)).1.cursors.next_deposit_nonce
      → Delivered o n (rounds (relayer o) (start (relayer o)) xs (false, st)).1.world
  rounds-Delivered st xs n f l =
      let (h, g) = rounds-InOrder xs (false, st) (fresh-InOrder st f) in
      g.chains.delivered n (let k = g.cursors_fine.0 in omega arith)
