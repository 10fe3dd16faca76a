-- ===== src/Bridge/Chains/Starts.antt =====
-- The start of a relayer from its file keeps its state in order.
use podseq.Prelude.{
  ℕ, zero, suc, ◌+◌, ◌/◌, ◌≡◌, refl, ap, ◌∙◌, Option, none, some, Result, ok, err, arith, ltb,
  ok_injective, map_err,
}
use mathlib.Core.Path.{subst}
use podseq.Call.{Call, lift}
use podseq.Call.Ensures.{
  Ensures, Keeps, Ensures-pure, Ensures-throw, Ensures-lift, Ensures-gets, Ensures-modify,
  Ensures-bind, Ensures-weaken, Ensures-select, Ensures-attempt,
}
use podseq.Bridge.Abi.{RelayError}
use podseq.Bridge.Registry.{TokenRegistry, empty_registry, Cursors, from_snapshot}
use podseq.Bridge.{State}
use podseq.Bridge.Deposits.{set_tokens}
use podseq.Bridge.Restore.{
  scanned, scan, restore_from, restore_token_registry, load_cursors, set_cursors, start,
  creation_scan_chunk, chunk_end,
}
use podseq.Bridge.Chains.{Chains, Outside, relayer}
use podseq.Bridge.Chains.Context.{Spells, RegistryFine}
use podseq.Bridge.Chains.Deliveries.{InOrder, persisted}
use podseq.Bridge.Chains.Absorbs.{asks, absorb_creations-Keeps}
use podseq.Bridge.Chains.Rounds.{spelled}

module _ (o : Outside) (spells : Spells o) where
  -- A registry in its place.
  registered :
      (tokens : TokenRegistry) (st : State Chains)
      → InOrder o st
      → RegistryFine o tokens st.world
      → InOrder o (set_tokens (relayer o) tokens st)
  registered tokens st (h, g) f = (
    h,
    record { chains = g.chains; cursors_fine = g.cursors_fine; registry = f; filed = g.filed },
  )

  scanned-Keeps :
      (rest : ℕ → ℕ → Call (State Chains) RelayError (Unit {0}))
      → ((chunk from : ℕ) → Keeps (InOrder o) (rest chunk from))
      → (to chunk from : ℕ) (found : Result RelayError ℕ)
      → Keeps (InOrder o) (scanned (relayer o) rest to chunk from found)
  unfolding scanned
  scanned-Keeps rest h to chunk from (ok count) = h _ (suc to)
  scanned-Keeps rest h to chunk from (err e) =
      Ensures-select _ (λ _. h (chunk / 2) from) (λ _. Ensures-throw e (λ st p. p))

  scan-Keeps : (n head chunk from : ℕ) → Keeps (InOrder o) (scan (relayer o) n head chunk from)
  unfolding scan
  scan-Keeps zero head chunk from = Ensures-throw _ (λ st p. p)
  scan-Keeps (suc n) head chunk from =
      Ensures-select (ltb head from) (λ _. Ensures-pure tt (λ st p. p))
        (λ _.
          Ensures-bind
            (Ensures-attempt (absorb_creations-Keeps o spells from (chunk_end from chunk head)))
            (scanned-Keeps (scan (relayer o) n head) (scan-Keeps n head) (chunk_end from chunk head)
              chunk from))

  abbrev Starting : Cursors → State Chains → Type 0
  Starting c st =
      InOrder o st
      × ((tokens : TokenRegistry)
          → from_snapshot o.spelling c.tokens ≡ ok tokens
          → RegistryFine o tokens st.world)

  restore_from-Keeps :
      (c : Cursors)
      → Ensures (Starting c) (restore_from (relayer o) c) (λ _. InOrder o) (λ _. InOrder o)
  unfolding restore_from relayer
  restore_from-Keeps c =
      Ensures-select _
        (λ _.
          Ensures-bind (snapshot_lifts (from_snapshot o.spelling c.tokens) refl)
            λ tokens. Ensures-modify _ (λ st p. registered tokens st p.0 p.1))
        (λ _.
          Ensures-bind
            (Ensures-weaken (λ _ p. p.0) (λ _ _ p. p.0) (λ _ _ p. p)
              (asks o spells (λ w. w.head) (λ _ _. Unit {0}) (λ _ _ _. tt)))
            λ head.
              Ensures-bind
                (Ensures-modify {Q = λ _. InOrder o} _ (λ st p. registered empty_registry st p tt))
                λ _. Ensures-bind (scan-Keeps (head + 8) head creation_scan_chunk 0) λ _.
                  Ensures-bind
                    (Ensures-modify {Q = λ _. InOrder o} _ (λ st p. spelled o spells st _ _ p refl))
                    λ _. Ensures-modify _ (λ st p. persisted o spells st p))
    where
      err_ok : {E A : Type 0} {e : E} {a : A} → ◌≡◌ {A = Result E A} (err e) (ok a) → ⊥
      err_ok h = cc

      snapshot_lifts :
          (x : Result (Unit {0}) TokenRegistry)
          → from_snapshot o.spelling c.tokens ≡ x
          → Ensures
              (Starting c)
              (lift (map_err (λ _. RelayError.not_hex) x))
              (λ tokens st. InOrder o st × RegistryFine o tokens st.world)
              (λ _. InOrder o)
      snapshot_lifts (ok t) e =
          Ensures-lift _ (λ a p st q. (q.0, q.1 a (e ∙ ap ok (ok_injective p)))) (λ _ _ st q. q.0)
      snapshot_lifts (err _) e = Ensures-lift _ (λ a p. absurd (err_ok p)) (λ _ _ st q. q.0)

  loaded :
      (st : State Chains) (x : Option Cursors)
      → st.world.file ≡ x
      → InOrder o st
      → InOrder o (set_cursors (relayer o) (load_cursors (relayer o) x) st)
  unfolding load_cursors from_snapshot
  loaded st none e (h, g) = (
    h,
    record {
      chains = g.chains;
      cursors_fine =
          (omega arith, λ tokens p. subst (λ t. RegistryFine o t st.world) (ok_injective p) tt);
      registry = g.registry;
      filed = g.filed;
    },
  )
  loaded st (some c) e (h, g) = (
    h,
    record {
      chains = g.chains;
      cursors_fine = g.filed c e;
      registry = g.registry;
      filed = g.filed;
    },
  )

  pub start-Keeps : Keeps (InOrder o) (start (relayer o))
  unfolding start restore_token_registry relayer
  start-Keeps =
      Ensures-bind
        (Ensures-gets
          {Q = λ x st. InOrder o (set_cursors (relayer o) (load_cursors (relayer o) x) st)} _
          (λ st p. loaded st st.world.file refl p))
        λ stored. Ensures-bind (Ensures-modify {Q = λ _. InOrder o} _ (λ st p. p)) λ _.
          Ensures-bind (Ensures-gets {Q = λ c. Starting c} _ (λ st p. (p, p.1.cursors_fine.1)))
            restore_from-Keeps
