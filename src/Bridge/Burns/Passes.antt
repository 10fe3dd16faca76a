-- ===== src/Bridge/Burns/Passes.antt =====
-- A withdrawal pass, `relay_withdrawals` of crates/node/src/bridge.rs.
use podseq.Prelude.{◌≤◌, arith, ℕ, ◌≡◌, refl, sym, ap, ◌⊎◌, inl, inr, true, List, [], ◌∷◌, ltb}
use mathlib.Core.Path.{subst}
use podseq.Call.{modify, ◌>>=◌}
use podseq.Bridge.Deposits.{persist_cursors}
use podseq.Call.Ensures.{
  Post, Ensures, Ensures-pure, Ensures-lift, Ensures-gets, Ensures-modify, Ensures-bind,
  Ensures-bind_fact, Ensures-weaken, Ensures-select, Ensures-within, Ensures-answer,
}
use podseq.Call.Focus.{Keeps-focus, Ensures-focus}
use podseq.Bridge.Abi.{RpcLog}
use podseq.Bridge.Registry.{TokenRegistry, Cursors, addresses}
use podseq.Bridge.{Relayer, State}
use podseq.Bridge.Requests.{request, on_world}
use podseq.Bridge.Withdrawals.{
  eth_get_logs, absorb_creations, release_burns, relay_blocks, relay_withdrawals, is_nil,
  set_next_block,
}
use podseq.Bridge.Burns.{Frame, Head, Pays, Stays, AllReleased, Answers, Moved}
use podseq.Bridge.Burns.Releases.{process_logs-Releases, kept_pair, nothing_kept}

module _ {W : Type 0} (r : Relayer W) (Processed : ℕ → ℕ → W → Type 0) (pays : Pays r Processed)
    (stays : Stays r Processed) (burns : List ℕ → ℕ → ℕ → List RpcLog)
    (answers : Answers r Processed burns) where
  no_burns :
      (known : List ℕ) (tokens : TokenRegistry) (from to : ℕ) (w : W)
      → is_nil known ≡ true
      → AllReleased r Processed tokens (burns known from to) w
  no_burns [] tokens from to w t =
      subst (λ x. AllReleased r Processed tokens x w) (sym (answers.1 from to)) tt
  no_burns (a ∷ known) tokens from to w t = cc

  release_burns-Releases :
      (c : Cursors) (tokens : TokenRegistry) (known : List ℕ) (from latest : ℕ)
      → Ensures
          (Frame c tokens)
          (release_burns r known from latest)
          (λ _ st.
            Frame c tokens st × AllReleased r Processed tokens (burns known from latest) st.world)
          (λ _ st. st.cursors ≡ c)
  unfolding release_burns eth_get_logs request on_world
  release_burns-Releases c tokens known from latest =
      Ensures-select (is_nil known)
        (λ t. Ensures-pure tt (λ st p. (p, no_burns known tokens from latest st.world t)))
        λ f.
          Ensures-bind_fact {F = λ logs. logs ≡ burns known from latest}
            (Ensures-bind
              (Ensures-lift {Q = λ _. Frame c tokens} _ (λ _ _ st p. p) (λ _ _ st p. p.0))
              λ _. Ensures-within _ (
                Ensures-weaken {P = Frame c tokens} (λ _ p. p)
                  (λ logs st p. (p.0, answers.0 known from latest p.1.1.0 p.1.0 logs f p.1.1.1))
                  (λ _ _ p. p.0) (Ensures-focus _ _ (λ _ _ p. p) (Ensures-answer _))))
            λ logs e.
              Ensures-weaken (λ st p. (p, tt))
                (λ _ st p. (p.0, subst (λ x. AllReleased r Processed tokens x st.world) e p.1.1))
                (λ _ _ p. p)
                (process_logs-Releases r Processed pays stays c tokens logs (λ _. Unit {0})
                  (nothing_kept r Processed pays stays))

  absorb_creations-cursors :
      (c : Cursors) (from to : ℕ)
      → Ensures
          (λ st. st.cursors ≡ c)
          (absorb_creations r from to)
          (λ _ st. st.cursors ≡ c)
          (λ _ st. st.cursors ≡ c)
  unfolding absorb_creations eth_get_logs request on_world
  absorb_creations-cursors c from to =
      Ensures-bind {Q = λ _ st. st.cursors ≡ c}
        (Ensures-bind {Q = λ _ st. st.cursors ≡ c} (Ensures-lift _ (λ _ _ st p. p) (λ _ _ st p. p))
          λ _. Ensures-within _ (Keeps-focus _ _ _ (λ _ _ p. p)))
        λ logs.
          Ensures-bind (Ensures-modify {Q = λ _ st. st.cursors ≡ c} _ (λ st p. p))
            λ _. Ensures-pure _ (λ st p. p)

  written :
      (tokens : TokenRegistry) (logs : List RpcLog) (c : Cursors) (w : W)
      → AllReleased r Processed tokens logs w
      → AllReleased r Processed tokens logs (r.write_cursors c w)
  written tokens [] c w h = tt
  written tokens (log ∷ logs) c w (h, hs) = (
    ((kept_pair r Processed pays stays tokens log (λ _. Unit {0})
          (nothing_kept r Processed pays stays)).1
        c w (tt, h)).1,
    written tokens logs c w hs,
  )

  moves :
      (c : Cursors) (tokens : TokenRegistry) (known : List ℕ) (from latest : ℕ)
      → Head r Processed latest
      → from ≤ latest
      → known ≡ addresses tokens
      → Ensures
          (Frame c tokens)
          (do
            _ ← release_burns r known from latest
            _ ← modify (set_next_block r latest)
            modify (persist_cursors r))
          (λ _. Moved r Processed burns from)
          (λ _ st. st.cursors ≡ c)
  moves c tokens known from latest a l e =
      Ensures-bind (release_burns-Releases c tokens known from latest) λ _.
        Ensures-bind
          (Ensures-modify {Q = λ _. Moved r Processed burns from} _ (λ st p. (
            latest,
            a,
            l,
            refl,
            subst (λ t. AllReleased r Processed t (burns (addresses t) from latest) st.world)
                (sym p.0.1)
                (subst (λ k. AllReleased r Processed tokens (burns k from latest) st.world) e p.1),
          )))
          λ _. Ensures-modify _ (λ st p. (
            p.0,
            p.1,
            p.2,
            p.3,
            written st.tokens (burns (addresses st.tokens) from p.0) st.cursors st.world p.4,
          ))

  relay_blocks-Moves :
      (c : Cursors) (from latest : ℕ)
      → Head r Processed latest
      → from ≤ latest
      → Ensures
          (λ st. st.cursors ≡ c)
          (relay_blocks r from latest)
          (λ _. Moved r Processed burns from)
          (λ _ st. st.cursors ≡ c)
  unfolding relay_blocks
  relay_blocks-Moves c from latest a l = Ensures-bind (absorb_creations-cursors c from latest) λ _.
      Ensures-bind {Q = λ known st. (st.cursors ≡ c) × (known ≡ addresses st.tokens)}
        (Ensures-gets _ (λ st p. (p, refl)))
        λ known. record {
          holds = λ st p. (moves c st.tokens known from latest a l p.1).holds st (p.0, refl);
        }

  -- A withdrawal pass that fails leaves the cursors as they were. One that succeeds leaves them so
  -- too, or moves the block cursor past the blocks up to a head that the chain answered; then for
  -- every burn in these blocks of a token in the registry a withdrawal of its coin type, recipient,
  -- amount and nonce has succeeded, and the vault holds the burn as processed. Assumed are that the
  -- chain answers those burns; that a withdrawal which succeeds, be it passed over, leaves the burn
  -- processed; and that a burn stays processed whatever is withdrawn and written next.
  pub relay_withdrawals-Moves :
      (st : State W)
      → Post
          (λ _ s. (s.cursors ≡ st.cursors) ⊎ Moved r Processed burns st.cursors.next_l2_block s)
          (λ _ s. s.cursors ≡ st.cursors)
          (relay_withdrawals r st)
  unfolding relay_withdrawals request on_world
  relay_withdrawals-Moves st = (passes st.cursors).holds st refl
    where
      passes :
          (c : Cursors)
          → Ensures
              (λ s. s.cursors ≡ c)
              (relay_withdrawals r)
              (λ _ s. (s.cursors ≡ c) ⊎ Moved r Processed burns c.next_l2_block s)
              (λ _ s. s.cursors ≡ c)
      passes c =
          Ensures-bind_fact {F = λ from. from ≡ c.next_l2_block}
            (Ensures-gets _ (λ s p. (p, ap (λ x. x.next_l2_block) p)))
            λ from e.
              Ensures-bind_fact {Q = λ _ s. s.cursors ≡ c} {F = λ latest. Head r Processed latest}
                (Ensures-within _ (
                  Ensures-weaken {P = λ s. s.cursors ≡ c} (λ _ p. p)
                    (λ _ s p. (p.0, (p.1.1.0, (p.1.0, p.1.1.1)))) (λ _ _ p. p)
                    (Ensures-focus _ _ (λ _ _ p. p) (Ensures-answer _))))
                λ latest a.
                  Ensures-select (ltb latest from) (λ _. Ensures-pure tt (λ s p. inl p))
                    λ f.
                      Ensures-weaken (λ _ p. p)
                        (λ _ s m. inr (subst (λ n. Moved r Processed burns n s) e m)) (λ _ _ p. p)
                        (relay_blocks-Moves c from latest a (ground arith))
