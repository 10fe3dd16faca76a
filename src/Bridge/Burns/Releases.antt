-- ===== src/Bridge/Burns/Releases.antt =====
-- The burns of one answer are released in turn (`process_withdrawal_log` and the loop over the logs in
-- `relay_withdrawals` of crates/node/src/bridge.rs).
use podseq.Prelude.{
  ℕ, ◌≡◌, refl, sym, ap, ◌∙◌, Option, none, some, List, [], ◌∷◌, Result, ok, err, ok_injective,
  map_err,
}
use podseq.Call.Ensures.{
  Post, Ensures, Ensures-pure, Ensures-lift, Ensures-gets, Ensures-bind, Ensures-bind_fact,
  Ensures-weaken, Ensures-within,
}
use podseq.Call.Focus.{Ensures-frame}
use podseq.Core.Octets.{Bytes}
use podseq.Bridge.Abi.{RelayError, RpcLog, ok_or, parse_log_address, parse_withdrawal_log}
use podseq.Bridge.Registry.{TokenRegistry, Cursors, coin_for}
use podseq.Bridge.{Relayer}
use podseq.Bridge.Requests.{request, on_world}
use podseq.Bridge.Withdrawals.{process_withdrawal_log, process_logs}
use podseq.Bridge.Burns.{Frame, Pays, Kept, Stays, Done, Released, AllReleased}

module _ {W : Type 0} (r : Relayer W) (Processed : ℕ → ℕ → W → Type 0) (pays : Pays r Processed)
    (stays : Stays r Processed) where
  withdraw-Post :
      (tag amount nonce : ℕ) (recipient : Bytes) (G : W → Type 0) (w : W)
      (x : Result (Unit {0}) (Unit {0}) × W)
      → r.withdraw tag recipient amount nonce w ≡ x
      → G x.1
      → Post (λ _ w'. G w' × Done r Processed tag recipient amount nonce w') (λ _ _. Unit {0}) x
  withdraw-Post tag amount nonce recipient G w (ok tt, w') e g =
      (g, ((w, (w', e)), pays tag amount nonce recipient w w' e))
  withdraw-Post tag amount nonce recipient G w (err _, w') e g = tt

  withdraw-Done :
      (tag amount nonce : ℕ) (recipient : Bytes) (G : W → Type 0)
      → Kept r Processed G
      → Ensures G
          (r.withdraw tag recipient amount nonce)
          (λ _ w. G w × Done r Processed tag recipient amount nonce w)
          (λ _ _. Unit {0})
  withdraw-Done tag amount nonce recipient G k = record {
    holds = λ w g.
        withdraw-Post tag amount nonce recipient G w _ refl (k.0 tag amount nonce recipient w g);
  }

  of_some : {A : Type 0} (e : RelayError) (x : Option A) (a : A) → ok_or e x ≡ ok a → x ≡ some a
  of_some e none a h = cc
  of_some e (some b) a h = ap some (ok_injective h)

  err_ok : {A : Type 0} {e : RelayError} {a : A} → ◌≡◌ {A = Result RelayError A} (err e) (ok a) → ⊥
  err_ok h = cc

  of_ok :
      {E A : Type 0} (f : E → RelayError) (x : Result E A) (a : A) → map_err f x ≡ ok a → x ≡ ok a
  of_ok f (ok b) a h = ap ok (ok_injective h)
  of_ok f (err e) a h = absurd (err_ok h)

  process_withdrawal_log-Releases :
      (c : Cursors) (tokens : TokenRegistry) (log : RpcLog) (G : W → Type 0)
      → Kept r Processed G
      → Ensures
          (λ st. Frame c tokens st × G st.world)
          (process_withdrawal_log r log)
          (λ _ st. Frame c tokens st × (G st.world × Released r Processed tokens log st.world))
          (λ _ st. st.cursors ≡ c)
  unfolding process_withdrawal_log request on_world
  process_withdrawal_log-Releases c tokens log G k =
      Ensures-bind_fact {F = λ emitter. parse_log_address r.texts log.address ≡ ok emitter}
        (Ensures-lift _ (λ a e st p. (p, e)) (λ _ _ st p. p.0.0))
        λ emitter named.
          Ensures-bind_fact {F = λ known. known ≡ tokens} (Ensures-gets _ (λ st p. (p, p.0.1)))
            λ known same.
              Ensures-bind_fact {F = λ coin. coin_for emitter known ≡ some coin}
                (Ensures-lift _ (λ a e st p. (p, of_some _ _ a e)) (λ _ _ st p. p.0.0))
                λ coin has. Ensures-bind (Ensures-lift _ (λ _ _ st p. p) (λ _ _ st p. p.0.0)) λ _.
                  Ensures-bind_fact {F = λ tag. r.coin_type_tag coin ≡ ok tag}
                    (Ensures-lift _ (λ a e st p. (p, of_ok _ _ a e)) (λ _ _ st p. p.0.0))
                    λ tag typed.
                      Ensures-bind_fact {F = λ q. parse_withdrawal_log r.texts log ≡ ok q}
                        (Ensures-lift _ (λ a e st p. (p, e)) (λ _ _ st p. p.0.0))
                        λ q parsed. Ensures-within _ (
                          Ensures-weaken (λ _ p. p)
                            (λ _ st p. (
                              p.0,
                              (
                                p.1.0,
                                (
                                  emitter,
                                  coin,
                                  tag,
                                  q,
                                  named,
                                  ap (coin_for emitter) (sym same) ∙ has,
                                  typed,
                                  parsed,
                                  p.1.1,
                                ),
                              ),
                            ))
                            (λ _ st p. p.0.0)
                            (Ensures-frame _ _ _ {F = Frame c tokens} (λ _ _ f. f) (λ _ _. refl)
                              (withdraw-Done tag q.amount q.nonce q.sui_recipient G k)))

  kept-Done :
      (tag amount nonce : ℕ) (recipient : Bytes)
      → Kept r Processed (Done r Processed tag recipient amount nonce)
  kept-Done tag amount nonce recipient = (
    λ a b c d w h. (h.0, (stays tag nonce).0 a b c d w h.1),
    λ c w h. (h.0, (stays tag nonce).1 c w h.1),
  )

  pub kept_pair :
      (tokens : TokenRegistry) (log : RpcLog) (G : W → Type 0)
      → Kept r Processed G
      → Kept r Processed (λ w. G w × Released r Processed tokens log w)
  kept_pair tokens log G k = (
    λ tag amount nonce to w h. (
      k.0 tag amount nonce to w h.0,
      later (λ a b c d g. (kept-Done a c d b).0 tag amount nonce to w g) h.1,
    ),
    λ c w h. (k.1 c w h.0, later (λ a b e d g. (kept-Done a e d b).1 c w g) h.1),
  )
    where
      later :
          {w w' : W}
          → ((tag : ℕ) (recipient : Bytes) (amount nonce : ℕ)
              → Done r Processed tag recipient amount nonce w
              → Done r Processed tag recipient amount nonce w')
          → Released r Processed tokens log w
          → Released r Processed tokens log w'
      later f (emitter, coin, tag, q, named, has, typed, parsed, done) = (
        emitter,
        coin,
        tag,
        q,
        named,
        has,
        typed,
        parsed,
        f tag q.sui_recipient q.amount q.nonce done,
      )

  pub process_logs-Releases :
      (c : Cursors) (tokens : TokenRegistry) (logs : List RpcLog) (G : W → Type 0)
      → Kept r Processed G
      → Ensures
          (λ st. Frame c tokens st × G st.world)
          (process_logs r logs)
          (λ _ st. Frame c tokens st × (G st.world × AllReleased r Processed tokens logs st.world))
          (λ _ st. st.cursors ≡ c)
  unfolding process_logs
  process_logs-Releases c tokens [] G k = Ensures-pure tt (λ st p. (p.0, (p.1, tt)))
  process_logs-Releases c tokens (log ∷ logs) G k =
      Ensures-bind (process_withdrawal_log-Releases c tokens log G k) λ _.
        Ensures-weaken (λ _ p. p) (λ _ st p. (p.0, (p.1.0.0, (p.1.0.1, p.1.1)))) (λ _ _ p. p)
          (process_logs-Releases c tokens logs (λ w. G w × Released r Processed tokens log w)
            (kept_pair tokens log G k))

  pub nothing_kept : Kept r Processed (λ _. Unit {0})
  nothing_kept = ((λ _ _ _ _ _ _. tt), λ _ _ _. tt)
