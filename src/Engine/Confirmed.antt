-- ===== src/Engine/Confirmed.antt =====
-- What a success of the Engine API facade says of the client's answers.
use podseq.Prelude.{ℕ, zero, suc, ◌≡◌, refl, Option, none, ok}
use podseq.Call.{Call}
use podseq.Call.Ensures.{
  Ensures, Ensures-bind, Ensures-pure, Ensures-throw, Ensures-weaken, Ensures-answer, Ensures-given,
  Ensures-ok,
}
use podseq.Engine.{
  PayloadStatusEnum, valid, invalid, syncing, accepted, EngineError, ForkchoiceState,
  ForkchoiceUpdated, PayloadAttributes, ExecutionPayload, EngineClient, forkchoice,
  forkchoice_attempts, after_update, accepted_status, wait_for_forkchoice, accept, finalize,
}

module _ {W : Type 0} (client : EngineClient W) where
  -- The client answered `valid` to this update.
  pub record Confirmed (fc : ForkchoiceState) (attributes : Option PayloadAttributes) (w : W)
      : Type 0 where
    pub before : W
    pub updated : ForkchoiceUpdated
    pub answered : client.fork_choice_updated_v3 fc attributes before ≡ (ok updated, w)
    pub is_valid : updated.payload_status ≡ valid

  after-Confirmed :
      (rest : Call W EngineError ForkchoiceUpdated) (fc : ForkchoiceState)
      (attributes : Option PayloadAttributes) (r : ForkchoiceUpdated) (status : PayloadStatusEnum)
      → r.payload_status ≡ status
      → Ensures (λ _. Unit {0}) rest (λ _ w. Confirmed fc attributes w) (λ _ _. Unit {0})
      → Ensures
          (λ w. (w0 : W) × (client.fork_choice_updated_v3 fc attributes w0 ≡ (ok r, w)))
          (after_update client rest r status)
          (λ _ w. Confirmed fc attributes w)
          (λ _ _. Unit {0})
  unfolding after_update
  after-Confirmed rest fc attributes r valid e h =
      Ensures-pure r λ w p. record { before = p.0; updated = r; answered = p.1; is_valid = e }
  after-Confirmed rest fc attributes r syncing e h =
      Ensures-weaken (λ _ _. tt) (λ _ _ q. q) (λ _ _ q. q) h
  after-Confirmed rest fc attributes r invalid e h = Ensures-throw _ (λ _ _. tt)
  after-Confirmed rest fc attributes r accepted e h = Ensures-throw _ (λ _ _. tt)

  attempts-Confirmed :
      (n : ℕ) (fc : ForkchoiceState) (attributes : Option PayloadAttributes)
      → Ensures
          (λ _. Unit {0})
          (forkchoice_attempts client n fc attributes)
          (λ _ w. Confirmed fc attributes w)
          (λ _ _. Unit {0})
  unfolding forkchoice_attempts
  attempts-Confirmed zero fc attributes = Ensures-throw _ (λ _ _. tt)
  attempts-Confirmed (suc n) fc attributes =
      Ensures-bind (Ensures-answer (client.fork_choice_updated_v3 fc attributes)) λ r.
        after-Confirmed _ fc attributes r r.payload_status refl (attempts-Confirmed n fc attributes)

  pub finalize-Ensures :
      (head safe finalized : ℕ)
      → Ensures
          (λ _. Unit {0})
          (finalize client head safe finalized)
          (λ _ w. Confirmed (forkchoice head safe finalized) none w)
          (λ _ _. Unit {0})
  unfolding finalize wait_for_forkchoice
  finalize-Ensures head safe finalized =
      Ensures-bind (attempts-Confirmed 10 (forkchoice head safe finalized) none)
        λ r. Ensures-pure tt (λ w p. p)

  -- The client answered `valid` to this payload, and then to the update that makes it the head.
  pub record Accepted (payload : ExecutionPayload) (fc : ForkchoiceState) (w : W) : Type 0 where
    pub submitted : (w1 : W) × (w0 : W) × (client.new_payload_v4 payload w0 ≡ (ok valid, w1))
    pub confirmed : Confirmed fc none w

  status-valid :
      (payload : ExecutionPayload) (status : PayloadStatusEnum)
      → Ensures
          (λ w. (w0 : W) × (client.new_payload_v4 payload w0 ≡ (ok status, w)))
          (accepted_status client status)
          (λ _ _. (w1 : W) × (w0 : W) × (client.new_payload_v4 payload w0 ≡ (ok valid, w1)))
          (λ _ _. Unit {0})
  unfolding accepted_status
  status-valid payload valid = Ensures-pure tt (λ w p. (w, p.0, p.1))
  status-valid payload invalid = Ensures-throw _ (λ _ _. tt)
  status-valid payload syncing = Ensures-throw _ (λ _ _. tt)
  status-valid payload accepted = Ensures-throw _ (λ _ _. tt)

  pub accept-Ensures :
      (payload : ExecutionPayload) (head safe finalized : ℕ)
      → Ensures
          (λ _. Unit {0})
          (accept client payload head safe finalized)
          (λ _ w. Accepted payload (forkchoice head safe finalized) w)
          (λ _ _. Unit {0})
  unfolding accept finalize wait_for_forkchoice
  accept-Ensures payload head safe finalized =
      Ensures-bind (Ensures-answer (client.new_payload_v4 payload)) λ status.
        Ensures-bind (status-valid payload status) λ _.
          Ensures-given _ (λ _ p. p)
            λ h.
              Ensures-weaken (λ _ _. tt) (λ _ w p. record { submitted = h; confirmed = p })
                (λ _ _ q. q) (finalize-Ensures head safe finalized)

  -- A payload that `accept` accepts was answered `valid`, and so was the update that makes it the
  -- head with exactly these safe and finalized hashes.
  pub accept-Accepted :
      (payload : ExecutionPayload) (head safe finalized : ℕ) (w w' : W)
      → accept client payload head safe finalized w ≡ (ok tt, w')
      → Accepted payload (forkchoice head safe finalized) w'
  accept-Accepted payload head safe finalized w w' e =
      Ensures-ok (accept-Ensures payload head safe finalized) w tt e
