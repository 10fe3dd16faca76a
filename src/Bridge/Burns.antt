-- ===== src/Bridge/Burns.antt =====
-- What a withdrawal pass of the relayer (crates/node/src/bridge.rs) has released when it moves its
-- cursor: the burns that the chain answers, for the tokens that the registry holds by then.
pub mod Releases
pub mod Passes
mod Tests
use podseq.Prelude.{◌≤◌, ℕ, suc, ◌≡◌, false, some, List, [], ◌∷◌, ok}
use podseq.Call.{◌>>=◌}
use podseq.Core.Octets.{Bytes}
use podseq.Bridge.Abi.{RpcLog, ParsedWithdrawal, parse_log_address, parse_withdrawal_log}
use podseq.Bridge.Registry.{TokenRegistry, Cursors, coin_for, addresses}
use podseq.Bridge.{Relayer, State}
use podseq.Bridge.Withdrawals.{is_nil}

-- The cursors and the registry.
abbrev pub Frame : {W : Type 0} → Cursors → TokenRegistry → State W → Type 0
Frame c tokens st = (st.cursors ≡ c) × (st.tokens ≡ tokens)

module _ {W : Type 0} (r : Relayer W) (Processed : ℕ → ℕ → W → Type 0) where
  -- A withdrawal that succeeds leaves its burn processed; one that was processed before is passed over.
  abbrev pub Pays : Type 0
  Pays =
      (tag amount nonce : ℕ) (recipient : Bytes) (w w' : W)
      → r.withdraw tag recipient amount nonce w ≡ (ok tt, w')
      → Processed tag nonce w'

  abbrev pub Kept : (W → Type 0) → Type 0
  Kept G =
      ((tag amount nonce : ℕ) (recipient : Bytes) (w : W)
        → G w
        → G (r.withdraw tag recipient amount nonce w).1)
      × ((c : Cursors) (w : W) → G w → G (r.write_cursors c w))

  -- A burn that is processed stays so.
  abbrev pub Stays : Type 0
  Stays = (tag nonce : ℕ) → Kept (Processed tag nonce)

  -- The withdrawal was asked for and succeeded, and its burn is processed.
  abbrev pub Done : ℕ → Bytes → ℕ → ℕ → W → Type 0
  Done tag recipient amount nonce w =
      ((w0 : W) × ((w1 : W) × (r.withdraw tag recipient amount nonce w0 ≡ (ok tt, w1))))
      × Processed tag nonce w

  -- A withdrawal of the log's coin, recipient, amount and nonce succeeded, and the burn is processed.
  abbrev pub Released : TokenRegistry → RpcLog → W → Type 0
  Released tokens log w =
      (emitter : ℕ) × (coin : Bytes) × (tag : ℕ) × (p : ParsedWithdrawal) × (parse_log_address
          r.texts log.address
        ≡ ok emitter)
      × (coin_for emitter tokens ≡ some coin)
      × (r.coin_type_tag coin ≡ ok tag)
      × (parse_withdrawal_log r.texts log ≡ ok p)
      × Done tag p.sui_recipient p.amount p.nonce w

  abbrev pub AllReleased : TokenRegistry → List RpcLog → W → Type 0
  AllReleased tokens [] w = Unit {0}
  AllReleased tokens (log ∷ logs) w = Released tokens log w × AllReleased tokens logs w

  -- The chain answers the burns of the tokens it was asked for, and there are none of no token.
  abbrev pub Answers : (List ℕ → ℕ → ℕ → List RpcLog) → Type 0
  Answers burns =
      ((tokens : List ℕ) (from to : ℕ) (w w' : W) (logs : List RpcLog)
        → is_nil tokens ≡ false
        → r.get_logs tokens r.withdrawal_topic from to w ≡ (ok logs, w')
        → logs ≡ burns tokens from to)
      × ((from to : ℕ) → burns [] from to ≡ [])

  -- The chain answered this head.
  abbrev pub Head : ℕ → Type 0
  Head latest = (w : W) × ((w' : W) × (r.block_number w ≡ (ok latest, w')))

  -- The cursor is past the blocks up to a head that the chain answered, and their burns are released.
  abbrev pub Moved : (List ℕ → ℕ → ℕ → List RpcLog) → ℕ → State W → Type 0
  Moved burns from st =
      (latest : ℕ) × Head latest
      × (from ≤ latest)
      × (st.cursors.next_l2_block ≡ suc latest)
      × AllReleased st.tokens (burns (addresses st.tokens) from latest) st.world
