-- ===== src/Bridge/Chains.antt =====
-- Both chains behind the relayer: the vault on Sui, and the tokens and transactions of the L2.
-- Before each request the events below may happen on them in any order, by a schedule, and any
-- request may fail; one that fails may have had its effect. Only the relayer's key sends the
-- transactions that are listed, and no other mints: no relayer of a token is set anew.
pub mod Sound
pub mod Updates
pub mod Events
pub mod Effects
pub mod Moments
pub mod Context
pub mod Minting
pub mod Sending
pub mod Entries
pub mod Tokens
pub mod Deliveries
pub mod Passes
pub mod Absorbs
pub mod Rounds
pub mod Starts
pub mod Safety
pub mod Stuck
use podseq.Prelude.{
  ℕ, suc, Bool, true, false, Option, none, some, List, [], ◌∷◌, Result, ok, err, ◌==◌, leb,
  if◌then◌else◌, ◌&&◌,
}
use podseq.Call.{Call}
use podseq.Core.Octets.{Bytes}
use podseq.Store.Map.{get, insert}
use podseq.Bridge.Abi.{RelayError, Texts, RpcLog, parse_bridge_created_log}
use podseq.Bridge.Registry.{Cursors, Spelling}
use podseq.Bridge.{
  Calldata, mint, create_bridge, Selector, last_minted_deposit_nonce, minted_any, Transaction,
  Receipt, Relayer,
}
use podseq.Bridge.Token.{Token, Revert, mint_token, initiate_withdrawal, transfer}
use podseq.Bridge.Vault.{Vault, Abort, deposit, do_withdraw}

-- A transaction of the relayer, with the status and the logs of its receipt once it is mined.
pub record Sent : Type 0 where
  pub tx : Transaction
  pub status : Option Bool
  pub logs : List RpcLog

-- The event `DepositMinted`, with the token that emits it.
pub record DepositMinted : Type 0 where
  pub token : ℕ
  pub nonce : ℕ
  pub recipient : ℕ
  pub amount : ℕ

pub data Event : Type 0 where
  deposits : Bytes → ℕ → Bytes → Event  -- the coin type, the amount and the recipient
  mines : ℕ → ℕ → RpcLog → Event  -- the transaction; the address and the log of a creation
  creates : ℕ → ℕ → RpcLog → Event  -- someone's token: its block, its address and its log
  burns moves : ℕ → ℕ → ℕ → ℕ → Event  -- the token, the sender, the other side and the amount
  produces : Event  -- a block of the L2
  passes : Event  -- anything else

pub record Moment : Type 0 where
  pub events : List Event
  pub accepted : Bool  -- whether a request takes effect
  pub answered : Bool

pub record Chains : Type 0 where
  pub vault : Vault
  pub tokens : List (ℕ × Token)
  pub created : List (ℕ × RpcLog)  -- the factory's logs, by their block
  pub sent : List (ℕ × Sent)
  pub next_hash : ℕ
  pub minted : List DepositMinted
  pub head : ℕ
  pub file : Option Cursors
  pub schedule : List Moment

-- What both chains leave open.
pub record Outside : Type 0 where
  pub texts : Texts
  pub spelling : Spelling
  pub created_topic : Bytes
  pub withdrawal_topic : Bytes
  pub normalize_coin_type : Bytes → Result (Unit {0}) Bytes
  pub coin_type_tag : Bytes → Result (Unit {0}) ℕ
  pub coin_of_tag : ℕ → Bytes
  pub status_text : Bool → Bytes
  pub encode_word : Selector → Token → Bytes
  pub burn_logs : List ℕ → ℕ → ℕ → List RpcLog
  pub factory : ℕ
  pub relayer_key : ℕ
  pub polls : ℕ
  pub gas_price : ℕ

abbrev pub fresh_token : ℕ → Token
fresh_token relayer = record {
  relayer = relayer;
  total_supply = 0;
  balance_of = [];
  last_minted_deposit_nonce = 0;
  minted_any = false;
  last_withdrawal_nonce = 0;
}

set_vault : Chains → Result Abort Vault → Chains
set_vault w (ok v) = record w { vault = v }
set_vault w (err _) = w

set_token : ℕ → Chains → Result Revert Token → Chains
set_token a w (ok t) = record w { tokens = insert a t w.tokens }
set_token a w (err _) = w

named : Result RelayError (Bytes × ℕ) → ℕ → Bool
named (ok (coin, token)) a = token == a
named (err _) a = false

coined : Result RelayError (Bytes × ℕ) → Bytes → Bool
coined (ok (coin, token)) coin_type = podseq.Bridge.Abi.same_bytes coin coin_type
coined (err _) coin_type = false

abbrev pub mined : ℕ → Sent → Bool → List RpcLog → Chains → Chains
mined i s status logs w = record w {
  sent = insert i (record s { status = some status; logs = logs }) w.sent;
}

abbrev pub vacant : ℕ → Chains → Bool
vacant a w = elim (get a w.tokens) [ none ↦ true | some _ ↦ false ]

abbrev pub emit : DepositMinted → Token → Chains → Chains
emit m t w = record w { tokens = insert m.token t w.tokens; minted = m ∷ w.minted }

unfoldable pub send : Transaction → Chains → ℕ × Chains
send tx w = (
  w.next_hash,
  record w {
    sent = insert w.next_hash (record { tx = tx; status = none; logs = [] }) w.sent;
    next_hash = suc w.next_hash;
  },
)

unfoldable pub logs_between : ℕ → ℕ → List (ℕ × RpcLog) → List RpcLog
logs_between from to [] = []
logs_between from to ((b, log) ∷ es) =
    if leb from b && leb b to then log ∷ logs_between from to es else logs_between from to es

module _ (o : Outside) where
  -- Whether the log names the address.
  unfoldable pub names : RpcLog → ℕ → Bool
  unfolding named
  names log a = named (parse_bridge_created_log o.texts o.created_topic log) a

  -- Whether the log is of the coin type.
  unfoldable pub tells_coin : RpcLog → Bytes → Bool
  unfolding coined
  tells_coin log coin_type = coined (parse_bridge_created_log o.texts o.created_topic log) coin_type

  -- A contract is created where there is none.
  abbrev pub deploy : ℕ → ℕ → RpcLog → Chains → Chains
  deploy block a log w = record w {
    tokens = insert a (fresh_token o.relayer_key) w.tokens;
    created = (block, log) ∷ w.created;
  }

  mine_minted : ℕ → Sent → DepositMinted → Chains → Result Revert Token → Chains
  mine_minted i s m w (ok t) = emit m t (mined i s true [] w)
  mine_minted i s m w (err _) = mined i s false [] w

  -- A call of an address without code succeeds and does nothing.
  mine_mint : ℕ → Sent → DepositMinted → Chains → Option Token → Chains
  unfolding mine_minted
  mine_mint i s m w none = mined i s true [] w
  mine_mint i s m w (some t) =
      mine_minted i s m w (mint_token o.relayer_key m.recipient m.amount m.nonce t)

  mine_input : ℕ → ℕ → RpcLog → Sent → Chains → Calldata → Chains
  unfolding mine_mint
  mine_input i a log s w (mint recipient amount nonce) =
      mine_mint i s
        (record { token = s.tx.to; nonce = nonce; recipient = recipient; amount = amount }) w
        (get s.tx.to w.tokens)
  mine_input i a log s w (create_bridge _ _ coin_type) =
      if vacant a w && (names log a && tells_coin log coin_type)
      then deploy w.head a log (mined i s true (log ∷ []) w)
      else mined i s false [] w

  mine_pending : ℕ → ℕ → RpcLog → Sent → Chains → Option Bool → Chains
  unfolding mine_input
  mine_pending i a log s w none = mine_input i a log s w s.tx.input
  mine_pending i a log s w (some _) = w

  mine : ℕ → ℕ → RpcLog → Chains → Option Sent → Chains
  unfolding mine_pending
  mine i a log w none = w
  mine i a log w (some s) = mine_pending i a log s w s.status

  on_token : ℕ → (Token → Result Revert Token) → Chains → Option Token → Chains
  unfolding set_token
  on_token a f w none = w
  on_token a f w (some t) = set_token a w (f t)

  happen : Event → Chains → Chains
  unfolding mine on_token set_vault names
  happen (deposits coin_type amount recipient) w =
      set_vault w (deposit coin_type amount recipient w.vault)
  happen (mines i a log) w = mine i a log w (get i w.sent)
  happen (creates block a log) w = if vacant a w && names log a then deploy block a log w else w
  happen (burns a sender recipient amount) w =
      on_token a (initiate_withdrawal sender recipient amount) w (get a w.tokens)
  happen (moves a sender to amount) w = on_token a (transfer sender to amount) w (get a w.tokens)
  happen produces w = record w { head = suc w.head }
  happen passes w = w

  happen_all : List Event → Chains → Chains
  unfolding happen
  happen_all [] w = w
  happen_all (e ∷ es) w = happen_all es (happen e w)

  calm : Moment
  calm = record { events = []; accepted = true; answered = true }

  now : List Moment → Moment
  unfolding calm
  now [] = calm
  now (m ∷ ms) = m

  later : List Moment → List Moment
  later [] = []
  later (m ∷ ms) = ms

  unfoldable pub moment : Chains → Moment
  unfolding now
  moment w = now w.schedule

  unfoldable pub elapse : Chains → Chains
  unfolding happen_all moment later
  elapse w = record (happen_all (moment w).events w) { schedule = later w.schedule }

  answer : {A : Type 0} → Bool → A → Chains → Result (Unit {0}) A × Chains
  answer true a w = (ok a, w)
  answer false a w = (err tt, w)

  -- A request that reads.
  unfoldable pub ask : {A : Type 0} → (Chains → A) → Call Chains (Unit {0}) A
  unfolding answer elapse
  ask f w = answer (moment w).answered (f (elapse w)) (elapse w)

  -- A request that changes the chains.
  unfoldable pub act : {A : Type 0} → (Chains → A × Chains) → Call Chains (Unit {0}) A
  unfolding answer elapse
  act f w =
      let (a, w') = f (elapse w) in
      if (moment w).accepted then answer (moment w).answered a w' else (err tt, elapse w)

  unfoldable pub receipt_at : Option Bool → List RpcLog → Option Receipt
  receipt_at none logs = none
  receipt_at (some status) logs = some (record { status = o.status_text status; logs = logs })

  unfoldable pub receipt_of : Option Sent → Option Receipt
  unfolding receipt_at
  receipt_of none = none
  receipt_of (some s) = receipt_at s.status s.logs

  word_of : Selector → Option Token → Bytes
  word_of selector none = []
  word_of selector (some t) = o.encode_word selector t

  withdrawn : Chains → Result Abort (Vault × Bool) → Unit {0} × Chains
  withdrawn w (ok (v, _)) = (tt, record w { vault = v })
  withdrawn w (err _) = (tt, w)

  abbrev pub factory_logs : Bool → List ℕ → ℕ → ℕ → Chains → List RpcLog
  factory_logs true tokens from to w = logs_between from to w.created
  factory_logs false tokens from to w = o.burn_logs tokens from to

  same_topic : Bytes → Bool
  same_topic topic0 = podseq.Bridge.Abi.same_bytes topic0 o.created_topic

  -- The file is written, or stays as it was.
  write_file : Bool → Cursors → Chains → Chains
  write_file true c w = record w { file = some c }
  write_file false c w = w

  unfoldable pub relayer : Relayer Chains
  unfolding word_of withdrawn same_topic write_file
  relayer = record {
    vault_status = ask (λ w. w.vault.deposit_nonce);
    deposit_at = λ nonce. ask (λ w. get nonce w.vault.deposits);
    transaction_count = ask (λ w. w.next_hash);
    gas_price = ask (λ _. o.gas_price);
    send_raw_transaction = λ tx. act (send tx);
    transaction_receipt = λ i. ask (λ w. receipt_of (get i w.sent));
    eth_call = λ a selector. ask (λ w. word_of selector (get a w.tokens));
    block_number = ask (λ w. w.head);
    get_logs = λ tokens topic0 from to. ask (factory_logs (same_topic topic0) tokens from to);
    withdraw = λ tag recipient amount nonce.
        act (λ w. withdrawn w (do_withdraw (o.coin_of_tag tag) amount nonce w.vault));
    write_cursors = λ c w. write_file (moment w).answered c w;
    read_cursors = λ w. w.file;
    texts = o.texts;
    spelling = o.spelling;
    normalize_coin_type = o.normalize_coin_type;
    coin_type_tag = o.coin_type_tag;
    created_topic = o.created_topic;
    withdrawal_topic = o.withdrawal_topic;
    factory = o.factory;
    polls = o.polls;
  }
