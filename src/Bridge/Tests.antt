-- ===== src/Bridge/Tests.antt =====
-- A relayer that is started over fresh chains, creates a token and mints two deposits on it.
use podseq.Prelude.{
  ℕ, zero, suc, ◌+◌, ◌≤◌, ◌≡◌, refl, sym, ap, ◌∙◌, Bool, true, false, none, some, List, [], ◌∷◌,
  ◌++◌, Result, ok, err, arith, ok_injective, if◌then◌else◌,
}
use podseq.Call.{◌>>=◌, gets, modify, select, within, focus, attempt, lift, pure}
use podseq.Core.Octets.{Bytes}
use podseq.Bridge.Abi.{
  word_u64, decode_word_address, parse_bridge_created_log, RpcLog, from_be_bytes, slice, trim_0x,
}
use podseq.Bridge.Registry.{
  token_for, find, put, add_token, snapshot, from_snapshot, addresses, default_cursors,
  empty_registry,
}
use podseq.Bridge.{State, DepositRecord, Selector, last_minted_deposit_nonce, minted_any}
use podseq.Bridge.Token.{Token, mint_token, balance}
use podseq.Bridge.Vault.{deposit, reserve, withdraw_key}
use podseq.Bridge.Vault.Ledger.{VaultCall, calls, locked_of, released_of, releases, calls_balance}
use podseq.Bridge.Withdrawals.{absorb_logs, pass, passes, restarts, rounds}
use podseq.Bridge.Deposits.{derive_token_metadata, relay_deposits}
use podseq.Bridge.Requests.{request, on_world, ensure_receipt_success, last_is_set}
use podseq.Store.Map.{get, insert}
use podseq.Bridge.Restore.{start}
use podseq.Bridge.Chains.{
  Chains, Event, deposits, mines, Moment, Outside, relayer, ask, act, send, receipt_of, moment,
  elapse, names, tells_coin, logs_between,
}
use podseq.Bridge.Chains.Sound.{Delivered}
use podseq.Bridge.Chains.Context.{Spells}
use podseq.Bridge.Chains.Safety.{IsFresh, rounds-Delivered}
use podseq.Bridge.Chains.Stuck.{rounds-zero_recipient}

unfoldable pub repeat : ℕ → ℕ → Bytes
repeat b zero = []
repeat b (suc n) = b ∷ repeat b n

abbrev pub word : ℕ → Bytes
word n =
    0 ∷ 0 ∷ 0 ∷ 0 ∷ 0 ∷ 0 ∷ 0 ∷ 0 ∷ 0 ∷ 0 ∷ 0 ∷ 0 ∷ 0 ∷ 0 ∷ 0 ∷ 0 ∷ 0 ∷ 0 ∷ 0 ∷ 0 ∷ 0 ∷ 0 ∷ 0 ∷ 0
    ∷ 0 ∷ 0 ∷ 0 ∷ 0 ∷ 0 ∷ 0 ∷ 0 ∷ n ∷ []

pub encode_answer : Selector → Token → Bytes
encode_answer last_minted_deposit_nonce t = word t.last_minted_deposit_nonce
encode_answer minted_any t = word (if t.minted_any then 1 else 0)

pub parse : Bytes → Result (Unit {0}) ℕ
parse [] = err tt
parse (a ∷ rest) = ok a

abbrev pub outside : Outside
outside = record {
  texts = record { hex_decode = λ text. some text; is_utf8 = λ _. true };
  spelling = record {
    hex_encode = λ b. b;
    hex_decode = λ b. ok b;
    print_address = λ a. a ∷ [];
    parse_address = parse;
  };
  created_topic = word 1;
  withdrawal_topic = word 2;
  normalize_coin_type = λ b. ok b;
  coin_type_tag = λ _. ok 0;
  coin_of_tag = λ _. [];
  status_text = λ b. 48 ∷ 120 ∷ (if b then 49 else 48) ∷ [];
  encode_word = encode_answer;
  burn_logs = λ _ _ _. [];
  factory = 16;
  relayer_key = 9;
  polls = 0;
  gas_price = 5;
}

-- The token 77 of the coin "A".
abbrev pub created : RpcLog
created = record {
  address = [];
  topics = word 1 ∷ word 77 ∷ [];
  contents = word 32 ++ (word 1 ++ (65 ∷ []));
}

abbrev after : List Event → Moment
after events = record { events = events; accepted = true; answered = true }

abbrev quiet : Moment
quiet = after []

-- The vault takes two deposits for this recipient when the relayer is up.
abbrev fresh : Bytes → State Chains
fresh recipient = record {
  cursors = default_cursors;
  tokens = empty_registry;
  world = record {
    vault = record {
      deposit_nonce = 0;
      withdraw_nonce = 0;
      reserves = [];
      deposits = [];
      processed_withdrawals = [];
    };
    tokens = [];
    created = [];
    sent = [];
    next_hash = 0;
    minted = [];
    head = 0;
    file = none;
    schedule =
        quiet
        ∷ quiet
        ∷ after (deposits (65 ∷ []) 30 recipient ∷ deposits (65 ∷ []) 40 recipient ∷ [])
        ∷ quiet
        ∷ quiet
        ∷ quiet
        ∷ quiet
        ∷ after (mines 0 77 created ∷ [])
        ∷ quiet
        ∷ quiet
        ∷ quiet
        ∷ quiet
        ∷ quiet
        ∷ after (mines 1 0 created ∷ [])
        ∷ quiet
        ∷ quiet
        ∷ quiet
        ∷ quiet
        ∷ quiet
        ∷ quiet
        ∷ after (mines 2 0 created ∷ [])
        ∷ [];
  };
}

outside-Spells : Spells outside
unfolding trim_0x encode_answer slice from_be_bytes parse
outside-Spells = record {
  failed_status = refl;
  last_word = λ t low e. ap (from_be_bytes 0) (sym (ok_injective e)) ∙ omega arith;
  address_read = λ a. refl;
  hex_read = λ b. refl;
  any_word = λ t. set_bit t.minted_any;
}
  where
    set_bit : (b : Bool) → last_is_set (word (if b then 1 else 0)) ≡ b
    set_bit true = refl
    set_bit false = refl

fresh-IsFresh : (recipient : Bytes) → IsFresh (fresh recipient)
unfolding get
fresh-IsFresh recipient = record {
  cursor = refl;
  registry = refl;
  file = refl;
  nothing_sent = refl;
  nothing_minted = refl;
  nothing_created = refl;
  deposits_below = λ n d e. cc;
  tokens_unminted = λ a t e. cc;
}

abbrev last : Bytes → State Chains
last recipient =
    (rounds (relayer outside) (start (relayer outside)) (restarts ∷ passes ∷ [])
      (false, fresh recipient)).1

cursor_two : (last (repeat 3 20)).cursors.next_deposit_nonce ≡ 2
unfolding rounds start pass relay_deposits repeat encode_answer parse ◌>>=◌ gets modify select
    relayer request on_world within focus ask act attempt lift pure get insert token_for find put
    add_token snapshot from_snapshot logs_between from_be_bytes slice trim_0x word_u64
    decode_word_address parse_bridge_created_log mint_token balance send receipt_of moment elapse
    names absorb_logs deposit addresses derive_token_metadata ensure_receipt_success tells_coin
cursor_two = refl

rounds-Delivered_example : Delivered outside 1 (last (repeat 3 20)).world
rounds-Delivered_example =
    rounds-Delivered outside outside-Spells (fresh (repeat 3 20)) (restarts ∷ passes ∷ []) 1
      (fresh-IsFresh (repeat 3 20)) (omega (arith, cursor_two))

abbrev for_zero : DepositRecord
for_zero = record { amount = 30; recipient_l2 = repeat 0 20; coin_type = 65 ∷ [] }

deposited_zero : get 0 (last (repeat 0 20)).world.vault.deposits ≡ some for_zero
unfolding rounds start pass relay_deposits repeat encode_answer parse ◌>>=◌ gets modify select
    relayer request on_world within focus ask act attempt lift pure get insert token_for find put
    add_token snapshot from_snapshot logs_between from_be_bytes slice trim_0x word_u64
    decode_word_address parse_bridge_created_log mint_token balance send receipt_of moment elapse
    names absorb_logs deposit addresses derive_token_metadata ensure_receipt_success tells_coin
deposited_zero = refl

zero_address : from_be_bytes 0 (repeat 0 20) ≡ 0
unfolding from_be_bytes repeat
zero_address = refl

rounds-zero_recipient_example : (last (repeat 0 20)).cursors.next_deposit_nonce ≤ 0
rounds-zero_recipient_example =
    rounds-zero_recipient outside outside-Spells (fresh (repeat 0 20)) (restarts ∷ passes ∷ [])
      (fresh-IsFresh (repeat 0 20)) 0 for_zero deposited_zero zero_address

-- A deposit, its release, the same release again, and one that aborts.
abbrev vault_calls : List VaultCall
vault_calls =
    VaultCall.deposits (65 ∷ []) 30 (repeat 3 20)
    ∷ VaultCall.withdraws (65 ∷ []) 10 0
    ∷ VaultCall.withdraws (65 ∷ []) 10 0
    ∷ VaultCall.withdraws (65 ∷ []) 50 1
    ∷ []

calls_balance_example :
    (reserve (65 ∷ []) (calls vault_calls ((fresh []).world.vault, [])).0
        + released_of (65 ∷ []) (calls vault_calls ((fresh []).world.vault, [])).1
      ≡ reserve (65 ∷ []) (fresh []).world.vault
        + locked_of (65 ∷ []) (calls vault_calls ((fresh []).world.vault, [])).1)
    × (releases (withdraw_key (65 ∷ []) 0) (calls vault_calls ((fresh []).world.vault, [])).1 ≤ 1)
calls_balance_example = calls_balance (fresh []).world.vault vault_calls (65 ∷ []) 0
