-- ===== src/FullNode/Tests.antt =====
-- Instances of the theorems on the full node, over a chain of blocks whose payloads are one byte.
use podseq.Prelude.{
  ℕ, zero, suc, ◌+◌, ◌≤◌, ◌<◌, ◌≡◌, refl, sym, ◌∙◌, ap, Bool, true, false, none, some, List, [],
  ◌∷◌, ◌++◌, Result, ok, err, length, take, drop, All, arith, ◌==◌, leb, if◌then◌else◌,
  ok_injective, Option,
}
use podseq.Core.{Block, verify_block_signature}
use podseq.Core.Octets.{Bytes, take-append, drop-append}
use podseq.Engine.{EngineClient, ExecutionPayload, valid}
use podseq.Store.Disk.{
  Text, StoreError, Disk, Fault, with_fault, Codec, IsRoundTrip, is_blank, is_whitespace, save_raw,
  write_tmp, rename_tmp, serde,
}
use podseq.Store.State.{ChainState, save}
use podseq.FullNode.{NodeState, State, FullNode, decoded, verify_signature, stored_state}
use podseq.FullNode.Sync.{find_height, poll_p2p, sync_from_settlement, ticks}
use podseq.FullNode.Finality.{
  SamePointers, Final, SignedHead, ticks-Final, poll_p2p-SamePointers, ticks-SignedHead,
}
use podseq.FullNode.Succeeds.{Reliable}
use podseq.FullNode.Reaches.{sync_from_settlement-reaches}
use podseq.FullNode.Start.{new, start}
use podseq.FullNode.Start.Restores.{IsHex, start-new}

abbrev block : ℕ → Block
block n = record {
  header = record { height = n; parent_hash = []; state_root = []; timestamp = 1000 + n };
  contents = n ∷ [];
  signature = some [];
}

abbrev payload : ℕ → ExecutionPayload
payload n = record {
  block_hash = n + 100;
  block_number = n;
  timestamp = 1000 + n;
  parent_hash = [];
  state_root = [];
  transactions = [];
}

abbrev head_byte : Bytes → ℕ
head_byte [] = 0
head_byte (b ∷ bs) = b

-- A client that confirms all and has the block of every height; it counts the payloads.
abbrev engine_up : EngineClient ℕ
engine_up = record {
  fork_choice_updated_v3 =
      λ fc attributes w. (ok (record { payload_status = valid; payload_id = none }), w);
  new_payload_v4 = λ p w. (ok valid, suc w);
  get_payload_v4 = λ id w. (ok (payload id), w);
  block_number = λ w. (ok 7, w);
  block_by_number = λ n w. (ok (some (n + 100)), w);
}

-- `0x` and one digit per unit.
ones : ℕ → Text
ones zero = []
ones (suc n) = b'1' ∷ ones n

hex : ℕ → Text
unfolding ones
hex n = b'x' ∷ ones n

from_hex : Text → Option ℕ
from_hex [] = none
from_hex (x ∷ xs) = some (length xs)

print_state : ChainState → Text
print_state s =
    b'{'
    ∷ s.height
    ∷ s.timestamp
    ∷ length s.head
    ∷ length s.safe
    ∷ (s.head ++ (s.safe ++ s.finalized))

abbrev read_state : Text → Result StoreError ChainState
read_state (_ ∷ h ∷ t ∷ a ∷ b ∷ rest) = ok (record {
  head = take a rest;
  safe = take b (drop a rest);
  finalized = drop b (drop a rest);
  height = h;
  timestamp = t;
})
read_state _ = err serde

abbrev empty_state : ChainState
empty_state = record { head = []; safe = []; finalized = []; height = 0; timestamp = 0 }

abbrev state_codec : Codec ChainState
state_codec = record {
  to_string_pretty = λ s. ok (print_state s);
  from_str = read_state;
  default = empty_state;
}

read_state-print_state : (s : ChainState) → read_state (print_state s) ≡ ok s
unfolding print_state
read_state-print_state s =
    rw
      (
        take-append s.head (s.safe ++ s.finalized) (length s.head) refl,
        drop-append s.head (s.safe ++ s.finalized) (length s.head) refl,
        take-append s.safe s.finalized (length s.safe) refl,
        drop-append s.safe s.finalized (length s.safe) refl,
      )
      refl

state_codec-IsRoundTrip : IsRoundTrip state_codec
unfolding is_blank is_whitespace print_state
state_codec-IsRoundTrip = record {
  reads_back = λ s text e. ap read_state (sym (ok_injective e)) ∙ read_state-print_state s;
  not_blank = λ s text e. ap is_blank (sym (ok_injective e)) ∙ refl;
}

abbrev blob_of : ℕ → ℕ
blob_of h = if leb h 2 then 0 else 1

abbrev batch : ℕ → List Block
batch id = if id == 0 then block 1 ∷ block 2 ∷ [] else block 3 ∷ []

-- Blobs 0 and 1 hold the heights 1 and 2, and 3; the monitor reads a halt.
abbrev node_up : FullNode ℕ
node_up = record {
  engine = engine_up;
  latest_height = λ w. (ok 3, w);
  read_table_uid = λ w. (ok 9, w);
  commitment_at = λ uid h w. (ok (if uid == 9 then some (blob_of h) else none), w);
  fetch = λ id w. (if leb id 1 then ok (batch id) else err tt, w);
  verify = λ message sig. ok tt;
  decode_payload = λ bytes. ok (payload (head_byte bytes));
  state_codec = state_codec;
  hex = hex;
  deadline = none;
  receiver = true;
  poll_next = λ w. (some (record { height = 9; digest = [] }), w);
  receive = λ digest w. (some (block 9), w);
}

abbrev empty_disk : Disk
empty_disk = record { main = none; tmp = none; healthy = 9; torn = none }

abbrev fresh : NodeState
fresh = record {
  synced_height = 0;
  head = 100;
  head_height = 0;
  safe = 100;
  finalized = 100;
  table_uid = none;
  halt_gate = record { last = none };
}

abbrev at_start : State ℕ
at_start = record { node = fresh; disk = empty_disk; world = 0 }

-- Two ticks finalize the third block and take the ninth from the peers.
after_ticks : NodeState
after_ticks = (ticks node_up 2 at_start).node

ticks-Final_example : Final node_up fresh (ticks node_up 2 at_start).node
ticks-Final_example = ticks-Final node_up 2 at_start

ticks-SignedHead_example : SignedHead node_up fresh (ticks node_up 2 at_start).node
ticks-SignedHead_example = ticks-SignedHead node_up 2 at_start

poll_p2p-SamePointers_example :
    SamePointers fresh
      (poll_p2p node_up at_start).1.node.synced_height
      (poll_p2p node_up at_start).1.node.safe
      (poll_p2p node_up at_start).1.node.finalized
poll_p2p-SamePointers_example = poll_p2p-SamePointers node_up at_start

-- The head is above the block, which the client has.
abbrev ahead : State ℕ
ahead = record at_start { node = record fresh { head = 105; head_height = 5 } }

height_found : (h : ℕ) → 0 < h → h ≤ 3 → find_height h (batch (blob_of h)) ≡ some (block h)
unfolding find_height
height_found zero p l = absurd (omega arith)
height_found (suc zero) p l = refl
height_found (suc (suc zero)) p l = refl
height_found (suc (suc (suc zero))) p l = refl
height_found (suc (suc (suc (suc n)))) p l = absurd (omega arith)

served :
    (b : Bool) (w : ℕ) → node_up.fetch (if b then 0 else 1) w ≡ (ok (batch (if b then 0 else 1)), w)
served true w = refl
served false w = refl

node_up-Reliable : Reliable node_up 3
unfolding decoded verify_signature verify_block_signature
node_up-Reliable = record {
  blob_of = blob_of;
  batch = batch;
  block_at = block;
  payload_at = payload;
  frontier = λ w. (3, w, refl, refl);
  table_uid = 9;
  table = λ w. (9, w, refl, refl);
  settled = λ h p l w. (some (blob_of h), w, refl, refl);
  stored = λ h p l w. (batch (blob_of h), w, served (leb h 2) w, refl);
  found = height_found;
  at_height = λ h p l. refl;
  signed = λ h p l. refl;
  decodes = λ h p l. refl;
  submits = λ p w. (valid, suc w, refl, tt);
  updates = λ fc w. (record { payload_status = valid; payload_id = none }, w, refl, tt);
  answers = λ h w. (some (h + 100), w, refl, tt);
}

sync_from_settlement-reaches_example :
    ((sync_from_settlement node_up at_start).0 ≡ ok tt)
    × ((sync_from_settlement node_up at_start).1.node.synced_height ≡ 3)
sync_from_settlement-reaches_example =
    sync_from_settlement-reaches node_up 3 node_up-Reliable at_start (λ uid e. absurd (no_table e))
  where
    no_table : {uid : ℕ} → ◌≡◌ {A = Option ℕ} none (some uid) → ⊥
    no_table e = cc

hex-plain : (n : ℕ) → All (λ x. is_whitespace x ≡ false) (ones n)
unfolding ones is_whitespace
hex-plain zero = tt
hex-plain (suc n) = (refl, hex-plain n)

length-ones : (n : ℕ) → length (ones n) ≡ n
unfolding ones
length-ones zero = refl
length-ones (suc n) = ap suc (length-ones n)

hex-IsHex : IsHex hex from_hex
unfolding hex from_hex is_whitespace
hex-IsHex = record {
  reads = λ n. ap some (length-ones n);
  plain = λ n. (refl, hex-plain n);
  non_empty = λ n e. ground arith;
}

abbrev finalized_three : NodeState
finalized_three = record fresh {
  synced_height = 3;
  head = 105;
  head_height = 5;
  safe = 103;
  finalized = 103;
}

abbrev reboot : Fault
reboot = record { healthy = 2; torn = none }

start-new_example :
    let d =
      with_fault reboot
        (save state_codec (stored_state node_up (block 3) finalized_three) empty_disk).1 in
    let m =
      (start node_up from_hex 5
        (new node_up from_hex d).1
        (record { node = (new node_up from_hex d).0; disk = d; world = 0 })).1.node in
    (m.synced_height ≡ 3)
    × (m.head ≡ 105)
    × (m.safe ≡ 103)
    × (m.finalized ≡ 103)
    × (m.head_height ≡ 3)
unfolding save save_raw write_tmp rename_tmp
start-new_example =
    start-new node_up from_hex state_codec-IsRoundTrip hex-IsHex (block 3) finalized_three
      empty_disk reboot 5 0 (omega arith) refl
