-- ===== src/Runner/Tests.antt =====
-- Instances of the theorems on the sequencer.
use podseq.Prelude.{ℕ, suc, ◌+◌, ◌≡◌, refl, true, false, none, some, List, [], ◌∷◌, ok, err, length}
use podseq.Core.{Block}
use podseq.Engine.{
  EngineClient, ExecutionPayload, valid, finalize, wait_for_forkchoice, forkchoice_attempts,
  after_update,
}
use podseq.Call.{pure, gets, modify, select, focus, ◌>>=◌}
use podseq.Store.Disk.{serde, Disk}
use podseq.Store.Pending.{pending}
use podseq.Runner.{PendingBlock, State, Runner}
use podseq.Runner.Flush.{flush_batch}
use podseq.Runner.Loop.{Event, produce, receive, flush_due, handle, run}
use podseq.Runner.Markers.{Confirmations, run-Confirmations}
use podseq.Runner.Recovery.{recover_pending}
use podseq.Runner.Recovery.Requeues.{Recovered, recover_pending-Recovered}
use podseq.Runner.Settles.{Answering, flush_batch-empties}
use podseq.Runner.Timer.{Armed, handle-Armed}

abbrev payload : ℕ → ExecutionPayload
payload n = record {
  block_hash = 100 + n;
  block_number = n;
  timestamp = 1000 + n;
  parent_hash = [];
  state_root = [];
  transactions = [];
}

abbrev engine_up : EngineClient ℕ
engine_up = record {
  fork_choice_updated_v3 =
      λ fc attributes w. (ok (record { payload_status = valid; payload_id = some 1 }), w);
  new_payload_v4 = λ p w. (ok valid, w);
  get_payload_v4 = λ id w. (ok (payload (suc w)), suc w);
  block_number = λ w. (ok w, w);
  block_by_number = λ n w. (ok (some (100 + n)), w);
}

abbrev block : ℕ → Block
block n = record {
  header = record { height = n; parent_hash = []; state_root = []; timestamp = 1000 + n };
  contents = n ∷ [];
  signature = some [];
}

abbrev head_number : List ℕ → ℕ
head_number [] = 0
head_number (n ∷ ns) = n

-- One number is enough to print these blocks; the state file is not read here.
abbrev sequencer : Runner ℕ
sequencer = record {
  engine = engine_up;
  now_unix = λ w. (1000, w);
  now = λ w. (5000, w);
  shutting_down = λ w. (false, w);
  publish = λ blocks w. (ok (length blocks), w);
  settle = λ b id w. (true, w);
  observe_block_inclusions = λ txs h w. (tt, w);
  broadcast = λ b w. (tt, w);
  sign_header = λ h. ok [];
  to_vec = λ p. ok (p.block_number ∷ []);
  hex = λ n. n ∷ [];
  block_codec = record {
    height = λ b. b.header.height;
    to_bytes = λ b. ok b.contents;
    from_bytes = λ s. ok (block (head_number s));
  };
  state_codec = record {
    to_string_pretty = λ s. ok (s.height ∷ []);
    from_str = λ s. err serde;
    default = record { head = []; safe = []; finalized = []; height = 0; timestamp = 0 };
  };
  heights_codec = record {
    to_string_pretty = λ hs. ok (b'[' ∷ hs);
    from_str = λ s. ok s;
    default = [];
  };
  fee_recipient = 0;
  da_batch_size = 100;
  flush_after = some 2000;
}

abbrev disk : Disk
disk = record { main = none; tmp = none; healthy = 99; torn = none }

abbrev at_start : State ℕ
at_start = record {
  chain = record { head = 100; safe = 100; finalized = 100; timestamp = 900 };
  blocks = record { files = []; healthy = 99; torn = [] };
  state_disk = disk;
  pending_disk = disk;
  queue = [];
  channel_open = true;
  batch = [];
  batch_bytes = 0;
  flush_at = none;
  world = 0;
}

-- Two blocks are produced and received, then the timer runs out and both are settled.
abbrev events : List Event
events = produce ∷ produce ∷ receive ∷ receive ∷ flush_due ∷ []

run-Confirmations_example :
    Confirmations sequencer at_start.chain (run sequencer 1 events at_start).chain
run-Confirmations_example = run-Confirmations sequencer 1 events at_start

abbrev pending_block : ℕ → PendingBlock
pending_block n = record { block = block n; block_hash = 100 + n; height = n }

abbrev with_batch : State ℕ
with_batch = record at_start {
  batch = pending_block 1 ∷ pending_block 2 ∷ [];
  batch_bytes = 2;
  flush_at = some 7000;
}

sequencer-Answering : Answering sequencer
unfolding finalize wait_for_forkchoice forkchoice_attempts after_update pure ◌>>=◌
sequencer-Answering = record {
  running = λ w. refl;
  publishes = λ blocks w. (length blocks, refl);
  settles = λ b id w. refl;
  confirms = λ head safe finalized w. refl;
}

flush_batch-empties_example :
    ((flush_batch sequencer 1 with_batch).0 ≡ ok tt)
    × ((flush_batch sequencer 1 with_batch).1.batch ≡ [])
flush_batch-empties_example = flush_batch-empties sequencer sequencer-Answering 0 with_batch

-- The first block of a batch sets the timer.
abbrev queued : State ℕ
queued = record at_start { queue = pending_block 1 ∷ [] }

handle-Armed_example : Armed (some 2000) (pending_block 1 ∷ []) (some 7000)
unfolding handle ◌>>=◌ gets modify select focus pure
handle-Armed_example =
    handle-Armed sequencer 1 receive queued
      (record at_start { batch = pending_block 1 ∷ []; batch_bytes = 1; flush_at = some 7000 }) refl
      refl

-- Two markers are left and one block is on disk.
abbrev restarted : State ℕ
restarted = record at_start {
  blocks = record { files = (1, 1 ∷ []) ∷ []; healthy = 99; torn = [] };
  pending_disk = record disk { main = some (1 ∷ 2 ∷ []) };
}

recover_pending-Recovered_example :
    Recovered sequencer
      (λ bytes. ok (payload (head_number bytes)))
      restarted
      (pending sequencer.heights_codec restarted.pending_disk)
      (recover_pending sequencer (λ bytes. ok (payload (head_number bytes))) restarted).1
recover_pending-Recovered_example =
    recover_pending-Recovered sequencer (λ bytes. ok (payload (head_number bytes))) restarted refl
