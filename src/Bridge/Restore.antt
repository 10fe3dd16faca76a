-- ===== src/Bridge/Restore.antt =====
-- How the relayer of crates/node/src/bridge.rs gets its token registry at the start: from the cursors
-- file, or by a scan of the factory's history in chunks that narrow. The scan is given fuel.
use podseq.Prelude.{
  Option, some, none, Result, ok, err, ℕ, zero, suc, ◌+◌, ◌-◌, ◌/◌, Bool, true, false, ◌&&◌, List,
  [], ◌∷◌, ok, err, map_err, ltb, leb, if◌then◌else◌, saturating_add,
}
use podseq.Call.{pure, throw, lift, gets, modify, select, attempt, ◌>>=◌}
use podseq.Bridge.Abi.{RelayError, not_hex, scan_unfinished}
use podseq.Core.Octets.{Bytes}
use podseq.Bridge.Registry.{empty_registry, Cursors, default_cursors, snapshot, from_snapshot}
use podseq.Bridge.{Relayer, State}
use podseq.Bridge.Requests.{Step, request}
use podseq.Bridge.Deposits.{set_tokens, persist_cursors}
use podseq.Bridge.Withdrawals.{absorb_creations}

abbrev pub creation_scan_chunk : ℕ
creation_scan_chunk = 2500

abbrev pub min_creation_scan_chunk : ℕ
min_creation_scan_chunk = 64

abbrev pub creation_scan_halve_after : ℕ
creation_scan_halve_after = 500

unfoldable pub chunk_end : ℕ → ℕ → ℕ → ℕ
chunk_end from chunk head =
    if ltb (saturating_add from (chunk - 1)) head then saturating_add from (chunk - 1) else head

unfoldable pub narrowed : ℕ → ℕ → ℕ
narrowed chunk found =
    if leb creation_scan_halve_after found && ltb min_creation_scan_chunk chunk
    then chunk / 2
    else chunk

unfoldable pub has_entries : List (Bytes × Bytes) → Bool
has_entries [] = false
has_entries (e ∷ es) = true

module _ {W : Type 0} (r : Relayer W) where
  unfoldable pub scanned :
      (ℕ → ℕ → Step r (Unit {0})) → ℕ → ℕ → ℕ → Result RelayError ℕ → Step r (Unit {0})
  unfolding narrowed
  scanned rest to chunk from (ok count) = rest (narrowed chunk count) (suc to)
  scanned rest to chunk from (err e) =
      select (ltb min_creation_scan_chunk chunk) (rest (chunk / 2) from) (throw e)

  -- The registry grows by each chunk. The fuel counts the requests.
  unfoldable pub scan : ℕ → ℕ → ℕ → ℕ → Step r (Unit {0})
  unfolding chunk_end scanned
  scan zero head chunk from = throw scan_unfinished
  scan (suc n) head chunk from = select (ltb head from) (pure tt) (do
    found ← attempt (absorb_creations r from (chunk_end from chunk head))
    scanned (scan n head) (chunk_end from chunk head) chunk from found)

  abbrev pub indexed : ℕ → State W → State W
  indexed head st = record st {
    cursors = record st.cursors {
      next_l2_block = suc head;
      tokens = snapshot r.spelling st.tokens;
    };
  }

  unfoldable pub restore_from : Cursors → Step r (Unit {0})
  unfolding scan has_entries
  restore_from cursors =
      select (has_entries cursors.tokens && ltb 0 cursors.next_l2_block)
        (do
          tokens ← lift (map_err (λ _. not_hex) (from_snapshot r.spelling cursors.tokens))
          modify (set_tokens r tokens))
        (do
          head ← request r r.block_number
          _ ← modify (set_tokens r empty_registry)
          _ ← scan (head + 8) head creation_scan_chunk 0
          _ ← modify (indexed head)
          modify (persist_cursors r))

  unfoldable pub restore_token_registry : Step r (Unit {0})
  unfolding restore_from
  restore_token_registry = do cursors ← gets (λ st. st.cursors); restore_from cursors

  unfoldable pub load_cursors : Option Cursors → Cursors
  load_cursors (some c) = c
  load_cursors none = default_cursors

  abbrev pub set_cursors : Cursors → State W → State W
  set_cursors c st = record st { cursors = c }

  -- What `BridgeRelayer::new` reads of the cursors file.
  unfoldable pub start : Step r (Unit {0})
  unfolding restore_token_registry load_cursors
  start = do
    stored ← gets (λ st. r.read_cursors st.world)
    _ ← modify (set_cursors (load_cursors stored))
    restore_token_registry
