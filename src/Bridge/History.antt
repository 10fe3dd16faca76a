-- ===== src/Bridge/History.antt =====
-- The scan of `restore_token_registry` (crates/node/src/bridge.rs): the chunks it asks for, the
-- requests that fail and the widths it narrows to, against the logs of the factory in one list.
pub mod Blocks
mod Tests
use podseq.Prelude.{
  ℕ, zero, suc, ◌+◌, ◌-◌, ◌/◌, ◌≤◌, ◌<◌, ◌≡◌, refl, sym, ap, ◌∙◌, ◌&&◌, true, false, List, [], ◌∷◌,
  ◌++◌, Result, ok, err, arith, ltb, u64_max,
}
use podseq.Call.{modify, ◌>>=◌}
use podseq.Call.Ensures.{
  Post, Ensures, Ensures-pure, Ensures-throw, Ensures-lift, Ensures-gets, Ensures-modify,
  Ensures-bind, Ensures-bind_fact, Ensures-given, Ensures-weaken, Ensures-select, Ensures-attempt,
  Ensures-within, Ensures-answer,
}
use podseq.Call.Focus.{Ensures-focus}
use podseq.Bridge.Abi.{RelayError, RpcLog, scan_unfinished}
use podseq.Bridge.Registry.{TokenRegistry, empty_registry, Cursors, snapshot}
use podseq.Bridge.Deposits.{set_tokens, persist_cursors}
use podseq.Bridge.{Relayer, State}
use podseq.Bridge.Requests.{Step, request, on_world}
use podseq.Bridge.Withdrawals.{eth_get_logs, absorb_logs, absorb_creations}
use podseq.Bridge.Restore.{
  scanned, scan, restore_from, restore_token_registry, creation_scan_chunk, min_creation_scan_chunk,
  chunk_end, narrowed, has_entries, indexed,
}
use podseq.Bridge.History.Blocks.{logs_of, logs_of-split}

-- A width that `h` halvings bring to the smallest one.
width : ℕ → ℕ
width zero = min_creation_scan_chunk
width (suc h) = suc (width h + width h)

chunk_end-bounds :
    (from chunk head : ℕ)
    → from ≤ head
    → head ≤ u64_max
    → (from ≤ chunk_end from chunk head) × (chunk_end from chunk head ≤ head)
unfolding chunk_end
chunk_end-bounds from chunk head l b = ground arith

module _ {W : Type 0} (r : Relayer W) (blocks : ℕ → List RpcLog) where
  absorb_logs-append :
      (xs ys : List RpcLog) (tokens : TokenRegistry)
      → absorb_logs r (xs ++ ys) tokens ≡ absorb_logs r ys (absorb_logs r xs tokens)
  unfolding absorb_logs
  absorb_logs-append [] ys tokens = refl
  absorb_logs-append (x ∷ xs) ys tokens = absorb_logs-append xs ys _

  -- What the logs of the blocks before `n` make of no registry.
  unfoldable pub before : ℕ → TokenRegistry
  before n = absorb_logs r (logs_of blocks 0 n) empty_registry

  before-next :
      (from to : ℕ)
      → from ≤ to
      → absorb_logs r (logs_of blocks from (suc to - from)) (before from) ≡ before (suc to)
  unfolding before
  before-next from to l =
      sym (absorb_logs-append (logs_of blocks 0 from) _ empty_registry)
      ∙ ap (λ t. absorb_logs r t empty_registry)
          (sym (logs_of-split blocks 0 from _ from (suc to) (omega arith) (omega (arith, l))))

  -- Each answer to the scan holds the logs of the blocks it asked for, and each head is a `u64`.
  abbrev pub FactoryLogs : Type 0
  FactoryLogs =
      (from to : ℕ) (w w' : W) (logs : List RpcLog)
      → r.get_logs (r.factory ∷ []) r.created_topic from to w ≡ (ok logs, w')
      → logs ≡ logs_of blocks from (suc to - from)

  abbrev Answered : ℕ → Type 0
  Answered head = (w : W) × ((w' : W) × (r.block_number w ≡ (ok head, w')))

  abbrev pub HeadsFit : Type 0
  HeadsFit = (w w' : W) (head : ℕ) → r.block_number w ≡ (ok head, w') → head ≤ u64_max

  module _ (answers : FactoryLogs) where
    ok_err :
        {A : Type 0} {a : A} {e : RelayError} → ◌≡◌ {A = Result RelayError A} (ok a) (err e) → ⊥
    ok_err h = cc

    -- The registry holds the blocks before `n`.
    abbrev Read : ℕ → State W → Type 0
    Read n st = st.tokens ≡ before n

    abbrev Ends : RelayError → State W → Type 0
    Ends e _ = ¬ (e ≡ scan_unfinished)

    absorb_creations-Reads :
        (from to : ℕ)
        → from ≤ to
        → Ensures
            (Read from)
            (absorb_creations r from to)
            (λ _. Read (suc to))
            (λ e st. Read from st × Ends e st)
    unfolding absorb_creations eth_get_logs request on_world
    absorb_creations-Reads from to l =
        Ensures-bind
          (Ensures-bind
            (Ensures-lift {Q = λ _. Read from} _ (λ _ _ st p. p) (λ e x st p. absurd (ok_err x)))
            λ _.
              Ensures-within
                {Q = λ logs st. Read from st × (logs ≡ logs_of blocks from (suc to - from))} _
                (Ensures-weaken (λ _ p. p)
                  (λ logs st p. (p.0, answers from to p.1.1.0 p.1.0 logs p.1.1.1))
                  (λ _ _ p. (p, λ h. cc)) (Ensures-focus _ _ (λ _ _ p. p) (Ensures-answer _))))
          λ logs.
            Ensures-bind
              (Ensures-modify {Q = λ _. Read (suc to)} _ (λ st p.
                ap (λ t. absorb_logs r t st.tokens) p.1
                ∙ ap (absorb_logs r (logs_of blocks from (suc to - from))) p.0
                ∙ before-next from to l))
              λ _. Ensures-pure _ (λ st p. p)

    abbrev Found : ℕ → ℕ → Result RelayError ℕ → State W → Type 0
    Found from to (ok _) st = Read (suc to) st
    Found from to (err e) st = Read from st × Ends e st

    halved : (h chunk : ℕ) → chunk ≤ width (suc h) → chunk / 2 ≤ width h
    unfolding width
    halved h chunk l = omega (arith, l)

    -- A scan that has fuel for the blocks that are left and for `h` halvings.
    ScanReads : ℕ → ℕ → (ℕ → ℕ → Step r (Unit {0})) → Type 0
    ScanReads n head rest =
        (h chunk from : ℕ)
        → chunk ≤ width h
        → from ≤ suc head
        → suc head + h < n + from
        → Ensures (Read from) (rest chunk from) (λ _. Read (suc head)) Ends

    scanned-Reads :
        (n h head chunk from to : ℕ) (rest : ℕ → ℕ → Step r (Unit {0}))
        → ScanReads n head rest
        → chunk ≤ width h
        → from ≤ to
        → to ≤ head
        → suc head + h < suc n + from
        → (found : Result RelayError ℕ)
        → Ensures
            (Found from to found)
            (scanned r rest to chunk from found)
            (λ _. Read (suc head))
            Ends
    unfolding scanned narrowed ScanReads width
    scanned-Reads n h head chunk from to rest k c l m f (ok count) =
        k h (narrowed chunk count) (suc to) (ground (arith, c)) (omega (arith, m))
          (omega (arith, l, f))
    scanned-Reads n zero head chunk from to rest k c l m f (err e) =
        Ensures-select _ (λ t. absurd (wide chunk c t)) (λ _. Ensures-throw e (λ st p. p.1))
      where
        wide : (chunk : ℕ) → chunk ≤ width zero → ltb min_creation_scan_chunk chunk ≡ true → ⊥
        wide chunk c t = ground arith
    scanned-Reads n (suc h) head chunk from to rest k c l m f (err e) =
        Ensures-select _
          (λ _.
            Ensures-weaken (λ _ p. p.0) (λ _ _ p. p) (λ _ _ p. p)
              (k h (chunk / 2) from (halved h chunk c) (omega (arith, l, m)) (omega (arith, f))))
          (λ _. Ensures-throw e (λ st p. p.1))

    scan-Reads : (n head : ℕ) → head ≤ u64_max → ScanReads n head (scan r n head)
    unfolding scan ScanReads
    scan-Reads zero head b h chunk from c l f = absurd (omega (arith, l, f))
    scan-Reads (suc n) head b h chunk from c l f =
        Ensures-select (ltb head from) (λ t. Ensures-pure tt (λ st p. p ∙ ap before (at_end t)))
          λ t.
            Ensures-bind {Q = Found from (chunk_end from chunk head)}
              (Ensures-attempt (
                absorb_creations-Reads from (chunk_end from chunk head)
                  (chunk_end-bounds from chunk head (within_chain t) b).0))
              (scanned-Reads n h head chunk from (chunk_end from chunk head) (scan r n head)
                (scan-Reads n head b) c (chunk_end-bounds from chunk head (within_chain t) b).0
                (chunk_end-bounds from chunk head (within_chain t) b).1 f)
      where
        at_end : ltb head from ≡ true → from ≡ suc head
        at_end t = ground (arith, l)

        within_chain : ltb head from ≡ false → from ≤ head
        within_chain t = ground arith

    -- The registry and the cursors hold every block up to a head that the chain answered, and the
    -- cursors are those of the file.
    abbrev pub Indexed : State W → Type 0
    Indexed st =
        (head : ℕ) × Answered head
        × (st.tokens ≡ before (suc head))
        × (st.cursors.next_l2_block ≡ suc head)
        × (st.cursors.tokens ≡ snapshot r.spelling st.tokens)
        × ((w : W) × (st.world ≡ r.write_cursors st.cursors w))

    abbrev Blank : Cursors → Type 0
    Blank c = (has_entries c.tokens && ltb 0 c.next_l2_block) ≡ false

    indexes :
        (head : ℕ)
        → head ≤ u64_max
        → Answered head
        → (c : Cursors)
        → Ensures
            (λ _. Unit {0})
            (do
              _ ← modify (set_tokens r empty_registry)
              _ ← scan r (head + 8) head creation_scan_chunk 0
              _ ← modify (indexed r head)
              modify (persist_cursors r))
            (λ _. Indexed)
            Ends
    unfolding before width logs_of absorb_logs ScanReads
    indexes head b a c = Ensures-bind (Ensures-modify {Q = λ _. Read 0} _ (λ st p. refl)) λ _.
        Ensures-bind
          (scan-Reads (head + 8) head b 6 creation_scan_chunk 0 (omega arith) (omega arith)
            (omega arith))
          λ _.
            Ensures-bind
              (Ensures-modify
                {Q = λ _ st.
                  (st.tokens ≡ before (suc head))
                  × (st.cursors.next_l2_block ≡ suc head)
                  × (st.cursors.tokens ≡ snapshot r.spelling st.tokens)}
                _ (λ st p. (p, refl, refl)))
              λ _. Ensures-modify _ (λ st p. (head, a, p.0, p.1, p.2, (st.world, refl)))

    restore_from-indexes :
        HeadsFit → (c : Cursors) → Ensures (λ _. Blank c) (restore_from r c) (λ _. Indexed) Ends
    unfolding restore_from request on_world
    restore_from-indexes fit c =
        Ensures-given (Blank c) (λ _ p. p)
          λ f.
            Ensures-select _ (λ t. absurd (true_or (sym t ∙ f)))
              (λ _.
                Ensures-bind_fact {Q = λ _ _. Unit {0}} {F = λ head. Answered head}
                  (Ensures-within _ (
                    Ensures-weaken {P = λ _. Unit {0}} (λ _ _. tt)
                      (λ head st p. (tt, (p.1.1.0, (p.1.0, p.1.1.1)))) (λ _ _ p h. cc)
                      (Ensures-focus _ _ (λ _ _ p. p) (Ensures-answer _))))
                  λ head a. indexes head (fit a.0 a.1.0 head a.1.1) a c)
      where
        true_or : true ≡ false → ⊥
        true_or h = cc

    -- Where the cursors hold no registry, or no block cursor, a restore ends: it leaves the registry
    -- that the logs of all blocks up to the head make, in their order, with the cursors and the file
    -- to match, whichever requests failed on the way; or it reports an error of a request. It never
    -- runs out of fuel. Assumed are that an answer holds the factory's logs of the blocks it was asked
    -- for, and that a block number is a `u64`.
    pub restore_token_registry-Indexed :
        HeadsFit
        → (st : State W) → (has_entries st.cursors.tokens && ltb 0 st.cursors.next_l2_block) ≡ false
        → Post (λ _. Indexed) (λ e _. ¬ (e ≡ scan_unfinished)) (restore_token_registry r st)
    unfolding restore_token_registry
    restore_token_registry-Indexed fit st f =
        (Ensures-bind {P = λ s. Blank s.cursors} {Q = λ c _. Blank c} (Ensures-gets _ (λ _ p. p))
            (restore_from-indexes fit)).holds
          st f
