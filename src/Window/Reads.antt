-- ===== src/Window/Reads.antt =====
-- The window that the node reads against the one that the contract charges.
use podseq.Prelude.{ℕ, ◌≡◌, Option, none, some, arith, Result, ok, err}
use podseq.Deadline.Monitor.{Bytes, InboxError, not_found, InboxTransport}
use podseq.Window.{WindowFields, window, effective_window_ms}
use podseq.Window.Contract.{WindowState, charged}

-- The read of a field that holds `value` on chain, or is absent.
abbrev pub Holds :
    {A S : Type 0}
    → (Bytes → Result InboxError A)
    → Option A
    → S
    → Result InboxError Bytes × S
    → Type 0
Holds parse none s (ok bytes, t) = ⊥
Holds parse none s (err e, t) = (e ≡ not_found) × (t ≡ s)
Holds parse (some a) s (ok bytes, t) = (parse bytes ≡ ok a) × (t ≡ s)
Holds parse (some a) s (err e, t) = ⊥

module _ {S : Type 0} (transport : InboxTransport S) (fields : WindowFields) where
  -- The chain `s` serves the window state `w`.
  pub record Serves (s : S) (w : WindowState) : Type 0 where
    pub window :
        Holds fields.parse_window_override w.override_ms s
          (transport.object_contents fields.window_field_id s)
    pub staged :
        Holds fields.parse_pending_window w.pending s
          (transport.object_contents fields.pending_window_field_id s)

  -- From a chain that serves the window fields of the contract, the node reads both of them and the
  -- window that the contract charges at the same time; an absent field is no error.
  pub window-charged :
      (s : S) (w : WindowState) (now : ℕ)
      → Serves s w
      → window transport fields now s ≡ (
        ok (record {
          override_ms = w.override_ms;
          pending = w.pending;
          effective_ms = charged w now;
        }),
        s,
      )
  unfolding window charged effective_window_ms
  window-charged s w now h = ground arith
