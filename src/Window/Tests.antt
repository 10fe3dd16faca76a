-- ===== src/Window/Tests.antt =====
-- Runs and instances of the theorems on the window.
use podseq.Prelude.{ℕ, refl, none, some, [], ◌∷◌, ◌==◌, if◌then◌else◌, Result, ok, err}
use podseq.Deadline.Monitor.{Bytes, InboxError, parse, not_found, InboxTransport}
use podseq.Window.{PendingWindow, WindowFields}
use podseq.Window.Contract.{WindowState}
use podseq.Window.Reads.{Serves}

abbrev plain : WindowState
plain = record { override_ms = none; pending = none }

-- A widening to twenty minutes that took effect at 600000.
abbrev elapsed : WindowState
elapsed = record {
  override_ms = none;
  pending = some (record { new_window_ms = 1200000; effective_at_ms = 600000 });
}

abbrev staged_again : WindowState
staged_again = record {
  override_ms = none;
  pending = some (record { new_window_ms = 3600000; effective_at_ms = 1300000 });
}

abbrev narrowed : WindowState
narrowed = record { override_ms = some 90000; pending = none }

abbrev override_of : Bytes → Result InboxError ℕ
override_of (v ∷ []) = ok v
override_of _ = err parse

abbrev staged_of : Bytes → Result InboxError PendingWindow
staged_of (v ∷ t ∷ []) = ok (record { new_window_ms = v; effective_at_ms = t })
staged_of _ = err parse

abbrev fields : WindowFields
fields = record {
  window_field_id = 1;
  pending_window_field_id = 2;
  parse_window_override = override_of;
  parse_pending_window = staged_of;
}

-- A chain that has a staged widening and no override.
abbrev serving : InboxTransport ℕ
serving = record {
  object_contents = λ id s. (if id == 2 then ok (1200000 ∷ 600000 ∷ []) else err not_found, s);
  field_contents = λ table key s. (ok none, s);
}

serving-Serves : Serves serving fields 0 elapsed
serving-Serves = record { window = (refl, refl); staged = (refl, refl) }
