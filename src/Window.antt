-- ===== src/Window.antt =====
-- The inclusion window: `InboxReader::window`, `effective_window_ms` and `validate_window_change` of
-- crates/sui/src/inbox.rs. The ids of the two dynamic fields and their decoders are parameters.
pub mod Contract
mod Changes
mod Reads
mod Tests
use podseq.Prelude.{ℕ, ◌&&◌, not, Option, none, some, leb, ◌==◌, if◌then◌else◌, Result, ok, err}
use podseq.Deadline.Monitor.{Bytes, InboxError, not_found, InboxTransport}

abbrev pub default_window_ms : ℕ
default_window_ms = 600000

abbrev pub min_window_ms : ℕ
min_window_ms = 60000

abbrev pub max_window_ms : ℕ
max_window_ms = 3600000

abbrev pub min_widen_delay_ms : ℕ
min_widen_delay_ms = 600000

abbrev pub max_widen_delay_ms : ℕ
max_widen_delay_ms = 604800000

pub record PendingWindow : Type 0 where
  pub new_window_ms : ℕ
  pub effective_at_ms : ℕ

pub record WindowView : Type 0 where
  pub override_ms : Option ℕ
  pub pending : Option PendingWindow
  pub effective_ms : ℕ

abbrev pub unwrap_or : Option ℕ → ℕ → ℕ
unwrap_or none d = d
unwrap_or (some x) d = x

unfoldable pub effective_window_ms : Option ℕ → Option PendingWindow → ℕ → ℕ
effective_window_ms override_ms none now_ms = unwrap_or override_ms default_window_ms
effective_window_ms override_ms (some staged) now_ms =
    if leb staged.effective_at_ms now_ms
    then staged.new_window_ms
    else unwrap_or override_ms default_window_ms

pub data ChangeError : Type 0 where
  window_outside delay_outside : ChangeError

unfoldable pub validate_window_change : ℕ → ℕ → Result ChangeError (Unit {0})
validate_window_change new_window_ms delay_ms =
    if not (leb min_window_ms new_window_ms && leb new_window_ms max_window_ms)
    then err window_outside
    else if not (delay_ms == 0)
        && not (leb min_widen_delay_ms delay_ms && leb delay_ms max_widen_delay_ms)
    then err delay_outside
    else ok tt

-- The ids of the fields `window_field_id` and `pending_window_field_id`, and the decoders.
pub record WindowFields : Type 0 where
  pub window_field_id : ℕ
  pub pending_window_field_id : ℕ
  pub parse_window_override : Bytes → Result InboxError ℕ
  pub parse_pending_window : Bytes → Result InboxError PendingWindow

module _ {S : Type 0} (transport : InboxTransport S) (fields : WindowFields) where
  decode_some : {A : Type 0} → Result InboxError A → Result InboxError (Option A)
  decode_some (ok a) = ok (some a)
  decode_some (err e) = err e

  -- One of the two fields: an absent one is no error.
  field_of :
      {A : Type 0}
      → (Bytes → Result InboxError A)
      → Result InboxError Bytes × S
      → Result InboxError (Option A) × S
  unfolding decode_some
  field_of parse (ok bytes, s) = (decode_some (parse bytes), s)
  field_of parse (err not_found, s) = (ok none, s)
  field_of parse (err e, s) = (err e, s)

  view_of :
      Option ℕ → ℕ → Result InboxError (Option PendingWindow) × S → Result InboxError WindowView × S
  unfolding effective_window_ms
  view_of override_ms now_ms (ok pending, s) = (
    ok (record {
      override_ms = override_ms;
      pending = pending;
      effective_ms = effective_window_ms override_ms pending now_ms;
    }),
    s,
  )
  view_of override_ms now_ms (err e, s) = (err e, s)

  after_override : ℕ → Result InboxError (Option ℕ) × S → Result InboxError WindowView × S
  unfolding view_of field_of
  after_override now_ms (err e, s) = (err e, s)
  after_override now_ms (ok override_ms, s) = view_of override_ms now_ms (
      field_of fields.parse_pending_window
        (transport.object_contents fields.pending_window_field_id s))

  unfoldable pub window : ℕ → S → Result InboxError WindowView × S
  unfolding after_override field_of
  window now_ms s =
      after_override now_ms
        (field_of fields.parse_window_override (transport.object_contents fields.window_field_id s))
