-- ===== src/Window/Contract.antt =====
-- move/sources/inbox.move: the window override and the staged widening, two dynamic fields of the
-- inbox. A call gives the new fields or an abort; `now` is the clock. Events carry no state.
use podseq.Prelude.{ℕ, ◌+◌, ◌&&◌, Option, none, some, leb, if◌then◌else◌, u64_max, Result, ok, err}
use podseq.Window.{
  PendingWindow, unwrap_or, default_window_ms, min_window_ms, max_window_ms, min_widen_delay_ms,
  max_widen_delay_ms,
}

pub data Abort : Type 0 where
  window_out_of_bounds delay_out_of_bounds no_pending_window arithmetic : Abort

pub record WindowState : Type 0 where
  pub override_ms : Option ℕ
  pub pending : Option PendingWindow

unfoldable pub charged : WindowState → ℕ → ℕ
charged w now = elim w.pending [
  | none ↦ unwrap_or w.override_ms default_window_ms
  | some p ↦
      if leb p.effective_at_ms now
      then p.new_window_ms
      else unwrap_or w.override_ms default_window_ms
]

unfoldable pub stage_window_change : WindowState → ℕ → ℕ → ℕ → Result Abort WindowState
unfolding charged
stage_window_change w new_window_ms delay_ms now =
    if leb min_window_ms new_window_ms && leb new_window_ms max_window_ms
    then if leb new_window_ms (charged w now)
      then ok (record { override_ms = some new_window_ms; pending = none })
      else if leb min_widen_delay_ms delay_ms && leb delay_ms max_widen_delay_ms
      then if leb (now + delay_ms) u64_max
        then ok (record w {
          pending =
              some (record { new_window_ms = new_window_ms; effective_at_ms = now + delay_ms });
        })
        else err arithmetic
      else err delay_out_of_bounds
    else err window_out_of_bounds

unfoldable pub cancel_window_change : WindowState → Result Abort WindowState
cancel_window_change w = elim w.pending [
  | none ↦ err no_pending_window
  | some p ↦ ok (record w { pending = none })
]
