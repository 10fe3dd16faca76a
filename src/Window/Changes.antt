-- ===== src/Window/Changes.antt =====
-- What a change of the window does to the window that a submission is charged.
use podseq.Prelude.{
  ℕ, ◌+◌, ◌≤◌, ◌<◌, ◌≡◌, ◌↔◌, ◌⊎◌, inl, inr, Bool-cases, ◌==◌, none, some, arith, leb,
  if◌then◌else◌, u64_max, ok, err,
}
use podseq.Window.{
  PendingWindow, unwrap_or, default_window_ms, min_widen_delay_ms, max_widen_delay_ms,
  validate_window_change,
}
use podseq.Window.Contract.{delay_out_of_bounds, WindowState, charged, stage_window_change}

-- A change that the client's check passes is accepted by the contract, unless it widens the window
-- and was sent with no delay, which aborts; at a clock that no delay makes overflow.
pub stage_window_change-validated :
    (w : WindowState) (new_window_ms delay_ms now : ℕ)
    → now + max_widen_delay_ms ≤ u64_max
    → validate_window_change new_window_ms delay_ms ≡ ok tt
    → ((stage_window_change w new_window_ms delay_ms now ≡ err delay_out_of_bounds)
        ↔ ((charged w now < new_window_ms) × (delay_ms ≡ 0)))
      × (((charged w now < new_window_ms) × (delay_ms ≡ 0))
          ⊎ ((w' : WindowState) × (stage_window_change w new_window_ms delay_ms now ≡ ok w')))
unfolding stage_window_change validate_window_change
stage_window_change-validated w n delay now f h = (
  (λ e. (ground arith, ground arith), λ e. ground arith),
  elim (Bool-cases (leb n (charged w now))) [
    | inl narrow ↦ inr (record { override_ms = some n; pending = none }, ground arith)
    | inr wide ↦ elim (Bool-cases (delay == 0)) [
      | inl none_given ↦ inl (ground arith, ground arith)
      | inr given ↦ inr (
        record w { pending = some (record { new_window_ms = n; effective_at_ms = now + delay }) },
        ground arith,
      )
    ]
  ],
)

-- An accepted narrowing is charged from then on, whatever was staged before.
pub stage_window_change-narrows :
    (w w' : WindowState) (new_window_ms delay_ms now later : ℕ)
    → new_window_ms ≤ charged w now
    → stage_window_change w new_window_ms delay_ms now ≡ ok w'
    → charged w' later ≡ new_window_ms
unfolding stage_window_change charged
stage_window_change-narrows w w' n delay now later h e = ground arith

-- An accepted widening is charged from the end of its timelock on, which is at least the smallest
-- delay away, and until then the stored override is, or the default without one.
pub stage_window_change-widens :
    (w w' : WindowState) (new_window_ms delay_ms now later : ℕ)
    → charged w now < new_window_ms
    → stage_window_change w new_window_ms delay_ms now ≡ ok w'
    → (min_widen_delay_ms ≤ delay_ms)
      × (charged w' later ≡ (
          if leb (now + delay_ms) later
          then new_window_ms
          else unwrap_or w.override_ms default_window_ms))
unfolding stage_window_change charged
stage_window_change-widens w w' n delay now later h e = (ground arith, ground arith)

-- A widening staged after an earlier one has taken effect narrows the window at once, back to the
-- override or the default, if the earlier one was wider than that.
pub stage_window_change-reverts :
    (w w' : WindowState) (p : PendingWindow) (new_window_ms delay_ms now : ℕ)
    → w.pending ≡ some p
    → p.effective_at_ms ≤ now
    → unwrap_or w.override_ms default_window_ms < p.new_window_ms
    → p.new_window_ms < new_window_ms
    → stage_window_change w new_window_ms delay_ms now ≡ ok w'
    → charged w' now < charged w now
unfolding stage_window_change charged
stage_window_change-reverts w w' p n delay now e h f g k = ground arith
