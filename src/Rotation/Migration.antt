-- ===== src/Rotation/Migration.antt =====
-- When the migration submits an entombment, and what the watcher's plan is read from.
use podseq.Prelude.{
  ℕ, ◌≡◌, refl, ◌⊎◌, inl, inr, Bool, true, false, Option, none, some, arith, Result, ok, err,
}
use podseq.Deadline.Monitor.{Bytes, rpc, parse, not_found, sui_clock_id}
use podseq.Deadline.Confirm.{Read-cases}
use podseq.Rotation.{RotationState, plan}
use podseq.Rotation.Watcher.{
  RotationWatcher, EntombCaps, EntombStep, present, entombed, unconfigured, MigrationReport,
  EntombExecutor, entombment_needed, entomb_missing, ensure_entombed, status, watched_plan,
}

-- What happened to one object whose step is reported, from the state `s` to the state `t`: the
-- rotation state was read; or it was found missing and no cap is configured; or it was found missing
-- and the ceremony was submitted with the configured cap.
abbrev pub Explains :
    {S : Type 0}
    → RotationWatcher S
    → ℕ
    → (ℕ → S → Result (Unit {0}) (Unit {0}) × S)
    → Option ℕ
    → S
    → EntombStep
    → S
    → Type 0
Explains w parent entomb cap s present t =
    (bytes : Bytes) × (w.transport.object_contents (w.rotation_state_field_id parent) s
      ≡ (ok bytes, t))
Explains w parent entomb cap s unconfigured t =
    (w.transport.object_contents (w.rotation_state_field_id parent) s ≡ (err not_found, t))
    × (cap ≡ none)
Explains {S} w parent entomb cap s entombed t =
    (id : ℕ) × (u : S) × (w.transport.object_contents (w.rotation_state_field_id parent) s
      ≡ (err not_found, u))
    × (cap ≡ some id)
    × (entomb id u ≡ (ok tt, t))

module _ {S : Type 0} (w : RotationWatcher S) where
  needed-cases :
      (parent : ℕ) (s t : S) (b : Bool)
      → entombment_needed w parent s ≡ (ok b, t)
      → ((b ≡ true)
          × (w.transport.object_contents (w.rotation_state_field_id parent) s ≡ (err not_found, t)))
        ⊎ ((b ≡ false)
            × ((bytes : Bytes) × (w.transport.object_contents (w.rotation_state_field_id parent) s
                  ≡ (ok bytes, t))))
  unfolding entombment_needed
  needed-cases parent s t b h =
      elim (Read-cases (w.transport.object_contents (w.rotation_state_field_id parent) s)) [
        | inl (bytes, u, p) ↦ inr (ground arith, (bytes, ground arith))
        | inr (not_found, u, p) ↦ inl (ground arith, ground arith)
        | inr (rpc, u, p) ↦ ground arith
        | inr (parse, u, p) ↦ ground arith
      ]

  entomb_missing-Explains :
      (parent : ℕ) (entomb : ℕ → S → Result (Unit {0}) (Unit {0}) × S) (cap : Option ℕ) (s u t : S)
      (b : Bool) (step : EntombStep)
      → entombment_needed w parent s ≡ (ok b, u)
      → entomb_missing w entomb cap b u ≡ (ok step, t)
      → Explains w parent entomb cap s step t
  unfolding entomb_missing
  entomb_missing-Explains parent entomb cap s u t false present h k =
      elim (needed-cases parent s u false h) [
        | inl (e, p) ↦ cc
        | inr (e, (bytes, p)) ↦ (bytes, ground arith)
      ]
  entomb_missing-Explains parent entomb cap s u t false entombed h k = ground arith
  entomb_missing-Explains parent entomb cap s u t false unconfigured h k = ground arith
  entomb_missing-Explains parent entomb none s u t true unconfigured h k =
      elim (needed-cases parent s u true h) [ inl (e, p) ↦ (ground arith, refl) | inr (e, q) ↦ cc ]
  entomb_missing-Explains parent entomb none s u t true present h k = ground arith
  entomb_missing-Explains parent entomb none s u t true entombed h k = ground arith
  entomb_missing-Explains parent entomb (some id) s u t true entombed h k =
      elim (needed-cases parent s u true h) [
        | inl (e, p) ↦ (id, u, p, refl, ground arith)
        | inr (e, q) ↦ cc
      ]
  entomb_missing-Explains parent entomb (some id) s u t true present h k = ground arith
  entomb_missing-Explains parent entomb (some id) s u t true unconfigured h k = ground arith

  -- Each step of a migration report is explained by the chain: an entombment was submitted for an
  -- object only after its rotation state was read as missing, and with the cap configured for it.
  pub ensure_entombed-Explains :
      (caps : EntombCaps) (executor : EntombExecutor S) (s t : S) (report : MigrationReport)
      → ensure_entombed w caps executor s ≡ (ok report, t)
      → (u : S) × Explains w w.registry executor.entomb_settler caps.settler s report.settler u
        × Explains w w.vault executor.entomb_bridge caps.bridge u report.bridge t
  unfolding ensure_entombed
  ensure_entombed-Explains caps executor s t report h =
      elim (Read-cases (entombment_needed w w.registry s)) [
        | inr (e, a, p) ↦ ground arith
        | inl (b, a, p) ↦
            elim (Read-cases (entomb_missing w executor.entomb_settler caps.settler b a)) [
              | inr (e, u, q) ↦ ground arith
              | inl (x, u, q) ↦ elim (Read-cases (entombment_needed w w.vault u)) [
                | inr (e, a', p') ↦ ground arith
                | inl (b', a', p') ↦
                    elim (Read-cases (entomb_missing w executor.entomb_bridge caps.bridge b' a')) [
                      | inr (e, v, q') ↦ ground arith
                      | inl (y, v, q') ↦ (
                        u,
                        entomb_missing-Explains w.registry executor.entomb_settler caps.settler s a
                            u b report.settler p (ground arith),
                        entomb_missing-Explains w.vault executor.entomb_bridge caps.bridge u a' t b'
                            report.bridge p' (ground arith),
                      )
                    ]
              ]
            ]
      ]

  -- From a chain that serves both records and the clock, the watcher's plan is the plan of those
  -- records at that time for the configured keys.
  pub watched_plan-plan :
      (s : S) (r v k : Bytes) (settlement vault : RotationState) (now staged : ℕ)
      → w.staged ≡ some staged
      → w.transport.object_contents (w.rotation_state_field_id w.registry) s ≡ (ok r, s)
      → w.transport.object_contents (w.rotation_state_field_id w.vault) s ≡ (ok v, s)
      → w.transport.object_contents sui_clock_id s ≡ (ok k, s)
      → w.parse_rotation_state r ≡ ok settlement
      → w.parse_rotation_state v ≡ ok vault
      → w.parse_clock k ≡ ok now
      → watched_plan w s ≡ (ok (plan settlement vault now w.active staged), s)
  unfolding watched_plan status
  watched_plan-plan s r v k settlement vault now staged h a b c d e f = ground arith
