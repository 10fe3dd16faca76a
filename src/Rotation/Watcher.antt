-- ===== src/Rotation/Watcher.antt =====
-- `RotationWatcher` of crates/sui/src/rotation.rs, and the migration of objects without a rotation
-- state, `ensure_entombed` of crates/node/src/rotation.rs. The ids of the dynamic fields, the BCS
-- decoders and the entombment transactions are parameters; all of them work on one chain.
use podseq.Prelude.{ℕ, Bool, true, false, ◌||◌, Option, none, some, if◌then◌else◌, Result, ok, err}
use podseq.Deadline.Monitor.{Bytes, InboxError, rpc, not_found, InboxTransport, sui_clock_id}
use podseq.Rotation.{RotationState, Role, misconfigured, Plan, idle, derive_role, plan}

-- The package is fixed, so a field id depends on the parent object only.
pub record RotationWatcher (S : Type 0) : Type 0 where
  pub transport : InboxTransport S
  pub rotation_state_field_id : ℕ → ℕ
  pub parse_rotation_state : Bytes → Result InboxError RotationState
  pub parse_clock : Bytes → Result InboxError ℕ
  pub registry : ℕ
  pub vault : ℕ
  pub active : ℕ
  pub staged : Option ℕ

pub record RotationStatus : Type 0 where
  pub settlement : RotationState
  pub vault : RotationState
  pub now_ms : ℕ

pub record EntombCaps : Type 0 where
  pub settler : Option ℕ
  pub bridge : Option ℕ

pub data EntombStep : Type 0 where
  present entombed unconfigured : EntombStep

pub record MigrationReport : Type 0 where
  pub settler : EntombStep
  pub bridge : EntombStep

abbrev pub is_entombed : EntombStep → Bool
is_entombed entombed = true
is_entombed _ = false

abbrev pub is_unconfigured : EntombStep → Bool
is_unconfigured unconfigured = true
is_unconfigured _ = false

unfoldable pub healed : MigrationReport → Bool
healed r = is_entombed r.settler || is_entombed r.bridge

unfoldable pub blocked : MigrationReport → Bool
blocked r = is_unconfigured r.settler || is_unconfigured r.bridge

pub record EntombExecutor (S : Type 0) : Type 0 where
  pub entomb_settler : ℕ → S → Result (Unit {0}) (Unit {0}) × S
  pub entomb_bridge : ℕ → S → Result (Unit {0}) (Unit {0}) × S

-- The line that `log_migration` writes.
pub data MigrationLog : Type 0 where
  read_failed blocked_line applied status_failed : MigrationLog

unfoldable pub log_migration :
    Result InboxError MigrationReport → Option InboxError → Option MigrationLog
unfolding healed blocked
log_migration (err e) read_error = some read_failed
log_migration (ok report) read_error =
    if blocked report
    then some blocked_line
    else if healed report
    then some applied
    else elim read_error [ none ↦ none | some e ↦ some status_failed ]

module _ {S : Type 0} (w : RotationWatcher S) where
  abbrev pub Read : Type 0 → Type 0
  Read A = S → Result InboxError A × S

  abbrev pub feed :
      {A B : Type 0} → (A → Read B) → Result InboxError A × S → Result InboxError B × S
  feed f (ok a, s) = f a s
  feed f (err e, s) = (err e, s)

  infixl 5 ◌>>=◌
  abbrev pub ◌>>=◌ : {A B : Type 0} → Read A → (A → Read B) → Read B
  ◌>>=◌ m f s = feed f (m s)

  lift : {A : Type 0} → Result InboxError A → Read A
  lift r s = (r, s)

  -- The three reads come before the first decoding.
  unfoldable pub status : Read RotationStatus
  unfolding lift
  status = do
    settlement_bytes ← w.transport.object_contents (w.rotation_state_field_id w.registry)
    vault_bytes ← w.transport.object_contents (w.rotation_state_field_id w.vault)
    clock_bytes ← w.transport.object_contents sui_clock_id
    settlement ← lift (w.parse_rotation_state settlement_bytes)
    vault ← lift (w.parse_rotation_state vault_bytes)
    now_ms ← lift (w.parse_clock clock_bytes)
    lift (ok (record { settlement = settlement; vault = vault; now_ms = now_ms }))

  unfoldable pub roles : RotationStatus → Role × Role
  roles st = elim w.staged [
    | none ↦ (misconfigured, misconfigured)
    | some staged ↦ (
      derive_role st.settlement st.now_ms w.active staged,
      derive_role st.vault st.now_ms w.active staged,
    )
  ]

  planned : ℕ → Read Plan
  unfolding status lift
  planned staged = do st ← status; lift (ok (plan st.settlement st.vault st.now_ms w.active staged))

  unfoldable pub watched_plan : Read Plan
  unfolding planned
  watched_plan s = elim w.staged [ none ↦ (ok idle, s) | some staged ↦ planned staged s ]

  needed_of : Result InboxError Bytes × S → Result InboxError Bool × S
  needed_of (ok bytes, s) = (ok false, s)
  needed_of (err not_found, s) = (ok true, s)
  needed_of (err e, s) = (err e, s)

  unfoldable pub entombment_needed : ℕ → Read Bool
  unfolding needed_of
  entombment_needed parent s =
      needed_of (w.transport.object_contents (w.rotation_state_field_id parent) s)

  -- The error of a ceremony becomes an RPC error.
  submitted_step : Result (Unit {0}) (Unit {0}) × S → Result InboxError EntombStep × S
  submitted_step (ok _, s) = (ok entombed, s)
  submitted_step (err _, s) = (err rpc, s)

  -- One of the two objects.
  unfoldable pub entomb_missing :
      (ℕ → S → Result (Unit {0}) (Unit {0}) × S) → Option ℕ → Bool → Read EntombStep
  unfolding submitted_step
  entomb_missing entomb cap false s = (ok present, s)
  entomb_missing entomb none true s = (ok unconfigured, s)
  entomb_missing entomb (some cap) true s = submitted_step (entomb cap s)

  unfoldable pub ensure_entombed : EntombCaps → EntombExecutor S → Read MigrationReport
  unfolding entombment_needed entomb_missing lift
  ensure_entombed caps executor = do
    settler_missing ← entombment_needed w.registry
    settler ← entomb_missing executor.entomb_settler caps.settler settler_missing
    bridge_missing ← entombment_needed w.vault
    bridge ← entomb_missing executor.entomb_bridge caps.bridge bridge_missing
    lift (ok (record { settler = settler; bridge = bridge }))
