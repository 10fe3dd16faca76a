-- ===== src/Rotation/MigrationTests.antt =====
-- Runs and instances of the theorems on the watcher and the migration.
use podseq.Prelude.{ℕ, suc, ◌≡◌, refl, none, some, [], ◌∷◌, ◌==◌, if◌then◌else◌, Result, ok, err}
use podseq.Deadline.Monitor.{Bytes, InboxError, parse, not_found}
use podseq.Rotation.{RotationState}
use podseq.Rotation.Watcher.{
  RotationWatcher, EntombCaps, present, entombed, EntombExecutor, entombment_needed, entomb_missing,
  ensure_entombed,
}
use podseq.Rotation.Migration.{Explains, ensure_entombed-Explains}

abbrev state_of : Bytes → Result InboxError RotationState
state_of (a ∷ []) = ok (record { authority = a; prev = none; pending = none })
state_of _ = err parse

abbrev clock_of : Bytes → Result InboxError ℕ
clock_of (t ∷ []) = ok t
clock_of _ = err parse

-- A chain on which the Registry, 11, has no rotation state before the first ceremony; the Vault, 12,
-- has one.
abbrev upgraded : RotationWatcher ℕ
upgraded = record {
  transport = record {
    object_contents = λ id s.
        (if id == 11 then (if s == 0 then err not_found else ok (1 ∷ [])) else ok (1 ∷ []), s);
    field_contents = λ table key s. (ok none, s);
  };
  rotation_state_field_id = λ parent. parent;
  parse_rotation_state = state_of;
  parse_clock = clock_of;
  registry = 11;
  vault = 12;
  active = 1;
  staged = some 2;
}

abbrev caps : EntombCaps
caps = record { settler = some 21; bridge = none }

abbrev ceremonies : EntombExecutor ℕ
ceremonies = record {
  entomb_settler = λ cap s. (ok tt, suc s);
  entomb_bridge = λ cap s. (err tt, s);
}

entombs_settler :
    ensure_entombed upgraded caps ceremonies 0
    ≡ (ok (record { settler = entombed; bridge = present }), 1)
unfolding ensure_entombed entombment_needed entomb_missing
entombs_settler = refl

ensure_entombed-Explains_example :
    (u : ℕ) × Explains upgraded 11 ceremonies.entomb_settler (some 21) 0 entombed u
    × Explains upgraded 12 ceremonies.entomb_bridge none u present 1
ensure_entombed-Explains_example =
    ensure_entombed-Explains upgraded caps ceremonies 0 1
      (record { settler = entombed; bridge = present }) entombs_settler
