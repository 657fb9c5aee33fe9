-- ===== src/Runtime/Ensure.antt =====
-- What asks for an update: ensureInstalled and recoverFromMissingBinary (cc-runtime-updater.ts).
use agent_workflow_platform.Prelude.{
  String, Bool, true, false, Option, none, some, get_or, if◌then◌else◌, is_some, or_else,
}
use agent_workflow_platform.Agent.Config.{Result, ok, failed}
use agent_workflow_platform.Runtime.State.{
  Updater, Machine, empty_meta, validate_managed_runtime_configuration,
  current_verified_managed_runtime, write_meta,
}
use agent_workflow_platform.Runtime.Update.{UpdateResult, kept, check_and_update}

pub record EnsureResult : Type 0 where
  pub installed : Bool
  pub version : Option String
  pub error : Option String

unfoldable pub ensure_installed : Machine → Updater → EnsureResult × Updater
unfolding check_and_update validate_managed_runtime_configuration current_verified_managed_runtime
ensure_installed m s = elim m.external [
  | some path ↦ (record { installed = true; version = none; error = none }, s)
  | none ↦ elim (validate_managed_runtime_configuration m) [
    | failed code ↦ (record { installed = false; version = none; error = some code }, s)
    | ok config ↦
        let (result, next) = check_and_update m false s in
        elim (current_verified_managed_runtime m next) [
          | some v ↦ (record { installed = true; version = some v.version; error = none }, next)
          | none ↦ (
            record {
              installed = false;
              version = none;
              error = or_else result.error (some "runtime_install_failed");
            },
            next,
          )
        ]
  ]
]

recover_written : Machine → Option String × Updater → Result UpdateResult × Updater
unfolding check_and_update
recover_written m (some code, s) = (failed code, s)
recover_written m (none, s) = let (result, next) = check_and_update m true s in (ok result, next)

-- `recoverFromMissingBinary`, which itself throws where `version.json` cannot be written
unfoldable pub recover_from_missing_binary : Machine → Updater → Result UpdateResult × Updater
unfolding recover_written validate_managed_runtime_configuration write_meta kept empty_meta
recover_from_missing_binary m s =
    if is_some m.external
    then (ok (kept (some "external_runtime_unavailable")), s)
    else elim (validate_managed_runtime_configuration m) [
      | failed code ↦ (ok (kept (some code)), s)
      | ok config ↦
          let previous = get_or s.meta empty_meta in
          recover_written m (
            write_meta m (record previous { current_version = none; current_dir = none })
              (record s { verified = none }))
    ]
