-- ===== src/Runtime/Update.antt =====
-- The checks for updates (cc-runtime-updater.ts). A run is one step: while it waits, `updating` turns
-- other calls away.
use agent_workflow_platform.Prelude.{
  ℕ, ◌-◌, ◌*◌, String, Bool, true, false, ◌&&◌, not, Option, none, some, get_or, if◌then◌else◌, ltb,
  is_some, map_get, truthy,
}
use agent_workflow_platform.Agent.Config.{Result, ok, failed, and_then}
use agent_workflow_platform.Runtime.Text.{version_less_than}
use agent_workflow_platform.Runtime.Manifest.{Artifact, Release, resolve_channel}
use agent_workflow_platform.Runtime.Fetch.{Url, runtime_manifest_url, fetch_latest_version}
use agent_workflow_platform.Runtime.State.{
  done, error, VersionMeta, Updater, Machine, empty_meta, validate_managed_runtime_configuration,
  current_verified_managed_runtime, verify_managed_runtime, set_progress, write_meta,
}
use agent_workflow_platform.Runtime.Install.{install_version, prune_old_versions}

pub record UpdateResult : Type 0 where
  pub updated : Bool
  pub old : Option String
  pub new : Option String
  pub error : Option String

-- A result without an update.
unfoldable pub kept : Option String → UpdateResult
kept code = record { updated = false; old = none; new = none; error = code }

abbrev pub check_interval_ms : ℕ
check_interval_ms = 6 * 60 * 60 * 1000

-- the time of the check is noted
unfoldable pub note_check :
    Machine → VersionMeta → Option String → Updater → Result UpdateResult × Updater
unfolding write_meta kept
note_check m previous code s =
    let (problem, next) = write_meta m (record previous { last_check_ms = m.now }) s in
    elim problem [ none ↦ (ok (kept code), next) | some e ↦ (failed e, next) ]

-- behind the check of what was installed
unfoldable pub finish_install :
    Machine → VersionMeta → Release → Artifact → Bool × Updater → Result UpdateResult × Updater
unfolding prune_old_versions set_progress
finish_install m previous r a (false, s) = (failed "runtime_post_install_verification_failed", s)
finish_install m previous r a (true, s) =
    let pruned = prune_old_versions m 2 s in
    (
      ok (record {
        updated = true;
        old = previous.current_version;
        new = some r.version;
        error = none;
      }),
      set_progress
          (record {
            stage = done;
            bytes_downloaded = get_or a.bytes pruned.progress.bytes_downloaded;
            bytes_total = get_or a.bytes pruned.progress.bytes_total;
            version = some r.version;
            error = none;
          })
          pruned,
    )

-- the check of what `version.json` names now
unfoldable pub verify_meta :
    Machine
    → VersionMeta
    → Release
    → Artifact
    → String
    → Updater
    → Option VersionMeta
    → Result UpdateResult × Updater
unfolding verify_managed_runtime finish_install
verify_meta m previous r a config s none = (failed "runtime_post_install_verification_failed", s)
verify_meta m previous r a config s (some meta) =
    finish_install m previous r a (verify_managed_runtime m meta r a config s)

unfoldable pub verify_installed :
    Machine
    → VersionMeta
    → Release
    → Artifact
    → String
    → Option String × Updater
    → Result UpdateResult × Updater
unfolding verify_meta
verify_installed m previous r a config (some code, s) = (failed code, s)
verify_installed m previous r a config (none, s) = verify_meta m previous r a config s s.meta

-- behind the check of what was there
unfoldable pub install_unless :
    Machine
    → Url
    → VersionMeta
    → Release
    → Artifact
    → String
    → Bool × Updater
    → Result UpdateResult × Updater
unfolding note_check install_version verify_installed
install_unless m manifest previous r a config (true, s) = note_check m previous none s
install_unless m manifest previous r a config (false, s) =
    verify_installed m previous r a config (install_version m r manifest s)

unfoldable pub is_too_old : Machine → Option String → Bool
unfolding version_less_than
is_too_old m none = false
is_too_old m (some least) = truthy least && version_less_than m.desktop_version least

-- what is done about the artifact for this machine; `verifyManagedRuntime` does the tests of version
-- and directory too
unfoldable pub on_artifact :
    Machine
    → Bool
    → Url
    → String
    → VersionMeta
    → Updater
    → Release
    → Option Artifact
    → Result UpdateResult × Updater
unfolding install_unless verify_managed_runtime kept
on_artifact m force manifest config previous s r none =
    (ok (kept (some "runtime_artifact_platform_unavailable")), s)
on_artifact m force manifest config previous s r (some a) =
    install_unless m manifest previous r a config
      (if force then (false, s) else verify_managed_runtime m previous r a config s)

unfoldable pub on_release :
    Machine → Bool → Url → String → VersionMeta → Updater → Release → Result UpdateResult × Updater
unfolding is_too_old note_check on_artifact map_get
on_release m force manifest config previous s r =
    if is_too_old m r.min_desktop_version
    then note_check m previous (some "desktop_too_old") s
    else on_artifact m force manifest config previous s r (map_get m.platform_key r.artifacts)

unfoldable pub on_fetched :
    Machine
    → Bool
    → Url
    → String
    → VersionMeta
    → Updater
    → Result Release
    → Result UpdateResult × Updater
unfolding on_release
on_fetched m force manifest config previous s (failed code) = (failed code, s)
on_fetched m force manifest config previous s (ok r) =
    on_release m force manifest config previous (record s { verified = none }) r

-- the handler of errors and what is done at the end
unfoldable pub settle : Result UpdateResult × Updater → UpdateResult × Updater
unfolding set_progress kept
settle (ok result, s) = (result, record s { updating = false })
settle (failed code, s) = (
  kept (some code),
  record (set_progress (record s.progress { stage = error; error = some code }) s) {
    updating = false;
  },
)

-- the manifest's address and the id of the configuration
unfoldable pub configuration : Machine → Result (Url × String)
unfolding runtime_manifest_url validate_managed_runtime_configuration and_then
configuration m = and_then (runtime_manifest_url m.platform m.env) (λ manifest.
    and_then (validate_managed_runtime_configuration m) (λ config. ok (manifest, config)))

abbrev pub is_recent : Machine → VersionMeta → Updater → Bool
is_recent m previous s =
    is_some (current_verified_managed_runtime m s)
    && ltb (m.now - previous.last_check_ms) check_interval_ms

-- What is fetched for the configured channel.
abbrev pub fetched : Machine → Result Release
fetched m =
    fetch_latest_version m.platform m.env m.platform_key m.manifest_server (resolve_channel m.env)

unfoldable pub configured :
    Machine → Bool → Updater → Result (Url × String) → UpdateResult × Updater
unfolding current_verified_managed_runtime on_fetched settle kept empty_meta
configured m force s (failed code) = (kept (some code), s)
configured m force s (ok (manifest, config)) =
    let previous = get_or s.meta empty_meta in
    if not force && is_recent m previous s
    then (kept none, s)
    else settle
        (on_fetched m force manifest config previous (record s { updating = true }) (fetched m))

unfoldable pub check_and_update : Machine → Bool → Updater → UpdateResult × Updater
unfolding configuration configured kept
check_and_update m force s =
    if is_some m.external
    then (kept none, s)
    else if s.updating
    then (kept (some "runtime_update_in_progress"), s)
    else configured m force s (configuration m)
