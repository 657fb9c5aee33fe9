-- ===== src/Runtime/Genuine.antt =====
-- What a managed runtime has gone through when the updater counts it as verified
-- (cc-runtime-updater.ts).
use mathlib.Core.Path.{subst}
use agent_workflow_platform.Prelude.{
  String, Bool, true, false, List, Option, none, some, if◌then◌else◌, Bool-cases, ◌⊎◌, inl, inr,
  ◌≡◌, refl, sym, ap, ◌∙◌, arith, map_get, Option-cases,
}
use agent_workflow_platform.Runtime.Manifest.{Artifact, Release}
use agent_workflow_platform.Runtime.Fetch.{Bytes, Url}
use agent_workflow_platform.Runtime.State.{
  VersionMeta, VerifiedManagedRuntime, Dir, Updater, Machine, executable_in,
  managed_executable_path, is_artifact, verified_path, noted, verify_managed_runtime,
}
use agent_workflow_platform.Runtime.Install.{install_version, active_dir, prune_old_versions}
use agent_workflow_platform.Runtime.Update.{
  note_check, finish_install, verify_meta, verify_installed, install_unless, is_too_old,
  on_artifact, on_release,
}
use agent_workflow_platform.Runtime.Kept.{
  executable_in-prune_old_versions, install_version-verified,
}

-- The runtime is the artifact of a release for this machine: it has the version of the release, and
-- the file in its directory has the hash of the artifact.
abbrev pub IsFrom : Machine → Release → VerifiedManagedRuntime → List Dir → Type 0
IsFrom m r v dirs =
    (a : Artifact) × (bytes : Bytes) × (map_get m.platform_key r.artifacts ≡ some a)
    × (executable_in v.path dirs ≡ some bytes)
    × (is_artifact m a bytes ≡ true)
    × (v.version ≡ r.version)

-- Either nothing is verified, or a runtime that is from the release.
pub data Holds (m : Machine) (r : Release) (t : Updater) : Type 0 where
  nothing : t.verified ≡ none → Holds m r t
  genuine : (v : VerifiedManagedRuntime) → t.verified ≡ some v → IsFrom m r v t.dirs → Holds m r t

-- What a path that `verifyManagedRuntime` found has.
path_lem :
    (m : Machine) (meta : VersionMeta) (r : Release) (a : Artifact) (dirs : List Dir)
    (path : String)
    → verified_path m meta r a dirs ≡ some path
    → (bytes : Bytes) × (executable_in path dirs ≡ some bytes)
      × (is_artifact m a bytes ≡ true)
      × (meta.current_dir ≡ some path)
unfolding verified_path managed_executable_path
path_lem m meta r a dirs path h = elim (Option-cases (executable_in path dirs)) [
  | inl e ↦ ground arith
  | inr (bytes, e) ↦ (bytes, e, ground arith, ground arith)
]

-- What `verifyManagedRuntime` does: nothing, or it takes note of the runtime.
verify_cases :
    (m : Machine) (meta : VersionMeta) (r : Release) (a : Artifact) (config : String) (s : Updater)
    → map_get m.platform_key r.artifacts ≡ some a
    → (verify_managed_runtime m meta r a config s ≡ (false, s))
      ⊎ ((v : VerifiedManagedRuntime) × (verify_managed_runtime m meta r a config s
            ≡ (true, record s { verified = some v }))
          × IsFrom m r v s.dirs
          × (meta.current_dir ≡ some v.path))
unfolding verify_managed_runtime noted
verify_cases m meta r a config s got = elim (Option-cases (verified_path m meta r a s.dirs)) [
  | inl e ↦ inl (ap (noted r config s) e)
  | inr (path, e) ↦
      let (bytes, there, same, at) = path_lem m meta r a s.dirs path e in
      let v : VerifiedManagedRuntime = record {
        config_id = config;
        path = path;
        version = r.version;
      } in
      inr (v, ap (noted r config s) e, (a, bytes, got, there, same, refl), at)
]

note_check-state :
    (m : Machine) (previous : VersionMeta) (code : Option String) (s : Updater)
    → let t = (note_check m previous code s).1 in (t.verified ≡ s.verified) × (t.dirs ≡ s.dirs)
unfolding note_check
note_check-state m previous code s = elim (Option-cases m.meta_error) [
  | inl e ↦ rw e (refl, refl)
  | inr (problem, e) ↦ rw e (refl, refl)
]

-- What holds stays while the runtime and the directories do.
pub Holds-same :
    {m : Machine} {r : Release} {s t : Updater}
    → t.verified ≡ s.verified
    → t.dirs ≡ s.dirs
    → Holds m r s
    → Holds m r t
Holds-same v d (nothing h) = nothing (v ∙ h)
Holds-same {m} {r} v d (genuine x h from) =
    genuine x (v ∙ h) (subst (λ dirs. IsFrom m r x dirs) (sym d) from)

note_check-Holds :
    (m : Machine) (r : Release) (previous : VersionMeta) (code : Option String) (s : Updater)
    → Holds m r s
    → Holds m r (note_check m previous code s).1
note_check-Holds m r previous code s h =
    let (v, d) = note_check-state m previous code s in Holds-same v d h

finish_install-Holds :
    (m : Machine) (previous meta : VersionMeta) (r : Release) (a : Artifact) (s : Updater)
    (v : VerifiedManagedRuntime)
    → s.meta ≡ some meta
    → meta.current_dir ≡ some v.path
    → IsFrom m r v s.dirs
    → Holds m r (finish_install m previous r a (true, record s { verified = some v })).1
unfolding finish_install prune_old_versions
finish_install-Holds m previous meta r a s v known at (b, bytes, got, there, same, version) =
    let active = subst (λ x. active_dir x ≡ some v.path) (sym known) at in
    genuine v refl (
      b,
      bytes,
      got,
      executable_in-prune_old_versions m 2 v.path (record s { verified = some v }) active ∙ there,
      same,
      version,
    )

verify_meta-Holds :
    (m : Machine) (previous : VersionMeta) (r : Release) (a : Artifact) (config : String)
    (s : Updater) (now : Option VersionMeta)
    → map_get m.platform_key r.artifacts ≡ some a
    → s.verified ≡ none
    → s.meta ≡ now
    → Holds m r (verify_meta m previous r a config s now).1
unfolding verify_meta finish_install
verify_meta-Holds m previous r a config s none got h known = nothing h
verify_meta-Holds m previous r a config s (some meta) got h known =
    let IsGood : Bool × Updater → Type 0 = λ x. Holds m r (finish_install m previous r a x).1 in
    elim (verify_cases m meta r a config s got) [
      | inl w ↦ subst IsGood (sym w) (nothing h)
      | inr (v, w, from, at) ↦
          subst IsGood (sym w) (finish_install-Holds m previous meta r a s v known at from)
    ]

verify_installed-Holds :
    (m : Machine) (previous : VersionMeta) (r : Release) (a : Artifact) (config : String)
    (problem : Option String) (s : Updater)
    → map_get m.platform_key r.artifacts ≡ some a
    → s.verified ≡ none
    → Holds m r (verify_installed m previous r a config (problem, s)).1
unfolding verify_installed
verify_installed-Holds m previous r a config (some code) s got h = nothing h
verify_installed-Holds m previous r a config none s got h =
    verify_meta-Holds m previous r a config s s.meta got h refl

install_unless-Holds :
    (m : Machine) (manifest : Url) (previous : VersionMeta) (r : Release) (a : Artifact)
    (config : String) (s : Updater)
    → map_get m.platform_key r.artifacts ≡ some a
    → s.verified ≡ none
    → Holds m r (install_unless m manifest previous r a config (false, s)).1
unfolding install_unless
install_unless-Holds m manifest previous r a config s got h =
    let (problem, next) = install_version m r manifest s in
    verify_installed-Holds m previous r a config problem next got
      (install_version-verified m r manifest s ∙ h)

checked-Holds :
    (m : Machine) (force : Bool) (manifest : Url) (previous : VersionMeta) (r : Release)
    (a : Artifact) (config : String) (s : Updater)
    → map_get m.platform_key r.artifacts ≡ some a
    → s.verified ≡ none
    → Holds m r
        (install_unless m manifest previous r a config
          (if force then (false, s) else verify_managed_runtime m previous r a config s)).1
unfolding install_unless
checked-Holds m true manifest previous r a config s got h =
    install_unless-Holds m manifest previous r a config s got h
checked-Holds m false manifest previous r a config s got h =
    let IsGood : Bool × Updater → Type 0 =
      λ x. Holds m r (install_unless m manifest previous r a config x).1 in
    elim (verify_cases m previous r a config s got) [
      | inl w ↦ subst IsGood (sym w) (install_unless-Holds m manifest previous r a config s got h)
      | inr (v, w, from, at) ↦ subst IsGood (sym w) (
          note_check-Holds m r previous none (record s { verified = some v }) (genuine v refl from))
    ]

on_artifact-Holds :
    (m : Machine) (force : Bool) (manifest : Url) (previous : VersionMeta) (r : Release)
    (config : String) (s : Updater) (found : Option Artifact)
    → map_get m.platform_key r.artifacts ≡ found
    → s.verified ≡ none
    → Holds m r (on_artifact m force manifest config previous s r found).1
unfolding on_artifact
on_artifact-Holds m force manifest previous r config s none got h = nothing h
on_artifact-Holds m force manifest previous r config s (some a) got h =
    checked-Holds m force manifest previous r a config s got h

pub on_release-Holds :
    (m : Machine) (force : Bool) (manifest : Url) (previous : VersionMeta) (r : Release)
    (config : String) (s : Updater)
    → s.verified ≡ none
    → Holds m r (on_release m force manifest config previous s r).1
unfolding on_release
on_release-Holds m force manifest previous r config s h =
    let code = some "desktop_too_old" in
    elim (Bool-cases (is_too_old m r.min_desktop_version)) [
      | inl e ↦ rw (e, is_too_old) (note_check-Holds m r previous code s (nothing h))
      | inr n ↦
          rw (n, is_too_old)
            (on_artifact-Holds m force manifest previous r config s
              (map_get m.platform_key r.artifacts) refl h)
    ]
