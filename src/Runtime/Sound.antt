-- ===== src/Runtime/Sound.antt =====
-- What a check for updates does to the managed runtime (cc-runtime-updater.ts).
use agent_workflow_platform.Prelude.{
  if-IsGood, get_or, not, String, Bool, true, ◌&&◌, none, some, if◌then◌else◌, is_some, Bool-cases,
  inl, inr, ◌≡◌, refl,
}
use agent_workflow_platform.Agent.Config.{Result, ok, failed}
use agent_workflow_platform.Runtime.Manifest.{Release}
use agent_workflow_platform.Runtime.Fetch.{Url}
use agent_workflow_platform.Runtime.State.{VersionMeta, Updater, Machine, empty_meta}
use agent_workflow_platform.Runtime.Update.{
  UpdateResult, kept, on_fetched, settle, configured, configuration, check_and_update, fetched,
  is_recent,
}
use agent_workflow_platform.Runtime.Genuine.{Holds, Holds-same, on_release-Holds}

-- Nothing has changed that counts, or a release was fetched and what is verified is from it.
pub data IsSound (m : Machine) (s t : Updater) : Type 0 where
  same : t.verified ≡ s.verified → t.dirs ≡ s.dirs → IsSound m s t
  checked : (r : Release) → fetched m ≡ ok r → Holds m r t → IsSound m s t

settle-IsSound :
    (m : Machine) (s : Updater) (result : Result UpdateResult) (t : Updater)
    → IsSound m s t
    → IsSound m s (settle (result, t)).1
unfolding settle
settle-IsSound m s (ok result) t (same v d) = same v d
settle-IsSound m s (ok result) t (checked r e h) = checked r e (Holds-same refl refl h)
settle-IsSound m s (failed code) t (same v d) = same v d
settle-IsSound m s (failed code) t (checked r e h) = checked r e (Holds-same refl refl h)

on_fetched-IsSound :
    (m : Machine) (force : Bool) (manifest : Url) (config : String) (previous : VersionMeta)
    (s : Updater) (answer : Result Release)
    → fetched m ≡ answer
    → IsSound m s
        (on_fetched m force manifest config previous (record s { updating = true }) answer).1
unfolding on_fetched
on_fetched-IsSound m force manifest config previous s (failed code) e = same refl refl
on_fetched-IsSound m force manifest config previous s (ok r) e =
    checked r e (on_release-Holds m force manifest previous r config _ refl)

configured-IsSound :
    (m : Machine) (force : Bool) (s : Updater) (c : Result (Url × String))
    → IsSound m s (configured m force s c).1
unfolding configured
configured-IsSound m force s (failed code) = same refl refl
configured-IsSound m force s (ok (manifest, config)) =
    let previous = get_or s.meta empty_meta in
    elim (Bool-cases (not force && is_recent m previous s)) [
      | inl e ↦ rw e (same refl refl)
      | inr n ↦
          let (result, t) =
            on_fetched m force manifest config previous (record s { updating = true })
              (fetched m) in
          rw n (
            settle-IsSound m s result t
              (on_fetched-IsSound m force manifest config previous s (fetched m) refl))
    ]

-- A check for updates leaves the verified runtime and the directories as they were, or it has fetched
-- a release, and then no runtime is verified or one that is from the release: it has the version of
-- the release, and the file on disk has the hash that the release gives for this machine.
pub check_and_update-IsSound :
    (m : Machine) (force : Bool) (s : Updater) → IsSound m s (check_and_update m force s).1
unfolding check_and_update
check_and_update-IsSound m force s =
    let IsGood : UpdateResult × Updater → Type 0 = λ x. IsSound m s x.1 in
    let run : UpdateResult × Updater = configured m force s (configuration m) in
    let turned_away : UpdateResult × Updater = (kept (some "runtime_update_in_progress"), s) in
    if-IsGood IsGood (is_some m.external) (kept none, s) (if s.updating then turned_away else run)
      (same refl refl)
      (if-IsGood IsGood s.updating turned_away run (same refl refl)
        (configured-IsSound m force s (configuration m)))
