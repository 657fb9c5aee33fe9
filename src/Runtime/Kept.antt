-- ===== src/Runtime/Kept.antt =====
-- What installing and pruning leave alone (cc-runtime-updater.ts).
use mathlib.Core.Path.{subst}
use agent_workflow_platform.Prelude.{
  eq-false_sym, ℕ, zero, suc, String, Bool, true, false, ◌&&◌, not, List, [], ◌∷◌, filter, drop,
  any, All, Option, none, some, ◌==◌, Bool-cases, inl, inr, ◌≡◌, refl, sym, ◌∙◌, arith, eq_iff, ltb,
  Option-cases,
}
use agent_workflow_platform.Agent.Config.{Result, ok, failed}
use agent_workflow_platform.Runtime.Manifest.{Artifact, Release}
use agent_workflow_platform.Runtime.Fetch.{Bytes, Url}
use agent_workflow_platform.Runtime.State.{
  VersionMeta, Dir, Updater, Machine, executable_in, has_dir, artifact_dir, set_progress,
  write_meta,
}
use agent_workflow_platform.Runtime.Install.{
  downloaded, download_executable, promoted, place_artifact, is_content, written_meta,
  install_checked, installable, install_version, insert_by_age, sort_by_age, is_candidate, outdated,
  goes, active_dir, prune_old_versions,
}

pub write_meta-verified :
    (m : Machine) (meta : VersionMeta) (s : Updater) → (write_meta m meta s).1.verified ≡ s.verified
unfolding write_meta
write_meta-verified m meta s = elim (Option-cases m.meta_error) [
  | inl e ↦ rw e refl
  | inr (code, e) ↦ rw e refl
]

pub write_meta-dirs :
    (m : Machine) (meta : VersionMeta) (s : Updater) → (write_meta m meta s).1.dirs ≡ s.dirs
unfolding write_meta
write_meta-dirs m meta s = elim (Option-cases m.meta_error) [
  | inl e ↦ rw e refl
  | inr (code, e) ↦ rw e refl
]

module _ {ℓ} {A : Type ℓ} (p : A → Bool) where
  All-filter_self : (xs : List A) → All (λ x. p x ≡ true) (filter p xs)
  All-filter_self [] = tt
  All-filter_self (x ∷ xs) = elim (Bool-cases (p x)) [
    | inl e ↦ rw e (e, All-filter_self xs)
    | inr n ↦ rw n (All-filter_self xs)
  ]

module _ (active : Option String) where
  -- The directory is a candidate to go.
  abbrev May : Dir → Type 0
  May d = is_candidate active d ≡ true

  insert_by_age-May : (d : Dir) (ds : List Dir) → May d → All May ds → All May (insert_by_age d ds)
  unfolding insert_by_age
  insert_by_age-May d [] h hs = (h, tt)
  insert_by_age-May d (e ∷ es) h hs = elim (Bool-cases (ltb e.modified d.modified)) [
    | inl y ↦ rw y (h, hs)
    | inr n ↦ rw n (hs.0, insert_by_age-May d es h hs.1)
  ]

  sort_by_age-May : (ds : List Dir) → All May ds → All May (sort_by_age ds)
  unfolding sort_by_age
  sort_by_age-May [] hs = tt
  sort_by_age-May (d ∷ ds) hs = insert_by_age-May d (sort_by_age ds) hs.0 (sort_by_age-May ds hs.1)

  drop-May : (n : ℕ) (ds : List Dir) → All May ds → All May (drop n ds)
  drop-May zero ds hs = hs
  drop-May (suc n) [] hs = hs
  drop-May (suc n) (d ∷ ds) hs = drop-May n ds hs.1

  outdated-May : (keep : ℕ) (ds : List Dir) → All May (outdated keep active ds)
  unfolding outdated
  outdated-May keep ds =
      let p = is_candidate active in
      drop-May _ (sort_by_age (filter p ds)) (sort_by_age-May (filter p ds) (All-filter_self p ds))

-- A test that all directories of this name pass leaves its executable.
executable_in-filter :
    (name : String) (p : Dir → Bool) (ds : List Dir)
    → ((d : Dir) → d.name ≡ name → p d ≡ true)
    → executable_in name (filter p ds) ≡ executable_in name ds
unfolding executable_in
executable_in-filter name p [] h = refl
executable_in-filter name p (d ∷ ds) h =
    let ih = executable_in-filter name p ds h in
    elim (Bool-cases (d.name == name)) [
      | inl e ↦ rw (h d ((eq_iff d.name name).0 e), e) refl
      | inr n ↦ elim (Bool-cases (p d)) [ inl y ↦ rw (y, n) ih | inr o ↦ rw (o, n) ih ]
    ]

-- no candidate has the name of the active directory
May-other :
    (name : String) (old : List Dir)
    → All (May (some name)) old
    → any (λ e. e.name == name) old ≡ false
unfolding is_candidate
May-other name [] h = refl
May-other name (e ∷ es) h = elim (Bool-cases (name == e.name)) [
  | inl y ↦ let not_May = h.0 in ground arith
  | inr n ↦ rw (eq-false_sym name e.name n) (May-other name es h.1)
]

not_both : (a b : Bool) → b ≡ false → not (a && b) ≡ true
not_both a b h = ground arith

-- Pruning leaves the executable of the current version.
pub executable_in-prune_old_versions :
    (m : Machine) (keep : ℕ) (name : String) (s : Updater)
    → active_dir s.meta ≡ some name
    → executable_in name (prune_old_versions m keep s).dirs ≡ executable_in name s.dirs
unfolding prune_old_versions goes
executable_in-prune_old_versions m keep name s active =
    let old = outdated keep (active_dir s.meta) s.dirs in
    let may = subst (λ a. All (May a) old) active (outdated-May (active_dir s.meta) keep s.dirs) in
    executable_in-filter name (λ d. not (goes m old d)) s.dirs
      (λ d e.
        not_both (m.removable d.name) (any (λ x. x.name == d.name) old)
          (subst (λ n. any (λ x. x.name == n) old ≡ false) (sym e) (May-other name old may)))

downloaded-verified :
    (m : Machine) (a : Artifact) (version : String) (s : Updater)
    (body : Result (List (Result Bytes) × ℕ))
    → (downloaded m a version s body).1.verified ≡ s.verified
unfolding downloaded set_progress
downloaded-verified m a version s (failed code) = refl
downloaded-verified m a version s (ok (pieces, size)) = refl

promoted-verified :
    (m : Machine) (name : String) (content : Result Bytes) (s : Updater)
    → (promoted m name (content, s)).1.verified ≡ s.verified
unfolding promoted set_progress
promoted-verified m name (failed code) s = refl
promoted-verified m name (ok bytes) s = elim (Option-cases m.disk_error) [
  | inl e ↦ rw e refl
  | inr (code, e) ↦ rw e refl
]

written_meta-verified :
    (m : Machine) (version name : String) (problem : Option String) (s : Updater)
    → (written_meta m version name (problem, s)).1.verified ≡ s.verified
unfolding written_meta
written_meta-verified m version name (some code) s = refl
written_meta-verified m version name none s = write_meta-verified m _ s

place_artifact-verified :
    (m : Machine) (r : Release) (a : Artifact) (manifest : Url) (sha : String) (s : Updater)
    → (place_artifact m r a manifest sha s).1.verified ≡ s.verified
unfolding place_artifact download_executable
place_artifact-verified m r a manifest sha s =
    let name = artifact_dir r a in
    let (content, next) = download_executable m a manifest r.version s in
    elim (Bool-cases (has_dir name s.dirs)) [
      | inl e ↦ elim (Bool-cases (is_content m sha (executable_in name s.dirs))) [
        | inl y ↦ rw (e, y) refl
        | inr n ↦ rw (e, n) refl
      ]
      | inr n ↦ rw n (promoted-verified m name content next ∙ downloaded-verified m a r.version s _)
    ]

install_checked-verified :
    (m : Machine) (r : Release) (manifest : Url) (s : Updater) (i : Result (Artifact × String))
    → (install_checked m r manifest s i).1.verified ≡ s.verified
unfolding install_checked
install_checked-verified m r manifest s (failed code) = refl
install_checked-verified m r manifest s (ok (a, sha)) =
    let (problem, next) = place_artifact m r a manifest sha s in
    written_meta-verified m r.version _ problem next ∙ place_artifact-verified m r a manifest sha s

-- Installing changes nothing of what is verified.
pub install_version-verified :
    (m : Machine) (r : Release) (manifest : Url) (s : Updater)
    → (install_version m r manifest s).1.verified ≡ s.verified
unfolding install_version
install_version-verified m r manifest s = install_checked-verified m r manifest s (installable m r)
