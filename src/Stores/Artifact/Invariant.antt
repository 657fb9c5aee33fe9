-- ===== src/Stores/Artifact/Invariant.antt =====
-- The lists of saved and of delivered artifacts over many calls (artifact.ts, chat_artifacts.ts).
use agent_workflow_platform.Prelude.{
  ℕ, zero, suc, ◌≤◌, String, Bool, true, false, List, [], ◌∷◌, Option, none, some, ◌≡◌, refl, arith,
  any, All, All-take, All-filter, filter, take, length, length-take-le, ◌==◌, eq_refl, Bool-cases,
  inl, inr,
}
use agent_workflow_platform.Stores.Artifact.{
  SavedArtifact, Artifacts, max_saved, is_not, persist, add_artifact, focus_artifact, open_panel,
  close, toggle_maximize, clear_artifacts, read_saved_artifacts, use_artifact_store, never_started,
  Call, started, add, focus, opened, closed, toggled, cleared, step, run, ChatArtifact, Delivered,
  is_filtered_out, ingest, ingest_all,
}

abbrev pub IsDistinct : List SavedArtifact → Type 0
IsDistinct [] = Unit
IsDistinct (a ∷ rest) = All (λ b. is_not a.id b ≡ true) rest × IsDistinct rest

IsDistinct-filter :
    (p : SavedArtifact → Bool) (xs : List SavedArtifact) → IsDistinct xs → IsDistinct (filter p xs)
IsDistinct-filter p [] h = tt
IsDistinct-filter p (a ∷ rest) h =
    ground (arith, IsDistinct-filter p rest h.1, All-filter (λ b. is_not a.id b ≡ true) p rest h.0)

IsDistinct-take : (n : ℕ) (xs : List SavedArtifact) → IsDistinct xs → IsDistinct (take n xs)
IsDistinct-take zero xs h = tt
IsDistinct-take (suc n) [] h = tt
IsDistinct-take (suc n) (a ∷ rest) h =
    (All-take (λ b. is_not a.id b ≡ true) n rest h.0, IsDistinct-take n rest h.1)

filter-All :
    (p : SavedArtifact → Bool) (xs : List SavedArtifact) → All (λ b. p b ≡ true) (filter p xs)
filter-All p [] = tt
filter-All p (a ∷ rest) = ground (arith, filter-All p rest)

-- Whether an id is focused that is in the list.
abbrev pub IsListed : Option String → List SavedArtifact → Type 0
IsListed none xs = Unit
IsListed (some id) xs = any (λ a. a.id == id) xs ≡ true

pub record IsBounded (s : Artifacts) : Type 0 where
  pub distinct : IsDistinct s.saved
  pub bounded : length s.saved ≤ max_saved
  pub focused : IsListed s.focused s.saved
  pub stored : length s.storage ≤ max_saved
  pub stored_distinct : IsDistinct s.storage

persist-IsBounded : (s : Artifacts) → IsBounded s → IsBounded (persist s)
unfolding persist
persist-IsBounded s v = record {
  distinct = ground (arith, v.distinct);
  bounded = ground arith;
  focused = ground (arith, v.focused);
  stored = ground (arith, length-take-le max_saved s.saved);
  stored_distinct = ground (arith, IsDistinct-take max_saved s.saved v.distinct, v.stored_distinct);
}

add_artifact-IsBounded :
    (a : SavedArtifact) (s : Artifacts) → IsBounded s → IsBounded (add_artifact a s)
unfolding add_artifact
add_artifact-IsBounded a s v =
    persist-IsBounded
      (record s {
        saved = take max_saved (a ∷ filter (is_not a.id) s.saved);
        focused = some a.id;
        is_open = true;
      })
      (record {
        distinct =
            IsDistinct-take max_saved (a ∷ filter (is_not a.id) s.saved) (
              filter-All (is_not a.id) s.saved,
              IsDistinct-filter (is_not a.id) s.saved v.distinct,
            );
        bounded = length-take-le max_saved (a ∷ filter (is_not a.id) s.saved);
        focused = rw (eq_refl a.id) refl;
        stored = v.stored;
        stored_distinct = v.stored_distinct;
      })

focus_artifact-IsBounded :
    (id : String) (s : Artifacts) → IsBounded s → IsBounded (focus_artifact id s)
unfolding focus_artifact
focus_artifact-IsBounded id s v = elim (Bool-cases (any (λ a. a.id == id) s.saved)) [
  | inl listed ↦
      rw (listed, focus_artifact)
        (record {
          distinct = v.distinct;
          bounded = v.bounded;
          focused = listed;
          stored = v.stored;
          stored_distinct = v.stored_distinct;
        })
  | inr missing ↦ rw (missing, focus_artifact) v
]

step-IsBounded : (s : Artifacts) (c : Call) → IsBounded s → IsBounded (step s c)
unfolding step use_artifact_store read_saved_artifacts open_panel close toggle_maximize
    clear_artifacts
step-IsBounded s (started true writable) v = record {
  distinct = v.stored_distinct;
  bounded = v.stored;
  focused = tt;
  stored = v.stored;
  stored_distinct = v.stored_distinct;
}
step-IsBounded s (started false writable) v = record {
  distinct = tt;
  bounded = omega arith;
  focused = tt;
  stored = v.stored;
  stored_distinct = v.stored_distinct;
}
step-IsBounded s (add a) v = add_artifact-IsBounded a s v
step-IsBounded s (focus id) v = focus_artifact-IsBounded id s v
step-IsBounded s opened v = record {
  distinct = v.distinct;
  bounded = v.bounded;
  focused = v.focused;
  stored = v.stored;
  stored_distinct = v.stored_distinct;
}
step-IsBounded s closed v = record {
  distinct = v.distinct;
  bounded = v.bounded;
  focused = v.focused;
  stored = v.stored;
  stored_distinct = v.stored_distinct;
}
step-IsBounded s toggled v = record {
  distinct = v.distinct;
  bounded = v.bounded;
  focused = v.focused;
  stored = v.stored;
  stored_distinct = v.stored_distinct;
}
step-IsBounded s cleared v =
    persist-IsBounded (record s { saved = []; focused = none })
      (record {
        distinct = tt;
        bounded = omega arith;
        focused = tt;
        stored = v.stored;
        stored_distinct = v.stored_distinct;
      })

run_from : (s : Artifacts) (cs : List Call) → IsBounded s → IsBounded (run s cs)
unfolding run
run_from s [] v = v
run_from s (c ∷ cs) v = run_from (step s c) cs (step-IsBounded s c v)

-- From a storage that is empty at first, after any calls of the store and starts of the application:
-- each saved id is listed once, at most a hundred artifacts are saved and stored, and the artifact
-- that is focused is one of them.
pub run-IsBounded : (cs : List Call) → IsBounded (run never_started cs)
run-IsBounded cs = run_from never_started cs (record {
  distinct = tt;
  bounded = omega arith;
  focused = tt;
  stored = omega arith;
  stored_distinct = tt;
})

-- A delivered file of the list is of the conversation that is filtered for, if it is of any.
abbrev pub Fits : Option String → List ChatArtifact → Type 0
Fits wanted = All (λ a. is_filtered_out wanted a ≡ false)

abbrev pub AreDistinct : List ChatArtifact → Type 0
AreDistinct [] = Unit
AreDistinct (a ∷ rest) = (any (λ x. x.id == a.id) rest ≡ false) × AreDistinct rest

ingest-Fits :
    (a : ChatArtifact) (s : Delivered)
    → Fits s.filter_conversation_id s.items × AreDistinct s.items
    → Fits (ingest a s).filter_conversation_id (ingest a s).items × AreDistinct (ingest a s).items
unfolding ingest
ingest-Fits a s (h, k) = elim (Bool-cases (is_filtered_out s.filter_conversation_id a)) [
  | inl out ↦ rw (out, ingest) (h, k)
  | inr fits ↦
      rw (fits, ingest)
        (elim (Bool-cases (any (λ x. x.id == a.id) s.items)) [
          | inl old ↦ rw (old, ingest) (h, k)
          | inr new ↦ rw (new, ingest) ((fits, h), (new, k))
        ])
]

-- Whatever files are announced, those listed are of the conversation that is filtered for or of
-- none, and each id is listed once.
pub ingest_all-Fits :
    (announced : List ChatArtifact) (s : Delivered)
    → Fits s.filter_conversation_id s.items × AreDistinct s.items
    → Fits (ingest_all announced s).filter_conversation_id (ingest_all announced s).items
      × AreDistinct (ingest_all announced s).items
unfolding ingest_all
ingest_all-Fits [] s h = h
ingest_all-Fits (a ∷ rest) s h = ingest_all-Fits rest (ingest a s) (ingest-Fits a s h)
