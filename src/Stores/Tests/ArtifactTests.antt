-- ===== src/Stores/Tests/ArtifactTests.antt =====
-- The theorems on the artifact lists at concrete states.
use agent_workflow_platform.Prelude.{true, List, [], ◌∷◌, some}
use agent_workflow_platform.Stores.Artifact.{
  never_started, Call, started, add, focus, run, ChatArtifact, Delivered,
}
use agent_workflow_platform.Stores.Artifact.Invariant.{IsBounded, run-IsBounded}

abbrev some_calls : List Call
some_calls =
    started true true
    ∷ add (record { id = "a"; uri = "awp://artifact/a" })
    ∷ add (record { id = "b"; uri = "awp://artifact/b" })
    ∷ started true true
    ∷ focus "a"
    ∷ []

run-IsBounded_example : IsBounded (run never_started some_calls)
run-IsBounded_example = run-IsBounded some_calls

abbrev announced : List ChatArtifact
announced =
    record { id = "a"; filename = "a.pdf"; conversation_id = some "c1" }
    ∷ record { id = "b"; filename = "b.pdf"; conversation_id = some "c2" }
    ∷ []

abbrev filtered : Delivered
filtered = record { items = []; filter_conversation_id = some "c1" }
