-- ===== src/Stores/Artifact.antt =====
-- The preview panel's artifacts (apps/desktop/src/stores/artifact.ts) and the delivered files of a
-- conversation (apps/desktop/src/stores/chat_artifacts.ts).
pub mod Invariant
use agent_workflow_platform.Prelude.{
  ℕ, String, Bool, true, false, ◌&&◌, not, List, [], ◌∷◌, ◌++◌, Option, none, some, ◌==◌,
  if◌then◌else◌, any, filter, take, truthy, present, option_is, option_eq,
}

-- `uri` stands for the fields that the store only passes on.
pub record SavedArtifact : Type 0 where
  pub id : String
  pub uri : String

-- `storage_ok` says whether local storage takes writes, and `storage` is what it holds.
pub record Artifacts : Type 0 where
  pub saved : List SavedArtifact
  pub focused : Option String
  pub is_open : Bool
  pub is_maximized : Bool
  pub storage : List SavedArtifact
  pub storage_ok : Bool

abbrev pub max_saved : ℕ
max_saved = 100

unfoldable pub persist : Artifacts → Artifacts
persist s = if s.storage_ok then record s { storage = take max_saved s.saved } else s

abbrev pub is_not : String → SavedArtifact → Bool
is_not id a = not (a.id == id)

unfoldable pub add_artifact : SavedArtifact → Artifacts → Artifacts
unfolding persist
add_artifact a s = persist (record s {
  saved = take max_saved (a ∷ filter (is_not a.id) s.saved);
  focused = some a.id;
  is_open = true;
})

unfoldable pub focus_artifact : String → Artifacts → Artifacts
focus_artifact id s =
    if any (λ a. a.id == id) s.saved then record s { focused = some id; is_open = true } else s

unfoldable pub open_panel : Artifacts → Artifacts
open_panel s = record s { is_open = true }

unfoldable pub close : Artifacts → Artifacts
close s = record s { is_open = false; is_maximized = false }

unfoldable pub toggle_maximize : Artifacts → Artifacts
toggle_maximize s = record s { is_maximized = not s.is_maximized }

unfoldable pub clear_artifacts : Artifacts → Artifacts
unfolding persist
clear_artifacts s = persist (record s { saved = []; focused = none })

-- `readSavedArtifacts`, where `readable` says whether the storage can be read; all that `persist` has
-- written passes its filter
unfoldable pub read_saved_artifacts : Bool → Artifacts → List SavedArtifact
read_saved_artifacts readable s = if readable then s.storage else []

-- The store as it is set up when the application starts.
unfoldable pub use_artifact_store : Bool → Bool → Artifacts → Artifacts
unfolding read_saved_artifacts
use_artifact_store readable writable s = record {
  saved = read_saved_artifacts readable s;
  focused = none;
  is_open = false;
  is_maximized = false;
  storage = s.storage;
  storage_ok = writable;
}

-- The storage of an application that was never started.
abbrev pub never_started : Artifacts
never_started = record {
  saved = [];
  focused = none;
  is_open = false;
  is_maximized = false;
  storage = [];
  storage_ok = true;
}

-- `started readable writable` is a start of the application.
pub data Call : Type 0 where
  started : Bool → Bool → Call
  add : SavedArtifact → Call
  focus : String → Call
  opened closed toggled cleared : Call

unfoldable pub step : Artifacts → Call → Artifacts
step s (started readable writable) = use_artifact_store readable writable s
step s (add a) = add_artifact a s
step s (focus id) = focus_artifact id s
step s opened = open_panel s
step s closed = close s
step s toggled = toggle_maximize s
step s cleared = clear_artifacts s

unfoldable pub run : Artifacts → List Call → Artifacts
unfolding step
run s [] = s
run s (c ∷ cs) = run (step s c) cs

-- `ChatArtifact`, with the fields that `ingest` reads
pub record ChatArtifact : Type 0 where
  pub id : String
  pub filename : String
  pub conversation_id : Option String

pub record Delivered : Type 0 where
  pub items : List ChatArtifact
  pub filter_conversation_id : Option String

-- an artifact of another conversation than the one that is filtered for
abbrev pub is_filtered_out : Option String → ChatArtifact → Bool
is_filtered_out wanted a =
    present wanted && present a.conversation_id && not (option_eq a.conversation_id wanted)

-- `ingest`
unfoldable pub ingest : ChatArtifact → Delivered → Delivered
ingest a s =
    if is_filtered_out s.filter_conversation_id a
    then s
    else if any (λ x. x.id == a.id) s.items
    then s
    else record s { items = a ∷ s.items }

unfoldable pub ingest_all : List ChatArtifact → Delivered → Delivered
ingest_all [] s = s
ingest_all (a ∷ rest) s = ingest_all rest (ingest a s)
