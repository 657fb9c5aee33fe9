-- ===== src/Chat/History.antt =====
-- The list of conversations of the server is merged into the threads (`fetchHistory` of
-- apps/desktop/src/stores/chat.ts).
pub mod Merge
pub mod Order
pub mod Sorted
use agent_workflow_platform.Prelude.{
  ℕ, String, Bool, true, false, List, [], ◌∷◌, ◌++◌, Option, none, some, or_else, ◌==◌,
  if◌then◌else◌, get_elem?, set, truthy, present, text_gt, get_or,
}
use agent_workflow_platform.Chat.Types.{Thread, Now}
use agent_workflow_platform.Chat.State.{Chat, persist_threads, thread_index}

-- `Conversation`, with the two fields that the code reads beside it.
pub record Conversation : Type 0 where
  pub conversation_id : String
  pub id : Option String
  pub title : Option String
  pub created_at : Option String
  pub updated_at : Option String

-- `o || d`
abbrev pub or_text : Option String → String → String
or_text none d = d
or_text (some t) d = if truthy t then t else d

abbrev pub conversation_of : Conversation → String
conversation_of c = or_text c.id c.conversation_id

-- `cloudUpdatedAt`
abbrev pub changed_at : Now → Conversation → String
changed_at now c = or_text c.updated_at (or_text c.created_at now.iso)

-- The thread that is pushed for a conversation that is not there; `untitled` is the text for a
-- conversation without a title.
unfoldable pub pushed : String → Now → Conversation → Thread
pushed untitled now c = record {
  id = conversation_of c;
  conversation_id = none;
  title = or_text c.title untitled;
  messages = [];
  model = "";
  created_at = or_text c.created_at now.iso;
  updated_at = changed_at now c;
  cc_session_id = none;
  is_streaming = false;
  bg_streaming_reply = none;
  bg_session_id = none;
  bg_conv_id = none;
  cc_todo_list = none;
  cc_status = none;
  stream_started_at = none;
  stream_error_chunk = none;
}

unfoldable pub refreshed : Now → Conversation → Thread → Thread
unfolding text_gt
refreshed now c t =
    if text_gt (changed_at now c) t.updated_at
    then record t { title = or_text c.title t.title; updated_at = changed_at now c }
    else t

unfoldable pub merge_at : String → Now → Conversation → Option ℕ → List Thread → List Thread
merge_at untitled now c none ts = ts ++ pushed untitled now c ∷ []
merge_at untitled now c (some i) ts = elim (get_elem? ts i) [
  | none ↦ ts
  | some t ↦ set ts i (refreshed now c t)
]

unfoldable pub merge_conversation : String → Now → Conversation → List Thread → List Thread
unfolding merge_at
merge_conversation untitled now c ts =
    merge_at untitled now c (thread_index (conversation_of c) ts) ts

-- the loop
unfoldable pub merge_all : String → Now → List Conversation → List Thread → List Thread
unfolding merge_conversation
merge_all untitled now [] ts = ts
merge_all untitled now (c ∷ cs) ts =
    merge_all untitled now cs (merge_conversation untitled now c ts)

-- `sort`, which is stable, with the latest thread first; `later` is `a.localeCompare(b) > 0`.
unfoldable pub insert_thread : (String → String → Bool) → Thread → List Thread → List Thread
insert_thread later t [] = t ∷ []
insert_thread later t (u ∷ us) =
    if later u.updated_at t.updated_at then u ∷ insert_thread later t us else t ∷ u ∷ us

unfoldable pub sort_threads : (String → String → Bool) → List Thread → List Thread
unfolding insert_thread
sort_threads later [] = []
sort_threads later (t ∷ ts) = insert_thread later t (sort_threads later ts)

-- `fetchHistory` with the answer of the server; `none` is a request that failed.
unfoldable pub fetch_conversations :
    (String → String → Bool) → String → Now → Option (List Conversation) → Chat → Chat
unfolding merge_all sort_threads persist_threads
fetch_conversations later untitled now none s = s
fetch_conversations later untitled now (some []) s = s
fetch_conversations later untitled now (some (c ∷ cs)) s =
    persist_threads
      (record s { threads = sort_threads later (merge_all untitled now (c ∷ cs) s.threads) })
