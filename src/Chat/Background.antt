-- ===== src/Chat/Background.antt =====
-- `_ingestBackgroundChunk`: a chunk of a thread that streams while another one is on view.
pub mod Frame
use agent_workflow_platform.Prelude.{
  ℕ, String, Bool, true, false, ◌&&◌, ◌||◌, not, List, [], ◌∷◌, ◌++◌, Option, none, some, get_or,
  ◌==◌, if◌then◌else◌, get_elem?, any, truthy, present, option_is, option_eq, trim, ◌⧺◌,
}
use agent_workflow_platform.Chat.Types.{
  ChatMessage, assistant, TodoItem, Thread, Choice, Chunk, Now, patch_conversation,
}
use agent_workflow_platform.Chat.State.{
  Chat, emit, persist_threads, set_thread, persist_assistant_bubble,
}
use agent_workflow_platform.Chat.ErrorChunk.{extract_error_chunk}

-- The last item is marked as done.
unfoldable pub finish_last : List TodoItem → List TodoItem
finish_last [] = []
finish_last (x ∷ []) = record x { done = true } ∷ []
finish_last (x ∷ y ∷ xs) = x ∷ finish_last (y ∷ xs)

abbrev pub same_step : String → Option String → TodoItem → Bool
same_step label tool x = x.label == label && option_eq x.tool tool

-- `_addTodoItem`: the item before is done; a step that is listed is not listed again.
unfoldable pub add_todo_item : String → Option String → List TodoItem → List TodoItem
unfolding finish_last
add_todo_item label tool list =
    if any (same_step label tool) list
    then finish_last list
    else finish_last list ++ record { label = label; done = false; tool = tool } ∷ []

unfoldable pub background_status : Chunk → Thread → Thread
background_status chunk t =
    if present chunk.label
    then record t {
      cc_status = chunk.label;
      cc_todo_list =
          some (add_todo_item (get_or chunk.label "") chunk.tool (get_or t.cc_todo_list []));
    }
    else t

unfoldable pub patch_session : Option String → String → Chat → Chat
unfolding emit
patch_session none new_id s = s
patch_session (some conv) new_id s =
    if truthy conv then emit (patch_conversation conv new_id) s else s

unfoldable pub background_resume : ℕ → Thread → String → Chat → Chat
unfolding persist_threads patch_session
background_resume i t new_id s =
    if option_is t.cc_session_id new_id
    then s
    else patch_session t.bg_conv_id new_id
        (persist_threads (set_thread i (record t { cc_session_id = some new_id }) s))

abbrev pub assistant_message : String → ChatMessage
assistant_message content = record { role = assistant; content = content; token_usage = none }

-- The messages of a thread with the reply that it has gathered, unless that is blank.
unfoldable pub with_reply : List ChatMessage → String → List ChatMessage
with_reply ms txt = if truthy txt then ms ++ assistant_message txt ∷ [] else ms

unfoldable pub committed : Now → Thread → Thread
unfolding with_reply trim
committed now t = record t {
  messages = with_reply t.messages (trim (get_or t.bg_streaming_reply ""));
  bg_streaming_reply = some "";
  is_streaming = false;
  bg_session_id = none;
  bg_conv_id = none;
  updated_at = now.iso;
}

-- The reply is committed to the thread's own messages and the stream is over.
unfoldable pub background_commit : Now → ℕ → Thread → Chat → Chat
unfolding committed persist_assistant_bubble persist_threads
background_commit now i t s = persist_threads (
    set_thread i (committed now t)
      (persist_assistant_bubble t.bg_conv_id (trim (get_or t.bg_streaming_reply "")) s))

choice_content : Option Choice → Option String
choice_content none = none
choice_content (some c) = c.content

-- the text that a chunk adds: its `delta`, or else that of its first choice
unfoldable pub background_text : Chunk → Option String
unfolding choice_content
background_text chunk = elim chunk.delta [ some d ↦ some d | none ↦ choice_content chunk.choice ]

unfoldable pub accumulate : Chunk → Thread → Thread
unfolding background_text choice_content
accumulate chunk t = elim (background_text chunk) [
  | none ↦ t
  | some d ↦ record t { bg_streaming_reply = some (get_or t.bg_streaming_reply "" ⧺ d) }
]

stop_reason : Option Choice → Bool
stop_reason none = false
stop_reason (some c) = option_is c.finish_reason "stop"

unfoldable pub is_finished : Chunk → Bool
unfolding stop_reason
is_finished chunk = chunk.done || stop_reason chunk.choice

unfoldable pub background_stream : Now → ℕ → Thread → Chunk → Chat → Chat
background_stream now i t chunk s = elim (extract_error_chunk chunk) [
  | some e ↦ background_commit now i t s
  | none ↦
      if is_finished chunk
      then background_commit now i (accumulate chunk t) s
      else set_thread i (accumulate chunk t) s
]

unfoldable pub background_text_or_resume : Now → ℕ → Thread → Chunk → Chat → Chat
background_text_or_resume now i t chunk s =
    if option_is chunk.type "message_start"
    then elim chunk.cc_session_id [
      | some new_id ↦ background_resume i t new_id s
      | none ↦ background_stream now i t chunk s
    ]
    else background_stream now i t chunk s

unfoldable pub background_thread : Now → ℕ → Thread → Chunk → Chat → Chat
unfolding background_status
background_thread now i t chunk s =
    if option_is chunk.type "cc_status"
    then set_thread i (background_status chunk t) s
    else background_text_or_resume now i t chunk s

unfoldable pub ingest_background_chunk : Now → Chunk → ℕ → Chat → Chat
unfolding background_thread background_text_or_resume background_stream background_resume
    background_commit accumulate is_finished
ingest_background_chunk now chunk i s = elim (get_elem? s.threads i) [
  | none ↦ s
  | some t ↦ background_thread now i t chunk s
]
