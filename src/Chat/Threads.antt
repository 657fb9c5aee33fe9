-- ===== src/Chat/Threads.antt =====
-- Creating threads and switching between them (apps/desktop/src/stores/chat.ts).
mod Finish
pub use Finish.{thread_at, RemoteConversation}
unfoldable pub use Finish.{
  has_messages, remote_messages, remote_updated_at, remote_session, remote_is_newer, adopt_messages,
  local_messages, local_updated_at, merge_messages, merge_session, restore_stream, choose_model,
  at_thread, restore, select_finish,
}
use agent_workflow_platform.Prelude.{
  ℕ, ◌+◌, String, Bool, true, false, ◌&&◌, ◌||◌, not, List, [], ◌∷◌, Option, none, some, get_or,
  ◌==◌, if◌then◌else◌, get_elem?, truthy, present, option_is, decimal, text_gt, ◌⧺◌,
}
use agent_workflow_platform.Chat.Types.{ChatMessage, assistant, Thread, Now, Locale}
use agent_workflow_platform.Chat.State.{
  Chat, persist_threads, thread_index, set_thread, modify_thread?, sync_thread_messages,
}

-- `_makeWelcome`, `_injectWelcome`
unfoldable pub inject_welcome : Locale → List ChatMessage
inject_welcome l = record { role = assistant; content = l.welcome_message; token_usage = none } ∷ []

-- `_parkConversationState`
unfoldable pub park_conversation_state : Chat → Thread → Thread
park_conversation_state s t = record t {
  cc_todo_list = some s.cc_todo_list;
  cc_status = some s.cc_status;
  stream_started_at = s.stream_started_at;
  stream_error_chunk = s.stream_error_chunk;
}

-- The active thread takes the stream of the view along into the background.
unfoldable pub detached : Chat → Thread → Thread
detached s t = record t {
  is_streaming = true;
  bg_streaming_reply = some s.streaming_reply;
  bg_session_id = if present s.cc_session_id then s.cc_session_id else t.bg_session_id;
  bg_conv_id = s.current_conversation_id;
}

-- `_detachActiveStreamToThread`
unfoldable pub detach_active_stream_to_thread : Chat → Chat
detach_active_stream_to_thread s =
    if s.is_streaming
    then modify_thread? (thread_index s.active_thread_id s.threads) (detached s) s
    else s

-- `_ensureConvId` for the thread at a position; the id is then in the thread.
unfoldable pub ensure_conv_id : Now → ℕ → Thread → Chat → Chat
ensure_conv_id now i t s =
    if present t.conversation_id
    then s
    else persist_threads (set_thread i (record t { conversation_id = some now.uuid }) s)

-- the value that `_ensureConvId` returns
unfoldable pub ensured_id : Now → Thread → Option String
ensured_id now t = if present t.conversation_id then t.conversation_id else some now.uuid

unfoldable pub new_thread : Now → String → Chat → Thread
new_thread now id s = record {
  id = id;
  conversation_id = some now.uuid;
  title = s.locale.default_thread_title;
  messages = inject_welcome s.locale;
  model = s.selected_model;
  created_at = now.iso;
  updated_at = now.iso;
  cc_session_id = none;
  is_streaming = false;
  bg_streaming_reply = none;
  bg_session_id = none;
  bg_conv_id = none;
  cc_todo_list = none;
  cc_status = none;
  stream_started_at = none;
  stream_error_chunk = none;
}

-- The view of `thread`, which becomes the first of the list and the active one.
unfoldable pub open_thread : Thread → Chat → Chat
open_thread t s = record s {
  threads = t ∷ s.threads;
  thread_counter = s.thread_counter + 1;
  active_thread_id = t.id;
  current_conversation_id = t.conversation_id;
  current_messages = t.messages;
  streaming_reply = "";
  is_streaming = false;
  cc_session_id = none;
  cc_todo_list = [];
  cc_status = "";
  stream_started_at = none;
  stream_error_chunk = none;
  error = none;
}

unfoldable pub park_active : Chat → Chat
park_active s =
    modify_thread? (thread_index s.active_thread_id s.threads) (park_conversation_state s) s

-- `createThread`
unfoldable pub create_thread : Now → Chat → Chat
create_thread now s =
    let left = sync_thread_messages now (park_active (detach_active_stream_to_thread s)) in
    let id = "thread-" ⧺ decimal left.thread_counter in
    persist_threads (open_thread (new_thread now id left) left)

-- The thread that is left keeps the messages and the panel of the view.
unfoldable pub leave_active : Chat → Chat
leave_active s =
    modify_thread? (thread_index s.active_thread_id s.threads)
      (λ t. park_conversation_state s (record t { messages = s.current_messages })) s

unfoldable pub show_panel : Option Thread → Chat → Chat
show_panel none s = record s {
  cc_todo_list = [];
  cc_status = "";
  stream_started_at = none;
  stream_error_chunk = none;
}
show_panel (some t) s = record s {
  cc_todo_list = get_or t.cc_todo_list [];
  cc_status = get_or t.cc_status "";
  stream_started_at = t.stream_started_at;
  stream_error_chunk = t.stream_error_chunk;
}

-- the conversation id of the target becomes that of the view
unfoldable pub project_conversation : Now → Option ℕ → Option Thread → Chat → Chat
project_conversation now (some i) (some t) s = record (ensure_conv_id now i t s) {
  current_conversation_id = ensured_id now t;
}
project_conversation now _ _ s = s

-- What `selectThread` does before it waits for the remote history.
unfoldable pub select_begin : Now → String → Chat → Chat
select_begin now id s =
    if s.active_thread_id == id
    then s
    else let left = record (leave_active (detach_active_stream_to_thread s)) {
      active_thread_id = id;
    } in
      let i = thread_index id left.threads in
      let target = thread_at i left.threads in
      show_panel target (project_conversation now i target left)
