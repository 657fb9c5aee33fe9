-- ===== src/Chat/Ingest.antt =====
-- `_ingestChunk`: one chunk of a stream, routed to the view or to a thread in the background.
use agent_workflow_platform.Prelude.{
  ℕ, ◌+◌, List, [], String, Bool, true, false, ◌&&◌, not, [], ◌∷◌, ◌++◌, map, Option, none, some,
  get_or, or_else, if◌then◌else◌, get_elem?, find_index?, truthy, present, option_is, trim, ◌⧺◌,
}
use agent_workflow_platform.Chat.Types.{
  ChatMessage, assistant, TokenUsage, TodoItem, ErrorInfo, Thread, Choice, Usage, Chunk,
  ChunkSource, ChunkTarget, Now, patch_conversation,
}
use agent_workflow_platform.Chat.State.{
  Chat, emit, persist_threads, thread_index, set_thread, sync_thread_messages,
  persist_assistant_bubble, update_context_usage,
}
use agent_workflow_platform.Chat.ErrorChunk.{extract_error_chunk}
use agent_workflow_platform.Chat.Route.{resolve_chunk_target}
use agent_workflow_platform.Chat.Background.{
  add_todo_item, assistant_message, is_finished, ingest_background_chunk,
}

-- The reply so far becomes a message of its own, in the view and in the remote history.
unfoldable pub flush_reply : Chat → Chat
unfolding persist_assistant_bubble
flush_reply s = record (persist_assistant_bubble s.current_conversation_id s.streaming_reply s) {
  current_messages = s.current_messages ++ assistant_message s.streaming_reply ∷ [];
  streaming_reply = "";
}

unfoldable pub error_text : ErrorInfo → String
error_text e = elim e.code [
  | none ↦ e.message
  | some c ↦ if truthy c then "[" ⧺ c ⧺ "] " ⧺ e.message else e.message
]

unfoldable pub ingest_error : ErrorInfo → Chat → Chat
unfolding error_text flush_reply
ingest_error e s =
    let failed = record s {
      stream_error_chunk = some e;
      error = some (error_text e);
      is_streaming = false;
      stream_started_at = none;
    } in
    record (if truthy s.streaming_reply then flush_reply failed else failed) { sse_open = false }

-- A tool step: the text before it is flushed, and the step is listed.
unfoldable pub ingest_status : String → Option String → Chat → Chat
unfolding flush_reply add_todo_item
ingest_status label tool s =
    let flushed = if truthy (trim s.streaming_reply) then flush_reply s else s in
    record flushed {
      cc_status = label;
      cc_todo_list = add_todo_item label tool flushed.cc_todo_list;
    }

unfoldable pub choice_text : Option Choice → String
choice_text none = ""
choice_text (some c) = get_or c.content ""

unfoldable pub append_text : Chunk → Chat → Chat
unfolding choice_text
append_text chunk s = record s {
  streaming_reply = (s.streaming_reply ⧺ get_or chunk.delta "") ⧺ choice_text chunk.choice;
}

unfoldable pub link_conversation : Option String → Chat → Chat
link_conversation conv s =
    if present conv && not (present s.current_conversation_id)
    then record s { current_conversation_id = conv }
    else s

abbrev pub has_conversation : Option String → Thread → Bool
has_conversation none t = false
has_conversation (some conv) t = option_is t.conversation_id conv

-- The thread that a native session id belongs to: that of the conversation that the chunk names,
-- else the target of the chunk, else the active thread.
unfoldable pub owner_index : Option String → Option ℕ → Chat → Option ℕ
owner_index conv target s =
    or_else (if present conv then find_index? (has_conversation conv) s.threads else none)
      (or_else target (thread_index s.active_thread_id s.threads))

unfoldable pub patch_owner : Option String → String → Chat → Chat
unfolding emit
patch_owner none new_id s = s
patch_owner (some conv) new_id s =
    if truthy conv then emit (patch_conversation conv new_id) s else s

unfoldable pub pin_session : Option String → String → ℕ → Thread → Chat → Chat
unfolding persist_threads patch_owner
pin_session conv new_id i t s =
    if option_is t.cc_session_id new_id
    then s
    else patch_owner (or_else t.conversation_id (or_else conv s.current_conversation_id)) new_id
        (persist_threads (set_thread i (record t { cc_session_id = some new_id }) s))

unfoldable pub pin_owner : Option String → String → Option ℕ → Chat → Chat
pin_owner conv new_id none s = s
pin_owner conv new_id (some i) s = elim (get_elem? s.threads i) [
  | none ↦ s
  | some t ↦ pin_session conv new_id i t s
]

unfoldable pub capture_session : Chunk → Option ℕ → Chat → Chat
unfolding owner_index pin_session pin_owner
capture_session chunk target s =
    if option_is chunk.type "message_start"
    then elim chunk.cc_session_id [
      | none ↦ s
      | some new_id ↦
          pin_owner chunk.conversation_id new_id (owner_index chunk.conversation_id target s) s
    ]
    else s

unfoldable pub token_usage : Option Usage → Option TokenUsage
token_usage none = none
token_usage (some u) = some (record {
  input_tokens = u.input_tokens;
  output_tokens = u.output_tokens;
  total_tokens = u.input_tokens + u.output_tokens;
})

unfoldable pub final_message : Chunk → String → ChatMessage
unfolding token_usage
final_message chunk reply = record {
  role = assistant;
  content = reply;
  token_usage = token_usage chunk.usage;
}

unfoldable pub end_stream : Chat → Chat
end_stream s = record s {
  streaming_reply = "";
  is_streaming = false;
  stream_started_at = none;
  sse_open = false;
}

-- The end of the stream with a reply.
unfoldable pub finish_reply : Now → Chunk → Chat → Chat
unfolding final_message end_stream update_context_usage sync_thread_messages
    persist_assistant_bubble
finish_reply now chunk s =
    let told = update_context_usage (
      end_stream (record s {
        current_messages = s.current_messages ++ final_message chunk s.streaming_reply ∷ [];
      })) in
    let listed = record told {
      cc_todo_list = map (λ (x : TodoItem). record x { done = true }) told.cc_todo_list;
      cc_status = "";
    } in
    persist_assistant_bubble listed.current_conversation_id s.streaming_reply
      (sync_thread_messages now listed)

unfoldable pub finish_stream : Now → Chunk → Chat → Chat
unfolding is_finished finish_reply end_stream
finish_stream now chunk s =
    if is_finished chunk
    then (let seen = record s { got_cc_done = true } in
        if truthy (trim s.streaming_reply) then finish_reply now chunk seen else end_stream seen)
    else s

-- what `_ingestChunk` does with a chunk that is neither an error nor a tool step
unfoldable pub ingest_text : Now → Chunk → Option ℕ → Chat → Chat
unfolding append_text link_conversation capture_session finish_stream
ingest_text now chunk target s =
    finish_stream now chunk
      (capture_session chunk target (link_conversation chunk.conversation_id (append_text chunk s)))

-- A chunk for the view.
unfoldable pub ingest_active : Now → Chunk → Option ℕ → Chat → Chat
unfolding ingest_error ingest_status ingest_text
ingest_active now chunk target s = elim (extract_error_chunk chunk) [
  | some e ↦ ingest_error e s
  | none ↦
      if option_is chunk.type "cc_status" && present chunk.label
      then ingest_status (get_or chunk.label "") chunk.tool s
      else ingest_text now chunk target s
]

unfoldable pub by_target : Now → Chunk → ChunkTarget → Chat → Chat
by_target now chunk target s =
    if target.is_active
    then ingest_active now chunk target.thread s
    else elim target.thread [ some i ↦ ingest_background_chunk now chunk i s | none ↦ s ]

unfoldable pub ingest_chunk : Now → Chunk → ChunkSource → Chat → Chat
unfolding by_target
ingest_chunk now chunk source s = by_target now chunk (resolve_chunk_target chunk source s) s

-- The subscription to `cc:stream-event`: the chunks of a source arrive one after another.
abbrev pub arrive : ChunkSource → List (Now × Chunk) → Chat → Chat
arrive source [] s = s
arrive source ((now, chunk) ∷ cs) s = arrive source cs (ingest_chunk now chunk source s)
