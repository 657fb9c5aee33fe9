-- ===== src/Chat/Turn.antt =====
-- One turn of a conversation: `sendMessage`, and the callbacks of the HTTP stream
-- (apps/desktop/src/stores/chat.ts).
use agent_workflow_platform.Prelude.{
  String, true, false, ◌&&◌, List, [], ◌∷◌, ◌++◌, Option, none, some, ◌==◌, if◌then◌else◌, ltb,
  truthy, option_is, utf16_length, slice_units, ◌⧺◌,
}
use agent_workflow_platform.Chat.Types.{
  user, assistant, Thread, Chunk, ChunkSource, UploadedFileRef, Now, Locale, close_stream,
}
use agent_workflow_platform.Chat.State.{
  Chat, emit, thread_index, modify_thread?, update_context_usage,
}
use agent_workflow_platform.Chat.Ingest.{link_conversation, ingest_chunk}
use agent_workflow_platform.Chat.Transport.{
  Runtime, send_via_http, send_via_local_cc, should_route_local_cc, start_local_cc_turn,
}

-- the title of a thread, from its first message
title_of : String → String
unfolding slice_units utf16_length
title_of content = slice_units 30 content ⧺ (if ltb 30 (utf16_length content) then "..." else "")

unfoldable pub touch_thread : Now → String → Locale → Thread → Thread
unfolding title_of
touch_thread now content l t = record t {
  title = if t.title == l.default_thread_title && truthy content then title_of content else t.title;
  updated_at = now.iso;
}

-- The view at the start of a turn.
unfoldable pub begin_turn : Now → String → Chat → Chat
unfolding update_context_usage
begin_turn now content s = update_context_usage (record s {
  last_sent_user_content = content;
  cc_fallback_used = false;
  last_sent_content_sig = some content;
  current_messages =
      s.current_messages ++ record { role = user; content = content; token_usage = none } ∷ [];
  streaming_reply = "";
  is_streaming = true;
  error = none;
  stream_error_chunk = none;
  stream_started_at = some now.ms;
  cc_status = "";
  cc_todo_list = [];
})

unfoldable pub close_handle : Chat → Chat
unfolding emit
close_handle s = if s.sse_open then emit close_stream s else s

unfoldable pub staged_files : List UploadedFileRef → Option (List UploadedFileRef)
staged_files [] = none
staged_files (f ∷ fs) = some (f ∷ fs)

-- `sendMessage`
unfoldable pub send_message : Runtime → Now → String → Chat → Chat
unfolding begin_turn touch_thread close_handle staged_files modify_thread? should_route_local_cc
    send_via_local_cc send_via_http
send_message rt now content s =
    if s.is_streaming
    then s
    else let begun = begin_turn now content s in
      let named =
        modify_thread? (thread_index begun.active_thread_id begun.threads)
          (touch_thread now content begun.locale) begun in
      let files = staged_files s.pending_attachments in
      let ready = record (close_handle named) {
        pending_attachments = [];
        last_sent_attachments = files;
      } in
      if should_route_local_cc rt
      then send_via_local_cc rt now files ready
      else send_via_http files ready

no_source : ChunkSource
no_source = record { session_id = none; conv_id = none }

-- The three callbacks of `_sendViaHttp`: a chunk, an error, the response headers.
unfoldable pub http_message : Runtime → Now → Chunk → Chat → Chat
unfolding close_handle link_conversation start_local_cc_turn no_source
http_message rt now chunk s =
    if option_is chunk.type "mode_switch" && option_is chunk.target "local_cc"
    then start_local_cc_turn rt
        (link_conversation chunk.conversation_id (record (close_handle s) { sse_open = false }))
    else ingest_chunk now chunk no_source s

unfoldable pub http_error : String → Chat → Chat
http_error message s = record s {
  error = some message;
  stream_error_chunk = some (record { code = none; message = message });
  is_streaming = false;
  stream_started_at = none;
  current_messages =
      if truthy s.streaming_reply
      then s.current_messages
        ++ record { role = assistant; content = s.streaming_reply; token_usage = none } ∷ []
      else s.current_messages;
  streaming_reply = "";
  sse_open = false;
}

unfoldable pub http_headers : Option String → Chat → Chat
unfolding link_conversation
http_headers conv s = link_conversation conv s
