-- ===== src/Chat/Session.antt =====
-- The end of a turn and of a session: exits of the local agent, the fallback, stopping, retrying and
-- deleting threads (apps/desktop/src/stores/chat.ts).
use agent_workflow_platform.Prelude.{
  ℕ, zero, suc, String, Bool, true, false, ◌&&◌, ◌||◌, not, List, ◌++◌, Option, none, some, ◌==◌,
  if◌then◌else◌, get_elem?, find_index?, truthy, present, option_is, ◌⧺◌,
}
use agent_workflow_platform.Chat.Types.{ChatMessage, user, assistant, Now, cc_stop, warning}
use agent_workflow_platform.Chat.State.{
  Chat, emit, persist_threads, update_context_usage, sync_thread_messages,
}
use agent_workflow_platform.Chat.Threads.{inject_welcome, create_thread, select_begin}
use agent_workflow_platform.Chat.Route.{runs_on}
use agent_workflow_platform.Chat.Background.{assistant_message, background_commit}
use agent_workflow_platform.Chat.Transport.{Runtime, should_route_local_cc, send_via_http}
use agent_workflow_platform.Chat.Turn.{send_message, close_handle}

-- `_retryViaHttpAfterCcCrash`: at most once for each message of the user.
unfoldable pub retry_via_http_after_cc_crash : Now → Chat → Chat
unfolding emit send_via_http
retry_via_http_after_cc_crash now s =
    if s.cc_fallback_used || not (present s.last_sent_content_sig)
    then s
    else send_via_http s.last_sent_attachments
        (record (emit (warning s.locale.cc_fell_back_to_adapter) s) {
          cc_fallback_used = true;
          stream_error_chunk = none;
          error = none;
          is_streaming = true;
          streaming_reply = "";
          stream_started_at = some now.ms;
        })

-- The payload of `cc:session-exit`; `code` is printed already.
pub record SessionExit : Type 0 where
  pub session_id : String
  pub code : String
  pub error : Option String

exit_message : SessionExit → String
exit_message x =
    "cc_session_exit_before_done: code="
    ⧺ x.code
    ⧺ (elim x.error [ none ↦ "" | some e ↦ if truthy e then " error=" ⧺ e else "" ])

-- the exit of a thread in the background, or of a session that no thread has
unfoldable pub background_exit : Now → SessionExit → Chat → Chat
background_exit now x s = elim (find_index? (runs_on x.session_id) s.threads) [
  | none ↦ s
  | some i ↦ elim (get_elem? s.threads i) [ none ↦ s | some t ↦ background_commit now i t s ]
]

-- the view after the exit of its session
unfoldable pub view_exit : SessionExit → Chat → Chat
unfolding exit_message
view_exit x s = record s {
  stream_error_chunk =
      if s.got_cc_done
      then s.stream_error_chunk
      else some (record { code = none; message = exit_message x });
  error = if s.got_cc_done then s.error else some (exit_message x);
  cc_session_id = none;
  got_cc_done = false;
  is_streaming = false;
  stream_started_at = none;
}

-- the handler of `cc:session-exit`
unfoldable pub session_exit : Runtime → Now → SessionExit → Chat → Chat
unfolding view_exit background_exit background_commit retry_via_http_after_cc_crash
    should_route_local_cc
session_exit rt now x s =
    if option_is s.cc_session_id x.session_id
    then (if not s.got_cc_done && should_route_local_cc rt && present s.last_sent_content_sig
        then retry_via_http_after_cc_crash now (view_exit x s)
        else view_exit x s)
    else background_exit now x s

-- `cc_stop` for the session of the view, if there is one
unfoldable pub stop_session : Runtime → Chat → Chat
unfolding emit
stop_session rt s = elim s.cc_session_id [
  | none ↦ s
  | some session ↦
      if truthy session
      then record (if rt.has_cc_stop then emit (cc_stop session) s else s) { cc_session_id = none }
      else s
]

-- `stopStreaming`
unfoldable pub stop_streaming : Runtime → Chat → Chat
unfolding stop_session close_handle
stop_streaming rt s =
    let stopped = stop_session rt (record (close_handle s) { sse_open = false }) in
    record stopped {
      got_cc_done = false;
      is_streaming = false;
      stream_started_at = none;
      current_messages =
          if truthy stopped.streaming_reply
          then stopped.current_messages
            ++ List.◌∷◌ (assistant_message stopped.streaming_reply) List.[]
          else stopped.current_messages;
      streaming_reply = "";
    }

-- `newConversation`
unfoldable pub new_conversation : Runtime → Chat → Chat
unfolding stop_streaming inject_welcome
new_conversation rt s = record (stop_streaming rt s) {
  current_conversation_id = none;
  current_messages = inject_welcome s.locale;
  streaming_reply = "";
  error = none;
}

-- `refreshCurrentConversation`: nothing while a stream runs.
unfoldable pub refresh_current_conversation : Now → Option (List ChatMessage) → Chat → Chat
unfolding sync_thread_messages update_context_usage
refresh_current_conversation now answer s =
    if not (present s.current_conversation_id) || s.is_streaming then s else elim answer [
      | none ↦ s
      | some ms ↦ elim ms [
        | List.[] ↦ s
        | List.◌∷◌ m rest ↦
            update_context_usage
              (sync_thread_messages now (record s { current_messages = List.◌∷◌ m rest }))
      ]
    ]

-- `dismissStreamError`
unfoldable pub dismiss_stream_error : Chat → Chat
dismiss_stream_error s = record s { stream_error_chunk = none }

-- `pop` of a last message by the assistant
unfoldable pub drop_last_assistant : List ChatMessage → List ChatMessage
drop_last_assistant List.[] = List.[]
drop_last_assistant (List.◌∷◌ m List.[]) = elim m.role [
  | assistant ↦ List.[]
  | user ↦ List.◌∷◌ m List.[]
]
drop_last_assistant (List.◌∷◌ m (List.◌∷◌ n ms)) = List.◌∷◌ m (drop_last_assistant (List.◌∷◌ n ms))

is_user : ChatMessage → Bool
is_user m = elim m.role [ user ↦ true | assistant ↦ false ]

-- The last message of the user and the list without it.
unfoldable pub take_last_user : List ChatMessage → Option (ChatMessage × List ChatMessage)
unfolding is_user
take_last_user List.[] = none
take_last_user (List.◌∷◌ m ms) = elim (take_last_user ms) [
  | some (u, rest) ↦ some (u, List.◌∷◌ m rest)
  | none ↦ if is_user m then some (m, ms) else none
]

-- `regenerateLastResponse`
unfoldable pub regenerate_last_response : Runtime → Now → Chat → Chat
unfolding drop_last_assistant take_last_user send_message
regenerate_last_response rt now s =
    if s.is_streaming
    then s
    else let kept = drop_last_assistant s.current_messages in
      elim (take_last_user kept) [
        | none ↦ record s { current_messages = kept }
        | some (u, rest) ↦ send_message rt now u.content (record s { current_messages = rest })
      ]

-- `splice(i, 1)`
unfoldable pub remove_at {ℓ} : {A : Type ℓ} → ℕ → List A → List A
remove_at i List.[] = List.[]
remove_at zero (List.◌∷◌ x xs) = xs
remove_at (suc i) (List.◌∷◌ x xs) = List.◌∷◌ x (remove_at i xs)

-- `deleteThread` after the server has answered: the position is that of before the request. Where
-- another thread is selected, the last `_persistThreads` follows `select_finish`.
unfoldable pub delete_thread : Now → ℕ → String → Chat → Chat
unfolding remove_at create_thread select_begin persist_threads
delete_thread now i id s =
    let removed = record s { threads = remove_at i s.threads } in
    if s.active_thread_id == id
    then (elim removed.threads [
      | List.[] ↦ persist_threads (create_thread now removed)
      | List.◌∷◌ t ts ↦ select_begin now t.id removed
    ])
    else persist_threads removed
