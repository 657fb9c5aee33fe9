-- ===== src/Chat/Transport.antt =====
-- The two transports of a turn, HTTP and the local agent, and the fallback from the one to the other
-- (`_sendViaHttp`, `_sendViaLocalCc`, `_startLocalCcTurn` of apps/desktop/src/stores/chat.ts).
use agent_workflow_platform.Prelude.{
  ℕ, String, Bool, true, false, ◌&&◌, ◌||◌, not, List, [], ◌∷◌, Option, none, some, get_or, or_else,
  ◌==◌, if◌then◌else◌, last?, filter, truthy, present, find?, ◌⧺◌,
}
use agent_workflow_platform.Chat.Types.{
  ChatMessage, user, assistant, Thread, UploadedFileRef, Now, Locale, append_message, cc_start,
  cc_send_message, stream_message,
}
use agent_workflow_platform.Chat.State.{Chat, emit, thread_index}
use agent_workflow_platform.Chat.Threads.{ensure_conv_id, ensured_id, thread_at}
use agent_workflow_platform.Chat.Ingest.{has_conversation}

-- What the code reads from the window and from the settings.
pub record Runtime : Type 0 where
  pub has_cc_start : Bool
  pub has_cc_stop : Bool
  pub lab_mode : Bool
  pub server_url : String
  pub local_runtime_available : Bool

-- `_shouldRouteLocalCc`
unfoldable pub should_route_local_cc : Runtime → Bool
should_route_local_cc rt =
    rt.has_cc_start && (rt.lab_mode || (truthy rt.server_url && rt.local_runtime_available))

-- `_isWelcomeMessage`
unfoldable pub is_welcome_message : Locale → ChatMessage → Bool
is_welcome_message l m = elim m.role [ user ↦ false | assistant ↦ m.content == l.welcome_message ]

last_only : List ChatMessage → List ChatMessage
last_only ms = elim (last? ms) [ none ↦ [] | some m ↦ m ∷ [] ]

-- The whole history without the welcome, or its last message where the server knows the rest.
unfoldable pub messages_to_send : Chat → List ChatMessage
unfolding is_welcome_message last_only
messages_to_send s =
    let without_welcome = filter (λ m. not (is_welcome_message s.locale m)) s.current_messages in
    if present s.current_conversation_id then last_only without_welcome else without_welcome

-- `_sendViaHttp`
unfoldable pub send_via_http : Option (List UploadedFileRef) → Chat → Chat
unfolding messages_to_send emit
send_via_http files s =
    record (emit
      (stream_message s.selected_model (messages_to_send s)
        (if present s.current_conversation_id then s.current_conversation_id else none) files)
      s) { sse_open = true }

-- An error bubble that ends the turn.
unfoldable pub fail_turn : String → Chat → Chat
fail_turn message s = record s {
  stream_error_chunk = some (record { code = none; message = message });
  error = some message;
  is_streaming = false;
  stream_started_at = none;
}

-- In lab mode a failure is shown; otherwise the turn falls back to the remote adapter.
unfoldable pub fail_or_fall_back : Runtime → String → Option (List UploadedFileRef) → Chat → Chat
unfolding fail_turn send_via_http
fail_or_fall_back rt message files s =
    if rt.lab_mode
    then fail_turn message s
    else send_via_http files (record s { cc_fallback_used = true })

unfoldable pub local_thread :
    Runtime → Now → Option (List UploadedFileRef) → Option ℕ → Option Thread → Chat → Chat
unfolding ensure_conv_id ensured_id emit
local_thread rt now files (some i) (some t) s =
    let identified = record (ensure_conv_id now i t s) {
      current_conversation_id = ensured_id now t;
    } in
    emit
      (cc_start (get_or (ensured_id now t) "") s.selected_model
        (if present t.cc_session_id then t.cc_session_id else none))
      identified
local_thread rt now files _ _ s =
    fail_or_fall_back rt "lab mode: no active thread for cc_start" files s

-- `_sendViaLocalCc` up to the call of `cc_start`.
unfoldable pub send_via_local_cc : Runtime → Now → Option (List UploadedFileRef) → Chat → Chat
unfolding local_thread fail_turn send_via_http
send_via_local_cc rt now files s =
    if rt.has_cc_start
    then (let i = thread_index s.active_thread_id s.threads in
        local_thread rt now files i (thread_at i s.threads) (record s { got_cc_done = false }))
    else if rt.lab_mode
    then fail_turn
        "lab mode: electronAPI.cc_start unavailable — Lab APP requires the desktop electron build" s
    else send_via_http files s

-- What `cc_start` answers; `threw` is an exception on the way.
pub data StartResult : Type 0 where
  started refused threw : String → StartResult

-- the user's message is written to the remote history
push_user_message : String → Chat → Chat
unfolding emit
push_user_message content s = elim s.current_conversation_id [
  | none ↦ s
  | some conv ↦ if truthy conv then emit (append_message conv user content) s else s
]

-- `_sendViaLocalCc` from the answer of `cc_start` on. Where `cc_send_message` throws, a call with
-- `threw` follows the one with `started`.
unfoldable pub local_cc_started :
    Runtime → StartResult → String → Option (List UploadedFileRef) → Chat → Chat
unfolding push_user_message emit fail_or_fall_back
local_cc_started rt (started session) content files s =
    if truthy session
    then emit (cc_send_message session content files)
        (push_user_message content (record s { cc_session_id = some session }))
    else fail_or_fall_back rt "lab cc_start failed: unknown" files s
local_cc_started rt (refused message) content files s =
    fail_or_fall_back rt ("lab cc_start failed: " ⧺ message) files s
local_cc_started rt (threw message) content files s =
    fail_or_fall_back rt ("lab cc dispatch threw: " ⧺ message) files s

-- `_startLocalCcTurn` up to the call of `cc_start`: the native session is that of the thread
-- that owns the conversation.
owner_thread : String → Chat → Option Thread
owner_thread conv s =
    or_else (find? (has_conversation (some conv)) s.threads)
      (find? (λ t. t.id == s.active_thread_id) s.threads)

resume_of : Option Thread → Option String
resume_of none = none
resume_of (some t) = if present t.cc_session_id then t.cc_session_id else none

unfoldable pub start_local_cc_turn : Runtime → Chat → Chat
unfolding emit fail_turn owner_thread resume_of
start_local_cc_turn rt s =
    if rt.has_cc_start
    then (let conv = get_or s.current_conversation_id "" in
        emit (cc_start conv s.selected_model (resume_of (owner_thread conv s)))
          (record s { got_cc_done = false }))
    else fail_turn "cc_local_not_available: Desktop CC runtime unavailable" s

-- `_startLocalCcTurn` from the answer of `cc_start` on.
unfoldable pub local_cc_turn_started :
    StartResult → String → Option (List UploadedFileRef) → Chat → Chat
unfolding emit fail_turn
local_cc_turn_started (started session) content files s =
    if truthy session
    then emit (cc_send_message session content files) (record s { cc_session_id = some session })
    else fail_turn "cc_start_failed: unknown" s
local_cc_turn_started (refused message) content files s =
    fail_turn ("cc_start_failed: " ⧺ message) s
local_cc_turn_started (threw message) content files s = fail_turn ("cc_start_failed: " ⧺ message) s
