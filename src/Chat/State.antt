-- ===== src/Chat/State.antt =====
-- The state of the chat store, and the helpers that read and write its threads.
use agent_workflow_platform.Prelude.{
  ℕ, ◌+◌, ◌*◌, ◌/◌, String, Bool, List, [], ◌∷◌, map, Option, none, some, ◌==◌, if◌then◌else◌, take,
  take_last, set, get_elem?, find_index?, length, truthy, trim, utf16_length,
}
use agent_workflow_platform.Chat.Types.{
  ChatMessage, assistant, TodoItem, ErrorInfo, Thread, UploadedFileRef, Effect, append_message, Now,
  Locale,
}

pub record ContextUsage : Type 0 where
  pub message_count : ℕ
  pub estimated_tokens : ℕ

-- `sse_open` says that `sseHandle` is set. `storage` is what local storage holds for the user, and
-- `storage_ok` whether it takes writes. The newest of the `effects` is first.
pub record Chat : Type 0 where
  pub selected_model : String
  pub current_conversation_id : Option String
  pub current_messages : List ChatMessage
  pub streaming_reply : String
  pub is_streaming : Bool
  pub error : Option String
  pub cc_status : String
  pub cc_todo_list : List TodoItem
  pub stream_started_at : Option ℕ
  pub stream_error_chunk : Option ErrorInfo
  pub context_usage : ContextUsage
  pub pending_attachments : List UploadedFileRef
  pub sse_open : Bool
  pub cc_session_id : Option String
  pub got_cc_done : Bool
  pub last_sent_user_content : String
  pub last_sent_attachments : Option (List UploadedFileRef)
  pub cc_fallback_used : Bool
  pub last_sent_content_sig : Option String
  pub threads : List Thread
  pub active_thread_id : String
  pub thread_counter : ℕ
  pub storage : List Thread
  pub storage_ok : Bool
  pub locale : Locale
  pub effects : List Effect

abbrev pub max_persisted_threads : ℕ
max_persisted_threads = 50

abbrev pub max_persisted_messages : ℕ
max_persisted_messages = 100

unfoldable pub emit : Effect → Chat → Chat
emit e s = record s { effects = e ∷ s.effects }

-- the thread as it is written to local storage
unfoldable pub persisted : Thread → Thread
persisted t = record t { messages = take_last max_persisted_messages t.messages }

-- `_persistThreads`
unfoldable pub persist_threads : Chat → Chat
unfolding persisted
persist_threads s =
    if s.storage_ok
    then record s { storage = map persisted (take max_persisted_threads s.threads) }
    else s

-- `threads.value.find(t => t.id === id)`, as a position
abbrev pub thread_index : String → List Thread → Option ℕ
thread_index id threads = find_index? (λ t. t.id == id) threads

abbrev pub set_thread : ℕ → Thread → Chat → Chat
set_thread i t s = record s { threads = set s.threads i t }

-- Changes the thread at a position.
unfoldable pub modify_thread : ℕ → (Thread → Thread) → Chat → Chat
modify_thread i f s = elim (get_elem? s.threads i) [ none ↦ s | some t ↦ set_thread i (f t) s ]

unfoldable pub modify_thread? : Option ℕ → (Thread → Thread) → Chat → Chat
unfolding modify_thread
modify_thread? none f s = s
modify_thread? (some i) f s = modify_thread i f s

-- `_syncThreadMessages`
unfoldable pub sync_thread_messages : Now → Chat → Chat
unfolding modify_thread? persist_threads
sync_thread_messages now s = persist_threads (
    modify_thread? (thread_index s.active_thread_id s.threads)
      (λ t. record t { messages = s.current_messages; updated_at = now.iso }) s)

-- `_persistAssistantBubble`
unfoldable pub persist_assistant_bubble : Option String → String → Chat → Chat
unfolding emit trim
persist_assistant_bubble none content s = s
persist_assistant_bubble (some conv) content s =
    if truthy conv
    then (if truthy (trim content) then emit (append_message conv assistant content) s else s)
    else s

total_units : List ChatMessage → ℕ
total_units [] = 0
total_units (m ∷ ms) = utf16_length m.content + total_units ms

-- `updateContextUsage`: `Math.round(n / 3)` is `(2 n + 3) / 6` rounded down
unfoldable pub update_context_usage : Chat → Chat
unfolding total_units utf16_length
update_context_usage s =
    let total = total_units s.current_messages + utf16_length s.streaming_reply in
    record s {
      context_usage = record {
        message_count = length s.current_messages;
        estimated_tokens = (2 * total + 3) / 6;
      };
    }
