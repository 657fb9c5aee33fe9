-- ===== src/Chat/Tests.antt =====
-- The theorems on the chat store at concrete states.
mod AwayTests
mod HistoryTests
mod IdentityTests
mod ReplyTests
mod DeliveryTests
mod TurnTests
use agent_workflow_platform.Prelude.{
  String, Bool, true, false, [], ◌∷◌, Option, none, some, ◌≡◌, refl, any, All, get_elem?, last?,
  if◌then◌else◌,
}
use agent_workflow_platform.Chat.Types.{
  ChatMessage, user, TodoItem, Thread, Chunk, ChunkSource, Now, Locale,
}
use agent_workflow_platform.Chat.State.{Chat}
use agent_workflow_platform.Chat.ErrorChunk.{extract_error_chunk}
use agent_workflow_platform.Chat.Background.{add_todo_item, same_step}
use agent_workflow_platform.Chat.Ingest.{ingest_chunk}
use agent_workflow_platform.Chat.Isolation.{view, view-ingest_chunk, threads-ingest_chunk}
use agent_workflow_platform.Chat.Panel.{IsOrderly, AreDistinct, add_todo_item-IsOrderly}

abbrev english : Locale
english = record {
  welcome_message = "Hello";
  default_thread_title = "New chat";
  cc_fell_back_to_adapter = "Fell back";
}

abbrev now : Now
now = record { uuid = "uuid-1"; iso = "2026-01-01T00:00:00Z"; ms = 1000 }

abbrev hello : ChatMessage
hello = record { role = user; content = "hi"; token_usage = none }

-- A thread with an id and, if it streams in the background, the session that it runs on.
abbrev made : String → Option String → Bool → Thread
made id session streams = record {
  id = id;
  conversation_id = none;
  title = "New chat";
  messages = hello ∷ [];
  model = "opus";
  created_at = "2026-01-01T00:00:00Z";
  updated_at = "2026-01-01T00:00:00Z";
  cc_session_id = none;
  is_streaming = streams;
  bg_streaming_reply = some "so far";
  bg_session_id = session;
  bg_conv_id = none;
  cc_todo_list = none;
  cc_status = none;
  stream_started_at = none;
  stream_error_chunk = none;
}

-- `thread-1` streams on view, `thread-2` in the background, and `thread-3` is idle.
abbrev busy : Chat
busy = record {
  selected_model = "opus";
  current_conversation_id = some "conv-1";
  current_messages = hello ∷ [];
  streaming_reply = "par";
  is_streaming = true;
  error = none;
  cc_status = "";
  cc_todo_list = [];
  stream_started_at = some 900;
  stream_error_chunk = none;
  context_usage = record { message_count = 1; estimated_tokens = 1 };
  pending_attachments = [];
  sse_open = false;
  cc_session_id = some "s-1";
  got_cc_done = false;
  last_sent_user_content = "hi";
  last_sent_attachments = none;
  cc_fallback_used = false;
  last_sent_content_sig = some "hi";
  threads =
      made "thread-1" none false
      ∷ made "thread-2" (some "s-2") true
      ∷ made "thread-3" none false
      ∷ [];
  active_thread_id = "thread-1";
  thread_counter = 4;
  storage = [];
  storage_ok = true;
  locale = english;
  effects = [];
}

abbrev delta : String → Chunk
delta text = record {
  type = none;
  delta = some text;
  done = false;
  conversation_id = none;
  usage = none;
  choice = none;
  label = none;
  tool = none;
  target = none;
  cc_session_id = none;
  code = none;
  message = none;
  error = none;
}

abbrev from_s1 : ChunkSource
from_s1 = record { session_id = some "s-1"; conv_id = none }

abbrev from_s2 : ChunkSource
from_s2 = record { session_id = some "s-2"; conv_id = none }

view-ingest_chunk_example : view (ingest_chunk now (delta "tial") from_s2 busy) ≡ view busy
view-ingest_chunk_example =
    view-ingest_chunk now (delta "tial") from_s2 busy "s-2" refl refl refl refl

threads-ingest_chunk_example :
    get_elem? (ingest_chunk now (delta "tial") from_s2 busy).threads 2
    ≡ some (made "thread-3" none false)
threads-ingest_chunk_example =
    threads-ingest_chunk now (delta "tial") from_s2 busy "s-2" 2 (made "thread-3" none false) refl
      refl refl refl refl refl refl

abbrev read_step : TodoItem
read_step = record { label = "Read"; done = true; tool = none }

abbrev edit_step : TodoItem
edit_step = record { label = "Edit"; done = false; tool = some "edit" }

crash_dump :
    extract_error_chunk (delta " E-AB12CD : disk full")
    ≡ some (record { code = some "E-AB12CD"; message = "disk full" })
unfolding extract_error_chunk
crash_dump = refl

too_long : extract_error_chunk (delta "E-ABCDEFGHIJKLM") ≡ none
unfolding extract_error_chunk
too_long = refl

-- The test does not ask for capitals: an answer that begins with the word "E-mail" passes for a
-- crash dump.
e_mail :
    extract_error_chunk (delta "E-mail me") ≡ some (record { code = some "E-mail"; message = "me" })
unfolding extract_error_chunk
e_mail = refl

ordinary : extract_error_chunk (delta "An answer") ≡ none
unfolding extract_error_chunk
ordinary = refl
