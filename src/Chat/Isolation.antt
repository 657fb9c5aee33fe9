-- ===== src/Chat/Isolation.antt =====
-- Chunks of a background conversation, the view, and the other threads (`_resolveChunkTarget`,
-- `_ingestBackgroundChunk` of apps/desktop/src/stores/chat.ts).

use agent_workflow_platform.Prelude.{
  ℕ, String, Bool, true, false, ◌&&◌, List, Option, none, some, ◌≡◌, ◌≢◌, ◌∙◌, arith, or_else,
  get_elem?, find_index?-ne, truthy, option_is, Option-cases, inl, inr,
}
use agent_workflow_platform.Chat.Types.{
  ChatMessage, TodoItem, ErrorInfo, Thread, Chunk, ChunkSource, Now,
}
use agent_workflow_platform.Chat.State.{Chat}
use agent_workflow_platform.Chat.Route.{runs_on, holds_conversation, resolve_chunk_target}
use agent_workflow_platform.Chat.Background.{ingest_background_chunk}
use agent_workflow_platform.Chat.Background.Frame.{get_elem?-ingest_background_chunk}
use agent_workflow_platform.Chat.Ingest.{ingest_chunk}

-- What the user sees, and what decides where the next chunk goes.
pub record View : Type 0 where
  pub current_conversation_id : Option String
  pub current_messages : List ChatMessage
  pub streaming_reply : String
  pub is_streaming : Bool
  pub error : Option String
  pub cc_status : String
  pub cc_todo_list : List TodoItem
  pub stream_started_at : Option ℕ
  pub stream_error_chunk : Option ErrorInfo
  pub cc_session_id : Option String
  pub active_thread_id : String

unfoldable pub view : Chat → View
view s = record {
  current_conversation_id = s.current_conversation_id;
  current_messages = s.current_messages;
  streaming_reply = s.streaming_reply;
  is_streaming = s.is_streaming;
  error = s.error;
  cc_status = s.cc_status;
  cc_todo_list = s.cc_todo_list;
  stream_started_at = s.stream_started_at;
  stream_error_chunk = s.stream_error_chunk;
  cc_session_id = s.cc_session_id;
  active_thread_id = s.active_thread_id;
}

pub view-ingest_background_chunk :
    (now : Now) (chunk : Chunk) (i : ℕ) (s : Chat)
    → view (ingest_background_chunk now chunk i s) ≡ view s
unfolding view ingest_background_chunk
view-ingest_background_chunk now chunk i s = ground arith

-- Whether a chunk's conversation is the one on view.
abbrev pub concerns_view : Option String → Chat → Bool
concerns_view none s = false
concerns_view (some conv) s = truthy conv && option_is s.current_conversation_id conv

-- Whether a thread in the background holds a chunk's conversation.
abbrev pub concerns_thread : Option String → Chat → Thread → Bool
concerns_thread none s t = false
concerns_thread (some conv) s t = holds_conversation conv s.active_thread_id t

resolve-is_active :
    (chunk : Chunk) (source : ChunkSource) (s : Chat) (session : String)
    → source.session_id ≡ some session
    → truthy session ≡ true
    → option_is s.cc_session_id session ≡ false
    → concerns_view (or_else source.conv_id chunk.conversation_id) s ≡ false
    → (resolve_chunk_target chunk source s).is_active ≡ false
unfolding resolve_chunk_target
resolve-is_active chunk source s session e t h k = ground arith

-- A chunk of a session other than that of the view, for a conversation other than the one on
-- view, changes nothing that is on view.
pub view-ingest_chunk :
    (now : Now) (chunk : Chunk) (source : ChunkSource) (s : Chat) (session : String)
    → source.session_id ≡ some session
    → truthy session ≡ true
    → option_is s.cc_session_id session ≡ false
    → concerns_view (or_else source.conv_id chunk.conversation_id) s ≡ false
    → view (ingest_chunk now chunk source s) ≡ view s
unfolding ingest_chunk
view-ingest_chunk now chunk source s session e t h k =
    grind (arith, view-ingest_background_chunk, resolve-is_active chunk source s session e t h k)

-- The position of a chunk in the background is that of a thread that it concerns.
resolve-thread :
    (chunk : Chunk) (source : ChunkSource) (s : Chat) (session : String) (i j : ℕ) (t : Thread)
    → source.session_id ≡ some session
    → (resolve_chunk_target chunk source s).is_active ≡ false
    → (resolve_chunk_target chunk source s).thread ≡ some i
    → get_elem? s.threads j ≡ some t
    → runs_on session t ≡ false
    → concerns_thread (or_else source.conv_id chunk.conversation_id) s t ≡ false
    → i ≢ j
unfolding resolve_chunk_target
resolve-thread chunk source s session i j t e inactive found here idle apart =
    elim (Option-cases (or_else source.conv_id chunk.conversation_id)) [
      | inl f ↦ ground (arith, find_index?-ne (runs_on session) s.threads i j t)
      | inr (c, f) ↦ ground (
        arith,
        find_index?-ne (runs_on session) s.threads i j t,
        find_index?-ne (holds_conversation c s.active_thread_id) s.threads i j t,
      )
    ]

-- A chunk of a session other than that of the view, for a conversation other than the one on
-- view, changes no thread, except one that streams on its session or that holds its conversation.
pub threads-ingest_chunk :
    (now : Now) (chunk : Chunk) (source : ChunkSource) (s : Chat) (session : String) (j : ℕ)
    (t : Thread)
    → source.session_id ≡ some session
    → truthy session ≡ true
    → option_is s.cc_session_id session ≡ false
    → concerns_view (or_else source.conv_id chunk.conversation_id) s ≡ false
    → get_elem? s.threads j ≡ some t
    → runs_on session t ≡ false
    → concerns_thread (or_else source.conv_id chunk.conversation_id) s t ≡ false
    → get_elem? (ingest_chunk now chunk source s).threads j ≡ some t
unfolding ingest_chunk
threads-ingest_chunk now chunk source s session j t e named other hidden here idle apart =
    let inactive = resolve-is_active chunk source s session e named other hidden in
    elim (Option-cases (resolve_chunk_target chunk source s).thread) [
      | inl f ↦ rw (inactive, f) here
      | inr (i, f) ↦
          rw (inactive, f)
            (get_elem?-ingest_background_chunk now chunk i j s
                (resolve-thread chunk source s session i j t e inactive f here idle apart)
              ∙ here)
    ]
