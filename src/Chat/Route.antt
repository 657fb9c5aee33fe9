-- ===== src/Chat/Route.antt =====
-- `_resolveChunkTarget`: which thread a chunk belongs to.
use agent_workflow_platform.Prelude.{
  ℕ, String, Bool, true, false, ◌&&◌, ◌||◌, not, Option, none, some, or_else, ◌==◌, if◌then◌else◌,
  find_index?, truthy, option_is,
}
use agent_workflow_platform.Chat.Types.{Thread, Chunk, ChunkSource, ChunkTarget}
use agent_workflow_platform.Chat.State.{Chat, thread_index}

-- a thread in the background that runs on a wrapper session
abbrev pub runs_on : String → Thread → Bool
runs_on session t = option_is t.bg_session_id session && t.is_streaming

-- a thread other than the active one that has a conversation id
abbrev pub holds_conversation : String → String → Thread → Bool
holds_conversation conv active t =
    (option_is t.bg_conv_id conv || t.id == conv) && not (t.id == active)

abbrev pub active_target : Chat → ChunkTarget
active_target s = record {
  thread = thread_index s.active_thread_id s.threads;
  is_active = true;
  orphan = false;
}

abbrev pub no_thread : Bool → ChunkTarget
no_thread orphan = record { thread = none; is_active = not orphan; orphan = orphan }

abbrev pub background_target : ℕ → ChunkTarget
background_target i = record { thread = some i; is_active = false; orphan = false }

-- The second step: by conversation id. A chunk that named a wrapper session is dropped if its
-- conversation is unknown.
unfoldable pub resolve_by_conversation : String → Bool → Chat → ChunkTarget
resolve_by_conversation conv from_session s =
    if option_is s.current_conversation_id conv
    then active_target s
    else elim (find_index? (holds_conversation conv s.active_thread_id) s.threads) [
      | some i ↦ background_target i
      | none ↦ no_thread from_session
    ]

-- `srcConv`: an empty id counts as none
after_session : Option String → Bool → Chat → ChunkTarget
after_session none from_session s = no_thread from_session
after_session (some conv) from_session s =
    if truthy conv then resolve_by_conversation conv from_session s else no_thread from_session

resolve_by_session : String → Option String → Chat → ChunkTarget
resolve_by_session session conv s =
    if option_is s.cc_session_id session
    then active_target s
    else elim (find_index? (runs_on session) s.threads) [
      | some i ↦ background_target i
      | none ↦ after_session conv true s
    ]

by_source : Option String → Option String → Chat → ChunkTarget
by_source none conv s = after_session conv false s
by_source (some session) conv s =
    if truthy session then resolve_by_session session conv s else after_session conv false s

unfoldable pub resolve_chunk_target : Chunk → ChunkSource → Chat → ChunkTarget
unfolding resolve_by_conversation resolve_by_session after_session by_source
resolve_chunk_target chunk source s =
    by_source source.session_id (or_else source.conv_id chunk.conversation_id) s
