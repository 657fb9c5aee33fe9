-- ===== src/Agent/Delivery/Message.antt =====
-- The message that the user sees of what an agent says (cc-wrapper.ts and
-- apps/desktop/src/stores/chat.ts).
use agent_workflow_platform.Prelude.{
  String, Bool, true, List, Option, none, some, ◌≡◌, if◌then◌else◌, map, get_or,
}
use agent_workflow_platform.Prelude
use agent_workflow_platform.Agent.Json.{Json}
use agent_workflow_platform.Agent.Session.{TokenCounts, FlatChunk, blank}
use agent_workflow_platform.Agent.Delivery.{received}
use agent_workflow_platform.Chat.Types.{ChatMessage, assistant, Now, Chunk, Usage}
use agent_workflow_platform.Chat.State.{Chat}
use agent_workflow_platform.Chat.ErrorChunk.{extract_error_chunk}
use agent_workflow_platform.Chat.Ingest.{token_usage}

-- the chunk of a text, and that of the end
abbrev pub delta_of : String → FlatChunk
delta_of t = record blank { delta = some t }

abbrev final : FlatChunk
final = record blank { done = true }

-- a reply without counts
abbrev pub message_of : String → ChatMessage
message_of reply = record { role = assistant; content = reply; token_usage = none }

module _ (counts : TokenCounts → Option Usage) (now : Now) where
  -- the chunks as they arrive
  abbrev pub sent : List FlatChunk → List (Now × Chunk)
  sent cs = map (λ c. (now, received counts c)) cs

  -- The text is not taken for an error frame.
  abbrev pub IsPlainText : String → Type 0
  IsPlainText t = extract_error_chunk (received counts (delta_of t)) ≡ none
