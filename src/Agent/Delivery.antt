-- ===== src/Agent/Delivery.antt =====
-- From the output of an agent to the message that the user sees: the chunks of cc-wrapper.ts reach
-- the chat store through `cc:stream-event` (apps/desktop/src/stores/chat.ts).
pub mod Message
use mathlib.Core.Path.{subst}
use text.Mathlib.TextLemmas.{append-nil, append_assoc}
use agent_workflow_platform.Prelude.{
  ℕ, String, Bool, true, false, List, [], ◌∷◌, ◌++◌, Option, none, some, ◌≡◌, refl, sym, ◌∙◌, ap,
  ◌⧺◌, if◌then◌else◌, Bool-cases, inl, inr, truthy, trim, map, All, get_or,
}
use agent_workflow_platform.Agent.Json.{
  Json, Elements, no_more, element, Fields, end, field, str, obj, arr, get, get_in, as_text,
  is_object, elements_of,
}
use agent_workflow_platform.Agent.Session.{TokenCounts, FlatChunk, blank, CcSession}
use agent_workflow_platform.Agent.Translate.{translate_event, blocks_chunks}
use agent_workflow_platform.Agent.Stdout.{read_event}
use agent_workflow_platform.Chat.Types.{Now, Chunk, ChunkSource, Usage}
use agent_workflow_platform.Chat.State.{Chat, thread_index}
use agent_workflow_platform.Chat.ErrorChunk.{extract_error_chunk}
use agent_workflow_platform.Chat.Background.{is_finished}
use agent_workflow_platform.Chat.Ingest.{arrive, ingest_chunk, final_message, choice_text}
use agent_workflow_platform.Chat.Reply.{IsReply, IsNext, reply_with, reply_of, stream-IsCommitted}
use agent_workflow_platform.Chat.Reply.Commit.{IsCommitted}

-- A chunk as the store reads it; `counts` is what it reads of the counts.
unfoldable pub received : (TokenCounts → Option Usage) → FlatChunk → Chunk
received counts c = record {
  type = c.type;
  delta = c.delta;
  done = c.done;
  conversation_id = c.conversation_id;
  usage = elim c.usage [ none ↦ none | some u ↦ counts u ];
  choice = none;
  label = c.label;
  tool = c.tool;
  target = none;
  cc_session_id = c.cc_session_id;
  code = none;
  message = none;
  error = c.error;
}

-- The blocks of an event `assistant` that says these texts.
abbrev pub text_blocks : List String → Elements
text_blocks [] = no_more
text_blocks (t ∷ ts) =
    element (obj (field "type" (str "text") (field "text" (str t) end))) (text_blocks ts)

abbrev pub said : List String → Json
said ts = obj (
    field "type" (str "assistant")
      (field "message" (obj (field "content" (arr (text_blocks ts)) end)) end))

-- The event at the end of a turn that has succeeded.
abbrev pub ended : Json
ended = obj (field "type" (str "result") end)

-- The events of the output, one after another.
unfoldable pub read_events : List Json → CcSession → List FlatChunk × CcSession
read_events [] s = ([], s)
read_events (e ∷ es) s =
    let (cs, next) = read_event e s in let (more, last) = read_events es next in (cs ++ more, last)

-- the chunks of texts; an empty text has none
abbrev pub deltas : List String → List FlatChunk
deltas [] = []
deltas (t ∷ ts) =
    let rest = deltas ts in if truthy t then record blank { delta = some t } ∷ rest else rest

-- the texts together
abbrev pub all_text : List String → String
all_text [] = ""
all_text (t ∷ ts) = t ⧺ all_text ts

abbrev pub flat : List (List String) → List String
flat [] = []
flat (ts ∷ tss) = ts ++ flat tss

blocks_chunks-texts : (ts : List String) → blocks_chunks (text_blocks ts) ≡ deltas ts
unfolding blocks_chunks get as_text is_object
blocks_chunks-texts [] = refl
blocks_chunks-texts (t ∷ ts) = elim (Bool-cases (truthy t)) [
  | inl e ↦ rw e (ap (◌∷◌ (record blank { delta = some t })) (blocks_chunks-texts ts))
  | inr n ↦ rw n (blocks_chunks-texts ts)
]

said-chunks : (ts : List String) (s : CcSession) → (read_event (said ts) s).0 ≡ deltas ts
unfolding read_event translate_event get get_in as_text elements_of
said-chunks ts s = blocks_chunks-texts ts

deltas-append : (ts us : List String) → deltas (ts ++ us) ≡ deltas ts ++ deltas us
deltas-append [] us = refl
deltas-append (t ∷ ts) us = elim (Bool-cases (truthy t)) [
  | inl e ↦ rw e (ap (◌∷◌ (record blank { delta = some t })) (deltas-append ts us))
  | inr n ↦ rw n (deltas-append ts us)
]

-- The chunks of all that was said.
pub said_all-chunks :
    (tss : List (List String)) (s : CcSession)
    → (read_events (map said tss) s).0 ≡ deltas (flat tss)
unfolding read_events
said_all-chunks [] s = refl
said_all-chunks (ts ∷ tss) s =
    let next = (read_event (said ts) s).1 in
    ap (λ cs. cs ++ (read_events (map said tss) next).0) (said-chunks ts s)
    ∙ (ap (λ cs. deltas ts ++ cs) (said_all-chunks tss next) ∙ sym (deltas-append ts (flat tss)))
