-- ===== src/Agent/Translate.antt =====
-- `translateEvent` of cc-wrapper.ts: the chunks of an event, and the session behind it.
use agent_workflow_platform.Prelude.{
  String, true, List, [], ◌∷◌, ◌++◌, Option, none, some, get_or, or_else, ◌==◌, ◌⧺◌, if◌then◌else◌,
  truthy,
}
use agent_workflow_platform.Agent.Json.{
  Json, Elements, no_more, element, Number, is_nonnegative, same_number, get, get_in, as_text,
  as_number, is_true, is_object, is_truthy, elements_of,
}
use agent_workflow_platform.Agent.Session.{TokenCounts, FlatChunk, blank, CcSession}
use agent_workflow_platform.Agent.Labels.{tool_status_label}

-- the three operations of `pendingToolInput`
unfoldable pub pending_get : Number → List (Number × String) → Option String
pending_get k [] = none
pending_get k ((j, v) ∷ rest) = if same_number j k then some v else pending_get k rest

unfoldable pub pending_set : Number → String → List (Number × String) → List (Number × String)
pending_set k v [] = (k, v) ∷ []
pending_set k v ((j, w) ∷ rest) =
    if same_number j k then (j, v) ∷ rest else (j, w) ∷ pending_set k v rest

unfoldable pub pending_delete : Number → List (Number × String) → List (Number × String)
pending_delete k [] = []
pending_delete k ((j, w) ∷ rest) =
    let less = pending_delete k rest in if same_number j k then less else (j, w) ∷ less

-- the index of an event, where it is a number that is not negative
unfoldable pub index_of : Json → Option Number
index_of ev = elim (as_number (get "index" ev)) [
  | none ↦ none
  | some n ↦ if is_nonnegative n then some n else none
]

unfoldable pub status : String → FlatChunk
status label = record blank { type = some "cc_status"; label = some label }

unfoldable pub tool_status : String → Option Json → FlatChunk
tool_status name input = record blank {
  type = some "cc_status";
  label = some (tool_status_label name input);
  tool = some name;
}

token_counts : Json → TokenCounts
token_counts usage = record {
  input_tokens = as_number (get "input_tokens" usage);
  output_tokens = as_number (get "output_tokens" usage);
  cache_read_input_tokens = as_number (get "cache_read_input_tokens" usage);
  cache_creation_input_tokens = as_number (get "cache_creation_input_tokens" usage);
}

-- the usage of an event, where it is truthy
usage_of : Json → Option TokenCounts
unfolding token_counts
usage_of ev = elim (get "usage" ev) [
  | none ↦ none
  | some usage ↦ if is_truthy usage then some (token_counts usage) else none
]

-- the event `system`
unfoldable pub on_system : Json → CcSession → List FlatChunk × CcSession
unfolding status
on_system ev s =
    if get_or (as_text (get "subtype" ev)) "" == "init"
    then (let id = as_text (get "session_id" ev) in
        let started = record blank {
          type = some "message_start";
          conversation_id = some s.conversation_id;
          model = or_else (as_text (get "model" ev)) s.model;
          cc_session_id = id;
        } in
        let kept = if truthy (get_or id "") then record s { cc_session_id = id } else s in
        (status "ready" ∷ started ∷ [], kept))
    else ([], s)

-- one block of a message
block_chunks : Json → List FlatChunk
unfolding tool_status
block_chunks block =
    if is_object block
    then (let type = get_or (as_text (get "type" block)) "" in
        if type == "text"
        then (let text = get_or (as_text (get "text" block)) "" in
            if truthy text then record blank { delta = some text } ∷ [] else [])
        else if type == "tool_use"
        then tool_status (get_or (as_text (get "name" block)) "tool") (get "input" block) ∷ []
        else [])
    else []

-- the loop over the blocks
unfoldable pub blocks_chunks : Elements → List FlatChunk
unfolding block_chunks
blocks_chunks no_more = []
blocks_chunks (element b rest) = block_chunks b ++ blocks_chunks rest

on_rate_limit : Json → List FlatChunk
unfolding status
on_rate_limit ev =
    let limit = get_or (as_text (get_in "status" (get "rate_limit_info" ev))) "" in
    if truthy limit then (if limit == "allowed" then [] else status "rate_limited" ∷ []) else []

-- the error of a result that is one
result_error : Json → String
result_error ev = elim (as_text (get "result" ev)) [
  | some text ↦ text
  | none ↦
      (let subtype = get_or (as_text (get "subtype" ev)) "" in
        if truthy subtype then "cc_" ⧺ subtype else "cc_error")
]

unfoldable pub on_result : Json → FlatChunk
unfolding usage_of result_error
on_result ev = record blank {
  done = true;
  usage = usage_of ev;
  error = if is_true (get "is_error" ev) then some (result_error ev) else none;
}

on_message_start : Json → CcSession → FlatChunk
on_message_start ev s = record blank {
  type = some "message_start";
  conversation_id = some s.conversation_id;
  model = or_else (as_text (get_in "model" (get "message" ev))) s.model;
}

unfoldable pub set_pending : Option Number → String → CcSession → CcSession
set_pending none v s = s
set_pending (some n) v s = record s { pending_tool_input = pending_set n v s.pending_tool_input }

unfoldable pub on_block_start : Json → CcSession → List FlatChunk × CcSession
unfolding index_of tool_status set_pending
on_block_start ev s =
    let block = get "content_block" ev in
    if get_or (as_text (get_in "type" block)) "" == "tool_use"
    then (let name = get_or (as_text (get_in "name" block)) "tool" in
        (tool_status name none ∷ [], set_pending (index_of ev) "" s))
    else ([], s)

unfoldable pub append_pending : Option Number → String → CcSession → CcSession
append_pending none part s = s
append_pending (some n) part s =
    let before = get_or (pending_get n s.pending_tool_input) "" in
    record s { pending_tool_input = pending_set n (before ⧺ part) s.pending_tool_input }

unfoldable pub on_block_delta : Json → CcSession → List FlatChunk × CcSession
unfolding index_of append_pending
on_block_delta ev s =
    let delta = get "delta" ev in
    let type = get_or (as_text (get_in "type" delta)) "" in
    if type == "text_delta"
    then elim (as_text (get_in "text" delta)) [
      | none ↦ ([], s)
      | some text ↦ (record blank { delta = some text } ∷ [], s)
    ]
    else if type == "input_json_delta"
    then elim (as_text (get_in "partial_json" delta)) [
      | none ↦ ([], s)
      | some part ↦ ([], append_pending (index_of ev) part s)
    ]
    else ([], s)

unfoldable pub on_block_stop : Json → CcSession → CcSession
unfolding index_of
on_block_stop ev s = elim (index_of ev) [
  | none ↦ s
  | some n ↦ record s { pending_tool_input = pending_delete n s.pending_tool_input }
]

on_message_delta : Json → List FlatChunk
unfolding usage_of
on_message_delta ev = elim (usage_of ev) [
  | none ↦ []
  | some counts ↦ record blank { usage = some counts } ∷ []
]

-- the cases of the switch
pub data EventType : Type 0 where
  system assistant rate_limit_event result message_start content_block_start : EventType
  content_block_delta content_block_stop message_delta message_stop other : EventType

unfoldable pub event_type : String → EventType
event_type t =
    if t == "system"
    then system
    else if t == "assistant"
    then assistant
    else if t == "rate_limit_event"
    then rate_limit_event
    else if t == "result"
    then result
    else if t == "message_start"
    then message_start
    else if t == "content_block_start"
    then content_block_start
    else if t == "content_block_delta"
    then content_block_delta
    else if t == "content_block_stop"
    then content_block_stop
    else if t == "message_delta"
    then message_delta
    else if t == "message_stop"
    then message_stop
    else other

-- the branches; `null` is the empty list, and a single chunk a list of one
unfoldable pub translate_as : EventType → Json → CcSession → List FlatChunk × CcSession
unfolding on_system blocks_chunks on_rate_limit on_result on_message_start on_block_start
    on_block_delta on_block_stop on_message_delta
translate_as system ev s = on_system ev s
translate_as assistant ev s = (blocks_chunks (elements_of (get_in "content" (get "message" ev))), s)
translate_as rate_limit_event ev s = (on_rate_limit ev, s)
translate_as result ev s = (on_result ev ∷ [], s)
translate_as message_start ev s = (on_message_start ev s ∷ [], s)
translate_as content_block_start ev s = on_block_start ev s
translate_as content_block_delta ev s = on_block_delta ev s
translate_as content_block_stop ev s = ([], on_block_stop ev s)
translate_as message_delta ev s = (on_message_delta ev, s)
translate_as message_stop ev s = (record blank { done = true } ∷ [], s)
translate_as other ev s = ([], s)

unfoldable pub translate_event : Json → CcSession → List FlatChunk × CcSession
unfolding event_type translate_as
translate_event ev s = translate_as (event_type (get_or (as_text (get "type" ev)) "")) ev s
