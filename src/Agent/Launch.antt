-- ===== src/Agent/Launch.antt =====
-- `startSession` of cc-wrapper.ts, in its parts: the checks and the command line, then the process
-- and the session. `renderMcpConfig`, the IDE server and the spawning are parameters.
use Prim.Native.Char.{code}
use agent_workflow_platform.Prelude.{
  ℕ, String, Bool, true, false, ◌&&◌, ◌||◌, not, List, [], ◌∷◌, Option, none, some, get_or, is_some,
  ◌==◌, if◌then◌else◌, eqb, leb, ltb, truthy, trim, utf16_length,
}
use agent_workflow_platform.Agent.Json.{Json, null, get, as_text}
use agent_workflow_platform.Agent.Session.{Host}
use agent_workflow_platform.Agent.Config.{
  Result, ok, failed, and_then, Env, env_text, Parsers, Paths, opted_in,
}

pub data StartResult : Type 0 where
  started : String → StartResult
  start_failed : String → StartResult

-- A server that the configuration of the agent names.
pub record McpServer : Type 0 where
  pub name : Option String
  pub url : String
  pub token : Option String
  pub conversation_id : String

-- What a start asks of its surroundings: the configuration that is rendered for the two servers and
-- the consent to the remote one gives its path, or a message where it throws.
pub record Machine : Type 0 where
  pub host : Host
  pub parsers : Parsers
  pub paths : Paths
  pub env : Env
  pub working_directory : String
  pub ide_endpoint : Option (String × Option String)
  pub render_mcp_config : Option McpServer → Option McpServer → Bool → Result String

-- A unit that `[\u0000-\u001f\u007f]` finds.
has_control : String → Bool
has_control String.[] = false
has_control (String.◌∷◌ c s) = leb (code c) 31 || eqb (code c) 127 || has_control s

has_nul : String → Bool
has_nul String.[] = false
has_nul (String.◌∷◌ c s) = eqb (code c) 0 || has_nul s

-- the id of the conversation, where it passes the checks
unfoldable pub valid_conversation : Json → Option String
unfolding has_control
valid_conversation opts = elim (as_text (get "conversationId" opts)) [
  | none ↦ none
  | some id ↦
      if truthy (trim id) && (leb (utf16_length id) 512 && not (has_control id))
      then some id
      else none
]

-- `opts.cwd ?? process.cwd()`, where it passes the checks
unfoldable pub valid_cwd : Machine → Json → Option String
unfolding has_nul
valid_cwd m opts =
    let given : Option String = elim (get "cwd" opts) [
      | none ↦ some m.working_directory
      | some null ↦ some m.working_directory
      | some v ↦ as_text (some v)
    ] in
    elim given [
      | none ↦ none
      | some cwd ↦ if truthy cwd && not (has_nul cwd) then some cwd else none
    ]

-- the model that is asked for, or the error
unfoldable pub chosen_model : Json → Result (Option String)
unfolding has_control
chosen_model opts =
    let model = trim (get_or (as_text (get "model" opts)) "") in
    if truthy model
    then (if ltb 256 (utf16_length model) || has_control model
        then failed "invalid_model"
        else ok (some model))
    else ok none

unfoldable pub protocol_args : Env → Result (List String)
protocol_args env =
    let protocol = trim (get_or (env "AWP_AGENT_CLI_PROTOCOL") "stream-json") in
    if protocol == "stream-json"
    then ok (
        "--output-format" ∷ "stream-json" ∷ "--input-format" ∷ "stream-json" ∷ "--print"
        ∷ "--verbose" ∷ [])
    else if protocol == "awp-jsonl" || protocol == "passthrough"
    then ok []
    else failed "invalid_cli_protocol"

is_resume_char : ℕ → Bool
is_resume_char c =
    (leb b'A' c && leb c b'Z')
    || (leb b'a' c && leb c b'z')
    || (leb b'0' c && leb c b':')
    || eqb c b'.'
    || eqb c b'_'
    || eqb c b'-'

all_resume : String → Bool
unfolding is_resume_char
all_resume String.[] = true
all_resume (String.◌∷◌ c s) = is_resume_char (code c) && all_resume s

-- `/^[A-Za-z0-9._:-]{1,256}$/`
unfoldable pub is_resume_id : String → Bool
unfolding all_resume
is_resume_id s = truthy s && leb (utf16_length s) 256 && all_resume s

unfoldable pub resume_args : Json → Result (List String)
unfolding is_resume_id
resume_args opts = elim (get "ccSessionId" opts) [
  | none ↦ ok []
  | some v ↦ elim (as_text (some v)) [
    | none ↦ failed "invalid_resume_session_id"
    | some id ↦
        if is_resume_id id then ok ("--resume" ∷ id ∷ []) else failed "invalid_resume_session_id"
  ]
]

-- `awpIde`
ide_server : Machine → String → Option McpServer
ide_server m conv = elim m.ide_endpoint [
  | none ↦ none
  | some (url, token) ↦
      if truthy url
      then some (record { name = none; url = url; token = token; conversation_id = conv })
      else none
]

text_or_none : String → Option String
text_or_none s = if truthy s then some s else none

-- `remoteMcp`
remote_server : Env → String → Option McpServer
unfolding text_or_none
remote_server env conv =
    let url = env_text env "AWP_AGENT_REMOTE_MCP_URL" in
    if truthy url
    then some (record {
      name = some (env_text env "AWP_AGENT_REMOTE_MCP_NAME");
      url = url;
      token = text_or_none (env_text env "AWP_AGENT_REMOTE_MCP_TOKEN");
      conversation_id = conv;
    })
    else none

-- the arguments for the servers; the error is the message that the renderer throws
unfoldable pub mcp_args : Machine → String → Result (List String)
unfolding ide_server remote_server and_then
mcp_args m conv =
    let ide = ide_server m conv in
    let remote = remote_server m.env conv in
    let consent = is_some remote && opted_in m.env "AWP_AGENT_REMOTE_MCP_OPT_IN" in
    if is_some ide || is_some remote
    then and_then (m.render_mcp_config ide remote consent) (λ path. ok ("--mcp-config" ∷ path ∷ []))
    else ok []
