-- ===== src/Agent/Tests/SafetyTests.antt =====
-- What is passed on, hidden and read, at concrete values.
use agent_workflow_platform.Prelude.{
  String, Bool, true, false, ◌&&◌, List, [], ◌∷◌, ◌++◌, none, some, ◌≡◌, ◌⊎◌, refl, arith, any,
  map_get, map_set, length, leb, ltb, if◌then◌else◌, trim, utf16_length, ◌==◌,
}
use agent_workflow_platform.Sse.Framing.Pieces.{join}
use agent_workflow_platform.Agent.Json.{Fields, str, obj, end, field}
use agent_workflow_platform.Agent.Config.{
  Parsers, Env, ok, env_text, opted_in, is_remote_http_url, url_candidates,
}
use agent_workflow_platform.Agent.Environment.{
  safe_parent_env_keys, build_cc_env, parse_explicit_cli_env, configured_env, add_entries,
  checked_env, is_env_name, field_count, assign, spread, build_safe_parent_env, copy_keys,
}
use agent_workflow_platform.Agent.Environment.Sources.{HasText}
use agent_workflow_platform.Agent.Environment.Consent.{build_cc_env-sources}
use agent_workflow_platform.Agent.Redact.{
  Urls, is_secret_flag, redact_argv, redact_argv-Hides, Hides, NoFlagBefore,
}
use agent_workflow_platform.Agent.Attachments.{
  declared, acceptable, read_remote_attachment, max_attachment_bytes, AttachmentRef, Outside,
  unreadable, AttachmentRequest, attachment_request, upload_id_from_ref, is_loopback,
}
use agent_workflow_platform.Agent.Attachments.Bytes.{
  read_remote_attachment_lem, attachment_request-IsAllowed,
}
use agent_workflow_platform.Agent.Diagnostics.{
  Value, Properties, property, structured, LogFile, Works, append_capped_json_line, IsCapped,
  append_capped_json_line-IsCapped,
}
use agent_workflow_platform.Agent.Diagnostics.Scrubbed.{IsScrubbed, structured-IsScrubbed}

-- One configured variable, and the path of the system.
abbrev parsers : Parsers
parsers = record {
  parse_json = λ s. some (obj (field "MODEL" (str "m1") end));
  hostname = λ s. none;
}

abbrev environment : Env
environment key =
    if key == "PATH"
    then some "/bin"
    else if key == "AWP_AGENT_CLI_ENV_JSON"
    then some "{}"
    else none

abbrev built : List (String × String)
built = ("PATH", "/bin") ∷ ("MODEL", "m1") ∷ []

environment_is_built : build_cc_env parsers environment ≡ ok built
unfolding build_cc_env parse_explicit_cli_env configured_env add_entries checked_env is_env_name
    field_count assign spread build_safe_parent_env copy_keys env_text trim map_set
    is_remote_http_url url_candidates opted_in utf16_length
environment_is_built = refl

model_there : map_get "MODEL" built ≡ some "m1"
unfolding map_get
model_there = refl

build_cc_env-sources_example :
    ((any (λ key. key == "MODEL") safe_parent_env_keys ≡ true) × (environment "MODEL" ≡ some "m1"))
    ⊎ ((fields : Fields) × (parsers.parse_json (env_text environment "AWP_AGENT_CLI_ENV_JSON")
          ≡ some (obj fields))
        × HasText "MODEL" "m1" fields
        × (is_remote_http_url parsers "m1" ≡ true
            → opted_in environment "AWP_AGENT_REMOTE_API_OPT_IN" ≡ true))
build_cc_env-sources_example =
    build_cc_env-sources parsers environment "MODEL" "m1" built environment_is_built model_there

-- No argument is a URL.
abbrev no_urls : Urls
no_urls = record {
  Url = Bool;
  parse = λ s. none;
  protocol = λ u. "";
  username = λ u. "";
  password = λ u. "";
  set_username = λ s u. u;
  set_password = λ s u. u;
  keys = λ u. [];
  set_param = λ k v u. u;
  to_string = λ u. "";
}

token_flag : is_secret_flag "--api-key" ≡ true
unfolding is_secret_flag
token_flag = refl

abbrev before_flag : List String
before_flag = "--token" ∷ "t1" ∷ []

redact_argv-Hides_example :
    Hides
      (length before_flag)
      "--api-key"
      (redact_argv no_urls (before_flag ++ "--api-key" ∷ "k1" ∷ []))
redact_argv-Hides_example =
    redact_argv-Hides no_urls before_flag "--api-key" "k1" [] token_flag
      (unfold NoFlagBefore is_secret_flag in refl)

two_chunks : acceptable (declared 3) ≡ true
unfolding acceptable
two_chunks = refl

read_remote_attachment_lem_example :
    read_remote_attachment (declared 3) (some ((1 ∷ 2 ∷ []) ∷ (3 ∷ []) ∷ [])) ≡ (
      if ltb 0 (length (join ((1 ∷ 2 ∷ []) ∷ (3 ∷ []) ∷ [])))
        && leb (length (join ((1 ∷ 2 ∷ []) ∷ (3 ∷ []) ∷ []))) max_attachment_bytes
      then some (join ((1 ∷ 2 ∷ []) ∷ (3 ∷ []) ∷ []))
      else none)
read_remote_attachment_lem_example =
    read_remote_attachment_lem (declared 3) ((1 ∷ 2 ∷ []) ∷ (3 ∷ []) ∷ []) two_chunks

-- A server of attachments with consent.
abbrev outside : Outside
outside = record {
  env = λ key.
      if key == "AWP_AGENT_REMOTE_API_OPT_IN"
      then some "1"
      else if key == "AWP_AGENT_ATTACHMENT_URL_TEMPLATE"
      then some "https://files/{id}"
      else none;
  is_absolute = λ s. false;
  file = λ s. unreadable;
  has_placeholder = λ s. true;
  address = λ template id.
      some (record { protocol = "https:"; hostname = "files"; username = ""; password = "" });
  answer = λ request. none;
}

abbrev upload : AttachmentRef
upload = record { path = some "uploads/abc123_a.txt"; filename = none; sandbox_relpath = none }

abbrev request : AttachmentRequest
request = record {
  address = record { protocol = "https:"; hostname = "files"; username = ""; password = "" };
  bearer = none;
}

asked : attachment_request outside upload ≡ some request
unfolding attachment_request trim
asked = refl

attachment_request-IsAllowed_example :
    (opted_in outside.env "AWP_AGENT_REMOTE_API_OPT_IN" ≡ true)
    × ((id : String) × (upload_id_from_ref upload ≡ some id))
    × (request.address.protocol ≡ "https:"
        ⊎ ((request.address.protocol ≡ "http:") × (is_loopback request.address.hostname ≡ true)))
    × (request.address.username ≡ "")
    × (request.address.password ≡ "")
attachment_request-IsAllowed_example = attachment_request-IsAllowed outside upload request asked

abbrev all_work : Works
all_work = record { stat = true; unlink = true; rename = true; append = true }

abbrev log : LogFile
log = record { size = some 90; rotated = some 20 }

append_capped_json_line-IsCapped_example :
    IsCapped 100 (append_capped_json_line all_work 30 100 true log).1
append_capped_json_line-IsCapped_example =
    append_capped_json_line-IsCapped all_work 30 100 true log (omega arith, omega arith)

structured-IsScrubbed_example :
    IsScrubbed
      (structured 0 (Value.object (property "code" (Value.text "my_token") Properties.end)))
structured-IsScrubbed_example =
    structured-IsScrubbed (Value.object (property "code" (Value.text "my_token") Properties.end))
