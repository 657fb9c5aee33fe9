-- ===== src/Security/Tests.antt =====
-- The theorems on the navigation policy with a platform that knows a few URLs.
use agent_workflow_platform.Prelude.{
  String, [], ◌∷◌, Option, none, some, ◌≡◌, ◌≢◌, ◌⊎◌, inl, refl, ◌==◌, if◌then◌else◌, utf16_length,
  trim,
}
use agent_workflow_platform.Security.Navigation.{
  Url, Platform, NavigationInput, allow_current_document, open_external, open_artifact,
  decide_top_level, prevent_default, enforce_top_level, enforce_window_open, parse_strict,
  decide_ordinary, classify_special, is_strict_text, is_safe_web_url, parse_artifact_id,
  is_safe_artifact, starts_with_slash, behind_first, raw_path, contains, chars_any,
  is_invalid_artifact_char, has_control_char, has_invalid_escape, has_raw_user_info, raw_authority,
  is_current_web,
}
use agent_workflow_platform.Security.Navigation.Policy.{
  IsExternal, opened-IsExternal, enforce_top_level_lem,
}

abbrev web_url : String → String → String → Url
web_url host origin href = record {
  protocol = "https:";
  hostname = host;
  port = "";
  username = "";
  password = "";
  pathname = "/";
  search = "";
  hash = "";
  origin = origin;
  href = href;
}

abbrev artifact_url : Url
artifact_url = record {
  protocol = "awp:";
  hostname = "artifact";
  port = "";
  username = "";
  password = "";
  pathname = "/a1";
  search = "";
  hash = "";
  origin = "null";
  href = "awp://artifact/a1";
}

abbrev parse : String → Option Url
parse raw =
    if raw == "https://app/"
    then some (web_url "app" "https://app" "https://app/")
    else if raw == "https://elsewhere"
    then some (web_url "elsewhere" "https://elsewhere" "https://elsewhere/")
    else if raw == "awp://artifact/a1"
    then some artifact_url
    else none

abbrev platform : Platform
platform = record { parse = parse; without_hash = λ u. u.href; decode = λ s. some s }

-- A navigation of the trusted document.
abbrev to : String → NavigationInput
to url = record {
  target_url = url;
  current_document_url = "https://app/";
  trusted_document_url = "https://app/";
}

abbrev a1 : String
a1 = "a1"

abbrev app : Url
app = web_url "app" "https://app" "https://app/"

strict_app : parse_strict platform "https://app/" ≡ some app
unfolding parse_strict is_strict_text utf16_length trim has_control_char contains has_invalid_escape
    has_raw_user_info raw_authority
strict_app = refl

outside : decide_top_level platform (to "https://elsewhere") ≡ open_external "https://elsewhere/"
unfolding decide_top_level decide_ordinary classify_special is_safe_web_url is_current_web
    parse_strict is_strict_text utf16_length trim has_control_char contains has_invalid_escape
    has_raw_user_info raw_authority
outside = refl

opened-IsExternal_example : IsExternal platform "https://elsewhere" "https://elsewhere/"
opened-IsExternal_example =
    opened-IsExternal platform (to "https://elsewhere") "https://elsewhere/" (inl outside)

artifact_opened : decide_top_level platform (to "awp://artifact/a1") ≡ open_artifact a1
unfolding decide_top_level classify_special parse_artifact_id is_safe_artifact starts_with_slash
    behind_first raw_path chars_any is_invalid_artifact_char parse_strict is_strict_text
    utf16_length trim has_control_char contains has_invalid_escape has_raw_user_info raw_authority
artifact_opened = refl

enforce_top_level_lem_example :
    ((decide_top_level platform (to "https://elsewhere") ≡ allow_current_document)
      × (enforce_top_level platform (to "https://elsewhere") ≡ []))
    ⊎ ((decide_top_level platform (to "https://elsewhere") ≢ allow_current_document)
        × (enforce_top_level platform (to "https://elsewhere")
            ≡ prevent_default ∷ enforce_window_open platform "https://elsewhere"))
enforce_top_level_lem_example =
    enforce_top_level_lem platform (to "https://elsewhere") app strict_app
