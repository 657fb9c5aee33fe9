-- ===== src/Security/Navigation.antt =====
-- The navigation policy (apps/desktop/electron/security/navigation-policy.ts). The platform's URL
-- parser, its removal of the fragment and its percent decoding are a parameter, `Platform`.
mod RawUrl
pub mod Policy
pub use RawUrl.{Url, Platform}
unfoldable pub use RawUrl.{
  starts_with_slash, behind_first, chars_any, has_control_char, has_invalid_escape, raw_authority,
  raw_path, contains, has_raw_user_info, is_loopback_authority, is_bracketed_ipv6, is_local_host,
  is_local_ipv4, is_invalid_artifact_char,
}
use agent_workflow_platform.Prelude.{
  ℕ, String, Bool, true, false, ◌&&◌, ◌||◌, not, List, [], ◌∷◌, Option, none, some, ◌==◌,
  if◌then◌else◌, ltb, leb, eqb, truthy, trim, utf16_length, is_some,
}

pub data DenyReason : Type 0 where
  malformed_url dangerous_scheme invalid_artifact untrusted_file : DenyReason

pub data Decision : Type 0 where
  allow_current_document : Decision
  deny : DenyReason → Decision
  open_external open_artifact : String → Decision

pub data Mode : Type 0 where
  development production : Mode

pub record NavigationInput : Type 0 where
  pub target_url : String
  pub current_document_url : String
  pub trusted_document_url : String

abbrev pub max_url_length : ℕ
max_url_length = 8192

-- the checks of `parseStrictAbsoluteUrl` before the parser
unfoldable pub is_strict_text : String → Bool
is_strict_text raw =
    truthy raw
    && leb (utf16_length raw) max_url_length
    && raw == trim raw
    && not (has_control_char raw)
    && not (contains b'\\' raw)
    && not (has_invalid_escape raw)

unfoldable pub is_safe_web_url : Url → Bool
is_safe_web_url u = (u.protocol == "http:" || u.protocol == "https:") && truthy u.hostname

-- the last checks of `parseArtifactId`
unfoldable pub is_safe_artifact : String → Bool
is_safe_artifact id =
    truthy id
    && leb (utf16_length id) 255
    && not (id == ".")
    && not (id == "..")
    && not (chars_any is_invalid_artifact_char id)

module _ (p : Platform) where
  -- `parseStrictAbsoluteUrl`
  unfoldable pub parse_strict : String → Option Url
  parse_strict raw =
      if is_strict_text raw
      then elim (p.parse raw) [
        | none ↦ none
        | some u ↦
            if truthy u.username || truthy u.password || has_raw_user_info raw then none else some u
      ]
      else none

  -- `isLoopbackDevelopmentUrl`
  unfoldable pub is_loopback_url : String → Url → Bool
  is_loopback_url raw u = is_safe_web_url u && (elim (raw_authority raw) [
    | none ↦ false
    | some a ↦
        if truthy a && not (contains b'@' a) then is_loopback_authority a u.hostname else false
  ])

  -- `normalizeTrustedDocumentUrl`
  unfoldable pub normalize_trusted : Mode → String → Option String
  normalize_trusted mode raw = elim (parse_strict raw) [
    | none ↦ none
    | some u ↦ elim mode [
      | development ↦ if is_loopback_url raw u then some u.href else none
      | production ↦
          if u.protocol == "file:" && (u.hostname == "" || u.hostname == "localhost")
          then some u.href
          else none
    ]
  ]

  -- `parseArtifactId`
  unfoldable pub parse_artifact_id : String → Url → Option String
  parse_artifact_id raw u =
      if u.protocol == "awp:"
        && u.hostname == "artifact"
        && not (truthy u.port)
        && not (truthy u.search)
        && not (truthy u.hash)
        && starts_with_slash u.pathname
        && not (contains b'/' (raw_path raw))
      then elim (p.decode (behind_first u.pathname)) [
        | none ↦ none
        | some id ↦ if is_safe_artifact id then some id else none
      ]
      else none

  -- `classifySpecialTarget`
  unfoldable pub classify_special : String → Url → Option Decision
  classify_special raw u =
      if u.protocol == "awp:"
      then elim (parse_artifact_id raw u) [
        | some id ↦ some (open_artifact id)
        | none ↦ some (deny invalid_artifact)
      ]
      else if is_safe_web_url u || u.protocol == "file:"
      then none
      else some (deny dangerous_scheme)

  unfoldable pub is_bootstrap : String → Option Url → Bool
  is_bootstrap raw parsed =
      not (truthy raw) || (elim parsed [ none ↦ false | some u ↦ u.href == "about:blank" ])

  -- the current document is of the trusted origin
  unfoldable pub is_current_web : String → Option Url → Url → Bool
  unfolding is_bootstrap
  is_current_web raw current trusted =
      is_bootstrap raw current
      || (elim current [ none ↦ false | some c ↦ is_safe_web_url c && c.origin == trusted.origin ])

  -- the current document is the trusted file
  unfoldable pub is_current_file : String → Option Url → Url → Bool
  unfolding is_bootstrap
  is_current_file raw current trusted = is_bootstrap raw current || (elim current [
    | none ↦ false
    | some c ↦ c.protocol == "file:" && p.without_hash c == p.without_hash trusted
  ])

  -- a target that is no special one, against the trusted document
  unfoldable pub decide_ordinary : String → Option Url → Url → Url → Decision
  decide_ordinary raw_current current trusted target =
      if is_safe_web_url target
      then (if is_safe_web_url trusted
            && is_current_web raw_current current trusted
            && target.origin == trusted.origin
          then allow_current_document
          else open_external target.href)
      else if target.protocol == "file:"
      then (if trusted.protocol == "file:"
            && is_current_file raw_current current trusted
            && p.without_hash target == p.without_hash trusted
          then allow_current_document
          else deny untrusted_file)
      else deny dangerous_scheme

  -- `decideTopLevelNavigation`
  unfoldable pub decide_top_level : NavigationInput → Decision
  decide_top_level i = elim (parse_strict i.target_url) [
    | none ↦ deny malformed_url
    | some target ↦ elim (classify_special i.target_url target) [
      | some d ↦ d
      | none ↦ elim (parse_strict i.trusted_document_url) [
        | none ↦ deny malformed_url
        | some trusted ↦
            decide_ordinary i.current_document_url (parse_strict i.current_document_url) trusted
              target
      ]
    ]
  ]

  -- `decideWindowOpen`
  unfoldable pub decide_window_open : String → Decision
  decide_window_open raw = elim (parse_strict raw) [
    | none ↦ deny malformed_url
    | some target ↦ elim (classify_special raw target) [
      | some d ↦ d
      | none ↦
          if is_safe_web_url target
          then open_external target.href
          else if target.protocol == "file:"
          then deny untrusted_file
          else deny dangerous_scheme
    ]
  ]

-- What the host does for a navigation, in order.
pub data Effect : Type 0 where
  prevent_default : Effect
  opened_external opened_artifact : String → Effect

-- `applyNavigationSideEffect`
unfoldable pub side_effect : Decision → List Effect
side_effect (open_external url) = opened_external url ∷ []
side_effect (open_artifact id) = opened_artifact id ∷ []
side_effect _ = []

-- `enforceTopLevelNavigation`
unfoldable pub enforce_decision : Decision → List Effect
unfolding side_effect
enforce_decision allow_current_document = []
enforce_decision d = prevent_default ∷ side_effect d

unfoldable pub enforce_top_level : Platform → NavigationInput → List Effect
unfolding enforce_decision
enforce_top_level p i = enforce_decision (decide_top_level p i)

-- `enforceWindowOpenPolicy`: the window itself is always denied.
unfoldable pub enforce_window_open : Platform → String → List Effect
unfolding side_effect
enforce_window_open p raw = side_effect (decide_window_open p raw)
