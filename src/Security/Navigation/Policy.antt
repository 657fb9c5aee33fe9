-- ===== src/Security/Navigation/Policy.antt =====
-- What the navigation policy lets through (navigation-policy.ts).
use Prim.Native.Char.{code}
use agent_workflow_platform.Prelude.{
  String, true, false, [], ◌∷◌, none, some, ◌≡◌, ◌≢◌, ◌⊎◌, inl, inr, refl, arith, eq_iff, ap, ◌≤◌,
  ◌<◌, utf16_length, sym, ◌∙◌, truthy, Option-cases,
}
use agent_workflow_platform.Security.Navigation.{
  Url, Platform, Decision, allow_current_document, open_external, open_artifact, NavigationInput,
  is_strict_text, is_safe_web_url, chars_any, is_invalid_artifact_char, enforce_decision,
  side_effect, parse_strict, parse_artifact_id, classify_special, is_safe_artifact, is_current_web,
  is_current_file, decide_ordinary, decide_top_level, decide_window_open, prevent_default,
  enforce_top_level, enforce_window_open,
}

-- No slash, backslash or colon, and no control character.
abbrev pub IsPlain : String → Type 0
IsPlain String.[] = Unit
IsPlain (String.◌∷◌ c s) =
    ((code c ≢ b'/') × (code c ≢ b'\\') × (code c ≢ b':') × (31 < code c)) × IsPlain s

IsPlain-of_chars : (s : String) → chars_any is_invalid_artifact_char s ≡ false → IsPlain s
unfolding chars_any is_invalid_artifact_char
IsPlain-of_chars String.[] h = tt
IsPlain-of_chars (String.◌∷◌ c s) h = (ground arith, IsPlain-of_chars s (ground arith))

truthy-ne : (s : String) → truthy s ≡ true → s ≢ ""
truthy-ne s h e = let q : truthy s ≡ false = ap truthy e in cc

safe-IsPlain :
    (id : String)
    → is_safe_artifact id ≡ true
    → (id ≢ "") × (id ≢ ".") × (id ≢ "..") × (utf16_length id ≤ 255) × IsPlain id
unfolding is_safe_artifact
safe-IsPlain id h = (
  truthy-ne id (ground arith),
  ground (arith, eq_iff id "."),
  ground (arith, eq_iff id ".."),
  ground arith,
  IsPlain-of_chars id (ground arith),
)

Decision-cases : (d : Decision) → (d ≡ allow_current_document) ⊎ (d ≢ allow_current_document)
Decision-cases allow_current_document = inl refl
Decision-cases d = inr (ground arith)

enforce_prevents :
    (d : Decision)
    → d ≢ allow_current_document
    → enforce_decision d ≡ prevent_default ∷ side_effect d
unfolding enforce_decision
enforce_prevents allow_current_document n = absurd (n refl)
enforce_prevents _ n = refl

module _ (p : Platform) where
  -- A navigation of the trusted document within its own origin, or to itself.
  pub record IsInternal (i : NavigationInput) : Type 0 where
    pub target : Url
    pub trusted : Url
    pub target_parsed : parse_strict p i.target_url ≡ some target
    pub trusted_parsed : parse_strict p i.trusted_document_url ≡ some trusted
    pub within :
        ((is_safe_web_url target ≡ true)
          × (is_safe_web_url trusted ≡ true)
          × (target.origin ≡ trusted.origin)
          × (is_current_web p i.current_document_url (parse_strict p i.current_document_url) trusted
              ≡ true))
        ⊎ ((target.protocol ≡ "file:")
            × (trusted.protocol ≡ "file:")
            × (p.without_hash target ≡ p.without_hash trusted)
            × (is_current_file p i.current_document_url
                  (parse_strict p i.current_document_url)
                  trusted
                ≡ true))

  -- A URL that may be handed to the browser: strict, http or https, with a host and no user.
  pub record IsExternal (raw url : String) : Type 0 where
    pub parsed : Url
    pub strict : is_strict_text raw ≡ true
    pub parses : p.parse raw ≡ some parsed
    pub nobody : (parsed.username ≡ "") × (parsed.password ≡ "")
    pub web : (parsed.protocol ≡ "http:") ⊎ (parsed.protocol ≡ "https:")
    pub same : url ≡ parsed.href

  special-external :
      (raw url : String) (u : Url) → classify_special p raw u ≢ some (open_external url)
  unfolding classify_special
  special-external raw url u = ground arith

  empty_of_falsy : (s : String) → truthy s ≡ false → s ≡ ""
  empty_of_falsy String.[] h = refl
  empty_of_falsy (String.◌∷◌ c s) h = cc

  parse_strict-parts :
      (raw : String) (u : Url)
      → parse_strict p raw ≡ some u
      → (is_strict_text raw ≡ true) × (p.parse raw ≡ some u) × (u.username ≡ "") × (u.password ≡ "")
  unfolding parse_strict
  parse_strict-parts raw u e = ground (arith, empty_of_falsy u.username, empty_of_falsy u.password)

  IsExternal-of :
      (raw : String) (u : Url)
      → parse_strict p raw ≡ some u
      → is_safe_web_url u ≡ true
      → IsExternal raw u.href
  unfolding is_safe_web_url
  IsExternal-of raw u e web =
      let (strict, parses, user, password) = parse_strict-parts raw u e in
      record {
        parsed = u;
        strict = strict;
        parses = parses;
        nobody = (user, password);
        web = ground (arith, eq_iff u.protocol "http:", eq_iff u.protocol "https:");
        same = refl;
      }

  window-IsExternal :
      (raw url : String) → decide_window_open p raw ≡ open_external url → IsExternal raw url
  unfolding decide_window_open
  window-IsExternal raw url e = elim (Option-cases (parse_strict p raw)) [
    | inl bad ↦ absurd (ground arith)
    | inr (u, t) ↦
        let web : is_safe_web_url u ≡ true = ground (arith, special-external raw url u) in
        let same : url ≡ u.href = ground (arith, special-external raw url u) in
        rw same (IsExternal-of raw u t web)
  ]

  -- If the trusted document's URL is strict, then what is not let through as internal is decided
  -- as a window for the same URL would be.
  pub top_level-eq-window_open :
      (i : NavigationInput) (trusted : Url)
      → parse_strict p i.trusted_document_url ≡ some trusted
      → decide_top_level p i ≢ allow_current_document
      → decide_top_level p i ≡ decide_window_open p i.target_url
  unfolding decide_top_level decide_window_open decide_ordinary
  top_level-eq-window_open i trusted t outside = ground arith

  untrusted-external :
      (i : NavigationInput) (url : String)
      → parse_strict p i.trusted_document_url ≡ none
      → decide_top_level p i ≢ open_external url
  unfolding decide_top_level
  untrusted-external i url bad = elim (Option-cases (parse_strict p i.target_url)) [
    | inl no_target ↦ ground arith
    | inr (u, t) ↦ ground (arith, special-external i.target_url url u)
  ]

  top_level-IsExternal :
      (i : NavigationInput) (url : String)
      → decide_top_level p i ≡ open_external url
      → IsExternal i.target_url url
  top_level-IsExternal i url e = elim (Option-cases (parse_strict p i.trusted_document_url)) [
    | inl bad ↦ absurd (untrusted-external i url bad e)
    | inr (u, t) ↦
        window-IsExternal i.target_url url (sym (top_level-eq-window_open i u t (ground arith)) ∙ e)
  ]

  -- A URL is handed to the browser only if it is strict, http or https, and names no user or
  -- password; it is then the parser's form of the URL that was asked for.
  pub opened-IsExternal :
      (i : NavigationInput) (url : String)
      → ((decide_top_level p i ≡ open_external url)
          ⊎ (decide_window_open p i.target_url ≡ open_external url))
      → IsExternal i.target_url url
  opened-IsExternal i url (inl e) = top_level-IsExternal i url e
  opened-IsExternal i url (inr e) = window-IsExternal i.target_url url e

  opened_artifact :
      (i : NavigationInput) (id : String)
      → ((decide_top_level p i ≡ open_artifact id)
          ⊎ (decide_window_open p i.target_url ≡ open_artifact id))
      → is_safe_artifact id ≡ true
  unfolding decide_top_level decide_window_open decide_ordinary classify_special parse_artifact_id
  opened_artifact i id (inl e) = ground arith
  opened_artifact i id (inr e) = ground arith

  -- An artifact is opened only by an id that is no path: not empty, neither "." nor "..", at most
  -- 255 units long, and without slashes, backslashes, colons and control characters.
  pub opened_artifact-IsPlain :
      (i : NavigationInput) (id : String)
      → ((decide_top_level p i ≡ open_artifact id)
          ⊎ (decide_window_open p i.target_url ≡ open_artifact id))
      → (id ≢ "") × (id ≢ ".") × (id ≢ "..") × (utf16_length id ≤ 255) × IsPlain id
  opened_artifact-IsPlain i id h = safe-IsPlain id (opened_artifact i id h)

  -- A navigation that is let through has no effect; any other is prevented first, and then does
  -- what opening a window for the same URL does. The trusted document's URL is strict.
  pub enforce_top_level_lem :
      (i : NavigationInput) (trusted : Url)
      → parse_strict p i.trusted_document_url ≡ some trusted
      → ((decide_top_level p i ≡ allow_current_document) × (enforce_top_level p i ≡ []))
        ⊎ ((decide_top_level p i ≢ allow_current_document)
            × (enforce_top_level p i ≡ prevent_default ∷ enforce_window_open p i.target_url))
  unfolding enforce_top_level enforce_window_open
  enforce_top_level_lem i trusted t = elim (Decision-cases (decide_top_level p i)) [
    | inl e ↦ inl (e, rw e)
    | inr n ↦ inr (
      n,
      enforce_prevents (decide_top_level p i) n
          ∙ ap (λ d. prevent_default ∷ side_effect d) (top_level-eq-window_open i trusted t n),
    )
  ]
