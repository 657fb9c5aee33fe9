-- ===== src/Agent/Environment/Consent.antt =====
-- The configured variables of the agent's process, and the consent to remote addresses
-- (`parseExplicitCliEnv` of cc-wrapper.ts).
use mathlib.Core.Path.{subst}
use agent_workflow_platform.Prelude.{
  none≢some, String, true, false, ◌||◌, List, [], Option, none, some, ◌==◌, ◌≡◌, ◌⊎◌, refl, sym,
  ◌∙◌, ap, arith, Bool-cases, inl, inr, map_get, any, ltb, truthy, utf16_length,
}
use agent_workflow_platform.Agent.Json.{Json, str, obj, Fields, end, field, null, bool, number, arr}
use agent_workflow_platform.Agent.Config.{
  Result-cases, failed≢ok, Result, ok, failed, and_then, Env, env_text, Parsers, opted_in,
  is_remote_http_url,
}
use agent_workflow_platform.Agent.Environment.{
  safe_parent_env_keys, build_safe_parent_env, Configured, assign, add_entries, checked_env,
  is_env_name, field_count, configured_env, parse_explicit_cli_env, spread, build_cc_env,
}
use agent_workflow_platform.Agent.Environment.Sources.{
  HasEntry, HasText, entry-set, copied, spread-source,
}

-- the loop's state behind one entry
abbrev with_entry : Parsers → String → String → Configured → Configured
with_entry p key item c = record {
  values = assign key item c.values;
  contains_remote = c.contains_remote || is_remote_http_url p item;
}

true≢false : true ≡ false → ⊥
true≢false e = cc

add_entries-next :
    (p : Parsers) (key item : String) (rest : Fields) (c d : Configured)
    → add_entries p (field key (str item) rest) c ≡ ok d
    → add_entries p rest (with_entry p key item c) ≡ ok d
unfolding add_entries
add_entries-next p key item rest c d e = elim (Bool-cases (is_env_name key)) [
  | inr n ↦ (let r = rw (n, add_entries) at e in absurd (failed≢ok r))
  | inl n ↦ elim (Bool-cases (ltb 32768 (utf16_length item))) [
    | inl l ↦ (let r = rw (n, l, add_entries) at e in absurd (failed≢ok r))
    | inr l ↦ rw (n, l, add_entries) at e
  ]
]

-- a record is what its parts say
ok_inj : {A : Type 0} {a b : A} → ok a ≡ ok b → a ≡ b
ok_inj {a = a} e = ap (λ r. value_or r a) e
  where
    value_or : {A : Type 0} → Result A → A → A
    value_or (ok x) y = x
    value_or (failed code) y = y

assigned :
    (k v key item : String) (m : List (String × String))
    → HasEntry k v (assign key item m)
    → ((key ≡ k) × (item ≡ v)) ⊎ HasEntry k v m
unfolding assign
assigned k v key item m h = elim (Bool-cases (key == "__proto__")) [
  | inl t ↦ inr (rw t at h)
  | inr f ↦ entry-set k v key item m (rw f at h)
]

entries-source :
    (p : Parsers) (k v : String) (fields : Fields) (c d : Configured)
    → add_entries p fields c ≡ ok d
    → HasEntry k v d.values
    → HasText k v fields ⊎ HasEntry k v c.values
unfolding add_entries
entries-source p k v end c d e h = inr (subst (λ x. HasEntry k v x.values) (sym (ok_inj e)) h)
entries-source p k v (field key (str item) rest) c d e h =
    elim (entries-source p k v rest (with_entry p key item c) d
      (add_entries-next p key item rest c d e) h) [
        | inl found ↦ inl (inr found)
        | inr was ↦ elim (assigned k v key item c.values was) [
          | inl new ↦ inl (inl new)
          | inr old ↦ inr old
        ]
      ]
entries-source p k v (field key null rest) c d e h = absurd (failed≢ok e)
entries-source p k v (field key (bool b) rest) c d e h = absurd (failed≢ok e)
entries-source p k v (field key (number n) rest) c d e h = absurd (failed≢ok e)
entries-source p k v (field key (arr x) rest) c d e h = absurd (failed≢ok e)
entries-source p k v (field key (obj x) rest) c d e h = absurd (failed≢ok e)

-- A remote address among the entries is noticed.
remote-noticed :
    (p : Parsers) (k v : String) (fields : Fields) (c d : Configured)
    → add_entries p fields c ≡ ok d
    → (HasText k v fields × (is_remote_http_url p v ≡ true)) ⊎ (c.contains_remote ≡ true)
    → d.contains_remote ≡ true
unfolding add_entries
remote-noticed p k v end c d e (inl h) = absurd h.0
remote-noticed p k v end c d e (inr h) = ap (λ x. x.contains_remote) (sym (ok_inj e)) ∙ h
remote-noticed p k v (field key (str item) rest) c d e h =
    remote-noticed p k v rest (with_entry p key item c) d (add_entries-next p key item rest c d e)
      (carried h)
  where
    carried :
        (HasText k v (field key (str item) rest) × (is_remote_http_url p v ≡ true))
          ⊎ (c.contains_remote ≡ true)
        → (HasText k v rest × (is_remote_http_url p v ≡ true))
          ⊎ ((c.contains_remote || is_remote_http_url p item) ≡ true)
    carried (inl (inl here, r)) = inr (ground (arith, ap (is_remote_http_url p) here.1))
    carried (inl (inr more, r)) = inl (more, r)
    carried (inr was) = inr (ground (arith, was))
remote-noticed p k v (field key null rest) c d e h = absurd (failed≢ok e)
remote-noticed p k v (field key (bool b) rest) c d e h = absurd (failed≢ok e)
remote-noticed p k v (field key (number n) rest) c d e h = absurd (failed≢ok e)
remote-noticed p k v (field key (arr x) rest) c d e h = absurd (failed≢ok e)
remote-noticed p k v (field key (obj x) rest) c d e h = absurd (failed≢ok e)

-- the check behind the loop
checked :
    (env : Env) (c : Configured) (values : List (String × String))
    → checked_env env c ≡ ok values
    → (c.values ≡ values)
      × (c.contains_remote ≡ true → opted_in env "AWP_AGENT_REMOTE_API_OPT_IN" ≡ true)
unfolding checked_env
checked env c values e = elim (Bool-cases c.contains_remote) [
  | inr local ↦ (ok_inj (rw (local, checked_env) at e), λ r. absurd (true≢false (sym r ∙ local)))
  | inl remote ↦ elim (Bool-cases (opted_in env "AWP_AGENT_REMOTE_API_OPT_IN")) [
    | inl consent ↦ (ok_inj (rw (remote, consent, checked_env) at e), λ r. consent)
    | inr refusal ↦ (let r = rw (remote, refusal, checked_env) at e in absurd (failed≢ok r))
  ]
]

-- What the explicit configuration gives: a text of the object in its variable, and the consent where
-- it names a remote address.
Explained : Parsers → Env → String → String → Option Json → Type 0
Explained p env k v parsed =
    (fields : Fields) × (parsed ≡ some (obj fields))
    × HasText k v fields
    × (is_remote_http_url p v ≡ true → opted_in env "AWP_AGENT_REMOTE_API_OPT_IN" ≡ true)

object-source :
    (p : Parsers) (env : Env) (k v : String) (values : List (String × String)) (fields : Fields)
    → and_then
        (add_entries p fields (record { values = []; contains_remote = false }))
        (checked_env env)
      ≡ ok values
    → HasEntry k v values
    → Explained p env k v (some (obj fields))
unfolding and_then Explained
object-source p env k v values fields e h =
    elim (Result-cases (add_entries p fields (record { values = []; contains_remote = false }))) [
      | inl (code, f) ↦ (let r = rw (f, and_then) at e in absurd (failed≢ok r))
      | inr (c, f) ↦
          let (same, consent) = checked env c values (rw (f, and_then) at e) in
          elim (entries-source p k v fields (record { values = []; contains_remote = false }) c f
            (subst (λ x. HasEntry k v x) (sym same) h)) [
              | inl found ↦ (
                fields,
                refl,
                found,
                λ r. consent (
                    remote-noticed p k v fields (record { values = []; contains_remote = false }) c
                      f (inl (found, r))),
              )
              | inr nothing ↦ absurd nothing
            ]
    ]

parsed-source :
    (p : Parsers) (env : Env) (k v : String) (values : List (String × String))
    (parsed : Option Json)
    → configured_env p env parsed ≡ ok values
    → HasEntry k v values
    → Explained p env k v parsed
unfolding configured_env
parsed-source p env k v values (some (obj fields)) e h =
    elim (Bool-cases (ltb 128 (field_count fields))) [
      | inl big ↦ (let r = rw (big, configured_env) at e in absurd (failed≢ok r))
      | inr fits ↦ object-source p env k v values fields (rw (fits, configured_env) at e) h
    ]
parsed-source p env k v values none e h = absurd (failed≢ok e)
parsed-source p env k v values (some null) e h = absurd (failed≢ok e)
parsed-source p env k v values (some (bool b)) e h = absurd (failed≢ok e)
parsed-source p env k v values (some (number n)) e h = absurd (failed≢ok e)
parsed-source p env k v values (some (str s)) e h = absurd (failed≢ok e)
parsed-source p env k v values (some (arr x)) e h = absurd (failed≢ok e)

configured-source :
    (p : Parsers) (env : Env) (k v : String) (values : List (String × String))
    → parse_explicit_cli_env p env ≡ ok values
    → HasEntry k v values
    → Explained p env k v (p.parse_json (env_text env "AWP_AGENT_CLI_ENV_JSON"))
unfolding parse_explicit_cli_env
configured-source p env k v values e h =
    elim (Bool-cases (truthy (env_text env "AWP_AGENT_CLI_ENV_JSON"))) [
      | inl given ↦
          parsed-source p env k v values (p.parse_json (env_text env "AWP_AGENT_CLI_ENV_JSON"))
            (rw (given, parse_explicit_cli_env) at e) h
      | inr empty ↦
          let r = rw (empty, parse_explicit_cli_env) at e in
          absurd (subst (λ x. HasEntry k v x) (sym (ok_inj r)) h)
    ]

-- A variable that the process of an agent gets is one of the listed ones, with the value that it has
-- in the wrapper's own environment, or a text of the configured object; a text with a remote address
-- is only passed on with the consent.
pub build_cc_env-sources :
    (p : Parsers) (env : Env) (k v : String) (built : List (String × String))
    → build_cc_env p env ≡ ok built
    → map_get k built ≡ some v
    → ((any (λ key. key == k) safe_parent_env_keys ≡ true) × (env k ≡ some v))
      ⊎ ((fields : Fields) × (p.parse_json (env_text env "AWP_AGENT_CLI_ENV_JSON")
            ≡ some (obj fields))
          × HasText k v fields
          × (is_remote_http_url p v ≡ true → opted_in env "AWP_AGENT_REMOTE_API_OPT_IN" ≡ true))
unfolding build_cc_env and_then build_safe_parent_env map_get Explained
build_cc_env-sources p env k v built e h = elim (Result-cases (parse_explicit_cli_env p env)) [
  | inl (code, f) ↦ (let r = rw (f, build_cc_env) at e in absurd (failed≢ok r))
  | inr (values, f) ↦
      let whole : spread (build_safe_parent_env env) values ≡ built =
        ok_inj (rw (f, build_cc_env) at e) in
      elim (spread-source k v values (build_safe_parent_env env) (ap (map_get k) whole ∙ h)) [
        | inl entry ↦ inr (configured-source p env k v values f entry)
        | inr was ↦ elim (copied env k v safe_parent_env_keys [] was) [
          | inl found ↦ inl found
          | inr nothing ↦ absurd (none≢some nothing)
        ]
      ]
]
