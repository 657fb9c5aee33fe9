-- ===== src/Agent/Owner/Single.antt =====
-- One session for each conversation, and starts that are repeated (cc-wrapper.ts).
use mathlib.Core.Path.{subst}
use agent_workflow_platform.Prelude.{
  ℕ, String, true, false, get_or, List, [], ◌++◌, Option, none, some, ◌≡◌, refl, sym, ◌∙◌, ap,
  Bool-cases, Option-cases, inl, inr, map_get, map_get-set_self,
}
use agent_workflow_platform.Sse.Framing.{Units}
use agent_workflow_platform.Agent.Config.{Result-cases}
use agent_workflow_platform.Agent.Json.{Json, is_object}
use agent_workflow_platform.Agent.Session.{CcSession, Wrapper, Registered, registered}
use agent_workflow_platform.Agent.Registry.{is_exited, find_session, ask}
use agent_workflow_platform.Agent.Environment.{build_cc_env}
use agent_workflow_platform.Agent.Launch.{
  Machine, started, start_failed, valid_conversation, mcp_args,
}
use agent_workflow_platform.Agent.Start.{
  SpawnOutcome, spawned, spawn_threw, CommandLine, command_line, register, spawn_session, start_new,
  existing, drop_stale, start_conversation, start_session,
}
use agent_workflow_platform.Agent.Events.{Event, run}
use agent_workflow_platform.Agent.Owner.Ended.{IsOwned}
use agent_workflow_platform.Agent.Owner.Refines.{
  AreFresh, run_refines, existing-owner, start_session-Follows,
}

-- Nothing has happened yet.
abbrev pub no_sessions : Wrapper
no_sessions = record {
  objects = [];
  sessions = [];
  by_conv = [];
  spawn_failures = 0;
  broadcasts = [];
  calls = [];
  reports = [];
  recoveries = 0;
}

pub no_sessions-IsOwned : IsOwned no_sessions
no_sessions-IsOwned = record {
  owned = λ id s reg obj. (unfold map_get in cc);
  live = λ conv id e. (unfold map_get in cc);
}

registered-eq : (x : Registered) → x ≡ registered
registered-eq registered = refl

find_session-both :
    (id : String) (s : CcSession) (w : Wrapper)
    → find_session id w ≡ some s
    → (map_get id w.sessions ≡ some registered) × (map_get id w.objects ≡ some s)
unfolding find_session
find_session-both id s w e = elim (Option-cases (map_get id w.sessions)) [
  | inl n ↦ (let r = rw (n, find_session) at e in cc)
  | inr (x, f) ↦ (f ∙ ap some (registered-eq x), rw (f, find_session) at e)
]

-- In any run from no session on, in which a start takes an id that no session object has, a
-- session of the map is not over, and two sessions of the map for one conversation are the same.
pub run-one_session :
    (m : Machine) (parse_json : Units → Option Json) (es : List Event)
    → AreFresh m parse_json es no_sessions
    → (i j : String) (s t : CcSession) → find_session i (run m parse_json es no_sessions) ≡ some s
    → find_session j (run m parse_json es no_sessions) ≡ some t
    → s.conversation_id ≡ t.conversation_id
    → (is_exited s.phase ≡ false) × (i ≡ j)
run-one_session m parse_json es fresh i j s t at_i at_j same =
    let h = (run_refines m parse_json es no_sessions no_sessions-IsOwned fresh).0 in
    let w = run m parse_json es no_sessions in
    let (reg_i, obj_i) = find_session-both i s w at_i in
    let (reg_j, obj_j) = find_session-both j t w at_j in
    let a = h.owned i s reg_i obj_i in
    let b = h.owned j t reg_j obj_j in
    (a.1, ap (λ o. get_or o i) (sym a.0 ∙ (ap (λ c. map_get c w.by_conv) same ∙ b.0)))

started_inj : {a b : String} → started a ≡ started b → a ≡ b
started_inj e = cc

-- A start that returns a session leaves the conversation with it.
spawned-owner :
    (m : Machine) (conv : String) (line : CommandLine) (env : List (String × String))
    (outcome : SpawnOutcome) (id known : String) (now : ℕ) (w : Wrapper)
    → (spawn_session m conv line env outcome id now w).0 ≡ started known
    → map_get conv (spawn_session m conv line env outcome id now w).1.by_conv ≡ some known
unfolding spawn_session register ask
spawned-owner m conv line env (spawned process) id known now w e =
    map_get-set_self conv id w.by_conv ∙ ap some (started_inj e)
spawned-owner m conv line env (spawn_threw code message) id known now w e = cc

start_new-owner :
    (m : Machine) (opts : Json) (conv : String) (outcome : SpawnOutcome) (id known : String)
    (now : ℕ) (w : Wrapper)
    → (start_new m opts conv outcome id now w).0 ≡ started known
    → map_get conv (start_new m opts conv outcome id now w).1.by_conv ≡ some known
unfolding start_new
start_new-owner m opts conv outcome id known now w e = elim (Result-cases (command_line m opts)) [
  | inl (code, f) ↦ (let r = rw (f, start_new) at e in cc)
  | inr (line, f) ↦ elim (Result-cases (mcp_args m conv)) [
    | inl (message, g) ↦ (let r = rw (f, g, start_new) at e in cc)
    | inr (mcp, g) ↦ elim (Result-cases (build_cc_env m.parsers m.env)) [
      | inl (code, h) ↦ (let r = rw (f, g, h, start_new) at e in cc)
      | inr (env, h) ↦
          let full = record line { argv = line.argv ++ mcp } in
          rw (f, g, h, start_new)
            (spawned-owner m conv full env outcome id known now w (rw (f, g, h, start_new) at e))
    ]
  ]
]

start_conversation-owner :
    (m : Machine) (opts : Json) (conv : String) (outcome : SpawnOutcome) (id known : String)
    (now : ℕ) (w : Wrapper)
    → IsOwned w
    → (start_conversation m opts conv outcome id now w).0 ≡ started known
    → map_get conv (start_conversation m opts conv outcome id now w).1.by_conv ≡ some known
unfolding start_conversation
start_conversation-owner m opts conv outcome id known now w h e =
    elim (Option-cases (existing conv w)) [
      | inl f ↦
          rw (f, start_conversation)
            (start_new-owner m opts conv outcome id known now (drop_stale conv w)
              (rw (f, start_conversation) at e))
      | inr (k, f) ↦
          let r : started k ≡ started known = rw (f, start_conversation) at e in
          rw (f, start_conversation) (sym (existing-owner conv w h) ∙ (f ∙ ap some (started_inj r)))
    ]

found_again :
    (n : Machine) (opts : Json) (conv : String) (later : SpawnOutcome) (next known : String)
    (later_on : ℕ) (v : Wrapper)
    → IsOwned v
    → map_get conv v.by_conv ≡ some known
    → start_conversation n opts conv later next later_on v ≡ (started known, v)
unfolding start_conversation
found_again n opts conv later next known later_on v h e =
    rw (existing-owner conv v h ∙ e, start_conversation) refl

start_session-conversation :
    (m : Machine) (opts : Json) (conv : String) (outcome : SpawnOutcome) (id : String) (now : ℕ)
    (w : Wrapper)
    → is_object opts ≡ true
    → valid_conversation opts ≡ some conv
    → start_session m opts outcome id now w ≡ start_conversation m opts conv outcome id now w
unfolding start_session
start_session-conversation m opts conv outcome id now w f g = rw (f, g, start_session) refl

failed≢started : {code known : String} → start_failed code ≡ started known → ⊥
failed≢started e = cc

-- A start that has returned a session can be repeated, whatever the configuration has become: the
-- same session is returned, no second process is made, and nothing else changes.
pub start_session-again :
    (m n : Machine) (opts : Json) (outcome later : SpawnOutcome) (id next known : String)
    (now later_on : ℕ) (w : Wrapper)
    → IsOwned w
    → map_get id w.objects ≡ none
    → (start_session m opts outcome id now w).0 ≡ started known
    → start_session n opts later next later_on (start_session m opts outcome id now w).1
      ≡ (started known, (start_session m opts outcome id now w).1)
unfolding start_session
start_session-again m n opts outcome later id next known now later_on w h fresh e =
    elim (Bool-cases (is_object opts)) [
      | inr f ↦ (let r = rw (f, start_session) at e in absurd (failed≢started r))
      | inl f ↦ elim (Option-cases (valid_conversation opts)) [
        | inl g ↦ (let r = rw (f, g, start_session) at e in absurd (failed≢started r))
        | inr (conv, g) ↦
            let same = start_session-conversation m opts conv outcome id now w f g in
            let v = (start_conversation m opts conv outcome id now w).1 in
            let owned : IsOwned v =
              subst (λ x. IsOwned x.1) same
                ((start_session-Follows m opts outcome id now w h fresh).is_owned) in
            let known_there =
              start_conversation-owner m opts conv outcome id known now w h
                (subst (λ x. x.0 ≡ started known) same e) in
            subst (λ x. start_session n opts later next later_on x.1 ≡ (started known, x.1))
              (sym same)
              (start_session-conversation n opts conv later next later_on v f g
                ∙ found_again n opts conv later next known later_on v owned known_there)
      ]
    ]
