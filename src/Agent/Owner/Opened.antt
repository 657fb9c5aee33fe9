-- ===== src/Agent/Owner/Opened.antt =====
-- A session that is started, and the owners of the conversations (cc-wrapper.ts).
use agent_workflow_platform.Prelude.{
  none≢some, ℕ, String, Bool, true, false, get_or, ◌==◌, List, ◌++◌, none, some, ◌≡◌, refl, sym,
  ◌∙◌, ap, if◌then◌else◌, inl, inr, String-cases, map_get, map_set, map_get-set_self,
  map_get-set_ne, eq_refl,
}
use agent_workflow_platform.Agent.Json.{Json}
use agent_workflow_platform.Agent.Session.{CcSession, ChildProcess, spawn, Wrapper, registered}
use agent_workflow_platform.Agent.Registry.{is_exited, ask, broadcast}
use agent_workflow_platform.Agent.Config.{Result-cases}
use agent_workflow_platform.Agent.Environment.{build_cc_env}
use agent_workflow_platform.Agent.Launch.{Machine, mcp_args}
use agent_workflow_platform.Agent.Start.{
  SpawnOutcome, spawned, spawn_threw, CommandLine, command_line, new_session, register,
  spawn_session, fail_mcp, fail_env, start_new,
}
use agent_workflow_platform.Agent.Owner.Ended.{IsOwned}
use agent_workflow_platform.Agent.Owner.Exits.{SameMaps, emit_failure_telemetry-SameMaps}
use agent_workflow_platform.Agent.Owner.Spec.{Owners, owner, is_spawned, launches}

-- One step of the wrapper against one change of the owners.
pub record Follows (v : Wrapper) (f : Owners) : Type 0 where
  pub is_owned : IsOwned v
  pub owners : (conv : String) → owner v conv ≡ f conv

-- Only the lookups count.
pub lookups-IsOwned :
    (w v : Wrapper)
    → v.sessions ≡ w.sessions
    → v.objects ≡ w.objects
    → ((conv : String) → owner v conv ≡ owner w conv)
    → IsOwned w
    → IsOwned v
lookups-IsOwned w v a b same h = record {
  owned = λ id s reg obj.
      let r = h.owned id s (ap (map_get id) (sym a) ∙ reg) (ap (map_get id) (sym b) ∙ obj) in
      (same s.conversation_id ∙ r.0, r.1);
  live = λ conv id e.
      let (reg, s, was, fits) = h.live conv id (sym (same conv) ∙ e) in
      (ap (map_get id) a ∙ reg, s, ap (map_get id) b ∙ was, fits);
}

registered-owned :
    (id conv : String) (line : CommandLine) (process : ChildProcess) (now : ℕ) (w : Wrapper)
    → IsOwned w
    → map_get id w.objects ≡ none
    → map_get conv w.by_conv ≡ none
    → (j : String) (t : CcSession) → map_get j (map_set id registered w.sessions) ≡ some registered
    → map_get j (map_set id (new_session id conv line process now) w.objects) ≡ some t
    → (map_get t.conversation_id (map_set conv id w.by_conv) ≡ some j) × (is_exited t.phase ≡ false)
unfolding new_session is_exited
registered-owned id conv line process now w h fresh free j t reg obj = elim (String-cases id j) [
  | inl same ↦
      let made = new_session id conv line process now in
      let one : made ≡ t =
        ap (λ o. get_or o made)
          (sym (map_get-set_self id made w.objects)
            ∙ (ap (λ k. map_get k (map_set id made w.objects)) same ∙ obj)) in
      (
        ap (λ c. map_get c (map_set conv id w.by_conv)) (ap (λ x. x.conversation_id) (sym one))
            ∙ (map_get-set_self conv id w.by_conv ∙ ap some same),
        ap (λ x. is_exited x.phase) (sym one),
      )
  | inr other ↦
      let made = new_session id conv line process now in
      let r =
        h.owned j t (sym (map_get-set_ne id j registered w.sessions other) ∙ reg)
          (sym (map_get-set_ne id j made w.objects other) ∙ obj) in
      elim (String-cases conv t.conversation_id) [
        | inl here ↦
            (let q : none ≡ some j = sym free ∙ (ap (λ c. map_get c w.by_conv) here ∙ r.0) in
              absurd (none≢some q))
        | inr apart ↦ (map_get-set_ne conv t.conversation_id id w.by_conv apart ∙ r.0, r.1)
      ]
]

registered-live :
    (id conv : String) (line : CommandLine) (process : ChildProcess) (now : ℕ) (w : Wrapper)
    → IsOwned w
    → map_get id w.objects ≡ none
    → (c j : String) → map_get c (map_set conv id w.by_conv) ≡ some j
    → (map_get j (map_set id registered w.sessions) ≡ some registered)
      × (s : CcSession) × (map_get j (map_set id (new_session id conv line process now) w.objects)
          ≡ some s)
      × (s.conversation_id ≡ c)
unfolding new_session
registered-live id conv line process now w h fresh c j e = elim (String-cases conv c) [
  | inl same ↦
      let made = new_session id conv line process now in
      let one : id ≡ j =
        ap (λ o. get_or o id)
          (sym (map_get-set_self conv id w.by_conv)
            ∙ (ap (λ k. map_get k (map_set conv id w.by_conv)) same ∙ e)) in
      (
        ap (λ k. map_get k (map_set id registered w.sessions)) (sym one)
            ∙ map_get-set_self id registered w.sessions,
        made,
        ap (λ k. map_get k (map_set id made w.objects)) (sym one)
            ∙ map_get-set_self id made w.objects,
        same,
      )
  | inr other ↦
      let made = new_session id conv line process now in
      let (reg, s, was, fits) = h.live c j (sym (map_get-set_ne conv c id w.by_conv other) ∙ e) in
      elim (String-cases id j) [
        | inl clash ↦ absurd (none≢some (sym fresh ∙ (ap (λ k. map_get k w.objects) clash ∙ was)))
        | inr apart ↦ (
          map_get-set_ne id j registered w.sessions apart ∙ reg,
          s,
          map_get-set_ne id j made w.objects apart ∙ was,
          fits,
        )
      ]
]

-- What a start does to a conversation without a session.
abbrev pub new_owner : String → String → Bool → Owners → Owners
new_owner conv id launched f c = if conv == c then (if launched then some id else none) else f c

register-Follows :
    (id conv : String) (line : CommandLine) (process : ChildProcess) (now : ℕ) (w : Wrapper)
    → IsOwned w
    → map_get id w.objects ≡ none
    → owner w conv ≡ none
    → Follows (register id conv line process now w) (new_owner conv id true (owner w))
unfolding register
register-Follows id conv line process now w h fresh free = record {
  is_owned = record {
    owned = registered-owned id conv line process now w h fresh free;
    live = registered-live id conv line process now w h fresh;
  };
  owners = λ c. elim (String-cases conv c) [
    | inl same ↦ rw (sym same, eq_refl conv) (map_get-set_self conv id w.by_conv)
    | inr other ↦ rw other (map_get-set_ne conv c id w.by_conv other)
  ];
}

-- A start that makes no process.
failed-Follows :
    (id conv : String) (w v : Wrapper)
    → SameMaps w v
    → IsOwned w
    → owner w conv ≡ none
    → Follows v (new_owner conv id false (owner w))
failed-Follows id conv w v k h free = record {
  is_owned = lookups-IsOwned w v k.0 k.2 (λ c. ap (map_get c) k.1) h;
  owners = λ c. elim (String-cases conv c) [
    | inl same ↦ rw (sym same, eq_refl conv) (ap (map_get conv) k.1 ∙ free)
    | inr other ↦ rw other (ap (map_get c) k.1)
  ];
}

spawn_session-Follows :
    (m : Machine) (conv : String) (line : CommandLine) (env : List (String × String))
    (outcome : SpawnOutcome) (id : String) (now : ℕ) (w : Wrapper)
    → IsOwned w
    → map_get id w.objects ≡ none
    → owner w conv ≡ none
    → Follows
        (spawn_session m conv line env outcome id now w).1
        (new_owner conv id (is_spawned outcome) (owner w))
unfolding spawn_session is_spawned ask
spawn_session-Follows m conv line env (spawned process) id now w h fresh free =
    let asked = ask (spawn line.exe line.argv line.cwd env) w in
    let r =
      register-Follows id conv line process now asked
        (lookups-IsOwned w asked refl refl (λ c. refl) h) fresh free in
    record { is_owned = r.is_owned; owners = r.owners }
spawn_session-Follows m conv line env (spawn_threw code message) id now w h fresh free =
    failed-Follows id conv w _ (emit_failure_telemetry-SameMaps m.host _ w _ (refl, refl, refl)) h
      free

pub start_new-Follows :
    (m : Machine) (opts : Json) (conv : String) (outcome : SpawnOutcome) (id : String) (now : ℕ)
    (w : Wrapper)
    → IsOwned w
    → map_get id w.objects ≡ none
    → owner w conv ≡ none
    → Follows
        (start_new m opts conv outcome id now w).1
        (new_owner conv id (launches m opts conv outcome) (owner w))
unfolding start_new launches
start_new-Follows m opts conv outcome id now w h fresh free =
    elim (Result-cases (command_line m opts)) [
      | inl (code, e) ↦
          rw (e, start_new, launches) (failed-Follows id conv w w (refl, refl, refl) h free)
      | inr (line, e) ↦ elim (Result-cases (mcp_args m conv)) [
        | inl (message, f) ↦
            rw (e, f, start_new, launches)
              (failed-Follows id conv w (fail_mcp message w).1
                (unfold fail_mcp broadcast in (refl, refl, refl)) h free)
        | inr (mcp, f) ↦ elim (Result-cases (build_cc_env m.parsers m.env)) [
          | inl (code, g) ↦
              rw (e, f, g, start_new, launches)
                (failed-Follows id conv w (fail_env code w).1
                  (unfold fail_env broadcast in (refl, refl, refl)) h free)
          | inr (env, g) ↦
              rw (e, f, g, start_new, launches)
                (spawn_session-Follows m conv (record line { argv = line.argv ++ mcp }) env outcome
                  id now w h fresh free)
        ]
      ]
    ]
