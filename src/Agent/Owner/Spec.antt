-- ===== src/Agent/Owner/Spec.antt =====
-- The sessions of the conversations as a function, and what the events mean for it (the maps of
-- cc-wrapper.ts).
use agent_workflow_platform.Prelude.{
  String, Bool, true, false, ◌==◌, List, [], ◌∷◌, Option, none, some, if◌then◌else◌, map_get,
}
use agent_workflow_platform.Agent.Json.{Json, is_object}
use agent_workflow_platform.Agent.Session.{Wrapper}
use agent_workflow_platform.Agent.Config.{ok, failed}
use agent_workflow_platform.Agent.Environment.{build_cc_env}
use agent_workflow_platform.Agent.Launch.{Machine, valid_conversation, mcp_args}
use agent_workflow_platform.Agent.Start.{SpawnOutcome, spawned, spawn_threw, command_line}
use agent_workflow_platform.Agent.Events.{Event, start, exit, error}
use agent_workflow_platform.Agent.Owner.Ended.{close}

-- Whether a start gets as far as a process.
unfoldable pub is_spawned : SpawnOutcome → Bool
is_spawned (spawned process) = true
is_spawned (spawn_threw code message) = false

unfoldable pub launches : Machine → Json → String → SpawnOutcome → Bool
unfolding is_spawned
launches m opts conv outcome = elim (command_line m opts) [
  | failed code ↦ false
  | ok line ↦ elim (mcp_args m conv) [
    | failed message ↦ false
    | ok mcp ↦ elim (build_cc_env m.parsers m.env) [
      | failed code ↦ false
      | ok env ↦ is_spawned outcome
    ]
  ]
]

-- The session of each conversation.
abbrev pub Owners : Type 0
Owners = String → Option String

abbrev pub owner : Wrapper → Owners
owner w conv = map_get conv w.by_conv

-- a conversation without a session gets the new one
abbrev pub open_for : String → String → Bool → Owners → Owners
open_for conv id launched f c =
    if conv == c
    then (elim (f c) [ some known ↦ some known | none ↦ (if launched then some id else none) ])
    else f c

-- What an event means for the owners.
unfoldable pub meaning : Machine → Event → Owners → Owners
unfolding launches
meaning m (start opts outcome id now) f =
    if is_object opts
    then elim (valid_conversation opts) [
      | none ↦ f
      | some conv ↦ open_for conv id (launches m opts conv outcome) f
    ]
    else f
meaning m (exit id code signal tail now) f = close id f
meaning m (error managed id code message) f = close id f
meaning m _ f = f

unfoldable pub replay : Machine → List Event → Owners → Owners
unfolding meaning
replay m [] f = f
replay m (e ∷ es) f = replay m es (meaning m e f)
