-- ===== src/Agent/Tests/OutputTests.antt =====
-- The output of an agent at concrete texts.
use agent_workflow_platform.Prelude.{
  ℕ, List, [], ◌∷◌, ◌++◌, Option, none, some, ◌≡◌, refl, arith, map, map_get, eqb, if◌then◌else◌,
}
use agent_workflow_platform.Sse.Framing.{Units}
use agent_workflow_platform.Sse.Framing.Pieces.{join}
use agent_workflow_platform.Agent.Json.{Json, str, obj, end, field}
use agent_workflow_platform.Agent.Stdout.{handle_stdout_chunk}
use agent_workflow_platform.Agent.Output.Pieces.{handle_pieces, handle_pieces-join, last_time}
use agent_workflow_platform.Agent.Tests.OwnerTests.{windows_host, first_session, running}

-- A parser that takes one letter for the end of a message.
abbrev letter : Units → Option Json
letter (c ∷ []) = if eqb c 65 then some (obj (field "type" (str "message_stop") end)) else none
letter text = none

-- `A`, a newline and a `B`, one by one
abbrev one_by_one : List (Units × ℕ)
one_by_one = (10 ∷ [], 2) ∷ (66 ∷ [], 3) ∷ []

running_object : map_get "s1" running.objects ≡ some first_session
unfolding map_get
running_object = refl

handle_pieces-join_example :
    handle_pieces letter windows_host "s1" ((65 ∷ [], 1) ∷ one_by_one) running
    ≡ handle_stdout_chunk letter windows_host "s1"
        ((65 ∷ []) ++ join (map (λ (p : Units × ℕ). p.0) one_by_one))
        (last_time 1 one_by_one)
        running
handle_pieces-join_example =
    handle_pieces-join letter windows_host "s1" one_by_one (65 ∷ []) 1 first_session running
      running_object (omega arith)
