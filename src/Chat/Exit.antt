-- ===== src/Chat/Exit.antt =====
-- The exit of the local agent's session of the view (the handler of `cc:session-exit` in
-- apps/desktop/src/stores/chat.ts).
use agent_workflow_platform.Prelude.{
  if◌then◌else◌, ◌+◌, Bool, true, false, none, ◌≡◌, present, is_some, ◌&&◌, not,
}
use agent_workflow_platform.Chat.State.{Chat}
use agent_workflow_platform.Chat.Transport.{Runtime, should_route_local_cc}
use agent_workflow_platform.Chat.Dispatch.{is_request, count}

-- The turn is not over, may run on the local agent, and has not fallen back yet.
abbrev pub may_retry : Runtime → Chat → Bool
may_retry rt s =
    (not s.got_cc_done && should_route_local_cc rt && present s.last_sent_content_sig)
    && not s.cc_fallback_used

-- The turn goes on over HTTP.
abbrev pub GoesOn : Chat → Chat → Type 0
GoesOn s r =
    (count is_request r.effects ≡ count is_request s.effects + 1)
    × (r.is_streaming ≡ true)
    × (r.error ≡ none)
    × (r.cc_fallback_used ≡ true)

-- The turn is over, with an error unless it was over before.
abbrev pub IsOver : Chat → Chat → Type 0
IsOver s r =
    (r.effects ≡ s.effects)
    × (r.is_streaming ≡ false)
    × (if s.got_cc_done then (r.error ≡ s.error) else (is_some r.error ≡ true))
