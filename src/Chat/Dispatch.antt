-- ===== src/Chat/Dispatch.antt =====
-- How often a turn is handed to a transport (`sendMessage`, `_retryViaHttpAfterCcCrash` of
-- apps/desktop/src/stores/chat.ts).
use agent_workflow_platform.Prelude.{ℕ, ◌+◌, true, false, List, [], ◌∷◌, ◌≡◌, ◌⊎◌, is_some}
use agent_workflow_platform.Chat.Types.{Effect, cc_start, cc_send_message, stream_message}
use agent_workflow_platform.Chat.State.{Chat}

-- a request over HTTP
abbrev pub is_request : Effect → ℕ
is_request (stream_message model messages conv files) = 1
is_request _ = 0

-- an effect that carries the message of the user: a request over HTTP, or the message to the agent
abbrev pub is_carrier : Effect → ℕ
is_carrier (stream_message model messages conv files) = 1
is_carrier (cc_send_message session content files) = 1
is_carrier _ = 0

-- a start of the local agent
abbrev pub is_start : Effect → ℕ
is_start (cc_start conv model session) = 1
is_start _ = 0

abbrev pub count : (Effect → ℕ) → List Effect → ℕ
count f [] = 0
count f (e ∷ es) = f e + count f es

-- No effect carries a message, and none starts the agent.
abbrev pub IsSilent : Chat → Chat → Type 0
IsSilent s r =
    (count is_carrier r.effects ≡ count is_carrier s.effects)
    × (count is_start r.effects ≡ count is_start s.effects)

-- One effect carries the message and none starts the agent, or there is neither and the turn is over
-- with an error.
abbrev pub IsCarried : Chat → Chat → Type 0
IsCarried s r =
    ((count is_carrier r.effects ≡ count is_carrier s.effects + 1)
      × (count is_start r.effects ≡ count is_start s.effects))
    ⊎ (IsSilent s r × (r.is_streaming ≡ false) × (is_some r.error ≡ true))

-- The message is carried or the turn is over, or the agent is started once and nothing carries the
-- message yet.
abbrev pub IsHandedOver : Chat → Chat → Type 0
IsHandedOver s r =
    IsCarried s r
    ⊎ ((count is_carrier r.effects ≡ count is_carrier s.effects)
        × (count is_start r.effects ≡ count is_start s.effects + 1))

-- The effects that count, the messages on view and the pending uploads are those of before.
record Same (s r : Chat) : Type 0 where
  effects : IsSilent s r
  messages : r.current_messages ≡ s.current_messages
  pending : r.pending_attachments ≡ s.pending_attachments

-- The turn is handed over, and the view is that of before.
record Sent (s r : Chat) : Type 0 where
  handed : IsHandedOver s r
  messages : r.current_messages ≡ s.current_messages
  pending : r.pending_attachments ≡ s.pending_attachments
