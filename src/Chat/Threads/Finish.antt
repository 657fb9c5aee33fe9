-- ===== src/Chat/Threads/Finish.antt =====
-- The second part of `selectThread`: the remote history is merged in, and a stream that runs in the
-- background is restored (apps/desktop/src/stores/chat.ts).
use agent_workflow_platform.Prelude.{
  ℕ, String, Bool, true, false, ◌&&◌, ◌||◌, not, List, [], ◌∷◌, Option, none, some, get_or,
  if◌then◌else◌, get_elem?, truthy, present, option_is, text_gt,
}
use agent_workflow_platform.Chat.Types.{ChatMessage, Thread}
use agent_workflow_platform.Chat.State.{
  Chat, persist_threads, thread_index, set_thread, modify_thread?,
}

abbrev pub thread_at : Option ℕ → List Thread → Option Thread
thread_at none threads = none
thread_at (some i) threads = get_elem? threads i

-- The answer of `chatApi.getConversation`.
pub record RemoteConversation : Type 0 where
  pub messages : List ChatMessage
  pub updated_at : Option String
  pub cc_session_id : Option String

unfoldable pub has_messages : List ChatMessage → Bool
has_messages [] = false
has_messages (m ∷ ms) = true

unfoldable pub remote_messages : Option RemoteConversation → Option (List ChatMessage)
remote_messages none = none
remote_messages (some r) = if has_messages r.messages then some r.messages else none

-- `cloudUpdatedAt`, which is read only together with the messages
unfoldable pub remote_updated_at : Option RemoteConversation → Option String
remote_updated_at none = none
remote_updated_at (some r) =
    if has_messages r.messages then (if present r.updated_at then r.updated_at else none) else none

unfoldable pub remote_session : Option RemoteConversation → Option String
remote_session none = none
remote_session (some r) = if present r.cc_session_id then r.cc_session_id else none

-- Last write wins: a date that is missing remotely loses, one that is missing locally loses to
-- a remote one.
unfoldable pub remote_is_newer : Option String → String → Bool
unfolding text_gt
remote_is_newer none local = false
remote_is_newer (some remote) local = if truthy local then text_gt remote local else true

unfoldable pub adopt_messages : List ChatMessage → Option String → Thread → Thread
adopt_messages ms date t = record t { messages = ms; updated_at = get_or date t.updated_at }

unfoldable pub local_messages : Option Thread → List ChatMessage
local_messages none = []
local_messages (some t) = t.messages

unfoldable pub local_updated_at : Option Thread → String
local_updated_at none = ""
local_updated_at (some t) = t.updated_at

-- The messages of the view and of the target after the merge.
unfoldable pub merge_messages : Option ℕ → Option Thread → Option RemoteConversation → Chat → Chat
merge_messages i target answer s = elim (remote_messages answer) [
  | none ↦ record s { current_messages = local_messages target }
  | some ms ↦
      let take_remote = record (modify_thread? i (adopt_messages ms (remote_updated_at answer)) s) {
        current_messages = ms;
      } in
      if has_messages (local_messages target)
      then (if remote_is_newer (remote_updated_at answer) (local_updated_at target)
          then take_remote
          else record s { current_messages = local_messages target })
      else take_remote
]

-- The native session id of the remote copy, if the target has none or the copy is newer. The date
-- is that of the target after the merge of the messages.
unfoldable pub merge_session : ℕ → Thread → Option RemoteConversation → Chat → Chat
merge_session i t answer s = elim (remote_session answer) [
  | none ↦ s
  | some remote ↦
      let wins =
        not (present t.cc_session_id) || remote_is_newer (remote_updated_at answer) t.updated_at in
      if wins && not (option_is t.cc_session_id remote)
      then persist_threads (set_thread i (record t { cc_session_id = some remote }) s)
      else s
]

unfoldable pub restore_stream : ℕ → Thread → Chat → Chat
restore_stream i t s =
    if t.is_streaming
    then record (set_thread i
        (record t { bg_streaming_reply = some ""; bg_session_id = none; bg_conv_id = none }) s) {
          streaming_reply = get_or t.bg_streaming_reply "";
          is_streaming = true;
          cc_session_id = t.bg_session_id;
          current_conversation_id =
              if present t.bg_conv_id then t.bg_conv_id else s.current_conversation_id;
        }
    else record s { streaming_reply = ""; is_streaming = false; cc_session_id = none }

unfoldable pub choose_model : Thread → Chat → Chat
choose_model t s = record s {
  selected_model = if truthy t.model then t.model else s.selected_model;
}

-- `f` at the thread with the position `i`, if there is one
unfoldable pub at_thread : Option ℕ → (ℕ → Thread → Chat → Chat) → Chat → Chat
at_thread none f s = s
at_thread (some i) f s = elim (get_elem? s.threads i) [ none ↦ s | some t ↦ f i t s ]

unfoldable pub restore : Option ℕ → Chat → Chat
restore none s = record s { streaming_reply = ""; is_streaming = false; cc_session_id = none }
restore (some i) s = elim (get_elem? s.threads i) [
  | none ↦ record s { streaming_reply = ""; is_streaming = false; cc_session_id = none }
  | some t ↦ restore_stream i t s
]

-- What `selectThread` does when the answer is there, or when the request has failed (`none`). The
-- thread that it holds on to is the one with this id.
unfoldable pub select_finish : String → Option RemoteConversation → Chat → Chat
select_finish id answer s =
    let i = thread_index id s.threads in
    let merged = merge_messages i (thread_at i s.threads) answer s in
    let chosen = at_thread i (λ _ t. choose_model t) merged in
    let resumed = at_thread i (λ j t. merge_session j t answer) chosen in
    record (restore i resumed) { error = none }
