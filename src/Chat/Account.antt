-- ===== src/Chat/Account.antt =====
-- Uploads, the choice of a model, and what a user's threads are loaded from: the rest of the store's
-- operations (apps/desktop/src/stores/chat.ts).
pub mod Ready
use Prim.Native.Char.{code}
use Prim.Native.String.{[], ◌∷◌}
use mathlib.Core.List
use agent_workflow_platform.Prelude.{
  ℕ, zero, suc, ◌+◌, ◌-◌, ◌*◌, ◌<◌, ◌≤◌, String, Bool, true, false, ◌&&◌, List, ◌++◌, Option, none,
  some, get_or, ◌≡◌, refl, arith, if◌then◌else◌, ltb, leb, eqb, length, present, truthy, All,
  Bool-cases, Option-cases, inl, inr,
}
use agent_workflow_platform.Chat.Types.{ChatMessage, Thread, UploadedFileRef, Now}
use agent_workflow_platform.Chat.State.{Chat}
use agent_workflow_platform.Chat.Threads.{inject_welcome}
use agent_workflow_platform.Chat.Transport.{Runtime}
use agent_workflow_platform.Chat.Session.{remove_at, stop_session, stop_streaming}

-- `attachUpload`
unfoldable pub attach_upload : UploadedFileRef → Chat → Chat
attach_upload f s = record s { pending_attachments = s.pending_attachments ++ List.◌∷◌ f List.[] }

-- `removeAttachment`, for a position that is not negative
unfoldable pub remove_attachment : ℕ → Chat → Chat
unfolding remove_at
remove_attachment i s =
    if ltb i (length s.pending_attachments)
    then record s { pending_attachments = remove_at i s.pending_attachments }
    else s

-- `clearAttachments`
unfoldable pub clear_attachments : Chat → Chat
clear_attachments s = record s { pending_attachments = List.[] }

-- `selectModel`
unfoldable pub select_model : String → Chat → Chat
select_model id s = record s { selected_model = id }

-- What `getConversation` answers to `loadConversation`: the messages and the model, or an error.
pub data LoadAnswer : Type 0 where
  loaded : List ChatMessage → String → LoadAnswer
  failed : String → LoadAnswer

-- `loadConversation`
unfoldable pub load_conversation : String → LoadAnswer → Chat → Chat
load_conversation id (loaded messages model) s = record s {
  error = none;
  current_conversation_id = some id;
  current_messages = messages;
  selected_model = model;
}
load_conversation id (failed message) s = record s { error = some message }

abbrev digit_value : ℕ → Option ℕ
digit_value c = if leb b'0' c && leb c b'9' then some (c - b'0') else none

-- the value of the digits at the front, behind a number
digits_behind : ℕ → String → ℕ
digits_behind n [] = n
digits_behind n (c ∷ s) = elim (digit_value (code c)) [
  | none ↦ n
  | some d ↦ digits_behind (10 * n + d) s
]

-- `(\d+)` at the front
leading_number : String → Option ℕ
leading_number [] = none
leading_number (c ∷ s) = elim (digit_value (code c)) [
  | none ↦ none
  | some d ↦ some (digits_behind d s)
]

behind_prefix : String → String → Option String
behind_prefix [] s = some s
behind_prefix (c ∷ t) [] = none
behind_prefix (c ∷ t) (d ∷ s) = if eqb (code c) (code d) then behind_prefix t s else none

number_behind : Option String → Option ℕ
number_behind none = none
number_behind (some s) = leading_number s

-- The number in the first match of `/thread-(\d+)/`.
unfoldable pub thread_number : String → Option ℕ
unfolding digits_behind leading_number behind_prefix number_behind
thread_number [] = none
thread_number (c ∷ s) =
    let later = thread_number s in
    elim (number_behind (behind_prefix "thread-" (c ∷ s))) [ some n ↦ some n | none ↦ later ]

abbrev pub larger : ℕ → ℕ → ℕ
larger m n = if leb m n then n else m

-- `maxId`, from the threads behind
unfoldable pub max_number : ℕ → List Thread → ℕ
max_number n List.[] = n
max_number n (List.◌∷◌ t ts) = max_number (larger n (get_or (thread_number t.id) 0)) ts

-- A thread without a conversation id is given a fresh one.
unfoldable pub migrate : (ℕ → String) → List Thread → List Thread
migrate fresh List.[] = List.[]
migrate fresh (List.◌∷◌ t ts) =
    List.◌∷◌
      (if present t.conversation_id then t else record t { conversation_id = some (fresh 0) })
      (migrate (λ k. fresh (suc k)) ts)

pub record Loaded : Type 0 where
  pub threads : List Thread
  pub counter : ℕ

unfoldable pub first_thread : Now → Chat → Thread
first_thread now s = record {
  id = "thread-1";
  conversation_id = some now.uuid;
  title = s.locale.default_thread_title;
  messages = inject_welcome s.locale;
  model = "";
  created_at = now.iso;
  updated_at = now.iso;
  cc_session_id = none;
  is_streaming = false;
  bg_streaming_reply = none;
  bg_session_id = none;
  bg_conv_id = none;
  cc_todo_list = none;
  cc_status = none;
  stream_started_at = none;
  stream_error_chunk = none;
}

-- `_loadPersistedThreads` with the parsed list, or none where there is none or it cannot be read
unfoldable pub load_persisted_threads : (ℕ → String) → Now → Option (List Thread) → Chat → Loaded
unfolding first_thread migrate max_number
load_persisted_threads fresh now none s = record {
  threads = List.◌∷◌ (first_thread now s) List.[];
  counter = 2;
}
load_persisted_threads fresh now (some List.[]) s = record {
  threads = List.◌∷◌ (first_thread now s) List.[];
  counter = 2;
}
load_persisted_threads fresh now (some (List.◌∷◌ t ts)) s = record {
  threads = migrate fresh (List.◌∷◌ t ts);
  counter = max_number 1 (List.◌∷◌ t ts) + 1;
}

abbrev first_id : List Thread → String
first_id List.[] = "thread-1"
first_id (List.◌∷◌ t ts) = if truthy t.id then t.id else "thread-1"

abbrev first_messages : List Thread → List ChatMessage
first_messages List.[] = List.[]
first_messages (List.◌∷◌ t ts) = t.messages

-- `onUserChanged` with the threads of the new user
unfoldable pub on_user_changed : Runtime → Loaded → Chat → Chat
unfolding stop_streaming stop_session
on_user_changed rt fresh s = record (stop_session rt (stop_streaming rt s)) {
  got_cc_done = false;
  threads = fresh.threads;
  thread_counter = fresh.counter;
  active_thread_id = first_id fresh.threads;
  current_conversation_id = none;
  current_messages = first_messages fresh.threads;
  streaming_reply = "";
  error = none;
}
