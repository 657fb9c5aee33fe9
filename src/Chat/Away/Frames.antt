-- ===== src/Chat/Away/Frames.antt =====
-- What the parts of `selectThread` keep of a stream in the background (chat.ts).
use mathlib.Core.Path.{subst}
use agent_workflow_platform.Prelude.{
  if◌then◌else◌, ℕ, String, List, Option, none, some, ◌≡◌, inl, inr, refl, arith, get_elem?,
  option_is, sym, Bool-cases, Option-cases, present, not, ◌&&◌, ◌||◌,
}
use agent_workflow_platform.Chat.Types.{ChatMessage, Thread, Now}
use agent_workflow_platform.Chat.State.{
  Chat, persist_threads, set_thread, modify_thread, modify_thread?, thread_index,
}
use agent_workflow_platform.Chat.Threads.{
  park_conversation_state, ensure_conv_id, leave_active, show_panel, project_conversation,
  thread_at, RemoteConversation, has_messages, remote_messages, remote_updated_at, remote_session,
  remote_is_newer, adopt_messages, local_messages, local_updated_at, merge_messages, merge_session,
}
use agent_workflow_platform.Chat.Away.Apart.{SameStream, Apart, Apart-keep}

threads-persist_threads : (s : Chat) → (persist_threads s).threads ≡ s.threads
unfolding persist_threads
threads-persist_threads s = ground arith

module _ (sid a b : String) (i j : ℕ) (reply : String) where
  abbrev pub Beside : Chat → Type 0
  Beside s = Apart sid a b i j reply s.threads

  -- The threads of two states are the same.
  pub Beside-same : (s s' : Chat) → s'.threads ≡ s.threads → Beside s → Beside s'
  Beside-same s s' e v = subst (λ ts. Apart sid a b i j reply ts) (sym e) v

  pub persist_threads-Beside : (s : Chat) → Beside s → Beside (persist_threads s)
  persist_threads-Beside s v = Beside-same s (persist_threads s) (threads-persist_threads s) v

  pub modify_thread?-Beside :
      (f : Thread → Thread) (o : Option ℕ) (s : Chat)
      → ((t : Thread) → SameStream t (f t))
      → Beside s
      → Beside (modify_thread? o f s)
  unfolding modify_thread? modify_thread
  modify_thread?-Beside f none s same v = v
  modify_thread?-Beside f (some k) s same v = elim (Option-cases (get_elem? s.threads k)) [
    | inl e ↦ rw (e, modify_thread) v
    | inr (t, e) ↦ rw (e, modify_thread) (Apart-keep v k t (f t) e (same t))
  ]

  pub leave_active-Beside : (s : Chat) → Beside s → Beside (leave_active s)
  unfolding leave_active park_conversation_state
  leave_active-Beside s v =
      modify_thread?-Beside _ (thread_index s.active_thread_id s.threads) s
        (λ t. record { id = refl; is_streaming = refl; reply = refl; session = refl }) v

  pub ensure_conv_id-Beside :
      (now : Now) (k : ℕ) (t : Thread) (s : Chat)
      → get_elem? s.threads k ≡ some t
      → Beside s
      → Beside (ensure_conv_id now k t s)
  unfolding ensure_conv_id
  ensure_conv_id-Beside now k t s e v = elim (Bool-cases (present t.conversation_id)) [
    | inl old ↦ rw (old, ensure_conv_id) v
    | inr new ↦
        rw (new, ensure_conv_id)
          (persist_threads-Beside (set_thread k (record t { conversation_id = some now.uuid }) s) (
            Apart-keep v k t (record t { conversation_id = some now.uuid }) e
              (record { id = refl; is_streaming = refl; reply = refl; session = refl })))
  ]

  pub project_conversation-Beside :
      (now : Now) (o : Option ℕ) (s : Chat)
      → Beside s
      → Beside (project_conversation now o (thread_at o s.threads) s)
  unfolding project_conversation
  project_conversation-Beside now none s v = v
  project_conversation-Beside now (some k) s v = elim (Option-cases (get_elem? s.threads k)) [
    | inl e ↦ rw (e, project_conversation) v
    | inr (t, e) ↦ rw (e, project_conversation) (ensure_conv_id-Beside now k t s e v)
  ]

  pub show_panel-Beside : (o : Option Thread) (s : Chat) → Beside s → Beside (show_panel o s)
  unfolding show_panel
  show_panel-Beside none s v = v
  show_panel-Beside (some t) s v = v

  taken :
      (o : Option ℕ) (ms : List ChatMessage) (answer : Option RemoteConversation) (s : Chat)
      → Beside s
      → Beside (modify_thread? o (adopt_messages ms (remote_updated_at answer)) s)
  unfolding adopt_messages
  taken o ms answer s v =
      modify_thread?-Beside (adopt_messages ms (remote_updated_at answer)) o s
        (λ t. record { id = refl; is_streaming = refl; reply = refl; session = refl }) v

  pub merge_messages-Beside :
      (o : Option ℕ) (target : Option Thread) (answer : Option RemoteConversation) (s : Chat)
      → Beside s
      → Beside (merge_messages o target answer s)
  unfolding merge_messages
  merge_messages-Beside o target answer s v = elim (Option-cases (remote_messages answer)) [
    | inl e ↦ rw (e, merge_messages) v
    | inr (ms, e) ↦
        rw (e, merge_messages)
          (elim (Bool-cases (has_messages (local_messages target))) [
            | inl old ↦
                rw (old, if◌then◌else◌)
                  (elim (Bool-cases
                    (remote_is_newer (remote_updated_at answer) (local_updated_at target))) [
                      | inl newer ↦ rw (newer, if◌then◌else◌) (taken o ms answer s v)
                      | inr older ↦ rw (older, if◌then◌else◌) v
                    ])
            | inr empty ↦ rw (empty, if◌then◌else◌) (taken o ms answer s v)
          ])
  ]

  pub merge_session-Beside :
      (k : ℕ) (t : Thread) (answer : Option RemoteConversation) (s : Chat)
      → get_elem? s.threads k ≡ some t
      → Beside s
      → Beside (merge_session k t answer s)
  unfolding merge_session
  merge_session-Beside k t answer s e v = elim (Option-cases (remote_session answer)) [
    | inl f ↦ rw (f, merge_session) v
    | inr (remote, f) ↦
        let adopted : Beside
            (persist_threads (set_thread k (record t { cc_session_id = some remote }) s)) =
          persist_threads-Beside (set_thread k (record t { cc_session_id = some remote }) s) (
            Apart-keep v k t (record t { cc_session_id = some remote }) e
              (record { id = refl; is_streaming = refl; reply = refl; session = refl })) in
        rw (f, merge_session)
          (elim (Bool-cases (
            (not (present t.cc_session_id)
              || remote_is_newer (remote_updated_at answer) t.updated_at)
            && not (option_is t.cc_session_id remote))) [
              | inl w ↦ rw (w, if◌then◌else◌) adopted
              | inr w ↦ rw (w, if◌then◌else◌) v
            ])
  ]
