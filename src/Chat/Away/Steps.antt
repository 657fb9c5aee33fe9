-- ===== src/Chat/Away/Steps.antt =====
-- The two parts of `selectThread`, and text that arrives, beside a stream in the background
-- (chat.ts).
use agent_workflow_platform.Prelude.{
  ℕ, String, Option, none, some, ◌≡◌, refl, arith, get_elem?, ◌∙◌, Option-cases, inl, inr,
}
use agent_workflow_platform.Chat.Types.{Thread, Now}
use agent_workflow_platform.Chat.State.{
  Chat, persist_threads, modify_thread, modify_thread?, thread_index,
}
use agent_workflow_platform.Chat.Threads.{
  leave_active, ensure_conv_id, show_panel, project_conversation, thread_at, RemoteConversation,
  merge_messages, merge_session, choose_model, at_thread,
}
use agent_workflow_platform.Chat.Away.Frames.{
  Beside, leave_active-Beside, project_conversation-Beside, show_panel-Beside,
  merge_messages-Beside, merge_session-Beside,
}

-- The part of `selectThread` behind the detachment.
abbrev pub moved : Now → String → Chat → Chat
moved now id s =
    let left = record (leave_active s) { active_thread_id = id } in
    let k = thread_index id left.threads in
    let target = thread_at k left.threads in
    show_panel target (project_conversation now k target left)

-- The part of `select_finish` before the restoration.
abbrev pub merged : Option ℕ → Option RemoteConversation → Chat → Chat
merged k answer s =
    at_thread k (λ l t. merge_session l t answer)
      (at_thread k (λ _ t. choose_model t) (merge_messages k (thread_at k s.threads) answer s))

module _ (sid a b : String) (i j : ℕ) (reply : String) where
  pub moved-Beside :
      (now : Now) (id : String) (s : Chat)
      → Beside sid a b i j reply s
      → Beside sid a b i j reply (moved now id s)
  moved-Beside now id s v =
      let left : Chat = record (leave_active s) { active_thread_id = id } in
      let k = thread_index id left.threads in
      show_panel-Beside sid a b i j reply (thread_at k left.threads)
        (project_conversation now k (thread_at k left.threads) left)
        (project_conversation-Beside sid a b i j reply now k left
          (leave_active-Beside sid a b i j reply s v))

  choose_model-Beside :
      (o : Option ℕ) (s : Chat)
      → Beside sid a b i j reply s
      → Beside sid a b i j reply (at_thread o (λ _ t. choose_model t) s)
  unfolding at_thread choose_model
  choose_model-Beside none s v = v
  choose_model-Beside (some k) s v = elim (Option-cases (get_elem? s.threads k)) [
    | inl e ↦ rw (e, at_thread) v
    | inr (t, e) ↦ rw (e, at_thread) v
  ]

  session-Beside :
      (o : Option ℕ) (answer : Option RemoteConversation) (s : Chat)
      → Beside sid a b i j reply s
      → Beside sid a b i j reply (at_thread o (λ k t. merge_session k t answer) s)
  unfolding at_thread
  session-Beside none answer s v = v
  session-Beside (some k) answer s v = elim (Option-cases (get_elem? s.threads k)) [
    | inl e ↦ rw (e, at_thread) v
    | inr (t, e) ↦ rw (e, at_thread) (merge_session-Beside sid a b i j reply k t answer s e v)
  ]

  pub merged-Beside :
      (k : Option ℕ) (answer : Option RemoteConversation) (s : Chat)
      → Beside sid a b i j reply s
      → Beside sid a b i j reply (merged k answer s)
  merged-Beside k answer s v = session-Beside k answer _ (
      choose_model-Beside k _
        (merge_messages-Beside sid a b i j reply k (thread_at k s.threads) answer s v))

active-at_thread :
    (k : Option ℕ) (f : ℕ → Thread → Chat → Chat) (s : Chat)
    → ((l : ℕ) (t : Thread) → (f l t s).active_thread_id ≡ s.active_thread_id)
    → (at_thread k f s).active_thread_id ≡ s.active_thread_id
unfolding at_thread
active-at_thread none f s h = refl
active-at_thread (some l) f s h = elim (Option-cases (get_elem? s.threads l)) [
  | inl e ↦ rw (e, at_thread) refl
  | inr (t, e) ↦ rw (e, at_thread) (h l t)
]

active-merge_messages :
    (k : Option ℕ) (target : Option Thread) (answer : Option RemoteConversation) (s : Chat)
    → (merge_messages k target answer s).active_thread_id ≡ s.active_thread_id
unfolding merge_messages modify_thread? modify_thread
active-merge_messages none target answer s = ground arith
active-merge_messages (some l) target answer s = ground arith

active-merge_session :
    (l : ℕ) (t : Thread) (answer : Option RemoteConversation) (s : Chat)
    → (merge_session l t answer s).active_thread_id ≡ s.active_thread_id
unfolding merge_session persist_threads
active-merge_session l t answer s = ground arith

-- Which thread is on view does not change with the answer.
pub active-merged :
    (k : Option ℕ) (answer : Option RemoteConversation) (s : Chat)
    → (merged k answer s).active_thread_id ≡ s.active_thread_id
unfolding choose_model
active-merged k answer s =
    active-at_thread k (λ l t. merge_session l t answer) _
      (λ l t. active-merge_session l t answer _)
    ∙ active-at_thread k (λ _ t. choose_model t) _ (λ l t. refl)
    ∙ active-merge_messages k (thread_at k s.threads) answer s

active-show_panel :
    (t : Option Thread) (s : Chat) → (show_panel t s).active_thread_id ≡ s.active_thread_id
unfolding show_panel
active-show_panel none s = refl
active-show_panel (some t) s = refl

active-project_conversation :
    (now : Now) (k : Option ℕ) (t : Option Thread) (s : Chat)
    → (project_conversation now k t s).active_thread_id ≡ s.active_thread_id
unfolding project_conversation ensure_conv_id persist_threads
active-project_conversation now none t s = refl
active-project_conversation now (some k) none s = refl
active-project_conversation now (some k) (some t) s = ground arith

pub active-moved : (now : Now) (id : String) (s : Chat) → (moved now id s).active_thread_id ≡ id
active-moved now id s =
    active-show_panel _ _
    ∙ active-project_conversation now _ _ (record (leave_active s) { active_thread_id = id })
