-- ===== src/Chat/Identity.antt =====
-- Ids and native sessions, which a later turn resumes, when threads are chosen and made
-- (apps/desktop/src/stores/chat.ts).
pub mod Stream
pub mod Select
use agent_workflow_platform.Prelude.{
  ℕ, ◌+◌, String, Bool, true, false, List, [], ◌∷◌, map, map-set, Option, none, some, ◌≡◌, refl,
  arith, ◌∙◌, ap, get_elem?, if◌then◌else◌, Option-cases, Bool-cases, inl, inr, present, decimal,
  ◌⧺◌, ◌==◌, length,
}
use agent_workflow_platform.Chat.Types.{Thread, Now}
use agent_workflow_platform.Chat.State.{
  Chat, persist_threads, set_thread, modify_thread, modify_thread?, thread_index,
  sync_thread_messages,
}
use agent_workflow_platform.Chat.Threads.{
  park_conversation_state, detached, detach_active_stream_to_thread, ensure_conv_id, new_thread,
  open_thread, park_active, create_thread, leave_active, show_panel, project_conversation,
  thread_at, select_begin,
}

-- A thread's id and its native session.
abbrev pub identity : Thread → String × Option String
identity t = (t.id, t.cc_session_id)

-- The threads have the ids and native sessions of before, in the same order.
abbrev pub SameIdentities : Chat → Chat → Type 0
SameIdentities s r = map identity r.threads ≡ map identity s.threads

pub modify_thread?-SameIdentities :
    (f : Thread → Thread) (o : Option ℕ) (s : Chat)
    → ((t : Thread) → identity (f t) ≡ identity t)
    → SameIdentities s (modify_thread? o f s)
unfolding modify_thread? modify_thread
modify_thread?-SameIdentities f none s h = refl
modify_thread?-SameIdentities f (some i) s h = elim (Option-cases (get_elem? s.threads i)) [
  | inl e ↦ rw (e, modify_thread) refl
  | inr (t, e) ↦ rw (e, modify_thread) (map-set identity s.threads i t (f t) e (h t))
]

pub persist_threads-SameIdentities : (s : Chat) → SameIdentities s (persist_threads s)
unfolding persist_threads
persist_threads-SameIdentities s = ground arith

pub SameIdentities-if :
    (test : Bool) (s x y : Chat)
    → SameIdentities s x
    → SameIdentities s y
    → SameIdentities s (if test then x else y)
SameIdentities-if true s x y v w = v
SameIdentities-if false s x y v w = w

detach-SameIdentities : (s : Chat) → SameIdentities s (detach_active_stream_to_thread s)
unfolding detach_active_stream_to_thread detached
detach-SameIdentities s =
    SameIdentities-if s.is_streaming s _ s
      (modify_thread?-SameIdentities (detached s) (thread_index s.active_thread_id s.threads) s
        (λ t. refl))
      refl

leave-SameIdentities : (s : Chat) → SameIdentities s (leave_active s)
unfolding leave_active park_conversation_state
leave-SameIdentities s =
    modify_thread?-SameIdentities _ (thread_index s.active_thread_id s.threads) s (λ t. refl)

ensure-SameIdentities :
    (now : Now) (i : ℕ) (t : Thread) (s : Chat)
    → get_elem? s.threads i ≡ some t
    → SameIdentities s (ensure_conv_id now i t s)
unfolding ensure_conv_id
ensure-SameIdentities now i t s e = elim (Bool-cases (present t.conversation_id)) [
  | inl old ↦ rw (old, ensure_conv_id) refl
  | inr new ↦
      rw (new, ensure_conv_id)
        (persist_threads-SameIdentities
            (set_thread i (record t { conversation_id = some now.uuid }) s)
          ∙ map-set identity s.threads i t (record t { conversation_id = some now.uuid }) e refl)
]

project-SameIdentities :
    (now : Now) (o : Option ℕ) (s : Chat)
    → SameIdentities s (project_conversation now o (thread_at o s.threads) s)
unfolding project_conversation
project-SameIdentities now none s = refl
project-SameIdentities now (some i) s = elim (Option-cases (get_elem? s.threads i)) [
  | inl e ↦ rw (e, project_conversation) refl
  | inr (t, e) ↦ rw (e, project_conversation) (ensure-SameIdentities now i t s e)
]

show-SameIdentities : (o : Option Thread) (s : Chat) → SameIdentities s (show_panel o s)
unfolding show_panel
show-SameIdentities none s = refl
show-SameIdentities (some t) s = refl

-- Choosing another thread changes neither the id nor the native session of any thread, whatever
-- streams.
pub select_begin-SameIdentities :
    (now : Now) (id : String) (s : Chat) → SameIdentities s (select_begin now id s)
unfolding select_begin
select_begin-SameIdentities now id s = elim (Bool-cases (s.active_thread_id == id)) [
  | inl same ↦ rw (same, select_begin) refl
  | inr other ↦
      let away = detach_active_stream_to_thread s in
      let left : Chat = record (leave_active away) { active_thread_id = id } in
      let k = thread_index id left.threads in
      rw (other, select_begin)
        (show-SameIdentities (thread_at k left.threads)
            (project_conversation now k (thread_at k left.threads) left)
          ∙ project-SameIdentities now k left
          ∙ leave-SameIdentities away
          ∙ detach-SameIdentities s)
]

park-SameIdentities : (s : Chat) → SameIdentities s (park_active s)
unfolding park_active park_conversation_state
park-SameIdentities s =
    modify_thread?-SameIdentities _ (thread_index s.active_thread_id s.threads) s (λ t. refl)

pub sync-SameIdentities : (now : Now) (s : Chat) → SameIdentities s (sync_thread_messages now s)
unfolding sync_thread_messages
sync-SameIdentities now s =
    persist_threads-SameIdentities _
    ∙ modify_thread?-SameIdentities _ (thread_index s.active_thread_id s.threads) s (λ t. refl)

counter-modify_thread? :
    (f : Thread → Thread) (o : Option ℕ) (s : Chat)
    → (modify_thread? o f s).thread_counter ≡ s.thread_counter
unfolding modify_thread? modify_thread
counter-modify_thread? f none s = refl
counter-modify_thread? f (some i) s = ground arith

counter-persist_threads : (s : Chat) → (persist_threads s).thread_counter ≡ s.thread_counter
unfolding persist_threads
counter-persist_threads s = ground arith

counter-detach : (s : Chat) → (detach_active_stream_to_thread s).thread_counter ≡ s.thread_counter
unfolding detach_active_stream_to_thread
counter-detach s =
    ground
      (arith, counter-modify_thread? (detached s) (thread_index s.active_thread_id s.threads) s)

counter-same :
    (now : Now) (s : Chat)
    → (sync_thread_messages now (park_active (detach_active_stream_to_thread s))).thread_counter
      ≡ s.thread_counter
unfolding sync_thread_messages park_active
counter-same now s =
    counter-persist_threads _
    ∙ counter-modify_thread? _ _ (park_active (detach_active_stream_to_thread s))
    ∙ counter-modify_thread? _ _ (detach_active_stream_to_thread s)
    ∙ counter-detach s

-- A new thread comes first, with the next number and without a native session; all others keep their
-- ids and native sessions.
pub identities-create_thread :
    (now : Now) (s : Chat)
    → map identity (create_thread now s).threads
      ≡ ("thread-" ⧺ decimal s.thread_counter, none) ∷ map identity s.threads
unfolding create_thread open_thread new_thread
identities-create_thread now s =
    let away = detach_active_stream_to_thread s in
    let parked = park_active away in
    let left = sync_thread_messages now parked in
    let id = "thread-" ⧺ decimal left.thread_counter in
    persist_threads-SameIdentities (open_thread (new_thread now id left) left)
    ∙ ap (λ n. ("thread-" ⧺ decimal n, none) ∷ map identity left.threads) (counter-same now s)
    ∙ ap (◌∷◌ ("thread-" ⧺ decimal s.thread_counter, none))
        (sync-SameIdentities now parked ∙ park-SameIdentities away ∙ detach-SameIdentities s)
