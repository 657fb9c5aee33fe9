-- ===== src/Chat/Fallback/Frame.antt =====
-- Chunks, the requests that were sent, and the mark that the turn has fallen back (`_ingestChunk` of
-- apps/desktop/src/stores/chat.ts).
use agent_workflow_platform.Prelude.{
  if◌then◌else◌, ℕ, String, Bool, true, false, [], ◌∷◌, ◌++◌, map, Option, none, some, ◌≡◌, refl,
  arith, get_elem?, option_is, ◌∙◌, Option-cases, inl, inr, present, truthy, trim, ◌&&◌,
}
use agent_workflow_platform.Chat.Types.{
  Thread, Now, Chunk, ChunkSource, ChunkTarget, ErrorInfo, TodoItem,
}
use agent_workflow_platform.Chat.State.{
  Chat, emit, persist_threads, set_thread, modify_thread, modify_thread?, persist_assistant_bubble,
  sync_thread_messages, update_context_usage,
}
use agent_workflow_platform.Chat.Background.{
  ingest_background_chunk, background_commit, background_thread, background_text_or_resume,
  background_stream, background_resume, patch_session, accumulate, is_finished,
}
use agent_workflow_platform.Chat.ErrorChunk.{extract_error_chunk}
use agent_workflow_platform.Chat.Route.{resolve_chunk_target}
use agent_workflow_platform.Chat.Ingest.{
  ingest_chunk, ingest_active, ingest_error, ingest_status, ingest_text, capture_session,
  finish_stream, finish_reply, flush_reply, error_text, pin_owner, pin_session, patch_owner,
  end_stream, final_message, append_text, link_conversation, by_target,
}
use agent_workflow_platform.Chat.Dispatch.{is_request, count}

pub record Kept (s r : Chat) : Type 0 where
  pub requests : count is_request r.effects ≡ count is_request s.effects
  pub used : r.cc_fallback_used ≡ s.cc_fallback_used

pub Kept-refl : (s : Chat) → Kept s s
Kept-refl s = record { requests = refl; used = refl }

Kept-trans : (s x r : Chat) → Kept s x → Kept x r → Kept s r
Kept-trans s x r v w = record { requests = w.requests ∙ v.requests; used = w.used ∙ v.used }

pub Kept-if : (test : Bool) (s x y : Chat) → Kept s x → Kept s y → Kept s (if test then x else y)
Kept-if true s x y v w = v
Kept-if false s x y v w = w

persist_threads-Kept : (s : Chat) → Kept s (persist_threads s)
unfolding persist_threads
persist_threads-Kept s = record { requests = ground arith; used = ground arith }

modify_thread?-Kept :
    (f : Thread → Thread) (o : Option ℕ) (s : Chat) → Kept s (modify_thread? o f s)
unfolding modify_thread? modify_thread
modify_thread?-Kept f none s = Kept-refl s
modify_thread?-Kept f (some i) s = record { requests = ground arith; used = ground arith }

sync_thread_messages-Kept : (now : Now) (s : Chat) → Kept s (sync_thread_messages now s)
unfolding sync_thread_messages
sync_thread_messages-Kept now s =
    Kept-trans s _ _ (modify_thread?-Kept _ _ s) (persist_threads-Kept _)

bubble-Kept :
    (conv : Option String) (content : String) (s : Chat)
    → Kept s (persist_assistant_bubble conv content s)
unfolding persist_assistant_bubble emit
bubble-Kept none content s = Kept-refl s
bubble-Kept (some conv) content s = record { requests = ground arith; used = ground arith }

pub commit-Kept : (now : Now) (i : ℕ) (t : Thread) (s : Chat) → Kept s (background_commit now i t s)
unfolding background_commit
commit-Kept now i t s = record { requests = ground arith; used = ground arith }

resume-Kept : (i : ℕ) (t : Thread) (id : String) (s : Chat) → Kept s (background_resume i t id s)
unfolding background_resume patch_session emit persist_threads
resume-Kept i t id s = record { requests = ground arith; used = ground arith }

stream-Kept :
    (now : Now) (i : ℕ) (t : Thread) (chunk : Chunk) (s : Chat)
    → Kept s (background_stream now i t chunk s)
unfolding background_stream
stream-Kept now i t chunk s =
    elim (extract_error_chunk chunk)
      as (λ o. Kept s (elim o [
        | some e ↦ background_commit now i t s
        | none ↦
            if is_finished chunk
            then background_commit now i (accumulate chunk t) s
            else set_thread i (accumulate chunk t) s
      ])) [
        | some e ↦ commit-Kept now i t s
        | none ↦
            Kept-if (is_finished chunk) s _ _ (commit-Kept now i (accumulate chunk t) s)
              (record { requests = refl; used = refl })
      ]

resume_or_stream-Kept :
    (now : Now) (i : ℕ) (t : Thread) (chunk : Chunk) (s : Chat)
    → Kept s (background_text_or_resume now i t chunk s)
unfolding background_text_or_resume
resume_or_stream-Kept now i t chunk s =
    Kept-if (option_is chunk.type "message_start") s _ _
      (elim (Option-cases chunk.cc_session_id) [
        | inl e ↦ rw e (stream-Kept now i t chunk s)
        | inr (id, e) ↦ rw e (resume-Kept i t id s)
      ])
      (stream-Kept now i t chunk s)

thread-Kept :
    (now : Now) (i : ℕ) (t : Thread) (chunk : Chunk) (s : Chat)
    → Kept s (background_thread now i t chunk s)
unfolding background_thread
thread-Kept now i t chunk s =
    Kept-if (option_is chunk.type "cc_status") s _ _ (record { requests = refl; used = refl })
      (resume_or_stream-Kept now i t chunk s)

background-Kept :
    (now : Now) (chunk : Chunk) (i : ℕ) (s : Chat) → Kept s (ingest_background_chunk now chunk i s)
unfolding ingest_background_chunk
background-Kept now chunk i s = elim (Option-cases (get_elem? s.threads i)) [
  | inl e ↦ rw (e, ingest_background_chunk) (Kept-refl s)
  | inr (t, e) ↦ rw (e, ingest_background_chunk) (thread-Kept now i t chunk s)
]

flush-Kept : (s : Chat) → Kept s (flush_reply s)
unfolding flush_reply
flush-Kept s =
    let v = bubble-Kept s.current_conversation_id s.streaming_reply s in
    record { requests = v.requests; used = v.used }

error-Kept : (e : ErrorInfo) (s : Chat) → Kept s (ingest_error e s)
unfolding ingest_error
error-Kept e s =
    let failed : Chat = record s {
      stream_error_chunk = some e;
      error = some (error_text e);
      is_streaming = false;
      stream_started_at = none;
    } in
    let v =
      Kept-if (truthy s.streaming_reply) s (flush_reply failed) failed
        (Kept-trans s failed _ (record { requests = refl; used = refl }) (flush-Kept failed))
        (record { requests = refl; used = refl }) in
    record { requests = v.requests; used = v.used }

status-Kept :
    (label : String) (tool : Option String) (s : Chat) → Kept s (ingest_status label tool s)
unfolding ingest_status
status-Kept label tool s =
    let v =
      Kept-if (truthy (trim s.streaming_reply)) s (flush_reply s) s (flush-Kept s) (Kept-refl s) in
    record { requests = v.requests; used = v.used }

pin-Kept :
    (conv : Option String) (id : String) (i : Option ℕ) (s : Chat) → Kept s (pin_owner conv id i s)
unfolding pin_owner pin_session patch_owner emit persist_threads
pin-Kept conv id none s = Kept-refl s
pin-Kept conv id (some i) s = record { requests = ground arith; used = ground arith }

capture-Kept :
    (chunk : Chunk) (target : Option ℕ) (s : Chat) → Kept s (capture_session chunk target s)
unfolding capture_session
capture-Kept chunk target s =
    Kept-if (option_is chunk.type "message_start") s _ s
      (elim (Option-cases chunk.cc_session_id) [
        | inl e ↦ rw e (Kept-refl s)
        | inr (id, e) ↦ rw e (pin-Kept chunk.conversation_id id _ s)
      ])
      (Kept-refl s)

finish_reply-Kept : (now : Now) (chunk : Chunk) (s : Chat) → Kept s (finish_reply now chunk s)
unfolding finish_reply end_stream update_context_usage
finish_reply-Kept now chunk s =
    let told = update_context_usage (
      end_stream (record s {
        current_messages = s.current_messages ++ final_message chunk s.streaming_reply ∷ [];
      })) in
    let listed : Chat = record told {
      cc_todo_list = map (λ (x : TodoItem). record x { done = true }) told.cc_todo_list;
      cc_status = "";
    } in
    let synced = sync_thread_messages now listed in
    Kept-trans s listed _ (record { requests = refl; used = refl })
      (Kept-trans listed synced _ (sync_thread_messages-Kept now listed)
        (bubble-Kept listed.current_conversation_id s.streaming_reply synced))

finish-Kept : (now : Now) (chunk : Chunk) (s : Chat) → Kept s (finish_stream now chunk s)
unfolding finish_stream end_stream
finish-Kept now chunk s =
    let seen : Chat = record s { got_cc_done = true } in
    Kept-if (is_finished chunk) s _ s
      (Kept-trans s seen _ (record { requests = refl; used = refl })
        (Kept-if (truthy (trim s.streaming_reply)) seen _ _ (finish_reply-Kept now chunk seen)
          (record { requests = refl; used = refl })))
      (Kept-refl s)

text-Kept :
    (now : Now) (chunk : Chunk) (target : Option ℕ) (s : Chat)
    → Kept s (ingest_text now chunk target s)
unfolding ingest_text link_conversation append_text
text-Kept now chunk target s =
    let x = append_text chunk s in
    let y = link_conversation chunk.conversation_id x in
    let z = capture_session chunk target y in
    Kept-trans s y _ (record { requests = ground arith; used = ground arith })
      (Kept-trans y z _ (capture-Kept chunk target y) (finish-Kept now chunk z))

active-Kept :
    (now : Now) (chunk : Chunk) (target : Option ℕ) (s : Chat)
    → Kept s (ingest_active now chunk target s)
unfolding ingest_active
active-Kept now chunk target s = elim (Option-cases (extract_error_chunk chunk)) [
  | inl e ↦
      rw (e, ingest_active)
        (Kept-if (option_is chunk.type "cc_status" && present chunk.label) s _ _
          (status-Kept _ chunk.tool s) (text-Kept now chunk target s))
  | inr (x, e) ↦ rw (e, ingest_active) (error-Kept x s)
]

target-Kept :
    (now : Now) (chunk : Chunk) (target : ChunkTarget) (s : Chat)
    → Kept s (by_target now chunk target s)
unfolding by_target
target-Kept now chunk target s =
    Kept-if target.is_active s _ _ (active-Kept now chunk target.thread s)
      (elim (Option-cases target.thread) [
        | inl e ↦ rw e (Kept-refl s)
        | inr (i, e) ↦ rw e (background-Kept now chunk i s)
      ])

-- A chunk neither sends a request over HTTP nor gives the fallback back.
pub ingest_chunk-Kept :
    (now : Now) (chunk : Chunk) (source : ChunkSource) (s : Chat)
    → Kept s (ingest_chunk now chunk source s)
unfolding ingest_chunk
ingest_chunk-Kept now chunk source s = target-Kept now chunk (resolve_chunk_target chunk source s) s
