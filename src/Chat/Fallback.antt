-- ===== src/Chat/Fallback.antt =====
-- The fallback to HTTP after a crash of the local agent (`_retryViaHttpAfterCcCrash` and the handlers
-- of apps/desktop/src/stores/chat.ts).
mod Frame
use agent_workflow_platform.Prelude.{
  if◌then◌else◌, ℕ, ◌+◌, ◌≤◌, String, Bool, true, false, List, [], ◌∷◌, ◌++◌, map, Option, none,
  some, ◌≡◌, ◌⊎◌, refl, arith, get_elem?, find_index?, option_is, ◌∙◌, sym, ap, Bool-cases,
  Option-cases, inl, inr, present, truthy, trim, get_or, is_some, ◌&&◌, ◌||◌, not,
}
use agent_workflow_platform.Chat.Types.{
  Thread, Now, Chunk, ChunkSource, ChunkTarget, ErrorInfo, TodoItem,
}
use agent_workflow_platform.Chat.State.{
  Chat, emit, persist_threads, set_thread, modify_thread, modify_thread?, thread_index,
  persist_assistant_bubble, sync_thread_messages, update_context_usage,
}
use agent_workflow_platform.Chat.Background.{
  ingest_background_chunk, background_commit, background_thread, background_text_or_resume,
  background_stream, background_resume, patch_session, accumulate, is_finished,
}
use agent_workflow_platform.Chat.ErrorChunk.{extract_error_chunk}
use agent_workflow_platform.Chat.Route.{runs_on, resolve_chunk_target}
use agent_workflow_platform.Chat.Ingest.{
  ingest_chunk, ingest_active, ingest_error, ingest_status, ingest_text, capture_session,
  finish_stream, finish_reply, flush_reply, error_text, pin_owner, pin_session, patch_owner,
  end_stream, final_message, append_text, link_conversation, by_target,
}
use agent_workflow_platform.Chat.Transport.{Runtime, send_via_http, should_route_local_cc}
use agent_workflow_platform.Chat.Session.{
  retry_via_http_after_cc_crash, SessionExit, session_exit, view_exit, background_exit,
}
use agent_workflow_platform.Chat.Dispatch.{is_request, count}
use agent_workflow_platform.Chat.Fallback.Frame.{Kept, Kept-refl, commit-Kept, ingest_chunk-Kept}

-- What may happen in a turn that the user has started: text arrives, or the local agent exits.
pub data TurnEvent : Type 0 where
  arrived : Now → Chunk → ChunkSource → TurnEvent
  exited : Now → SessionExit → TurnEvent

abbrev pub turn_step : Runtime → TurnEvent → Chat → Chat
turn_step rt (arrived now chunk source) s = ingest_chunk now chunk source s
turn_step rt (exited now x) s = session_exit rt now x s

abbrev pub turn_steps : Runtime → List TurnEvent → Chat → Chat
turn_steps rt [] s = s
turn_steps rt (e ∷ es) s = turn_steps rt es (turn_step rt e s)

-- The requests over HTTP so far, and the one that the fallback may still send.
abbrev pub allowance : Chat → ℕ
allowance s = count is_request s.effects + (if s.cc_fallback_used then 0 else 1)

allowance-Kept : (s r : Chat) → Kept s r → allowance r ≤ allowance s
allowance-Kept s r v = ground (arith, v.requests, v.used)

retry-allowance :
    (now : Now) (s : Chat) → allowance (retry_via_http_after_cc_crash now s) ≤ allowance s
unfolding retry_via_http_after_cc_crash send_via_http
retry-allowance now s = ground arith

view_exit-Kept : (x : SessionExit) (s : Chat) → Kept s (view_exit x s)
unfolding view_exit
view_exit-Kept x s = record { requests = refl; used = refl }

background_exit-Kept : (now : Now) (x : SessionExit) (s : Chat) → Kept s (background_exit now x s)
unfolding background_exit
background_exit-Kept now x s = elim (Option-cases (find_index? (runs_on x.session_id) s.threads)) [
  | inl e ↦ rw (e, background_exit) (Kept-refl s)
  | inr (i, e) ↦
      rw (e, background_exit)
        (elim (Option-cases (get_elem? s.threads i)) [
          | inl f ↦ rw f (Kept-refl s)
          | inr (t, f) ↦ rw f (commit-Kept now i t s)
        ])
]

allowance-if :
    (n : ℕ) (test : Bool) (x y : Chat)
    → allowance x ≤ n
    → allowance y ≤ n
    → allowance (if test then x else y) ≤ n
allowance-if n true x y h k = h
allowance-if n false x y h k = k

exit-allowance :
    (rt : Runtime) (now : Now) (x : SessionExit) (s : Chat)
    → allowance (session_exit rt now x s) ≤ allowance s
unfolding session_exit
exit-allowance rt now x s =
    let left = allowance-Kept s (view_exit x s) (view_exit-Kept x s) in
    let again = retry-allowance now (view_exit x s) in
    allowance-if (allowance s) (option_is s.cc_session_id x.session_id) _ _
      (allowance-if (allowance s)
        (not s.got_cc_done && should_route_local_cc rt && present s.last_sent_content_sig) _ _
        (omega (arith, left, again)) left)
      (allowance-Kept s (background_exit now x s) (background_exit-Kept now x s))

turn_steps-allowance :
    (rt : Runtime) (es : List TurnEvent) (s : Chat) → allowance (turn_steps rt es s) ≤ allowance s
turn_steps-allowance rt [] s = omega arith
turn_steps-allowance rt (arrived now chunk source ∷ es) s = omega (
  arith,
  turn_steps-allowance rt es (ingest_chunk now chunk source s),
  allowance-Kept s (ingest_chunk now chunk source s) (ingest_chunk-Kept now chunk source s),
)
turn_steps-allowance rt (exited now x ∷ es) s =
    omega (arith, turn_steps-allowance rt es (session_exit rt now x s), exit-allowance rt now x s)

-- However often sessions of the local agent exit after a message of the user, and whatever chunks
-- arrive in between, the turn is sent again over HTTP at most once, and not at all if it has fallen
-- back before.
pub requests-turn_steps :
    (rt : Runtime) (es : List TurnEvent) (s : Chat)
    → count is_request (turn_steps rt es s).effects
      ≤ count is_request s.effects + (if s.cc_fallback_used then 0 else 1)
requests-turn_steps rt es s = omega (arith, turn_steps-allowance rt es s)
