-- ===== src/Chat/Identity/Stream.antt =====
-- Ids and native sessions when chunks arrive (`_ingestChunk` of chat.ts).
use agent_workflow_platform.Prelude.{
  ℕ, String, true, false, [], ◌∷◌, ◌++◌, map, map-set, Option, none, some, ◌≡◌, refl, arith, ◌∙◌,
  ap, get_elem?, Option-cases, inl, inr, present, truthy, trim, get_or, option_is, ◌&&◌,
}
use agent_workflow_platform.Chat.Types.{
  Thread, Now, Chunk, ChunkSource, ChunkTarget, ErrorInfo, TodoItem,
}
use agent_workflow_platform.Chat.State.{
  Chat, emit, set_thread, sync_thread_messages, persist_assistant_bubble, update_context_usage,
}
use agent_workflow_platform.Chat.ErrorChunk.{extract_error_chunk}
use agent_workflow_platform.Chat.Route.{resolve_chunk_target}
use agent_workflow_platform.Chat.Background.{
  background_status, accumulate, committed, background_commit, background_stream,
  background_text_or_resume, background_thread, ingest_background_chunk, is_finished,
}
use agent_workflow_platform.Chat.Ingest.{
  flush_reply, error_text, ingest_error, ingest_status, append_text, link_conversation,
  capture_session, finish_reply, finish_stream, end_stream, final_message, ingest_text,
  ingest_active, by_target, ingest_chunk,
}
use agent_workflow_platform.Chat.Identity.{
  identity, SameIdentities, SameIdentities-if, persist_threads-SameIdentities, sync-SameIdentities,
}

-- Writing a thread with the identity of the one that is there.
set-SameIdentities :
    (i : ℕ) (t y : Thread) (s : Chat)
    → get_elem? s.threads i ≡ some t
    → identity y ≡ identity t
    → SameIdentities s (set_thread i y s)
set-SameIdentities i t y s e h = map-set identity s.threads i t y e h

threads-bubble :
    (conv : Option String) (content : String) (s : Chat)
    → (persist_assistant_bubble conv content s).threads ≡ s.threads
unfolding persist_assistant_bubble emit
threads-bubble none content s = refl
threads-bubble (some conv) content s = ground arith

identity-accumulate : (chunk : Chunk) (t : Thread) → identity (accumulate chunk t) ≡ identity t
unfolding accumulate
identity-accumulate chunk t = ground arith

identity-status : (chunk : Chunk) (t : Thread) → identity (background_status chunk t) ≡ identity t
unfolding background_status
identity-status chunk t = ground arith

commit-SameIdentities :
    (now : Now) (i : ℕ) (t y : Thread) (s : Chat)
    → get_elem? s.threads i ≡ some t
    → identity y ≡ identity t
    → SameIdentities s (background_commit now i y s)
unfolding background_commit committed
commit-SameIdentities now i t y s e h =
    let told = persist_assistant_bubble y.bg_conv_id (trim (get_or y.bg_streaming_reply "")) s in
    let same : told.threads ≡ s.threads =
      threads-bubble y.bg_conv_id (trim (get_or y.bg_streaming_reply "")) s in
    persist_threads-SameIdentities (set_thread i (committed now y) told)
    ∙ map-set identity told.threads i t (committed now y) (ap (λ ts. get_elem? ts i) same ∙ e) h
    ∙ ap (map identity) same

stream-SameIdentities :
    (now : Now) (i : ℕ) (t : Thread) (chunk : Chunk) (s : Chat)
    → get_elem? s.threads i ≡ some t
    → SameIdentities s (background_stream now i t chunk s)
unfolding background_stream
stream-SameIdentities now i t chunk s e = elim (Option-cases (extract_error_chunk chunk)) [
  | inl f ↦
      rw (f, background_stream)
        (SameIdentities-if (is_finished chunk) s _ _
          (commit-SameIdentities now i t (accumulate chunk t) s e (identity-accumulate chunk t))
          (set-SameIdentities i t (accumulate chunk t) s e (identity-accumulate chunk t)))
  | inr (x, f) ↦ rw (f, background_stream) (commit-SameIdentities now i t t s e refl)
]

background-SameIdentities :
    (now : Now) (chunk : Chunk) (i : ℕ) (s : Chat)
    → option_is chunk.type "message_start" ≡ false
    → SameIdentities s (ingest_background_chunk now chunk i s)
unfolding ingest_background_chunk background_thread background_text_or_resume
background-SameIdentities now chunk i s h = elim (Option-cases (get_elem? s.threads i)) [
  | inl e ↦ rw (e, ingest_background_chunk) refl
  | inr (t, e) ↦
      rw (e, ingest_background_chunk)
        (SameIdentities-if (option_is chunk.type "cc_status") s _ _
          (set-SameIdentities i t (background_status chunk t) s e (identity-status chunk t))
          (rw h (stream-SameIdentities now i t chunk s e)))
]

threads-flush : (s : Chat) → (flush_reply s).threads ≡ s.threads
unfolding flush_reply
threads-flush s = threads-bubble s.current_conversation_id s.streaming_reply s

threads-error : (e : ErrorInfo) (s : Chat) → (ingest_error e s).threads ≡ s.threads
unfolding ingest_error
threads-error e s = ground (
  arith,
  threads-flush (record s {
    stream_error_chunk = some e;
    error = some (error_text e);
    is_streaming = false;
    stream_started_at = none;
  }),
)

threads-status :
    (label : String) (tool : Option String) (s : Chat)
    → (ingest_status label tool s).threads ≡ s.threads
unfolding ingest_status
threads-status label tool s = ground (arith, threads-flush s)

finish_reply-SameIdentities :
    (now : Now) (chunk : Chunk) (s : Chat) → SameIdentities s (finish_reply now chunk s)
unfolding finish_reply end_stream update_context_usage
finish_reply-SameIdentities now chunk s =
    let told = update_context_usage (
      end_stream (record s {
        current_messages = s.current_messages ++ final_message chunk s.streaming_reply ∷ [];
      })) in
    let listed : Chat = record told {
      cc_todo_list = map (λ (x : TodoItem). record x { done = true }) told.cc_todo_list;
      cc_status = "";
    } in
    let synced = sync_thread_messages now listed in
    ap (map identity) (threads-bubble listed.current_conversation_id s.streaming_reply synced)
    ∙ sync-SameIdentities now listed

finish-SameIdentities :
    (now : Now) (chunk : Chunk) (s : Chat) → SameIdentities s (finish_stream now chunk s)
unfolding finish_stream end_stream
finish-SameIdentities now chunk s =
    SameIdentities-if (is_finished chunk) s _ s
      (SameIdentities-if (truthy (trim s.streaming_reply)) s _ _
        (finish_reply-SameIdentities now chunk (record s { got_cc_done = true })) refl)
      refl

threads-text :
    (chunk : Chunk) (s : Chat)
    → (link_conversation chunk.conversation_id (append_text chunk s)).threads ≡ s.threads
unfolding link_conversation append_text
threads-text chunk s = ground arith

text-SameIdentities :
    (now : Now) (chunk : Chunk) (target : Option ℕ) (s : Chat)
    → option_is chunk.type "message_start" ≡ false
    → SameIdentities s (ingest_text now chunk target s)
unfolding ingest_text capture_session
text-SameIdentities now chunk target s h =
    rw (h, ingest_text)
      (finish-SameIdentities now chunk
          (link_conversation chunk.conversation_id (append_text chunk s))
        ∙ ap (map identity) (threads-text chunk s))

active-SameIdentities :
    (now : Now) (chunk : Chunk) (target : Option ℕ) (s : Chat)
    → option_is chunk.type "message_start" ≡ false
    → SameIdentities s (ingest_active now chunk target s)
unfolding ingest_active
active-SameIdentities now chunk target s h = elim (Option-cases (extract_error_chunk chunk)) [
  | inl e ↦
      rw (e, ingest_active)
        (SameIdentities-if (option_is chunk.type "cc_status" && present chunk.label) s _ _
          (ap (map identity) (threads-status (get_or chunk.label "") chunk.tool s))
          (text-SameIdentities now chunk target s h))
  | inr (x, e) ↦ rw (e, ingest_active) (ap (map identity) (threads-error x s))
]

target-SameIdentities :
    (now : Now) (chunk : Chunk) (target : ChunkTarget) (s : Chat)
    → option_is chunk.type "message_start" ≡ false
    → SameIdentities s (by_target now chunk target s)
unfolding by_target
target-SameIdentities now chunk target s h =
    SameIdentities-if target.is_active s _ _ (active-SameIdentities now chunk target.thread s h)
      (elim (Option-cases target.thread) [
        | inl e ↦ rw e refl
        | inr (i, e) ↦ rw e (background-SameIdentities now chunk i s h)
      ])

-- A chunk that does not report the start of a session changes neither the id nor the native session
-- of any thread, whatever it is and wherever it goes.
pub ingest_chunk-SameIdentities :
    (now : Now) (chunk : Chunk) (source : ChunkSource) (s : Chat)
    → option_is chunk.type "message_start" ≡ false
    → SameIdentities s (ingest_chunk now chunk source s)
unfolding ingest_chunk
ingest_chunk-SameIdentities now chunk source s h =
    target-SameIdentities now chunk (resolve_chunk_target chunk source s) s h
