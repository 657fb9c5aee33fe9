-- ===== src/Chat/Reply.antt =====
-- A whole stream of the view (`_ingestChunk` of apps/desktop/src/stores/chat.ts).
pub mod Commit
use mathlib.Core.Path.{subst}
use agent_workflow_platform.Prelude.{
  if◌then◌else◌, ℕ, String, Bool, true, false, List, [], ◌∷◌, ◌++◌, Option, none, some, ◌≡◌, refl,
  arith, get_elem?, set, option_is, ◌∙◌, sym, ap, Bool-cases, Option-cases, inl, inr, present,
  truthy, trim, not, ◌&&◌, ◌||◌, ◌==◌, get_or, ◌⧺◌, or_else, All, find_index?, find_index?-sound,
  get_elem?-set_self, lt_of_get_elem?, eq_refl,
}
use agent_workflow_platform.Chat.Types.{ChatMessage, Thread, Now, Chunk, ChunkSource, Choice}
use agent_workflow_platform.Chat.State.{
  Chat, emit, persist_threads, set_thread, modify_thread, modify_thread?, thread_index,
  sync_thread_messages, persist_assistant_bubble, update_context_usage,
}
use agent_workflow_platform.Chat.ErrorChunk.{extract_error_chunk}
use agent_workflow_platform.Chat.Route.{resolve_chunk_target}
use agent_workflow_platform.Chat.Background.{is_finished}
use agent_workflow_platform.Chat.Ingest.{
  append_text, link_conversation, capture_session, finish_reply, finish_stream, ingest_text,
  ingest_active, ingest_chunk, arrive, choice_text, final_message, end_stream,
}
use agent_workflow_platform.Chat.Reply.Commit.{IsCommitted, finish_reply-IsCommitted}

-- A chunk of text for the view: no error, no tool step, no start of a session.
pub record IsReply (chunk : Chunk) : Type 0 where
  pub no_error : extract_error_chunk chunk ≡ none
  pub no_step : (option_is chunk.type "cc_status" && present chunk.label) ≡ false
  pub no_start : option_is chunk.type "message_start" ≡ false

-- The reply with the text of a chunk behind it.
abbrev pub reply_with : String → Chunk → String
unfolding choice_text
reply_with reply chunk = (reply ⧺ get_or chunk.delta "") ⧺ choice_text chunk.choice

-- The view takes the text of the chunk in.
abbrev taken : Chunk → Chat → Chat
taken chunk s = link_conversation chunk.conversation_id (append_text chunk s)

routed :
    (now : Now) (chunk : Chunk) (source : ChunkSource) (s : Chat) (sid : String)
    → source.session_id ≡ some sid
    → truthy sid ≡ true
    → s.cc_session_id ≡ some sid
    → IsReply chunk
    → ingest_chunk now chunk source s ≡ finish_stream now chunk (taken chunk s)
unfolding ingest_chunk resolve_chunk_target ingest_active ingest_text capture_session
routed now chunk source s sid from named on h =
    ground (arith, h.no_error, h.no_step, h.no_start, eq_refl sid)

-- What stays and what grows when text is taken in.
record Grows (text : String) (s r : Chat) : Type 0 where
  reply : r.streaming_reply ≡ text
  messages : r.current_messages ≡ s.current_messages
  session : r.cc_session_id ≡ s.cc_session_id
  threads : r.threads ≡ s.threads
  active : r.active_thread_id ≡ s.active_thread_id

taken-Grows :
    (chunk : Chunk) (s : Chat) → Grows (reply_with s.streaming_reply chunk) s (taken chunk s)
unfolding link_conversation append_text
taken-Grows chunk s =
    elim (Bool-cases (present chunk.conversation_id && not (present s.current_conversation_id))) [
      | inl new ↦
          rw (new, link_conversation)
            (record {
              reply = refl;
              messages = refl;
              session = refl;
              threads = refl;
              active = refl;
            })
      | inr old ↦
          rw (old, link_conversation)
            (record {
              reply = refl;
              messages = refl;
              session = refl;
              threads = refl;
              active = refl;
            })
    ]

-- The chunk that ends a stream commits the reply, its own text included.
last_chunk :
    (now : Now) (chunk : Chunk) (source : ChunkSource) (s : Chat) (sid : String) (i : ℕ)
    → source.session_id ≡ some sid
    → truthy sid ≡ true
    → s.cc_session_id ≡ some sid
    → IsReply chunk
    → is_finished chunk ≡ true
    → truthy (trim (reply_with s.streaming_reply chunk)) ≡ true
    → thread_index s.active_thread_id s.threads ≡ some i
    → IsCommitted
        (s.current_messages ++ final_message chunk (reply_with s.streaming_reply chunk) ∷ [])
        i
        (ingest_chunk now chunk source s)
unfolding finish_stream
last_chunk now chunk source s sid i from named on h last text at =
    let x = taken chunk s in
    let g = taken-Grows chunk s in
    let seen : Chat = record x { got_cc_done = true } in
    let (t, here, _) = find_index?-sound (λ t. t.id == s.active_thread_id) s.threads i at in
    let nonblank : truthy (trim x.streaming_reply) ≡ true =
      ap (λ r. truthy (trim r)) g.reply ∙ text in
    let e : ingest_chunk now chunk source s ≡ finish_reply now chunk seen =
      routed now chunk source s sid from named on h ∙ rw (last, finish_stream) (rw nonblank refl) in
    let at' : thread_index x.active_thread_id x.threads ≡ some i =
      ap (λ id. thread_index id x.threads) g.active
      ∙ ap (λ ts. thread_index s.active_thread_id ts) g.threads
      ∙ at in
    let done =
      finish_reply-IsCommitted now chunk i t seen at'
        (ap (λ ts. get_elem? ts i) g.threads ∙ here) in
    rw e (
      subst
        (λ r.
          IsCommitted (s.current_messages ++ final_message chunk r ∷ []) i
            (finish_reply now chunk seen))
        g.reply
        (subst
          (λ ms.
            IsCommitted (ms ++ final_message chunk x.streaming_reply ∷ []) i
              (finish_reply now chunk seen))
          g.messages done))

-- A text that does not end the stream.
next_chunk :
    (now : Now) (chunk : Chunk) (source : ChunkSource) (s : Chat) (sid : String)
    → source.session_id ≡ some sid
    → truthy sid ≡ true
    → s.cc_session_id ≡ some sid
    → IsReply chunk
    → is_finished chunk ≡ false
    → Grows (reply_with s.streaming_reply chunk) s (ingest_chunk now chunk source s)
unfolding finish_stream
next_chunk now chunk source s sid from named on h going =
    rw (routed now chunk source s sid from named on h)
      (rw (going, finish_stream) (taken-Grows chunk s))

-- The reply with the text of chunks behind it.
abbrev pub reply_of : String → List (Now × Chunk) → String
reply_of reply [] = reply
reply_of reply ((now, chunk) ∷ cs) = reply_of (reply_with reply chunk) cs

abbrev pub IsNext : Now × Chunk → Type 0
IsNext (now, chunk) = IsReply chunk × (is_finished chunk ≡ false)

arrive-Grows :
    (source : ChunkSource) (sid : String) (cs : List (Now × Chunk)) (s : Chat)
    → source.session_id ≡ some sid
    → truthy sid ≡ true
    → s.cc_session_id ≡ some sid
    → All IsNext cs
    → Grows (reply_of s.streaming_reply cs) s (arrive source cs s)
arrive-Grows source sid [] s from named on h = record {
  reply = refl;
  messages = refl;
  session = refl;
  threads = refl;
  active = refl;
}
arrive-Grows source sid ((now, c) ∷ cs) s from named on h =
    let g = next_chunk now c source s sid from named on h.0.0 h.0.1 in
    let r =
      arrive-Grows source sid cs (ingest_chunk now c source s) from named (g.session ∙ on) h.1 in
    record {
      reply = r.reply ∙ ap (λ t. reply_of t cs) g.reply;
      messages = r.messages ∙ g.messages;
      session = r.session ∙ g.session;
      threads = r.threads ∙ g.threads;
      active = r.active ∙ g.active;
    }

-- A stream of the view, of any number of chunks of text and one that ends it, becomes one message
-- with the whole text, at the end of the view's messages and of the active thread's; then nothing
-- streams and no reply is left over. The text is not blank.
pub stream-IsCommitted :
    (source : ChunkSource) (sid : String) (cs : List (Now × Chunk)) (now : Now) (last : Chunk)
    (s : Chat) (i : ℕ)
    → source.session_id ≡ some sid
    → truthy sid ≡ true
    → s.cc_session_id ≡ some sid
    → thread_index s.active_thread_id s.threads ≡ some i
    → All IsNext cs
    → IsReply last
    → is_finished last ≡ true
    → truthy (trim (reply_with (reply_of s.streaming_reply cs) last)) ≡ true
    → IsCommitted
        (s.current_messages
          ++ final_message last (reply_with (reply_of s.streaming_reply cs) last) ∷ [])
        i
        (ingest_chunk now last source (arrive source cs s))
stream-IsCommitted source sid cs now last s i from named on at h final ends text =
    let x = arrive source cs s in
    let g = arrive-Grows source sid cs s from named on h in
    let at' : thread_index x.active_thread_id x.threads ≡ some i =
      ap (λ id. thread_index id x.threads) g.active
      ∙ ap (λ ts. thread_index s.active_thread_id ts) g.threads
      ∙ at in
    let done =
      last_chunk now last source x sid i from named (g.session ∙ on) final ends
        (ap (λ r. truthy (trim (reply_with r last))) g.reply ∙ text) at' in
    subst
      (λ r.
        IsCommitted (s.current_messages ++ final_message last (reply_with r last) ∷ []) i
          (ingest_chunk now last source x))
      g.reply
      (subst
        (λ ms.
          IsCommitted (ms ++ final_message last (reply_with x.streaming_reply last) ∷ []) i
            (ingest_chunk now last source x))
        g.messages done)
