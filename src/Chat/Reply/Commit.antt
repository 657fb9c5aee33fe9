-- ===== src/Chat/Reply/Commit.antt =====
-- The end of a stream with a reply (`_ingestChunk` of apps/desktop/src/stores/chat.ts).
use agent_workflow_platform.Prelude.{
  ℕ, String, false, List, [], ◌∷◌, ◌++◌, Option, none, some, ◌≡◌, refl, arith, get_elem?, ◌∙◌, ap,
  get_elem?-set_self, lt_of_get_elem?,
}
use agent_workflow_platform.Chat.Types.{ChatMessage, Thread, Now, Chunk}
use agent_workflow_platform.Chat.State.{
  Chat, emit, persist_threads, set_thread, modify_thread, modify_thread?, thread_index,
  sync_thread_messages, persist_assistant_bubble, update_context_usage,
}
use agent_workflow_platform.Chat.Ingest.{finish_reply, final_message, end_stream}

-- The stream is over, and its reply is the last message of the view and of the active thread.
pub record IsCommitted (messages : List ChatMessage) (i : ℕ) (r : Chat) : Type 0 where
  pub idle : r.is_streaming ≡ false
  pub empty : r.streaming_reply ≡ ""
  pub shown : r.current_messages ≡ messages
  pub kept : Thread
  pub here : get_elem? r.threads i ≡ some kept
  pub stored : kept.messages ≡ messages

IsCommitted-keep :
    (messages : List ChatMessage) (i : ℕ) (s r : Chat)
    → r.is_streaming ≡ s.is_streaming
    → r.streaming_reply ≡ s.streaming_reply
    → r.current_messages ≡ s.current_messages
    → r.threads ≡ s.threads
    → IsCommitted messages i s
    → IsCommitted messages i r
IsCommitted-keep messages i s r e f g h v = record {
  idle = e ∙ v.idle;
  empty = f ∙ v.empty;
  shown = g ∙ v.shown;
  kept = v.kept;
  here = ap (λ ts. get_elem? ts i) h ∙ v.here;
  stored = v.stored;
}

persist_assistant_bubble-IsCommitted :
    (messages : List ChatMessage) (i : ℕ) (conv : Option String) (content : String) (s : Chat)
    → IsCommitted messages i s
    → IsCommitted messages i (persist_assistant_bubble conv content s)
unfolding persist_assistant_bubble emit
persist_assistant_bubble-IsCommitted messages i none content s v = v
persist_assistant_bubble-IsCommitted messages i (some conv) content s v =
    IsCommitted-keep messages i s (persist_assistant_bubble (some conv) content s) (ground arith)
      (ground arith) (ground arith) (ground arith) v

persist_threads-IsCommitted :
    (messages : List ChatMessage) (i : ℕ) (s : Chat)
    → IsCommitted messages i s
    → IsCommitted messages i (persist_threads s)
unfolding persist_threads
persist_threads-IsCommitted messages i s v =
    IsCommitted-keep messages i s (persist_threads s) (ground arith) (ground arith) (ground arith)
      (ground arith) v

sync_thread_messages-IsCommitted :
    (now : Now) (i : ℕ) (t : Thread) (s : Chat)
    → s.is_streaming ≡ false
    → s.streaming_reply ≡ ""
    → thread_index s.active_thread_id s.threads ≡ some i
    → get_elem? s.threads i ≡ some t
    → IsCommitted s.current_messages i (sync_thread_messages now s)
unfolding sync_thread_messages modify_thread? modify_thread
sync_thread_messages-IsCommitted now i t s idle empty at here =
    let y : Thread = record t { messages = s.current_messages; updated_at = now.iso } in
    let e : modify_thread? (thread_index s.active_thread_id s.threads)
          (λ t. record t { messages = s.current_messages; updated_at = now.iso }) s
        ≡ set_thread i y s =
      ground arith in
    persist_threads-IsCommitted s.current_messages i
      (modify_thread? (thread_index s.active_thread_id s.threads)
        (λ t. record t { messages = s.current_messages; updated_at = now.iso }) s)
      (rw e (record {
        idle = idle;
        empty = empty;
        shown = refl;
        kept = y;
        here = get_elem?-set_self s.threads i y (lt_of_get_elem? s.threads i here);
        stored = refl;
      }))

pub finish_reply-IsCommitted :
    (now : Now) (chunk : Chunk) (i : ℕ) (t : Thread) (s : Chat)
    → thread_index s.active_thread_id s.threads ≡ some i
    → get_elem? s.threads i ≡ some t
    → IsCommitted
        (s.current_messages ++ final_message chunk s.streaming_reply ∷ [])
        i
        (finish_reply now chunk s)
unfolding finish_reply end_stream update_context_usage
finish_reply-IsCommitted now chunk i t s at here =
    persist_assistant_bubble-IsCommitted _ i _ s.streaming_reply _
      (sync_thread_messages-IsCommitted now i t _ refl refl at here)
