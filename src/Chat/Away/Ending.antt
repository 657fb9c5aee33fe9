-- ===== src/Chat/Away/Ending.antt =====
-- A stream that ends while another thread is on view (chat.ts).
use agent_workflow_platform.Prelude.{
  if◌then◌else◌, ℕ, String, true, false, List, [], ◌∷◌, none, some, ◌≡◌, refl, arith, get_elem?,
  set, ap, get_elem?-set_self, lt_of_get_elem?, find_index?, find_index?-set, option_is, truthy,
  trim, ◌⧺◌, ◌∙◌, All, sym, Option-cases, inl, inr,
}
use mathlib.Core.Path.{subst}
use text.Mathlib.TextLemmas.{append-nil}
use agent_workflow_platform.Chat.Types.{Thread, Now, Chunk, ChunkSource}
use agent_workflow_platform.Chat.State.{Chat}
use agent_workflow_platform.Chat.ErrorChunk.{extract_error_chunk}
use agent_workflow_platform.Chat.Route.{runs_on, resolve_chunk_target}
use agent_workflow_platform.Chat.Background.{
  with_reply, committed, is_finished, background_text, background_commit, ingest_background_chunk,
  accumulate, background_thread, background_text_or_resume, background_stream,
}
use agent_workflow_platform.Chat.Ingest.{ingest_chunk, arrive}
use agent_workflow_platform.Chat.Away.Visit.{IsText, routed_text}
use agent_workflow_platform.Chat.Away.Return.{IsTextChunk, text_of, gathered}

-- The chunk that ends a stream; it may carry a last text.
pub record IsEnd (chunk : Chunk) : Type 0 where
  pub no_step : option_is chunk.type "cc_status" ≡ false
  pub no_start : option_is chunk.type "message_start" ≡ false
  pub no_error : extract_error_chunk chunk ≡ none
  pub finished : is_finished chunk ≡ true

-- The thread at `i` has the reply behind its messages, unless that is blank, and streams no more.
pub record IsEnded (i : ℕ) (before : Thread) (reply : String) (s : Chat) : Type 0 where
  pub thread : Thread
  pub here : get_elem? s.threads i ≡ some thread
  pub messages : thread.messages ≡ with_reply before.messages (trim reply)
  pub idle : thread.is_streaming ≡ false
  pub released : thread.bg_session_id ≡ none

-- Nothing on view knows the session, which the thread at `i` runs.
pub record RunsBeside (sid : String) (i : ℕ) (t : Thread) (reply : String) (s : Chat) : Type 0 where
  pub unknown : option_is s.cc_session_id sid ≡ false
  pub routed : find_index? (runs_on sid) s.threads ≡ some i
  pub here : get_elem? s.threads i ≡ some t
  pub carries : t.bg_streaming_reply ≡ some reply

threads-background_commit :
    (now : Now) (i : ℕ) (t : Thread) (s : Chat)
    → (background_commit now i t s).threads ≡ set s.threads i (committed now t)
unfolding background_commit
threads-background_commit now i t s = ground arith

accumulate_end :
    (chunk : Chunk) (t : Thread) (reply : String)
    → t.bg_streaming_reply ≡ some reply
    → accumulate chunk t ≡ record t { bg_streaming_reply = some (reply ⧺ text_of chunk) }
unfolding accumulate
accumulate_end chunk t reply r = elim (Option-cases (background_text chunk)) [
  | inl e ↦
      rw (e, accumulate)
        (ap (λ o. record t { bg_streaming_reply = o }) (r ∙ ap some (sym (append-nil reply))))
  | inr (d, e) ↦ rw (e, accumulate, r) refl
]

background_of_end :
    (now : Now) (chunk : Chunk) (i : ℕ) (t : Thread) (reply : String) (s : Chat)
    → get_elem? s.threads i ≡ some t
    → t.bg_streaming_reply ≡ some reply
    → IsEnd chunk
    → ingest_background_chunk now chunk i s
      ≡ background_commit now i (record t { bg_streaming_reply = some (reply ⧺ text_of chunk) }) s
unfolding ingest_background_chunk background_thread background_text_or_resume background_stream
background_of_end now chunk i t reply s here r p =
    rw (here, ingest_background_chunk)
      (rw (p.no_step, if◌then◌else◌)
        (rw (p.no_start, if◌then◌else◌)
          (rw (p.no_error, background_stream)
            (rw (p.finished, if◌then◌else◌)
              (ap (λ y. background_commit now i y s) (accumulate_end chunk t reply r))))))

routed_end :
    (now : Now) (chunk : Chunk) (source : ChunkSource) (s : Chat) (sid : String) (i : ℕ)
    (t : Thread) (reply : String)
    → source.session_id ≡ some sid
    → truthy sid ≡ true
    → IsEnd chunk
    → RunsBeside sid i t reply s
    → ingest_chunk now chunk source s
      ≡ background_commit now i (record t { bg_streaming_reply = some (reply ⧺ text_of chunk) }) s
unfolding ingest_chunk resolve_chunk_target
routed_end now chunk source s sid i t reply from named h v =
    ground (arith, background_of_end now chunk i t reply s v.here v.carries h, v.unknown, v.routed)

end_of :
    (now : Now) (chunk : Chunk) (source : ChunkSource) (s : Chat) (sid : String) (i : ℕ)
    (t : Thread) (reply : String)
    → source.session_id ≡ some sid
    → truthy sid ≡ true
    → IsEnd chunk
    → RunsBeside sid i t reply s
    → IsEnded i t (reply ⧺ text_of chunk) (ingest_chunk now chunk source s)
unfolding committed
end_of now chunk source s sid i t reply from named h v =
    let y : Thread = record t { bg_streaming_reply = some (reply ⧺ text_of chunk) } in
    subst (λ r. IsEnded i t (reply ⧺ text_of chunk) r)
      (sym (routed_end now chunk source s sid i t reply from named h v))
      (record {
        thread = committed now y;
        here =
            ap (λ ts. get_elem? ts i) (threads-background_commit now i y s)
            ∙ get_elem?-set_self s.threads i (committed now y) (lt_of_get_elem? s.threads i v.here);
        messages = refl;
        idle = refl;
        released = refl;
      })

next_of :
    (now : Now) (chunk : Chunk) (source : ChunkSource) (s : Chat) (sid : String) (i : ℕ)
    (t : Thread) (reply : String)
    → source.session_id ≡ some sid
    → truthy sid ≡ true
    → IsText chunk (text_of chunk)
    → RunsBeside sid i t reply s
    → RunsBeside sid i
        (record t { bg_streaming_reply = some (reply ⧺ text_of chunk) })
        (reply ⧺ text_of chunk)
        (ingest_chunk now chunk source s)
next_of now chunk source s sid i t reply from named p v =
    let y : Thread = record t { bg_streaming_reply = some (reply ⧺ text_of chunk) } in
    subst (λ r. RunsBeside sid i y (reply ⧺ text_of chunk) r)
      (sym (
        routed_text now chunk source s i t reply (text_of chunk) from named v.unknown v.routed
          v.here v.carries p))
      (record {
        unknown = v.unknown;
        routed = find_index?-set (runs_on sid) s.threads i t y v.here refl ∙ v.routed;
        here = get_elem?-set_self s.threads i y (lt_of_get_elem? s.threads i v.here);
        carries = refl;
      })

-- A stream that goes on with text beside the view and then ends, with a last text or without, leaves its whole reply, trimmed, as
-- the last message of its own thread, unless that is blank; the thread streams no more and lets the
-- session go.
pub arrive-IsEnded :
    (sid : String) (source : ChunkSource) (cs : List (Now × Chunk)) (now : Now) (last : Chunk)
    (i : ℕ) (t : Thread) (reply : String) (s : Chat)
    → source.session_id ≡ some sid
    → truthy sid ≡ true
    → All IsTextChunk cs
    → IsEnd last
    → RunsBeside sid i t reply s
    → IsEnded i t
        (gathered reply cs ⧺ text_of last)
        (ingest_chunk now last source (arrive source cs s))
arrive-IsEnded sid source [] now last i t reply s from named h e v =
    end_of now last source s sid i t reply from named e v
arrive-IsEnded sid source ((at, c) ∷ cs) now last i t reply s from named h e v =
    let r =
      arrive-IsEnded sid source cs now last i
        (record t { bg_streaming_reply = some (reply ⧺ text_of c) }) (reply ⧺ text_of c)
        (ingest_chunk at c source s) from named h.1 e
        (next_of at c source s sid i t reply from named h.0 v) in
    record {
      thread = r.thread;
      here = r.here;
      messages = r.messages;
      idle = r.idle;
      released = r.released;
    }
