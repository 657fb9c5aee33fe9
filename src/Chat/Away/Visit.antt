-- ===== src/Chat/Away/Visit.antt =====
-- The other thread is on view while the stream goes on beside it (chat.ts).
use agent_workflow_platform.Prelude.{
  ℕ, String, true, false, Option, none, some, ◌≡◌, refl, arith, get_elem?, option_is, ◌∙◌,
  Bool-cases, inl, inr, truthy, ◌⧺◌, find_index?,
}
use agent_workflow_platform.Chat.Types.{Thread, Now, Chunk, ChunkSource}
use agent_workflow_platform.Chat.State.{Chat, set_thread, thread_index}
use agent_workflow_platform.Chat.Threads.{
  RemoteConversation, restore_stream, restore, select_finish,
}
use agent_workflow_platform.Chat.ErrorChunk.{extract_error_chunk}
use agent_workflow_platform.Chat.Route.{runs_on, resolve_chunk_target}
use agent_workflow_platform.Chat.Background.{background_text, is_finished, ingest_background_chunk}
use agent_workflow_platform.Chat.Ingest.{ingest_chunk}
use agent_workflow_platform.Chat.Away.Apart.{Apart-set_other, Apart-set_mine}
use agent_workflow_platform.Chat.Away.Frames.{Beside}
use agent_workflow_platform.Chat.Away.Steps.{merged, merged-Beside, active-merged}

-- A chunk that carries text and nothing else.
pub record IsText (chunk : Chunk) (text : String) : Type 0 where
  pub no_step : option_is chunk.type "cc_status" ≡ false
  pub no_start : option_is chunk.type "message_start" ≡ false
  pub no_error : extract_error_chunk chunk ≡ none
  pub unfinished : is_finished chunk ≡ false
  pub carries : background_text chunk ≡ some text

background_of_text :
    (now : Now) (chunk : Chunk) (i : ℕ) (t : Thread) (reply text : String) (s : Chat)
    → get_elem? s.threads i ≡ some t
    → t.bg_streaming_reply ≡ some reply
    → IsText chunk text
    → ingest_background_chunk now chunk i s
      ≡ set_thread i (record t { bg_streaming_reply = some (reply ⧺ text) }) s
unfolding ingest_background_chunk
background_of_text now chunk i t reply text s here r p =
    ground (arith, p.no_step, p.no_start, p.no_error, p.unfinished, p.carries)

pub routed_text :
    {sid : String} (now : Now) (chunk : Chunk) (source : ChunkSource) (s : Chat) (i : ℕ)
    (t : Thread) (reply text : String)
    → source.session_id ≡ some sid
    → truthy sid ≡ true
    → option_is s.cc_session_id sid ≡ false
    → find_index? (runs_on sid) s.threads ≡ some i
    → get_elem? s.threads i ≡ some t
    → t.bg_streaming_reply ≡ some reply
    → IsText chunk text
    → ingest_chunk now chunk source s
      ≡ set_thread i (record t { bg_streaming_reply = some (reply ⧺ text) }) s
unfolding ingest_chunk resolve_chunk_target
routed_text now chunk source s i t reply text from named unknown routed here r p =
    ground (arith, background_of_text now chunk i t reply text s here r p)

module _ (sid a b : String) (i j : ℕ) where
  -- The stream is beside the view, which knows nothing of its session.
  pub record Off (reply : String) (s : Chat) : Type 0 where
    pub beside : Beside sid a b i j reply s
    pub unknown : option_is s.cc_session_id sid ≡ false
    pub active : s.active_thread_id ≡ b

  restore-Off :
      (reply : String) (s : Chat)
      → Beside sid a b i j reply s
      → s.active_thread_id ≡ b
      → Off reply (restore (some j) s)
  unfolding restore restore_stream
  restore-Off reply s v k = elim (Bool-cases v.other.is_streaming) [
    | inl on ↦
        rw (v.there, restore)
          (rw (on, restore_stream)
            (record { beside = Apart-set_other v _ refl refl; unknown = v.idle; active = k }))
    | inr off ↦
        rw (v.there, restore)
          (rw (off, restore_stream) (record { beside = v; unknown = refl; active = k }))
  ]

  -- Looking at the other thread.
  pub select_finish-Off :
      (reply : String) (answer : Option RemoteConversation) (s : Chat)
      → Beside sid a b i j reply s
      → s.active_thread_id ≡ b
      → Off reply (select_finish b answer s)
  unfolding select_finish
  select_finish-Off reply answer s v k =
      let o : Off reply
          (restore (thread_index b s.threads) (merged (thread_index b s.threads) answer s)) =
        rw v.labelled (
          restore-Off reply (merged (some j) answer s)
            (merged-Beside sid a b i j reply (some j) answer s v)
            (active-merged (some j) answer s ∙ k)) in
      record { beside = o.beside; unknown = o.unknown; active = o.active }

  -- The text of the stream is gathered beside the view.
  pub ingest_chunk-Off :
      (reply text : String) (now : Now) (chunk : Chunk) (source : ChunkSource) (s : Chat)
      → source.session_id ≡ some sid
      → truthy sid ≡ true
      → IsText chunk text
      → Off reply s
      → Off (reply ⧺ text) (ingest_chunk now chunk source s)
  ingest_chunk-Off reply text now chunk source s from named p o =
      let v = o.beside in
      let e : ingest_chunk now chunk source s
          ≡ set_thread i (record v.mine { bg_streaming_reply = some (reply ⧺ text) }) s =
        routed_text now chunk source s i v.mine reply text from named o.unknown v.routed v.here
          v.carries p in
      rw e (record {
        beside =
            Apart-set_mine v (record v.mine { bg_streaming_reply = some (reply ⧺ text) })
              (reply ⧺ text) refl v.streams refl v.runs;
        unknown = o.unknown;
        active = o.active;
      })
