-- ===== src/Chat/Background/Frame.antt =====
-- The threads beside the one that a chunk in the background belongs to (`_ingestBackgroundChunk` of
-- chat.ts).
use agent_workflow_platform.Prelude.{ℕ, String, some, ◌≡◌, ◌≢◌, arith, get_elem?, get_elem?-set_ne}
use agent_workflow_platform.Chat.Types.{Thread, Chunk, Now}
use agent_workflow_platform.Chat.State.{Chat}
use agent_workflow_platform.Chat.Background.{
  accumulate, committed, background_status, background_resume, background_commit, background_stream,
  background_text_or_resume, background_thread, ingest_background_chunk,
}

module _ (now : Now) (i j : ℕ) (h : i ≢ j) where
  abbrev Keeps : Chat → Chat → Type 0
  Keeps s s' = get_elem? s'.threads j ≡ get_elem? s.threads j

  pub background_commit-Keeps : (t : Thread) (s : Chat) → Keeps s (background_commit now i t s)
  unfolding background_commit
  background_commit-Keeps t s = ground (arith, get_elem?-set_ne s.threads i j (committed now t) h)

  background_resume-Keeps :
      (t : Thread) (new_id : String) (s : Chat) → Keeps s (background_resume i t new_id s)
  unfolding background_resume
  background_resume-Keeps t new_id s =
      ground (arith, get_elem?-set_ne s.threads i j (record t { cc_session_id = some new_id }) h)

  background_stream-Keeps :
      (t : Thread) (chunk : Chunk) (s : Chat) → Keeps s (background_stream now i t chunk s)
  unfolding background_stream
  background_stream-Keeps t chunk s = ground (
    arith,
    background_commit-Keeps t s,
    background_commit-Keeps (accumulate chunk t) s,
    get_elem?-set_ne s.threads i j (accumulate chunk t) h,
  )

  background_text_or_resume-Keeps :
      (t : Thread) (chunk : Chunk) (s : Chat) → Keeps s (background_text_or_resume now i t chunk s)
  unfolding background_text_or_resume
  background_text_or_resume-Keeps t chunk s =
      grind (arith, background_stream-Keeps, background_resume-Keeps)

  background_thread-Keeps :
      (t : Thread) (chunk : Chunk) (s : Chat) → Keeps s (background_thread now i t chunk s)
  unfolding background_thread
  background_thread-Keeps t chunk s = ground (
    arith,
    background_text_or_resume-Keeps t chunk s,
    get_elem?-set_ne s.threads i j (background_status chunk t) h,
  )

-- Every thread at another position is as before.
pub get_elem?-ingest_background_chunk :
    (now : Now) (chunk : Chunk) (i j : ℕ) (s : Chat)
    → i ≢ j
    → get_elem? (ingest_background_chunk now chunk i s).threads j ≡ get_elem? s.threads j
unfolding ingest_background_chunk
get_elem?-ingest_background_chunk now chunk i j s h =
    grind (arith, background_thread-Keeps now i j h)
