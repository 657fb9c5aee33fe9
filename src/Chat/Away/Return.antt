-- ===== src/Chat/Away/Return.antt =====
-- A stream that is left, goes on beside another conversation, and is returned to (chat.ts).
use mathlib.Core.Path.{subst}
use agent_workflow_platform.Prelude.{
  ℕ, String, true, false, List, [], ◌∷◌, Option, some, ◌≡◌, ◌≢◌, refl, arith, get_elem?, option_is,
  ◌∙◌, sym, ap, Bool-cases, inl, inr, truthy, ◌&&◌, ◌==◌, get_or, ◌⧺◌, All, any, find_index?-sound,
  find_index?-ne, find_index?-set, find_index?-set_new, any-get_elem?, any-imp, get_elem?-set_self,
  get_elem?-set_ne, lt_of_get_elem?, eq_iff, eq_refl,
}
use agent_workflow_platform.Chat.Types.{Thread, Now, Chunk, ChunkSource}
use agent_workflow_platform.Chat.State.{
  Chat, set_thread, modify_thread, modify_thread?, thread_index,
}
use agent_workflow_platform.Chat.Threads.{
  detached, detach_active_stream_to_thread, select_begin, RemoteConversation, restore_stream,
  restore, select_finish,
}
use agent_workflow_platform.Chat.Route.{runs_on}
use agent_workflow_platform.Chat.Background.{background_text}
use agent_workflow_platform.Chat.Ingest.{ingest_chunk, arrive}
use agent_workflow_platform.Chat.Away.Apart.{Apart-set_other}
use agent_workflow_platform.Chat.Away.Frames.{Beside}
use agent_workflow_platform.Chat.Away.Steps.{
  merged, merged-Beside, moved, moved-Beside, active-moved,
}
use agent_workflow_platform.Chat.Away.Visit.{IsText, Off, select_finish-Off, ingest_chunk-Off}

-- The view streams on a session that no thread runs in the background; its thread is at `i`, and
-- the thread `b` is another one, at `j`.
pub record CanLeave (sid b : String) (i j : ℕ) (s : Chat) : Type 0 where
  pub streams : s.is_streaming ≡ true
  pub session : s.cc_session_id ≡ some sid
  pub here : thread_index s.active_thread_id s.threads ≡ some i
  pub there : thread_index b s.threads ≡ some j
  pub different : (s.active_thread_id == b) ≡ false
  pub alone : any (λ t. option_is t.bg_session_id sid) s.threads ≡ false

abbrev pub text_of : Chunk → String
text_of chunk = get_or (background_text chunk) ""

abbrev pub IsTextChunk : Now × Chunk → Type 0
IsTextChunk (now, chunk) = IsText chunk (text_of chunk)

-- A reply with the text of chunks behind it.
abbrev pub gathered : String → List (Now × Chunk) → String
gathered reply [] = reply
gathered reply ((now, chunk) ∷ cs) = gathered (reply ⧺ text_of chunk) cs

-- The view streams again, with this reply so far and on this session.
pub record Resumed (sid reply : String) (s : Chat) : Type 0 where
  pub reply_of : s.streaming_reply ≡ reply
  pub streams : s.is_streaming ≡ true
  pub session : s.cc_session_id ≡ some sid

detach_at :
    (i : ℕ) (t : Thread) (s : Chat)
    → s.is_streaming ≡ true
    → thread_index s.active_thread_id s.threads ≡ some i
    → get_elem? s.threads i ≡ some t
    → detach_active_stream_to_thread s ≡ set_thread i (detached s t) s
unfolding detach_active_stream_to_thread modify_thread? modify_thread
detach_at i t s on here at = ground arith

select_begin-moved :
    (now : Now) (id : String) (s : Chat)
    → (s.active_thread_id == id) ≡ false
    → select_begin now id s ≡ moved now id (detach_active_stream_to_thread s)
unfolding select_begin
select_begin-moved now id s h = rw h

module _ (sid b : String) (i j : ℕ) where
  detached-Beside :
      (s : Chat)
      → truthy sid ≡ true
      → CanLeave sid b i j s
      → Beside sid s.active_thread_id b i j s.streaming_reply (detach_active_stream_to_thread s)
  unfolding detached
  detached-Beside s named h =
      let a = s.active_thread_id in
      let (mine, at_i, is_a) = find_index?-sound (λ t. t.id == a) s.threads i h.here in
      let (other, at_j, is_b) = find_index?-sound (λ t. t.id == b) s.threads j h.there in
      let apart : (mine.id == b) ≡ false = rw ((eq_iff mine.id a).0 is_a) h.different in
      let distinct : i ≢ j =
        λ e. find_index?-ne (λ t. t.id == b) s.threads j i mine h.there at_i apart (sym e) in
      let idle : any (runs_on sid) s.threads ≡ false =
        any-imp (runs_on sid) (λ t. option_is t.bg_session_id sid) s.threads (λ t k. rw k refl)
          h.alone in
      let y : Thread = detached s mine in
      let runs : y.bg_session_id ≡ some sid = ground (arith, h.session) in
      let found : runs_on sid y ≡ true =
        ap (λ o. option_is o sid && true) runs ∙ rw (eq_refl sid) refl in
      subst (λ s'. Beside sid a b i j s.streaming_reply s')
        (sym (detach_at i mine s h.streams h.here at_i))
        (record {
          mine = y;
          other = other;
          here = get_elem?-set_self s.threads i y (lt_of_get_elem? s.threads i at_i);
          there = get_elem?-set_ne s.threads i j y distinct ∙ at_j;
          streams = refl;
          carries = refl;
          runs = runs;
          idle = any-get_elem? (λ t. option_is t.bg_session_id sid) s.threads j other h.alone at_j;
          routed = find_index?-set_new (runs_on sid) s.threads i mine y idle at_i found;
          named = find_index?-set (λ t. t.id == a) s.threads i mine y at_i refl ∙ h.here;
          labelled = find_index?-set (λ t. t.id == b) s.threads i mine y at_i refl ∙ h.there;
          distinct = distinct;
        })

  -- The other thread is chosen.
  select_begin-Beside :
      (now : Now) (s : Chat)
      → truthy sid ≡ true
      → CanLeave sid b i j s
      → Beside sid s.active_thread_id b i j s.streaming_reply (select_begin now b s)
  select_begin-Beside now s named h =
      subst (λ s'. Beside sid s.active_thread_id b i j s.streaming_reply s')
        (sym (select_begin-moved now b s h.different))
        (moved-Beside sid s.active_thread_id b i j s.streaming_reply now b
          (detach_active_stream_to_thread s) (detached-Beside s named h))

  active-select_begin :
      (now : Now) (id : String) (s : Chat)
      → (s.active_thread_id == id) ≡ false
      → (select_begin now id s).active_thread_id ≡ id
  active-select_begin now id s h =
      ap (λ (s' : Chat). s'.active_thread_id) (select_begin-moved now id s h)
      ∙ active-moved now id (detach_active_stream_to_thread s)

module _ (sid a b : String) (i j : ℕ) (reply : String) where
  -- The other thread may stream as well, on a session of its own.
  detach-Beside :
      (s : Chat)
      → Off sid a b i j reply s
      → Beside sid a b i j reply (detach_active_stream_to_thread s)
  unfolding detached detach_active_stream_to_thread
  detach-Beside s o = elim (Bool-cases s.is_streaming) [
    | inl on ↦
        let v = o.beside in
        let here : thread_index s.active_thread_id s.threads ≡ some j =
          ap (λ id. thread_index id s.threads) o.active ∙ v.labelled in
        subst (λ s'. Beside sid a b i j reply s') (sym (detach_at j v.other s on here v.there))
          (Apart-set_other v (detached s v.other) refl (ground (arith, v.idle, o.unknown)))
    | inr off ↦ rw (off, detach_active_stream_to_thread) o.beside
  ]

  restore-Resumed : (s : Chat) → Beside sid a b i j reply s → Resumed sid reply (restore (some i) s)
  unfolding restore restore_stream
  restore-Resumed s v =
      rw (v.here, restore)
        (rw (v.streams, restore_stream)
          (record { reply_of = rw v.carries refl; streams = refl; session = v.runs }))

  select_finish-Resumed :
      (answer : Option RemoteConversation) (s : Chat)
      → Beside sid a b i j reply s
      → Resumed sid reply (select_finish a answer s)
  unfolding select_finish
  select_finish-Resumed answer s v =
      let r : Resumed sid reply
          (restore (thread_index a s.threads) (merged (thread_index a s.threads) answer s)) =
        rw v.named (
          restore-Resumed (merged (some i) answer s)
            (merged-Beside sid a b i j reply (some i) answer s v)) in
      record { reply_of = r.reply_of; streams = r.streams; session = r.session }

  back-Resumed :
      (now : Now) (answer : Option RemoteConversation) (s : Chat)
      → (b == a) ≡ false
      → Off sid a b i j reply s
      → Resumed sid reply (select_finish a answer (select_begin now a s))
  back-Resumed now answer s h o = select_finish-Resumed answer (select_begin now a s) (
      subst (λ s'. Beside sid a b i j reply s')
        (sym (select_begin-moved now a s (ap (λ id. id == a) o.active ∙ h)))
        (moved-Beside sid a b i j reply now a (detach_active_stream_to_thread s)
          (detach-Beside s o)))

module _ (sid a b : String) (i j : ℕ) where
  arrive-Off :
      (source : ChunkSource) (cs : List (Now × Chunk)) (reply : String) (s : Chat)
      → source.session_id ≡ some sid
      → truthy sid ≡ true
      → All IsTextChunk cs
      → Off sid a b i j reply s
      → Off sid a b i j (gathered reply cs) (arrive source cs s)
  arrive-Off source [] reply s from named h o = o
  arrive-Off source ((now, c) ∷ cs) reply s from named h o =
      arrive-Off source cs (reply ⧺ text_of c) (ingest_chunk now c source s) from named h.1
        (ingest_chunk-Off sid a b i j reply (text_of c) now c source s from named h.0 o)

-- A stream that runs on view is left for another thread, goes on with text while that thread is on
-- view, and is returned to. Then the view streams again on the same session, and its reply is that of
-- before followed by the text that has arrived in between, whatever histories the server answers. No
-- text arrives while a history is awaited. The stream is that of the active thread's session, which
-- no thread runs in the background.
pub select_back :
    (sid b : String) (i j : ℕ) (left back : Now) (source : ChunkSource) (cs : List (Now × Chunk))
    (answer again : Option RemoteConversation) (s : Chat)
    → truthy sid ≡ true
    → source.session_id ≡ some sid
    → CanLeave sid b i j s
    → All IsTextChunk cs
    → Resumed sid (gathered s.streaming_reply cs) (
        select_finish s.active_thread_id again (
          select_begin back s.active_thread_id
            (arrive source cs (select_finish b answer (select_begin left b s)))))
select_back sid b i j left back source cs answer again s named from h texts =
    let a = s.active_thread_id in
    let begun = select_begin left b s in
    let shown : Off sid a b i j s.streaming_reply (select_finish b answer begun) =
      select_finish-Off sid a b i j s.streaming_reply answer begun
        (select_begin-Beside sid b i j left s named h)
        (active-select_begin sid b i j left b s h.different) in
    let gone =
      arrive-Off sid a b i j source cs s.streaming_reply (select_finish b answer begun) from named
        texts shown in
    back-Resumed sid a b i j (gathered s.streaming_reply cs) back again
      (arrive source cs (select_finish b answer begun))
      (ground (arith, h.different, eq_iff a b, eq_iff b a)) gone
