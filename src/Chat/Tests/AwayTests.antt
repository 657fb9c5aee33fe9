-- ===== src/Chat/Tests/AwayTests.antt =====
-- A stream that is left and returned to, at a concrete state.
use agent_workflow_platform.Prelude.{true, List, [], ◌∷◌, none, some, refl, ◌⧺◌}
use agent_workflow_platform.Chat.Types.{Now, Chunk, ChunkSource}
use agent_workflow_platform.Chat.ErrorChunk.{extract_error_chunk}
use agent_workflow_platform.Chat.Background.{background_text, is_finished}
use agent_workflow_platform.Chat.Threads.{select_begin, select_finish}
use agent_workflow_platform.Chat.Ingest.{arrive, ingest_chunk}
use agent_workflow_platform.Chat.Away.Return.{
  CanLeave, Resumed, IsTextChunk, text_of, gathered, select_back,
}
use agent_workflow_platform.Chat.Tests.{now, busy, made, delta, from_s1}
use agent_workflow_platform.Chat.Away.Ending.{IsEnd, IsEnded, arrive-IsEnded}

abbrev texts : List (Now × Chunk)
texts = (now, delta "ti") ∷ (now, delta "al") ∷ []

ti-IsText : IsTextChunk (now, delta "ti")
unfolding extract_error_chunk is_finished background_text
ti-IsText = record {
  no_step = refl;
  no_start = refl;
  no_error = refl;
  unfinished = refl;
  carries = refl;
}

al-IsText : IsTextChunk (now, delta "al")
unfolding extract_error_chunk is_finished background_text
al-IsText = record {
  no_step = refl;
  no_start = refl;
  no_error = refl;
  unfinished = refl;
  carries = refl;
}

busy-CanLeave : CanLeave "s-1" "thread-3" 0 2 busy
busy-CanLeave = record {
  streams = refl;
  session = refl;
  here = refl;
  there = refl;
  different = refl;
  alone = refl;
}

select_back_example : Resumed "s-1" (gathered "par" texts) (
    select_finish "thread-1" none (
      select_begin now "thread-1"
        (arrive from_s1 texts (select_finish "thread-3" none (select_begin now "thread-3" busy)))))
select_back_example =
    select_back "s-1" "thread-3" 0 2 now now from_s1 texts none none busy refl refl busy-CanLeave
      (ti-IsText, (al-IsText, tt))

abbrev from_s2 : ChunkSource
from_s2 = record { session_id = some "s-2"; conv_id = none }

abbrev last : Chunk
last = record (delta "") { delta = none; done = true }

last-IsEnd : IsEnd last
unfolding extract_error_chunk is_finished background_text
last-IsEnd = record { no_step = refl; no_start = refl; no_error = refl; finished = refl }

arrive-IsEnded_example :
    IsEnded 1
      (made "thread-2" (some "s-2") true)
      (gathered "so far" texts ⧺ text_of last)
      (ingest_chunk now last from_s2 (arrive from_s2 texts busy))
arrive-IsEnded_example =
    arrive-IsEnded "s-2" from_s2 texts now last 1 (made "thread-2" (some "s-2") true) "so far" busy
      refl refl (ti-IsText, (al-IsText, tt)) last-IsEnd
      (record { unknown = refl; routed = refl; here = refl; carries = refl })
