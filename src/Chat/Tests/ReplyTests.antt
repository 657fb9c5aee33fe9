-- ===== src/Chat/Tests/ReplyTests.antt =====
-- Streams of the view at concrete states.
use agent_workflow_platform.Prelude.{true, List, [], ◌∷◌, refl, trim}
use agent_workflow_platform.Chat.Types.{Now, Chunk}
use agent_workflow_platform.Chat.ErrorChunk.{extract_error_chunk}
use agent_workflow_platform.Chat.Background.{is_finished}
use agent_workflow_platform.Chat.Ingest.{arrive, ingest_chunk, final_message, choice_text}
use agent_workflow_platform.Chat.Reply.Commit.{IsCommitted}
use agent_workflow_platform.Chat.Reply.{IsReply, IsNext, reply_with, reply_of, stream-IsCommitted}
use agent_workflow_platform.Chat.Tests.{now, busy, hello, delta, from_s1}

abbrev next : List (Now × Chunk)
next = (now, delta "ti") ∷ []

abbrev last : Chunk
last = record (delta "al") { done = true }

ti-IsNext : IsNext (now, delta "ti")
unfolding extract_error_chunk is_finished
ti-IsNext = (record { no_error = refl; no_step = refl; no_start = refl }, refl)

last-IsReply : IsReply last
unfolding extract_error_chunk
last-IsReply = record { no_error = refl; no_step = refl; no_start = refl }

stream-IsCommitted_example :
    IsCommitted
      (hello ∷ final_message last (reply_with (reply_of "par" next) last) ∷ [])
      0
      (ingest_chunk now last from_s1 (arrive from_s1 next busy))
stream-IsCommitted_example =
    stream-IsCommitted from_s1 "s-1" next now last busy 0 refl refl refl refl (ti-IsNext, tt)
      last-IsReply (unfold is_finished in refl) (unfold trim choice_text in refl)
