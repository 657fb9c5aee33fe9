-- ===== src/Chat/Tests/IdentityTests.antt =====
-- Identities at concrete states.
use agent_workflow_platform.Prelude.{refl, map, Option, none, some, []}
use agent_workflow_platform.Chat.Threads.{
  RemoteConversation, remote_session, select_begin, select_finish,
}
use agent_workflow_platform.Chat.Ingest.{ingest_chunk}
use agent_workflow_platform.Chat.Identity.{SameIdentities, identity}
use agent_workflow_platform.Chat.Identity.Select.{Adopts, select-Adopts}
use agent_workflow_platform.Chat.Identity.Stream.{ingest_chunk-SameIdentities}
use agent_workflow_platform.Chat.Tests.{now, busy, delta, from_s2}

abbrev answer : Option RemoteConversation
answer = some (record { messages = []; updated_at = none; cc_session_id = some "native-3" })

select-Adopts_example :
    SameIdentities busy (select_begin now "thread-3" busy)
    × Adopts "thread-3"
        (remote_session answer)
        (map identity (select_begin now "thread-3" busy).threads)
        (map identity (select_finish "thread-3" answer (select_begin now "thread-3" busy)).threads)
select-Adopts_example = select-Adopts now "thread-3" answer busy (select_begin now "thread-3" busy)

ingest_chunk-SameIdentities_example :
    SameIdentities busy (ingest_chunk now (delta "text") from_s2 busy)
ingest_chunk-SameIdentities_example =
    ingest_chunk-SameIdentities now (delta "text") from_s2 busy refl
