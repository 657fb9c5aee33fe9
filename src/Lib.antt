-- ===== src/Lib.antt =====
-- A model of the parts of the desktop application that decide what a conversation shows, which
-- streams and keys it trusts, and where its windows may go. Paths are those of the repository.
--
-- The parts, and the files that model them:
--   - The chat store, apps/desktop/src/stores/chat.ts, in Chat and below. Chat.State holds the
--     state of the store as one record, with what local storage holds and the calls to others that
--     it has made (`effects`, newest first), and the helpers on the thread list. Chat.Threads is
--     createThread and selectThread, the latter in two parts, `select_begin` and `select_finish`,
--     with the answer of the request between them. Chat.Route is _resolveChunkTarget,
--     Chat.ErrorChunk _extractErrorChunk, Chat.Background _ingestBackgroundChunk, Chat.Ingest
--     _ingestChunk for the stream on view. Chat.Turn is sendMessage, Chat.Transport its two
--     transports, and Chat.Session the ends of turns and sessions. Chat.History is fetchHistory,
--     and Chat.Account the loading of threads, the change of the user and the uploads. The other
--     modules of Chat hold what is proved of them: Chat.Isolation of the routing, Chat.Away of
--     leaving a stream and returning to it, Chat.Reply of a stream on view, Chat.Dispatch,
--     Chat.Fallback and Chat.Exit of turns and their transports, Chat.Identity of ids and native
--     sessions, Chat.Panel of the list of steps.
--   - The smaller stores, in Stores: apps/desktop/src/stores/toast.ts (Stores.Toast),
--     apps/desktop/src/api/authStaleCoordinator.ts (Stores.AuthStale),
--     apps/desktop/src/stores/activity.ts (Stores.Activity), and artifact.ts with the list of
--     delivered files of chat_artifacts.ts beside it (Stores.Artifact).
--   - The known hosts of SSH, apps/desktop/electron/bridge/ssh-known-hosts.ts, in Ssh.KnownHosts.
--   - The navigation policy, apps/desktop/electron/security/navigation-policy.ts, in
--     Security.Navigation; Security.Navigation.RawUrl holds its checks of a URL's text.
--   - The event streams, apps/desktop/src/api/sse.ts, in Sse: Sse.Framing is the read loop of
--     createSSEStream, Sse.Reconnect is createReconnectingSSE.
--   - The sessions of the local agent, apps/desktop/electron/cc/cc-wrapper.ts, in Agent.
--     Agent.Session holds the session object, the state of the module (all session objects that were
--     made, the maps `sessions` and `byConv`, and what was sent, asked and reported, newest first).
--     Agent.Registry is the maps, stopSession and stopProcess, Agent.Labels and Agent.Translate
--     translateEvent, Agent.Stdout handleStdoutChunk, Agent.Process the handlers of startSession for
--     exit, error and standard error, Agent.Send sendMessage, Agent.Config, Agent.Environment,
--     Agent.Launch and Agent.Start startSession with all it reads from the environment,
--     Agent.Attachments the attachments, Agent.Redact and Agent.Diagnostics what is written for
--     diagnosis. Agent.Events puts the calls and callbacks together as events. Agent.Owner holds what
--     is proved of the maps, with their abstract view, a function from conversations to sessions, in
--     Agent.Owner.Spec; Agent.Stops is about stopping and Agent.Output about the output in pieces.
--     Agent.Delivery follows what an agent says to the message in the chat store.
--   - The updater of the agent's runtime, apps/desktop/electron/cc/cc-runtime-updater.ts, in Runtime:
--     Runtime.Text is the forms of versions, hashes and base 64, Runtime.Manifest the manifest,
--     Runtime.Fetch fetchLatestVersion, Runtime.State what the module holds, on disk too, with
--     verifyManagedRuntime, Runtime.Install the download, installVersion and pruneOldVersions,
--     Runtime.Update checkAndUpdate, Runtime.Ensure what calls it. A run of
--     checkAndUpdate is one step.
-- Prelude holds what they share: tests, lists over the native numbers, maps, and texts. The chat store
-- calls the toasts for one warning and receives its chunks from the event streams and, through the
-- main process, from the sessions of the agent; a chunk arrives in the model as a record with the
-- fields that the code reads. The runtime that a session starts is the one that the updater names
-- (getCliPath), an argument of Agent.Start.
--
-- How the model stands to the code:
--   - A function of the store is a function from the state to the state. A call of another part that
--     may fail is an effect, and its answer an argument of the function that handles the answer.
--   - `undefined` and `null` are one value. A field of another type than the one that is tested for
--     is missing. A thread that the code holds on to across a request is looked up by its id.
--   - A text is a list of code points; a length is counted in UTF-16 units, and a pair that a slice
--     would cut is left out. The framing of event streams and the output of an agent are over lists of
--     UTF-16 units, the attachments over lists of bytes.
--   - A timer is an event that the model is told of. Times are natural numbers of milliseconds; a
--     clock that runs backwards gives a difference of 0.
--   - A session object that a callback holds on to is looked up by its id among all objects, so that
--     it is the same object when the session is in the maps no longer. The part of startSession up
--     to the process runs as one step: its only wait is for a promise that is already resolved.
--   - The URL parser, percent decoding, localeCompare, JSON.parse, the hash of a key, Node's path, the
--     encodings, the signatures, the processes and the file system are not in these files. They are
--     parameters, or their results are arguments.
-- Every loop runs over a list or a text. Only the decimal form of a number takes fuel, one more than
-- the number, and any more gives the same (Prelude.Text).
--
-- Not modelled: the rendering and the wiring of components, HTTP itself, the file system, Electron's
-- windows, and the other services of the desktop application.
pub mod Prelude
pub mod Chat
pub mod Stores
pub mod Ssh
pub mod Security
pub mod Sse
pub mod Agent
pub mod Runtime
