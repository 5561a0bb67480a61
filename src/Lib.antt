-- ===== src/Lib.antt =====
-- kubejob runs a command in a Kubernetes Job: it creates the job, watches its pod, lets a caller
-- execute commands in the containers, streams the logs and cleans up. This library models that Go
-- code with explicit state, and proves what its parts promise to one another.
--
-- How the parts interact. `Job.Run` (job.go) lets the hook of the init containers and the
-- pre-init step prepare their containers, creates the job and runs the watch loop. The loop gives
-- each event to the pre-init step (preinit.go) and to the hook (executor.go, jobInit), and starts
-- the work on the pod once it is ready. These work through executors (executor.go), which run one
-- command per container, by the exec API or by the agent (agent_client.go), with retries. The
-- containers wait in commands of util.go until their executor stops them. Errors of all parts are
-- the values of error.go. A deferred cleanup deletes job and pods. Files are copied out of a
-- container and into it (copy.go) by a tar there, or by the agent, whose client and server send
-- each other archives (agent.go). The command cmd/kubejob builds a job of its options and runs
-- it; cmd/kubejob-agent runs the agent's server.
--
-- - Prelude (Tests, Lists, Text): the shared names, Boolean tests, lists over native numbers,
--   texts.
-- - Kube: the part of the objects of the Kubernetes API that the code reads.
-- - Cluster: what the code calls and this repository does not hold, as a record of operations on
--   a world `W`: the API server, exec streams, gRPC, JWT, the backoff policy, standard output.
--   The modules take it as a parameter; nothing is assumed of it but by hypotheses that a theorem
--   names.
-- - Errors: error.go; one data type for the error types, and the constructors `errX` as `err_x`.
-- - Agent: agent.go, `AgentConfig`; Agent.Ports: theorems on the allocation of ports.
-- - Template: util.go.
-- - Executor.Command: the connection and one command with its retries (executor.go up to
--   `execWithRetry`, agent_client.go); Executor: the life of a `JobExecutor`, one function per
--   method; Executor.Normalize, Retry, Lifecycle: their theorems.
-- - Init, Init.Setup: `jobInit` and its setup (executor.go); Init.Recognition, Order, Prepared:
--   theorems.
-- - PreInit: preinit.go; PreInit.Logging: the logger that it replaces.
-- - Logs: levels, loggers and switches of job.go.
-- - Watch: `watchLoop` of job.go; Watch.Tasks and Watch.Outcome: theorems over lists of events.
-- - Job: `Run`, `wait` and `cleanup` of job.go; Job.Cleanup and Job.Lifetime: theorems.
-- - Builder, Builder.Validation: builder.go.
-- - Errors.Failed, Errors.Texts: `FailedJob` and the `Error` methods of error.go.
-- - Execution: `RunWithExecutionHandler` of executor.go; Execution.Waiting, Callback, Outcome:
--   theorems on its setup, its callback and its result.
-- - Streams, Streams.Order: the log streams of job.go, from what is read to what is sent to the
--   logger.
-- - Pending, Pending.Timeout: `watchPodPendingPhase` of job.go, over the polls that it makes.
-- - Transfer, Transfer.Whole: the chunked copy streams between agent_client.go and
--   agent_server.go.
-- - Server: the agent's `Exec` (agent_server.go), with what its client makes of a failure.
-- - Executor.Authorization: the tokens, `authorizeAgentJWT` of agent.go and `authFunc` of
--   agent_server.go.
-- - Paths, Paths.Normal, Parent, Below, Last: Go's `path` and `path/filepath` on slash-separated
--   texts, with the cleaned paths that cleaning leaves as they are; Os: the operating system, a
--   record like Cluster.
-- - Untar: `untarAll`, `isDstRelative` and `trimShortcutPath` of copy.go; Untar.Shortcut, Inside,
--   Confined, Placed: theorems on the shortcut, the guard, the calls that are made and what
--   becomes of an archive.
-- - Tar: `writeWithTar` of copy.go; Tar.Tree: the tree of the files; Tar.Landing: where they are
--   unpacked.
-- - Copy: `CopyFromPod` and its retry (copy.go); Copy.ToPod: `CopyToPod`; Copy.Rounds, Whole,
--   Sent: theorems on the retry and on a whole copy, each way. What the executor needs of the
--   agent's client for it is a field of `Copier`, of the shape of `agent_copy_from` and
--   `agent_copy_to` of AgentCopy.
-- - Archive: `archivePath`, `extractArchivedFile` and `createFile` of agent.go; Archive.Names,
--   Extract, Created: theorems on what is archived, the calls that are made and what becomes of
--   an archive.
-- - AgentCopy: `CopyFrom` and `CopyTo` of agent_client.go and of agent_server.go around the
--   streams of Transfer; AgentCopy.Answers, Whole: theorems on the answers and on a whole copy.
-- - Serving, Serving.Stopping: `Run` and `Finish` of agent_server.go as a step relation. Between
--   its receive from `stopCh` and `GracefulStop` the server still takes calls.
-- - Cli, Cli.Exits: cmd/kubejob/main.go and cmd/kubejob-agent/main.go.
-- - Tests: a recording cluster and the theorems at concrete inputs.
--
-- State. An operation takes the record that it changes and the world and returns both beside its
-- result; a record comes back beside an error too, with what was written before it. A nil pointer
-- that matters is `none`, and a dereference of nil or an index out of range is the outcome
-- `panic`, save for the pod and the client of an executor, which are set before it is handed out.
-- Ports are uint16: `lastAllocatedPort + 1` wraps around by `% 2 ^ 16`. A map is an association
-- list, and a map to the empty struct a list.
--
-- Bounds and fuel. `writeWithTar` recurses on a bound for the nesting of the directories, with
-- which the theorem on it says what is enough, namely the height of the tree. No other function
-- runs on fuel: the retry loops recurse on the number of rounds that the backoff policy grants,
-- the loop over ports on the ports that are left below 9000, the sender of a file on a round for
-- each byte of it, of which each takes one at least, all others on the list that they range over.
-- The watch channel is the list of its events until it closes; the loop that polls a starting pod
-- runs over the polls that are made, and says so if it goes on after them, since the code sets no
-- bound without a timeout.
--
-- Concurrency. The goroutines that the watch loop starts are tasks in the order of their start,
-- and `eg.Wait` is an argument of the model; so is the choice of the `select` in `Run`, with what
-- the abandoned goroutine did until then. The operations of an executor are modelled one after
-- the other, in any order; its lock guards single reads and writes of the flag only, and
-- operations of one executor that overlap are not covered. The goroutine that reads a log goes on
-- after the value that ends its stream: what it may still send comes apart, as the late logs of
-- its container.
--
-- Copies. An archive is the list of its entries, with the error that ends it, as the tar reader
-- gives them, or the list of the headers and bodies that the tar writer is given. A stream with
-- its goroutine is given by what the other side has read of it when it ends. The local files do
-- not change while they are archived.
--
-- What is not modelled. Generated protocol code is left to protoc, and the formats of tar, YAML,
-- PEM and JWT to their libraries. The text `%T` gives for the type of an error in `untarAll` is
-- left out of its message. `Serve` is taken to return only when the server is stopped.
pub mod Prelude
pub mod Kube
pub mod Errors
pub mod Agent
pub mod Template
pub mod Cluster
pub mod Executor
pub mod Init
pub mod Logs
pub mod PreInit
pub mod Watch
pub mod Job
pub mod Builder
pub mod Execution
pub mod Streams
pub mod Transfer
pub mod Server
pub mod Pending
pub mod Paths
pub mod Os
pub mod Untar
pub mod Cli
pub mod Serving
pub mod Tar
pub mod Archive
pub mod AgentCopy
pub mod Copy
mod Tests
