-- ===== src/Lib.antt =====
-- dtbuildkit, a distributed image builder: the Go server under server/.
--
-- Users submit builds over HTTP. The API server keeps a row per build in Postgres, keeps the pending
-- builds in an in-memory queue too, and hands them to workers, which poll it, build with BuildKit and
-- report back. The parts call each other from the outside in: the service layer checks a submission,
-- fingerprints it, writes its row and queues it; it takes builds out of the queue by a score that the
-- scheduler computes from a worker's cache, and claims the row for the worker in the repository.
--
-- Files and the code that they model:
-- - Domain: server/internal/domain/domain.go. Status, Build and Worker.
-- - Queue: server/internal/queue/queue.go. A record of the heap's slice and the bound; one function for
--   each method of Queue. Queue/Heap has the loops of Go's container/heap on that slice (up, down, push,
--   pop, remove); Queue/Insert, Queue/Extract and Queue/Score have the theorems.
-- - Repo: server/internal/repo/repo.go. The two tables as lists of rows; one function for each method of
--   BuildRepo and WorkerRepo, with each SQL statement as an insertion, selection, update or deletion on
--   these lists. Repo/Steps is the step relation of its calls.
-- - Scheduler: server/internal/scheduler/scheduler.go. The consistent-hash ring and the map of workers;
--   one function for each method of Scheduler, with FNV-1a and the binary search of sort.Search.
-- - Validate: server/internal/validate/validate.go. Single and Bulk.
-- - Fingerprint: server/internal/fingerprint/fingerprint.go. FromDockerfile.
-- - Service: server/internal/service/service.go. The methods of BuildService, WorkerService and
--   Maintenance, on a record of tables, queue and scheduler.
-- - Config: server/internal/config/config.go. Default and LoadFromEnv.
-- - Api: server/internal/api/server.go and internal.go. One function per handler, on a decoded request and
--   the services' state, with the status code and the body as its result. Api/Server has NewServer, the
--   tickers of maintenanceLoop and the handlers that use the log broker; Api/Serves is the step relation.
-- - LogBroker: server/internal/api/logbroker.go. The map of subscribers and their channels, one function
--   for each step; LogBroker/Steps is the step relation, in which the handler of each subscriber runs its
--   statements in their order. LogBroker/Stream is the loop of streamSSE, with what else happens while it
--   runs.
-- - Worker: server/internal/worker/worker.go. The cache keys; Worker/Execute has one attempt of
--   tryExecuteBuild with executeBuild and downloadContext, on the folder of Worker/Folder, Worker/Retries
--   the retries of completeBuild and sendLog, and Worker/Loop the loop of Run as steps.
-- - Buildkit: server/internal/buildkit/client.go. The vertices of the progress messages as a tracker that
--   each message changes, the cache hit rate, and the checks on names; Buildkit/Run has Build, with its
--   arguments, the lines that it emits and the buffer.
-- - Blobs: server/internal/oss/oss.go, and serveBlob of server/internal/api/server.go. LocalStore on a map
--   from paths to contents, S3Store, and NewStoreFromEnv; Blobs/Contract is BlobStore's contract.
-- - Archive: tarGz of server/cmd/dtbuild/main.go and extractTarGz of server/internal/worker/worker.go, on
--   archives as lists of entries.
-- - Cli: server/cmd/dtbuild/main.go. The flags and the request of each command; Cli/Answers has what the
--   commands do with the answer, and main.
-- - Strings: the functions of Go's package strings that these files call, on ASCII text.
-- - Paths: Clean, Join and Dir of Go's package path/filepath.
-- - Base: shared types, operators, and lemmas on lists, numbers and sorting.
--
-- Conventions. A mutex makes a method one step, so a method is a function from a state to a state and a
-- result. SubmitBuild has other calls between its insert and its push; the other methods of the services
-- are modelled without calls in between, their claim of a row being one statement of the database. A
-- call of the database takes a Boolean that says whether the database answers, and a call that reads the
-- clock takes the time. A Go panic is `none`. A pointer to a build that the queue holds is the build's
-- value: after it is queued, only the caller that takes it out writes to it. Times are whole seconds, as
-- in the RFC 3339 texts of the tables; the cutoff of GC, which alone is written in local time, is what a
-- clock in the server's zone shows. Strings are lists of bytes, taken to be ASCII where the code
-- changes their case. A float64 is an abstract type with the operations that the code uses, and two laws
-- of `>`. SHA-256, UUIDs, time.ParseDuration, the text of a duration, and the decoding of JSON, base64, tar
-- and gzip are parameters or left out. So are the answers of HTTP requests, S3 and buildctl, and the faults
-- of the file system, which are part of the input of the operation that meets them.
--
-- Completions. The step relations admit every status in a completion, as the handler does. Theorems that
-- need the statuses that a worker sends have a hypothesis on the run, `Reported` for a step and
-- `AllReported` for a sequence: terminal, building, or none as for a log line.
--
-- Fuel. The binary search runs on one more unit than the ring has nodes, and the loops of the heap on the
-- length of the slice; both are proved to be enough as part of the theorems on their callers.
--
-- Not modelled: the routes, which are calls of a third-party router, and the encoding of responses
-- (server/internal/api); the watch for a cancellation during a build, which shows only in whether Build
-- fails (server/internal/worker); the metrics, the entry points, the Postgres connection and schema, which
-- are declarations and calls of third-party code; the Python gateway api, the web interface web and deploy.
pub mod Base
pub mod Domain
pub mod Strings
pub mod Paths
pub mod Blobs
pub mod Archive
pub mod Validate
pub mod Fingerprint
pub mod Queue
pub mod Repo
pub mod Scheduler
pub mod Service
pub mod Config
pub mod Api
pub mod Worker
pub mod Buildkit
pub mod LogBroker
pub mod Cli
