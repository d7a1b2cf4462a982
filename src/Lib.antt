-- ===== src/Lib.antt =====
-- labeler-relay: a relay for the labels of AT Protocol labelers.
--
-- The program watches the network's firehose for accounts that become labelers (internal/firehose),
-- keeps them in a registry (internal/store/registry.go) that an operator can change
-- (internal/admin), subscribes to every enabled one (internal/slurper), writes each frame it gets
-- into a numbered event log (internal/store/persist.go), and serves the log and what is appended
-- to it to its own consumers over WebSockets (internal/server). A consumer resumes with a cursor,
-- the number of the last event it has; a prune job (internal/store/prunejob.go) removes old events.
--
-- Store.Events       PersistIngest of internal/store/persist.go and the `events` table. A call of the
--                    database that may fail takes its outcome as an argument, a `Fault`; the
--                    transaction works on a copy of the table. The encoders of
--                    internal/store/frame.go are the parameter `Encoders`, which Store.Frame fills.
-- Store.Frame        internal/store/frame.go; Store.Meta GetMeta and SetMeta of internal/store/store.go.
-- Store.Log          the log that the table stands for, as steps of an abstract state: a specification
--                    of PersistIngest and the deletions of Prune.
-- Store.Playback     PlaybackFrames, PlaybackFramesChunk, Head, RetentionFloor and CursorStatus.
-- Store.Prune        Prune, a loop on fuel: one round more than there are old rows is enough, since
--                    each full batch removes one at least; and PruneJob's tick and Run.
-- Store.EventPersistence the stubs of an interface of indigo in internal/store/persist.go.
-- Store.Registry     every method of LabelerRegistry; Store.Listing has its two listings.
-- Server.Channel     Go's buffered channels; Server.Hub the fan-out of internal/server/hub.go.
-- Server.Seam        StreamFrom of internal/server/seam.go. Its goroutine, the drainer, the writer and
--                    the prune job are threads, and a schedule is a list of their steps, so every
--                    interleaving is one list (Server.Seam.Schedule). The invariant that carries the
--                    delivery theorems is in Server.Seam.Invariant, and each thread has a module that
--                    shows its steps to keep it. A prune that removes events which the stream has
--                    still to read loses them for it, so the theorems are about schedules without one.
--                    Server.Seam.Progress drives a stream that is left alone to its end.
-- Server.Subscribe   HandleSubscribeLabelers of internal/server/subscribe.go around StreamFrom: where a
--                    subscriber's stream starts and which frames it gets; Server.Subscribe.Wire has the
--                    whole handler, to the bytes of each message.
-- Server.Frames      internal/server/frames.go and its codec; Server.Health internal/server/health.go.
-- Slurper.Backoff    internal/backoff/backoff.go; Slurper.Policy and Slurper.Limiter internal/slurper/policy.go
--                    and ratelimit.go, whose loop is on fuel, one unit for each poll.
-- Slurper.Frames     handleLabelLabels of internal/slurper/subscription.go over Store.Events and
--                    Store.Registry. A label is a type of a library, of which `Sig` is read.
-- Slurper.Reconcile  Reconcile, Run, Poke and Shutdown of internal/slurper/slurper.go. Starting and cancelling
--                    a goroutine is an entry in a log; the goroutine's frames are Slurper.Frames.
--                    Slurper.Reconcile.Converges is about the loop over many wakes.
-- Slurper.Dial       dial of internal/slurper/subscription.go, one connection to a labeler.
-- Slurper.Delivery   a labeler's whole stream against its subscription: connections, frames, ends of a
--                    connection and the moves of other goroutines as steps.
-- Upstream           what the two websocket clients share: the URLs, and the redial loop.
-- Firehose           handleCommit and maybeFlushCursor of internal/firehose/watcher.go; Firehose.Extract has
--                    extract.go, Firehose.Resolve resolve.go, Firehose.Dial one session with the flush of
--                    the cursor on the way out, and Firehose.Redial its redial loop.
-- Verify             internal/verify/verify.go.
-- Cbor               what the generated code of api/community/cbor_gen.go and internal/server/cbor_gen.go
--                    does for every type. The library cbor-gen is the parameter `Cbg`, its calls with what
--                    CBOR says of them; Cbor.Sample is a small format that keeps those laws.
-- Community          the types of api/community/types.go and their codec.
-- Admin              the handlers of internal/admin/admin.go and RequireBearer of auth.go, from a decoded
--                    request to the response, the registry and the number of pokes; Admin.Routes has Routes,
--                    the matching of a request's method and path and the token in front of each handler.
-- Config             internal/config/config.go; the environment is a function, the parsers of Go's standard
--                    library are parameters.
-- Metrics            internal/metrics/metrics.go: the collectors and Register, over a Prometheus registry, which
--                    is a parameter with what it documents of names that are registered twice.
-- Wiring             run of cmd/labeler-relay/main.go: what each part takes of the configuration, the
--                    callbacks that join the parts and set the metrics, and how the process ends.
--                    Wiring.Ingest is about an ingest down to the consumers' channels, Wiring.Control about
--                    the admin API with the slurper, Wiring.Discovery about the firehose with the slurper,
--                    Wiring.Gauged about the counters, and Wiring.Routing has the paths of the HTTP
--                    server. The constructors and setters that it calls are in Slurper.Wired,
--                    Server.Subscribe.Settings and Store.Prune.Job.
-- Tests modules run the definitions and apply the theorems at concrete data.
--
-- An event's number is a natural number below 2^63 - 1, where SQLite refuses the next row; cursors
-- and times are signed, and arithmetic on them that can leave 64 bits wraps as it does in Go.
-- A number that a gauge's callback gets is converted to float64 by Prelude.Float, as the integer that the
-- result stands for, which is exact below 2^53 and rounded from there on. The counters are sums of
-- numbers of labels, which Prometheus keeps exactly; one that passes 2^53 labels is not considered.
--
-- Not modelled: sockets, HTTP servers and JSON, the bytes of CBOR headers, the reader of repository
-- archives, the checks of signatures, the sliding windows of the rate limiter and the exposition of metrics,
-- which are calls of libraries and parameters here; logging; the generator in gen/main.go; and the tests.
pub mod Prelude
pub mod Store
pub mod Server
pub mod Slurper
pub mod Upstream
pub mod Verify
pub mod Admin
pub mod Firehose
pub mod Config
pub mod Metrics
pub mod Wiring
pub mod Cbor
pub mod Community
