-- ===== src/Lib.antt =====
-- Aquila: the experiment queue and the policy that earns a change its validation.
--
-- Aquila replays the requests of a workload against two builds of a service, the baseline and the
-- patch. A request for this (internal/jobs, CreateOpts) carries a DAG of steps (internal/plan); the
-- queue turns the steps into tasks, leases them to workers, takes their results, and asks the
-- validation policy (internal/validate) whether the evidence is enough. What a request should
-- exercise comes from the spans of the running services (internal/ingest), from the graph of
-- services that they show (internal/graph) and from a diff (internal/diff). The model covers the
-- queue with its in-memory and its Postgres store, the policy, what these two use of the comparison
-- of replays (internal/replay), of the route labels (internal/impact) and of the check of targets
-- (internal/netguard), the workloads and their files (internal/replay), the plan of a DAG and its
-- execution up to the requests (internal/plan), the store of spans with its window, the graph, the
-- parser and the applier of diffs, and which changed files are bound to functions (internal/impact).
--
-- Files
--   Base            tests, lists, texts, integers and decimals that the other modules share
--   Url             what the code uses of net/url and net/netip; the parsers are a parameter
--   Gitrev          internal/gitrev/snapshot.go: Revision
--   Netguard        internal/netguard/netguard.go: Blocked, CheckURL
--   Replay          internal/replay: the records; Replay/Json and Replay/Compare are compare.go,
--                   Replay/Latency is latency.go, Replay/Traffic, Files and Headers are workload.go,
--                   file.go and headers.go
--   Plan            internal/plan: the records of plan.go and run.go; Plan/Build is plan.go, Plan/Burst
--                   is fault.go, Plan/Overall is Overall, Plan/Execute the rest of run.go and
--                   probeFault
--   Impact          internal/impact: the records; Impact/Routes is RouteMatches, Impact/Classes
--                   is Classify (files.go)
--   Validate        internal/validate/decide.go: the types; Steps, Duplicates, Coverage and Targets
--                   are the blockers, Decide is Decide
--   Jobs            internal/jobs/store.go: the types; Dag and Attempt are enqueue.go, Lifecycle is
--                   earned.go, Quota is quota.go and occupancy.go, Create is validateCreate and
--                   buildJob, Memory is memory.go, Postgres is postgres.go
--   Ingest          internal/ingest: span.go; Window, Memory and Attach are window.go, memory.go and
--                   attach.go
--   Graph           internal/graph/graph.go: Entries is traceEntries, Paths is walkPaths, Build is Build
--                   and EntryForSpan
--   Diff            internal/diff: the paths and headers of parse.go; Parse is Parse, Collect and Apply
--                   are apply.go
--   Examples        inputs on which the theorems are applied; Jobs/Memory, Jobs/Postgres, Ingest,
--                   Graph, Diff, Replay, Plan and Impact have Examples of their own
--
-- How the code is modelled
--   State is passed along: a method of Memory takes the store and returns it with its result. The
--   mutex of the store makes each method one step, and Jobs.Memory.Effects.Reach is any sequence of
--   such steps. The context's error, the clock and the ids that newID draws are arguments; a drawn
--   id of a job is assumed not to be in the store, and validateCreate and buildJob, which follow
--   each other at once, read the clock as one argument.
--   A method of the Postgres store is one transaction on the rows of aquila.jobs, as the row locks
--   order the transactions on a job; the error of each statement is an argument, and a transaction
--   that is rolled back leaves the rows as they were. That PostgreSQL undoes such a transaction is
--   taken from its documentation. Where Commit returns an error, a further argument says whether it
--   was applied. A payload is the job that package json reads
--   back; columns that no query reads are left out.
--   Parse and collectApply are passes over the lines with the variables of the loop as their state.
--   Apply acts on a tree of files under an absolute, clean root; utf8.Valid, the error of the scanner
--   and the errors of writes are arguments.
--   A text is the list of its bytes, taken as ASCII where the code folds case. A time is a number of
--   nanoseconds, 0 the zero time. Go's int and int64 are integers, with the wrap of 64 bits where
--   the code adds or subtracts near a bound (the fence, the shift of a median); lengths and sums of
--   counters are exact, as they stay far below 2 ^ 63.
--   A map is an association list, and a loop over one runs in the order of the list. The methods of
--   the store look for the first task of an id in that order.
--   The error of a fmt.Errorf is its text without the values in it; those of ReadFile are data, and
--   those of HealthzPath, which become notes, have their values.
--   The loop of settle runs at most as many rounds as there are tasks, as in the code; a round that
--   changes nothing ends it, and any other moves a pending task on. The climb of traceEntries and
--   the descent of walkPaths get one step more than the trace has spans, and neither comes to a span
--   that it is at already. All other loops are over lists.
--   The percentile of latency.go is computed in float64; up to the 100 samples of a replay its
--   ceiling is the exact one that Replay.Latency.rank takes.
--   json.Unmarshal, url.Parse, netip.ParseAddr and the methods of url.URL are parameters, about
--   which nothing is assumed; json.Compact is one that is assumed to make no text longer.
--   The answers of the targets, the goroutines of Burst, the test runner and the fault proxy are the
--   fields of Plan.Execute.World, with the print of a duration; os.ReadFile and os.LookupEnv those
--   of Replay.Files.Host. A range loop over a map of headers takes them in the order of a list.
--
-- Not modelled: the reaper's timer, the wire forms of a request, the decoding of OTLP and the
-- sanitizer of spans (protobuf, a regular expression over Unicode), the Postgres store of spans, the
-- analysis of a diff against spans, the sending of requests, git, the index of the source, the
-- records of runs and evidence, the worker, the API and the commands.
pub mod Base
pub mod Url
pub mod Gitrev
pub mod Netguard
pub mod Replay
pub mod Plan
pub mod Diff
pub mod Graph
pub mod Ingest
pub mod Impact
pub mod Validate
pub mod Jobs
pub mod Examples
