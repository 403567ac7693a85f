-- ===== src/Lib.antt =====
-- g-gateway's data plane, modelled and verified.
--
-- The gateway receives a request, finds its route (internal/router), chooses an endpoint of the
-- route's upstream (internal/upstream), and pays for a retry out of the upstream's budget. The parts:
--
--   Base      Booleans and tests on native numbers, lists, byte strings, order, signed integers.
--   Model     internal/model/resources.go: the resources the other parts read.
--   Router    internal/router. Pattern and Host are pattern.go: compilePathPattern, its match,
--             NormalizeRequestHost, compileHostPattern. Predicate is predicate.go and query.go.
--             Precedence, Tree, Compile and Match are router.go: comparePrecedence, insertCandidate
--             and finalizeNode, Compile, and Match with visit and consider. Precedence/Order, Tree/*
--             and Match/* hold proofs. Routes puts Compile and Match together.
--   Upstream  internal/upstream. Health is health.go, Budget is budget.go, Wrr is wrr.go, Chash is
--             chash.go, HashKey is hashkey.go; Weights is what wrr.go and chash.go share. Plan is the
--             attempt set and the selection of plan.go: it calls Wrr, Chash and Health as the code
--             does. Fingerprint is fingerprint.go and the transportKey of transport.go. Registry is
--             the tables of shared runtimes of registry.go, with Prepare and releaseRefsLocked;
--             Registry/Shared is one table, and Registry/Keys are the keys. Ownership is who owns
--             the runtimes: the candidates of registry.go, the plan sets and tunnel leases of plan.go
--             and reapNow of reaper.go, and Ownership/Machine runs their methods in any order. The
--             other files below these hold proofs.
--   Tunnel    internal/tunnel/registry.go: Register, Activate, Rollback, finish and Drain, as steps that
--             interleave, one for each section under the mutex and for each call after it; Tunnel/*
--             holds proofs.
--   Runtime   internal/runtime/manager.go: Apply, Release and Close on the registry of upstreams and its
--             owners, and Acquire by its atomic operations; Runtime/* holds proofs.
--   Proxy     internal/proxy: retryEligible of retry.go and executeAttempts of attempt.go, whose plan,
--             transport and context are the operations of `Attempting`. Retry is classifyAttempt and
--             cloneAttemptRequest of retry.go. Serving fills `Attempting` with the plan's selection,
--             budget and health of plan.go, for one request at a time; Proxy/Attempts, Proxy/Carried
--             and the files below Serving hold proofs.
--
-- State is passed explicitly: a method takes its receiver as a record and returns the new one. A Go
-- string is a list of bytes, a map is an association list or a function, an error is `none` or a
-- constructor of a result type, a nil pointer is `none`. The words that the code computes with wrap where
-- its own do: those of weights, schedules, hashes, tickets, budgets and health, and the ids of tunnels.
-- The counts of live objects do not wrap here: the references of the registry's tables and of plan sets,
-- the requests and leases on them, the gauge of active plan sets and the WaitGroup of tunnels are natural
-- numbers, where the code has int, int64 or uint64; each counts owners that are in memory at once.
-- Budget.Threads interleaves the atomic steps of any number of requests.
--
-- The tree of routes is a data type of nodes, and an insertion or a visit recurses on it, so nothing
-- runs out there. The only fuel is that of the schedule's compiler: `wrr_fuel` is 8192 rounds, one for
-- each place of a schedule, and a schedule has at most 8192 places. A 64-bit word has at most ten
-- groups of seven bits, which is the depth of `uvarint`. The loop of attempts recurses on the attempts
-- that are left, at most five, and does not run out of them.
--
-- Parameters stand for code outside the repository: `Library` and `Net` for Go's string, network and
-- URL functions, `Json` for json.Marshal, and functions of bytes for xxhash and SHA-256. `Compilers`,
-- `Builder` and `Attempting` are what Prepare, Apply and the loop of attempts call: the first stands for
-- those and for the compiler of transport profiles, the others for the builder of snapshots and for the
-- plan, the transport and the request of the loop, where either error of the first selection is
-- `no_endpoint`; `Transport` and `Errors` are the transport of one
-- request, and what the standard library's errors.As and errors.Is find. sort.Slice is insertion sort and sort.Search is the
-- least index, by their contracts; container/heap is used by its contract.
--
-- Not modelled: sockets, TLS, goroutines that wait, timers, telemetry and the statistics of the
-- registry, and the loading of configuration. The rest of the proxy, the plugins and the builder of
-- snapshots are not modelled either.
mod Base
pub mod Model
pub mod Upstream
pub mod Router
pub mod Tunnel
pub mod Runtime
pub mod Proxy
