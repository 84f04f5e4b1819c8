-- ===== src/Lib.antt =====
-- Bosun: a model of the operator's resource autoscaler and of its AgentSession controller, and of the
-- API server's sessions, rate limits, terminals and authentication, with the theorems that make them correct.
--
-- The program. Bosun runs Agent sessions on Kubernetes. The API server (backend) keeps sessions in a
-- database and one AgentSession object for each of them in the cluster. The operator turns these
-- objects into Pods, hibernates and deletes them, and its resource autoscaler changes the CPU of the running Agents in place: it
-- observes each session (a window of samples gives a load class and a recommended limit), plans
-- each Node (sessions of high priority share CPU max-min fairly, and take from those of normal
-- priority in proportion), carries the plan out (reductions before increases), and reserves a Node
-- for the first session that waits.
--
-- The files, and the code that they model:
--   Policy, Policy/Window, Policy/Load: operator/pkg/resourcepolicy/policy.go and autoscaling.go.
--     `prepare`, `reset` and `add` are the methods of SampleWindow, `recommendation` is
--     Recommendation.
--   Scheduler: operator/internal/controller/cpu_scheduler.go. `max_min_cpu` is maxMinCPU, with its
--   loops `distribute` and `round`; `proportional_cpu` is proportionalCPU.
--   Cluster: the fields of the Kubernetes objects that the operator reads.
--   Autoscaler/Capacity: nodeFreeCPU, nodeFreeMemory, the pending reservations and
--   nodeEligibleForAgent of operator/internal/controller/resource_autoscaler.go (as for all files of
--   Autoscaler).
--   Autoscaler/Plan: planNode and planFairPriority. The sessions of a Node are one list; the Go code's
--   slices of pointers into it are tests on its entries.
--   Autoscaler/Controller: the state of ResourceAutoscaler (windows, failed attempts), the Kubernetes
--   API as the record `Api`, updateScalingStatus and the functions over it.
--   Autoscaler/Observe: observeSession. Autoscaler/Resize: resizeState and applyNodePlan.
--   Its child Guards is about the checks of resizeState, Effect about what it does to the CPU limits of
--   a cluster on which the update of a Pod sets its limit or changes none (the record `IsCluster`,
--   what is documented of the Kubernetes API), Order about a plan that is carried out there.
--   Autoscaler/Reserve: reserveWaitingSession and reclaimForReservation.
--   Lifecycle: operator/internal/controller/agentsession_controller.go. The file itself has the objects
--   (of operator/api/v1alpha1/agentsession_types.go) and the parameters: `Kube` is the controller's
--   client, clock, quiescer and state reader, `Tools` are functions of libraries. Checks has the
--   names and the tests of objects, Workload the objects that are created, Phases the functions that
--   setStatus, fail and handleTransient are called with (one `to_...` for each status that is
--   written), Reconcile the reconcile itself: each early return is a branch, and what follows a call
--   is a function of its answer. Effects has the log of the calls of a run, Protocol the rules for
--   such a log, and its children the proof that Reconcile keeps to them. Retries has the retry
--   budget, which the controller keeps in the text of a condition.
--   Environment: operator/internal/controller/userenvironment_controller.go. Baseline has the objects
--   that ensureBaseline builds, each with the change that is made to what is stored, and the checks;
--   Reconcile has Reconcile, updateStatus and createOrUpdateOwned over the client, a parameter; Protocol
--   has the log of its calls and the rules for it, and Whole the proof that it keeps to them; Progress
--   shows that it gets to its end.
--   Backend/RateLimit: backend/internal/ratelimit/limiter.go.
--   Backend/Terminal: backend/internal/terminal/activity.go and lease.go.
--   Backend/Auth: backend/internal/auth/store.go with its queries (users.sql.go and
--   refresh_tokens.sql.go of backend/internal/database/sqlc) as functions of two tables, and a list
--   that says which calls of the database fail, and whether they were carried out. Its child Service
--   is backend/internal/auth/service.go: what one request draws from its clock and its random source
--   is the record `Draws`. Tokens, Steps, Rotation, Requests and Reuse are about the table of refresh
--   tokens; other requests in between two calls are steps of the relation `Step`.
--   Backend/Session: CRControl of backend/internal/session/kubernetes.go over a Kubernetes client.
--   Backend/Session/Service, with its child Lifecycle: backend/internal/session/service.go over its
--   interfaces, with
--   backend/internal/idempotency/idempotency.go and the names of operator/pkg/sessionidentity/names.go
--   and backend/internal/userenv/identity.go.
--   Backend/Session/Projection: backend/internal/session/projector.go with Project and
--   MarkCleanupComplete of store.go and their queries of backend/internal/database/sqlc/sessions.sql.go
--   as functions of the tables; a `Fault` says what becomes of each transaction. Newest is about the
--   rows after a watch.
--   Prelude: shared names, lists, sorting and string-keyed maps. Tests: runs on small inputs.
--
-- How code becomes definitions. Amounts (millicores, bytes, counts) and instants (nanoseconds) are
-- natural numbers: Kubernetes admits no negative quantity, the sums stay far below 2^63, and a
-- difference that the code floors with max(x, 0) is the subtraction that stops at 0. A comparison of
-- time differences is written with a sum. A Go map is a list of entries, and the theorems hold for
-- every order of it. A Go slice that is sorted is sorted by insertion: the comparisons end with a
-- unique key, so that the sorted order is unique. A text is counted in characters, as all labels and
-- messages of the code are ASCII. State is passed explicitly: a call that changes the cluster or the
-- database takes a world and returns the next one; logging is left out. What a call of the
-- Kubernetes API, of the database, of the clock or of a library returns is a field of a parameter
-- record (`Api`, `Client`, `Services`, `Library`), so that each theorem holds whatever they answer,
-- or whatever they answer within the documented laws that it names (`ReadsBack`, `IsCluster`).
-- A mutex makes a method one step.
--
-- Fuel. `distribute` has the pool as its fuel: a round either uses a millicore of the pool or is the
-- last one. The retries on conflict (`update_scaling_from`, `mutate_from`) run as many times as the
-- steps of the library's backoff, a field of the parameter; so do those of `set_status_from` and
-- `update_status_from`.
--
-- Not modelled: the cycle of the autoscaler (listing the cluster, the ticker), the reading of Kubelet
-- metrics, the gateway and the streams
-- of the terminal, the signatures and hashes of authentication, monitoring, HTTP handlers, the
-- other queries of the sessions, the repair loop, configuration and the wiring of the processes.
pub mod Prelude
pub mod Policy
pub mod Scheduler
pub mod Cluster
pub mod Autoscaler
pub mod Lifecycle
pub mod Environment
pub mod Backend
pub mod Tests
