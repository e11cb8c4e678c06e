-- ===== src/Lib.antt =====
-- vuhive-cloud is a control plane for load tests on Kubernetes. Test suites are compiled to artifacts,
-- runs of an artifact are dispatched as jobs, once or on a schedule, the pods of a distributed run
-- start together at a barrier, each pod takes its share of the workload, and a housekeeping cycle
-- purges what is older than a retention policy allows. A web back end (internal/bff) keeps the sessions
-- of the browsers and passes events on to them. This library models the domain of the control plane
-- (internal/domain), the coordinator of the barrier (internal/adapters/outbound/coordinator), the
-- services of the barrier, the suites, the runs, the schedules, the configurations, the secrets and
-- the housekeeping (internal/application/service), the writer that masks secrets in the log of a runner
-- (internal/runner), and the sessions, the event hub and the cache of the web back end.
--
-- Files and code:
--   Common, and the modules below it: Go's strings as lists of code points with strings.TrimSpace
--     (Strings), int64 with its wrap-around (Int), instants and durations (Time), maps as association
--     lists (Dict), the sentinel errors of internal/domain/model/errors.go and of the web back end
--     (Errors).
--   Run: internal/domain/model/run.go. A TestRun is a record; Start, Complete, Fail, FailWithMetrics,
--     Abort, Archive and the setters are start, complete, fail, fail_with_metrics, abort, archive and so
--     on, from a run to a run with an error; `run` applies a list of calls.
--   Barrier: internal/domain/model/barrier.go, one function for each method of BarrierSession.
--   Coordinator: internal/adapters/outbound/coordinator/memory_coordinator.go. Await is `enter`, up to
--     its select, and `wake`, the case that the select takes; Step and Reach are the interleavings of
--     calls and wake-ups of any number of workers and runs. BarrierService is
--     internal/application/service/barrier_service.go over it.
--   Artifact, Suite, Configuration: internal/domain/model/artifact.go, suite.go and configuration.go, as
--     Run; Configuration.Service is internal/application/service/config_service.go and Suite.Service
--     internal/application/service/suite_service.go, over their ports.
--   Retention: internal/domain/model/retention.go, and the cut-off times of
--     internal/application/service/housekeeping_service.go.
--   Partition: internal/domain/service/workload_partitioner.go and internal/domain/model/partition.go.
--     Numbers is strconv.Atoi and Itoa, Shares is partitionValue, Nodes the walks over a YAML document,
--     Scenarios the loop of partitionForIndex, Workload the rest of it, PartitionWorkload and
--     PartitionForWorker. gopkg.in/yaml.v3 is a parameter: `parse` and `encode`.
--   RunService: internal/application/service/run_service.go, over a record of ports (Ports) on a state
--     of any type. Operations has the five use cases that change a run, Queries the others; IsLawful
--     holds the contracts of the ports that the theorems use, and Memory is an instance of it that keeps
--     the runs in a list. The calls are those of the source in its order, each with the state that the
--     one before it left.
--   Housekeeping: internal/application/service/housekeeping_service.go. Cycle has one function for each
--     of the five numbered steps of RunHousekeeping, Bucket the lifecycle rules of the bucket and the
--     worker. Storage is internal/adapters/outbound/s3/keys.go, which those rules are read against.
--   Schedule: internal/domain/model/schedule.go; Schedule.Service is
--     internal/application/service/schedule_service.go over its ports, which act on a database and on a
--     cluster.
--   Secrets: internal/domain/model/secret.go; Template is internal/domain/service/template_resolver.go
--     and Service internal/application/service/secret_service.go over its ports.
--   Masking: internal/runner/masking_writer.go, with strings.Replacer and sort.Slice written out.
--   Auth: the claims of a token and the tests of roles in internal/domain/model/auth.go.
--   Session: internal/bff/domain/model/session.go. Store is
--     internal/bff/adapters/outbound/session/memory/store.go and the port it implements, Service
--     internal/bff/application/service/session_service.go over any store, and Cleaning the calls of
--     internal/bff/application/service/cleaner.go among others.
--   EventHub: internal/bff/adapters/outbound/eventhub/hub.go. What the code does between the lock and
--     the unlock is one step; the sends of a broadcast, the parts of an unsubscription and the closing
--     of each channel by Close are steps of their own, which those of other calls may come between.
--   Caching: internal/bff/adapters/outbound/cache/memory.go, and the health probes of
--     internal/adapters/inbound/rest/health_tracker.go.
--
-- Conventions: a method that mutates its receiver returns the new record, with its error if it has
-- one. time.Now, uuid.NewString and the timers are arguments; a method that reads the clock more than
-- once takes one instant for each reading that matters. A string that stands for an enumeration is a
-- data type with a constructor for any other text. A float64 that is only copied is its bit pattern.
-- Error messages and logging are left out: a wrapped error is its sentinel. An instant is an unbounded
-- integer of nanoseconds; durations wrap where the source computes with them. Loops are recursions on
-- lists or on a number of turns. There is fuel in three places: the digits that Itoa prints, 19, which
-- every int fits in; and the scanner of the placeholders and the replacer of the masking writer, which
-- take as many turns as the text has characters and consume one at least in each.
--
-- What the code takes from elsewhere is an argument: the parser and the encoder of yaml.v3 and the
-- upper-case mapping beyond ASCII in Partition, the cron parser in Schedule, the repositories, the
-- orchestrators, the encryptor, the bucket and the event publisher in the services, and the keys that
-- a lifecycle rule of the bucket applies to; contracts stand as hypotheses of the theorems that use
-- them. The parser of the summary report
-- (internal/domain/service/report_parser.go) is an argument of CompleteRun too: it is not modelled. The
-- regular expressions of the template resolver, which the source gives as literals, are written out.
-- The masking writer is modelled on text: a write that ends within a character is not.
--
-- Not modelled: the adapters for PostgreSQL, S3 (other than its keys), Kubernetes, Keycloak and
-- HTTP, the command line, the web interface, and the wiring in cmd, which are input and output
-- through other libraries; the runner profiles, the build service with its static analyser and its
-- check of Go versions, and the poller and the circuit breaker of the web back end. The data race
-- of BarrierService.AwaitRendezvous, which reads the session without its mutex, is taken as an
-- atomic reading.
pub mod Common
pub mod Run
pub mod Barrier
pub mod Coordinator
pub mod BarrierService
pub mod Artifact
pub mod Retention
pub mod Partition
pub mod Suite
pub mod RunService
pub mod Housekeeping
pub mod Session
pub mod Secrets
pub mod Masking
pub mod Storage
pub mod EventHub
pub mod Auth
pub mod Schedule
pub mod Caching
pub mod Configuration
