-- ===== src/Lib.antt =====
-- Verification of the control plane's own logic (Go, internal/). A server process takes requests,
-- asks the authorizer, checks quotas and rate limits, and hands long work to a durable job queue,
-- whose workers run it under leases that a heartbeat loop takes back from dead workers.
--
-- Parts and files:
--
-- - Base: tests into Bool, results with errors, lists, maps as ordered lists of entries (Base.Assoc)
--   and Go's signed integers (Base.Int).
-- - Identity: internal/domain/identity and internal/app/authz/authorizer.go. Identity.Subject is
--   user.go (HasRole, HasPermission), Identity.Authorizer is DynamicAuthorizer.Authorize,
--   Identity.Credentials the validity of API keys and refresh sessions. Identity.Access proves.
-- - Job: internal/domain/job/job.go (Job.Types), internal/infra/memory/job_repo.go (Job.Store, and
--   Job.Listing for List), internal/app/job/engine.go (Job.Backoff for calculateBackoff, Job.World for
--   the engine's state, Job.Engine for Submit, GetJob, ListJobs, CancelJob and RetryJob, Job.Worker for
--   the worker and heartbeat loops). The engine asks an authorizer, of which Identity.Authorizer is
--   one. Job.Invariant and Job.System state what every interleaving of requests, worker ticks and
--   heartbeats keeps where the callers are orderly; Job.Leases, Job.Claims, Job.Marks,
--   Job.Recovery, Job.Isolation, Job.Pages, Job.Ticks, Job.Finishes, Job.Endings and Job.Delays
--   prove the rest.
-- - RateLimit: internal/domain/ratelimit, internal/infra/memory/ratelimit_repo.go and
--   internal/app/ratelimit/service.go in RateLimit.Limiter; RateLimit.Window proves.
-- - Billing: internal/domain/billing/quota.go (Billing.Quota), internal/infra/memory/billing_repo.go
--   (Billing.Repo, without the creation and update of plans and subscriptions),
--   internal/app/billing/quota.go (Billing.Engine: CheckQuota, ReserveQuota,
--   ReleaseQuota). Billing.Reserve, Billing.Rollback, Billing.Release, Billing.Limits, Billing.Stale
--   and Billing.Kept prove.
-- - Telemetry: internal/infra/telemetry/ringbuffer.go in Telemetry.Ring (Push, PushBatch and the search
--   of QueryRange); Telemetry.Latest proves.
-- - Ipam: findNextAvailableIP and calculateTotalHostIPs of internal/app/ipam/service.go in Ipam.Search,
--   AllocateIP and ReleaseIP in Ipam.Service, the allocations of internal/infra/memory/ipam_repo.go in
--   Ipam.Allocations; Ipam.Free, Ipam.Unique, Ipam.Fresh and Ipam.Blocked prove.
-- - Compute: internal/domain/compute (Compute.Instance), internal/infra/memory/instance_repo.go
--   (Compute.Repo, whose two maps share their objects), and internal/app/compute/service.go:
--   Compute.Request is what CreateInstance checks and computes, Compute.Create is CreateInstance
--   over the quota engine of Billing.Engine, Compute.Service PowerAction, DeleteInstance,
--   UpdateSpec, GetInstance and ListInstances, Compute.Guest the files, backups and snapshots, and
--   Compute.Writes sequences of their calls. Compute.Sides, Compute.Consistent and Compute.Calls
--   prove on the repository, Compute.Stages, Compute.Accounts, Compute.Outcome and Compute.Deletion
--   on the creation and its quota, Compute.Unchanged on the guests.
-- - Placement: internal/app/scheduler/scheduler.go and internal/domain/placement/placement.go in
--   Placement.Scheduler, a choice of the node that CreateInstance may be given; Placement.Fits
--   proves.
-- - Node.Gateway: internal/transport/grpc/gateway.go, the messages for commands to an instance.
-- - Migration: internal/infra/memory/migration_repo.go in Migration.Repo and executeMigration of
--   internal/app/migration/service.go in Migration.Execute; Migration.Records and Migration.Outcome
--   say how a move ends, Migration.Wire what its commands are on the wire.
-- - Node: internal/domain/node (Node.Types), internal/infra/memory/node_repo.go (Node.Repo),
--   internal/app/node/service.go and the connections of connection_manager.go (Node.Service),
--   internal/app/nodehealth/supervisor.go (Node.Supervisor). Node.Views and Node.Health,
--   Node.Writes, Node.Revocation and Node.Race prove.
-- - Auth: the refresh sessions of internal/infra/memory/memory_repos.go and RefreshSession, Logout
--   and issueTokensAndRecordSession of internal/app/auth/service.go in Auth.Sessions; Auth.Family
--   and Auth.Rotation prove.
-- - Audit: internal/domain/audit/audit.go (Audit.Log), the audit repository of
--   internal/infra/memory/memory_repos.go (Audit.Trail) and the queries of
--   internal/app/audit/service.go (Audit.Service); Audit.Chain proves.
--
-- Conventions. A method becomes a function that takes the state and gives the new one with its
-- result; a mutex makes each call one step. An error is a value of a data type with the package's
-- error constants; a text that wraps one is dropped. A Go int and int64 is an integer ℤ whose sums and
-- differences are wrapped to 64 bits by `int64`; a time is the number of nanoseconds since the zero
-- time, without a bound, and a duration one of nanoseconds. A nil pointer is `none`. The clock, fresh
-- identifiers, random numbers, job handlers, texts of panics, hashes, the agents' answers and the
-- functions of Go's libraries on texts are arguments. One reading of the clock stands for all of a
-- call, but for the readings of CreateInstance after the node's answer and those of a worker's tick,
-- which are arguments of their own. A Go map is a list of its entries: a loop over it takes the
-- order of the list, and for the job queue a step of the system may reorder the list at any time,
-- since Go fixes no order. A slice expression that panics is an error value of its own.
--
-- Loops are structural recursion on the list that they range over, or on the number of turns that
-- their counter has left (Ipam.Search, Telemetry.Ring); no fuel is used. The worker and
-- heartbeat goroutines are single ticks, and Job.System orders them in all ways. In calculateBackoff the
-- random float64 is a multiple of 2^-53, and the product with it is taken exactly.
--
-- Not modelled: the PostgreSQL repositories (SQL), the Incus drivers and the agent (external
-- processes), cryptography, the transport and the web frontend; contexts and their cancelation, and
-- logging. The other services of internal/app are left out.
mod Base
pub mod Identity
pub mod Job
pub mod RateLimit
pub mod Billing
pub mod Compute
pub mod Node
pub mod Placement
pub mod Migration
pub mod Telemetry
pub mod Ipam
pub mod Audit
pub mod Auth
