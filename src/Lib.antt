-- ===== src/Lib.antt =====
-- The verification library of the littlered operator, which keeps Redis instances on Kubernetes.
--
-- The program gathers the state of an instance from its pods (internal/redis), and pure planners
-- (internal/redis and internal/controller) decide over it; the reconcile loops carry the plans out.
-- What is modelled here are the gathered states and the planners. A planner is a function by
-- clauses, and its plan is a record whose fields are those of the source's struct.
--
--   Prelude       numbers, texts, sorting and decimal notation, as Go has them
--   Replication   internal/redis/replication_state.go: State has the records and the predicates over
--                 the pods; Lineage has isZeroReplid and holdersDiverged (find, union, connect and
--                 components are its closures and passes); BestHolder has holdersForked and
--                 BestDataHolder; Sentinels has DetermineRealMaster, SentinelsMonitorGhostMaster,
--                 AllSentinelsBare and GetHealActions, and Sentinels/Gates the gates they read; Rescue has
--                 internal/controller/replica_rescue_plan.go
--   Recovery      internal/controller/leaderless_recovery.go and ghost_master_recovery.go: what the
--                 loop elects when no Sentinel knows a master, or all of them a dead one
--   Capture       internal/controller/forsaken_plan.go (an instance whose master is a foreign one);
--                 Capture/Quarantine has quarantine_plan.go, and the status writes setForsaken,
--                 clearForsaken and sentinelDesiredReplicas of littlered_controller.go
--   Naming        internal/controller/stale_master_name_plan.go (renaming the monitored master), and
--                 operationDriverReport of operation_wiring.go
--   Failover      internal/controller/failover_intent.go: Intent has the assignments on the pods,
--                 resolveFailoverIntent, the settled gates, planFailoverReauth and
--                 planFailoverRepoints; internal/controller/failover_plan.go: Death has planMasterDeath; Plan has
--                 planFailover (verify, act and elect are its steps), planFailoverFence and
--                 masterStartAuthorizedFor; Watcher has the streak of failed probes of
--                 failover_monitor.go
--   Operations    internal/controller/operation_plan.go: Plan has planOperation, whose rows are
--                 rows, queue, pick_from, row_completed, release and row_running; Wiring has what
--                 operation_wiring.go reads from the status and writes back to it
--   Cluster       internal/redis/cluster_state.go (State, Meets), cluster_client.go (Slots) and
--                 migration_plan.go (Migration, Migration/Plan); Reshard has
--                 internal/redis/reshard_plan.go; Rollout has internal/controller/cluster_rollout.go
--                 with the pods of cluster_topology.go; Wipe has cluster_wipe_recovery.go
--
-- Replication gives Failover, Recovery, Capture and Naming the gathered state: the data holders, the
-- node to elect and the masters the Sentinels name. What an election may rest on is said once, in
-- Failover/Plan/Acting, and Recovery says its own by it. Naming/Driver turns a
-- rename plan into the report that Operations queues, and Operations/Wiring carries the status from
-- one pass to the next. Cluster.State and Cluster.Slots give Migration,
-- Reshard and Rollout the owners of the slot ranges.
--
-- Conventions. A Go map is the list of its entries in the order in which `range` visits them, and a
-- set is a list. DetermineRealMaster's `range masterCounts` visits the tally, whose order stands for
-- any order. A pointer is the record it points to, or an Option where the source tests it for
-- nil; the maps and slices hold no nil pointers. A *metav1.Time that is nil or zero is `none`. A time
-- is its nanoseconds, an integer of Prelude.Int, and a difference of two times does not saturate; that the API server cuts a *metav1.Time to the second is
-- left out.
-- Epochs are int64, whose successor wraps around. The counts of shards and replicas are natural
-- numbers. Messages for humans are left out where no decision reads them. `find` recurses on fuel: one
-- more than the entries of the parent map, which is
-- enough, since a chain of parents visits each entry once (Replication/Lineage/Forest). No other
-- definition needs fuel.
--
-- Not modelled: the reconcile loops, the resource builders, the clients and the command line tool
-- (I/O), the classification of probe errors (it reads error values of other packages), the checks of
-- the registry of the operations (its rows and their digests are parameters), and the checks of
-- shard colocation and across instances (of these only flaggedDown).
pub mod Prelude
pub mod Replication
pub mod Recovery
pub mod Capture
pub mod Naming
pub mod Failover
pub mod Operations
pub mod Cluster
