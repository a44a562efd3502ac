-- ===== src/Lib.antt =====
-- A model of the control plane of KubeHarbor (Kubernetes as a service): the decisions that its
-- reconcile loop, its admission checks and its stores make, as functions on explicit state.
--
-- Prelude, Go: shared notation, Go's maps, strings, int64, time and floats.
-- Domain: internal/domain/domain.go, the records of a cluster and what is observed of it. `int`
--   fields are integers; counters that only grow from 0 are natural numbers. A nil pointer and an
--   empty optional string are `none`.
-- Repair: internal/domain/repair.go, the automatic repair of nodes. Repair.Observe is
--   ObserveFaults, Repair.Merge is MergeFaults, Repair.Action is nextAction and below it, Repair.Plan
--   is Plan, Repair.Attempt is RecordAttempt and CompleteAttempt. Repair.Tick is reconcileRepair of
--   internal/reconcile/repair.go: what the store and the provisioner answer are its arguments.
-- NetPool: internal/netpool. NetPool.Ip is what it uses of Go's net; NetPool.Allocate is Allocate
--   and below it, NetPool.Derive is VIP, LoadBalancerIP and Gateway, NetPool.Static is static.go.
-- Maintenance: internal/domain/maintenance.go. Etcd: internal/domain/etcd.go (Etcd.Defrag) and
--   internal/domain/etcdsnapshot.go (Etcd.Snapshot).
-- Throttle: internal/app/throttle.go, with the login counters of internal/store/store.go and the part
--   of Login in internal/app/app.go that uses them: its check, and its count of a failure after the
--   directory's answer, are two steps, between which other logins run. recordFailure is one step; what
--   check reads of an address's counter may be of another moment than the name's.
-- Quota: internal/quota/quota.go, on Domain.User and on the nodes of Domain.Desired (DesiredNodes and
--   ValidateNodePools of internal/domain/domain.go).
-- Domain.Disks and Domain.Admission: the extra disks of a cluster and ValidateNodeDisks; Domain.Group
--   and Domain.Operation: groups, catalogs, the action history and metrics.
-- Catalog: internal/catalog/catalog.go. Catalog.Upgrades is UpgradesFor and NextUpgrade,
--   Catalog.Validate is validate.
-- Store: internal/store/store.go. Store.Table is what the maps of rows share, Store.Memory has the
--   calls on clusters, users, groups and catalogs, Store.Log those on secrets, operations, metrics,
--   health and etcd snapshots, Store.Scan the scans of the reconciler. Store.Requests has each write
--   as one request and the states that requests reach; the mutex makes each call one step.
-- Reconcile: internal/reconcile. Reconcile.WorkSet is clustersNeedingWork, Reconcile.Nodes is
--   nodeSpecs to toDomainNodes with the records of internal/provision, Reconcile.Wiring is
--   reconcileAddons and the wiring passes (with vault.go and registry.go), Reconcile.Replace is
--   replaceNode, Reconcile.Upgrade is reconcileUpgrade, Reconcile.Repairs is runRepairAction of
--   repair.go, Reconcile.Steps has the other steps (with etcd.go, etcdsnapshot.go and operations.go),
--   and Reconcile.Phases is reconcileOne. A step is a function of the store that may fail and keeps
--   what it wrote; Reconcile.Seams has what other services answer.
-- App.Access: accessTo, ListClusters and the authorization of cluster calls in internal/app/app.go.
-- Vault.Access: PoliciesForUser of internal/vault/vault.go.
-- Examples: the theorems at concrete inputs.
--
-- Instants are nanoseconds since Go's zero time, and differences saturate as in Go. Floats are a
-- parameter, of which no law is used. Texts for people (reasons, notes, events) are data with the
-- values that are formatted. Loops over Go maps run over the keys in some order.
--
-- Fuel: the walk along superseding bundles has two rounds more than there are bundles, and each
-- round sees a new one; the search of a supernet has one round more than the supernet has blocks, and
-- each round moves to the next block; the loop over an address range has two rounds more than the
-- distance of its ends, and 255.255.255.255 is no usable end, so its counter does not wrap; a number n
-- has at most n + 1 digits. Every other loop is structural.
--
-- A tick reads one instant for all its readings of the clock, and what it calls of a service answers
-- one thing for one argument.
--
-- Not modelled: calls of hypervisors, Ansible, Helm and databases, the HTTP layer, the portal; of
-- internal/app what is not named above; of the reconcile loop, the sweeps for metrics, health and
-- garbage, and the event log; the Postgres store; IPv6; white space and letters beyond ASCII; the
-- renderings HumanBytes, HumanDuration and MaintenanceWindow.String.
pub mod App
pub mod Catalog
pub mod Domain
pub mod Etcd
pub mod Examples
pub mod Go
pub mod Maintenance
pub mod NetPool
pub mod Prelude
pub mod Quota
pub mod Reconcile
pub mod Repair
pub mod Store
pub mod Throttle
pub mod Vault
