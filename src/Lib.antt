-- ===== src/Lib.antt =====
-- The core of the controller and the agent of L4Way, a layer-4 forwarder: a controller holds a plan of
-- nodes, backends and forwards, places the forwards on nodes, and publishes a desired state to the agent
-- of each node in stages; the agents probe the backends and count the traffic.
--
-- The parts and their files:
-- * Spec (internal/spec/types.go, canonical.go): the desired state of a node as a record with the fields
--   of the Go struct. Spec/Canonical is `DesiredState.Canonical` and its helpers, Spec/Checksum proves
--   what the checksum of a state relies on, Spec/Deadlines is `ForwardSpec.EffectiveLifecycle`.
-- * Spec/Identifier and Spec/Validate (internal/spec/validate.go): `DesiredState.Validate` as the list of
--   its issues, one child for each loop of it: Links, Checks, Forwards with Paths, and State for the
--   whole.
-- * Cluster (internal/cluster/types.go): the plan, what is known at run time, and the placements.
--   Cluster/Capacity, Nodes, Fabric, Backends and Place are the functions of
--   internal/cluster/scheduler.go: `fits`, `consume` and `effectiveReservation`; `chooseNode` and
--   `supports`; `matchingLinks`; `chooseBackend`; and `Place`, a fold over the forwards that passes on
--   the usage of the nodes. Their child modules hold the proofs.
-- * Rollout (internal/cluster/rollout.go): Rollout/States compares maps of desired states, Forwards and
--   Merge change one, Transitions holds the two checks before a rollout, Canary picks the first wave.
-- * Iam (internal/controller/iam/types.go, policy.go): the policy of a tenant. Iam/Validate is
--   `Policy.Validate`, Authorize is `AuthorizeForward` and `AuthorizeTarget`, DataPlane is
--   `DataPlanePolicy`, Canonical is `CanonicalizePolicy`.
-- * Health (internal/health/engine.go): `Engine.RunDue` on the map of probe states.
-- * Meter (internal/meter/tracker.go): `Tracker.Observe` on the state of the tracker.
-- * TargetDns (internal/targetdns/resolver.go): `LookupIPv4` and the cache with `Cache.Resolve`.
-- * Usage (internal/usage/types.go): the batches of counted traffic and `Batch.Validate`.
-- * Agent (internal/agent/store.go, reconciler.go): the durable record and its checks. Agent/Exec holds
--   the errors and the methods, which pass on a world of a host and a file; Agent/Machine the backends and
--   the store; Agent/Outbox the counting and the acknowledging of traffic; Agent/Converge the change of the
--   kernel, with Change and Rollback; Agent/Reconciler `Apply`, `Recover`, `Audit` and `Refresh`; Agent/Purge `Purge`.
--   Agent/Reconciler/Proofs/Steps is an agent over time, with failures, crashes and a host that changes.
-- * Control (internal/control/protocol.go): the capabilities that an agent offers and a state requires.
-- * Net models what these parts use of Go's `net/netip`; Prelude models maps, sorting and comparison;
--   Tests runs the definitions.
-- The reconciler of Agent accepts the states that Spec/Validate finds sound, counts traffic with Meter and
-- queues it as the batches of Usage.
-- The observations that Health reports decide in Cluster/Backends which backend serves a forward; the
-- capacities of Cluster/Capacity decide in Cluster/Nodes which node does; the user policies that
-- Iam/DataPlane makes are the `UserPolicySpec` of Spec, which Rollout/Merge keeps through the stages.
--
-- How the code is read:
-- * A method that changes its receiver takes the state and returns it with the result. An error is a
--   value of `Result`, with a constructor for each message; a panic (an empty pool, a missing exit
--   selector) is one as well.
-- * A Go map is an association list, and the order of the list stands for an order of iteration, which Go
--   leaves open; what is proved of the ingress of a forward assumes that its copies agree. `sort.Slice` is an insertion sort, one order of equal elements among those that Go
--   allows.
-- * A time is a number of nanoseconds, and 0 is the zero time. A `uint64` that is added to or subtracted
--   from wraps where the code can wrap: sequence numbers, usage of a node, the burst of a policy. A
--   string type with constants is a data type with `other` for all further values.
-- * `reflect.DeepEqual` is decided equality; on times it compares instants only.
-- * All loops run over lists, so that no fuel is needed.
--
-- Parameters: SHA-256 (`digest`), also after JSON for the checksum of a state, the text form of prefixes
-- (`PrefixText`), parsing and printing of addresses (`NetText`, `PeerText`, with base64 and the X25519
-- keys), the decimal text of a number in Control, the clock and the answers of the resolver in TargetDns,
-- the concurrent probes of a round (`gather`, of which Health/Schedule assumes that an outcome belongs to
-- a check that was due), and the `Machine` of Agent: the interfaces of the reconciler to nftables, tc, the
-- fabric and conntrack with their compilers, the clock, and the system calls on the file. What the proofs on
-- the rollback assume of these backends is `Restores`.
--
-- The file of Agent is the list of the records that it held, the newest first, since a rename replaces it
-- as a whole; a write ends in place, not in place, or in place with an error, when the directory cannot be
-- synced. That JSON reads back what it wrote is part of this picture; the length of the text is a parameter
-- (`file_size`), which `load` tests. The messages of `Validate` are kept
-- without the index and the values that they quote, and the result that goes with an error is left out.
--
-- What is not modelled: in Agent, the options of the constructor and the removal of the file before a
-- rename on Windows. In TargetDns, calls of other goroutines while a lookup runs. `Place` starts from a plan that is valid and canonical, so `Plan.Validate` and
-- `Plan.Canonical` are left out, as are `Compile` and the four phases of `BuildRolloutStages`. The text
-- of an alert is left out. An error text that is cut at 512 bytes loses a character that the cut would
-- split. `CanonicalizePolicy` also sorts the slices of its argument in place; the model returns a new
-- policy. The compilers and executors of the data plane, the stores of the controller, the HTTP and gRPC handlers, the secure channel and
-- the commands are calls of the system, of a database or of the network.
pub mod Prelude
pub mod Net
pub mod Spec
pub mod Health
pub mod Cluster
pub mod Rollout
pub mod Meter
pub mod Iam
pub mod TargetDns
pub mod Usage
pub mod Agent
pub mod Control
mod Tests
