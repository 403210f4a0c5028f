-- ===== src/Lib.antt =====
-- Antrea, a Kubernetes network plugin: parts of its control plane (antrea-controller) and of its
-- agent, modelled from the Go source. Paths are from the repository's root.
--
-- How the parts interact. The controller translates NetworkPolicies into internal policies and
-- groups and keeps them in an in-memory store, which sends events to the agents that watch it. An
-- agent computes rules from them, gives each an ID, and an OpenFlow priority with the priority
-- assigner, which moves the priorities of installed flows when a new one finds no place; the flows
-- of rules with a common match are one flow with the actions of all. The reconciler installs a
-- flow rule for each group of Pods that resolves the ports alike, and changes its addresses when
-- the groups change. Apart from that, the controller runs Traceflow requests, each under one of 14
-- data plane tags.
--
-- Files:
-- - Common: names that the rest shares; lists over the native numbers (Lists), Boolean tests and
--   equality of keys (Tests), Go maps as association lists with one entry for each key (Maps),
--   arithmetic of uint16 and uint32 with its wrap-around (Words), operations on the digits of
--   words (Bits), and a store that is a list (Stores).
-- - Priority: pkg/agent/types/networkpolicy.go (Priority with Less, Equals, InSamePriorityZone,
--   IsConsecutive) and InitialOFPriority of pkg/agent/controller/networkpolicy/priority.go. The
--   float64 of a policy's priority is a type `F` with the interface `Float` of its tests and its
--   conversion to uint16 (Order has the interface of the laws, Laws the results). An int32 is held
--   as its distance from -2^31.
-- - Sorted: sort.Search, and the sorted slice that the assigner keeps, with its insertion
--   and deletion.
-- - Assigner: priorityAssigner of pkg/agent/controller/networkpolicy/priority.go, its maps and its
--   sorted slice as the record of State: findReassignBoundaries (Boundaries),
--   reassignBoundaryPriorities (Reassign), insertConsecutivePriorities, RegisterPriorities and
--   Release (Register), and its results (Window, Mapping, Insert, Faults).
-- - RuleId: idAllocator of pkg/agent/controller/networkpolicy/allocator.go: newIDAllocator (results
--   in Restart), allocate and release (Usage).
-- - Conjunctions: pkg/agent/openflow/network_policy.go, on a heap of contexts and clauses. Changes:
--   addConjunctiveMatchFlow and deleteConjunctiveMatchFlow; Updates: sendConjunctiveFlows,
--   applyConjunctiveMatchFlows and updateContextStatus; Addresses: addresses, ports and the loops over
--   them; Rules: PolicyRule of pkg/agent/types/networkpolicy.go, the IDs of clauses and the action flows;
--   Clauses: calculateClauses and the changes of a rule; Install: InstallPolicyRuleFlows,
--   UninstallPolicyRuleFlows and getStalePriorities; Batch: BatchInstallPolicyRuleFlows,
--   AddPolicyRuleAddress, DeletePolicyRuleAddress and replayPolicyFlows; Reassign and Priorities:
--   ReassignFlowPriorities. Of the results, Actions and Realized have the lemmas, Shared and Leaving a
--   rule that joins and leaves, Unused the end of the context, Registry the cache and the clause, Cache
--   what is asked of client-go's indexer (Listed shows one), Stale the stale priorities, Extends and
--   Failing an install that fails, Conflicts the flows that are sent, Moved and Reassigned, Unmetered and
--   Lacking what a reassignment leaves. Samples has the data of the tests.
-- - RuleCache: ruleCache of pkg/agent/controller/networkpolicy/cache.go, with the sets of
--   pkg/apis/controlplane/v1beta1/sets.go: its operations on groups (Groups) and on policies, and the
--   completion of a rule (Policies). Changes has any sequence of the calls of the watchers, Indexes what
--   is asked of client-go's indexer (Stored shows one). The lemmas are in Marked and Regrouped for
--   groups, in Updated, Listed and Added for policies, and the results in Unmarked and Synced.
-- - Reconciler: reconciler of pkg/agent/controller/networkpolicy/reconciler.go, with Rules (what a rule
--   comes to), Installs, Updates, Adds and Calls; the ID allocator and the priority assigners are those of RuleId and
--   Assigner, the rules those of Conjunctions, and the OpenFlow client is a record of its calls. Flows has the
--   view of a client, Steps, Rounds, Loops and Targets the rounds of an update, Leftovers its end, Realized the
--   result for a view, and Asked that for what the calls ask of any client.
-- - GroupStore: pkg/controller/networkpolicy/store/addressgroup.go and util.go, which fill the
--   `Resource` of the store of Ram; the messages are those that RuleCache takes. Patches has the lemmas
--   on sets, Delivered the result.
-- - Cookie: pkg/agent/openflow/cookie/allocator.go (results in Segments).
-- - Cidr: pkg/util/ip/ip.go, on lists of bits (Agree has the facts of those): mergeCIDRs (Sort, Merge),
--   diffFromCIDR (Pieces), the loop of DiffFromCIDRs for one exception (Overlap, Loop) and for all
--   (Difference).
-- - Traceflow: Controller of pkg/controller/traceflow/controller.go: occupyTag, allocateTag and
--   deallocateTag (results in Tags), startTraceflow and syncTraceflow (Sync), checkTraceflowStatus
--   and the start of the controller (Progress).
-- - Ram: the store of pkg/apiserver/storage/ram/store.go (Calls) and the watchers of watch.go
--   (Watch). A watcher's goroutine is a list of atomic steps, and a run is a sequence of calls and
--   steps in any order. A channel holds its buffer and what was received from it, so that a
--   theorem can speak of all that was sent. Delivery says what a watcher should send; Process,
--   Dispatch, Versions and Steps show that each step keeps it, and Runs and Keys have the
--   results.
--
-- Choices. `sort.Search` runs on fuel, the length of the range, which its halving never uses up. The
-- loops of findReassignBoundaries recur on the lower bound and on the rounds that are left to the
-- highest priority. The loop after `beginLoop:` runs on
-- fuel, the number of blocks and one more: a round leaves fewer blocks with the start of the exception.
-- That of mergeCIDRs has the number of blocks. The loops of allocateTag and newIDAllocator recur on the rounds that are left.
-- What the code reads of its surroundings is a parameter: the bridge of the OpenFlow client and the
-- indexer that has its conjunctions (`Indexer`), the lister, the API client, the Pod indexer and the clock of the
-- Traceflow controller (`Environment`), the functions that the store is made with (`Resource`), the
-- timer of a dispatch (how many steps each watcher makes before it fires), and the capacity that a slice has, since `append`
-- writes in place where there is room. A call of the store that would block on a full channel is
-- made later in the run. A send on the result of a watcher that is stopped is dropped, as the code
-- allows.
--
-- Not modelled: BatchReconcile, the first round of the reconciler; the flows themselves but for their matches and conjunctive actions, and the rest of the
-- OpenFlow client, the
-- translation of policies, Services, routes and interfaces, the CNI server and the flow exporter,
-- and all glue to Kubernetes, OVS and the operating system, which are calls of libraries;
-- logging and metrics; the name index of the store and its high-water mark.
pub mod Assigner
pub mod Cidr
pub mod Common
pub mod Conjunctions
pub mod Cookie
pub mod GroupStore
pub mod Priority
pub mod Ram
pub mod Reconciler
pub mod RuleCache
pub mod RuleId
pub mod Sorted
pub mod Traceflow
