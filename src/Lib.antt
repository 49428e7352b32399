-- ===== src/Lib.antt =====
-- Verification of unifabric, the Kubernetes controller and agents that discover how the hosts and
-- switches of a cluster are cabled.
--
-- The parts. Agents and switch agents report LLDP neighbors. The controller subscribes to the switch
-- agents and stores the neighbors of their snapshots. From the stored reports it makes hosts and switches (pkg/controller/switchtopology), and discovers a topology: a graph of
-- devices, a tier for each switch, the connected zones, and groups of switches in each tier
-- (pkg/topology). It names the groups and plans labels of Nodes and Switches, under keys that
-- templates describe (pkg/topologylabel), and patches them in without replacing a label. From the
-- labels a second controller builds the status of each Topology: its domains and its node groups
-- (pkg/controller/topologystatus). The sFlow collector decodes sampled packets and finds the Pod that
-- each address of a flow belongs to (pkg/sflow).
--
-- Files and code. Definitions keep the code's names in snake case.
-- - Common: Go's maps as association lists, sorting, and the search with a `visited` map. The
--   order of the entries is the order of a `range` loop, and is arbitrary.
-- - Topology: pkg/topology/topology.go. Graph is BuildTopologyGraph and the resolver, Tiers is
--   InferTiers, Normalize is NormalizeTierEdges, Zones is CollectConnectedZones, Groups is
--   BuildTierGroups and GenerateGroupName, Parents is BuildParentIndexForZone with its queries, Build
--   is BuildTopology, and Pipeline is DiscoverTopology. A device map that the code changes in place
--   is passed from step to step; a write to a nil map, which panics in Go, gives none.
-- - Status: pkg/controller/topologystatus/build.go. Labels is labelsByTier, Domains is ensureDomain
--   and the loops over the tiers of one Node, Build is BuildTopologyStatus, and Names is
--   assignNodeGroupNames. An error is a value of BuildError, a dereference of a missing domain one of
--   its constructors, and `Safe` excludes that one.
-- - TopologyLabel: pkg/topologylabel/template.go. Template is Compile, Render and MatchTier with the
--   matcher as a list of pieces, Language is the automaton of a template and CompileSet.
-- - Sflow: pkg/sflow/attribution.go and the records of types.go. PodIps is podIPs, and Cache is
--   PodIPCache with EnrichRecord.
-- - Sflow/Decoder: pkg/sflow/decoder.go. Headers is parseSampledHeader, parseIPv4 and parseIPv6,
--   Records is DecodeDatagram and recordsFromFlowRecords. Every index and slice has its bound: out of
--   range is none, Go's panic. A sum of bytes wraps at 256.
-- - SwitchTopology: pkg/controller/switchtopology. Inputs is topology_inputs.go, with its
--   normalizeResourceName in ResourceNames. The other files are autolabel_controller.go: Discovered is
--   normalizeDiscoveredGroups, Build is buildAutoLabelPlan, DomainNames the names tierN-groupM, Plan is
--   autoLabelPlan with merge, Labels is reconcileLabelMap and Apply is applyPlan. An error is a value of
--   AutoLabelError; those that stand for a panic or for a loop without end are `is_internal`.
-- - Subscriptions: pkg/controller/switchtopology/subscription_manager.go. Manager is syncSubscriptions
--   and the functions that start and stop a subscription: a goroutine is a number, and runs until its
--   context is cancelled. A sync is one step, as only Start calls it. Snapshots is
--   normalizeSnapshotNeighbors with the node names, and diffNeighborKeys.
-- The module Examples of each part has tests on concrete inputs and applies the theorems there.
--
-- Numbers. Tiers and lengths are far below the limits of `int`; the tiers of discovery are between -1
-- and the number of devices. Where the code tests a limit (math.MaxInt32 in ensureDomain, the range
-- of strconv.Atoi) the model has the test, and the count of the group names of a tier wraps as an `int`.
--
-- Loops. A loop over a queue takes fuel. The search of InferTiers gets the number of starts and of
-- devices, since a switch enters the queue once; a search of a zone gets one round for the start
-- and one for each neighbor entry, since a name is expanded once. The loop for a free number gets
-- one more round than there are used numbers, since each round but the last meets one.
-- QueryParentChain gets two rounds more than the index has entries. The search of CompileSet gets a
-- round for each pair of sets of states and one more, since no pair enters its queue twice.
--
-- The walk up from a host, in normalizeDiscoveredGroups, gets one round more than there are groups,
-- since it meets no group twice.
-- The loops of the decoder have the bounds of the code, 2 tags and 8 extension headers.
--
-- Parameters. The SHA-1 digest of hashed group names, the test of the Kubernetes validation library
-- for names and label values, the verb %q, the template parser, net.IP with its parser and text, the
-- json decoders, the polls of a context, the owner resolver, the packet decoder of the sFlow library,
-- filepath.Match and the answers of Kubernetes to a list, a patch and a status write are arguments of the definitions that use them. The one
-- assumption is that the headers which the sFlow library samples are bytes.
--
-- Not modelled: the reconcilers around these parts, the streams of the subscriptions and everything that talks to Kubernetes, to the
-- network, to the kernel or to a process (the agents, the switch agent, the collector, the HTTP
-- handlers), generated code, configuration, commands, the BPF programs, dashboards and deployment.
pub mod Common
pub mod Topology
pub mod Status
pub mod TopologyLabel
pub mod Sflow
pub mod SwitchTopology
pub mod Subscriptions
