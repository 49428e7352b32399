-- ===== src/Subscriptions/Examples.antt =====
-- The subscriptions to two leaf switches, one without a management address, and a snapshot of the other.
use unifabric.Common.{
  String, List, [], ◌∷◌, Map, ℕ, Bool, true, Option, none, some, get, put, string_eq, nat_eq, ◌==◌,
  sort_by, insert_sorted, filter, elem, ◌≡◌, refl, arith,
}
use unifabric.Status.Names.{digits_text, decimal_digits}
use unifabric.Subscriptions.Manager.{
  SubscriptionManager, SwitchSpec, stop_all_subscriptions, stop_subscription, delete, target_of,
  collect_targets, finish_sync, sync_subscriptions, update_subscriptions, drop_stale,
  start_subscription, has_subscription,
}
use unifabric.Subscriptions.Manager.Invariant.{IsManager, IsRunning}
use unifabric.Subscriptions.Manager.Refinement.{current_target}
use unifabric.Subscriptions.Manager.Sync.{IsSynced, sync_subscriptions_lem}
use unifabric.Subscriptions.Manager.Stop.{stop_all_subscriptions_lem}
use unifabric.Subscriptions.Snapshots.Keys.{key_eq}
use unifabric.Subscriptions.Snapshots.{
  ReportedNeighbor, CountedNeighbor, normalize_snapshot_neighbors, should_ignore_switch_port,
  classify_remote_system_type, kubernetes_node_names, diff_neighbor_keys, neighbor_keys,
  count_missing, count_neighbor, count_neighbors, sorted_neighbors, neighbors_of, neighbor_less,
}
use unifabric.Subscriptions.Snapshots.Exact.{IsNormalized, normalize_snapshot_neighbors_exact}
use unifabric.Subscriptions.Snapshots.Diff.{IsNumberOf, IsOnlyIn, diff_neighbor_keys_exact}
use unifabric.SwitchTopology.ResourceNames.{
  normalize_resource_name, lower_all, squeeze, trim_left, trim_right, trim_space, is_space,
  to_lower,
}

abbrev leaf : String
leaf = "leaf-1"

abbrev spare : String
spare = "leaf-2"

abbrev default_port : ℕ
default_port = 50051

abbrev leaf_spec : SwitchSpec
leaf_spec = record { name = leaf; mgmt_ip = "10.0.0.1"; grpc_port = none }

abbrev spare_spec : SwitchSpec
spare_spec = record { name = spare; mgmt_ip = "10.0.0.2"; grpc_port = some 7000 }

abbrev spare_without_address : SwitchSpec
spare_without_address = record { name = spare; mgmt_ip = ""; grpc_port = none }

abbrev cleared : String → Bool
cleared name = true

abbrev nothing : SubscriptionManager
nothing = record { subscriptions = []; cancelled = []; started = 0 }

abbrev both : List SwitchSpec
both = leaf_spec ∷ spare_spec ∷ []

abbrev without_address : List SwitchSpec
without_address = leaf_spec ∷ spare_without_address ∷ []

nothing-IsManager : IsManager nothing
unfolding get
nothing-IsManager = (
  tt,
  (λ goroutine i. absurd i),
  (λ name s e. absurd cc),
  (λ goroutine run. absurd (omega (arith, run.0))),
  λ name other s t e. absurd cc,
)

-- after the first sync
abbrev running : SubscriptionManager
running = (sync_subscriptions default_port cleared nothing (some both)).0

running-IsManager : IsManager running
running-IsManager =
    (sync_subscriptions_lem default_port cleared nothing (some both) nothing-IsManager).0

second_sync :
    current_target (sync_subscriptions default_port cleared running (some without_address)).0 leaf
    ≡ some "10.0.0.1:50051"
unfolding sync_subscriptions finish_sync collect_targets update_subscriptions drop_stale
    start_subscription has_subscription stop_subscription current_target target_of get put delete
    digits_text decimal_digits
second_sync = refl

sync_subscriptions_lem_example :
    IsSynced default_port running
      (some without_address)
      (sync_subscriptions default_port cleared running (some without_address))
sync_subscriptions_lem_example =
    sync_subscriptions_lem default_port cleared running (some without_address) running-IsManager

stop_all_subscriptions_lem_example :
    IsManager (stop_all_subscriptions running)
    × ((name : String) → get (stop_all_subscriptions running).subscriptions name ≡ none)
    × ((goroutine : ℕ) → ¬ IsRunning (stop_all_subscriptions running) goroutine)
stop_all_subscriptions_lem_example = stop_all_subscriptions_lem running running-IsManager

abbrev path_match : String → String → Option Bool
path_match pattern port = some (pattern == port)

abbrev ignored : List String
ignored = "mgmt0" ∷ []

abbrev nodes : Map String Bool × Map String Bool
nodes = kubernetes_node_names ("host-1" ∷ [])

-- two links to a Node, one to a switch, and the management port
abbrev snapshot : List ReportedNeighbor
snapshot =
    record { local_port = "swp3"; remote_system_name = "spine-1" }
    ∷ record { local_port = "swp1"; remote_system_name = "host-1" }
    ∷ record { local_port = "mgmt0"; remote_system_name = "" }
    ∷ record { local_port = "swp2"; remote_system_name = "host-1" }
    ∷ []

abbrev stored : List CountedNeighbor
stored =
    record { remote_system_type = "KubernetesNode"; remote_system_name = "host-1"; link_count = 2 }
    ∷ record { remote_system_type = "Switch"; remote_system_name = "spine-1"; link_count = 1 }
    ∷ []

snapshot_is_stored :
    normalize_snapshot_neighbors path_match ignored (nodes.0) (nodes.1) snapshot ≡ some stored
unfolding normalize_snapshot_neighbors sorted_neighbors count_neighbors count_neighbor neighbors_of
    neighbor_less should_ignore_switch_port classify_remote_system_type kubernetes_node_names
    sort_by insert_sorted get put normalize_resource_name lower_all squeeze trim_left trim_right
    trim_space is_space elem to_lower
snapshot_is_stored = refl

normalize_snapshot_neighbors_exact_example :
    IsNormalized
      (λ port. should_ignore_switch_port path_match port ignored)
      (classify_remote_system_type (nodes.0) (nodes.1))
      snapshot
      (normalize_snapshot_neighbors path_match ignored (nodes.0) (nodes.1) snapshot)
normalize_snapshot_neighbors_exact_example =
    normalize_snapshot_neighbors_exact path_match ignored (nodes.0) (nodes.1) snapshot (omega arith)

spine_is_removed : diff_neighbor_keys stored [] ≡ (0, 2)
unfolding diff_neighbor_keys neighbor_keys count_missing get put filter
spine_is_removed = refl

diff_neighbor_keys_exact_example :
    IsNumberOf (IsOnlyIn stored []) (diff_neighbor_keys stored []).0
    × IsNumberOf (IsOnlyIn [] stored) (diff_neighbor_keys stored []).1
diff_neighbor_keys_exact_example = diff_neighbor_keys_exact stored []
