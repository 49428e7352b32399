-- ===== src/Subscriptions/Manager.antt =====
-- `subscriptionManager`: one stream for each switch with a management address. A goroutine is a number;
-- `cancelled` are those whose context is cancelled, and `started` counts those that were started.
pub mod Invariant
pub mod Stale
pub mod Refinement
pub mod Sync
pub mod Stop
use Prim.Native.String.{◌++◌ as text_append}
use unifabric.Common.{
  String, List, [], ◌∷◌, Map, ℕ, ◌+◌, Bool, true, false, Option, none, some, get, put, string_eq,
  ◌==◌, if◌then◌else◌, foldl,
}
use unifabric.SwitchTopology.DomainNames.{number_text}

pub record SwitchSubscription : Type 0 where
  pub target : String
  pub cancel : ℕ

pub record SubscriptionManager : Type 0 where
  pub subscriptions : Map String SwitchSubscription
  pub cancelled : List ℕ
  pub started : ℕ

-- v1beta1.Switch, as far as the manager reads it
pub record SwitchSpec : Type 0 where
  pub name : String
  pub mgmt_ip : String
  pub grpc_port : Option ℕ

-- `delete(m, k)`
unfoldable pub delete : {V : Type 0} → Map String V → String → Map String V
delete [] k = []
delete ((j, v) ∷ m) k = let rest = delete m k in if j == k then rest else (j, v) ∷ rest

unfoldable pub has_subscription : SubscriptionManager → String → String → Bool
has_subscription m name target = elim (get m.subscriptions name) [
  | none ↦ false
  | some subscription ↦ subscription.target == target
]

unfoldable pub stop_subscription : SubscriptionManager → String → SubscriptionManager
stop_subscription m name = elim (get m.subscriptions name) [
  | none ↦ m
  | some subscription ↦ record m {
    subscriptions = delete m.subscriptions name;
    cancelled = subscription.cancel ∷ m.cancelled;
  }
]

unfoldable pub stop_all_subscriptions : SubscriptionManager → SubscriptionManager
stop_all_subscriptions m = foldl (λ n e. stop_subscription n (e.0)) m m.subscriptions

-- the desired target of each switch
abbrev pub Targets : Type 0
Targets = Map String String

-- the loop that cancels the subscriptions without a target or with another one
unfoldable pub drop_stale :
    Targets → SubscriptionManager → String × SwitchSubscription → SubscriptionManager
drop_stale desired m (name, subscription) = elim (get desired name) [
  | none ↦ stop_subscription m name
  | some target ↦ if target == subscription.target then m else stop_subscription m name
]

-- the loop that starts the missing subscriptions
unfoldable pub start_subscription : SubscriptionManager → String × String → SubscriptionManager
start_subscription m (name, target) = if has_subscription m name target then m else record m {
  subscriptions = put m.subscriptions name (record { target = target; cancel = m.started });
  started = m.started + 1;
}

unfoldable pub update_subscriptions : SubscriptionManager → Targets → SubscriptionManager
update_subscriptions m desired =
    foldl start_subscription (foldl (drop_stale desired) m m.subscriptions) desired

-- `fmt.Sprintf("%s:%d", sw.Spec.MgmtIP, grpcPort)`
unfoldable pub target_of : ℕ → SwitchSpec → String
target_of default_port sw =
    text_append sw.mgmt_ip
      (text_append ":" (number_text (elim sw.grpc_port [ none ↦ default_port | some port ↦ port ])))

-- The loop over the list of the switches: the manager, and the targets or none for an error.
-- `clears` says whether clearSwitchSubscriptionStatus succeeds.
unfoldable pub collect_targets :
    ℕ
    → (String → Bool)
    → SubscriptionManager
    → Targets
    → List SwitchSpec
    → SubscriptionManager × Option Targets
collect_targets default_port clears m desired [] = (m, some desired)
collect_targets default_port clears m desired (sw ∷ switches) =
    let stopped = stop_subscription m sw.name in
    let cleared = collect_targets default_port clears stopped desired switches in
    let desired' = put desired sw.name (target_of default_port sw) in
    let wanted = collect_targets default_port clears m desired' switches in
    if sw.mgmt_ip == "" then (if clears sw.name then cleared else (stopped, none)) else wanted

unfoldable pub finish_sync : SubscriptionManager × Option Targets → SubscriptionManager × Bool
finish_sync (m, none) = (m, false)
finish_sync (m, some desired) = (update_subscriptions m desired, true)

-- The list is none where the client returns an error; false is an error.
unfoldable pub sync_subscriptions :
    ℕ
    → (String → Bool)
    → SubscriptionManager
    → Option (List SwitchSpec)
    → SubscriptionManager × Bool
sync_subscriptions default_port clears m none = (m, false)
sync_subscriptions default_port clears m (some switches) =
    finish_sync (collect_targets default_port clears m [] switches)
