-- ===== src/Sflow/Cache.antt =====
-- `PodIPCache`: the attribution of each address. The mutex makes each operation one step; `Replace`
-- builds the new map before the step that stores it.
pub mod Exact
use unifabric.Common.{
  String, List, [], ◌∷◌, ◌++◌, Map, ℕ, suc, Bool, true, false, Option, none, some, get, put, foldl,
  ◌==◌, string_eq, if◌then◌else◌,
}
use unifabric.Sflow.Types.{EndpointAttribution, OwnerRef, Pod, PodInfo, FlowRecord}
use unifabric.Sflow.PodIps.{normalize_ip_key, pod_ips}

pub record PodIpCache : Type 0 where
  pub pods : Map String EndpointAttribution

pub new_pod_ip_cache : PodIpCache
new_pod_ip_cache = record { pods = [] }

abbrev pub no_attribution : EndpointAttribution
no_attribution = record {
  pod_name = "";
  pod_namespace = "";
  node_name = "";
  top_owner_kind = "";
  top_owner_name = "";
  top_owner_namespace = "";
}

module _ {Ip : Type 0} (to4 to16 : Ip → Option Ip) (ip_text : Ip → String) where
  abbrev pub key_of_ip : Option Ip → String
  key_of_ip = normalize_ip_key to4 to16 ip_text

  unfoldable pub attribution_of : PodInfo Ip → EndpointAttribution
  attribution_of pod =
      let plain : EndpointAttribution = record no_attribution {
        pod_name = pod.name;
        pod_namespace = pod.namespace;
        node_name = pod.node_name;
      } in
      elim pod.top_owner [
        | none ↦ plain
        | some owner ↦ record plain {
          top_owner_kind = owner.kind;
          top_owner_name = owner.name;
          top_owner_namespace = owner.namespace;
        }
      ]

  -- the body of the inner loop of `Replace`
  unfoldable pub put_ip :
      EndpointAttribution
      → Map String EndpointAttribution
      → Option Ip
      → Map String EndpointAttribution
  put_ip attribution next ip =
      let key = key_of_ip ip in if key == "" then next else put next key attribution

  unfoldable pub put_pod :
      Map String EndpointAttribution → PodInfo Ip → Map String EndpointAttribution
  unfolding put_ip attribution_of
  put_pod next pod = foldl (put_ip (attribution_of pod)) next pod.ips

  unfoldable pub replace : PodIpCache → List (PodInfo Ip) → PodIpCache
  unfolding put_pod
  replace cache pods = record cache { pods = foldl put_pod [] pods }

  unfoldable pub lookup : PodIpCache → Option Ip → Option EndpointAttribution
  lookup cache ip = let key = key_of_ip ip in if key == "" then none else get cache.pods key

  -- A nil lookup is none.
  unfoldable pub enrich_record :
      FlowRecord Ip → Option (Option Ip → Option EndpointAttribution) → FlowRecord Ip
  enrich_record r none = r
  enrich_record r (some find) =
      let with_source = elim (find r.src_addr) as (λ _. FlowRecord Ip) [
        | none ↦ r
        | some a ↦ record r { src_attribution = a }
      ] in
      elim (find with_source.dst_addr) as (λ _. FlowRecord Ip) [
        | none ↦ with_source
        | some a ↦ record with_source { dst_attribution = a }
      ]

  -- `ReplacePods`: `done k` is what the k-th poll of the context finds, `owner_for_pod` the resolver.
  -- An error is none, and leaves the cache.
  module _ (parse_ip : String → Option Ip)
      (decode_statuses : String → Option (List (String × List String)))
      (decode_strings : String → Option (List String)) (done : ℕ → Bool)
      (owner_for_pod : Option (Pod → Option OwnerRef)) where
    unfoldable pub info_of : Pod → Option OwnerRef → PodInfo Ip
    info_of pod owner = record {
      name = pod.name;
      namespace = pod.namespace;
      node_name = pod.node_name;
      ips = pod_ips to4 to16 ip_text parse_ip decode_statuses decode_strings (some pod);
      top_owner = owner;
    }

    unfoldable pub collect_pods : ℕ → List Pod → Option (List (PodInfo Ip))
    unfolding info_of
    collect_pods poll [] = some []
    collect_pods poll (pod ∷ pods) =
        let skipped = collect_pods (suc poll) pods in
        let resolved = collect_pods (suc (suc poll)) pods in
        if done poll
        then none
        else if pod.running
        then elim owner_for_pod [
          | none ↦ elim skipped [ none ↦ none | some infos ↦ some (info_of pod none ∷ infos) ]
          | some owner ↦ if done (suc poll) then none else elim resolved [
            | none ↦ none
            | some infos ↦ some (info_of pod (owner pod) ∷ infos)
          ]
        ]
        else skipped

    unfoldable pub replace_pods : PodIpCache → List Pod → Option PodIpCache
    unfolding collect_pods replace
    replace_pods cache pods = elim (collect_pods 0 pods) [
      | none ↦ none
      | some infos ↦ some (replace cache infos)
    ]
