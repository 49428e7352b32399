-- ===== src/Sflow/PodIps.antt =====
-- The addresses of a Pod. `Ip` stands for `net.IP`, with `net.ParseIP`, `To4`, `To16` and `String`;
-- the two decoders stand for `json.Unmarshal` at the two types.
pub mod Exact
use unifabric.Common.{
  String, List, [], ◌∷◌, ◌++◌, Map, Bool, Option, none, some, get_or, put, keys, elem, foldl, ◌==◌,
  string_eq, if◌then◌else◌,
}
use unifabric.Sflow.Types.{Pod}

abbrev pub multus_network_status_annotation : String
multus_network_status_annotation = "k8s.v1.cni.cncf.io/network-status"

abbrev pub pod_ips_annotation : String
pod_ips_annotation = "k8s.v1.cni.cncf.io/podIPs"

abbrev pub pod_ip_annotation : String
pod_ip_annotation = "k8s.v1.cni.cncf.io/podIP"

module _ {Ip : Type 0} (to4 to16 : Ip → Option Ip) (ip_text : Ip → String) where
  unfoldable pub normalize_ip_key : Option Ip → String
  normalize_ip_key none = ""
  normalize_ip_key (some ip) = elim (to4 ip) [
    | some v4 ↦ ip_text v4
    | none ↦ elim (to16 ip) [ some v16 ↦ ip_text v16 | none ↦ "" ]
  ]

  module _ (parse_ip : String → Option Ip) where
    -- what `addIP` closes over: `seen` and `ips`
    abbrev pub Seen : Type 0
    Seen = Map String (Unit {0}) × List (Option Ip)

    unfoldable pub add_ip : Seen → String → Seen
    unfolding normalize_ip_key
    add_ip (seen, ips) value =
        let ip = parse_ip value in
        let key = normalize_ip_key ip in
        if key == ""
        then (seen, ips)
        else if elem key (keys seen)
        then (seen, ips)
        else (put seen key tt, ips ++ ip ∷ [])

    module _ (decode_statuses : String → Option (List (String × List String)))
        (decode_strings : String → Option (List String)) where
      -- the values that `addAnnotatedPodIPs` gives to `addIP`, in order
      unfoldable pub status_values : List (String × List String) → List String
      status_values [] = []
      status_values ((ip, ips) ∷ statuses) = ip ∷ ips ++ status_values statuses

      unfoldable pub annotated_values : Map String String → List String
      unfolding status_values
      annotated_values annotations =
          let network = get_or annotations multus_network_status_annotation "" in
          let single = get_or annotations pod_ip_annotation "" in
          let several = get_or annotations pod_ips_annotation "" in
          let from_network = elim (decode_statuses network) as (λ _. List String) [
            | none ↦ []
            | some statuses ↦ status_values statuses
          ] in
          let from_several = elim (decode_strings several) as (λ _. List String) [
            | none ↦ several ∷ []
            | some values ↦ values
          ] in
          (if network == "" then [] else from_network)
          ++ (if single == "" then [] else single ∷ [])
          ++ (if several == "" then [] else from_several)

      unfoldable pub add_annotated_pod_ips : Map String String → Seen → Seen
      unfolding annotated_values add_ip
      add_annotated_pod_ips annotations seen = foldl add_ip seen (annotated_values annotations)

      -- A nil Pod is none.
      unfoldable pub pod_ips : Option Pod → List (Option Ip)
      unfolding add_annotated_pod_ips
      pod_ips none = []
      pod_ips (some pod) =
          let from_status = foldl add_ip ([], []) pod.pod_ips in
          (add_annotated_pod_ips pod.annotations (add_ip from_status pod.pod_ip)).1
