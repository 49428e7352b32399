-- ===== src/Sflow/Examples.antt =====
-- Examples of the theorems: addresses are their texts.
use unifabric.Common.{
  String, List, [], ◌∷◌, ◌++◌, Map, Bool, true, Option, none, some, get, get_or, ◌==◌, string_eq,
  if◌then◌else◌, ◌≡◌, refl,
}
use unifabric.Sflow.Types.{Pod, PodInfo}
use unifabric.Sflow.PodIps.{pod_ips, annotated_values}
use unifabric.Sflow.PodIps.Exact.{AddressesOf, pod_ips-AddressesOf}
use unifabric.Sflow.Cache.{key_of_ip, lookup, replace, new_pod_ip_cache}
use unifabric.Sflow.Cache.Exact.{last_owner, lookup-replace}

abbrev as_v4 : String → Option String
as_v4 ip = some ip

abbrev no_v16 : String → Option String
no_v16 ip = none

abbrev text_of_ip : String → String
text_of_ip ip = ip

-- everything but the empty text is an address
abbrev parse_text : String → Option String
parse_text s = if s == "" then none else some s

abbrev no_statuses : String → Option (List (String × List String))
no_statuses s = none

-- a list with the text itself
abbrev one_string : String → Option (List String)
one_string s = some (s ∷ [])

abbrev pod : Pod
pod = record {
  name = "web";
  namespace = "prod";
  node_name = "n1";
  running = true;
  pod_ip = "10.0.0.1";
  pod_ips = "10.0.0.1" ∷ "fd00::1" ∷ [];
  annotations = ("k8s.v1.cni.cncf.io/podIPs", "192.168.0.7") ∷ [];
}

abbrev infos : List (PodInfo String)
infos =
    record {
      name = "old";
      namespace = "prod";
      node_name = "n1";
      ips = some "10.0.0.1" ∷ [];
      top_owner = none;
    }
    ∷ record {
      name = "web";
      namespace = "prod";
      node_name = "n1";
      ips = some "10.0.0.1" ∷ none ∷ [];
      top_owner = none;
    }
    ∷ []

pod_addresses :
    pod_ips as_v4 no_v16 text_of_ip parse_text no_statuses one_string (some pod)
    ≡ some "10.0.0.1" ∷ some "fd00::1" ∷ some "192.168.0.7" ∷ []
unfolding pod_ips get unifabric.Common.elem unifabric.Common.put
pod_addresses = refl

pod_ips-AddressesOf_example :
    AddressesOf as_v4 no_v16 text_of_ip parse_text
      ("10.0.0.1"
        ∷ "fd00::1"
        ∷ "10.0.0.1"
        ∷ annotated_values as_v4 no_v16 text_of_ip parse_text no_statuses one_string
            pod.annotations)
      (pod_ips as_v4 no_v16 text_of_ip parse_text no_statuses one_string (some pod))
pod_ips-AddressesOf_example =
    pod_ips-AddressesOf as_v4 no_v16 text_of_ip parse_text no_statuses one_string pod

lookup-replace_example :
    let key = key_of_ip as_v4 no_v16 text_of_ip (some "10.0.0.1") in
    lookup as_v4 no_v16 text_of_ip
      (replace as_v4 no_v16 text_of_ip new_pod_ip_cache infos)
      (some "10.0.0.1")
    ≡ (if key == "" then none else last_owner as_v4 no_v16 text_of_ip key infos)
lookup-replace_example =
    lookup-replace as_v4 no_v16 text_of_ip new_pod_ip_cache infos (some "10.0.0.1")
