-- ===== src/Sflow/Cache/Exact.antt =====
-- What the cache returns after `Replace`.
use unifabric.Common.{
  String, List, [], ◌∷◌, Map, Bool, Option, none, some, get, get-put, foldl, any, ◌==◌, string_eq,
  if◌then◌else◌, ==_cases, ==_iff, ◌≡◌, ◌≢◌, refl, ◌∙◌, inl, inr, arith,
}
use unifabric.Sflow.Types.{EndpointAttribution, PodInfo}
use unifabric.Sflow.Cache.{PodIpCache, key_of_ip, attribution_of, put_ip, put_pod, replace, lookup}

module _ {Ip : Type 0} (to4 to16 : Ip → Option Ip) (ip_text : Ip → String) where
  -- one of the Pod's addresses has the key
  abbrev pub owns : String → PodInfo Ip → Bool
  owns key pod = any (λ ip. key_of_ip to4 to16 ip_text ip == key) pod.ips

  -- the attribution of the last Pod of the list that owns the key
  abbrev pub last_owner : String → List (PodInfo Ip) → Option EndpointAttribution
  last_owner key [] = none
  last_owner key (pod ∷ pods) = elim (last_owner key pods) [
    | some a ↦ some a
    | none ↦ if owns key pod then some (attribution_of to4 to16 ip_text pod) else none
  ]

  module _ (key : String) (nonempty : key ≢ "") where
    get-put_ips :
        (a : EndpointAttribution) (ips : List (Option Ip)) (m : Map String EndpointAttribution)
        → get (foldl (put_ip to4 to16 ip_text a) m ips) key
          ≡ (if any (λ ip. key_of_ip to4 to16 ip_text ip == key) ips then some a else get m key)
    unfolding put_ip any get
    get-put_ips a [] m = refl
    get-put_ips a (ip ∷ ips) m =
        let k = key_of_ip to4 to16 ip_text ip in
        get-put_ips a ips (put_ip to4 to16 ip_text a m ip) ∙ elim (==_cases k "") [
          | inl (e, b) ↦ ground (arith, b, e, nonempty, ==_iff k key)
          | inr (e, b) ↦ ground (arith, b, get-put m k key a)
        ]

    get-put_pods :
        (pods : List (PodInfo Ip)) (m : Map String EndpointAttribution)
        → get (foldl (put_pod to4 to16 ip_text) m pods) key
          ≡ elim (last_owner key pods) [ some a ↦ some a | none ↦ get m key ]
    unfolding put_pod
    get-put_pods [] m = refl
    get-put_pods (pod ∷ pods) m =
        get-put_pods pods (put_pod to4 to16 ip_text m pod)
        ∙ ground (arith, get-put_ips (attribution_of to4 to16 ip_text pod) pod.ips m)

  none_of :
      (o : Option EndpointAttribution)
      → elim o as (λ _. Option EndpointAttribution) [ some a ↦ some a | none ↦ none ] ≡ o
  none_of none = refl
  none_of (some a) = refl

  -- After `Replace` the cache returns, whatever it held before, the attribution of the last Pod that
  -- has an address with the key of the address asked for, and nothing where no Pod has one or the
  -- address has no key.
  pub lookup-replace :
      (cache : PodIpCache) (pods : List (PodInfo Ip)) (ip : Option Ip)
      → let key = key_of_ip to4 to16 ip_text ip in
        lookup to4 to16 ip_text (replace to4 to16 ip_text cache pods) ip
        ≡ (if key == "" then none else last_owner key pods)
  unfolding lookup replace get
  lookup-replace cache pods ip =
      let key = key_of_ip to4 to16 ip_text ip in
      elim (==_cases key "") [
        | inl (e, b) ↦ rw b refl
        | inr (e, b) ↦ rw b (get-put_pods key e pods [] ∙ none_of (last_owner key pods))
      ]
