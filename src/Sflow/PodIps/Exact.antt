-- ===== src/Sflow/PodIps/Exact.antt =====
-- What `podIPs` returns.
use unifabric.Common.{
  String, List, [], ◌∷◌, ◌++◌, Option, some, put, keys, elem, elem_iff, foldl, map, Member,
  Member-append, Member-keys-put, Distinct, string_eq, ==_cases, Bool-cases, ◌≡◌, ◌≢◌, ◌⊎◌, ◌↔◌,
  refl, sym, ap, ◌∙◌, subst, inl, inr, arith, ⊎_elim,
}
use mathlib.Core.List.{append-nil, append_assoc}
use unifabric.Sflow.Types.{Pod}
use unifabric.Sflow.PodIps.{
  normalize_ip_key, Seen, add_ip, annotated_values, add_annotated_pod_ips, pod_ips,
}

module _ {Ip : Type 0} (to4 to16 : Ip → Option Ip) (ip_text : Ip → String)
    (parse_ip : String → Option Ip) where
  abbrev pub key_of : Option Ip → String
  key_of = normalize_ip_key to4 to16 ip_text

  -- `ips` are the addresses of `values`: with different keys that are not empty, and one for the key of
  -- each value that has one
  pub record AddressesOf (values : List String) (ips : List (Option Ip)) : Type 0 where
    pub distinct : Distinct (map key_of ips)
    pub sound :
        (ip : Option Ip)
        → Member ip ips
        → (key_of ip ≢ "") × ((v : String) × Member v values × (parse_ip v ≡ ip))
    pub complete :
        (v : String)
        → Member v values
        → key_of (parse_ip v) ≢ ""
        → Member (key_of (parse_ip v)) (map key_of ips)

  record Adding (values : List String) (s : Seen to4 to16 ip_text parse_ip) : Type 0 where
    pub found : AddressesOf values s.1
    pub same : (k : String) → Member k (keys s.0) ↔ Member k (map key_of s.1)

  Member-map_last :
      (k : String) (ips : List (Option Ip)) (ip : Option Ip)
      → Member k (map key_of (ips ++ ip ∷ [])) ↔ (Member k (map key_of ips) ⊎ (k ≡ key_of ip))
  Member-map_last k [] ip = ground arith
  Member-map_last k (x ∷ xs) ip = ground (arith, Member-map_last k xs ip)

  Distinct-map_last :
      (ips : List (Option Ip)) (ip : Option Ip)
      → Distinct (map key_of ips)
      → ¬ Member (key_of ip) (map key_of ips)
      → Distinct (map key_of (ips ++ ip ∷ []))
  Distinct-map_last [] ip d m = ((λ n. n), tt)
  Distinct-map_last (x ∷ xs) ip d m = (
    λ n. ⊎_elim d.0 (λ e. m (inl (sym e))) ((Member-map_last (key_of x) xs ip).0 n),
    Distinct-map_last xs ip d.1 (λ n. m (inr n)),
  )

  module _ (values : List String) (v : String) (s : Seen to4 to16 ip_text parse_ip)
      (a : Adding values s) where
    Adding-skip :
        (key_of (parse_ip v) ≡ "") ⊎ Member (key_of (parse_ip v)) (keys s.0)
        → Adding (values ++ v ∷ []) s
    Adding-skip h = record {
      found = record {
        distinct = a.found.distinct;
        sound = λ ip m.
            let (ne, (w, mw, e)) = a.found.sound ip m in
            (ne, (w, (Member-append w values (v ∷ [])).1 (inl mw), e));
        complete = λ w m ne. elim ((Member-append w values (v ∷ [])).0 m) [
          | inl old ↦ a.found.complete w old ne
          | inr (inl e) ↦ elim h [
            | inl empty ↦ absurd (ne (ap (λ x. key_of (parse_ip x)) e ∙ empty))
            | inr seen ↦
                subst (λ x. Member (key_of (parse_ip x)) (map key_of s.1)) (sym e)
                  ((a.same (key_of (parse_ip v))).0 seen)
          ]
          | inr (inr n) ↦ absurd n
        ];
      };
      same = a.same;
    }

    Adding-new :
        key_of (parse_ip v) ≢ ""
        → ¬ Member (key_of (parse_ip v)) (keys s.0)
        → Adding (values ++ v ∷ []) (put s.0 (key_of (parse_ip v)) tt, s.1 ++ parse_ip v ∷ [])
    Adding-new ne fresh =
        let ip = parse_ip v in
        record {
          found = record {
            distinct =
                Distinct-map_last s.1 ip a.found.distinct (λ m. fresh ((a.same (key_of ip)).1 m));
            sound = λ i m. elim ((Member-append i s.1 (ip ∷ [])).0 m) [
              | inl old ↦
                  let (n, (w, mw, e)) = a.found.sound i old in
                  (n, (w, (Member-append w values (v ∷ [])).1 (inl mw), e))
              | inr (inl e) ↦ (
                subst (λ x. key_of x ≢ "") (sym e) ne,
                (v, (Member-append v values (v ∷ [])).1 (inr (inl refl)), sym e),
              )
              | inr (inr n) ↦ absurd n
            ];
            complete = λ w m nw.
                (Member-map_last (key_of (parse_ip w)) s.1 ip).1
                  (elim ((Member-append w values (v ∷ [])).0 m) [
                    | inl old ↦ inl (a.found.complete w old nw)
                    | inr (inl e) ↦ inr (ap (λ x. key_of (parse_ip x)) e)
                    | inr (inr n) ↦ absurd n
                  ]);
          };
          same = λ k.
              ground
                (arith, a.same k, Member-map_last k s.1 ip, Member-keys-put s.0 (key_of ip) k tt);
        }

    Adding-add_ip : Adding (values ++ v ∷ []) (add_ip to4 to16 ip_text parse_ip s v)
    unfolding add_ip
    Adding-add_ip =
        let key = key_of (parse_ip v) in
        elim (==_cases key "") [
          | inl (e, b) ↦ rw b (Adding-skip (inl e))
          | inr (e, b) ↦ elim (Bool-cases (elem key (keys s.0))) [
            | inl c ↦ rw (b, c) (Adding-skip (inr ((elem_iff key (keys s.0)).0 c)))
            | inr c ↦ rw (b, c) (Adding-new e (λ m. cc (c, (elem_iff key (keys s.0)).1 m)))
          ]
        ]

  Adding-foldl :
      (values more : List String) (s : Seen to4 to16 ip_text parse_ip)
      → Adding values s
      → Adding (values ++ more) (foldl (add_ip to4 to16 ip_text parse_ip) s more)
  Adding-foldl values [] s a = rw append-nil a
  Adding-foldl values (v ∷ more) s a =
      subst
        (λ l.
          Adding l
            (foldl (add_ip to4 to16 ip_text parse_ip) (add_ip to4 to16 ip_text parse_ip s v) more))
        (append_assoc values (v ∷ []) more)
        (Adding-foldl (values ++ v ∷ []) more (add_ip to4 to16 ip_text parse_ip s v)
          (Adding-add_ip values v s a))

  Adding-none : Adding [] ([], [])
  Adding-none = record {
    found = record { distinct = tt; sound = λ ip m. absurd m; complete = λ v m ne. absurd m };
    same = λ k. ((λ m. m), λ m. m);
  }

  -- `podIPs` returns addresses of the Pod's values (those of its status, the single one, and those of
  -- its annotations): their keys are different and not empty, each address is what a value parses to,
  -- and each value with a key has an address of that key.
  pub pod_ips-AddressesOf :
      (decode_statuses : String → Option (List (String × List String)))
      (decode_strings : String → Option (List String)) (pod : Pod)
      → AddressesOf
          (pod.pod_ips
            ++ pod.pod_ip
              ∷ annotated_values to4 to16 ip_text parse_ip decode_statuses decode_strings
                  pod.annotations)
          (pod_ips to4 to16 ip_text parse_ip decode_statuses decode_strings (some pod))
  unfolding pod_ips add_annotated_pod_ips
  pod_ips-AddressesOf decode_statuses decode_strings pod =
      let values =
        pod.pod_ip
        ∷ annotated_values to4 to16 ip_text parse_ip decode_statuses decode_strings
            pod.annotations in
      let first = Adding-foldl [] pod.pod_ips ([], []) Adding-none in
      (Adding-foldl pod.pod_ips values
        (foldl (add_ip to4 to16 ip_text parse_ip) ([], []) pod.pod_ips) first).found
