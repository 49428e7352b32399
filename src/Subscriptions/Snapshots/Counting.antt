-- ===== src/Subscriptions/Snapshots/Counting.antt =====
-- The loop of `normalizeSnapshotNeighbors` that counts the links.
use unifabric.Common.{
  String, List, [], ◌∷◌, ◌++◌, ℕ, ◌+◌, ◌%◌, ◌<◌, Bool, true, false, Option, none, some, get_or,
  value_or, put, get-put_self, get-put_ne, length, Member, Member-append, Distinct,
  Distinct-append_one, string_eq, nat_eq, ◌==◌, ==_iff, ==_cases, if◌then◌else◌, Bool-cases, ◌≡◌,
  ◌≢◌, ◌↔◌, refl, sym, subst, ap, ◌∙◌, arith, ◌⊎◌, inl, inr,
}
use unifabric.Subscriptions.Snapshots.Keys.{NeighborKey, key_eq}
use unifabric.Subscriptions.Snapshots.{
  ReportedNeighbor, Counts, count_neighbor, count_neighbors, reported_key, int32_size,
}

-- how often a key stands in a list
unfoldable pub occurrences : NeighborKey → List NeighborKey → ℕ
occurrences key [] = 0
occurrences key (k ∷ ks) = let rest = occurrences key ks in if k == key then rest + 1 else rest

pub Member-occurrences :
    (key : NeighborKey) (ks : List NeighborKey) → Member key ks ↔ (0 < occurrences key ks)
unfolding occurrences
Member-occurrences key [] = ground arith
Member-occurrences key (k ∷ ks) = ground (arith, ==_iff k key, Member-occurrences key ks)

abbrev pub count_of : Counts → NeighborKey → ℕ
count_of counts key = get_or (counts.1) key 0

-- the order lists the keys with a count, each once
abbrev pub IsCounts : Counts → Type 0
IsCounts counts =
    Distinct (counts.0) × ((key : NeighborKey) → Member key (counts.0) ↔ (0 < count_of counts key))

abbrev pub Fits : Counts → ℕ → Type 0
Fits counts n = (key : NeighborKey) → count_of counts key + n < int32_size

count_of-count_neighbor :
    (counts : Counts) (key other : NeighborKey) (n : ℕ)
    → Fits counts (n + 1)
    → count_of (count_neighbor counts key) other
      ≡ (if key == other then count_of counts key + 1 else count_of counts other)
unfolding count_neighbor
count_of-count_neighbor (order, link_counts) key other n fits = elim (==_cases key other) [
  | inl (e, b) ↦
      let value = (get_or link_counts key 0 + 1) % int32_size in
      rw b (
        subst (λ x. get_or (put link_counts key value) x 0 ≡ get_or link_counts key 0 + 1) e
          (ap (value_or 0) (get-put_self link_counts key value) ∙ omega (arith, fits key)))
  | inr (ne, b) ↦ rw b (
      ap (value_or 0)
        (get-put_ne link_counts key other ((get_or link_counts key 0 + 1) % int32_size) ne))
]

order_of-count_neighbor :
    (counts : Counts) (key : NeighborKey)
    → (count_neighbor counts key).0
      ≡ (if count_of counts key == 0 then counts.0 ++ key ∷ [] else counts.0)
unfolding count_neighbor
order_of-count_neighbor (order, link_counts) key = refl

count_neighbor-IsCounts :
    (counts : Counts) (key : NeighborKey) (n : ℕ)
    → Fits counts (n + 1)
    → IsCounts counts
    → IsCounts (count_neighbor counts key)
count_neighbor-IsCounts counts key n fits (d, listed) = elim (==_cases (count_of counts key) 0) [
  | inl (z, b) ↦
      rw (order_of-count_neighbor counts key, b)
        (
          Distinct-append_one key (counts.0) (λ i. omega (arith, (listed key).0 i, z)) d,
          λ other. rw (count_of-count_neighbor counts key other n fits) (
              ground
                (arith, ==_iff key other, listed other, Member-append other (counts.0) (key ∷ []))),
        )
  | inr (ne, b) ↦
      rw (order_of-count_neighbor counts key, b)
        (
          d,
          λ other. rw (count_of-count_neighbor counts key other n fits) (elim (==_cases key other) [
            | inl (e, c) ↦ rw c (
              (λ i. omega arith),
              λ i. subst (λ x. Member x (counts.0)) e ((listed key).1 (omega (arith, ne))),
            )
            | inr (ne', c) ↦ rw c (listed other)
          ]),
        )
]

count_neighbor-Fits :
    (counts : Counts) (key : NeighborKey) (n : ℕ)
    → Fits counts (n + 1)
    → Fits (count_neighbor counts key) n
count_neighbor-Fits counts key n fits other =
    rw (count_of-count_neighbor counts key other n fits) (elim (==_cases key other) [
      | inl (e, c) ↦ rw c (omega (arith, fits key))
      | inr (ne, c) ↦ rw c (omega (arith, fits other))
    ])

module _ (ignores : String → Bool) (classify : String → String) where
  -- the keys of the entries whose port is not ignored
  unfoldable pub kept_keys : List ReportedNeighbor → List NeighborKey
  kept_keys [] = []
  kept_keys (n ∷ ns) =
      let rest = kept_keys ns in
      if ignores n.local_port then rest else reported_key ignores classify n ∷ rest

  -- each of these entries has a name
  abbrev pub AreNamed : List ReportedNeighbor → Type 0
  AreNamed ns =
      (n : ReportedNeighbor)
      → Member n ns
      → ignores n.local_port ≡ false
      → n.remote_system_name ≢ ""

  -- what the loop gives from these counts
  abbrev pub IsCountedTo : Counts → List ReportedNeighbor → Option Counts → Type 0
  IsCountedTo counts ns none = ¬ AreNamed ns
  IsCountedTo counts ns (some after) =
      AreNamed ns
      × IsCounts after
      × ((key : NeighborKey)
          → count_of after key ≡ count_of counts key + occurrences key (kept_keys ns))

  AreNamed-tail :
      (n : ReportedNeighbor) (ns : List ReportedNeighbor) → AreNamed (n ∷ ns) → AreNamed ns
  AreNamed-tail n ns named k i = named k (inr i)

  AreNamed-ignored :
      (n : ReportedNeighbor) (ns : List ReportedNeighbor)
      → ((ignores n.local_port ≡ true) ⊎ (n.remote_system_name ≢ ""))
      → AreNamed ns
      → AreNamed (n ∷ ns)
  AreNamed-ignored n ns (inr ne) named k (inl e) keep =
      subst (λ (x : ReportedNeighbor). x.remote_system_name ≢ "") (sym e) ne
  AreNamed-ignored n ns (inl ig) named k (inl e) keep =
      absurd (let q = ap (λ (x : ReportedNeighbor). ignores x.local_port) e in cc)
  AreNamed-ignored n ns c named k (inr i) keep = named k i keep

  IsCountedTo-ignored :
      (counts : Counts) (n : ReportedNeighbor) (ns : List ReportedNeighbor) (r : Option Counts)
      → ignores n.local_port ≡ true
      → IsCountedTo counts ns r
      → IsCountedTo counts (n ∷ ns) r
  unfolding kept_keys
  IsCountedTo-ignored counts n ns none ig h = λ named. h (AreNamed-tail n ns named)
  IsCountedTo-ignored counts n ns (some after) ig (named, good, total) =
      (AreNamed-ignored n ns (inl ig) named, good, λ key. rw ig (total key))

  IsCountedTo-counted :
      (counts : Counts) (n : ReportedNeighbor) (ns : List ReportedNeighbor) (r : Option Counts)
      → ignores n.local_port ≡ false
      → n.remote_system_name ≢ ""
      → Fits counts (length ns + 1)
      → IsCountedTo (count_neighbor counts (reported_key ignores classify n)) ns r
      → IsCountedTo counts (n ∷ ns) r
  unfolding kept_keys occurrences
  IsCountedTo-counted counts n ns none keep ne fits h = λ named. h (AreNamed-tail n ns named)
  IsCountedTo-counted counts n ns (some after) keep ne fits (named, good, total) =
      let key = reported_key ignores classify n in
      (
        AreNamed-ignored n ns (inr ne) named,
        good,
        λ other.
            let t =
              total other
              ∙ ap (λ x. x + occurrences other (kept_keys ns))
                  (count_of-count_neighbor counts key other (length ns) fits) in
            rw keep (elim (==_cases key other) [
              | inl (e, c) ↦ rw c (
                  let q = rw c at t in
                  let same = ap (λ x. count_of counts x) e in omega (arith, q, same))
              | inr (ne', c) ↦ rw c (rw c at t)
            ]),
      )

  pub count_neighbors_lem :
      (counts : Counts) (ns : List ReportedNeighbor)
      → IsCounts counts
      → Fits counts (length ns)
      → IsCountedTo counts ns (count_neighbors ignores classify counts ns)
  unfolding count_neighbors kept_keys occurrences
  count_neighbors_lem counts [] good fits = ((λ n i. absurd i), good, λ key. omega arith)
  count_neighbors_lem counts (n ∷ ns) good fits = elim (Bool-cases (ignores n.local_port)) [
    | inl ig ↦ rw ig (
        IsCountedTo-ignored counts n ns (count_neighbors ignores classify counts ns) ig
          (count_neighbors_lem counts ns good (λ key. omega (arith, fits key))))
    | inr keep ↦ elim (==_cases n.remote_system_name "") [
      | inl (e, b) ↦ rw (keep, b) (λ named. named n (inl refl) keep e)
      | inr (ne, b) ↦
          rw (keep, b)
            (let key = reported_key ignores classify n in
              let room : Fits counts (length ns + 1) = λ other. omega (arith, fits other) in
              IsCountedTo-counted counts n ns
                (count_neighbors ignores classify (count_neighbor counts key) ns) keep ne room
                (count_neighbors_lem (count_neighbor counts key) ns
                  (count_neighbor-IsCounts counts key (length ns) room good)
                  (count_neighbor-Fits counts key (length ns) room)))
    ]
  ]
