-- ===== src/Topology/Tiers/Search.antt =====
-- The search of `InferTiers` ends on an empty queue and has found the distances.
use unifabric.Common.{
  String, List, [], ◌∷◌, ◌++◌, true, Map, pos, negsuc, keys, ◌+◌, ◌≤◌, ◌<◌, string_eq, ℕ, suc, zero,
  ◌≡◌, refl, sym, ◌∙◌, ◌⊎◌, inl, inr, arith, Member, Member-append, subst,
}
use unifabric.Topology.Types.{Device, host, switch, device_of, Adjacency, has_edge}
use unifabric.Topology.Tiers.{expand}
use unifabric.Topology.Tiers.Round.{level, Effect, reached, kept, expand_effect, keys-expand}

-- Queue order: no name stands before one of a lower level.
abbrev pub Up : (String → ℕ) → List String → Type 0
Up lev [] = Unit
Up lev (q ∷ qs) = ((r : String) → Member r qs → lev q ≤ lev r) × Up lev qs

pub Up-append :
    (lev lev' : String → ℕ) (top : ℕ) (qs new : List String)
    → ((q : String) → Member q qs → (lev' q ≡ lev q) × (lev q ≤ top))
    → ((r : String) → Member r new → lev' r ≡ top)
    → Up lev qs
    → Up lev' (qs ++ new)
Up-append lev lev' top [] [] old at h = tt
Up-append lev lev' top [] (r ∷ new) old at h = (
  λ s m. omega (arith, at r (inl refl), at s (inr m)),
  Up-append lev lev' top [] new old (λ s m. at s (inr m)) tt,
)
Up-append lev lev' top (q ∷ qs) new old at h = (
  λ r m. elim ((Member-append r qs new).0 m) [
    | inl k ↦ omega (arith, old q (inl refl), old r (inr k), h.0 r k)
    | inr k ↦ omega (arith, old q (inl refl), at r k)
  ],
  Up-append lev lev' top qs new (λ s m. old s (inr m)) at h.1,
)

module _ (adj : Adjacency) (d₀ : Map String Device) where
  abbrev pub IsSwitch : String → Type 0
  IsSwitch x = (device_of d₀ x).type ≡ switch

  abbrev pub Edge : String → String → Type 0
  Edge x y = has_edge adj x y ≡ true

  -- `Near k v`: the switch `v` is `k` hops over switches away from a switch with a host neighbor.
  pub data Near : ℕ → String → Type 0 where
    first :
        {v : String} (h : String)
        → IsSwitch v
        → Edge v h
        → (device_of d₀ h).type ≡ host
        → Near zero v
    hop : {k : ℕ} {u v : String} → Near k u → Edge u v → IsSwitch v → Near (suc k) v

  pub record Inv (queue : List String) (d : Map String Device) : Type 0 where
    pub keys_same : keys d ≡ keys d₀
    pub type_same : (x : String) → (device_of d x).type ≡ (device_of d₀ x).type
    pub name_same : (x : String) → (device_of d x).name ≡ (device_of d₀ x).name
    pub others_same : (x : String) → ¬ IsSwitch x → device_of d x ≡ device_of d₀ x
    pub tiers :
        (x : String)
        → IsSwitch x
        → ((device_of d x).tier ≡ negsuc 0)
          ⊎ ((k : ℕ) × ((device_of d x).tier ≡ pos (suc k)) × Near k x)
    pub queued : (q : String) → Member q queue → IsSwitch q × (0 < level d q)
    pub order : Up (level d) queue
    pub bound : (q x : String) → Member q queue → IsSwitch x → level d x ≤ level d q + 1
    pub closed :
        (u v : String)
        → IsSwitch u
        → 0 < level d u
        → Edge u v
        → IsSwitch v
        → Member u queue ⊎ (0 < level d v) × (level d v ≤ level d u + 1)
    pub seeds : (x : String) → Near zero x → level d x ≡ 1

  module _ (u : String) (qs : List String) (d : Map String Device) (i : Inv (u ∷ qs) d) where
    pub head_tier : (k : ℕ) × ((device_of d u).tier ≡ pos (suc k)) × Near k u
    head_tier = elim (i.tiers u (i.queued u (inl refl)).0) [
      | inl e ↦ absurd (ground (arith, i.queued u (inl refl)))
      | inr t ↦ t
    ]

    abbrev e : Map String Device
    e = (expand adj u d).0

    abbrev new : List String
    new = (expand adj u d).1

    effect : (x : String) → Effect adj u d e new x
    effect = expand_effect adj u d (suc head_tier.0) head_tier.1

    -- The level of a switch after the round.
    level_after :
        (x : String)
        → IsSwitch x
        → (Edge u x × (level d x ≡ 0) × (level e x ≡ level d u + 1) × Member x new)
          ⊎ (level e x ≡ level d x) × (Edge u x → 0 < level d x) × (¬ Member x new)
    level_after x sw = go (effect x) (i.tiers x sw)
      where
        go :
            Effect adj u d e new x
            → ((device_of d x).tier ≡ negsuc 0)
              ⊎ ((k : ℕ) × ((device_of d x).tier ≡ pos (suc k)) × Near k x)
            → (Edge u x × (level d x ≡ 0) × (level e x ≡ level d u + 1) × Member x new)
              ⊎ (level e x ≡ level d x) × (Edge u x → 0 < level d x) × (¬ Member x new)
        go (reached a b c r m) t = inl (a, ground arith, ground arith, m)
        go (kept stays r m) (inl t) =
            inr (ground arith, λ a. absurd (stays a (i.type_same x ∙ sw) t), m)
        go (kept stays r m) (inr (k, t, n)) = inr (ground arith, λ a. ground arith, m)

    new-IsSwitch : (x : String) → Member x new → IsSwitch x
    new-IsSwitch x m = go (effect x)
      where
        go : Effect adj u d e new x → IsSwitch x
        go (reached a b c r n) = sym (i.type_same x) ∙ b
        go (kept stays r n) = absurd (n m)

    tiers_after :
        (x : String)
        → IsSwitch x
        → ((device_of e x).tier ≡ negsuc 0)
          ⊎ ((k : ℕ) × ((device_of e x).tier ≡ pos (suc k)) × Near k x)
    tiers_after x sw = go (effect x)
      where
        go :
            Effect adj u d e new x
            → ((device_of e x).tier ≡ negsuc 0)
              ⊎ ((k : ℕ) × ((device_of e x).tier ≡ pos (suc k)) × Near k x)
        go (reached a b c r n) =
            inr (suc head_tier.0, ground (arith, head_tier.1), hop head_tier.2 a sw)
        go (kept stays r n) = rw r (i.tiers x sw)

    device_after : (x : String) → (device_of e x).type ≡ (device_of d x).type
    device_after x = go (effect x)
      where
        go : Effect adj u d e new x → (device_of e x).type ≡ (device_of d x).type
        go (reached a b c r n) = rw r refl
        go (kept stays r n) = rw r refl

    name_after : (x : String) → (device_of e x).name ≡ (device_of d x).name
    name_after x = go (effect x)
      where
        go : Effect adj u d e new x → (device_of e x).name ≡ (device_of d x).name
        go (reached a b c r n) = rw r refl
        go (kept stays r n) = rw r refl

    others_after : (x : String) → ¬ IsSwitch x → device_of e x ≡ device_of d₀ x
    others_after x sw = go (effect x)
      where
        go : Effect adj u d e new x → device_of e x ≡ device_of d₀ x
        go (reached a b c r n) = absurd (sw (sym (i.type_same x) ∙ b))
        go (kept stays r n) = r ∙ i.others_same x sw

    queued_after : (q : String) → Member q (qs ++ new) → IsSwitch q × (0 < level e q)
    queued_after q m = elim ((Member-append q qs new).0 m) [
      | inl k ↦ let (sw, pos_level) = i.queued q (inr k) in (sw, ground (arith, level_after q sw))
      | inr k ↦ (new-IsSwitch q k, ground (arith, level_after q (new-IsSwitch q k)))
    ]

    order_after : Up (level e) (qs ++ new)
    order_after =
        Up-append (level d) (level e) (level d u + 1) qs new
          (λ q m.
            let (sw, pos_level) = i.queued q (inr m) in
            (ground (arith, level_after q sw), i.bound u q (inl refl) sw))
          (λ r m. ground (arith, level_after r (new-IsSwitch r m))) i.order.1

    bound_after : (q x : String) → Member q (qs ++ new) → IsSwitch x → level e x ≤ level e q + 1
    bound_after q x m sw = elim ((Member-append q qs new).0 m) [
      | inl k ↦
          let (qw, pos_level) = i.queued q (inr k) in
          ground
            (arith, level_after q qw, level_after x sw, i.bound u x (inl refl) sw, i.order.0 q k)
      | inr k ↦
          ground
            (arith, level_after q (new-IsSwitch q k), level_after x sw, i.bound u x (inl refl) sw)
    ]

    closed_after :
        (a b : String)
        → IsSwitch a
        → 0 < level e a
        → Edge a b
        → IsSwitch b
        → Member a (qs ++ new) ⊎ (0 < level e b) × (level e b ≤ level e a + 1)
    closed_after a b sw p edge bw = elim (level_after a sw) [
      | inl (_, _, _, m) ↦ inl ((Member-append a qs new).1 (inr m))
      | inr (same, _, _) ↦ elim (i.closed a b sw (rw same at p) edge bw) [
        | inl (inl here) ↦ inr (
            ground
              (arith, level_after b bw, i.bound u b (inl refl) bw, subst (λ x. Edge x b) here edge))
        | inl (inr m) ↦ inl ((Member-append a qs new).1 (inl m))
        | inr (pb, le) ↦ inr (ground (arith, level_after b bw))
      ]
    ]

    pub Inv-expand : Inv (qs ++ new) e
    Inv-expand = record {
      keys_same = keys-expand adj u d (suc head_tier.0) head_tier.1 ∙ i.keys_same;
      type_same = λ x. device_after x ∙ i.type_same x;
      name_same = λ x. name_after x ∙ i.name_same x;
      others_same = others_after;
      tiers = tiers_after;
      queued = queued_after;
      order = order_after;
      bound = bound_after;
      closed = closed_after;
      seeds = λ x n. seeds_after x n;
    }
      where
        seed_switch : (x : String) → Near zero x → IsSwitch x
        seed_switch x (first h sw a b) = sw

        seeds_after : (x : String) → Near zero x → level e x ≡ 1
        seeds_after x n = ground (arith, level_after x (seed_switch x n), i.seeds x n)
