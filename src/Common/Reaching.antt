-- ===== src/Common/Reaching.antt =====
-- What the search with marks finds: every name that was marked before or that the start reaches, each
-- noted once.
use Prim.Native.Nat.{ℕ, suc, ◌+◌, ◌<◌}
use Prim.Native.String.{String}
use mathlib.Core.Path.{◌≡◌, refl}
use mathlib.Core.Logic.{◌⊎◌, inl, inr, ◌↔◌, ⊎_elim}
use mathlib.Core.Bool.{Bool, true, false, not}
use mathlib.Core.List.{List, [], ◌∷◌, ◌++◌, append-nil}
use native.Mathlib.Omega.{arith}
use unifabric.Common.Tests.{Bool-cases, string_eq}
use unifabric.Common.Lists.{
  length, length-append, Member, Member-append, Distinct, Distinct-append_one, List-cases, filter,
  Member-filter, length-filter-le,
}
use unifabric.Common.Keyed.{Map, put, elem, elem_iff}
use unifabric.Common.Worklist.{drain_rule}
use unifabric.Common.Explore.{
  is_marked, is_marked-put, visit_once, explore, total_targets, open_targets, open_targets-le,
  open_targets-put, Reaches, here, onward, append_name,
}

module _ (targets : String → List String) (names : List String)
    (covers : (x y : String) → Member y (targets x) → Member x names) (x : String)
    (v₀ : Map String Bool)
    (closed₀ : (a b : String)
      → is_marked v₀ a ≡ true
      → Member b (targets a)
      → is_marked v₀ b ≡ true) where
  pub record Inv (queue : List String) (s : Map String Bool × List String) : Type 0 where
    pub sound :
        (y : String) → is_marked s.0 y ≡ true → (is_marked v₀ y ≡ true) ⊎ Reaches targets x y
    pub queued : (y : String) → Member y queue → Reaches targets x y
    pub closed :
        (a b : String)
        → is_marked s.0 a ≡ true
        → Member b (targets a)
        → (is_marked s.0 b ≡ true) ⊎ Member b queue
    pub start : (is_marked s.0 x ≡ true) ⊎ Member x queue
    pub grows : (y : String) → is_marked v₀ y ≡ true → is_marked s.0 y ≡ true
    pub order : (y : String) → Member y s.1 ↔ ((is_marked s.0 y ≡ true) × (is_marked v₀ y ≡ false))
    pub distinct : Distinct s.1

  Inv-start : Inv (x ∷ []) (v₀, [])
  Inv-start = record {
    sound = λ y h. inl h;
    queued = λ y m. ⊎_elim (λ e. rw e here) (λ n. absurd n) m;
    closed = λ a b h m. inl (closed₀ a b h m);
    start = inr (inl refl);
    grows = λ y h. h;
    order = λ y. ground arith;
    distinct = tt;
  }

  -- a name that is marked already
  Inv-skip :
      (u : String) (qs : List String) (s : Map String Bool × List String)
      → is_marked s.0 u ≡ true
      → Inv (u ∷ qs) s
      → Inv qs s
  Inv-skip u qs s h i = record {
    sound = i.sound;
    queued = λ y m. i.queued y (inr m);
    closed = λ a b k m. ground (arith, i.closed a b k m);
    start = ground (arith, i.start);
    grows = i.grows;
    order = i.order;
    distinct = i.distinct;
  }

  module _ (u : String) (qs : List String) (v : Map String Bool) (o : List String)
      (h : is_marked v u ≡ false) (i : Inv (u ∷ qs) (v, o)) where
    abbrev v' : Map String Bool
    v' = put v u true

    abbrev new : List String
    new = filter (λ y. not (is_marked v' y)) (targets u)

    Member-new : (y : String) → Member y new ↔ (Member y (targets u) × (is_marked v' y ≡ false))
    Member-new y = ground (arith, Member-filter (λ y. not (is_marked v' y)) y (targets u))

    unseen : is_marked v₀ u ≡ false
    unseen = elim (Bool-cases (is_marked v₀ u)) [ inl m ↦ cc (i.grows u m) | inr m ↦ m ]

    closed_after :
        (a b : String)
        → is_marked v' a ≡ true
        → Member b (targets a)
        → (is_marked v' b ≡ true) ⊎ Member b (qs ++ new)
    closed_after a b k m = elim ((is_marked-put v u a).0 k) [
      | inl old ↦ ground (arith, i.closed a b old m, is_marked-put v u b, Member-append b qs new)
      | inr e ↦ elim (Bool-cases (is_marked v' b)) [
        | inl r ↦ inl r
        | inr r ↦ inr ((Member-append b qs new).1 (inr ((Member-new b).1 (rw e m, r))))
      ]
    ]

    Inv-mark : Inv (qs ++ new) (v', o ++ u ∷ [])
    Inv-mark = record {
      sound = λ y k. elim ((is_marked-put v u y).0 k) [
        | inl old ↦ i.sound y old
        | inr e ↦ inr (rw (← e) (i.queued u (inl refl)))
      ];
      queued = λ y m. elim ((Member-append y qs new).0 m) [
        | inl k ↦ i.queued y (inr k)
        | inr k ↦ onward (i.queued u (inl refl)) ((Member-new y).0 k).0
      ];
      closed = closed_after;
      start = ground (arith, i.start, is_marked-put v u x, Member-append x qs new);
      grows = λ y k. (is_marked-put v u y).1 (inl (i.grows y k));
      order = λ y.
          ground (arith, i.order y, is_marked-put v u y, Member-append y o (u ∷ []), unseen, h);
      distinct = Distinct-append_one u o (λ m. ground (arith, i.order u)) i.distinct;
    }

    -- the round pays for its targets
    cost_after :
        length (qs ++ new) + open_targets targets v' names
        < length (u ∷ qs) + open_targets targets v names
    cost_after = elim (Bool-cases (elem u names)) [
      | inl e ↦ ground (
        arith,
        length-append qs new,
        length-filter-le (λ y. not (is_marked v' y)) (targets u),
        open_targets-put targets v u names h,
      )
      | inr e ↦ elim (List-cases (targets u)) [
        | inl none_left ↦ ground (
          arith,
          length-append qs new,
          length-filter-le (λ y. not (is_marked v' y)) (targets u),
          open_targets-put targets v u names h,
        )
        | inr (y, rest, t) ↦ cc ((elem_iff u names).1 (covers u y (rw t (inl refl))))
      ]
    ]

  abbrev measure : List String → Map String Bool × List String → ℕ
  measure queue s = length queue + open_targets targets s.0 names

  Inv-visit :
      (u : String) (qs : List String) (s : Map String Bool × List String)
      → Inv (u ∷ qs) s
      → Inv (qs ++ (visit_once targets append_name u s).1) (visit_once targets append_name u s).0
        × (measure
              (qs ++ (visit_once targets append_name u s).1)
              (visit_once targets append_name u s).0
            < measure (u ∷ qs) s)
  unfolding visit_once
  Inv-visit u qs (v, o) i = elim (Bool-cases (is_marked v u)) [
    | inl h ↦ rw (h, append-nil) (Inv-skip u qs (v, o) h i, omega arith)
    | inr h ↦ rw h (Inv-mark u qs v o h i, cost_after u qs v o h i)
  ]

  abbrev found : List String × (Map String Bool × List String)
  found = explore targets append_name names x v₀ []

  found_result : (found.0 ≡ []) × Inv [] found.1
  unfolding explore
  found_result =
      drain_rule (visit_once targets append_name) Inv measure Inv-visit
        (suc (total_targets targets names)) (x ∷ []) (v₀, [])
        (omega (arith, open_targets-le targets v₀ names)) Inv-start

  reached_marked : {y : String} → Reaches targets x y → is_marked found.1.0 y ≡ true
  reached_marked here = ⊎_elim (λ h. h) (λ m. absurd m) found_result.1.start
  reached_marked (onward {y} {z} r m) =
      ⊎_elim (λ h. h) (λ n. absurd n) (found_result.1.closed y z (reached_marked r) m)

  -- The search ends; a name is marked exactly when it was before or the start reaches it; and the names
  -- that were noted are the newly marked ones, each once.
  pub explore_exact :
      (found.0 ≡ [])
      × ((y : String)
          → (is_marked found.1.0 y ≡ true) ↔ ((is_marked v₀ y ≡ true) ⊎ Reaches targets x y))
      × ((y : String) → Member y found.1.1 ↔ (Reaches targets x y × (is_marked v₀ y ≡ false)))
      × Distinct found.1.1
  explore_exact =
      let i = found_result.1 in
      (
        found_result.0,
        λ y. (i.sound y, ⊎_elim (i.grows y) reached_marked),
        λ y. (
          λ m.
              let (now, before) = (i.order y).0 m in
              (⊎_elim (λ h. cc) (λ r. r) (i.sound y now), before),
          λ (r, before). (i.order y).1 (reached_marked r, before),
        ),
        i.distinct,
      )
