-- ===== src/Subscriptions/Manager/Stale.antt =====
-- The loop of `syncSubscriptions` that cancels the subscriptions which are not wanted.
use unifabric.Common.{
  String, [], ◌∷◌, Map, none, some, get, keys, Distinct, Member, entry_of_get, get_of_entry,
  string_eq, ==_iff, ==_cases, foldl, foldl_keeps, Option-cases, ◌≡◌, ◌≢◌, refl, sym, subst, ap,
  ◌∙◌, ◌⊎◌, inl, inr,
}
use unifabric.Subscriptions.Manager.{
  SwitchSubscription, SubscriptionManager, stop_subscription, Targets, drop_stale,
}
use unifabric.Subscriptions.Manager.Invariant.{
  Subscribes, IsManager, stop_subscription-IsManager, get-stop_subscription,
}

-- The target of each subscription is the desired one.
abbrev pub IsFresh : Targets → SubscriptionManager → Type 0
IsFresh desired m =
    (name : String) (s : SwitchSubscription)
    → Subscribes m name s
    → get desired name ≡ some s.target

drop_cases :
    (desired : Targets) (m : SubscriptionManager) (name : String) (s : SwitchSubscription)
    → ((get desired name ≡ some s.target) × (drop_stale desired m (name, s) ≡ m))
      ⊎ ((get desired name ≢ some s.target)
          × (drop_stale desired m (name, s) ≡ stop_subscription m name))
unfolding drop_stale
drop_cases desired m name s = elim (Option-cases (get desired name)) [
  | inl e ↦ inr (cc, rw (e, drop_stale) refl)
  | inr (t, e) ↦ elim (==_cases t s.target) [
    | inl (q, b) ↦ inl (e ∙ ap some q, rw (e, drop_stale, b) refl)
    | inr (ne, b) ↦
        inr
          ((λ i. ne (let y : some t ≡ some s.target = sym e ∙ i in cc)), rw (e, drop_stale, b) refl)
  ]
]

pub get-stopped_self :
    (m : SubscriptionManager) (name : String)
    → get (stop_subscription m name).subscriptions name ≡ none
get-stopped_self m name = get-stop_subscription m name name ∙ rw ((==_iff name name).1 refl) refl

pub get-stopped_none :
    (m : SubscriptionManager) (name other : String)
    → get m.subscriptions other ≡ none
    → get (stop_subscription m name).subscriptions other ≡ none
get-stopped_none m name other e = elim (==_cases name other) [
  | inl (q, b) ↦ get-stop_subscription m name other ∙ rw b refl
  | inr (ne, b) ↦ get-stop_subscription m name other ∙ rw b e
]

drop_none :
    (desired : Targets) (m : SubscriptionManager) (x : String × SwitchSubscription) (other : String)
    → get m.subscriptions other ≡ none
    → get (drop_stale desired m x).subscriptions other ≡ none
drop_none desired m (name, s) other e = elim (drop_cases desired m name s) [
  | inl (w, q) ↦ ap (λ (n : SubscriptionManager). get n.subscriptions other) q ∙ e
  | inr (ne, q) ↦
      ap (λ (n : SubscriptionManager). get n.subscriptions other) q
      ∙ get-stopped_none m name other e
]

-- a subscription that the first loop meets and that is not wanted
drop_unwanted :
    (desired : Targets) (xs : Map String SwitchSubscription) (m : SubscriptionManager)
    (name : String) (s : SwitchSubscription)
    → Member (name, s) xs
    → get desired name ≢ some s.target
    → get (foldl (drop_stale desired) m xs).subscriptions name ≡ none
drop_unwanted desired [] m name s i ne = absurd i
drop_unwanted desired (x ∷ xs) m name s (inr i) ne =
    drop_unwanted desired xs (drop_stale desired m x) name s i ne
drop_unwanted desired (x ∷ xs) m name s (inl q) ne =
    foldl_keeps (λ n. get n.subscriptions name ≡ none) (drop_stale desired) xs
      (drop_stale desired m x) (λ n y j e. drop_none desired n y name e)
      (subst (λ y. get (drop_stale desired m y).subscriptions name ≡ none) q
        (elim (drop_cases desired m name s) [
          | inl (w, p) ↦ absurd (ne w)
          | inr (ne', p) ↦
              ap (λ (n : SubscriptionManager). get n.subscriptions name) p ∙ get-stopped_self m name
        ]))

decide_wanted :
    (desired : Targets) (name target : String)
    → (get desired name ≡ some target) ⊎ (get desired name ≢ some target)
decide_wanted desired name target = elim (Option-cases (get desired name)) [
  | inl e ↦ inr cc
  | inr (t, e) ↦ elim (==_cases t target) [
    | inl (q, b) ↦ inl (e ∙ ap some q)
    | inr (ne, b) ↦ inr (λ i. ne (let y : some t ≡ some target = sym e ∙ i in cc))
  ]
]

abbrev pub dropped : Targets → SubscriptionManager → SubscriptionManager
dropped desired m = foldl (drop_stale desired) m m.subscriptions

pub dropped-IsManager :
    (desired : Targets) (m : SubscriptionManager) → IsManager m → IsManager (dropped desired m)
dropped-IsManager desired m h =
    foldl_keeps IsManager (drop_stale desired) m.subscriptions m
      (λ n (name, s) i k. elim (drop_cases desired n name s) [
        | inl (w, q) ↦ subst IsManager (sym q) k
        | inr (ne, q) ↦ subst IsManager (sym q) (stop_subscription-IsManager n name k)
      ])
      h

pub left_wanted :
    (desired : Targets) (m : SubscriptionManager) (name : String) (s : SwitchSubscription)
    → Distinct (keys m.subscriptions)
    → Subscribes m name s
    → get desired name ≡ some s.target
    → Subscribes (dropped desired m) name s
left_wanted desired m name s d h w =
    foldl_keeps (λ n. Subscribes n name s) (drop_stale desired) m.subscriptions m
      (λ n (other, t) i k. elim (drop_cases desired n other t) [
        | inl (w', q) ↦ ap (λ (n' : SubscriptionManager). get n'.subscriptions name) q ∙ k
        | inr (ne, q) ↦
            ap (λ (n' : SubscriptionManager). get n'.subscriptions name) q
            ∙ get-stop_subscription n other name
            ∙ elim (==_cases other name) [
              | inl (p, b) ↦
                  let y : some s ≡ some t =
                    sym h
                    ∙ ap (get m.subscriptions) (sym p)
                    ∙ get_of_entry m.subscriptions other t d i in
                  absurd (
                    ne (
                      ap (get desired) p
                      ∙ w
                      ∙ (let z : s ≡ t = cc in ap (λ (x : SwitchSubscription). some x.target) z)))
              | inr (ne', b) ↦ rw b k
            ]
      ])
      h

left_none :
    (desired : Targets) (m : SubscriptionManager) (name : String)
    → get m.subscriptions name ≡ none
    → get (dropped desired m).subscriptions name ≡ none
left_none desired m name e =
    foldl_keeps (λ n. get n.subscriptions name ≡ none) (drop_stale desired) m.subscriptions m
      (λ n x i k. drop_none desired n x name k) e

-- After the first loop every subscription has the desired target.
pub dropped-IsFresh :
    (desired : Targets) (m : SubscriptionManager)
    → IsManager m
    → IsFresh desired (dropped desired m)
dropped-IsFresh desired m h name s g = elim (Option-cases (get m.subscriptions name)) [
  | inl e ↦ absurd (let q = left_none desired m name e in cc)
  | inr (t, e) ↦ elim (decide_wanted desired name t.target) [
    | inl w ↦
        let y : some s ≡ some t = sym g ∙ left_wanted desired m name t h.0 e w in
        let z : s ≡ t = cc in w ∙ ap (λ (x : SwitchSubscription). some x.target) (sym z)
    | inr ne ↦ absurd (
        let q =
          drop_unwanted desired m.subscriptions m name t (entry_of_get m.subscriptions name t e)
            ne in
        cc)
  ]
]
