-- ===== src/Subscriptions/Manager/Refinement.antt =====
-- The loop of `syncSubscriptions` over the targets, and the two loops together.
use unifabric.Common.{
  String, [], ◌∷◌, ◌+◌, Option, none, some, get, put, keys, get-put, get-put_self, get-put_ne,
  Distinct, Member, entry_of_get, get_of_entry, string_eq, ==_iff, ==_cases, foldl, Option-cases,
  ◌≡◌, refl, sym, subst, ap, ◌∙◌, ◌⊎◌, inl, inr,
}
use unifabric.Subscriptions.Manager.{
  SwitchSubscription, SubscriptionManager, has_subscription, Targets, start_subscription,
  update_subscriptions,
}
use unifabric.Subscriptions.Manager.Invariant.{Subscribes, IsManager, start-IsManager}
use unifabric.Subscriptions.Manager.Stale.{
  IsFresh, dropped, dropped-IsManager, left_wanted, dropped-IsFresh,
}

abbrev started : SubscriptionManager → String → String → SubscriptionManager
started m name target = record m {
  subscriptions = put m.subscriptions name (record { target = target; cancel = m.started });
  started = m.started + 1;
}

-- The second loop meets a switch with the wanted subscription or with none.
start_cases :
    (desired : Targets) (m : SubscriptionManager) (name target : String)
    → IsFresh desired m
    → get desired name ≡ some target
    → ((s : SwitchSubscription) × Subscribes m name s
        × (s.target ≡ target)
        × (start_subscription m (name, target) ≡ m))
      ⊎ ((get m.subscriptions name ≡ none)
          × (start_subscription m (name, target) ≡ started m name target))
unfolding start_subscription has_subscription
start_cases desired m name target fresh w = elim (Option-cases (get m.subscriptions name)) [
  | inl e ↦ inr (e, rw (start_subscription, has_subscription, e) refl)
  | inr (s, e) ↦
      let q : s.target ≡ target =
        let y : some s.target ≡ some target = sym (fresh name s e) ∙ w in cc in
      inl (s, e, q, rw (start_subscription, has_subscription, e, (==_iff s.target target).1 q) refl)
]

-- What one round of the second loop keeps and gives.
start_step :
    (desired : Targets) (m : SubscriptionManager) (name target : String)
    → IsManager m
    → IsFresh desired m
    → get desired name ≡ some target
    → let n = start_subscription m (name, target) in
      IsManager n
      × IsFresh desired n
      × ((other : String) (s : SwitchSubscription) → Subscribes m other s → Subscribes n other s)
      × ((s : SwitchSubscription) × Subscribes n name s × (s.target ≡ target))
start_step desired m name target h fresh w =
    let new : SwitchSubscription = record { target = target; cancel = m.started } in
    elim (start_cases desired m name target fresh w) [
      | inl (s, e, q, p) ↦ rw p (h, fresh, (λ other t k. k), (s, e, q))
      | inr (e, p) ↦ rw p (
        start-IsManager m name target e h,
        (λ other t k. elim (==_cases name other) [
          | inl (q, b) ↦
              let y : some new ≡ some t =
                rw b at (sym (get-put m.subscriptions name other new) ∙ k) in
              let z : new ≡ t = cc in
              ap (get desired) (sym q) ∙ w ∙ ap (λ (x : SwitchSubscription). some x.target) z
          | inr (ne, b) ↦ fresh other t (rw b at (sym (get-put m.subscriptions name other new) ∙ k))
        ]),
        (λ other t k.
            get-put_ne m.subscriptions name other new
              (λ q. let y : Option.none ≡ some t = sym e ∙ ap (get m.subscriptions) q ∙ k in cc)
            ∙ k),
        (new, get-put_self m.subscriptions name new, refl),
      )
    ]

start_all :
    (desired xs : Targets) (m : SubscriptionManager)
    → IsManager m
    → IsFresh desired m
    → ((name target : String) → Member (name, target) xs → get desired name ≡ some target)
    → let n = foldl start_subscription m xs in
      IsManager n
      × IsFresh desired n
      × ((other : String) (s : SwitchSubscription) → Subscribes m other s → Subscribes n other s)
      × ((name target : String)
          → Member (name, target) xs
          → (s : SwitchSubscription) × Subscribes n name s × (s.target ≡ target))
start_all desired [] m h fresh w = (h, fresh, (λ other s k. k), λ name target i. absurd i)
start_all desired ((name, target) ∷ xs) m h fresh w =
    let (h', fresh', kept, (s, served, q)) =
      start_step desired m name target h fresh (w name target (inl refl)) in
    let (h'', fresh'', kept', all) =
      start_all desired xs (start_subscription m (name, target)) h' fresh'
        (λ a t i. w a t (inr i)) in
    (
      h'',
      fresh'',
      (λ other t k. kept' other t (kept other t k)),
      λ a t i. elim i [
        | inl e ↦ (
          s,
          subst
              (λ x.
                Subscribes (foldl start_subscription (start_subscription m (name, target)) xs) x s)
              (ap (λ (x : String × String). x.0) (sym e)) (kept' name s served),
          q ∙ ap (λ (x : String × String). x.1) (sym e),
        )
        | inr j ↦ all a t j
      ],
    )

-- the target of a switch's subscription
unfoldable pub current_target : SubscriptionManager → String → Option String
current_target m name = elim (get m.subscriptions name) [ none ↦ none | some s ↦ some s.target ]

current_some :
    (m : SubscriptionManager) (name : String) (s : SwitchSubscription)
    → Subscribes m name s
    → current_target m name ≡ some s.target
unfolding current_target
current_some m name s e = rw (e, current_target) refl

current_none :
    (m : SubscriptionManager) (name : String)
    → get m.subscriptions name ≡ none
    → current_target m name ≡ none
unfolding current_target
current_none m name e = rw (e, current_target) refl

-- the loops over the targets
pub update_subscriptions_lem :
    (m : SubscriptionManager) (desired : Targets)
    → IsManager m
    → Distinct (keys desired)
    → let n = update_subscriptions m desired in
      IsManager n
      × ((name : String) → current_target n name ≡ get desired name)
      × ((name : String) (s : SwitchSubscription)
          → Subscribes m name s
          → get desired name ≡ some s.target
          → Subscribes n name s)
unfolding update_subscriptions
update_subscriptions_lem m desired h d =
    let (h', fresh, kept, all) =
      start_all desired desired (dropped desired m) (dropped-IsManager desired m h)
        (dropped-IsFresh desired m h) (λ name target i. get_of_entry desired name target d i) in
    (
      h',
      (λ name. elim (Option-cases (get (update_subscriptions m desired).subscriptions name)) [
        | inr (s, e) ↦ current_some (update_subscriptions m desired) name s e ∙ sym (fresh name s e)
        | inl e ↦
            current_none (update_subscriptions m desired) name e
            ∙ elim (Option-cases (get desired name)) [
              | inl w ↦ sym w
              | inr (t, w) ↦ absurd (
                  let (s, k, q) = all name t (entry_of_get desired name t w) in
                  let y : Option.none ≡ some s = sym e ∙ k in cc)
            ]
      ]),
      λ name s g w. kept name s (left_wanted desired m name s h.0 g w),
    )
