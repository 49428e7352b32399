-- ===== src/Subscriptions/Manager/Invariant.antt =====
-- The invariant of the manager, between its subscriptions and the goroutines that run.
use unifabric.Common.{
  String, [], ◌∷◌, Map, ℕ, ◌+◌, ◌<◌, Option, none, some, get, put, keys, get-put, get-put_self,
  get-put_ne, Distinct, Distinct-keys-put, Member, string_eq, nat_eq, ◌==◌, ==_iff, ==_cases,
  if◌then◌else◌, Option-cases, ◌≡◌, ◌≢◌, refl, sym, subst, ap, ◌∙◌, arith, ◌⊎◌, inl, inr,
}
use unifabric.Subscriptions.Manager.{
  SwitchSubscription, SubscriptionManager, delete, stop_subscription,
}

pub get-delete :
    {V : Type 0} (m : Map String V) (k j : String)
    → get (delete m k) j ≡ (if k == j then none else get m j)
unfolding get delete
get-delete [] k j = ground arith
get-delete ((i, v) ∷ m) k j = ground (arith, ==_iff i k, ==_iff i j, ==_iff k j, get-delete m k j)

Member-delete :
    {V : Type 0} (m : Map String V) (k j : String)
    → Member j (keys (delete m k))
    → Member j (keys m)
unfolding delete
Member-delete [] k j h = h
Member-delete ((i, v) ∷ m) k j h = ground (arith, Member-delete m k j, h)

Distinct-delete :
    {V : Type 0} (m : Map String V) (k : String) → Distinct (keys m) → Distinct (keys (delete m k))
unfolding delete
Distinct-delete [] k d = d
Distinct-delete ((i, v) ∷ m) k d = ground (arith, Distinct-delete m k, Member-delete m k i, d)

-- the switch has this subscription
abbrev pub Subscribes : SubscriptionManager → String → SwitchSubscription → Type 0
Subscribes m name s = get m.subscriptions name ≡ some s

abbrev pub IsRunning : SubscriptionManager → ℕ → Type 0
IsRunning m goroutine = (goroutine < m.started) × ¬ Member goroutine m.cancelled

-- A subscription's goroutine runs, each running goroutine belongs to a subscription, and to one only.
abbrev pub IsManager : SubscriptionManager → Type 0
IsManager m =
    Distinct (keys m.subscriptions)
    × ((goroutine : ℕ) → Member goroutine m.cancelled → goroutine < m.started)
    × ((name : String) (s : SwitchSubscription) → Subscribes m name s → IsRunning m s.cancel)
    × ((goroutine : ℕ)
        → IsRunning m goroutine
        → (name : String) × (s : SwitchSubscription) × Subscribes m name s × (s.cancel ≡ goroutine))
    × ((name other : String) (s t : SwitchSubscription)
        → Subscribes m name s
        → Subscribes m other t
        → s.cancel ≡ t.cancel
        → name ≡ other)

others_stay :
    (m : SubscriptionManager) (name other : String) (t : SwitchSubscription)
    → get (delete m.subscriptions name) other ≡ some t
    → (name ≢ other) × Subscribes m other t
others_stay m name other t g = elim (==_cases name other) [
  | inl (e, b) ↦ absurd (
      let q : Option.none ≡ some t = rw b at (sym (get-delete m.subscriptions name other) ∙ g) in
      cc)
  | inr (ne, b) ↦ (ne, rw b at (sym (get-delete m.subscriptions name other) ∙ g))
]

pub stop_none :
    (m : SubscriptionManager) (name : String)
    → get m.subscriptions name ≡ none
    → stop_subscription m name ≡ m
unfolding stop_subscription
stop_none m name e = rw (e, stop_subscription) refl

abbrev stopped : SubscriptionManager → String → SwitchSubscription → SubscriptionManager
stopped m name s = record m {
  subscriptions = delete m.subscriptions name;
  cancelled = s.cancel ∷ m.cancelled;
}

stop_some :
    (m : SubscriptionManager) (name : String) (s : SwitchSubscription)
    → Subscribes m name s
    → stop_subscription m name ≡ stopped m name s
unfolding stop_subscription
stop_some m name s e = rw (e, stop_subscription) refl

pub stop_subscription-IsManager :
    (m : SubscriptionManager) (name : String) → IsManager m → IsManager (stop_subscription m name)
stop_subscription-IsManager m name (d, past, runs, owned, single) =
    elim (Option-cases (get m.subscriptions name)) [
      | inl e ↦ subst IsManager (sym (stop_none m name e)) (d, past, runs, owned, single)
      | inr (s, e) ↦ subst IsManager (sym (stop_some m name s e)) (
        Distinct-delete m.subscriptions name d,
        (λ goroutine i. elim i [
          | inl q ↦ subst (λ x. x < m.started) (sym q) (runs name s e).0
          | inr j ↦ past goroutine j
        ]),
        (λ other t g.
            let (ne, h) = others_stay m name other t g in
            (
              (runs other t h).0,
              λ i. elim i [
                | inl q ↦ ne (single name other s t e h (sym q))
                | inr j ↦ (runs other t h).1 j
              ],
            )),
        (λ goroutine run.
            let (other, t, h, q) = owned goroutine (run.0, λ i. run.1 (inr i)) in
            elim (==_cases name other) [
              | inl (p, b) ↦
                  let st : s ≡ t =
                    let y : Option.some s ≡ some t = sym e ∙ ap (get m.subscriptions) p ∙ h in cc in
                  absurd (run.1 (inl (sym q ∙ ap (λ (x : SwitchSubscription). x.cancel) (sym st))))
              | inr (ne, b) ↦ (other, t, get-delete m.subscriptions name other ∙ rw b h, q)
            ]),
        λ a b s' t g h q.
            single a b s' t (others_stay m name a s' g).1 (others_stay m name b t h).1 q,
      )
    ]

-- stop_subscription leaves the other switches alone, and its own without a subscription
pub get-stop_subscription :
    (m : SubscriptionManager) (name other : String)
    → get (stop_subscription m name).subscriptions other
      ≡ (if name == other then none else get m.subscriptions other)
get-stop_subscription m name other = elim (Option-cases (get m.subscriptions name)) [
  | inl e ↦
      ap (λ (n : SubscriptionManager). get n.subscriptions other) (stop_none m name e)
      ∙ elim (==_cases name other) [
        | inl (q, b) ↦ rw b (ap (get m.subscriptions) (sym q) ∙ e)
        | inr (ne, b) ↦ rw b refl
      ]
  | inr (s, e) ↦
      ap (λ (n : SubscriptionManager). get n.subscriptions other) (stop_some m name s e)
      ∙ get-delete m.subscriptions name other
]

-- a new subscription for a switch that has none
pub start-IsManager :
    (m : SubscriptionManager) (name target : String)
    → get m.subscriptions name ≡ none
    → IsManager m
    → IsManager (record m {
      subscriptions = put m.subscriptions name (record { target = target; cancel = m.started });
      started = m.started + 1;
    })
start-IsManager m name target e (d, past, runs, owned, single) =
    let new : SwitchSubscription = record { target = target; cancel = m.started } in
    let at : (other : String) (t : SwitchSubscription)
        → get (put m.subscriptions name new) other ≡ some t
        → ((name ≡ other) × (t.cancel ≡ m.started)) ⊎ ((name ≢ other) × Subscribes m other t) =
      λ other t g. elim (==_cases name other) [
        | inl (q, b) ↦
            let y : some new ≡ some t =
              rw b at (sym (get-put m.subscriptions name other new) ∙ g) in
            inl (q, let z : new ≡ t = cc in ap (λ (x : SwitchSubscription). x.cancel) (sym z))
        | inr (ne, b) ↦ inr (ne, rw b at (sym (get-put m.subscriptions name other new) ∙ g))
      ] in
    (
      Distinct-keys-put m.subscriptions name new d,
      (λ goroutine i. omega (arith, past goroutine i)),
      (λ other t g. elim (at other t g) [
        | inl (q, n) ↦ (omega (arith, n), λ i. omega (arith, past t.cancel i, n))
        | inr (ne, h) ↦ (omega (arith, (runs other t h).0), (runs other t h).1)
      ]),
      (λ goroutine run. elim (==_cases goroutine m.started) [
        | inl (q, b) ↦ (name, new, get-put_self m.subscriptions name new, sym q)
        | inr (ne, b) ↦
            let (other, t, h, q) = owned goroutine (omega (arith, run.0, ne), run.1) in
            (
              other,
              t,
              get-put_ne m.subscriptions name other new (λ p.
                    let y : Option.none ≡ some t = sym e ∙ ap (get m.subscriptions) p ∙ h in cc)
                  ∙ h,
              q,
            )
      ]),
      λ a b s t g h q. elim (at a s g) [
        | inl (p, n) ↦ elim (at b t h) [
          | inl (r, o) ↦ sym p ∙ r
          | inr (ne, k) ↦ absurd (omega (arith, (runs b t k).0, n, q))
        ]
        | inr (ne, k) ↦ elim (at b t h) [
          | inl (r, o) ↦ absurd (omega (arith, (runs a s k).0, o, q))
          | inr (ne', l) ↦ single a b s t k l q
        ]
      ],
    )
