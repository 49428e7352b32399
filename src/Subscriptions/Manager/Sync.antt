-- ===== src/Subscriptions/Manager/Sync.antt =====
-- `syncSubscriptions`: the loop over the switches, and what it gives to the loops over the targets.
use unifabric.Common.{
  String, List, [], ◌∷◌, map, ℕ, Bool, true, Option, none, some, get, put, keys, get-put_self,
  get-put_ne, Distinct, Distinct-keys-put, Member, string_eq, ◌==◌, ==_iff, ==_cases, if◌then◌else◌,
  if_keeps, Bool-cases, ◌≡◌, ◌≢◌, refl, sym, subst, ap, ◌∙◌, inl, inr, Member-map,
}
use unifabric.Subscriptions.Manager.{
  SubscriptionManager, SwitchSpec, SwitchSubscription, stop_subscription, Targets, target_of,
  update_subscriptions, collect_targets, finish_sync, sync_subscriptions,
}
use unifabric.Subscriptions.Manager.Invariant.{
  Subscribes, IsManager, stop_subscription-IsManager, get-stop_subscription,
}
use unifabric.Subscriptions.Manager.Refinement.{current_target, update_subscriptions_lem}

abbrev pub names : List SwitchSpec → List String
names = map (λ (sw : SwitchSpec). sw.name)

-- the target of the switch of this name, none where it has no management address
unfoldable pub wanted_target : ℕ → List SwitchSpec → String → Option String
wanted_target default_port [] name = none
wanted_target default_port (sw ∷ switches) name =
    let later = wanted_target default_port switches name in
    if sw.name == name
    then (if sw.mgmt_ip == "" then none else some (target_of default_port sw))
    else later

wanted_absent :
    (p : ℕ) (switches : List SwitchSpec) (name : String)
    → ¬ Member name (names switches)
    → wanted_target p switches name ≡ none
unfolding wanted_target
wanted_absent p [] name a = refl
wanted_absent p (sw ∷ switches) name a = elim (==_cases sw.name name) [
  | inl (q, b) ↦ absurd (a (inl (sym q)))
  | inr (ne, b) ↦ rw b (wanted_absent p switches name (λ i. a (inr i)))
]

-- what the loop over the switches gives: a well-formed manager and, unless an error, targets
abbrev IsCollected : SubscriptionManager × Option Targets → Type 0
IsCollected r =
    IsManager (r.0) × ((desired : Targets) → r.1 ≡ some desired → Distinct (keys desired))

collect_targets-IsCollected :
    (p : ℕ) (clears : String → Bool) (m : SubscriptionManager) (desired : Targets)
    (switches : List SwitchSpec)
    → IsManager m
    → Distinct (keys desired)
    → IsCollected (collect_targets p clears m desired switches)
unfolding collect_targets
collect_targets-IsCollected p clears m desired [] h d = (
  h,
  λ other e.
      subst (λ (x : Targets). Distinct (keys x)) (let q : some desired ≡ some other = e in cc) d,
)
collect_targets-IsCollected p clears m desired (sw ∷ switches) h d =
    let stopped = stop_subscription-IsManager m sw.name h in
    if_keeps IsCollected (sw.mgmt_ip == "")
      (if_keeps IsCollected (clears sw.name)
        (collect_targets-IsCollected p clears (stop_subscription m sw.name) desired switches stopped
          d)
        (stopped, λ other e. absurd cc))
      (collect_targets-IsCollected p clears m (put desired sw.name (target_of p sw)) switches h
        (Distinct-keys-put desired sw.name (target_of p sw) d))

-- The collected targets are those of the switches, and before them those there were.
collect_wanted :
    (p : ℕ) (clears : String → Bool) (m : SubscriptionManager) (desired collected : Targets)
    (switches : List SwitchSpec) (name : String)
    → Distinct (names switches)
    → (collect_targets p clears m desired switches).1 ≡ some collected
    → (get desired name ≡ none → get collected name ≡ wanted_target p switches name)
      × ((t : String)
          → get desired name ≡ some t
          → ¬ Member name (names switches)
          → get collected name ≡ some t)
unfolding collect_targets wanted_target
collect_wanted p clears m desired collected [] name d e =
    let q : desired ≡ collected = cc in
    subst
      (λ (x : Targets).
        (get desired name ≡ none → get x name ≡ none)
        × ((t : String) → get desired name ≡ some t → ¬ Member name [] → get x name ≡ some t))
      q ((λ i. i), λ t i a. i)
collect_wanted p clears m desired collected (sw ∷ switches) name (a, d) e =
    elim (==_cases sw.mgmt_ip "") [
      | inl (i, b) ↦ elim (Bool-cases (clears sw.name)) [
        | inl c ↦
            let (new, old) =
              collect_wanted p clears (stop_subscription m sw.name) desired collected switches name
                d (rw (b, c) at e) in
            (
              (λ g. elim (==_cases sw.name name) [
                | inl (q, n) ↦
                    rw (n, b)
                      (new g
                        ∙ wanted_absent p switches name
                            (subst (λ x. ¬ Member x (names switches)) q a))
                | inr (ne, n) ↦ rw n (new g)
              ]),
              λ t g f. old t g (λ j. f (inr j)),
            )
        | inr c ↦ absurd (let y : Option.none ≡ some collected = rw (b, c) at e in cc)
      ]
      | inr (ne, b) ↦
          let target = target_of p sw in
          let (new, old) =
            collect_wanted p clears m (put desired sw.name target) collected switches name d
              (rw b at e) in
          (
            (λ g. elim (==_cases sw.name name) [
              | inl (q, n) ↦
                  rw (n, b)
                    (old target
                      (ap (get (put desired sw.name target)) (sym q)
                        ∙ get-put_self desired sw.name target)
                      (subst (λ x. ¬ Member x (names switches)) q a))
              | inr (ne', n) ↦ rw n (new (get-put_ne desired sw.name name target ne' ∙ g))
            ]),
            λ t g f.
                old t (get-put_ne desired sw.name name target (λ q. f (inl (sym q))) ∙ g)
                  (λ j. f (inr j)),
          )
    ]

-- The loop over the switches leaves the subscription of a switch with a management address.
collect_targets-Subscribes :
    (p : ℕ) (clears : String → Bool) (m : SubscriptionManager) (desired : Targets)
    (switches : List SwitchSpec) (name : String) (s : SwitchSubscription)
    → ((sw : SwitchSpec) → Member sw switches → sw.mgmt_ip ≡ "" → sw.name ≢ name)
    → Subscribes m name s
    → Subscribes (collect_targets p clears m desired switches).0 name s
unfolding collect_targets
collect_targets-Subscribes p clears m desired [] name s other k = k
collect_targets-Subscribes p clears m desired (sw ∷ switches) name s other k =
    let after : (sw' : SwitchSpec) → Member sw' switches → sw'.mgmt_ip ≡ "" → sw'.name ≢ name =
      λ sw' i. other sw' (inr i) in
    elim (==_cases sw.mgmt_ip "") [
      | inl (e, b) ↦
          let ne = other sw (inl refl) e in
          let kept : Subscribes (stop_subscription m sw.name) name s =
            elim (==_cases sw.name name) [
              | inl (q, c) ↦ absurd (ne q)
              | inr (ne', c) ↦ get-stop_subscription m sw.name name ∙ rw c k
            ] in
          elim (Bool-cases (clears sw.name)) [
            | inl c ↦
                rw (b, c)
                  (collect_targets-Subscribes p clears (stop_subscription m sw.name) desired
                    switches name s after kept)
            | inr c ↦ rw (b, c) kept
          ]
      | inr (ne, b) ↦ rw b (
          collect_targets-Subscribes p clears m (put desired sw.name (target_of p sw)) switches name
            s after k)
    ]

-- A switch with a wanted target has a management address.
wanted_address :
    (p : ℕ) (switches : List SwitchSpec) (name t : String)
    → Distinct (names switches)
    → wanted_target p switches name ≡ some t
    → (sw : SwitchSpec) → Member sw switches
    → sw.mgmt_ip ≡ ""
    → sw.name ≢ name
unfolding wanted_target
wanted_address p (first ∷ switches) name t (a, d) w sw i e q = elim (==_cases first.name name) [
  | inl (r, b) ↦ elim i [
    | inl same ↦
        let address = ap (λ (x : SwitchSpec). x.mgmt_ip) (sym same) ∙ e in
        let y : Option.none ≡ some t = rw (b, (==_iff first.mgmt_ip "").1 address) at w in cc
    | inr j ↦ a (
        subst (λ x. Member x (names switches)) (q ∙ sym r)
          (Member-map (λ (x : SwitchSpec). x.name) sw switches j))
  ]
  | inr (ne, b) ↦ elim i [
    | inl same ↦ ne (ap (λ (x : SwitchSpec). x.name) (sym same) ∙ q)
    | inr j ↦ wanted_address p switches name t d (rw b at w) sw j e q
  ]
]
wanted_address p [] name t d w sw i e q = absurd i

-- what a sync of `m` with distinct switches gives where it succeeds
abbrev pub AreSynced : ℕ → SubscriptionManager → List SwitchSpec → SubscriptionManager → Type 0
AreSynced p m switches n =
    ((name : String) → current_target n name ≡ wanted_target p switches name)
    × ((name : String) (s : SwitchSubscription)
        → Subscribes m name s
        → wanted_target p switches name ≡ some s.target
        → Subscribes n name s)

abbrev pub IsSynced :
    ℕ → SubscriptionManager → Option (List SwitchSpec) → SubscriptionManager × Bool → Type 0
IsSynced p m listed r =
    IsManager (r.0)
    × (r.1 ≡ true
        → (switches : List SwitchSpec) → listed ≡ some switches
        → Distinct (names switches)
        → AreSynced p m switches (r.0))

-- what the loop over the switches gives to the loops over the targets
abbrev IsWanted : ℕ → SubscriptionManager → List SwitchSpec → SubscriptionManager → Targets → Type 0
IsWanted p m switches n desired =
    ((name : String) → get desired name ≡ wanted_target p switches name)
    × ((name : String) (s : SwitchSubscription)
        → Subscribes m name s
        → wanted_target p switches name ≡ some s.target
        → Subscribes n name s)

finish_sync_lem :
    (p : ℕ) (m : SubscriptionManager) (switches : List SwitchSpec)
    (r : SubscriptionManager × Option Targets)
    → IsCollected r
    → ((collected : Targets)
        → r.1 ≡ some collected
        → Distinct (names switches)
        → IsWanted p m switches (r.0) collected)
    → IsSynced p m (some switches) (finish_sync r)
unfolding finish_sync
finish_sync_lem p m switches (n, none) (h, d) w = (h, λ q. absurd cc)
finish_sync_lem p m switches (n, some desired) (h, d) w =
    let (h', targets, kept) = update_subscriptions_lem n desired h (d desired refl) in
    (
      h',
      λ q others e unique.
          let same : switches ≡ others = cc in
          let (wanted, left) = w desired refl (subst (λ x. Distinct (names x)) (sym same) unique) in
          subst (λ x. AreSynced p m x (update_subscriptions n desired)) same
            (
              (λ name. targets name ∙ wanted name),
              λ name s k e'. kept name s (left name s k e') (wanted name ∙ e'),
            ),
    )

-- For a well-formed manager, `syncSubscriptions` leaves a well-formed one, also where it returns an
-- error: the subscriptions are distinct, their goroutines run, and no other goroutine runs. Where it
-- succeeds on switches with distinct names, each switch with a management address has a subscription
-- to its target and no other name has one, and a subscription that had this target before is the same.
pub sync_subscriptions_lem :
    (p : ℕ) (clears : String → Bool) (m : SubscriptionManager) (listed : Option (List SwitchSpec))
    → IsManager m
    → IsSynced p m listed (sync_subscriptions p clears m listed)
unfolding sync_subscriptions get
sync_subscriptions_lem p clears m none h = (h, λ q. absurd cc)
sync_subscriptions_lem p clears m (some switches) h =
    finish_sync_lem p m switches (collect_targets p clears m [] switches)
      (collect_targets-IsCollected p clears m [] switches h tt)
      (λ collected e d. (
        (λ name. (collect_wanted p clears m [] collected switches name d e).0 refl),
        λ name s k w.
            collect_targets-Subscribes p clears m [] switches name s
              (wanted_address p switches name s.target d w) k,
      ))
