-- ===== src/Subscriptions/Manager/Stop.antt =====
-- `stopAllSubscriptions`, whose loop meets each subscription.
use unifabric.Common.{
  String, [], ◌∷◌, Map, ℕ, Option, none, some, get, keys, Member, Member_of_get, string_eq, foldl,
  foldl_keeps, Option-cases, ◌≡◌, sym, subst, ◌∙◌, inl, inr,
}
use unifabric.Subscriptions.Manager.{
  SubscriptionManager, SwitchSubscription, stop_subscription, stop_all_subscriptions,
}
use unifabric.Subscriptions.Manager.Invariant.{IsManager, IsRunning, stop_subscription-IsManager}
use unifabric.Subscriptions.Manager.Stale.{get-stopped_self, get-stopped_none}

abbrev stop_entry : SubscriptionManager → String × SwitchSubscription → SubscriptionManager
stop_entry m e = stop_subscription m (e.0)

none_stays :
    (xs : Map String SwitchSubscription) (m : SubscriptionManager) (name : String)
    → get m.subscriptions name ≡ none
    → get (foldl stop_entry m xs).subscriptions name ≡ none
none_stays xs m name e =
    foldl_keeps (λ n. get n.subscriptions name ≡ none) stop_entry xs m
      (λ n x i g. get-stopped_none n (x.0) name g) e

all_stop :
    (xs : Map String SwitchSubscription) (m : SubscriptionManager) (name : String)
    → Member name (keys xs)
    → get (foldl stop_entry m xs).subscriptions name ≡ none
all_stop [] m name i = absurd i
all_stop (x ∷ xs) m name (inl q) = none_stays xs (stop_entry m x) name (
    subst (λ k. get (stop_subscription m (x.0)).subscriptions k ≡ none) (sym q)
      (get-stopped_self m (x.0)))
all_stop (x ∷ xs) m name (inr i) = all_stop xs (stop_entry m x) name i

-- `stopAllSubscriptions` of a well-formed manager leaves a well-formed one without a subscription, in
-- which no goroutine runs: each that was started is cancelled.
pub stop_all_subscriptions_lem :
    (m : SubscriptionManager)
    → IsManager m
    → let n = stop_all_subscriptions m in
      IsManager n
      × ((name : String) → get n.subscriptions name ≡ none)
      × ((goroutine : ℕ) → ¬ IsRunning n goroutine)
unfolding stop_all_subscriptions
stop_all_subscriptions_lem m h =
    let n = foldl stop_entry m m.subscriptions in
    let h' : IsManager n =
      foldl_keeps IsManager stop_entry m.subscriptions m
        (λ k x i g. stop_subscription-IsManager k (x.0) g) h in
    let empty : (name : String) → get n.subscriptions name ≡ none = λ name.
      elim (Option-cases (get m.subscriptions name)) [
        | inl e ↦ none_stays m.subscriptions m name e
        | inr (s, e) ↦ all_stop m.subscriptions m name (Member_of_get m.subscriptions name s e)
      ] in
    let (d, past, runs, owned, single) = h' in
    (
      h',
      empty,
      λ goroutine run.
          let (name, s, e, q) = owned goroutine run in
          let y : Option.none ≡ some s = sym (empty name) ∙ e in cc,
    )
