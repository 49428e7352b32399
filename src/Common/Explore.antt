-- ===== src/Common/Explore.antt =====
-- The search with a `visited` map that two parts of the program share: a name is marked when it
-- leaves the queue, and its targets that are not marked are appended.
use Prim.Native.Nat.{ℕ, suc, ◌+◌, ◌≤◌}
use Prim.Native.String.{String}
use mathlib.Core.Path.{◌≡◌}
use mathlib.Core.Logic.{◌⊎◌, ◌↔◌}
use mathlib.Core.Bool.{Bool, true, false, not}
use mathlib.Core.List.{List, [], ◌∷◌, ◌++◌}
use native.Mathlib.Omega.{arith}
use unifabric.Common.Tests.{if◌then◌else◌, string_eq, ==_iff}
use unifabric.Common.Lists.{length, Member, filter}
use unifabric.Common.Keyed.{Map, get, put, value_or, get-put, elem}
use unifabric.Common.Worklist.{drain}

-- `visited[x]`
unfoldable pub is_marked : Map String Bool → String → Bool
is_marked visited x = value_or false (get visited x)

pub is_marked-put :
    (visited : Map String Bool) (x y : String)
    → (is_marked (put visited x true) y ≡ true) ↔ ((is_marked visited y ≡ true) ⊎ (x ≡ y))
unfolding is_marked
is_marked-put visited x y = ground (arith, get-put visited x y true, ==_iff x y)

module _ {S : Type 0} (targets : String → List String) (note : String → S → S) where
  -- one round: the marks and what was noted, and what is appended to the queue
  unfoldable pub visit_once : String → Map String Bool × S → (Map String Bool × S) × List String
  visit_once x (visited, s) = if is_marked visited x then ((visited, s), []) else (
    (put visited x true, note x s),
    filter (λ y. not (is_marked (put visited x true) y)) (targets x),
  )

-- the number of targets of the names in a list
module _ (targets : String → List String) where
  unfoldable pub total_targets : List String → ℕ
  total_targets [] = 0
  total_targets (k ∷ ks) = length (targets k) + total_targets ks

  -- what the names that are not marked may still append
  unfoldable pub open_targets : Map String Bool → List String → ℕ
  open_targets visited [] = 0
  open_targets visited (k ∷ ks) =
      (if is_marked visited k then 0 else length (targets k)) + open_targets visited ks

  pub open_targets-le :
      (visited : Map String Bool) (ks : List String) → open_targets visited ks ≤ total_targets ks
  unfolding open_targets total_targets
  open_targets-le visited [] = omega arith
  open_targets-le visited (k ∷ ks) = ground (arith, open_targets-le visited ks)

  pub open_targets-put :
      (visited : Map String Bool) (x : String) (ks : List String)
      → is_marked visited x ≡ false
      → open_targets (put visited x true) ks + (if elem x ks then length (targets x) else 0)
        ≤ open_targets visited ks
  unfolding open_targets elem
  open_targets-put visited x [] h = omega arith
  open_targets-put visited x (k ∷ ks) h =
      ground (arith, open_targets-put visited x ks h, is_marked-put visited x k, ==_iff k x)

module _ {S : Type 0} (targets : String → List String) (note : String → S → S)
    (names : List String) where
  -- The search from `x`. The fuel is one round for the start and one for each target of a name.
  unfoldable pub explore : String → Map String Bool → S → List String × (Map String Bool × S)
  explore x visited s =
      drain (visit_once targets note) (suc (total_targets targets names)) (x ∷ []) (visited, s)

-- `Reaches targets x y`: some chain of targets leads from `x` to `y`.
pub data Reaches (targets : String → List String) (x : String) : String → Type 0 where
  here : Reaches targets x x
  onward : {y z : String} → Reaches targets x y → Member z (targets y) → Reaches targets x z

abbrev pub append_name : String → List String → List String
append_name x names = names ++ x ∷ []
