-- ===== src/Common/Worklist.antt =====
-- `for len(queue) > 0 { x := queue[0]; queue = queue[1:]; … queue = append(queue, …) }`: a step takes
-- the head and the state, and returns the new state and what it appends.
use Prim.Native.Nat.{ℕ, zero, suc, ◌≤◌, ◌<◌}
use mathlib.Core.Path.{◌≡◌, refl}
use mathlib.Core.List.{List, [], ◌∷◌, ◌++◌}
use native.Mathlib.Omega.{arith}

module _ {A S : Type 0} (step : A → S → S × List A) where
  -- the queue that is left, empty unless the fuel runs out, and the final state
  unfoldable pub drain : ℕ → List A → S → List A × S
  drain zero queue s = (queue, s)
  drain (suc fuel) [] s = ([], s)
  drain (suc fuel) (x ∷ queue) s = let (s', new) = step x s in drain fuel (queue ++ new) s'

  -- With a measure within the fuel the loop ends on an empty queue, and keeps its invariant.
  pub drain_rule :
      (P : List A → S → Type 0) (measure : List A → S → ℕ)
      → ((x : A) (queue : List A) (s : S)
          → P (x ∷ queue) s
          → P (queue ++ (step x s).1) (step x s).0
            × (measure (queue ++ (step x s).1) (step x s).0 < measure (x ∷ queue) s))
      → (fuel : ℕ) (queue : List A) (s : S) → measure queue s ≤ fuel
      → P queue s
      → ((drain fuel queue s).0 ≡ []) × P [] (drain fuel queue s).1
  unfolding drain
  drain_rule P measure keep zero [] s m h = (refl, h)
  drain_rule P measure keep zero (x ∷ queue) s m h = absurd (omega (arith, (keep x queue s h).1))
  drain_rule P measure keep (suc fuel) [] s m h = (refl, h)
  drain_rule P measure keep (suc fuel) (x ∷ queue) s m h =
      let (h', less) = keep x queue s h in
      drain_rule P measure keep fuel (queue ++ (step x s).1) (step x s).0 (omega arith) h'
