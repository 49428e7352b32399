-- ===== src/Status/Types.antt =====
-- The data of the status build, and errors as values.
use unifabric.Common.{String, List, [], ◌∷◌, Map, ℕ, Option, ◌≢◌}

-- What the label template does for the build: `MatchTier`, the tier that a label key stands for.
abbrev pub TierMatcher : Type 0
TierMatcher = String → Option ℕ

pub record LabeledResource : Type 0 where
  pub name : String
  pub labels : Map String String

pub record LabelSnapshot : Type 0 where
  pub nodes : List LabeledResource
  pub switches : List LabeledResource

-- v1beta1.TopologyDomain; the empty parent is none
pub record TopologyDomain : Type 0 where
  pub name : String
  pub tier : ℕ
  pub parent : String
  pub switch_member : List String

-- v1beta1.TopologyNodeGroup
pub record TopologyNodeGroup : Type 0 where
  pub name : String
  pub switch_domain_path : List String
  pub nodes : List String

pub record TopologyStatus : Type 0 where
  pub domains : List TopologyDomain
  pub nodes : List TopologyNodeGroup

pub record BuildResult : Type 0 where
  pub status : TopologyStatus
  pub pending : List String

-- the sets are maps to a unit value
abbrev pub NameSet : Type 0
NameSet = Map String (Unit {0})

pub record DomainState : Type 0 where
  pub domain : TopologyDomain
  pub parents : NameSet
  pub members : NameSet

-- An error for each `return … fmt.Errorf`, without its text; `nil_dereference` is Go's panic.
pub data BuildError : Type 0 where
  nil_template conflicting_labels discontinuous_path empty_domain_name invalid_domain_name :
      BuildError
  tier_out_of_range domain_in_two_tiers multiple_parents nil_dereference : BuildError

pub data Result (A : Type 0) : Type 0 where
  ok : A → Result A
  err : BuildError → Result A

infixl 5 ◌>>=◌
abbrev pub ◌>>=◌ : {A B : Type 0} → Result A → (A → Result B) → Result B
ok a >>= f = f a
err e >>= f = err e

-- a loop whose body may return an error
unfoldable pub fold_result : {A B : Type 0} → (B → A → Result B) → B → List A → Result B
fold_result f s [] = ok s
fold_result f s (x ∷ xs) = f s x >>= λ t. fold_result f t xs

-- What a computation gives: a result with `P`, or an error with `E`.
abbrev pub Outcome : {A : Type 0} → (A → Type 0) → (BuildError → Type 0) → Result A → Type 0
Outcome P E (ok a) = P a
Outcome P E (err e) = E e

pub Outcome-imp :
    {A : Type 0} (P Q : A → Type 0) (E F : BuildError → Type 0)
    → ((a : A) → P a → Q a)
    → ((e : BuildError) → E e → F e)
    → (r : Result A) → Outcome P E r
    → Outcome Q F r
Outcome-imp P Q E F f g (ok a) p = f a p
Outcome-imp P Q E F f g (err e) p = g e p

pub Outcome->>= :
    {A B : Type 0} (P : A → Type 0) (Q : B → Type 0) (E : BuildError → Type 0) (r : Result A)
    (f : A → Result B)
    → Outcome P E r
    → ((a : A) → P a → Outcome Q E (f a))
    → Outcome Q E (r >>= f)
Outcome->>= P Q E (ok a) f p step = step a p
Outcome->>= P Q E (err e) f p step = p

-- A loop has the outcome that each of its steps has; `P` reads the inputs that are left.
pub Outcome-fold_result :
    {A B : Type 0} (P : List A → B → Type 0) (E : BuildError → Type 0) (f : B → A → Result B)
    → ((x : A) (xs : List A) (s : B) → P (x ∷ xs) s → Outcome (P xs) E (f s x))
    → (xs : List A) (s : B) → P xs s
    → Outcome (P []) E (fold_result f s xs)
unfolding fold_result
Outcome-fold_result P E f step [] s p = p
Outcome-fold_result P E f step (x ∷ xs) s p =
    Outcome->>= (P xs) (P []) E (f s x) (λ t. fold_result f t xs) (step x xs s p)
      (Outcome-fold_result P E f step xs)

-- a result with `P`, or an error that is no panic
abbrev pub Safe : {A : Type 0} → (A → Type 0) → Result A → Type 0
Safe P = Outcome P (λ e. e ≢ nil_dereference)

pub Safe->>= :
    {A B : Type 0} (P : A → Type 0) (Q : B → Type 0) (r : Result A) (f : A → Result B)
    → Safe P r
    → ((a : A) → P a → Safe Q (f a))
    → Safe Q (r >>= f)
Safe->>= P Q = Outcome->>= P Q (λ e. e ≢ nil_dereference)

pub Safe-fold_result :
    {A B : Type 0} (P : List A → B → Type 0) (f : B → A → Result B)
    → ((x : A) (xs : List A) (s : B) → P (x ∷ xs) s → Safe (P xs) (f s x))
    → (xs : List A) (s : B) → P xs s
    → Safe (P []) (fold_result f s xs)
Safe-fold_result P f = Outcome-fold_result P (λ e. e ≢ nil_dereference) f
