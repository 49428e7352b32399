-- ===== src/SwitchTopology/Types.antt =====
-- The data of the switch topology controller, and errors as values.
use unifabric.Common.{List, [], ◌∷◌, Bool, true, false}

-- An error for each `fmt.Errorf` and each error that is passed on, without its text.
pub data AutoLabelError : Type 0 where
  locked_label conflicting_node_values conflicting_switch_values not_domain_format invalid_tier :
      AutoLabelError
  invalid_group_number unexpected_tier unknown_neighbor self_reference not_string_array :
      AutoLabelError
  empty_neighbor_name multiple_parents parent_cycle unknown_parent discontinuous_path :
      AutoLabelError
  node_only_tier render_failed missing_node missing_switch multiple_locked_names shared_name :
      AutoLabelError
  node_locked switch_locked missing_builder no_rounds_left discovery_panicked write_failed :
      AutoLabelError

-- The errors that stand for a panic of the code, or for a loop without end.
abbrev pub is_internal : AutoLabelError → Bool
is_internal missing_builder = true
is_internal no_rounds_left = true
is_internal discovery_panicked = true
is_internal _ = false

pub data Attempt (A : Type 0) : Type 0 where
  done : A → Attempt A
  fails : AutoLabelError → Attempt A

infixl 5 ◌>>=◌
abbrev pub ◌>>=◌ : {A B : Type 0} → Attempt A → (A → Attempt B) → Attempt B
done a >>= f = f a
fails e >>= f = fails e

-- a loop whose body may return an error
unfoldable pub fold_attempt : {A B : Type 0} → (B → A → Attempt B) → B → List A → Attempt B
fold_attempt f s [] = done s
fold_attempt f s (x ∷ xs) = f s x >>= λ t. fold_attempt f t xs

-- What an attempt gives: a result with `P`, or an error with `E`.
abbrev pub Gives : {A : Type 0} → (A → Type 0) → (AutoLabelError → Type 0) → Attempt A → Type 0
Gives P E (done a) = P a
Gives P E (fails e) = E e

pub Gives-imp :
    {A : Type 0} (P Q : A → Type 0) (E F : AutoLabelError → Type 0) (r : Attempt A)
    → ((a : A) → P a → Q a)
    → ((e : AutoLabelError) → E e → F e)
    → Gives P E r
    → Gives Q F r
Gives-imp P Q E F (done a) f g p = f a p
Gives-imp P Q E F (fails e) f g p = g e p

pub Gives-both :
    {A : Type 0} (P Q : A → Type 0) (E F : AutoLabelError → Type 0) (r : Attempt A)
    → Gives P E r
    → Gives Q F r
    → Gives (λ a. P a × Q a) F r
Gives-both P Q E F (done a) p q = (p, q)
Gives-both P Q E F (fails e) p q = q

pub Gives->>= :
    {A B : Type 0} (P : A → Type 0) (Q : B → Type 0) (E : AutoLabelError → Type 0) (r : Attempt A)
    (f : A → Attempt B)
    → Gives P E r
    → ((a : A) → P a → Gives Q E (f a))
    → Gives Q E (r >>= f)
Gives->>= P Q E (done a) f p step = step a p
Gives->>= P Q E (fails e) f p step = p

-- A loop gives what each of its steps gives; `P` reads the inputs that are done and those left.
pub Gives-fold_attempt :
    {A B : Type 0} (P : List A → B → Type 0) (E : AutoLabelError → Type 0) (f : B → A → Attempt B)
    → ((x : A) (xs : List A) (s : B) → P (x ∷ xs) s → Gives (P xs) E (f s x))
    → (xs : List A) (s : B) → P xs s
    → Gives (P []) E (fold_attempt f s xs)
unfolding fold_attempt
Gives-fold_attempt P E f step [] s p = p
Gives-fold_attempt P E f step (x ∷ xs) s p =
    Gives->>= (P xs) (P []) E (f s x) (λ t. fold_attempt f t xs) (step x xs s p)
      (Gives-fold_attempt P E f step xs)
