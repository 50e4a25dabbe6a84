-- ===== src/Common/Order.antt =====
-- ORDER BY: a stable sort, and what its first row is.
use Prim.Native.Nat.{ℕ, suc}
use mathlib.Core.Path.{◌≡◌, refl, subst}
use mathlib.Core.Logic.{◌⊎◌, inl, inr}
use mathlib.Core.Bool.{Bool, true}
use mathlib.Core.Option.{Option, none, some}
use mathlib.Core.List.{List, [], ◌∷◌}
use native.Mathlib.Omega.{arith}
use agent_recall.Common.Tests.{leb, if◌then◌else◌, Bool-cases}
use agent_recall.Common.Lists.{take, All, All-mono}
use agent_recall.Common.Table.{select_where}

module _ {ℓ} {A : Type ℓ} (le : A → A → Bool) where
  unfoldable pub insert_with : A → List A → List A
  insert_with x [] = x ∷ []
  insert_with x (y ∷ ys) = let rest = insert_with x ys in if le x y then x ∷ y ∷ ys else y ∷ rest

  -- ties stay in rowid order
  unfoldable pub order_with : List A → List A
  unfolding insert_with
  order_with [] = []
  order_with (x ∷ xs) = insert_with x (order_with xs)

-- `ORDER BY key ASC`
abbrev pub order_by {ℓ} : {A : Type ℓ} → (A → ℕ) → List A → List A
order_by key = order_with (λ a b. leb (key a) (key b))

-- `rows[0]`
abbrev pub head {ℓ} : {A : Type ℓ} → List A → Option A
head [] = none
head (x ∷ xs) = some x

module _ {ℓ} {A : Type ℓ} where
  pub head-take : (n : ℕ) (xs : List A) → head (take (suc n) xs) ≡ head xs
  head-take n [] = refl
  head-take n (x ∷ xs) = refl

  -- nothing comes first only where nothing is
  insert_with-ne-nil :
      (le : A → A → Bool) (x : A) (xs : List A) → head (insert_with le x xs) ≡ none → ⊥
  unfolding insert_with
  insert_with-ne-nil le x [] h = cc
  insert_with-ne-nil le x (y ∷ ys) h = ground arith

  pub order_with_nil : (le : A → A → Bool) (xs : List A) → head (order_with le xs) ≡ none → xs ≡ []
  unfolding order_with
  order_with_nil le [] h = refl
  order_with_nil le (x ∷ xs) h = absurd (insert_with-ne-nil le x (order_with le xs) h)

  pub select_where_nil :
      (p q : A → Bool) (xs : List A)
      → ((x : A) → q x ≡ true → p x ≡ true)
      → select_where p xs ≡ []
      → select_where q xs ≡ []
  unfolding select_where
  select_where_nil p q [] w h = refl
  select_where_nil p q (x ∷ xs) w h = ground (arith, w x, select_where_nil p q xs w)

  pub All-select_where : (p : A → Bool) (xs : List A) → All (λ x. p x ≡ true) (select_where p xs)
  unfolding select_where
  All-select_where p [] = tt
  All-select_where p (x ∷ xs) = elim (Bool-cases (p x)) [
    | inl e ↦ rw e (e, All-select_where p xs)
    | inr e ↦ rw e (All-select_where p xs)
  ]

module _ {ℓ κ} {A : Type ℓ} (P : A → Type κ) where
  All-insert_with :
      (le : A → A → Bool) (x : A) (xs : List A) → P x → All P xs → All P (insert_with le x xs)
  unfolding insert_with
  All-insert_with le x [] h k = (h, tt)
  All-insert_with le x (y ∷ ys) h k = elim (Bool-cases (le x y)) [
    | inl e ↦ rw e (h, k)
    | inr e ↦ rw e (k.0, All-insert_with le x ys h k.1)
  ]

  pub All-order_with : (le : A → A → Bool) (xs : List A) → All P xs → All P (order_with le xs)
  unfolding order_with
  All-order_with le [] h = tt
  All-order_with le (x ∷ xs) h =
      All-insert_with le x (order_with le xs) h.0 (All-order_with le xs h.1)

of_some {ℓ} : {A : Type ℓ} {a b : A} → ◌≡◌ {A = Option A} (some a) (some b) → a ≡ b
of_some h = cc

-- The first row is least. `le` is total and transitive.
module _ {ℓ} {A : Type ℓ} (le : A → A → Bool)
    (total : (a b : A) → (le a b ≡ true) ⊎ (le b a ≡ true))
    (trans : (a b c : A) → le a b ≡ true → le b c ≡ true → le a c ≡ true) where
  head-insert_with :
      (x : A) (ys : List A)
      → head (insert_with le x ys)
        ≡ elim (head ys) [ none ↦ some x | some y ↦ if le x y then some x else some y ]
  unfolding insert_with
  head-insert_with x [] = refl
  head-insert_with x (y ∷ ys) = ground arith

  itself : (x : A) → le x x ≡ true
  itself x = elim (total x x) [ inl h ↦ h | inr h ↦ h ]

  least_cases :
      (x : A) (xs : List A) (m : A) (first : Option A)
      → ((y : A) → first ≡ some y → All (λ z. le y z ≡ true) xs)
      → (first ≡ none → xs ≡ [])
      → elim first [ none ↦ some x | some y ↦ if le x y then some x else some y ] ≡ some m
      → (le m x ≡ true) × All (λ z. le m z ≡ true) xs
  least_cases x xs m none least empty h =
      subst (λ (m : A). (le m x ≡ true) × All (λ z. le m z ≡ true) xs) (of_some h)
        (itself x, rw (empty refl) tt)
  least_cases x xs m (some y) least empty h = elim (Bool-cases (le x y)) [
    | inl e ↦
        subst (λ (m : A). (le m x ≡ true) × All (λ z. le m z ≡ true) xs) (of_some (rw e at h))
          (itself x, All-mono xs (λ z k. trans x y z e k) (least y refl))
    | inr e ↦
        subst (λ (m : A). (le m x ≡ true) × All (λ z. le m z ≡ true) xs) (of_some (rw e at h))
          (ground (arith, total x y), least y refl)
  ]

  pub head_least :
      (xs : List A) (m : A) → head (order_with le xs) ≡ some m → All (λ z. le m z ≡ true) xs
  unfolding order_with
  head_least [] m h = cc
  head_least (x ∷ xs) m h =
      least_cases x xs m (head (order_with le xs)) (λ y e. head_least xs y e)
        (λ e. order_with_nil le xs e) (rw (head-insert_with x (order_with le xs)) at h)
