-- ===== src/Common/Table.antt =====
-- SQL tables as lists of rows, in rowid order, and the statements that the store runs on them.
use Prim.Native.Nat.{ℕ, suc, ◌<◌}
use mathlib.Core.Path.{◌≡◌, refl, subst, fun_ext, ◌∙◌}
use mathlib.Core.Logic.{inl, inr}
use mathlib.Core.Bool.{Bool, true, false, ◌&&◌}
use mathlib.Core.Option
use mathlib.Core.Option.{Option, none, some}
use mathlib.Core.List.{List, [], ◌∷◌, ◌++◌}
use native.Mathlib.Omega.{arith}
use agent_recall.Common.Tests.{if◌then◌else◌, Bool-cases}
use agent_recall.Common.Lists.{All, All-append}

module _ {ℓ} {A : Type ℓ} where
  -- `SELECT * … WHERE p`, first row only (`.get`)
  unfoldable pub first_where : (A → Bool) → List A → Option A
  first_where p [] = none
  first_where p (x ∷ xs) = if p x then some x else first_where p xs

  -- `SELECT * … WHERE p` (`.all`)
  unfoldable pub select_where : (A → Bool) → List A → List A
  select_where p [] = []
  select_where p (x ∷ xs) = let rest = select_where p xs in if p x then x ∷ rest else rest

  -- `UPDATE … SET f WHERE p`
  unfoldable pub update_where : (A → Bool) → (A → A) → List A → List A
  update_where p f [] = []
  update_where p f (x ∷ xs) = (if p x then f x else x) ∷ update_where p f xs

  -- `result.changes` of such an UPDATE
  unfoldable pub count_where : (A → Bool) → List A → ℕ
  count_where p [] = 0
  count_where p (x ∷ xs) = let rest = count_where p xs in if p x then suc rest else rest

  -- a row with this key is there: an INSERT would break the UNIQUE constraint
  unfoldable pub exists_where : (A → Bool) → List A → Bool
  exists_where p [] = false
  exists_where p (x ∷ xs) = let rest = exists_where p xs in if p x then true else rest

  -- `INSERT`: the new row gets the highest rowid
  unfoldable pub insert_row : A → List A → List A
  insert_row x xs = xs ++ x ∷ []

  pub first_where-update_where :
      (p q : A → Bool) (f : A → A) (xs : List A)
      → ((x : A) → q x ≡ true → p (f x) ≡ p x)
      → first_where p (update_where q f xs)
        ≡ Option.map (λ x. if q x then f x else x) (first_where p xs)
  unfolding first_where update_where
  first_where-update_where p q f [] h = refl
  first_where-update_where p q f (x ∷ xs) h =
      ground (arith, h x, first_where-update_where p q f xs h)

  pub first_where-insert_row :
      (p : A → Bool) (x : A) (xs : List A)
      → first_where p (insert_row x xs)
        ≡ elim (first_where p xs) [ none ↦ if p x then some x else none | some y ↦ some y ]
  unfolding first_where insert_row
  first_where-insert_row p x [] = ground arith
  first_where-insert_row p x (y ∷ ys) = ground (arith, first_where-insert_row p x ys)

  pub exists_where-update_where :
      (p q : A → Bool) (f : A → A) (xs : List A)
      → ((x : A) → q x ≡ true → p (f x) ≡ p x)
      → exists_where p (update_where q f xs) ≡ exists_where p xs
  unfolding exists_where update_where
  exists_where-update_where p q f [] h = refl
  exists_where-update_where p q f (x ∷ xs) h =
      ground (arith, h x, exists_where-update_where p q f xs h)

  pub exists_where-insert_row :
      (p : A → Bool) (x : A) (xs : List A)
      → exists_where p (insert_row x xs) ≡ (if exists_where p xs then true else p x)
  unfolding exists_where insert_row
  exists_where-insert_row p x [] = ground arith
  exists_where-insert_row p x (y ∷ ys) = ground (arith, exists_where-insert_row p x ys)

  -- no two rows are the same by this key
  abbrev pub Distinct : (A → A → Bool) → List A → Type 0
  Distinct same [] = Unit {0}
  Distinct same (x ∷ xs) = (exists_where (same x) xs ≡ false) × Distinct same xs

  pub Distinct-insert_row :
      (same : A → A → Bool) (x : A) (xs : List A)
      → ((a b : A) → same a b ≡ same b a)
      → exists_where (same x) xs ≡ false
      → Distinct same xs
      → Distinct same (insert_row x xs)
  unfolding exists_where insert_row
  Distinct-insert_row same x [] flip new h = (refl, tt)
  Distinct-insert_row same x (y ∷ ys) flip new h = (
    exists_where-insert_row (same y) x ys ∙ ground (arith, h.0, flip x y),
    Distinct-insert_row same x ys flip (ground arith) h.1,
  )

  pub Distinct-update_where :
      (same : A → A → Bool) (q : A → Bool) (f : A → A) (xs : List A)
      → ((a b : A) → q a ≡ true → same (f a) b ≡ same a b)
      → ((a b : A) → q b ≡ true → same a (f b) ≡ same a b)
      → Distinct same xs
      → Distinct same (update_where q f xs)
  unfolding update_where
  Distinct-update_where same q f [] left right h = tt
  Distinct-update_where same q f (x ∷ xs) left right h = elim (Bool-cases (q x)) [
    | inl e ↦ (
      rw e (
          exists_where-update_where (same (f x)) q f xs (right (f x))
          ∙ rw (fun_ext (λ b. left x b e)) h.0),
      Distinct-update_where same q f xs left right h.1,
    )
    | inr e ↦ (
      rw e (exists_where-update_where (same x) q f xs (right x) ∙ h.0),
      Distinct-update_where same q f xs left right h.1,
    )
  ]

  -- what a search returns satisfies the condition
  pub first_where_sound :
      (p : A → Bool) (xs : List A) (x : A) → first_where p xs ≡ some x → p x ≡ true
  unfolding first_where
  first_where_sound p [] x h = cc
  first_where_sound p (y ∷ ys) x h = ground (arith, first_where_sound p ys x)

  pub first_where-none :
      (p : A → Bool) (xs : List A) → exists_where p xs ≡ false → first_where p xs ≡ none
  unfolding first_where exists_where
  first_where-none p [] h = refl
  first_where-none p (y ∷ ys) h = ground (arith, first_where-none p ys)

  pub none-exists_where :
      (p : A → Bool) (xs : List A) → first_where p xs ≡ none → exists_where p xs ≡ false
  unfolding first_where exists_where
  none-exists_where p [] h = refl
  none-exists_where p (y ∷ ys) h = ground (arith, none-exists_where p ys)

  pub exists_where-some :
      (p : A → Bool) (xs : List A) (x : A) → first_where p xs ≡ some x → exists_where p xs ≡ true
  unfolding first_where exists_where
  exists_where-some p [] x h = cc
  exists_where-some p (y ∷ ys) x h = ground (arith, exists_where-some p ys x)

  -- a narrower condition has the same first row, where that satisfies it
  pub first_where_narrow :
      (p q : A → Bool) (xs : List A) (x : A)
      → ((y : A) → q y ≡ true → p y ≡ true)
      → first_where p xs ≡ some x
      → q x ≡ true
      → first_where q xs ≡ some x
  unfolding first_where
  first_where_narrow p q [] x w h k = cc
  first_where_narrow p q (y ∷ ys) x w h k = ground (arith, w y, first_where_narrow p q ys x w)

  pub count_where_pos :
      (p : A → Bool) (xs : List A) (x : A) → first_where p xs ≡ some x → 0 < count_where p xs
  unfolding first_where count_where
  count_where_pos p [] x h = cc
  count_where_pos p (y ∷ ys) x h = ground (arith, count_where_pos p ys x)

  pub count_where_zero :
      (p : A → Bool) (xs : List A) → first_where p xs ≡ none → count_where p xs ≡ 0
  unfolding first_where count_where
  count_where_zero p [] h = refl
  count_where_zero p (y ∷ ys) h = ground (arith, count_where_zero p ys)

  -- an UPDATE that matches no row changes nothing
  pub update_where_idle :
      (p : A → Bool) (f : A → A) (xs : List A) → first_where p xs ≡ none → update_where p f xs ≡ xs
  unfolding first_where update_where
  update_where_idle p f [] h = refl
  update_where_idle p f (y ∷ ys) h = ground (arith, update_where_idle p f ys)

module _ {ℓ} {A : Type ℓ} where
  abbrev pub only_if : (A → Bool) → Option A → Option A
  only_if g none = none
  only_if g (some x) = if g x then some x else none

  none-first_where_and :
      (s p g : A → Bool) (xs : List A)
      → ((x : A) → p x ≡ true → s x ≡ true)
      → exists_where s xs ≡ false
      → first_where (λ x. p x && g x) xs ≡ none
  unfolding first_where exists_where
  none-first_where_and s p g [] h e = refl
  none-first_where_and s p g (x ∷ xs) h e = ground (arith, h x, none-first_where_and s p g xs h)

  -- Where `p` picks by a key, a stricter search finds the row with that key or nothing.
  pub first_where_and :
      (same : A → A → Bool) (p g : A → Bool) (xs : List A)
      → ((a b : A) → p a ≡ true → p b ≡ true → same a b ≡ true)
      → Distinct same xs
      → first_where (λ x. p x && g x) xs ≡ only_if g (first_where p xs)
  unfolding first_where
  first_where_and same p g [] key h = refl
  first_where_and same p g (x ∷ xs) key h = elim (Bool-cases (p x)) [
    | inl e ↦ elim (Bool-cases (g x)) [
      | inl k ↦ rw (e, k)
      | inr k ↦ rw (e, k) (none-first_where_and (same x) p g xs (λ b. key x b e) h.0)
    ]
    | inr e ↦ rw e (first_where_and same p g xs key h.1)
  ]

  exists_where_member :
      (s p : A → Bool) (xs : List A) (x : A)
      → exists_where s xs ≡ false
      → first_where p xs ≡ some x
      → s x ≡ false
  unfolding first_where exists_where
  exists_where_member s p [] x e h = cc
  exists_where_member s p (y ∷ ys) x e h = ground (arith, exists_where_member s p ys x)

  -- A row that some search finds is the one that the search by its key finds.
  pub first_where_key :
      (same : A → A → Bool) (p : A → Bool) (xs : List A) (x : A)
      → same x x ≡ true
      → ((a b : A) → same a b ≡ same b a)
      → Distinct same xs
      → first_where p xs ≡ some x
      → first_where (same x) xs ≡ some x
  unfolding first_where
  first_where_key same p [] x self flip d h = cc
  first_where_key same p (y ∷ ys) x self flip d h = ground (
    arith,
    flip x y,
    first_where_key same p ys x self flip d.1,
    exists_where_member (same y) p ys x d.0,
  )

module _ {ℓ κ} {A : Type ℓ} (P : A → Type κ) where
  pub All-update_where :
      (q : A → Bool) (f : A → A) (xs : List A)
      → ((x : A) → P x → q x ≡ true → P (f x))
      → All P xs
      → All P (update_where q f xs)
  unfolding update_where
  All-update_where q f [] keep h = tt
  All-update_where q f (x ∷ xs) keep h = elim (Bool-cases (q x)) [
    | inl e ↦ (rw e (keep x h.0 e), All-update_where q f xs keep h.1)
    | inr e ↦ (rw e h.0, All-update_where q f xs keep h.1)
  ]

  pub All-first_where :
      (p : A → Bool) (xs : List A) (x : A) → All P xs → first_where p xs ≡ some x → P x
  unfolding first_where
  All-first_where p [] x h e = cc
  All-first_where p (y ∷ ys) x h e = elim (Bool-cases (p y)) [
    | inl t ↦ subst P (cc) h.0
    | inr t ↦ All-first_where p ys x h.1 (ground arith)
  ]

  pub All-insert_row : (x : A) (xs : List A) → All P xs → P x → All P (insert_row x xs)
  unfolding insert_row
  All-insert_row x xs h k = All-append P xs (x ∷ []) h (k, tt)
