-- ===== src/Common/Effect.antt =====
-- Code that reads and writes a state and may throw. What it wrote before it threw stays written.
use mathlib.Core.Path.{◌≡◌, refl}

pub data Outcome (E A : Type 0) : Type 0 where
  returned : A → Outcome E A
  thrown : E → Outcome E A

abbrev pub Effect : Type 0 → Type 0 → Type 0 → Type 0
Effect S E A = S → Outcome E A × S

module _ {S E A B : Type 0} where
  abbrev pub continue_with : Outcome E A → S → (A → Effect S E B) → Outcome E B × S
  continue_with (returned a) s f = f a s
  continue_with (thrown e) s f = (thrown e, s)

  infixl 5 ◌>>=◌
  abbrev pub ◌>>=◌ : Effect S E A → (A → Effect S E B) → Effect S E B
  ◌>>=◌ m f s = continue_with (m s).0 (m s).1 f

module _ {S E A B : Type 0} where
  -- a sequence that returns has a first part that returns
  pub bind_returned :
      (p : Outcome E A × S) (f : A → Effect S E B) (b : B)
      → (continue_with p.0 p.1 f).0 ≡ returned b
      → (a : A) × (p.0 ≡ returned a) × (continue_with p.0 p.1 f ≡ f a p.1)
  bind_returned (returned a, s) f b h = (a, refl, refl)
  bind_returned (thrown e, s) f b h = absurd (cc h)

module _ {S E B : Type 0} where
  infixl 5 ◌>>◌
  abbrev pub ◌>>◌ : Effect S E (Unit {0}) → Effect S E B → Effect S E B
  m >> k = m >>= λ _. k

module _ {S E A : Type 0} where
  abbrev pub pure : A → Effect S E A
  pure a s = (returned a, s)

  abbrev pub throw : E → Effect S E A
  throw e s = (thrown e, s)

  -- a read that cannot fail
  abbrev pub gets : (S → A) → Effect S E A
  gets f s = (returned (f s), s)

  -- a statement that returns a value and the next state
  abbrev pub stateful : (S → A × S) → Effect S E A
  stateful f s = (returned (f s).0, (f s).1)
