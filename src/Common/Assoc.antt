-- ===== src/Common/Assoc.antt =====
-- Dictionaries with text keys, as association lists.
use Prim.Native.String.{String}
use mathlib.Core.Path.{◌≡◌, refl}
use mathlib.Core.Option.{Option, none, some}
use mathlib.Core.List.{List, [], ◌∷◌}
use native.Mathlib.Omega.{arith}
use text.Mathlib.Text.{◌==◌ as str_eq}
use text.Mathlib.TextEquality.{eq_iff}
use agent_recall.Common.Tests.{if◌then◌else◌}

-- A JavaScript object used as a dictionary: reading a property, and setting it in place or
-- at the end.
module _ {ℓ} {A : Type ℓ} where
  unfoldable pub value_at : List (String × A) → String → Option A
  value_at [] name = none
  value_at (property ∷ object) name =
      if str_eq property.0 name then some property.1 else value_at object name

  unfoldable pub set_value : List (String × A) → String → A → List (String × A)
  set_value [] name a = (name, a) ∷ []
  set_value (property ∷ object) name a =
      let after = set_value object name a in
      if str_eq property.0 name then (name, a) ∷ object else property ∷ after

  pub value_at-set_value :
      (object : List (String × A)) (name other : String) (a : A)
      → value_at (set_value object name a) other
        ≡ (if str_eq name other then some a else value_at object other)
  unfolding value_at set_value
  value_at-set_value [] name other a = refl
  value_at-set_value (property ∷ object) name other a =
      let below = value_at-set_value object name other a in
      ground (below, eq_iff property.0 name, eq_iff property.0 other, eq_iff name other, arith)
