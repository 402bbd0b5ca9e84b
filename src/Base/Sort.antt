-- ===== src/Base/Sort.antt =====
-- `xs.sort(…)` for a test that puts `b` after `a`: a stable sort.
pub mod Unique
use mathlib.Core.Bool.{Bool}
use mathlib.Core.List.{List, [], ◌∷◌}
use grandpa_bob.Base.Tests.{if◌then◌else◌}

module _ {ℓ} {A : Type ℓ} (after : A → A → Bool) where
  -- `x` goes before the first entry that is after it.
  unfoldable pub insert : A → List A → List A
  insert x [] = x ∷ []
  insert x (y ∷ ys) = let rest = insert x ys in if after x y then y ∷ rest else x ∷ y ∷ ys

  unfoldable pub sort : List A → List A
  unfolding insert
  sort [] = []
  sort (x ∷ xs) = insert x (sort xs)
