-- ===== src/Prelude/Sort.antt =====
-- sort.Strings and the like: insertion into a list that keeps duplicates. Sorting forgets the order in
-- which a map was iterated.
use mathlib.Core.Bool.{Bool}
use mathlib.Core.List.{List, [], ◌∷◌}
use rules_jvm.Prelude.Tests.{if◌then◌else◌}

module _ {A : Type 0} (less : A → A → Bool) where
  unfoldable pub insert : A → List A → List A
  insert v [] = v ∷ []
  insert v (x ∷ xs) = let rest = insert v xs in if less x v then x ∷ rest else v ∷ x ∷ xs

  unfoldable pub sort : List A → List A
  unfolding insert
  sort [] = []
  sort (x ∷ xs) = insert x (sort xs)
