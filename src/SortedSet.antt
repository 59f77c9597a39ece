-- ===== src/SortedSet.antt =====
-- SortedSet (java/gazelle/private/sorted_set/btreeset.go) over the tree of github.com/google/btree.
-- The tree is not part of the repository: `BTree` states what its documentation promises for an
-- order. `View` is the abstract set, an ascending list; `Refine` proves that the operations of the
-- set compute that view; `Label` is the order on labels of comparisons.go; `Reference` is a tree
-- that meets the promises.
pub mod View
pub mod Refine
pub mod Label
pub mod Reference
use rules_jvm.Prelude.{
  ℕ, ◌≡◌, ◌↔◌, ◌⊎◌, Bool, true, false, Option, none, some, List, [], ◌∷◌, Memᴰ, length, ◌>>=◌,
}
use rules_jvm.SortedSet.View.{equiv, Ascending}

-- BTreeG[T] with its LessFunc. `ascend` lists the values in the order in which Ascend visits them.
-- Two values are equal to the tree when neither is less than the other.
pub record BTree {A : Type 0} (less : A → A → Bool) : Type 1 where
  pub Tree : Type 0
  pub new : Tree
  pub replace_or_insert : Tree → A → Tree
  pub delete : Tree → A → Tree
  pub has : Tree → A → Bool
  pub len : Tree → ℕ
  pub ascend : Tree → List A
  pub ascend_new : ascend new ≡ []
  pub ascend_sorted : (t : Tree) → Ascending less (ascend t)
  pub mem_insert :
      (t : Tree) (v x : A)
      → Memᴰ x (ascend (replace_or_insert t v))
        ↔ ((x ≡ v) ⊎ Memᴰ x (ascend t) × (equiv less x v ≡ false))
  pub mem_delete :
      (t : Tree) (v x : A)
      → Memᴰ x (ascend (delete t v)) ↔ (Memᴰ x (ascend t) × (equiv less x v ≡ false))
  pub has_iff :
      (t : Tree) (v : A)
      → (has t v ≡ true) ↔ ((x : A) × Memᴰ x (ascend t) × (equiv less x v ≡ true))
  pub len_eq : (t : Tree) → len t ≡ length (ascend t)

module _ {A : Type 0} {less : A → A → Bool} (b : BTree less) where
  open b use {Tree, new, replace_or_insert, delete, has, ascend}

  -- *SortedSet[T]: `none` is the nil pointer. The outer `none` of a result is the panic of a method
  -- that reads the tree of a nil set.
  abbrev pub SortedSet : Type 0
  SortedSet = Option Tree

  unfoldable pub add : SortedSet → A → Option SortedSet
  add none v = none
  add (some t) v = some (some (replace_or_insert t v))

  unfoldable pub add_each : List A → SortedSet → Option SortedSet
  unfolding add
  add_each [] s = some s
  add_each (v ∷ vs) s = do s' ← add s v; add_each vs s'

  -- NewSortedSet and NewSortedSetFn, which differ in where the order comes from.
  unfoldable pub new_sorted_set : List A → Option SortedSet
  unfolding add_each
  new_sorted_set vs = add_each vs (some new)

  pub contains : SortedSet → A → Bool
  contains none v = false
  contains (some t) v = has t v

  pub sorted_slice : SortedSet → List A
  sorted_slice none = []
  sorted_slice (some t) = ascend t

  pub add_all : SortedSet → SortedSet → Option SortedSet
  unfolding add_each
  add_all s none = some s
  add_all s (some other) = add_each (ascend other) s

  -- The loop of `Filter`, which deletes from the clone what fails the predicate.
  pub delete_failing : (A → Bool) → List A → Tree → Tree
  delete_failing p [] t = t
  delete_failing p (v ∷ vs) t = delete_failing p vs (elim (p v) [ true ↦ t | false ↦ delete t v ])

  pub filter : SortedSet → (A → Bool) → Option SortedSet
  unfolding delete_failing
  filter none p = none
  filter (some t) p = some (some (delete_failing p (ascend t) t))

  pub clone : SortedSet → Option SortedSet
  clone none = none
  clone (some t) = some (some t)

  pub len : SortedSet → ℕ
  len none = 0
  len (some t) = b.len t
