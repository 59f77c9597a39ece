-- ===== src/Multiset.antt =====
-- The two multisets: SortedMultiSet of java/gazelle/private/sorted_multiset/multiset.go, whose sets of
-- values and of keys are seen as their ascending lists (`SortedSet.View`), and StringMultiSet of
-- java/gazelle/private/maven/multiset/multiset.go, a map of sets. The lock of the latter makes each
-- method one step, so the methods are functions. `Laws` has the proofs.
pub mod Laws
use rules_jvm.Prelude.{
  ◌≡◌, ite, Bool, true, false, Option, none, some, List, [], ◌∷◌, Text, text_dec, any, lookup, put,
}
use rules_jvm.SortedSet.View.{equiv, place}

pub record SortedMultiSet (K V : Type 0) : Type 0 where
  pub ms : List (K × List V)
  pub keys : List K

module _ {K V : Type 0} where
  pub new_sorted_multi_set : SortedMultiSet K V
  new_sorted_multi_set = record { ms = []; keys = [] }

  -- Keys: nothing of a nil multiset.
  pub keys_slice : Option (SortedMultiSet K V) → List K
  keys_slice none = []
  keys_slice (some s) = s.keys

module _ {K V : Type 0} (dec : Discrete K) where
  -- Values: reading a key that is absent gives the nil set.
  pub values : Option (SortedMultiSet K V) → K → Option (List V)
  unfolding lookup
  values none key = none
  values (some s) key = lookup dec key s.ms

  -- SortedValues
  pub sorted_values : Option (SortedMultiSet K V) → K → List V
  unfolding values
  sorted_values s key = elim (values s key) [ none ↦ [] | some vs ↦ vs ]

module _ {K V : Type 0} (dec : Discrete K) (value_less : V → V → Bool) where
  -- `s.ms[key].Add(value)`: the outer `none` is the panic on a nil set.
  pub add_value : SortedMultiSet K V → K → V → Option (SortedMultiSet K V)
  unfolding lookup put place
  add_value s key value = elim (lookup dec key s.ms) [
    | none ↦ none
    | some vs ↦ some (record s { ms = put dec key (place value_less value vs) s.ms })
  ]

  -- Add
  pub add : (K → K → Bool) → SortedMultiSet K V → K → V → Option (SortedMultiSet K V)
  unfolding add_value any put place
  add less s key value = elim (any (λ k. equiv less k key) s.keys) [
    | true ↦ add_value s key value
    | false ↦
        add_value (record { ms = put dec key [] s.ms; keys = place less key s.keys }) key value
  ]

-- map[string]stringSet, the inner set as a map to nothing.
abbrev pub StringMultiSet : Type 0
StringMultiSet = List (Text × List (Text × Unit {0}))

unfoldable pub get : StringMultiSet → Text → Option (List (Text × Unit {0}))
unfolding lookup text_dec
get m key = lookup text_dec key m

unfoldable pub add_string : StringMultiSet → Text → Text → StringMultiSet
unfolding lookup put text_dec
add_string m key value = elim (lookup text_dec key m) [
  | none ↦ put text_dec key (put text_dec value tt []) m
  | some set ↦ put text_dec key (put text_dec value tt set) m
]

-- NewStringMultiSet
abbrev pub new_string_multi_set : StringMultiSet
new_string_multi_set = []
