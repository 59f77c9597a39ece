-- ===== src/Loads.antt =====
-- Naming conventions (java/gazelle/javaconfig/config.go) and the symbols that a build file loads
-- (java/gazelle/lang.go).
use rules_jvm.Prelude.{
  Bool, ◌&&◌, Option, none, some, List, [], ◌∷◌, ◌++◌, Text, codes, text_dec, text_less, has_prefix,
  length, drop, if◌then◌else◌, ℕ, zero, suc, map,
}
use rules_jvm.Config.{Config, dirname_template, is_text}
use rules_jvm.Multiset.{SortedMultiSet, new_sorted_multi_set, add, sorted_values}

-- strings.ReplaceAll of a text that is not empty. The number is what is left of an occurrence that was replaced.
unfoldable pub replace_from : ℕ → Text → Text → Text → Text
unfolding has_prefix
replace_from n old new [] = []
replace_from zero old new (c ∷ s) =
    let after = replace_from (length (drop 1 old)) old new s in
    let kept = replace_from zero old new s in
    if has_prefix (c ∷ s) old then new ++ after else c ∷ kept
replace_from (suc n) old new (c ∷ s) = replace_from n old new s

-- MapLibraryName
unfoldable pub map_library_name : Config → Text → Text
unfolding replace_from
map_library_name c dirname = replace_from 0 dirname_template dirname c.library_naming_convention

-- MapTestSuiteName
unfoldable pub map_test_suite_name : Config → Text → Bool → Text
unfolding replace_from text_dec
map_test_suite_name c dirname is_module =
    let convention =
      (if is_module && is_text c.test_suite_naming_convention dirname_template
        then dirname_template ++ codes "-tests"
        else c.test_suite_naming_convention) in
    replace_from 0 dirname_template dirname convention

-- rule.LoadInfo
pub record LoadInfo : Type 0 where
  pub name : Text
  pub symbols : List Text

-- The loop over the symbols of one file, and over the files. `none` is the panic of Add on a nil set.
unfoldable pub add_symbols :
    Text → List Text → SortedMultiSet Text Text → Option (SortedMultiSet Text Text)
unfolding text_dec text_less
add_symbols name [] s = some s
add_symbols name (symbol ∷ symbols) s = elim (add text_dec text_less text_less s name symbol) [
  | none ↦ none
  | some s' ↦ add_symbols name symbols s'
]

unfoldable pub add_loads :
    List LoadInfo → SortedMultiSet Text Text → Option (SortedMultiSet Text Text)
unfolding add_symbols
add_loads [] s = some s
add_loads (l ∷ ls) s = elim (add_symbols l.name l.symbols s) [
  | none ↦ none
  | some s' ↦ add_loads ls s'
]

-- Loads: the base loads, and the wrappers, each with one symbol, in the order of the map's iteration.
unfoldable pub loads : List LoadInfo → List LoadInfo → Option (List LoadInfo)
unfolding add_loads text_dec
loads base [] = some base
loads base (w ∷ wrappers) = elim (add_loads (base ++ w ∷ wrappers) new_sorted_multi_set) [
  | none ↦ none
  | some s ↦
      some (map (λ k. record { name = k; symbols = sorted_values text_dec (some s) k }) s.keys)
]
