-- ===== src/Examples/Sets.antt =====
-- Runs and instances for the sorted sets and the multisets, on texts, with the tree of
-- `SortedSet.Reference`.
use rules_jvm.Prelude.{
  ◌≡◌, ◌↔◌, refl, ite, Bool, true, false, some, [], ◌∷◌, ◌++◌, Memᴰ, Text, codes, text_dec,
  text_less, keep, is_yes, arith, Memᴰ-cons,
}
use rules_jvm.Labels.{Label}
use rules_jvm.SortedSet.{BTree, SortedSet, new_sorted_set, sorted_slice, filter}
use rules_jvm.SortedSet.View.{StrictOrder, place, place_all}
use rules_jvm.SortedSet.Label.{text_less_order, text_less-equiv, label_less, label_less_order}
use rules_jvm.SortedSet.Reference.{list_tree}
use rules_jvm.SortedSet.Refine.{filter_view, new_sorted_set_same}
use rules_jvm.Multiset.{
  SortedMultiSet, new_sorted_multi_set, sorted_values, StringMultiSet, get, add_string,
}
use rules_jvm.Multiset
use rules_jvm.Multiset.Laws.{IsValid, new-IsValid, add_lem}

abbrev tree : BTree text_less
tree = list_tree text_less text_less_order

abbrev lib_name : Text
lib_name = codes "lib"

abbrev app_name : Text
app_name = codes "app"

abbrev is_lib : Text → Bool
is_lib t = is_yes (text_dec t lib_name)

abbrev two_names : tree.Tree
two_names = tree.replace_or_insert (tree.replace_or_insert tree.new lib_name) app_name

place_all_run :
    place_all text_less (lib_name ∷ app_name ∷ lib_name ∷ []) [] ≡ app_name ∷ lib_name ∷ []
unfolding place_all place text_less
place_all_run = refl

filter_view_example :
    (s : SortedSet tree) × (filter tree (some two_names) is_lib ≡ some s)
    × (sorted_slice tree s ≡ keep is_lib (tree.ascend two_names))
filter_view_example = filter_view text_less_order tree two_names is_lib

same_names :
    (x : Text) → Memᴰ x (lib_name ∷ app_name ∷ []) ↔ Memᴰ x (app_name ∷ lib_name ∷ app_name ∷ [])
same_names x = ground (
  arith,
  Memᴰ-cons x lib_name (app_name ∷ []),
  Memᴰ-cons x app_name [],
  Memᴰ-cons x app_name (lib_name ∷ app_name ∷ []),
  Memᴰ-cons x lib_name (app_name ∷ []),
)

new_sorted_set_same_example :
    sorted_slice tree
      (some (tree.replace_or_insert (tree.replace_or_insert tree.new lib_name) app_name))
    ≡ sorted_slice tree (
        some (
          tree.replace_or_insert
            (tree.replace_or_insert (tree.replace_or_insert tree.new app_name) lib_name)
            app_name))
unfolding new_sorted_set
new_sorted_set_same_example =
    new_sorted_set_same text_less_order tree text_less-equiv (lib_name ∷ app_name ∷ [])
      (app_name ∷ lib_name ∷ app_name ∷ []) same_names
      (some (tree.replace_or_insert (tree.replace_or_insert tree.new lib_name) app_name))
      (some (
        tree.replace_or_insert
          (tree.replace_or_insert (tree.replace_or_insert tree.new app_name) lib_name) app_name))
      refl refl

abbrev label_text : Label → Text
label_text l = l.repo ++ l.pkg ++ l.name

label_less_order_example :
    StrictOrder (label_less label_text)
    × ((l r : Label)
        → l.relative ≡ true
        → r.relative ≡ false
        → (label_less label_text l r ≡ true) × (label_less label_text r l ≡ false))
label_less_order_example = label_less_order label_text

add_lem_example :
    (s' : SortedMultiSet Text Text) × (Multiset.add text_dec text_less text_less
        new_sorted_multi_set app_name lib_name
      ≡ some s')
    × IsValid text_dec text_less_order text_less-equiv text_less s'
    × ((j : Text)
        → sorted_values text_dec (some s') j
          ≡ ite
              (text_dec app_name j)
              (place text_less lib_name
                (sorted_values text_dec (some new_sorted_multi_set) app_name))
              (sorted_values text_dec (some new_sorted_multi_set) j))
add_lem_example =
    add_lem text_dec text_less_order text_less-equiv text_less new_sorted_multi_set app_name
      lib_name (new-IsValid text_dec text_less_order text_less-equiv text_less)
