-- ===== src/Resolve/Labels.antt =====
-- Labels and attributes while resolving (java/gazelle/resolve.go).
use rules_jvm.Prelude.{
  Bool, true, ◌&&◌, ◌||◌, Option, none, some, List, [], ◌∷◌, Text, text_dec, lookup, put, is_yes,
  if◌then◌else◌,
}
use rules_jvm.Labels.{Label, LabelLib}
use rules_jvm.SortedSet.View.{place}
use rules_jvm.SortedSet.Label.{label_less}

abbrev pub same_text : Text → Text → Bool
same_text s t = is_yes (text_dec s t)

-- What the program asks Gazelle, for one configuration and one index: the label of a resolve directive for
-- an import, the labels of the rules that provide an import, and the name of the repository.
pub record Gazelle : Type 0 where
  pub override : Text → Option Label
  pub rules_by_import : Text → List Label
  pub repo_name : Text

-- simplifyLabel
unfoldable pub simplify_label : Text → Label → Label → Label
unfolding text_dec
simplify_label repo_name l from =
    if same_text l.repo repo_name || same_text l.repo []
    then (if same_text l.pkg from.pkg then record l { relative = true } else record l { repo = [] })
    else l

-- A rule: its name, its kind, its attributes that are lists of strings, and the one of a Kotlin rule that is
-- a string.
pub record Rule : Type 0 where
  pub name : Text
  pub kind : Text
  pub attrs : List (Text × List Text)
  pub module_name : Option Text

-- AttrStrings: nil where the rule has no such attribute.
unfoldable pub attr_strings : Rule → Text → List Text
unfolding lookup text_dec
attr_strings r key = elim (lookup text_dec key r.attrs) [ none ↦ [] | some value ↦ value ]

unfoldable pub set_attr : Text → List Text → Rule → Rule
unfolding put text_dec
set_attr key value r = record r { attrs = put text_dec key value r.attrs }

unfoldable pub remove : Text → List (Text × List Text) → List (Text × List Text)
unfolding text_dec
remove key [] = []
remove key ((k, v) ∷ m) = let rest = remove key m in if same_text k key then rest else (k, v) ∷ rest

unfoldable pub del_attr : Text → Rule → Rule
unfolding remove
del_attr key r = record r { attrs = remove key r.attrs }

module _ (lib : LabelLib) where
  -- The values that the attribute has: `none` is the panic on one that is no label.
  unfoldable pub add_existing : List Text → List Label → Option (List Label)
  add_existing [] labels = some labels
  add_existing (t ∷ ts) labels = elim (lib.parse t) [
    | none ↦ none
    | some l ↦ add_existing ts (place (label_less lib.to_string) l labels)
  ]

  -- The labels but those of the rule itself, printed.
  unfoldable pub expressions : Text → List Label → List Text
  unfolding text_dec
  expressions name [] = []
  expressions name (l ∷ ls) =
      let rest = expressions name ls in
      if l.relative && same_text l.name name then rest else lib.to_string l ∷ rest

  unfoldable pub write_expressions : Text → List Text → Rule → Rule
  write_expressions key [] r = r
  write_expressions key (e ∷ es) r = set_attr key (e ∷ es) r

  -- setLabelAttrIncludingExistingValues
  unfoldable pub set_label_attr : Rule → Text → List Label → Option Rule
  unfolding add_existing expressions write_expressions
  set_label_attr r key labels = elim (add_existing (attr_strings r key) labels) [
    | none ↦ none
    | some all ↦ some (write_expressions key (expressions r.name all) r)
  ]
