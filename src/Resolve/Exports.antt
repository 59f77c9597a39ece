-- ===== src/Resolve/Exports.antt =====
-- The boundaries of java_export rules: `tryResolvingToJavaExport` of java/gazelle/resolve.go. `Boundary`
-- proves what it answers.
--
-- The outer `none` is a log entry at the level Fatal.
pub mod Boundary
use rules_jvm.Prelude.{
  ℕ, Bool, true, false, Option, none, some, List, [], ◌∷◌, is_yes, if◌then◌else◌, ◌>>=◌,
}
use rules_jvm.Labels.{Label, Label-discrete}
use rules_jvm.ExportIndex.{JavaExportIndex, JavaExportResolveInfo, is_java_export, is_exported_by}

abbrev pub same_label : Label → Label → Bool
same_label l k = is_yes (Label-discrete l k)

unfoldable pub same_exporter : Option JavaExportResolveInfo → Option JavaExportResolveInfo → Bool
unfolding Label-discrete
same_exporter none none = true
same_exporter (some e) (some f) = same_label e.label f.label
same_exporter none (some f) = false
same_exporter (some e) none = false

-- coveredByTheSameExport
unfoldable pub covered_by_the_same_export : JavaExportIndex → Label → Label → Option Bool
covered_by_the_same_export jei one other = do
  e ← is_exported_by jei one
  f ← is_exported_by jei other
  some (same_exporter e f)

-- What one result adds to `javaExportsThatCoverThisDep`.
unfoldable pub covering : JavaExportIndex → Label → Label → Option (List Label)
covering jei from result = elim (is_java_export jei result) [
  | true ↦ some (result ∷ [])
  | false ↦ do
    same ← covered_by_the_same_export jei from result
    elim same [
      | true ↦ some []
      | false ↦ do
        exporter ← is_exported_by jei result
        elim exporter [ none ↦ some [] | some e ↦ some (e.label ∷ []) ]
    ]
]

-- The loop over the results.
unfoldable pub all_covering : JavaExportIndex → Label → List Label → Option (List Label)
all_covering jei from [] = some []
all_covering jei from (r ∷ rs) = elim (covering jei from r) [
  | none ↦ none
  | some c ↦ elim (all_covering jei from rs) [
    | none ↦ none
    | some cs ↦ elim c [ [] ↦ some cs | l ∷ _ ↦ some (l ∷ cs) ]
  ]
]

-- No export: all the results; one: that export; several: the fatal entry, behind which nothing is returned.
unfoldable pub narrow : List Label → List Label → Option (List Label)
narrow results [] = some results
narrow results (e ∷ []) = some (e ∷ [])
narrow results (e ∷ f ∷ es) = none

unfoldable pub try_resolving_to_java_export :
    JavaExportIndex → List Label → Label → Option (List Label)
unfolding all_covering covering narrow
try_resolving_to_java_export jei results from = elim (all_covering jei from results) [
  | none ↦ none
  | some es ↦ narrow results es
]
