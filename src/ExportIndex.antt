-- ===== src/ExportIndex.antt =====
-- The index of java_export rules (java/gazelle/private/java_export_index/java_export_index.go).
-- `Counting` is about the recursion of `calculateTransitiveDependencies`, and `Finalize` has `FinalizeIndex`.
--
-- Maps are association lists; a log entry at the level Fatal ends the program and is `none`. The
-- recursion and the traversal take fuel, and `none` is also what they return when it runs out.
pub mod Counting
pub mod Finalize
use Prim.Native.Nat.{◌%◌, ◌^◌}
use rules_jvm.Prelude.{
  ℕ, zero, suc, ◌+◌, ite, Bool, true, false, Option, none, some, List, [], ◌∷◌, ◌++◌, map, Text,
  codes, lookup, put, keys, ◌>>=◌, is_yes, if◌then◌else◌, any, Option-cases,
}
use rules_jvm.Names.{PackageName, ClassName, package_name_dec}
use rules_jvm.Labels.{Label, LabelLib, Label-discrete, no_label}
use rules_jvm.SortedSet.View.{place}
use rules_jvm.SortedSet.Label.{label_less}

-- A map from labels to true.
abbrev pub LabelSet : Type 0
LabelSet = List (Label × Unit {0})

pub record JavaExportResolveInfo : Type 0 where
  pub label : Label
  pub direct_dependencies : LabelSet
  pub internal_visibility : List Label

-- types.ResolveInput: the sets as ascending lists. The program only reads them here and while it resolves,
-- where a nil set reads as an empty one.
pub record ResolveInput : Type 0 where
  pub package_names : List PackageName
  pub imported_package_names : List PackageName
  pub imported_classes : List ClassName
  pub exported_package_names : List PackageName
  pub exported_class_names : List ClassName
  pub annotation_processors : List ClassName

pub record JavaExportIndex : Type 0 where
  pub ready_for_resolve : Bool
  pub packages_to_labels : List (PackageName × Label)
  pub labels_to_resolve_inputs : List (Label × ResolveInput)
  pub java_exports : List (Label × JavaExportResolveInfo)
  pub label_to_java_export : List (Label × Label)

abbrev pub new_java_export_index : JavaExportIndex
new_java_export_index = record {
  ready_for_resolve = false;
  packages_to_labels = [];
  labels_to_resolve_inputs = [];
  java_exports = [];
  label_to_java_export = [];
}

unfoldable pub declare_packages :
    List PackageName → Label → List (PackageName × Label) → List (PackageName × Label)
unfolding put package_name_dec
declare_packages [] lbl m = m
declare_packages (p ∷ ps) lbl m = declare_packages ps lbl (put package_name_dec p lbl m)

-- RecordRuleWithResolveInput, for the rule with the label `lbl`.
unfoldable pub record_rule : JavaExportIndex → Label → ResolveInput → Option JavaExportIndex
unfolding declare_packages put Label-discrete
record_rule jei lbl input =
    if jei.ready_for_resolve
    then none
    else some (record jei {
      labels_to_resolve_inputs = put Label-discrete lbl input jei.labels_to_resolve_inputs;
      packages_to_labels = declare_packages input.package_names lbl jei.packages_to_labels;
    })

-- RecordJavaExport, for the metadata that was read from the rule.
unfoldable pub record_java_export : JavaExportIndex → JavaExportResolveInfo → Option JavaExportIndex
unfolding put Label-discrete
record_java_export jei info =
    if jei.ready_for_resolve
    then none
    else some (record jei { java_exports = put Label-discrete info.label info jei.java_exports })

unfoldable pub is_java_export : JavaExportIndex → Label → Bool
unfolding lookup Label-discrete
is_java_export jei lbl = elim (lookup Label-discrete lbl jei.java_exports) [
  | none ↦ false
  | some _ ↦ true
]

-- isExportedByJavaExport: the outer `none` is the fatal entry for an export that is not recorded.
unfoldable pub exported_by : JavaExportIndex → Label → Option (Option JavaExportResolveInfo)
unfolding lookup Label-discrete
exported_by jei lbl = elim (lookup Label-discrete lbl jei.label_to_java_export) [
  | none ↦ some none
  | some export_lbl ↦ elim (lookup Label-discrete export_lbl jei.java_exports) [
    | none ↦ none
    | some export ↦ some (some export)
  ]
]

-- IsExportedByJavaExport
unfoldable pub is_exported_by : JavaExportIndex → Label → Option (Option JavaExportResolveInfo)
unfolding exported_by
is_exported_by jei lbl = if jei.ready_for_resolve then exported_by jei lbl else none

-- VisibilityForLabel: the inner `none` is the nil set, no opinion.
unfoldable pub visibility_for_label :
    LabelLib → JavaExportIndex → Label → Option (Option (List Label))
unfolding is_java_export is_exported_by
visibility_for_label lib jei lbl =
    if jei.ready_for_resolve
    then (if is_java_export jei lbl
        then some (some (lib.new [] [] (codes "__subpackages__") ∷ []))
        else (do
          exporter ← is_exported_by jei lbl
          elim exporter [ none ↦ some none | some e ↦ some (some e.internal_visibility) ]))
    else none

-- The two maps that `FinalizeIndex` fills to avoid repeated work. A count is a Go `int`: 64 bits, of which the sum
-- keeps the rest on division by 2 ^ 64.
pub record Memo : Type 0 where
  pub counts : List (Label × ℕ)
  pub dependencies : List (Label × LabelSet)

-- The loop over the imported packages of a rule: what no rule declares is skipped.
unfoldable pub imported_labels : JavaExportIndex → List PackageName → LabelSet → LabelSet
unfolding lookup put package_name_dec Label-discrete
imported_labels jei [] acc = acc
imported_labels jei (p ∷ ps) acc =
    imported_labels jei ps (elim (lookup package_name_dec p jei.packages_to_labels) [
      | none ↦ acc
      | some l ↦ ite (Label-discrete l no_label) acc (put Label-discrete l tt acc)
    ])

-- The dependencies of a rule that is no export; a rule that was not recorded imports nothing.
unfoldable pub rule_dependencies : JavaExportIndex → Label → LabelSet
rule_dependencies jei lbl = elim (lookup Label-discrete lbl jei.labels_to_resolve_inputs) [
  | none ↦ []
  | some input ↦ imported_labels jei input.imported_package_names []
]

-- The direct dependencies of a label, and the memo with them in it.
unfoldable pub direct_dependencies_of : JavaExportIndex → Label → Memo → LabelSet × Memo
direct_dependencies_of jei lbl memo = elim (lookup Label-discrete lbl jei.java_exports) [
  | some export ↦ (export.direct_dependencies, memo)
  | none ↦ elim (lookup Label-discrete lbl memo.dependencies) [
    | some deps ↦ (deps, memo)
    | none ↦
        let deps = rule_dependencies jei lbl in
        (deps, record memo { dependencies = put Label-discrete lbl deps memo.dependencies })
  ]
]

-- for dep := range directDependencies { total += count(dep); total += 1 }
unfoldable pub sum_dependencies :
    (Label → Memo → Option (ℕ × Memo)) → List Label → ℕ → Memo → Option (ℕ × Memo)
sum_dependencies count [] total memo = some (total, memo)
sum_dependencies count (d ∷ ds) total memo = elim (count d memo) [
  | none ↦ none
  | some (n, memo') ↦ sum_dependencies count ds ((total + n + 1) % 2 ^ 64) memo'
]

-- calculateTransitiveDependencies
unfoldable pub calculate_transitive_dependencies :
    JavaExportIndex → ℕ → Label → Memo → Option (ℕ × Memo)
calculate_transitive_dependencies jei zero lbl memo = none
calculate_transitive_dependencies jei (suc fuel) lbl memo =
    elim (lookup Label-discrete lbl memo.counts) [
      | some n ↦ some (n, memo)
      | none ↦
          let (direct, memo') = direct_dependencies_of jei lbl memo in
          elim (sum_dependencies (calculate_transitive_dependencies jei fuel) (keys direct) 0
            memo') [
              | none ↦ none
              | some (total, memo'') ↦
                  some
                    (total, record memo'' { counts = put Label-discrete lbl total memo''.counts })
            ]
    ]

-- The loop of FinalizeIndex that counts for every export, in the order of the map's iteration.
unfoldable pub count_exports : JavaExportIndex → ℕ → List Label → Memo → Option Memo
count_exports jei fuel [] memo = some memo
count_exports jei fuel (l ∷ ls) memo = elim (calculate_transitive_dependencies jei fuel l memo) [
  | none ↦ none
  | some (n, memo') ↦ count_exports jei fuel ls memo'
]

-- exportConflict
pub record ExportConflict : Type 0 where
  pub dep : Label
  pub wanted_to_export_from : Label
  pub already_exported_from : Label

-- The first loop of `calculateImportsForJavaExport`.
unfoldable pub find_conflicts : JavaExportIndex → Label → List Label → Option (List ExportConflict)
find_conflicts jei export [] = some []
find_conflicts jei export (l ∷ ls) =
    let rest = find_conflicts jei export ls in
    if is_java_export jei l then rest else elim (exported_by jei l) [
      | none ↦ none
      | some none ↦ rest
      | some (some other) ↦ do
        conflicts ← rest
        some (
            record { dep = l; wanted_to_export_from = export; already_exported_from = other.label }
            ∷ conflicts)
    ]

-- The labels to visit, the labels that were queued, and what the traversal writes.
pub record Traversal : Type 0 where
  pub labels_to_visit : List Label
  pub transitive_deps : LabelSet
  pub index : JavaExportIndex
  pub visibility : List Label

-- The inner loop: it queues a dependency that is no export, is not exported yet, and was not queued.
unfoldable pub queue_dependencies : List Label → Traversal → Option Traversal
queue_dependencies [] t = some t
queue_dependencies (l ∷ ls) t = elim (is_java_export t.index l) [
  | true ↦ queue_dependencies ls t
  | false ↦ elim (exported_by t.index l) [
    | none ↦ none
    | some (some _) ↦ queue_dependencies ls t
    | some none ↦ elim (lookup Label-discrete l t.transitive_deps) [
      | some _ ↦ queue_dependencies ls t
      | none ↦ queue_dependencies ls (record t {
        labels_to_visit = t.labels_to_visit ++ l ∷ [];
        transitive_deps = put Label-discrete l tt t.transitive_deps;
      })
    ]
  ]
]

-- Visiting a label that is no export.
unfoldable pub visit : LabelLib → Label → Label → Traversal → Traversal
visit lib export dep t = record t {
  index = record t.index {
    label_to_java_export = put Label-discrete dep export t.index.label_to_java_export;
  };
  visibility = place (label_less lib.to_string) (lib.new [] dep.pkg (codes "__pkg__")) t.visibility;
}

-- The keys of a set in the map of memoized dependencies; a missing entry is the nil map.
unfoldable pub memoized : Memo → Label → List Label
memoized memo l = elim (lookup Label-discrete l memo.dependencies) [ none ↦ [] | some s ↦ keys s ]

-- One round of the outer loop, for the label at the head of the queue.
unfoldable pub round : LabelLib → Memo → Label → Label → Traversal → Option Traversal
round lib memo export dep t = elim (is_java_export t.index dep) [
  | true ↦ some t
  | false ↦ queue_dependencies (memoized memo dep) (visit lib export dep t)
]

unfoldable pub traverse : LabelLib → Memo → Label → ℕ → Traversal → Option Traversal
traverse lib memo export zero t = none
traverse lib memo export (suc fuel) t = elim t.labels_to_visit [
  | [] ↦ some t
  | dep ∷ rest ↦ elim (round lib memo export dep (record t { labels_to_visit = rest })) [
    | none ↦ none
    | some t' ↦ traverse lib memo export fuel t'
  ]
]

-- calculateImportsForJavaExport: the index with the export's labels and visibility, and the conflicts.
unfoldable pub calculate_imports :
    LabelLib
    → Memo
    → ℕ
    → JavaExportResolveInfo
    → JavaExportIndex
    → Option (JavaExportIndex × List ExportConflict)
calculate_imports lib memo fuel export jei = do
  conflicts ← find_conflicts jei export.label (keys export.direct_dependencies)
  t ← traverse lib memo export.label fuel (record {
    labels_to_visit = keys export.direct_dependencies;
    transitive_deps = export.direct_dependencies;
    index = jei;
    visibility = export.internal_visibility;
  })
  some (
    record t.index {
      java_exports =
          put Label-discrete export.label (record export { internal_visibility = t.visibility })
            t.index.java_exports;
    },
    conflicts,
  )
