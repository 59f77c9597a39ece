-- ===== src/Examples/Exports.antt =====
-- Runs and instances for the index of java_export rules.
use rules_jvm.Prelude.{
  ◌+◌, length, List, ap, sym, ◌∙◌, ℕ, ◌≡◌, ◌<◌, subst, refl, ite, true, false, some, [], ◌∷◌, Memᴰ,
  Text, codes, text_dec, lookup, put, keys, arith, not-Memᴰ-nil, All-Memᴰ,
}
use rules_jvm.Names.{PackageName, new_package_name}
use rules_jvm.Labels.{Label, Label-discrete}
use rules_jvm.ExportIndex.{
  JavaExportIndex, new_java_export_index, ResolveInput, JavaExportResolveInfo, ExportConflict,
  rule_dependencies,
}
use rules_jvm.ExportIndex.{
  record_java_export, calculate_transitive_dependencies, sum_dependencies, direct_dependencies_of,
  find_conflicts, is_java_export, exported_by, traverse, round, queue_dependencies, memoized, visit,
}
use rules_jvm.ExportIndex.Finalize.{finalize_index}
use rules_jvm.ExportIndex.Finalize.Ready.{Records, nothing, an_export}
use rules_jvm.ExportIndex.Finalize.Total.{finalize_index-IsReady}
use rules_jvm.Resolve.Exports.Boundary.{IsReady}
use rules_jvm.Examples.Resolution.{labels}
use rules_jvm.ExportIndex.Counting.{direct, sum_paths}

abbrev label_in : Text → Label
label_in p = record { repo = []; pkg = p; name = codes "lib"; relative = false }

abbrev export : Label
export = label_in (codes "export")

abbrev app : Label
app = label_in (codes "app")

abbrev util : Label
util = label_in (codes "util")

abbrev util_package : PackageName
util_package = new_package_name (codes "com.example.util")

abbrev app_input : ResolveInput
app_input = record {
  package_names = [];
  imported_package_names = util_package ∷ [];
  imported_classes = [];
  exported_package_names = [];
  exported_class_names = [];
  annotation_processors = [];
}

abbrev export_info : JavaExportResolveInfo
export_info = record {
  label = export;
  direct_dependencies = (app, tt) ∷ [];
  internal_visibility = [];
}

-- An export of a rule that imports the package of another rule.
abbrev chain : JavaExportIndex
chain = record new_java_export_index {
  packages_to_labels = (util_package, util) ∷ [];
  labels_to_resolve_inputs = (app, app_input) ∷ [];
  java_exports = (export, export_info) ∷ [];
}

rank : Label → ℕ
rank l = ite (Label-discrete export l) 2 (ite (Label-discrete app l) 1 0)

-- The export of the rule `app` as it is recorded and finalized.
abbrev with_export : JavaExportIndex
with_export = record new_java_export_index { java_exports = (export, export_info) ∷ [] }

with_export-Records : Records with_export
unfolding record_java_export put
with_export-Records = an_export new_java_export_index with_export export_info nothing refl

abbrev finalized : JavaExportIndex
finalized = record with_export {
  ready_for_resolve = true;
  label_to_java_export = (app, export) ∷ [];
  java_exports =
      (
        export,
        record export_info {
          internal_visibility =
              record { repo = []; pkg = codes "app"; name = codes "__pkg__"; relative = false }
              ∷ [];
        },
      )
      ∷ [];
}

finalize_index_run : finalize_index labels (λ less es. es) 3 3 with_export ≡ some (finalized, [])
unfolding finalize_index calculate_transitive_dependencies sum_dependencies direct_dependencies_of
    rule_dependencies find_conflicts is_java_export exported_by traverse round queue_dependencies
    memoized put visit
finalize_index_run = refl

-- One path leads from the export of `with_export` to another label.
one_path : Label → ℕ
one_path l = ite (Label-discrete export l) 1 0

direct-with_export :
    (l : Label) → direct with_export l ≡ ite (Label-discrete export l) ((app, tt) ∷ []) []
unfolding direct rule_dependencies lookup
direct-with_export l = ground arith

one_path-app : one_path app ≡ 0
unfolding one_path Label-discrete text_dec
one_path-app = refl

with_export-falls_by :
    {P : Type 0} (a : Dec P) (d : Label)
    → Memᴰ d (keys (ite a ((app, tt {0}) ∷ []) []))
    → one_path d < ite a 1 0
with_export-falls_by (yes _) d m =
    All-Memᴰ (λ x. one_path x < 1) (app ∷ []) (omega (arith, one_path-app), tt) d m
with_export-falls_by (no _) d m = absurd (not-Memᴰ-nil d m)

with_export-falls : (l d : Label) → Memᴰ d (keys (direct with_export l)) → one_path d < one_path l
unfolding one_path
with_export-falls l d m =
    with_export-falls_by (Label-discrete export l) d
      (subst (λ s. Memᴰ d (keys s)) (direct-with_export l) m)

with_export-adds_by :
    {P : Type 0} (a : Dec P) → ite a 1 0 ≡ sum_paths one_path (keys (ite a ((app, tt {0}) ∷ []) []))
unfolding sum_paths
with_export-adds_by (yes _) = omega (arith, one_path-app)
with_export-adds_by (no _) = refl

with_export-adds : (l : Label) → one_path l ≡ sum_paths one_path (keys (direct with_export l))
unfolding one_path
with_export-adds l =
    with_export-adds_by (Label-discrete export l)
    ∙ ap (λ s. sum_paths one_path (keys s)) (sym (direct-with_export l))

one_path_low : (l : Label) → one_path l < 2
unfolding one_path
one_path_low l = ground arith

finalize_index-IsReady_example :
    (jei : JavaExportIndex) × (conflicts : List ExportConflict) × (finalize_index labels
        (λ less es. es)
        3
        3
        with_export
      ≡ some (jei, conflicts))
    × IsReady jei
finalize_index-IsReady_example =
    finalize_index-IsReady labels (λ less es. es) (λ less es e m. m) with_export one_path one_path
      with_export-falls with_export-adds (λ l. omega (arith, one_path_low l)) 3 3
      with_export-Records (λ l m. omega (arith, one_path_low l))
      (λ e m.
        All-Memᴰ (λ x. length (keys x.direct_dependencies) + 0 < 3) (export_info ∷ [])
          (omega arith, tt) e m)
