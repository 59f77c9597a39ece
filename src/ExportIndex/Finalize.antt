-- ===== src/ExportIndex/Finalize.antt =====
-- What is read from a java_export rule, and `FinalizeIndex`
-- (java/gazelle/private/java_export_index/java_export_index.go). `Ready` is about the index that it leaves,
-- `Returns` about its loops, and `Total` about the whole.
--
-- The comparison of the exports is no order, so what the B-tree makes of it is a parameter: the exports that it
-- returns in sequence.
pub mod Ready
pub mod Returns
pub mod Total
use Prim.Native.Nat.{◌%◌, ◌^◌}
use rules_jvm.Prelude.{
  ℕ, ◌+◌, Bool, true, false, ◌||◌, ltb, Option, none, some, List, [], ◌∷◌, ◌++◌, map, Text, codes,
  lookup, put, keys, text_dec, is_yes, ◌>>=◌, if◌then◌else◌,
}
use rules_jvm.Labels.{Label, LabelLib, Label-discrete, no_label}
use rules_jvm.SortedSet.View.{place_all}
use rules_jvm.SortedSet.Label.{label_less}
use rules_jvm.ExportIndex.{
  JavaExportIndex, JavaExportResolveInfo, LabelSet, Memo, ExportConflict, count_exports,
  calculate_imports, record_java_export,
}

abbrev pub stored_count : Memo → Label → ℕ
stored_count memo l = elim (lookup Label-discrete l memo.counts) [ none ↦ 0 | some n ↦ n ]

-- The order of two counts as Go's signed integers: the half from 2 ^ 63 on is below zero.
unfoldable pub int_less : ℕ → ℕ → Bool
int_less a b = ltb ((a + 2 ^ 63) % 2 ^ 64) ((b + 2 ^ 63) % 2 ^ 64)

module _ (lib : LabelLib) where
  -- attrLabels, without its errors: a text that does not parse gives the empty label.
  unfoldable pub attr_label : Label → Text → Label
  unfolding text_dec
  attr_label own t =
      let parsed : Label = elim (lib.parse t) [ none ↦ no_label | some l ↦ l ] in
      let inside : Label =
        if is_yes (text_dec parsed.pkg [])
        then record parsed { pkg = own.pkg; relative = false }
        else parsed in
      record inside { repo = own.repo }

  unfoldable pub attr_labels : Label → List Text → LabelSet → LabelSet
  unfolding attr_label put Label-discrete
  attr_labels own [] set = set
  attr_labels own (t ∷ ts) set = attr_labels own ts (put Label-discrete (attr_label own t) tt set)

  -- NewJavaExportResolveInfoFromRule, for the package of the file, and the name and the attributes of the rule.
  unfoldable pub new_java_export_resolve_info :
      Text → Text → (Text → List Text) → JavaExportResolveInfo
  unfolding attr_labels
  new_java_export_resolve_info pkg name attr_strings =
      let own = lib.new [] pkg name in
      record {
        label = own;
        direct_dependencies = attr_labels own (attr_strings (codes "runtime_deps")) (
            attr_labels own (attr_strings (codes "exports"))
              (attr_labels own (attr_strings (codes "deps")) []));
        internal_visibility = lib.new [] pkg (codes "__pkg__") ∷ [];
      }

  -- The comparison of `sortedJavaExports`; a missing count reads as zero.
  unfoldable pub export_less : Memo → JavaExportResolveInfo → JavaExportResolveInfo → Bool
  unfolding lookup Label-discrete label_less int_less
  export_less memo a b =
      int_less (stored_count memo a.label) (stored_count memo b.label)
      || label_less lib.to_string a.label b.label

  -- The loop over the sorted exports, with the set of conflicts.
  unfoldable pub import_all :
      Memo
      → ℕ
      → List JavaExportResolveInfo
      → JavaExportIndex
      → List ExportConflict
      → Option (JavaExportIndex × List ExportConflict)
  unfolding calculate_imports place_all label_less
  import_all memo fuel [] jei conflicts = some (jei, conflicts)
  import_all memo fuel (e ∷ es) jei conflicts = elim (calculate_imports lib memo fuel e jei) [
    | none ↦ none
    | some (jei', found) ↦ import_all memo fuel es jei' (
        place_all (λ a b. label_less lib.to_string a.wanted_to_export_from b.wanted_to_export_from)
          found conflicts)
  ]

  -- FinalizeIndex: the index, and the conflicts it warns of.
  module _
      (sequence : (JavaExportResolveInfo → JavaExportResolveInfo → Bool)
        → List JavaExportResolveInfo
        → List JavaExportResolveInfo) where
    unfoldable pub finalize_index :
        ℕ → ℕ → JavaExportIndex → Option (JavaExportIndex × List ExportConflict)
    unfolding count_exports import_all export_less
    finalize_index counting visiting jei =
        elim (count_exports jei counting (keys jei.java_exports)
          (record { counts = []; dependencies = [] })) [
            | none ↦ none
            | some memo ↦
                elim (import_all memo visiting
                  (sequence (export_less memo)
                    (map (λ (e : Label × JavaExportResolveInfo). e.1) jei.java_exports))
                  jei []) [
                    | none ↦ none
                    | some (jei', conflicts) ↦
                        some (record jei' { ready_for_resolve = true }, conflicts)
                  ]
          ]
