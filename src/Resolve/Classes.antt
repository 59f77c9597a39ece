-- ===== src/Resolve/Classes.antt =====
-- Resolving one class: the index of classes by package, and the functions of java/gazelle/resolve.go that ask
-- it. `Providers` proves what the index holds.
--
-- `none` is a log entry at the level Fatal. The logs at lower levels are left out.
pub mod Providers
use rules_jvm.Prelude.{
  ℕ, Bool, true, false, ◌&&◌, ◌||◌, Option, none, some, List, [], ◌∷◌, ◌++◌, Text, text_dec, lookup,
  put, any, is_yes, if◌then◌else◌, ◌>>=◌,
}
use rules_jvm.Names.{PackageName, ClassName, package_name_dec, fully_qualified_class_name}
use rules_jvm.Labels.{Label, LabelLib, Label-discrete, no_label}
use rules_jvm.SortedSet.View.{place_all}
use rules_jvm.SortedSet.Label.{label_less}
use rules_jvm.Resolve.Labels.{Gazelle, simplify_label, same_text}
use rules_jvm.Resolve.Exports.{same_label, try_resolving_to_java_export}
use rules_jvm.Resolve.Package.{Context, import_of, helper_of}

-- classExportInfo of java/gazelle/lang.go, and the cache by printed labels that generation fills.
pub record ClassExportInfo : Type 0 where
  pub classes : List ClassName
  pub testonly : Bool

abbrev pub ClassExportCache : Type 0
ClassExportCache = List (Text × ClassExportInfo)

-- packageClassIndex
pub record PackageClassIndex : Type 0 where
  pub prod : List (Text × List Label)
  pub test : List (Text × List Label)

abbrev pub same_package : PackageName → PackageName → Bool
same_package p q = is_yes (package_name_dec p q)

-- A missing entry of a map of slices is the nil slice.
unfoldable pub providers : Text → List (Text × List Label) → List Label
unfolding lookup text_dec
providers name m = elim (lookup text_dec name m) [ none ↦ [] | some ls ↦ ls ]

unfoldable pub add_provider : Text → Label → List (Text × List Label) → List (Text × List Label)
unfolding providers put
add_provider name l m = put text_dec name (providers name m ++ l ∷ []) m

-- The inner loop, over the classes of one rule.
unfoldable pub add_classes_of :
    PackageName → Label → Bool → List ClassName → PackageClassIndex → PackageClassIndex
add_classes_of pkg l testonly [] pci = pci
add_classes_of pkg l testonly (c ∷ cs) pci =
    let added =
      (if testonly
        then record pci { test = add_provider c.bare_outer_class_name l pci.test }
        else record pci { prod = add_provider c.bare_outer_class_name l pci.prod }) in
    add_classes_of pkg l testonly cs (if same_package c.package_name pkg then added else pci)

module _ (lib : LabelLib) where
  -- label.New("", l.Pkg, l.Name).String()
  unfoldable pub cache_key : Label → Text
  cache_key l = lib.to_string (lib.new [] l.pkg l.name)

  -- The outer loop, over the rules that provide the package.
  unfoldable pub index_matches :
      ClassExportCache → PackageName → List Label → PackageClassIndex → PackageClassIndex
  unfolding add_classes_of
  index_matches exports pkg [] pci = pci
  index_matches exports pkg (l ∷ ls) pci =
      index_matches exports pkg ls (elim (lookup text_dec (cache_key l) exports) [
        | none ↦ pci
        | some info ↦ add_classes_of pkg l info.testonly info.classes pci
      ])

  abbrev pub empty_class_index : PackageClassIndex
  empty_class_index = record { prod = []; test = [] }

  -- The index of a package from the rules for production and those for tests only.
  unfoldable pub class_index_of : Context → ClassExportCache → PackageName → PackageClassIndex
  unfolding index_matches
  class_index_of ctx exports pkg =
      index_matches exports pkg
        (ctx.gazelle.rules_by_import (import_of pkg false false)
          ++ ctx.gazelle.rules_by_import (import_of pkg true false))
        empty_class_index

  abbrev pub ClassIndices : Type 0
  ClassIndices = List (PackageName × PackageClassIndex)

  -- buildPackageClassIndex
  unfoldable pub build_package_class_index :
      Context → ClassExportCache → PackageName → ClassIndices → PackageClassIndex × ClassIndices
  unfolding lookup put package_name_dec
  build_package_class_index ctx exports pkg indices = elim (lookup package_name_dec pkg indices) [
    | some pci ↦ (pci, indices)
    | none ↦ let pci = class_index_of ctx exports pkg in (pci, put package_name_dec pkg pci indices)
  ]

  -- The providers that count for the rule: those for tests only behind the others, and for tests only.
  unfoldable pub candidates_of : Bool → Text → PackageClassIndex → List Label
  unfolding providers
  candidates_of is_test name pci =
      if is_test
      then providers name pci.prod ++ providers name pci.test
      else providers name pci.prod

  -- The end of `resolveClassFromCrossResolver`: a set of one label is resolved.
  unfoldable pub single_label : Context → List Label → Label
  single_label ctx [] = no_label
  single_label ctx (l ∷ []) = simplify_label ctx.gazelle.repo_name l ctx.from
  single_label ctx (l ∷ k ∷ ls) = no_label

  unfoldable pub cross_matches : Context → List Label → Option Label
  unfolding place_all single_label
  cross_matches ctx [] = some no_label
  cross_matches ctx (m ∷ ms) =
      let narrowed = try_resolving_to_java_export ctx.index (m ∷ ms) ctx.from in
      let matches : Option (List Label) =
        (if ctx.resolve_to_java_exports then narrowed else some (m ∷ ms)) in
      elim matches [
        | none ↦ none
        | some ls ↦ some (single_label ctx (place_all (label_less lib.to_string) ls []))
      ]

  -- resolveClassFromCrossResolver
  unfoldable pub resolve_class_from_cross_resolver : Context → ClassName → Option Label
  unfolding cross_matches
  resolve_class_from_cross_resolver ctx c =
      cross_matches ctx (ctx.gazelle.rules_by_import (fully_qualified_class_name c))

  -- Several candidates: a single export that covers them counts.
  unfoldable pub narrow_candidates : Context → List Label → Option Label
  unfolding single_label
  narrow_candidates ctx candidates =
      let narrowed = try_resolving_to_java_export ctx.index candidates ctx.from in
      if ctx.resolve_to_java_exports
      then (elim narrowed [ none ↦ none | some ls ↦ some (single_label ctx ls) ])
      else some no_label

  unfoldable pub by_candidates : Context → ClassName → List Label → Option Label
  unfolding narrow_candidates
  by_candidates ctx c [] = resolve_class_from_cross_resolver ctx c
  by_candidates ctx c (l ∷ []) = some (simplify_label ctx.gazelle.repo_name l ctx.from)
  by_candidates ctx c (l ∷ k ∷ ls) = narrow_candidates ctx (l ∷ k ∷ ls)

  -- resolveSingleClass, for a rule that is or is not a test.
  unfoldable pub resolve_single_class :
      Context → ClassExportCache → Bool → ClassName → ClassIndices → Option (Label × ClassIndices)
  unfolding build_package_class_index candidates_of by_candidates
  resolve_single_class ctx exports is_test c indices =
      elim (ctx.gazelle.override (fully_qualified_class_name c)) [
        | some l ↦ some (l, indices)
        | none ↦
            let (pci, indices') = build_package_class_index ctx exports c.package_name indices in
            elim (by_candidates ctx c (candidates_of is_test c.bare_outer_class_name pci)) [
              | none ↦ none
              | some l ↦ some (l, indices')
            ]
      ]

  abbrev pub same_outer_class : ClassName → ClassName → Bool
  same_outer_class c d =
      same_package c.package_name d.package_name
      && same_text c.bare_outer_class_name d.bare_outer_class_name

  -- ruleDeclaresClass
  unfoldable pub rule_declares_class : ClassExportCache → Label → ClassName → Bool
  unfolding lookup text_dec any
  rule_declares_class exports l c = elim (lookup text_dec (cache_key l) exports) [
    | none ↦ false
    | some info ↦ any (λ d. same_outer_class d c) info.classes
  ]

  -- The single rule of a test suite, if its helper library declares the class.
  unfoldable pub helper_match : Context → ClassExportCache → ClassName → List Label → Label
  unfolding rule_declares_class Label-discrete
  helper_match ctx exports c [] = no_label
  helper_match ctx exports c (l ∷ []) =
      if same_label l ctx.from
      then no_label
      else if rule_declares_class exports (helper_of l) c
      then simplify_label ctx.gazelle.repo_name (helper_of l) ctx.from
      else no_label
  helper_match ctx exports c (l ∷ k ∷ ls) = no_label

  -- resolveTestSuiteHelperClass
  unfoldable pub resolve_test_suite_helper_class :
      Context → ClassExportCache → PackageName → ClassName → Label
  unfolding helper_match
  resolve_test_suite_helper_class ctx exports imp c =
      helper_match ctx exports c (ctx.gazelle.rules_by_import (import_of imp true true))
