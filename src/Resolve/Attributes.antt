-- ===== src/Resolve/Attributes.antt =====
-- Filling the attributes of a rule: `populateAttr` of java/gazelle/resolve.go.
--
-- `none` is a log entry at the level Fatal or a panic.
use rules_jvm.Prelude.{
  Bool, true, false, ◌&&◌, not, Option, none, some, List, [], ◌∷◌, map, Text, codes, any, keep,
  if◌then◌else◌, ◌>>=◌,
}
use rules_jvm.Names.{PackageName, ClassName, fully_qualified_class_name}
use rules_jvm.Labels.{Label, LabelLib, no_label}
use rules_jvm.Stdlib.{is_kotlin_stdlib}
use rules_jvm.Config.{has_suffix}
use rules_jvm.SortedSet.View.{place}
use rules_jvm.SortedSet.Label.{label_less}
use rules_jvm.Maven.Resolver.{resolve_class}
use rules_jvm.Resolve.Labels.{Gazelle, Rule, simplify_label, attr_strings, set_label_attr}
use rules_jvm.Resolve.Exports.{same_label}
use rules_jvm.Resolve.Package.{Lru, Context, PackageState, resolve_single_package_with_ambiguity}
use rules_jvm.Resolve.Classes.{
  PackageClassIndex, ClassExportCache, same_package, rule_declares_class, resolve_single_class,
  resolve_class_from_cross_resolver, resolve_test_suite_helper_class,
}

-- ruleHasKotlinSources
unfoldable pub rule_has_kotlin_sources : Rule → Bool
unfolding any has_suffix
rule_has_kotlin_sources r = any (λ s. has_suffix s (codes ".kt")) (attr_strings r (codes "srcs"))

abbrev pub is_no_label : Label → Bool
is_no_label l = same_label l no_label

-- classesByPackage[imp], in the order of the set.
unfoldable pub classes_by_package : PackageName → List ClassName → List ClassName
unfolding keep
classes_by_package imp classes = keep (λ c. same_package c.package_name imp) classes

unfoldable pub has_class_override : Gazelle → ClassName → Bool
has_class_override g c = elim (g.override (fully_qualified_class_name c)) [
  | none ↦ false
  | some _ ↦ true
]

module _ (lib : LabelLib) (lru : Lru) where
  -- What resolving reads besides its Context, and what it changes.
  pub record AttrState : Type 0 where
    pub packages : PackageState lib lru
    pub class_indices : List (PackageName × PackageClassIndex)
    pub labels : List Label
    pub resolved_any : Bool

  unfoldable pub add_label : Label → AttrState → AttrState
  unfolding place label_less
  add_label l s = record s { labels = place (label_less lib.to_string) l s.labels }

  abbrev pub simplified : Context → Label → Label
  simplified ctx l = simplify_label ctx.gazelle.repo_name l ctx.from

  -- The label is added unless it is NoLabel.
  unfoldable pub add_if_found : Context → Label → AttrState → AttrState
  add_if_found ctx l s =
      if is_no_label l then s else record (add_label (simplified ctx l) s) { resolved_any = true }

  -- The body of the two loops over classes: a resolve directive, Maven, and the rules that declare the class or,
  -- where the package was ambiguous, the helper library of a test suite. ResolveClass returns no error.
  unfoldable pub resolve_by_rules :
      Context → ClassExportCache → Bool → PackageName → ClassName → AttrState → Option AttrState
  resolve_by_rules ctx exports with_helpers imp c s =
      elim (resolve_single_class lib ctx exports ctx.is_test_rule c s.class_indices) [
        | none ↦ none
        | some (l, indices) ↦
            let helper = resolve_test_suite_helper_class lib ctx exports imp c in
            some (
              add_if_found ctx
                (if is_no_label l && ctx.is_test_rule && with_helpers then helper else l)
                (record s { class_indices = indices }))
      ]

  unfoldable pub resolve_by_class :
      Context → ClassExportCache → Bool → PackageName → ClassName → AttrState → Option AttrState
  resolve_by_class ctx exports with_helpers imp c s =
      elim (ctx.gazelle.override (fully_qualified_class_name c)) [
        | some l ↦ some (record (add_label (simplified ctx l) s) { resolved_any = true })
        | none ↦
            elim (resolve_class lib ctx.maven c ctx.excluded_artifacts ctx.maven_repository_name) [
              | some l ↦ some (add_if_found ctx l s)
              | none ↦ resolve_by_rules ctx exports with_helpers imp c s
            ]
      ]

  unfoldable pub resolve_by_classes :
      Context
      → ClassExportCache
      → Bool
      → PackageName
      → List ClassName
      → AttrState
      → Option AttrState
  resolve_by_classes ctx exports with_helpers imp [] s = some s
  resolve_by_classes ctx exports with_helpers imp (c ∷ cs) s =
      elim (resolve_by_class ctx exports with_helpers imp c s) [
        | none ↦ none
        | some s' ↦ resolve_by_classes ctx exports with_helpers imp cs s'
      ]

  -- For a test: a rule for tests only, or the helper library of a test suite.
  unfoldable pub probe_for_test :
      Context → ClassExportCache → PackageName → ClassName → AttrState → Option AttrState
  probe_for_test ctx exports imp c s =
      elim (resolve_single_class lib ctx exports true c s.class_indices) [
        | none ↦ none
        | some (l, indices) ↦
            let s' = record s { class_indices = indices } in
            let helper = resolve_test_suite_helper_class lib ctx exports imp c in
            some (
              if is_no_label l
              then (if is_no_label helper then s' else add_label helper s')
              else add_label l s')
      ]

  -- A class of a package that one rule provides, when that rule does not declare it.
  unfoldable pub probe_class :
      Context → ClassExportCache → Label → PackageName → ClassName → AttrState → Option AttrState
  probe_class ctx exports dep imp c s = elim (rule_declares_class lib exports dep c) [
    | true ↦ some s
    | false ↦ elim (resolve_class_from_cross_resolver lib ctx c) [
      | none ↦ none
      | some l ↦ elim (is_no_label l) [
        | false ↦ some (add_label l s)
        | true ↦ elim ctx.is_test_rule [
          | false ↦ some s
          | true ↦ probe_for_test ctx exports imp c s
        ]
      ]
    ]
  ]

  unfoldable pub probe_classes :
      Context
      → ClassExportCache
      → Label
      → PackageName
      → List ClassName
      → AttrState
      → Option AttrState
  probe_classes ctx exports dep imp [] s = some s
  probe_classes ctx exports dep imp (c ∷ cs) s = elim (probe_class ctx exports dep imp c s) [
    | none ↦ none
    | some s' ↦ probe_classes ctx exports dep imp cs s'
  ]

  unfoldable pub log_error : AttrState → AttrState
  log_error s = record s { packages = record s.packages { has_had_errors = true } }

  -- A package with several providers.
  unfoldable pub resolve_ambiguous :
      Context → ClassExportCache → PackageName → List ClassName → AttrState → Option AttrState
  resolve_ambiguous ctx exports imp [] s = some s
  resolve_ambiguous ctx exports imp (c ∷ cs) s =
      elim (resolve_by_classes ctx exports true imp (c ∷ cs) (record s { resolved_any = false })) [
        | none ↦ none
        | some s' ↦ some (if s'.resolved_any then s' else log_error s')
      ]

  -- What follows `resolveSinglePackageWithAmbiguity`.
  unfoldable pub after_package :
      Context
      → ClassExportCache
      → PackageName
      → List ClassName
      → Label × Bool
      → AttrState
      → Option AttrState
  after_package ctx exports imp classes (dep, ambiguous) s = elim (is_no_label dep) [
    | false ↦ probe_classes ctx exports dep imp classes (add_label (simplified ctx dep) s)
    | true ↦ elim ambiguous [ false ↦ some s | true ↦ resolve_ambiguous ctx exports imp classes s ]
  ]

  -- One required package.
  unfoldable pub resolve_import :
      Context
      → ClassExportCache
      → Bool
      → List ClassName
      → PackageName
      → AttrState
      → Option AttrState
  resolve_import ctx exports has_kotlin imported imp s = elim (has_kotlin && is_kotlin_stdlib imp) [
    | true ↦ some s
    | false ↦
        let classes = classes_by_package imp imported in
        elim (any (has_class_override ctx.gazelle) classes) [
          | true ↦ resolve_by_classes ctx exports false imp classes s
          | false ↦
              elim (resolve_single_package_with_ambiguity lib lru ctx imp
                (map (λ (c : ClassName). c.bare_outer_class_name) classes) s.packages) [
                  | none ↦ none
                  | some (answer, packages) ↦
                      after_package ctx exports imp classes answer
                        (record s { packages = packages })
                ]
        ]
  ]

  unfoldable pub resolve_imports :
      Context
      → ClassExportCache
      → Bool
      → List ClassName
      → List PackageName
      → AttrState
      → Option AttrState
  resolve_imports ctx exports has_kotlin imported [] s = some s
  resolve_imports ctx exports has_kotlin imported (imp ∷ imps) s =
      elim (resolve_import ctx exports has_kotlin imported imp s) [
        | none ↦ none
        | some s' ↦ resolve_imports ctx exports has_kotlin imported imps s'
      ]

  -- The last loop: classes of the rule's own packages that it does not declare.
  unfoldable pub resolve_own_class :
      Context → ClassExportCache → ClassName → AttrState → Option AttrState
  resolve_own_class ctx exports c s =
      elim (any (λ p. same_package p c.package_name) ctx.own_package_names
        && not (rule_declares_class lib exports ctx.from c)) [
          | false ↦ some s
          | true ↦ elim (resolve_single_class lib ctx exports ctx.is_test_rule c s.class_indices) [
            | none ↦ none
            | some (l, indices) ↦
                let s' = record s { class_indices = indices } in
                some (if is_no_label l then s' else add_label l s')
          ]
        ]

  unfoldable pub resolve_own_classes :
      Context → ClassExportCache → List ClassName → AttrState → Option AttrState
  resolve_own_classes ctx exports [] s = some s
  resolve_own_classes ctx exports (c ∷ cs) s = elim (resolve_own_class ctx exports c s) [
    | none ↦ none
    | some s' ↦ resolve_own_classes ctx exports cs s'
  ]

  -- populateAttr
  unfoldable pub populate_attr :
      Context
      → ClassExportCache
      → Text
      → List PackageName
      → List ClassName
      → Rule
      → AttrState
      → Option (Rule × AttrState)
  populate_attr ctx exports attr_name required imported r s = do
    s' ←
        resolve_imports ctx exports (rule_has_kotlin_sources r) imported required
          (record s { labels = [] })
    s'' ← resolve_own_classes ctx exports imported s'
    r' ← set_label_attr lib r attr_name s''.labels
    some (r', s'')
