-- ===== src/Resolve/Rules.antt =====
-- Resolving a whole rule: `Resolve` of java/gazelle/resolve.go, and what it does for associates and plugins
-- (java/gazelle/resolve.go, java/gazelle/resolve_associates.go). `Associates` proves how dependencies become
-- associates.
--
-- `Abs` of the label library is a parameter. `none` is a log entry at the level Fatal or a panic.
pub mod Associates
use rules_jvm.Prelude.{
  ℕ, Bool, true, false, ◌&&◌, not, Option, none, some, List, [], ◌∷◌, ◌++◌, map, Text, codes,
  text_dec, any, keep, if◌then◌else◌, ◌>>=◌, ◌==◌,
}
use rules_jvm.Names.{PackageName, ClassName, fully_qualified_class_name}
use rules_jvm.Labels.{Label, LabelLib, Label-discrete}
use rules_jvm.SortedSet.View.{place}
use rules_jvm.SortedSet.Label.{label_less}
use rules_jvm.ExportIndex.{ResolveInput, visibility_for_label}
use rules_jvm.Kinds.{KindMap, is_java_library}
use rules_jvm.Resolve.Labels.{
  Gazelle, Rule, simplify_label, same_text, attr_strings, set_attr, del_attr, set_label_attr,
}
use rules_jvm.Resolve.Exports.{same_label}
use rules_jvm.Resolve.Package.{
  Lru, Context, PackageState, import_of, resolve_single_package_with_ambiguity,
}
use rules_jvm.Resolve.Classes.{ClassExportCache, cache_key}
use rules_jvm.Resolve.Attributes.{
  AttrState, rule_has_kotlin_sources, is_no_label, add_label, populate_attr,
}

abbrev pub slash : ℕ
slash = b'/'

abbrev pub dot : ℕ
dot = b'.'

abbrev pub dollar : ℕ
dollar = b'$'

abbrev pub underscore : ℕ
underscore = b'_'

-- strings.Replacer, from the characters to the underscore.
unfoldable pub underscored : List ℕ → Text → Text
unfolding any
underscored from s = map (λ c. if any (λ d. d == c) from then underscore else c) s

abbrev pub associates : Text
associates = codes "associates"

abbrev pub deps : Text
deps = codes "deps"

-- `deps` without the associates: an empty list is no attribute.
unfoldable pub write_kept : List Text → Rule → Rule
unfolding del_attr set_attr
write_kept [] r = del_attr deps r
write_kept (k ∷ ks) r = set_attr deps (k ∷ ks) r

-- With associates and without: a leaf names its module.
unfoldable pub write_module : Label → List Text → List Text → Rule → Rule
unfolding underscored write_kept
write_module from [] kept r = record (del_attr associates r) {
  module_name = some (underscored (slash ∷ []) from.pkg);
}
write_module from (a ∷ rest) kept r =
    write_kept kept (record (set_attr associates (a ∷ rest) r) { module_name = none })

-- What the rule for tests depends on, without its associates.
unfoldable pub drop_from_deps : List Text → List Text → Rule → Rule
unfolding write_kept any keep
drop_from_deps set [] r = r
drop_from_deps set (d ∷ ds) r =
    write_kept (keep (λ x. not (any (λ a. same_text a x) set)) (d ∷ ds)) r

module _ (lib : LabelLib) (abs : Label → Text → Text → Label) where
  -- Whether a dependency is a Kotlin library of the same Bazel package.
  unfoldable pub is_module_library : List Text → Label → Text → Bool
  unfolding any text_dec
  is_module_library kotlin_libraries from dep = elim (lib.parse dep) [
    | none ↦ false
    | some l ↦
        let a = abs l from.repo from.pkg in
        same_text a.repo from.repo
        && same_text a.pkg from.pkg
        && any (same_text (cache_key lib a)) kotlin_libraries
  ]

  -- populateProductionAssociatesAttr
  unfoldable pub populate_production_associates_attr : Text → List Text → Label → Rule → Rule
  unfolding keep attr_strings
  populate_production_associates_attr granularity kotlin_libraries from r =
      let is_friend = is_module_library kotlin_libraries from in
      let old = attr_strings r deps in
      if same_text granularity (codes "scc")
      then write_module from (keep is_friend old) (keep (λ d. not (is_friend d)) old) r
      else r

  -- The loop of `populateAssociatesAttr`: the one other rule that provides the package.
  unfoldable pub add_counterpart : Context → List Label → List Label → List Label
  unfolding place label_less Label-discrete
  add_counterpart ctx [] labels = labels
  add_counterpart ctx (l ∷ []) labels =
      if same_label l ctx.from
      then labels
      else place (label_less lib.to_string) (simplify_label ctx.gazelle.repo_name l ctx.from) labels
  add_counterpart ctx (l ∷ k ∷ ls) labels = labels

  unfoldable pub counterparts : Context → List PackageName → List Label → List Label
  counterparts ctx [] labels = labels
  counterparts ctx (p ∷ ps) labels =
      counterparts ctx ps
        (add_counterpart ctx (ctx.gazelle.rules_by_import (import_of p false false)) labels)

  unfoldable pub write_associates : List Label → Rule → Rule
  write_associates [] r = r
  write_associates (l ∷ ls) r =
      let strings = map lib.to_string (l ∷ ls) in
      drop_from_deps strings (attr_strings r deps) (set_attr associates strings r)

  -- populateAssociatesAttr
  unfoldable pub populate_associates_attr :
      Context → Text → List Text → List PackageName → Rule → Rule
  populate_associates_attr ctx granularity kotlin_libraries packages r =
      let for_test = write_associates (counterparts ctx packages []) r in
      let for_production =
        populate_production_associates_attr granularity kotlin_libraries ctx.from r in
      if rule_has_kotlin_sources r
      then (if ctx.is_test_rule then for_test else for_production)
      else r

  -- The name of the java_plugin of a processor.
  unfoldable pub plugin_of : ClassName → Label → Label
  plugin_of c l = record l {
    name =
        l.name
        ++ codes "__java_plugin__"
        ++ underscored (dot ∷ dollar ∷ []) (fully_qualified_class_name c);
  }

  module _ (lru : Lru) where
    unfoldable pub resolve_plugins :
        Context → List ClassName → AttrState lib lru → Option (AttrState lib lru)
    resolve_plugins ctx [] s = some s
    resolve_plugins ctx (c ∷ cs) s =
        elim (resolve_single_package_with_ambiguity lib lru ctx c.package_name
          (c.bare_outer_class_name ∷ []) s.packages) [
            | none ↦ none
            | some ((dep, _), packages) ↦
                let s' = record s { packages = packages } in
                resolve_plugins ctx cs (
                  if is_no_label dep
                  then s'
                  else add_label lib lru
                      (simplify_label ctx.gazelle.repo_name (plugin_of c dep) ctx.from) s')
          ]

    -- populatePluginsAttr
    unfoldable pub populate_plugins_attr :
        Context → List ClassName → Rule → AttrState lib lru → Option (Rule × AttrState lib lru)
    populate_plugins_attr ctx processors r s = do
      s' ← resolve_plugins ctx processors (record s { labels = [] })
      r' ← set_label_attr lib r (codes "plugins") s'.labels
      some (r', s')

    -- A library that an export covers is visible as the export says.
    unfoldable pub set_visibility : Context → KindMap → Rule → Option Rule
    set_visibility ctx kinds r =
        elim (ctx.resolve_to_java_exports && is_java_library kinds r.kind) [
          | false ↦ some r
          | true ↦ elim (visibility_for_label lib ctx.index ctx.from) [
            | none ↦ none
            | some none ↦ some r
            | some (some ls) ↦ some (
                set_attr (codes "visibility") (map lib.to_string ls)
                  (del_attr (codes "visibility") r))
          ]
        ]

    -- Resolve
    unfoldable pub resolve_rule :
        Context
        → ClassExportCache
        → KindMap
        → Text
        → List Text
        → ResolveInput
        → Rule
        → AttrState lib lru
        → Option (Rule × AttrState lib lru)
    resolve_rule ctx exports kinds granularity kotlin_libraries input r s = do
      visible ← set_visibility ctx kinds r
      after_deps ←
          populate_attr lib lru ctx exports deps input.imported_package_names input.imported_classes
            visible s
      after_exports ←
          populate_attr lib lru ctx exports (codes "exports") input.exported_package_names
            input.exported_class_names after_deps.0 after_deps.1
      let r' =
          populate_associates_attr ctx granularity kotlin_libraries input.package_names
            after_exports.0
      populate_plugins_attr ctx input.annotation_processors r' after_exports.1
