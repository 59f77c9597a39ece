-- ===== src/Generate/Testing.antt =====
-- The rules for tests of a directory (`GenerateRules` of java/gazelle/generate.go): one for each file, or a suite.
-- `none` is a log entry at the level Fatal or a panic.
use rules_jvm.Prelude.{
  Bool, true, false, not, Option, none, some, List, [], ◌∷◌, ◌++◌, map, Text, codes, text_dec,
  text_less, lookup, put, any, keep, if◌then◌else◌,
}
use rules_jvm.Prelude.Sort.{sort, insert}
use rules_jvm.Names.{PackageName, ClassName, class_name_less}
use rules_jvm.Labels.{LabelLib}
use rules_jvm.SortedSet.View.{equiv, place, place_all}
use rules_jvm.Config.{Config, is_text}
use rules_jvm.Loads.{map_library_name, map_test_suite_name}
use rules_jvm.Scc.{or_empty}
use rules_jvm.Generate.Files.{
  JavaFile, JavaFile-discrete, Reasons, base, trim_prefix, java_file_less,
}
use rules_jvm.Generate.Libraries.{Generation, LibraryArgs, generate_java_library}
use rules_jvm.Generate.TestRules.{test_helper_libname, generate_java_test, generate_java_test_suite}
use rules_jvm.Generate.Gather.{Gathered, non_local_packages}
use rules_jvm.Generate.Setting.{
  GenerateArgs, library_kind, aggregates, packages_of_files, classes_of_files,
}

module _ (lib : LabelLib) {Expr : Type 0} where
  abbrev pub reasons_for : JavaFile → List (JavaFile × Reasons Expr) → Reasons Expr
  reasons_for f m = elim (lookup JavaFile-discrete f m) [
    | none ↦ record { attributes = []; wrapper = [] }
    | some r ↦ r
  ]

  -- The declared classes of helpers that no test file has.
  unfoldable pub helper_classes : Gathered Expr → List ClassName
  unfolding keep any class_name_less
  helper_classes g =
      keep (λ c. not (any (λ d. equiv class_name_less d c) g.test_file_classes))
        g.helper_declared_classes

  abbrev pub helper_args : Config → Text → List Text → Gathered Expr → LibraryArgs
  helper_args cfg rel files g = record {
    rel = rel;
    library_kind = library_kind cfg files;
    name = map_library_name cfg (base rel);
    srcs = map (λ (f : JavaFile). f.path) g.accumulated.test_helper_files;
    resources_direct_ref = [];
    resources_runtime_dep = [];
    packages = packages_of_files g.accumulated.test_helper_files [];
    imports = g.test.0;
    imported_classes = or_empty g.test.1;
    exports = non_local_packages g.all_package_names g.exports.0;
    exported_classes = some (helper_classes g);
    external_exported_classes = [];
    annotation_processors = g.annotation_processors;
    test_only = true;
  }

  -- What tests import: with a library of helpers, their packages and classes too.
  unfoldable pub test_imports : Bool → Gathered Expr → List PackageName × List ClassName
  unfolding packages_of_files classes_of_files or_empty
  test_imports with_helpers g =
      if with_helpers
      then (
        packages_of_files g.accumulated.test_helper_files g.test.0,
        classes_of_files g.accumulated.test_helper_files (or_empty g.test.1),
      )
      else (g.test.0, or_empty g.test.1)

  -- A test for each of the files.
  unfoldable pub generate_tests :
      Config
      → GenerateArgs
      → Gathered Expr
      → List PackageName × List ClassName
      → Option Text
      → List JavaFile
      → Generation Expr
      → Option (Generation Expr)
  unfolding generate_java_test aggregates lookup JavaFile-discrete
  generate_tests cfg args g imports helper [] gen = some gen
  generate_tests cfg args g imports helper (f ∷ fs) gen =
      let reasons = reasons_for f g.accumulated.separate in
      elim (generate_java_test lib args.file args.rel cfg.maven_repository_name f (aggregates cfg)
        imports.0 imports.1 g.annotation_processors helper reasons.wrapper reasons.attributes gen) [
          | none ↦ none
          | some gen' ↦ generate_tests cfg args g imports helper fs gen'
        ]

  -- The mode "file": a library of the helpers, and the tests.
  unfoldable pub generate_test_files :
      Config
      → Bool
      → GenerateArgs
      → List Text
      → Gathered Expr
      → Generation Expr
      → Option (Generation Expr)
  unfolding generate_java_library generate_tests test_imports library_kind map_library_name base
      packages_of_files or_empty non_local_packages helper_classes
  generate_test_files cfg to_exports args files g gen = elim g.accumulated.test_helper_files [
    | [] ↦ generate_tests cfg args g (test_imports false g) none g.accumulated.test_files gen
    | _ ∷ _ ↦
        elim (generate_java_library lib to_exports args.file (helper_args cfg args.rel files g)
          gen) [
            | none ↦ none
            | some gen' ↦
                generate_tests cfg args g (test_imports true g) none g.accumulated.test_files gen'
          ]
  ]

  abbrev pub has_helpers : Gathered Expr → Bool
  has_helpers g = elim g.accumulated.test_helper_files [ [] ↦ false | _ ∷ _ ↦ true ]

  -- The files of a suite: all but those that get a test of their own.
  unfoldable pub suite_files : List (JavaFile × Reasons Expr) → List JavaFile → List JavaFile
  unfolding lookup JavaFile-discrete
  suite_files separate [] = []
  suite_files separate (f ∷ fs) =
      let rest = suite_files separate fs in
      elim (lookup JavaFile-discrete f separate) [ some _ ↦ rest | none ↦ f ∷ rest ]

  -- The classes of the helper library that the macro of a suite makes.
  unfoldable pub cache_helpers : Text → Text → Gathered Expr → Generation Expr → Generation Expr
  unfolding put text_dec test_helper_libname classes_of_files helper_classes place_all
      class_name_less
  cache_helpers rel suite g gen = elim g.accumulated.test_helper_files [
    | [] ↦ gen
    | _ ∷ _ ↦ record gen {
      class_export_cache =
          put text_dec (lib.to_string (lib.new [] rel (test_helper_libname suite)))
            (record {
              classes =
                  place_all class_name_less (helper_classes g)
                    (classes_of_files g.accumulated.test_helper_files []);
              testonly = true;
            })
            gen.class_export_cache;
    }
  ]

  abbrev pub all_test_files : Gathered Expr → List JavaFile
  all_test_files g =
      place_all java_file_less g.accumulated.test_helper_files g.accumulated.test_files

  abbrev pub suite_srcs : Text → Gathered Expr → List Text
  suite_srcs rel g = sort text_less (
      map (λ (f : JavaFile). trim_prefix (rel ++ codes "/") f.path)
        (suite_files g.accumulated.separate (all_test_files g)))

  unfoldable pub generate_suite_rule :
      Config
      → GenerateArgs
      → Text
      → Gathered Expr
      → List Text
      → Generation Expr
      → Option (Generation Expr)
  unfolding generate_java_test_suite cache_helpers packages_of_files place_all java_file_less
      test_imports
  generate_suite_rule cfg args suite g [] gen = some gen
  generate_suite_rule cfg args suite g (s ∷ ss) gen =
      elim (generate_java_test_suite lib args.file suite (s ∷ ss)
        (packages_of_files (all_test_files g) []) cfg.maven_repository_name (test_imports false g).0
        (test_imports false g).1 g.annotation_processors cfg.custom_test_file_suffixes
        (has_helpers g) gen) [
          | none ↦ none
          | some gen' ↦ some (cache_helpers args.rel suite g gen')
        ]

  -- The mode "suite": the suite, and tests for the files with attributes of their own.
  unfoldable pub generate_suite :
      Config → GenerateArgs → Gathered Expr → Generation Expr → Option (Generation Expr)
  unfolding generate_suite_rule suite_files sort insert text_less trim_prefix generate_tests
      test_imports map_test_suite_name base aggregates place_all place java_file_less
      test_helper_libname
  generate_suite cfg args g gen =
      let suite = map_test_suite_name cfg (base args.rel) (aggregates cfg) in
      let helper = if has_helpers g then some (test_helper_libname suite) else none in
      let separate =
        place_all java_file_less (map (λ (e : JavaFile × Reasons Expr). e.0) g.accumulated.separate)
          [] in
      elim (generate_suite_rule cfg args suite g (suite_srcs args.rel g) gen) [
        | none ↦ none
        | some gen' ↦ generate_tests cfg args g (test_imports false g) helper separate gen'
      ]

  -- The rules for tests. Without files of tests or helpers there is nothing to do.
  unfoldable pub generate_all_tests :
      Config
      → Bool
      → GenerateArgs
      → List Text
      → Gathered Expr
      → Generation Expr
      → Option (Generation Expr)
  unfolding generate_test_files generate_suite place_all place java_file_less text_dec
  generate_all_tests cfg to_exports args files g gen = elim (all_test_files g) [
    | [] ↦ some gen
    | _ ∷ _ ↦ elim (is_text cfg.test_mode (codes "file")) [
      | true ↦ generate_test_files cfg to_exports args files g gen
      | false ↦ elim (is_text cfg.test_mode (codes "suite")) [
        | true ↦ generate_suite cfg args g gen
        | false ↦ some gen
      ]
    ]
  ]
