-- ===== src/Generate/TestRules.antt =====
-- The rules for binaries and tests (java/gazelle/generate.go).
use rules_jvm.Prelude.{
  Bool, true, false, ◌||◌, not, Option, none, some, List, [], ◌∷◌, ◌++◌, map, Text, codes, text_dec,
  has_prefix, any, is_yes, if◌then◌else◌, ◌>>=◌, ◌==◌,
}
use rules_jvm.Names.{
  PackageName, ClassName, new_package_name, package_name_dec, package_name_less,
  fully_qualified_class_name,
}
use rules_jvm.Names.Resolvable.{new_resolvable_java_package}
use rules_jvm.Labels.{Label, LabelLib}
use rules_jvm.SortedSet.View.{place, place_all}
use rules_jvm.SortedSet.Label.{label_less}
use rules_jvm.Generate.Files.{JavaFile, class_name_of, same, trim_prefix}
use rules_jvm.Generate.Libraries.{
  File, Generation, runtime_deps, srcs, list_attr, input_of, new_rule, collect_runtime_deps,
  add_artifacts, runtime_attr,
}

unfoldable pub imports_junit4 : List PackageName → Bool
unfolding any package_name_dec
imports_junit4 imports =
    any (λ p. is_yes (package_name_dec p (new_package_name (codes "org.junit")))) imports

unfoldable pub imports_junit_pioneer : PackageName → Bool
unfolding has_prefix
imports_junit_pioneer p = has_prefix p.name (codes "org.junitpioneer.")

unfoldable pub imports_junit5 : List PackageName → Bool
unfolding any package_name_dec imports_junit_pioneer
imports_junit5 imports =
    any (λ p. is_yes (package_name_dec p (new_package_name (codes "org.junit.jupiter.api"))))
      imports
    || any (λ p. is_yes (package_name_dec p (new_package_name (codes "org.junit.jupiter.params"))))
        imports
    || any imports_junit_pioneer imports

abbrev pub junit5_runtime_deps : List Text
junit5_runtime_deps =
    codes "org.junit.jupiter:junit-jupiter-engine"
    ∷ codes "org.junit.platform:junit-platform-launcher"
    ∷ codes "org.junit.platform:junit-platform-reporting"
    ∷ []

unfoldable pub test_helper_libname : Text → Text
test_helper_libname target_name = target_name ++ codes "-test-lib"

-- With the package in the name: dots are underscores.
unfoldable pub test_name : Bool → ClassName → Text
unfolding fully_qualified_class_name
test_name with_package c =
    if with_package
    then map (λ x. if x == b'.' then b'_' else x) (fully_qualified_class_name c)
    else c.bare_outer_class_name

-- The artifacts that a suite runs with.
unfoldable pub suite_artifacts : List PackageName → List Text
unfolding imports_junit5 imports_junit4
suite_artifacts imports =
    if imports_junit5 imports
    then (if imports_junit4 imports
        then junit5_runtime_deps ++ codes "org.junit.vintage:junit-vintage-engine" ∷ []
        else junit5_runtime_deps)
    else []

module _ (lib : LabelLib) {Expr : Type 0} where
  -- generateJavaBinary
  unfoldable pub generate_java_binary :
      Option File → ClassName → Text → Bool → Generation Expr → Option (Generation Expr)
  unfolding collect_runtime_deps list_attr place label_less fully_qualified_class_name
  generate_java_binary file m lib_name testonly g = do
    deps ← collect_runtime_deps lib m.bare_outer_class_name file
    let own : Label = record { repo = []; pkg = []; name = lib_name; relative = true }
    some (record g {
      gen =
          g.gen
          ++ record (new_rule (codes "java_binary") m.bare_outer_class_name) {
            lists = list_attr (codes "visibility") (codes "//visibility:public" ∷ []) (
                list_attr runtime_deps
                  (map lib.to_string (place (label_less lib.to_string) own deps)) []);
            strings = (codes "main_class", fully_qualified_class_name m) ∷ [];
            test_only = testonly;
          }
            ∷ [];
      imports = g.imports ++ input_of (m.package_name ∷ []) [] [] [] ∷ [];
    })

  -- generateJavaTest: the repository of Maven, the file, the imports, what the test depends on for its
  -- helpers, the wrapper and the attributes of its annotations.
  unfoldable pub generate_java_test :
      Option File
      → Text
      → Text
      → JavaFile
      → Bool
      → List PackageName
      → List ClassName
      → List ClassName
      → Option Text
      → Text
      → List (Text × Expr)
      → Generation Expr
      → Option (Generation Expr)
  unfolding collect_runtime_deps add_artifacts imports_junit5 runtime_attr list_attr test_name
      trim_prefix class_name_of fully_qualified_class_name place package_name_less text_dec
  generate_java_test file rel repository f with_package imports classes processors helper wrapper
        attributes g =
      let kind = (if imports_junit5 imports then codes "java_junit5_test" else codes "java_test") in
      let wrapped = not (same wrapper []) in
      let name = test_name with_package (class_name_of f) in
      (do
        deps ← collect_runtime_deps lib name file
        let all_deps =
            (if imports_junit5 imports
              then add_artifacts lib repository junit5_runtime_deps deps
              else deps)
        let own = list_attr srcs (trim_prefix (rel ++ codes "/") f.path ∷ []) []
        let with_helper : List (Text × List Text) = elim helper [
          | none ↦ own
          | some h ↦ list_attr (codes "deps") (h ∷ []) own
        ]
        some (record g {
          gen =
              g.gen
              ++ record (new_rule (if wrapped then wrapper else kind) name) {
                lists = runtime_attr lib all_deps with_helper;
                strings = (codes "test_class", fully_qualified_class_name (class_name_of f)) ∷ [];
                exprs = attributes;
                arg = if wrapped then some kind else none;
                packages = new_resolvable_java_package f.pkg true false ∷ [];
              }
                ∷ [];
          imports =
              g.imports
              ++ input_of (f.pkg ∷ []) (place package_name_less f.pkg imports) classes processors
                ∷ [];
        }))

  -- generateJavaTestSuite
  unfoldable pub generate_java_test_suite :
      Option File
      → Text
      → List Text
      → List PackageName
      → Text
      → List PackageName
      → List ClassName
      → List ClassName
      → Option (List Text)
      → Bool
      → Generation Expr
      → Option (Generation Expr)
  unfolding collect_runtime_deps add_artifacts suite_artifacts imports_junit5 runtime_attr list_attr
      place_all package_name_less
  generate_java_test_suite file name sources packages repository imports classes processors suffixes
        has_helpers g =
      do
        deps ← collect_runtime_deps lib name file
        let lists =
            runtime_attr lib (add_artifacts lib repository (suite_artifacts imports) deps)
              (list_attr srcs sources [])
        some (record g {
          gen =
              g.gen
              ++ record (new_rule (codes "java_test_suite") name) {
                lists = elim suffixes [
                  | none ↦ lists
                  | some ss ↦ list_attr (codes "test_suffixes") ss lists
                ];
                strings =
                    if imports_junit5 imports then (codes "runner", codes "junit5") ∷ [] else [];
                packages =
                    if has_helpers
                    then map (λ p. new_resolvable_java_package p true true) packages
                    else [];
              }
                ∷ [];
          imports =
              g.imports
              ++ input_of packages (place_all package_name_less packages imports) classes processors
                ∷ [];
        })
