-- ===== src/Generate/Files.antt =====
-- Source files, their classes and their imports (java/gazelle/generate.go). `Filtering` proves which imports
-- count.
--
-- A set is its ascending list. Names of proto files are taken to be in ASCII.
pub mod Filtering
use rules_jvm.Prelude.{
  ℕ, ◌-◌, Bool, true, false, ◌&&◌, ◌||◌, not, Option, none, some, List, [], ◌∷◌, ◌++◌, Text, codes,
  text_dec, text_less, lookup, put, split, has_prefix, length, take, drop, any, keep, leb, is_yes,
  if◌then◌else◌,
}
use rules_jvm.Names.{
  PackageName, ClassName, new_class_name, package_name_dec, package_name_less, class_name_less,
  fully_qualified_class_name, fully_qualified_outer_class_name, parse_class_name,
}
use rules_jvm.SortedSet.View.{place, place_all}
use rules_jvm.Config.{
  Config, Shared, has_suffix, is_java_test_file, attributes_for_annotation, wrapper_for_annotation,
  get_annotation_processor_plugin_classes, get_annotation_processor_extra_imports,
}
use rules_jvm.JavaPackage.{Package, PerClassMetadata, add_values, all_annotations}

abbrev pub slash : ℕ
slash = b'/'

abbrev pub same : Text → Text → Bool
same s t = is_yes (text_dec s t)

unfoldable pub last_part : Text → List Text → Text
last_part d [] = d
last_part d (p ∷ ps) = last_part p ps

-- filepath.Base: the last part that is not empty.
unfoldable pub base : Text → Text
unfolding last_part keep split text_dec
base path =
    last_part (if same path [] then codes "." else codes "/")
      (keep (λ p. not (same p [])) (split slash path))

-- strings.TrimSuffix and strings.TrimPrefix
unfoldable pub trim_suffix : Text → Text → Text
unfolding has_suffix
trim_suffix suffix s = if has_suffix s suffix then take (length s - length suffix) s else s

unfoldable pub trim_prefix : Text → Text → Text
unfolding has_prefix
trim_prefix prefix s = if has_prefix s prefix then drop (length prefix) s else s

pub record JavaFile : Type 0 where
  pub path : Text
  pub pkg : PackageName

unfoldable pub JavaFile-discrete : Discrete JavaFile
unfolding text_dec package_name_dec
JavaFile-discrete = hlevel (text_dec, package_name_dec)

-- javaFile.ClassName
unfoldable pub class_name_of : JavaFile → ClassName
unfolding base trim_suffix has_suffix
class_name_of f =
    let name = base f.path in
    new_class_name f.pkg (
      if has_suffix name (codes ".java")
      then trim_suffix (codes ".java") name
      else if has_suffix name (codes ".kt")
      then trim_suffix (codes ".kt") name
      else name)

unfoldable pub java_file_less : JavaFile → JavaFile → Bool
unfolding text_less
java_file_less l r = text_less l.path r.path

-- protoJavaRuleNames
unfoldable pub proto_java_rule_names : Text → Text × Text × Text
unfolding trim_suffix
proto_java_rule_names name =
    let stem = trim_suffix (codes "_proto") name in
    (stem ++ codes "_java_proto", stem ++ codes "_java_grpc", stem ++ codes "_java_library")

abbrev pub upper : ℕ → ℕ
upper c = if leb b'a' c && leb c b'z' then c - 32 else c

unfoldable pub capitalize : Text → Text
capitalize [] = []
capitalize (c ∷ s) = upper c ∷ s

unfoldable pub capitalize_all : List Text → Text
unfolding capitalize
capitalize_all [] = []
capitalize_all (p ∷ ps) = capitalize p ++ capitalize_all ps

-- snakeToPascalCase
unfoldable pub snake_to_pascal_case : Text → Text
unfolding split capitalize_all
snake_to_pascal_case s = capitalize_all (split b'_' s)

-- protoOuterClassName, of the name of a file and its options.
unfoldable pub proto_outer_class_name : Text → List (Text × Text) → Text
unfolding snake_to_pascal_case last_part split trim_suffix text_dec
proto_outer_class_name name [] =
    let stem = trim_suffix (codes ".proto") (last_part [] (split slash name)) in
    if same stem [] then [] else snake_to_pascal_case stem
proto_outer_class_name name ((k, v) ∷ options) =
    let rest = proto_outer_class_name name options in
    if same k (codes "java_outer_classname") then v else rest

-- The packages and the classes that are added to: `none` is the nil set of classes.
abbrev pub Imports : Type 0
Imports = List PackageName × Option (List ClassName)

-- A class of the rule's own package that the rule has, or one of the default package.
unfoldable pub is_filtered : PackageName → List Text → ClassName → Bool
unfolding package_name_dec any text_dec
is_filtered own locals c =
    (is_yes (package_name_dec own c.package_name) && any (same c.bare_outer_class_name) locals)
    || same c.package_name.name []

unfoldable pub add_import : ClassName → Imports → Imports
unfolding place package_name_less class_name_less
add_import c (to, classes) = (
  place package_name_less c.package_name to,
  elim classes [ none ↦ none | some cs ↦ some (place class_name_less c cs) ],
)

-- addFilteringOutOwnPackage
unfoldable pub add_filtering_out_own_package :
    PackageName → List Text → List ClassName → Imports → Imports
unfolding is_filtered add_import
add_filtering_out_own_package own locals [] to = to
add_filtering_out_own_package own locals (c ∷ cs) to =
    add_filtering_out_own_package own locals cs
      (if is_filtered own locals c then to else add_import c to)

-- addNonLocalImportsAndExports: `none` for the exports is nil.
unfoldable pub add_non_local_imports_and_exports :
    Package
    → List Text
    → List ClassName
    → List PackageName
    → Imports
    → Option Imports
    → Imports × Option Imports
unfolding add_filtering_out_own_package place_all package_name_less
add_non_local_imports_and_exports pkg locals imported packages (to, classes) exports = (
  add_filtering_out_own_package pkg.name locals imported
      (place_all package_name_less packages to, classes),
  elim exports [
    | none ↦ none
    | some e ↦ some (add_filtering_out_own_package pkg.name locals pkg.exported_classes e)
  ],
)

unfoldable pub add_extra_imports :
    List ClassName → List PackageName × List ClassName → List PackageName × List ClassName
unfolding place package_name_less class_name_less
add_extra_imports [] to = to
add_extra_imports (c ∷ cs) (to, classes) =
    add_extra_imports cs
      (place package_name_less c.package_name to, place class_name_less c classes)

-- The loop over the annotations.
unfoldable pub add_annotation_processors :
    Config
    → List ClassName
    → List ClassName × (List PackageName × List ClassName)
    → List ClassName × (List PackageName × List ClassName)
unfolding add_extra_imports place_all class_name_less get_annotation_processor_plugin_classes
    get_annotation_processor_extra_imports
add_annotation_processors cfg [] s = s
add_annotation_processors cfg (a ∷ as_left) (plugins, to) = add_annotation_processors cfg as_left (
  place_all class_name_less (get_annotation_processor_plugin_classes cfg a) plugins,
  add_extra_imports (get_annotation_processor_extra_imports cfg a) to,
)

-- addAnnotationProcessorClassesAndExtraImports: the plugins, the imports for production, and those for tests.
abbrev pub Classed : Type 0
Classed = List PackageName × List ClassName

unfoldable pub add_annotation_processor_classes_and_extra_imports :
    Config → Package → List ClassName → Classed → Classed → List ClassName × Classed × Classed
unfolding add_annotation_processors all_annotations
add_annotation_processor_classes_and_extra_imports cfg pkg plugins production test =
    let for_test = add_annotation_processors cfg (all_annotations pkg) (plugins, test) in
    let for_production =
      add_annotation_processors cfg (all_annotations pkg) (plugins, production) in
    if pkg.test_package
    then (for_test.0, production, for_test.1)
    else (for_production.0, for_production.1, test)

-- separateJavaTestReasons
pub record Reasons (Expr : Type 0) : Type 0 where
  pub attributes : List (Text × Expr)
  pub wrapper : Text

-- The sets of files that are filled.
pub record Accumulated (Expr : Type 0) : Type 0 where
  pub test_files : List JavaFile
  pub test_helper_files : List JavaFile
  pub separate : List (JavaFile × Reasons Expr)

-- The annotations of a file's classes and of their methods. A name that is no class name is logged.
module _ (is_upper : ℕ → Bool) where
  unfoldable pub annotations_of_file :
      JavaFile → List (Text × PerClassMetadata) → List ClassName → List ClassName
  unfolding parse_class_name fully_qualified_outer_class_name add_values place_all class_name_less
      class_name_of text_dec
  annotations_of_file f [] set = set
  annotations_of_file f ((name, m) ∷ ms) set =
      annotations_of_file f ms (elim (parse_class_name is_upper name) [
        | none ↦ set
        | some c ↦
            let added =
              add_values m.method_annotation_class_names
                (place_all class_name_less m.annotation_class_names set) in
            if same (fully_qualified_outer_class_name c)
              (fully_qualified_outer_class_name (class_name_of f))
            then added
            else set
      ])

  module _ {Expr : Type 0} where
    unfoldable pub put_attributes : List (Text × Expr) → List (Text × Expr) → List (Text × Expr)
    unfolding put text_dec
    put_attributes [] attrs = attrs
    put_attributes ((k, v) ∷ kvs) attrs = put_attributes kvs (put text_dec k v attrs)

    -- The loop over the annotations.
    unfoldable pub reasons_of : Shared Expr → List ClassName → Reasons Expr → Reasons Expr
    unfolding put_attributes attributes_for_annotation wrapper_for_annotation
    reasons_of shared [] r = r
    reasons_of shared (a ∷ rest) r =
        let name = fully_qualified_class_name a in
        reasons_of shared rest (record {
          attributes = elim (attributes_for_annotation shared name) [
            | none ↦ r.attributes
            | some kvs ↦ put_attributes kvs r.attributes
          ];
          wrapper = elim (wrapper_for_annotation shared name) [ none ↦ r.wrapper | some w ↦ w ];
        })

    unfoldable pub has_reasons : Reasons Expr → Bool
    unfolding text_dec
    has_reasons r = elim r.attributes [ [] ↦ not (same r.wrapper []) | _ ∷ _ ↦ true ]

    -- accumulateJavaFile
    unfoldable pub accumulate_java_file :
        List Text
        → Config
        → Shared Expr
        → JavaFile
        → List (Text × PerClassMetadata)
        → Accumulated Expr
        → Accumulated Expr
    unfolding base is_java_test_file annotations_of_file reasons_of has_reasons place java_file_less
        JavaFile-discrete put
    accumulate_java_file defaults cfg shared f metadata s =
        let reasons =
          reasons_of shared (annotations_of_file f metadata [])
            (record { attributes = []; wrapper = [] }) in
        let test = record s { test_files = place java_file_less f s.test_files } in
        if is_java_test_file defaults cfg (base f.path)
        then (if has_reasons reasons
            then record test { separate = put JavaFile-discrete f reasons s.separate }
            else test)
        else record s { test_helper_files = place java_file_less f s.test_helper_files }
