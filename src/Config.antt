-- ===== src/Config.antt =====
-- The configuration of a directory (java/gazelle/javaconfig/config.go). `Granularity` is about the roots
-- of modules along a path of directories, `Annotations` about the maps by annotation and the patterns of
-- test files, `Directives` applies the directives of a build file, `SourceSet` detects source sets, and `Flags` reads flags.
--
-- `NewChild` copies most fields, and shares three by reference: the two maps of the annotations and the
-- late value of resolveToJavaExports. All configurations that come from one `New` have the same three, so
-- they are one state, `Shared`, that the operations on them read and write. The pointer to the parent is
-- read by `SetModuleGranularity` only, which takes what it points to. The expressions of Bazel files and
-- the default patterns of test files, which the build generates, are parameters.
pub mod Granularity
pub mod Annotations
pub mod Directives
pub mod SourceSet
pub mod Flags
use rules_jvm.Prelude.{
  ℕ, suc, ◌-◌, ◌≡◌, refl, ite, Bool, true, false, ◌&&◌, ◌||◌, Option, none, some, List, [], ◌∷◌,
  ◌++◌, Text, codes, text_dec, lookup, put, any, split, has_prefix, length, drop, leb, is_yes,
  if◌then◌else◌,
}
use rules_jvm.Names.{ClassName, fully_qualified_class_name, class_name_less}
use rules_jvm.Names.Late.{LateInit, new_late_init, initialize}
use rules_jvm.SortedSet.View.{place}

-- A map from the names of annotations to sets of classes, the sets as their ascending lists.
abbrev pub ClassSets : Type 0
ClassSets = List (Text × List ClassName)

-- The fields that a child copies, and those it starts anew.
pub record Config : Type 0 where
  pub extension_enabled : Bool
  pub is_module_root : Bool
  pub generate_proto : Bool
  pub generate_proto_services : Bool
  pub generate_binary : Bool
  pub generate_resources : Bool
  pub kotlin_enabled : Bool
  pub maven_install_file : Text
  pub maven_index_file : Text
  pub module_granularity : Text
  pub repo_root : Text
  pub test_mode : Text
  pub custom_test_file_suffixes : Option (List Text)
  pub excluded_artifacts : List (Text × Unit {0})
  pub maven_repository_name : Text
  pub plugin_classes : ClassSets
  pub extra_imports : ClassSets
  pub sourceset_root : Text
  pub strip_resources_prefix : Text
  pub library_naming_convention : Text
  pub test_suite_naming_convention : Text
  pub test_only : Bool

pub record Shared (Expr : Type 0) : Type 0 where
  pub annotation_to_attribute : List (Text × List (Text × Expr))
  pub annotation_to_wrapper : List (Text × Text)
  pub resolve_to_java_exports : LateInit Bool

abbrev pub dirname_template : Text
dirname_template = codes "{dirname}"

-- New
unfoldable pub new : Text → Config
new root = record {
  extension_enabled = true;
  is_module_root = false;
  generate_proto = true;
  generate_proto_services = true;
  generate_binary = true;
  generate_resources = true;
  kotlin_enabled = true;
  maven_install_file = codes "maven_install.json";
  maven_index_file = codes "maven_index.json";
  module_granularity = codes "package";
  repo_root = root;
  test_mode = codes "suite";
  custom_test_file_suffixes = none;
  excluded_artifacts = [];
  maven_repository_name = codes "maven";
  plugin_classes = [];
  extra_imports = [];
  sourceset_root = [];
  strip_resources_prefix = [];
  library_naming_convention = dirname_template;
  test_suite_naming_convention = dirname_template;
  test_only = false;
}

unfoldable pub new_shared : {Expr : Type 0} → Shared Expr
unfolding new_late_init
new_shared = record {
  annotation_to_attribute = [];
  annotation_to_wrapper = [];
  resolve_to_java_exports = new_late_init true;
}

-- NewChild: the two fields about resources and the mark of a module root are not inherited.
unfoldable pub new_child : Config → Config
new_child c = record c { is_module_root = false; sourceset_root = []; strip_resources_prefix = [] }

abbrev pub module_text : Text
module_text = codes "module"

abbrev pub package_text : Text
package_text = codes "package"

abbrev pub scc_text : Text
scc_text = codes "scc"

abbrev pub is_text : Text → Text → Bool
is_text s t = is_yes (text_dec s t)

-- c.parent == nil || c.parent.moduleGranularity == "package"
unfoldable pub starts_module : Option Config → Bool
unfolding text_dec
starts_module none = true
starts_module (some parent) = is_text parent.module_granularity package_text

-- SetModuleGranularity: the parent first; `none` is the error.
unfoldable pub set_module_granularity : Option Config → Text → Config → Option Config
set_module_granularity parent granularity c =
    let root =
      (if is_text granularity module_text || is_text granularity scc_text
        then (if starts_module parent then true else c.is_module_root)
        else c.is_module_root) in
    if is_text granularity module_text
      || is_text granularity package_text
      || is_text granularity scc_text
    then some (record c { is_module_root = root; module_granularity = granularity })
    else none

-- SetTestMode
unfoldable pub set_test_mode : Text → Config → Option Config
unfolding text_dec
set_test_mode mode c =
    if is_text mode (codes "file") || is_text mode (codes "suite")
    then some (record c { test_mode = mode })
    else none

-- strings.HasSuffix
unfoldable pub has_suffix : Text → Text → Bool
unfolding text_dec
has_suffix s suffix =
    leb (length suffix) (length s) && is_text (drop (length s - length suffix) s) suffix

-- IsJavaTestFile, with the patterns that the build generates.
unfoldable pub is_java_test_file : List Text → Config → Text → Bool
unfolding any has_suffix
is_java_test_file defaults c basename = elim c.custom_test_file_suffixes [
  | none ↦ any (has_suffix basename) defaults
  | some suffixes ↦ any (has_suffix basename) suffixes
]

unfoldable pub equal_string_slices : List Text → List Text → Bool
unfolding text_dec
equal_string_slices [] [] = true
equal_string_slices [] (_ ∷ _) = false
equal_string_slices (_ ∷ _) [] = false
equal_string_slices (l ∷ ls) (r ∷ rs) = is_text l r && equal_string_slices ls rs

-- SetJavaTestFileSuffixes
unfoldable pub set_java_test_file_suffixes : List Text → Text → Config → Config
unfolding split equal_string_slices
set_java_test_file_suffixes defaults s c =
    let suffixes = split b',' s in
    if equal_string_slices suffixes defaults
    then record c { custom_test_file_suffixes = none }
    else record c { custom_test_file_suffixes = some suffixes }

unfoldable pub add_excluded_artifact : Text → Config → Config
unfolding put text_dec
add_excluded_artifact s c = record c { excluded_artifacts = put text_dec s tt c.excluded_artifacts }

-- The body of the two `Add` methods on a map from annotations to classes.
unfoldable pub add_class : ClassName → ClassName → ClassSets → ClassSets
unfolding lookup put text_dec place
add_class annotation class_name m =
    let key = fully_qualified_class_name annotation in
    elim (lookup text_dec key m) [
      | none ↦ put text_dec key (class_name ∷ []) (put text_dec key [] m)
      | some classes ↦ put text_dec key (place class_name_less class_name classes) m
    ]

unfoldable pub classes_of : ClassName → ClassSets → List ClassName
unfolding lookup text_dec
classes_of annotation m = elim (lookup text_dec (fully_qualified_class_name annotation) m) [
  | none ↦ []
  | some classes ↦ classes
]

unfoldable pub add_annotation_processor_plugin : ClassName → ClassName → Config → Config
add_annotation_processor_plugin annotation processor c = record c {
  plugin_classes = add_class annotation processor c.plugin_classes;
}

unfoldable pub get_annotation_processor_plugin_classes : Config → ClassName → List ClassName
get_annotation_processor_plugin_classes c annotation = classes_of annotation c.plugin_classes

unfoldable pub add_annotation_processor_extra_import : ClassName → ClassName → Config → Config
add_annotation_processor_extra_import annotation extra c = record c {
  extra_imports = add_class annotation extra c.extra_imports;
}

unfoldable pub get_annotation_processor_extra_imports : Config → ClassName → List ClassName
get_annotation_processor_extra_imports c annotation = classes_of annotation c.extra_imports

unfoldable pub set_library_naming_convention : Text → Config → Option Config
unfolding text_dec
set_library_naming_convention convention c =
    if is_text convention []
    then none
    else some (record c { library_naming_convention = convention })

unfoldable pub set_test_suite_naming_convention : Text → Config → Option Config
unfolding text_dec
set_test_suite_naming_convention convention c =
    if is_text convention []
    then none
    else some (record c { test_suite_naming_convention = convention })

module _ {Expr : Type 0} where
  -- MapAnnotationToAttribute
  unfoldable pub map_annotation_to_attribute : Text → Text → Expr → Shared Expr → Shared Expr
  unfolding lookup put text_dec
  map_annotation_to_attribute annotation key value s =
      elim (lookup text_dec annotation s.annotation_to_attribute) [
        | none ↦ record s {
          annotation_to_attribute =
              put text_dec annotation ((key, value) ∷ [])
                (put text_dec annotation [] s.annotation_to_attribute);
        }
        | some m ↦ record s {
          annotation_to_attribute =
              put text_dec annotation (put text_dec key value m) s.annotation_to_attribute;
        }
      ]

  unfoldable pub attributes_for_annotation : Shared Expr → Text → Option (List (Text × Expr))
  unfolding lookup text_dec
  attributes_for_annotation s annotation = lookup text_dec annotation s.annotation_to_attribute

  unfoldable pub map_annotation_to_wrapper : Text → Text → Shared Expr → Shared Expr
  unfolding put text_dec
  map_annotation_to_wrapper annotation wrapper s = record s {
    annotation_to_wrapper = put text_dec annotation wrapper s.annotation_to_wrapper;
  }

  unfoldable pub wrapper_for_annotation : Shared Expr → Text → Option Text
  unfolding lookup text_dec
  wrapper_for_annotation s annotation = lookup text_dec annotation s.annotation_to_wrapper

  -- IsTestRule
  unfoldable pub is_test_rule : Shared Expr → Text → Bool
  unfolding any text_dec
  is_test_rule s kind =
      is_text kind (codes "java_junit5_test")
      || is_text kind (codes "java_test")
      || is_text kind (codes "java_test_suite")
      || any (λ e. is_text kind e.1) s.annotation_to_wrapper

  -- SetResolveToJavaExports: `none` is the panic of a second call.
  unfoldable pub set_resolve_to_java_exports : Bool → Shared Expr → Option (Shared Expr)
  unfolding initialize
  set_resolve_to_java_exports resolve s = elim (initialize s.resolve_to_java_exports resolve) [
    | none ↦ none
    | some l ↦ some (record s { resolve_to_java_exports = l })
  ]

  unfoldable pub can_set_resolve_to_java_exports : Shared Expr → Bool
  can_set_resolve_to_java_exports s = elim s.resolve_to_java_exports.initialized [
    | true ↦ false
    | false ↦ true
  ]

  -- ResolveToJavaExports, which may be read before it is set.
  unfoldable pub resolves_to_java_exports : Shared Expr → Bool
  resolves_to_java_exports s = s.resolve_to_java_exports.value
