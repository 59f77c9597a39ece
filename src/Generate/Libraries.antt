-- ===== src/Generate/Libraries.antt =====
-- What generation keeps, and the rules for libraries (java/gazelle/generate.go).
--
-- A path has slashes here, so `ToSlash` changes nothing. `none` is a log entry at the level Fatal or a panic.
-- A generated rule that a later step reads keeps its attributes apart by the type of their values.
use rules_jvm.Prelude.{
  Bool, true, false, ◌||◌, Option, none, some, List, [], ◌∷◌, ◌++◌, map, Text, codes, text_dec,
  text_less, put, if◌then◌else◌, ◌>>=◌,
}
use rules_jvm.Prelude.Sort.{sort, insert}
use rules_jvm.Names.{PackageName, ClassName, class_name_less}
use rules_jvm.Names.Resolvable.{ResolvableJavaPackage, new_resolvable_java_package}
use rules_jvm.Labels.{Label, LabelLib}
use rules_jvm.SortedSet.View.{place, place_all}
use rules_jvm.SortedSet.Label.{label_less}
use rules_jvm.ExportIndex.{JavaExportIndex, ResolveInput, record_rule}
use rules_jvm.Maven.Resolver.{label_from_artifact}
use rules_jvm.Resolve.Labels.{Rule, attr_strings}
use rules_jvm.Resolve.Classes.{ClassExportCache}
use rules_jvm.Generate.Files.{same, trim_prefix}

-- A build file that is there: its package and its rules.
pub record File : Type 0 where
  pub pkg : Text
  pub rules : List Rule

-- rule.Rule as it is generated: lists, strings and expressions as attributes, the argument of a macro, and
-- the private attributes of the language.
pub record NewRule (Expr : Type 0) : Type 0 where
  pub kind : Text
  pub name : Text
  pub lists : List (Text × List Text)
  pub strings : List (Text × Text)
  pub exprs : List (Text × Expr)
  pub test_only : Bool
  pub arg : Option Text
  pub packages : List ResolvableJavaPackage
  pub classes : Option (List ClassName)

-- What generation changes: the result, the two maps of the language, and the index of exports.
pub record Generation (Expr : Type 0) : Type 0 where
  pub gen : List (NewRule Expr)
  pub imports : List ResolveInput
  pub empty : List (Text × Text)
  pub kotlin_libraries : List Text
  pub class_export_cache : ClassExportCache
  pub java_export_index : JavaExportIndex

abbrev pub runtime_deps : Text
runtime_deps = codes "runtime_deps"

abbrev pub srcs : Text
srcs = codes "srcs"

abbrev pub is_library_kind : Text → Bool
is_library_kind kind = same kind (codes "java_library") || same kind (codes "kt_jvm_library")

-- The kinds and names of the libraries with sources.
unfoldable pub libraries_with_sources : List Rule → List (Text × Text)
unfolding attr_strings text_dec
libraries_with_sources [] = []
libraries_with_sources (r ∷ rs) =
    let rest = libraries_with_sources rs in
    if is_library_kind r.kind
    then (elim (attr_strings r srcs) [ [] ↦ rest | _ ∷ _ ↦ (r.kind, r.name) ∷ rest ])
    else rest

unfoldable pub list_attr : Text → List Text → List (Text × List Text) → List (Text × List Text)
unfolding put text_dec
list_attr key value attrs = put text_dec key value attrs

-- generateJavaLibraryArgs, but for the file and the result. `none` for exported classes is nil.
pub record LibraryArgs : Type 0 where
  pub rel : Text
  pub library_kind : Text
  pub name : Text
  pub srcs : List Text
  pub resources_direct_ref : Text
  pub resources_runtime_dep : Text
  pub packages : List PackageName
  pub imports : List PackageName
  pub imported_classes : List ClassName
  pub exports : List PackageName
  pub exported_classes : Option (List ClassName)
  pub external_exported_classes : List ClassName
  pub annotation_processors : List ClassName
  pub test_only : Bool

-- The classes of the resolver's input: those of the rule, and others that its API names.
unfoldable pub exported_class_names : LibraryArgs → List ClassName
unfolding place_all class_name_less
exported_class_names a = elim a.exported_classes [
  | none ↦ a.external_exported_classes
  | some own ↦ place_all class_name_less a.external_exported_classes own
]

unfoldable pub library_input : LibraryArgs → ResolveInput
unfolding exported_class_names
library_input a = record {
  package_names = a.packages;
  imported_package_names = a.imports;
  imported_classes = a.imported_classes;
  exported_package_names = a.exports;
  exported_class_names = exported_class_names a;
  annotation_processors = a.annotation_processors;
}

-- Paths relative to the package, in order.
unfoldable pub relative_srcs : Text → List Text → List Text
unfolding sort insert text_less trim_prefix
relative_srcs rel paths = sort text_less (map (trim_prefix (rel ++ codes "/")) paths)

-- markExistingSCCLibrariesForDeletion
unfoldable pub mark_existing_libraries_for_deletion :
    {Expr : Type 0} → Option File → Generation Expr → Generation Expr
unfolding libraries_with_sources
mark_existing_libraries_for_deletion none g = g
mark_existing_libraries_for_deletion (some file) g = record g {
  empty = g.empty ++ libraries_with_sources file.rules;
}

abbrev pub input_of :
    List PackageName → List PackageName → List ClassName → List ClassName → ResolveInput
input_of packages imports classes processors = record {
  package_names = packages;
  imported_package_names = imports;
  imported_classes = classes;
  exported_package_names = [];
  exported_class_names = [];
  annotation_processors = processors;
}

abbrev pub new_rule : {Expr : Type 0} → Text → Text → NewRule Expr
new_rule kind name = record {
  kind = kind;
  name = name;
  lists = [];
  strings = [];
  exprs = [];
  test_only = false;
  arg = none;
  packages = [];
  classes = none;
}

module _ (lib : LabelLib) where
  unfoldable pub parse_labels : List Text → List Label → Option (List Label)
  unfolding place label_less
  parse_labels [] set = some set
  parse_labels (t ∷ ts) set = elim (lib.parse t) [
    | none ↦ none
    | some l ↦ parse_labels ts (place (label_less lib.to_string) l set)
  ]

  -- The first rule of the name counts.
  unfoldable pub runtime_deps_of : Text → List Rule → Option (List Label)
  unfolding parse_labels attr_strings text_dec
  runtime_deps_of name [] = some []
  runtime_deps_of name (r ∷ rs) =
      let rest = runtime_deps_of name rs in
      if same r.name name then parse_labels (attr_strings r runtime_deps) [] else rest

  -- collectRuntimeDeps
  unfoldable pub collect_runtime_deps : Text → Option File → Option (List Label)
  unfolding runtime_deps_of
  collect_runtime_deps name none = some []
  collect_runtime_deps name (some file) = runtime_deps_of name file.rules

  -- A label that does not parse is logged.
  unfoldable pub add_parsed : Text → List Label → List Label
  unfolding place label_less
  add_parsed text set = elim (lib.parse text) [
    | none ↦ set
    | some l ↦ place (label_less lib.to_string) l set
  ]

  -- labelsToStrings, where an empty set is no attribute.
  unfoldable pub runtime_attr : List Label → List (Text × List Text) → List (Text × List Text)
  unfolding list_attr
  runtime_attr [] attrs = attrs
  runtime_attr (l ∷ ls) attrs = list_attr runtime_deps (map lib.to_string (l ∷ ls)) attrs

  unfoldable pub library_lists : LibraryArgs → List Label → List (Text × List Text)
  unfolding list_attr runtime_attr relative_srcs text_dec
  library_lists a deps =
      let resources =
        (if same a.resources_direct_ref []
          then []
          else list_attr (codes "resources") (a.resources_direct_ref ∷ []) []) in
      list_attr (codes "visibility") (codes "//:__subpackages__" ∷ [])
        (list_attr srcs (relative_srcs a.rel a.srcs) (runtime_attr deps resources))

  -- label.New("", args.Rel, args.Name).String()
  unfoldable pub library_key : LibraryArgs → Text
  library_key a = lib.to_string (lib.new [] a.rel a.name)

  unfoldable pub cache_classes : LibraryArgs → ClassExportCache → ClassExportCache
  unfolding put text_dec library_key
  cache_classes a cache = elim a.exported_classes [
    | none ↦ cache
    | some cs ↦ put text_dec (library_key a) (record { classes = cs; testonly = a.test_only }) cache
  ]

  -- The index takes the package of the label from the file: it is empty without one.
  unfoldable pub record_library :
      Bool → Option File → LibraryArgs → JavaExportIndex → Option JavaExportIndex
  unfolding record_rule library_input
  record_library false file a jei = some jei
  record_library true none a jei = record_rule jei (lib.new [] [] a.name) (library_input a)
  record_library true (some file) a jei =
      record_rule jei (lib.new [] file.pkg a.name) (library_input a)

  unfoldable pub add_artifacts : Text → List Text → List Label → List Label
  unfolding place label_less label_from_artifact
  add_artifacts repository [] set = set
  add_artifacts repository (a ∷ rest) set =
      add_artifacts repository rest
        (place (label_less lib.to_string) (label_from_artifact lib repository a) set)

  module _ {Expr : Type 0} where
    unfoldable pub library_rule : LibraryArgs → List Label → NewRule Expr
    unfolding library_lists
    library_rule a deps = record (new_rule a.library_kind a.name) {
      lists = library_lists a deps;
      test_only = a.test_only;
      packages = map (λ p. new_resolvable_java_package p a.test_only false) a.packages;
      classes = a.exported_classes;
    }

    -- generateJavaLibrary, for a configuration that resolves to exports or not.
    unfoldable pub generate_java_library :
        Bool → Option File → LibraryArgs → Generation Expr → Option (Generation Expr)
    unfolding collect_runtime_deps add_parsed library_rule library_key cache_classes record_library
        library_input text_dec
    generate_java_library to_exports file a g = do
      deps ← collect_runtime_deps a.name file
      jei ← record_library to_exports file a g.java_export_index
      let all_deps =
          (if same a.resources_runtime_dep []
            then deps
            else add_parsed a.resources_runtime_dep deps)
      let is_kotlin = same a.library_kind (codes "kt_jvm_library")
      some (record g {
        gen = g.gen ++ library_rule a all_deps ∷ [];
        imports = g.imports ++ library_input a ∷ [];
        kotlin_libraries =
            if is_kotlin then library_key a ∷ g.kotlin_libraries else g.kotlin_libraries;
        class_export_cache = cache_classes a g.class_export_cache;
        java_export_index = jei;
      })
