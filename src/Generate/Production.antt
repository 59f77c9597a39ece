-- ===== src/Generate/Production.antt =====
-- The libraries and binaries of a directory (`GenerateRules` and `processJavaBinary` of
-- java/gazelle/generate.go). `none` is a log entry at the level Fatal or a panic.
use rules_jvm.Prelude.{
  Bool, true, false, Option, none, some, List, [], ◌∷◌, Text, text_dec, any, if◌then◌else◌,
}
use rules_jvm.Names.{ClassName, class_name_less}
use rules_jvm.Labels.{LabelLib}
use rules_jvm.SortedSet.View.{equiv}
use rules_jvm.Config.{Config, is_text, scc_text}
use rules_jvm.Loads.{map_library_name}
use rules_jvm.Scc.{Dirs, or_empty}
use rules_jvm.Generate.Files.{base}
use rules_jvm.Generate.Libraries.{
  File, Generation, LibraryArgs, mark_existing_libraries_for_deletion, generate_java_library,
}
use rules_jvm.Generate.Modules.{emit_module_production_libraries}
use rules_jvm.Generate.TestRules.{test_helper_libname, generate_java_binary}
use rules_jvm.Generate.Gather.{Gathered, non_local_packages, non_local_classes}
use rules_jvm.Generate.Resources.{resource_files, generate_resources}
use rules_jvm.Generate.Setting.{
  GenerateArgs, Outside, library_kind, is_resources_root, aggregates, resources_refs,
  classes_of_files,
}

module _ (lib : LabelLib) {Expr : Type 0} where
  abbrev pub library_args : Outside → Config → Text → List Text → Gathered Expr → LibraryArgs
  library_args out cfg rel files g = record {
    rel = rel;
    library_kind = library_kind cfg files;
    name = map_library_name cfg (base rel);
    srcs = g.production_files;
    resources_direct_ref = (resources_refs out cfg).0;
    resources_runtime_dep = (resources_refs out cfg).1;
    packages = g.all_package_names;
    imports = non_local_packages g.all_package_names g.production.0;
    imported_classes = non_local_classes g.all_package_names (or_empty g.production.1);
    exports = non_local_packages g.all_package_names g.exports.0;
    exported_classes = some g.own_classes;
    external_exported_classes = non_local_classes g.all_package_names (or_empty g.exports.1);
    annotation_processors = g.annotation_processors;
    test_only = cfg.test_only;
  }

  -- The libraries for production.
  unfoldable pub generate_production :
      Outside
      → Config
      → Bool
      → GenerateArgs
      → List Text
      → List Text
      → Dirs
      → Gathered Expr
      → Generation Expr
      → Option (Generation Expr)
  unfolding generate_java_library emit_module_production_libraries
      mark_existing_libraries_for_deletion library_kind resources_refs map_library_name base
      non_local_packages non_local_classes or_empty text_dec
  generate_production out cfg to_exports args files locals cache g gen = elim g.production_files [
    | [] ↦ some gen
    | _ ∷ _ ↦ elim (is_text cfg.module_granularity scc_text) [
      | true ↦
          emit_module_production_libraries lib cfg to_exports args.file locals args.rel
            (resources_refs out cfg).0 (resources_refs out cfg).1 cache
            (mark_existing_libraries_for_deletion args.file gen)
      | false ↦
          generate_java_library lib to_exports args.file (library_args out cfg args.rel files g) gen
    ]
  ]

  -- Resources, or the libraries.
  unfoldable pub generate_libraries :
      Outside
      → Config
      → Bool
      → GenerateArgs
      → List Text
      → List Text
      → Dirs
      → Gathered Expr
      → Generation Expr
      → Option (Generation Expr)
  unfolding generate_production generate_resources resource_files is_resources_root library_kind
      aggregates
  generate_libraries out cfg to_exports args [] locals cache g gen =
      let resources =
        generate_resources (library_kind cfg []) (aggregates cfg)
          (resource_files args.regular_files args.subdirs) gen in
      elim (is_resources_root cfg args.rel) [
        | true ↦ some resources
        | false ↦ generate_production out cfg to_exports args [] locals cache g gen
      ]
  generate_libraries out cfg to_exports args (f ∷ fs) locals cache g gen =
      generate_production out cfg to_exports args (f ∷ fs) locals cache g gen

  -- processJavaBinary
  unfoldable pub process_java_binary :
      Config
      → Option File
      → Text
      → List ClassName
      → List ClassName
      → Generation Expr
      → Option (Generation Expr)
  unfolding generate_java_binary map_library_name base test_helper_libname any class_name_less
  process_java_binary cfg file rel helpers [] gen = some gen
  process_java_binary cfg file rel helpers (m ∷ ms) gen =
      let lib_name = map_library_name cfg (base rel) in
      let is_helper = any (λ d. equiv class_name_less d m) helpers in
      elim (generate_java_binary lib file m
        (if is_helper then test_helper_libname lib_name else lib_name) is_helper gen) [
          | none ↦ none
          | some gen' ↦ process_java_binary cfg file rel helpers ms gen'
        ]

  unfoldable pub generate_binaries :
      Config → GenerateArgs → Gathered Expr → Generation Expr → Option (Generation Expr)
  unfolding process_java_binary classes_of_files
  generate_binaries cfg args g gen = elim cfg.generate_binary [
    | false ↦ some gen
    | true ↦
        process_java_binary cfg args.file args.rel
          (classes_of_files g.accumulated.test_helper_files []) g.all_mains gen
  ]
