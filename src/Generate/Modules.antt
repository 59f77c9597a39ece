-- ===== src/Generate/Modules.antt =====
-- The libraries of a module, one for each group of directories (`emitModuleProductionLibraries` of
-- java/gazelle/generate.go).
--
-- The paths are clean, so that joining two puts a slash between them. `none` is a log entry at the level Fatal.
use rules_jvm.Prelude.{
  Bool, true, false, ◌&&◌, ◌||◌, not, Option, none, some, List, [], ◌∷◌, ◌++◌, Text, codes,
  text_dec, text_less, lookup, has_prefix, any, keep, is_yes, if◌then◌else◌,
}
use rules_jvm.Prelude.Sort.{sort, insert}
use rules_jvm.Names.{PackageName, ClassName, package_name_dec, class_name_less}
use rules_jvm.Labels.{LabelLib}
use rules_jvm.SortedSet.View.{equiv, place, place_all}
use rules_jvm.Config.{Config, has_suffix, get_annotation_processor_plugin_classes}
use rules_jvm.JavaPackage.{Package, all_annotations}
use rules_jvm.Scc.{Group, Dirs, or_empty}
use rules_jvm.Scc.Groups.{Named, Result, new_graph}
use rules_jvm.Generate.Files.{Imports, same, class_name_of, add_non_local_imports_and_exports}
use rules_jvm.Generate.Libraries.{File, Generation, LibraryArgs, generate_java_library}

-- The cached packages of the module that are for production and have files, in order of their directories.
unfoldable pub is_production : Text → Text × Package → Bool
unfolding has_prefix
is_production rel (dir, pkg) =
    has_prefix dir rel && not pkg.test_package && (elim pkg.files [ [] ↦ false | _ ∷ _ ↦ true ])

unfoldable pub production_packages : Text → Dirs → Dirs
unfolding keep is_production sort insert text_less
production_packages rel cache = sort (λ d e. text_less d.0 e.0) (keep (is_production rel) cache)

-- What the loop over the directories of a group collects.
pub record Collected : Type 0 where
  pub library_kind : Text
  pub files : List Text
  pub imports : Imports
  pub exports : Imports
  pub own_classes : List ClassName
  pub annotation_processors : List ClassName

abbrev pub nothing_collected : Collected
nothing_collected = record {
  library_kind = codes "java_library";
  files = [];
  imports = ([], some []);
  exports = ([], some []);
  own_classes = [];
  annotation_processors = [];
}

unfoldable pub join_path : Text → Text → Text
unfolding text_dec
join_path dir f = if same dir [] then f else dir ++ codes "/" ++ f

unfoldable pub collect_files : Text → Package → List Text → Collected → Collected
unfolding has_suffix join_path place text_less class_name_less class_name_of
collect_files dir pkg [] c = c
collect_files dir pkg (f ∷ fs) c = collect_files dir pkg fs (record c {
  library_kind = if has_suffix f (codes ".kt") then codes "kt_jvm_library" else c.library_kind;
  files = place text_less (join_path dir f) c.files;
  own_classes =
      place class_name_less (class_name_of (record { path = join_path dir f; pkg = pkg.name }))
        c.own_classes;
})

unfoldable pub collect_processors : Config → List ClassName → List ClassName → List ClassName
unfolding place_all class_name_less get_annotation_processor_plugin_classes
collect_processors cfg [] set = set
collect_processors cfg (a ∷ rest) set =
    collect_processors cfg rest
      (place_all class_name_less (get_annotation_processor_plugin_classes cfg a) set)

unfoldable pub collect_dir : Config → List Text → Text → Package → Collected → Collected
unfolding add_non_local_imports_and_exports collect_files collect_processors all_annotations
    or_empty
collect_dir cfg locals dir pkg c =
    let both =
      add_non_local_imports_and_exports pkg locals (or_empty pkg.imported_classes)
        (or_empty pkg.imported_packages_without_specific_classes) c.imports (some c.exports) in
    let filed = collect_files dir pkg pkg.files c in
    record filed {
      imports = both.0;
      exports = elim both.1 [ none ↦ c.exports | some e ↦ e ];
      annotation_processors = collect_processors cfg (all_annotations pkg) c.annotation_processors;
    }

-- A directory of a group has a package: its absence is a nil pointer.
unfoldable pub collect_dirs : Config → List Text → Dirs → List Text → Collected → Option Collected
unfolding collect_dir lookup text_dec
collect_dirs cfg locals ds [] c = some c
collect_dirs cfg locals ds (dir ∷ dirs) c = elim (lookup text_dec dir ds) [
  | none ↦ none
  | some pkg ↦ collect_dirs cfg locals ds dirs (collect_dir cfg locals dir pkg c)
]

abbrev pub in_group : Group → PackageName → Bool
in_group g p = any (λ q. is_yes (package_name_dec q p)) g.packages

-- Imports of other groups, and classes that the group does not have.
unfoldable pub is_external : Group → List ClassName → ClassName → Bool
unfolding any package_name_dec class_name_less
is_external g own c =
    not (in_group g c.package_name) || not (any (λ d. equiv class_name_less d c) own)

unfoldable pub group_args : Config → Text → Text → Text → Text → Group → Collected → LibraryArgs
unfolding keep any package_name_dec is_external or_empty
group_args cfg rel direct_ref runtime_dep name g c = record {
  rel = rel;
  library_kind = c.library_kind;
  name = name;
  srcs = c.files;
  resources_direct_ref = direct_ref;
  resources_runtime_dep = runtime_dep;
  packages = g.packages;
  imports = keep (λ p. not (in_group g p)) c.imports.0;
  imported_classes = keep (is_external g c.own_classes) (or_empty c.imports.1);
  exports = c.exports.0;
  exported_classes = some c.own_classes;
  external_exported_classes = or_empty c.exports.1;
  annotation_processors = c.annotation_processors;
  test_only = cfg.test_only;
}

module _ (lib : LabelLib) {Expr : Type 0} where
  unfoldable pub emit_groups :
      Config
      → Bool
      → Option File
      → List Text
      → Text
      → Text
      → Text
      → Dirs
      → Named
      → Generation Expr
      → Option (Generation Expr)
  unfolding collect_dirs group_args generate_java_library
  emit_groups cfg to_exports file locals rel direct_ref runtime_dep ds [] g = some g
  emit_groups cfg to_exports file locals rel direct_ref runtime_dep ds ((name, group) ∷ groups) g =
      elim (collect_dirs cfg locals ds group.dirs nothing_collected) [
        | none ↦ none
        | some c ↦
            elim (generate_java_library lib to_exports file
              (group_args cfg rel direct_ref runtime_dep name group c) g) [
                | none ↦ none
                | some g' ↦
                    emit_groups cfg to_exports file locals rel direct_ref runtime_dep ds groups g'
              ]
      ]

  -- emitModuleProductionLibraries, from the cache of packages by directory.
  unfoldable pub emit_module_production_libraries :
      Config
      → Bool
      → Option File
      → List Text
      → Text
      → Text
      → Text
      → Dirs
      → Generation Expr
      → Option (Generation Expr)
  unfolding production_packages new_graph emit_groups
  emit_module_production_libraries cfg to_exports file locals rel direct_ref runtime_dep cache g =
      elim (new_graph (production_packages rel cache)) [
        | none ↦ none
        | some (Result.error _) ↦ none
        | some (Result.graph groups) ↦
            emit_groups cfg to_exports file locals rel direct_ref runtime_dep
              (production_packages rel cache) groups g
      ]
