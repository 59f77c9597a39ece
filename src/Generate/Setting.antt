-- ===== src/Generate/Setting.antt =====
-- What `GenerateRules` (java/gazelle/generate.go) is given, and what it works out of a directory before it looks
-- at the packages.
--
-- The parser, the file system and what other languages generated are parameters.
use rules_jvm.Prelude.{
  Bool, false, ◌&&◌, ◌||◌, not, Option, none, some, List, [], ◌∷◌, ◌++◌, Text, codes, text_dec,
  text_less, any, keep, if◌then◌else◌,
}
use rules_jvm.Prelude.Sort.{sort, insert}
use rules_jvm.Names.{PackageName, ClassName, new_package_name, package_name_less, class_name_less}
use rules_jvm.SortedSet.View.{place}
use rules_jvm.Config.{Config, has_suffix, is_text, module_text, scc_text}
use rules_jvm.TestPackages.{contains_text}
use rules_jvm.JavaPackage.{Package}
use rules_jvm.Scc.{Dirs}
use rules_jvm.Generate.Files.{JavaFile, same, class_name_of}
use rules_jvm.Generate.Libraries.{File, Generation}
use rules_jvm.Generate.Modules.{join_path}
use rules_jvm.Generate.Resources.{Entries}
use rules_jvm.Generate.Protos.{OtherRule}

-- language.GenerateArgs, as far as it is read.
pub record GenerateArgs : Type 0 where
  pub rel : Text
  pub file : Option File
  pub regular_files : List Text
  pub subdirs : List (Text × Entries)
  pub other_gen : List OtherRule
  pub other_empty : List OtherRule

-- What generation asks: the package that the parser returns for a directory's files, and whether a directory is there.
pub record Outside : Type 0 where
  pub parse_package : Text → List Text → Option Package
  pub is_directory : Text → Bool

-- The result of a call of `GenerateRules` and the maps of the extension, and the packages of modules by their
-- directories. The result of a call is not kept for the next one: Gazelle has it by then.
pub record Session (Expr : Type 0) : Type 0 where
  pub generation : Generation Expr
  pub java_package_cache : Dirs

-- The result that a call starts from. Only the maps of the extension outlast a call.
unfoldable pub new_result : {Expr : Type 0} → Generation Expr → Generation Expr
new_result g = record g { gen = []; imports = []; empty = [] }

unfoldable pub source_files : Config → List Text → List Text
unfolding keep has_suffix
source_files cfg files =
    keep (λ f. has_suffix f (codes ".java") || (cfg.kotlin_enabled && has_suffix f (codes ".kt")))
      files

unfoldable pub library_kind : Config → List Text → Text
unfolding any has_suffix
library_kind cfg files =
    if cfg.kotlin_enabled && any (λ f. has_suffix f (codes ".kt")) files
    then codes "kt_jvm_library"
    else codes "java_library"

unfoldable pub is_resources_root : Config → Text → Bool
unfolding join_path text_dec
is_resources_root cfg rel =
    cfg.generate_resources
    && not (same cfg.sourceset_root [])
    && same rel (join_path cfg.sourceset_root (codes "resources"))

unfoldable pub is_resources_subdir : Config → Text → Bool
unfolding contains_text is_resources_root
is_resources_subdir cfg rel =
    cfg.generate_resources
    && contains_text rel (codes "/resources/")
    && not (is_resources_root cfg rel)

unfoldable pub aggregates : Config → Bool
unfolding text_dec
aggregates cfg =
    is_text cfg.module_granularity module_text || is_text cfg.module_granularity scc_text

-- The early return for a directory without sources.
unfoldable pub has_nothing_to_do : Config → Text → List Text → Bool
unfolding is_resources_subdir is_resources_root aggregates
has_nothing_to_do cfg rel [] =
    is_resources_subdir cfg rel
    || (not (is_resources_root cfg rel) && (not (aggregates cfg) || not cfg.is_module_root))
has_nothing_to_do cfg rel (f ∷ fs) = false

abbrev pub package_without_files : Package
package_without_files = record {
  name = new_package_name [];
  imported_classes = none;
  exported_classes = [];
  internal_classes = none;
  declared_classes = [];
  imported_packages_without_specific_classes = none;
  mains = [];
  files = [];
  test_package = false;
  per_class_metadata = [];
}

unfoldable pub package_of : Outside → Config → Text → List Text → Option Package
unfolding is_resources_root sort insert text_less
package_of out cfg rel [] =
    let parsed = out.parse_package rel [] in
    if is_resources_root cfg rel then some package_without_files else parsed
package_of out cfg rel (f ∷ fs) = out.parse_package rel (sort text_less (f ∷ fs))

-- The references to resources: of the whole module, and of a single package.
unfoldable pub resources_refs : Outside → Config → Text × Text
unfolding join_path text_dec aggregates
resources_refs out cfg =
    let path = join_path cfg.sourceset_root (codes "resources") in
    let is_there =
      not (same cfg.sourceset_root []) && cfg.generate_resources && out.is_directory path in
    if is_there
    then (if aggregates cfg
        then (codes "//" ++ path ++ codes ":resources", [])
        else ([], codes "//" ++ path ++ codes ":resources_lib"))
    else ([], [])

unfoldable pub packages_of_files : List JavaFile → List PackageName → List PackageName
unfolding place package_name_less
packages_of_files [] set = set
packages_of_files (f ∷ fs) set = packages_of_files fs (place package_name_less f.pkg set)

unfoldable pub classes_of_files : List JavaFile → List ClassName → List ClassName
unfolding place class_name_less class_name_of
classes_of_files [] set = set
classes_of_files (f ∷ fs) set = classes_of_files fs (place class_name_less (class_name_of f) set)
