-- ===== src/Generate/Gather.antt =====
-- Sorting the packages of a directory or of a whole module into code for production and code for tests: the
-- middle part of `GenerateRules` (java/gazelle/generate.go).
use rules_jvm.Prelude.{
  ℕ, Bool, true, ◌&&◌, not, none, some, List, [], ◌∷◌, ◌++◌, Text, codes, text_less, has_prefix,
  any, keep, is_yes, if◌then◌else◌,
}
use rules_jvm.Names.{PackageName, ClassName, package_name_dec, package_name_less, class_name_less}
use rules_jvm.SortedSet.View.{place, place_all}
use rules_jvm.Config.{Config, Shared, has_suffix, is_java_test_file}
use rules_jvm.JavaPackage.{Package}
use rules_jvm.Scc.{Dirs, or_empty}
use rules_jvm.Generate.Files.{
  JavaFile, Imports, Accumulated, base, trim_suffix, class_name_of, accumulate_java_file,
  add_non_local_imports_and_exports, add_annotation_processor_classes_and_extra_imports,
}
use rules_jvm.Generate.Modules.{join_path}

-- The names of the classes that the files of a directory are likely to have.
unfoldable pub likely_local_class_names : List Text → List Text → List Text
unfolding has_suffix trim_suffix place text_less
likely_local_class_names [] set = set
likely_local_class_names (f ∷ fs) set =
    let stem = trim_suffix (codes ".kt") f in
    likely_local_class_names fs (
      if has_suffix f (codes ".kt")
      then place text_less (stem ++ codes "Kt") (place text_less stem set)
      else place text_less (trim_suffix (codes ".java") f) set)

-- The sets that are filled.
pub record Gathered (Expr : Type 0) : Type 0 where
  pub all_mains : List ClassName
  pub production_files : List Text
  pub production : Imports
  pub exports : Imports
  pub own_classes : List ClassName
  pub test : Imports
  pub accumulated : Accumulated Expr
  pub helper_declared_classes : List ClassName
  pub test_file_classes : List ClassName
  pub all_package_names : List PackageName
  pub annotation_processors : List ClassName

abbrev pub nothing_gathered : {Expr : Type 0} → Gathered Expr
nothing_gathered = record {
  all_mains = [];
  production_files = [];
  production = ([], some []);
  exports = ([], some []);
  own_classes = [];
  test = ([], some []);
  accumulated = record { test_files = []; test_helper_files = []; separate = [] };
  helper_declared_classes = [];
  test_file_classes = [];
  all_package_names = [];
  annotation_processors = [];
}

module _ {Expr : Type 0} where
  -- The imports of a package, and for production its exports and declared classes.
  unfoldable pub gather_imports : List Text → Package → Gathered Expr → Gathered Expr
  unfolding add_non_local_imports_and_exports or_empty place_all class_name_less
  gather_imports locals pkg g =
      let imported = or_empty pkg.imported_classes in
      let packages = or_empty pkg.imported_packages_without_specific_classes in
      let for_test = add_non_local_imports_and_exports pkg locals imported packages g.test none in
      let for_production =
        add_non_local_imports_and_exports pkg locals imported packages g.production
          (some g.exports) in
      if pkg.test_package
      then record g {
        test = for_test.0;
        helper_declared_classes =
            place_all class_name_less pkg.declared_classes g.helper_declared_classes;
      }
      else record g {
        production = for_production.0;
        exports = elim for_production.1 [ none ↦ g.exports | some e ↦ e ];
        own_classes = place_all class_name_less pkg.declared_classes g.own_classes;
      }

  -- The sets of a configuration's processors.
  unfoldable pub gather_processors : Config → Package → Gathered Expr → Gathered Expr
  unfolding add_annotation_processor_classes_and_extra_imports or_empty
  gather_processors cfg pkg g =
      let added =
        add_annotation_processor_classes_and_extra_imports cfg pkg g.annotation_processors
          (g.production.0, or_empty g.production.1) (g.test.0, or_empty g.test.1) in
      record g {
        annotation_processors = added.0;
        production = (added.1.0, some added.1.1);
        test = (added.2.0, some added.2.1);
      }

  module _ (is_upper : ℕ → Bool) (defaults : List Text) (cfg : Config) (shared : Shared Expr) where
    -- One file of a package.
    unfoldable pub gather_file : Text → Package → Text → Gathered Expr → Gathered Expr
    unfolding accumulate_java_file is_java_test_file base class_name_of place class_name_less
        text_less join_path
    gather_file dir pkg f g =
        let file : JavaFile = record { path = join_path dir f; pkg = pkg.name } in
        let c = class_name_of file in
        let is_test_file = is_java_test_file defaults cfg (base file.path) in
        let classes =
          if is_test_file
          then place class_name_less c g.test_file_classes
          else g.test_file_classes in
        if pkg.test_package
        then record g {
          accumulated =
              accumulate_java_file is_upper defaults cfg shared file pkg.per_class_metadata
                g.accumulated;
          test_file_classes = classes;
        }
        else record g {
          production_files = place text_less file.path g.production_files;
          own_classes = place class_name_less c g.own_classes;
        }

    unfoldable pub gather_files : Text → Package → List Text → Gathered Expr → Gathered Expr
    unfolding gather_file
    gather_files dir pkg [] g = g
    gather_files dir pkg (f ∷ fs) g = gather_files dir pkg fs (gather_file dir pkg f g)

    -- A package with its files. Of the packages of a module, those for tests have no main classes that count.
    unfoldable pub gather_package :
        Bool → List Text → Text → Package → List Text → Gathered Expr → Gathered Expr
    unfolding gather_imports gather_files gather_processors place place_all package_name_less
        class_name_less
    gather_package in_module locals dir pkg files g =
        let named = record g {
          all_package_names = place package_name_less pkg.name g.all_package_names;
        } in
        let filed = gather_files dir pkg files (gather_imports locals pkg named) in
        let with_mains = record filed {
          all_mains = place_all class_name_less pkg.mains filed.all_mains;
        } in
        gather_processors cfg pkg (if in_module && pkg.test_package then filed else with_mains)

    -- The cached packages below the root of a module, in an order of the map's iteration.
    unfoldable pub gather_module : Text → List Text → Dirs → Gathered Expr → Gathered Expr
    unfolding gather_package has_prefix
    gather_module rel locals [] g = g
    gather_module rel locals ((dir, pkg) ∷ cache) g =
        gather_module rel locals cache
          (if has_prefix dir rel then gather_package true locals dir pkg pkg.files g else g)

abbrev pub is_local : List PackageName → PackageName → Bool
is_local names p = any (λ q. is_yes (package_name_dec q p)) names

-- Imports and exports of other packages.
unfoldable pub non_local_packages : List PackageName → List PackageName → List PackageName
unfolding keep any package_name_dec
non_local_packages names ps = keep (λ p. not (is_local names p)) ps

unfoldable pub non_local_classes : List PackageName → List ClassName → List ClassName
unfolding keep any package_name_dec
non_local_classes names cs = keep (λ c. not (is_local names c.package_name)) cs
