-- ===== src/Examples/Generation.antt =====
-- Runs and instances for the grouping of directories and for the generation of rules.
use rules_jvm.Prelude.{
  has_prefix, true, All, ◌≡◌, ◌⊎◌, ◌↔◌, refl, false, Bool, none, some, List, [], ◌∷◌, Memᴰ, Text,
  codes, text_dec, any, split, join,
}
use rules_jvm.Names.{PackageName, ClassName, new_package_name, new_class_name}
use rules_jvm.ExportIndex.{new_java_export_index}
use rules_jvm.Resolve.Classes.{rule_declares_class, same_outer_class}
use rules_jvm.Config.{new}
use rules_jvm.Loads.{map_library_name, replace_from}
use rules_jvm.Scc.{Group, Dirs, Tarjan, adjacency_of, visit_dirs, is_indexed, new_tarjan}
use rules_jvm.JavaPackage.{Package}
use rules_jvm.Scc.Edges.{dirs_of, tarjan_total}
use rules_jvm.Scc.Groups.{assign_names, lengthen, room, count, grows, deepen, name_of, first_dir}
use rules_jvm.Scc.Naming.{NamesOf, assign_names_total}
use rules_jvm.Generate.Files.{
  snake_to_pascal_case, capitalize_all, capitalize, add_filtering_out_own_package,
}
use rules_jvm.Generate.Files.Filtering.{Counts, add_filtering_out_own_package-packages}
use rules_jvm.Generate.Libraries.{
  Generation, LibraryArgs, generate_java_library, collect_runtime_deps, library_rule, cache_classes,
  record_library, library_input,
}
use rules_jvm.Generate.Declared.{generate_java_library-rule_declares_class}
use rules_jvm.Examples.Resolution.{labels}

abbrev group_of : Text → Group
group_of dir = record { dirs = dir ∷ []; packages = [] }

abbrev two_uis : List Group
two_uis = group_of (codes "m/actions/ui") ∷ group_of (codes "m/eventing/ui") ∷ []

assign_names_run : assign_names two_uis ≡ some (codes "actions_ui" ∷ codes "eventing_ui" ∷ [])
unfolding assign_names lengthen room count grows deepen name_of first_dir split join any text_dec
assign_names_run = refl

-- Two of three names stay the same.
assign_names_clash :
    assign_names
      (group_of (codes "a/b/c") ∷ group_of (codes "a_b/c") ∷ group_of (codes "z/b/c") ∷ [])
    ≡ some (codes "a_b_c" ∷ codes "a_b_c" ∷ codes "z_b_c" ∷ [])
unfolding assign_names lengthen room count grows deepen name_of first_dir split join any text_dec
assign_names_clash = refl

assign_names_total_example :
    (ns : List Text) × (assign_names two_uis ≡ some ns) × NamesOf [] two_uis ns
assign_names_total_example = assign_names_total two_uis

abbrev package_importing : Text → Text → Package
package_importing name imported = record {
  name = new_package_name name;
  imported_classes = none;
  exported_classes = [];
  internal_classes = none;
  declared_classes = [];
  imported_packages_without_specific_classes = some (new_package_name imported ∷ []);
  mains = [];
  files = [];
  test_package = false;
  per_class_metadata = [];
}

-- Two directories that import each other, and one that imports the first.
abbrev three_dirs : Dirs
three_dirs =
    (codes "a", package_importing (codes "a") (codes "b"))
    ∷ (codes "b", package_importing (codes "b") (codes "a"))
    ∷ (codes "c", package_importing (codes "c") (codes "a"))
    ∷ []

tarjan_total_example :
    (t : Tarjan) × (visit_dirs (adjacency_of three_dirs) 4 (dirs_of three_dirs) new_tarjan ≡ some t)
    × All (λ v. is_indexed v t ≡ true) (dirs_of three_dirs)
tarjan_total_example = tarjan_total three_dirs

snake_run : snake_to_pascal_case (codes "http_body") ≡ codes "HttpBody"
unfolding snake_to_pascal_case split capitalize_all capitalize
snake_run = refl

abbrev own : PackageName
own = new_package_name (codes "com.example")

abbrev helper : ClassName
helper = new_class_name own (codes "Helper")

add_filtering_out_own_package-packages_example :
    Memᴰ own (add_filtering_out_own_package own (codes "Main" ∷ []) (helper ∷ []) ([], none)).0 ↔ (
      Memᴰ own []
      ⊎ ((c : ClassName) × Memᴰ c (helper ∷ [])
          × (own ≡ c.package_name)
          × Counts own (codes "Main" ∷ []) c))
add_filtering_out_own_package-packages_example =
    add_filtering_out_own_package-packages own (codes "Main" ∷ []) (helper ∷ []) [] none tt own

abbrev library_args : LibraryArgs
library_args = record {
  rel = codes "lib";
  library_kind = codes "java_library";
  name = codes "util";
  srcs = codes "lib/Helper.java" ∷ [];
  resources_direct_ref = [];
  resources_runtime_dep = [];
  packages = own ∷ [];
  imports = [];
  imported_classes = [];
  exports = [];
  exported_classes = some (helper ∷ []);
  external_exported_classes = [];
  annotation_processors = [];
  test_only = false;
}

abbrev pub nothing_generated : Generation Bool
nothing_generated = record {
  gen = [];
  imports = [];
  empty = [];
  kotlin_libraries = [];
  class_export_cache = [];
  java_export_index = new_java_export_index;
}

abbrev generated : Generation Bool
generated = record nothing_generated {
  gen = library_rule labels library_args [] ∷ [];
  imports = library_input library_args ∷ [];
  class_export_cache = cache_classes labels library_args [];
}

generate_java_library_run :
    generate_java_library labels false none library_args nothing_generated ≡ some generated
unfolding generate_java_library collect_runtime_deps record_library text_dec
generate_java_library_run = refl

generate_java_library-rule_declares_class_example :
    rule_declares_class labels generated.class_export_cache
      (record { repo = []; pkg = codes "lib"; name = codes "util"; relative = false })
      helper
    ≡ any (λ d. same_outer_class labels d helper) (helper ∷ [])
generate_java_library-rule_declares_class_example =
    generate_java_library-rule_declares_class labels false none library_args nothing_generated
      generated (helper ∷ []) false helper generate_java_library_run refl

map_library_name_run :
    map_library_name
      (record (new []) { library_naming_convention = codes "{dirname}-lib" })
      (codes "util")
    ≡ codes "util-lib"
unfolding map_library_name replace_from new has_prefix
map_library_name_run = refl
