-- ===== src/Examples/Rules.antt =====
-- A run and an instance for `GenerateRules`.
use rules_jvm.Prelude.{◌≡◌, refl, Bool, false, Option, none, some, [], ◌∷◌, map, Text, codes}
use rules_jvm.Names.{new_package_name, new_class_name}
use rules_jvm.Config.{new, new_shared}
use rules_jvm.JavaPackage.{Package}
use rules_jvm.Generate.Libraries.{NewRule}
use rules_jvm.Generate.Setting.{GenerateArgs, Outside, Session, package_without_files, new_result}
use rules_jvm.Generate.Rules.{generate_into, generate_rules}
use rules_jvm.Generate.Grows.{Grows}
use rules_jvm.Examples.Resolution.{labels}
use rules_jvm.Examples.Generation.{nothing_generated}

abbrev main_package : Package
main_package = record package_without_files {
  name = new_package_name (codes "app");
  mains = new_class_name (new_package_name (codes "app")) (codes "Main") ∷ [];
}

abbrev surroundings : Outside
surroundings = record {
  parse_package = λ rel files. some main_package;
  is_directory = λ path. false;
}

abbrev app_args : GenerateArgs
app_args = record {
  rel = codes "app";
  file = none;
  regular_files = codes "Main.java" ∷ codes "README.md" ∷ [];
  subdirs = [];
  other_gen = [];
  other_empty = [];
}

abbrev before : Session Bool
before = record { generation = nothing_generated; java_package_cache = [] }

abbrev run : Session Bool → Option (Session Bool)
run = generate_rules labels (λ c. false) [] surroundings (new []) new_shared app_args

abbrev after : Session Bool
after = elim (run before) [ none ↦ before | some s ↦ s ]

-- A library and a binary, each with its input.
generate_rules_run :
    map {B = Text × Text} (λ (r : NewRule Bool). (r.kind, r.name)) after.generation.gen
    ≡ (codes "java_library", codes "app") ∷ (codes "java_binary", codes "Main") ∷ []
unfolding generate_rules generate_into new_result new new_shared
generate_rules_run = refl
