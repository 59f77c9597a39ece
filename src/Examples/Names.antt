-- ===== src/Examples/Names.antt =====
-- Runs and instances for the names of packages and classes.
use rules_jvm.Prelude.{
  ◌≡◌, ◌↔◌, ◌⊎◌, refl, inr, true, false, none, some, List, [], ◌∷◌, ◌++◌, Text, codes, has_prefix,
  split, text_dec, any,
}
use rules_jvm.Names.{
  dot, bang, ClassName, new_package_name, package_parts, fully_qualified_class_name,
  parse_class_name, package_names_has_prefix,
}
use rules_jvm.Names.Parse.{fully_qualified_class_name-parse, parse-fully_qualified_class_name}
use rules_jvm.Names.Resolvable.{
  ResolvableJavaPackage, new_resolvable_java_package, to_string, parse_resolvable, parse-to_string,
  parse-to_string_both,
}
use rules_jvm.Stdlib.{is_java_stdlib}
use rules_jvm.TestPackages.{is_test_package, is_test_package-source_sets}
use rules_jvm.Stdlib.Prefixes.{java_package}
use rules_jvm.Stdlib.Prefix.{segments, package_names_has_prefix_iff, is_java_stdlib-subpackage}
use rules_jvm.Examples.{is_ascii_upper, lacks}

abbrev map_entry : ClassName
map_entry = record {
  package_name = new_package_name (codes "java.util");
  bare_outer_class_name = codes "Map";
  inner_class_names = codes "Entry" ∷ [];
}

fully_qualified_class_name-parse_example :
    (c : ClassName) × (parse_class_name is_ascii_upper (codes "java.util.Map.Entry") ≡ some c)
    × ((fully_qualified_class_name c ≡ codes "java.util.Map.Entry")
        ⊎ (codes "java.util.Map.Entry" ≡ dot ∷ fully_qualified_class_name c))
fully_qualified_class_name-parse_example =
    fully_qualified_class_name-parse is_ascii_upper (codes "java.util.Map.Entry")

parse-fully_qualified_class_name_example :
    parse_class_name is_ascii_upper (fully_qualified_class_name map_entry) ≡ some map_entry
unfolding package_parts split text_dec any
parse-fully_qualified_class_name_example =
    parse-fully_qualified_class_name is_ascii_upper map_entry (refl, (refl, tt)) refl (refl, tt)
      (lacks dot (codes "Map") refl, (lacks dot (codes "Entry") refl, tt))

abbrev only_tests : ResolvableJavaPackage
only_tests = new_resolvable_java_package (new_package_name (codes "com.example")) true false

parse-to_string_example : parse_resolvable (to_string only_tests) ≡ some only_tests
unfolding any
parse-to_string_example =
    parse-to_string only_tests (lacks bang (codes "com.example") refl) (inr refl)

parse-to_string_both_example :
    parse_resolvable
      (to_string (new_resolvable_java_package (new_package_name (codes "com.example")) true true))
    ≡ none
unfolding any
parse-to_string_both_example =
    parse-to_string_both (new_package_name (codes "com.example"))
      (lacks bang (codes "com.example") refl)

package_names_has_prefix_iff_example :
    (package_names_has_prefix (java_package "java.util.concurrent") (java_package "java.util")
      ≡ true)
    ↔ ((rest : List Text) × (segments (java_package "java.util.concurrent")
          ≡ segments (java_package "java.util") ++ rest))
package_names_has_prefix_iff_example =
    package_names_has_prefix_iff (java_package "java.util.concurrent") (java_package "java.util")

is_java_stdlib-subpackage_example : is_java_stdlib (java_package "java.util.concurrent") ≡ true
unfolding is_java_stdlib any package_names_has_prefix has_prefix split
is_java_stdlib-subpackage_example =
    is_java_stdlib-subpackage (java_package "java.util.concurrent") (java_package "java.util")
      (codes "concurrent" ∷ []) refl refl

is_test_package-source_sets_example :
    (is_test_package (λ t. t) (codes "src/test/java/com") ≡ true)
    × (is_test_package (λ t. t) (codes "src/main/java/com") ≡ false)
is_test_package-source_sets_example =
    is_test_package-source_sets (λ t. t) refl refl (codes "java/com")
