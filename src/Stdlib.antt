-- ===== src/Stdlib.antt =====
-- Which packages need no dependency: IsStdlib of java/gazelle/private/java/java.go and of
-- java/gazelle/private/kotlin/kotlin.go. `Prefix` has the proofs.
pub mod Prefixes
pub mod Prefix
use rules_jvm.Prelude.{Bool, true, false, List, any, codes, String}
use rules_jvm.Names.{PackageName, new_package_name, package_names_has_prefix}
use rules_jvm.Stdlib.Prefixes.{stdlib_prefixes, java_package}

-- The loop of `IsStdlib`: the first prefix that fits ends it.
unfoldable pub is_java_stdlib : PackageName → Bool
unfolding any package_names_has_prefix
is_java_stdlib imp = any (package_names_has_prefix imp) stdlib_prefixes

abbrev pub kotlin_std_lib_prefix : PackageName
kotlin_std_lib_prefix = java_package "kotlin"

abbrev pub kotlin_test_prefix : PackageName
kotlin_test_prefix = java_package "kotlin.test"

unfoldable pub is_kotlin_stdlib : PackageName → Bool
unfolding package_names_has_prefix
is_kotlin_stdlib imp = elim (package_names_has_prefix imp kotlin_test_prefix) [
  | true ↦ false
  | false ↦ package_names_has_prefix imp kotlin_std_lib_prefix
]
