-- ===== src/Examples/Config.antt =====
-- Runs and instances for the configuration.
use rules_jvm.Config.Flags.{
  Attributes, set_attribute, set_attributes, Extends, IsHeld, set_attributes-IsHeld,
}
use rules_jvm.Config.SourceSet.{source_set_of, detect_source_set, detect_source_set-resources}
use rules_jvm.Generate.Setting.{is_resources_root}
use rules_jvm.Prelude.{
  Memᴰ, Bool, ◌++◌, join, ◌==◌, false, ◌≡◌, inl, inr, refl, true, Option, none, some, List, [], ◌∷◌,
  Text, codes, text_dec, any, split, if◌then◌else◌,
}
use rules_jvm.Names.{ClassName, new_package_name, new_class_name}
use rules_jvm.Config.{
  Config, new, new_child, new_shared, set_module_granularity, starts_module, is_text, module_text,
  scc_text, has_suffix, is_java_test_file, set_java_test_file_suffixes,
}
use rules_jvm.Config.Directives.{Directive, apply, apply_all, apply_own, flag}
use rules_jvm.Config.Directives.Preserved.{IsValid, apply_all-kept}
use rules_jvm.Examples.{is_ascii_upper}
use rules_jvm.Config.Granularity.{descend, count_roots, is_set, descend_roots}
use rules_jvm.Config.Annotations.{is_java_test_file-set}

abbrev three_directories : List (Option Text)
three_directories = none ∷ some module_text ∷ some scc_text ∷ []

descend_roots_example :
    (cs : List Config) × (descend none (new []) three_directories ≡ some cs)
    × (count_roots cs ≡ (if any is_set three_directories then 1 else 0))
descend_roots_example = descend_roots [] three_directories (tt, (inl refl, (inr refl, tt)))

abbrev two_suffixes : Text
two_suffixes = codes "Test.java,IT.java"

is_java_test_file-set_example :
    is_java_test_file
      (codes "Test.java" ∷ [])
      (set_java_test_file_suffixes (codes "Test.java" ∷ []) two_suffixes (new []))
      (codes "FooIT.java")
    ≡ any (has_suffix (codes "FooIT.java")) (split b',' two_suffixes)
is_java_test_file-set_example =
    is_java_test_file-set (codes "Test.java" ∷ []) two_suffixes (new []) (codes "FooIT.java")

abbrev auto_value : ClassName
auto_value = new_class_name (new_package_name (codes "com.google.auto.value")) (codes "AutoValue")

abbrev processor : ClassName
processor = new_class_name (new_package_name (codes "com.google.auto.value")) (codes "Processor")

abbrev two_directives : List Directive
two_directives =
    record { key = codes "java_testonly"; value = codes "true" }
    ∷ record { key = codes "java_module_granularity"; value = codes "module" }
    ∷ []

abbrev configured : Config
configured = record (new []) {
  test_only = true;
  is_module_root = true;
  module_granularity = module_text;
}

apply_all-kept_example :
    IsValid configured × (is_text (codes "lib") [] ≡ false → new_shared {Expr = Bool} ≡ new_shared)
unfolding apply_all apply apply_own flag set_module_granularity starts_module new text_dec
apply_all-kept_example =
    apply_all-kept is_ascii_upper (λ c. c == b' ') [] (codes "lib") (some (new [])) two_directives
      (new []) configured new_shared new_shared (refl, refl, refl, refl) refl

app_segments :
    split b'/' (codes "app/src/test/resources")
    ≡ source_set_of (codes "app" ∷ []) (codes "test") ++ codes "resources" ∷ []
unfolding split
app_segments = refl

app_resources : (new []).generate_resources ≡ true
unfolding new
app_resources = refl

-- The directory of the resources of the tests.
detect_source_set-resources_example :
    ((detect_source_set (codes "app/src/test/resources") (new_child (new []))).sourceset_root
      ≡ join b'/' (source_set_of (codes "app" ∷ []) (codes "test")))
    × (is_resources_root
          (detect_source_set (codes "app/src/test/resources") (new_child (new [])))
          (codes "app/src/test/resources")
        ≡ true)
detect_source_set-resources_example =
    detect_source_set-resources (new []) (codes "app/src/test/resources") (codes "app" ∷ [])
      (codes "test") app_segments app_resources

abbrev test_flags : List Text
test_flags = codes "com.example.Flaky=flaky=True" ∷ codes "com.example.Flaky=size=large" ∷ []

abbrev test_attributes : Attributes
test_attributes =
    (codes "com.example.Flaky", (codes "flaky", codes "True") ∷ (codes "size", codes "large") ∷ [])
    ∷ []

test_flags_run : set_attributes test_flags [] ≡ some test_attributes
unfolding set_attributes set_attribute split
test_flags_run = refl

-- A second value for an attribute is refused.
test_flags_refused : set_attribute (codes "com.example.Flaky=size=small") test_attributes ≡ none
unfolding set_attribute split
test_flags_refused = refl

set_attributes-IsHeld_example :
    Extends [] test_attributes
    × ((t : Text) → Memᴰ t test_flags → IsHeld (split b'=' t) test_attributes)
set_attributes-IsHeld_example = set_attributes-IsHeld test_flags [] test_attributes test_flags_run
