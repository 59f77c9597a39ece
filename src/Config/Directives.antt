-- ===== src/Config/Directives.antt =====
-- The directives of a build file (java/gazelle/configure.go): the switch of `Configure` over the key of a
-- directive, on the configuration of its directory and the state that all configurations share.
-- `Preserved` proves what they keep.
--
-- `none` is a log entry at the level Fatal, which ends the run. `unicode.IsUpper` and `unicode.IsSpace` are
-- parameters.
pub mod Preserved
use rules_jvm.Prelude.{
  ℕ, ite, Bool, true, false, not, Option, none, some, List, [], ◌∷◌, ◌++◌, Text, codes, text_dec,
  is_yes, if◌then◌else◌, ◌>>=◌,
}
use rules_jvm.Names.{ClassName, parse_class_name}
use rules_jvm.Config.{
  Config, Shared, is_text, set_module_granularity, set_test_mode, set_java_test_file_suffixes,
  add_excluded_artifact, add_annotation_processor_plugin, add_annotation_processor_extra_import,
  set_library_naming_convention, set_test_suite_naming_convention, set_resolve_to_java_exports,
  can_set_resolve_to_java_exports,
}

pub record Directive : Type 0 where
  pub key : Text
  pub value : Text

-- The inner switch over two words: the word for true first.
unfoldable pub flag : Text → Text → Text → Option Bool
unfolding text_dec
flag on off value =
    if is_text value on then some true else if is_text value off then some false else none

abbrev pub true_or_false : Text → Option Bool
true_or_false = flag (codes "true") (codes "false")

module _ (is_upper is_space : ℕ → Bool) where
  -- The words that follow, with the current word reversed at the front of the state.
  unfoldable pub finish : Text → List Text → List Text
  finish [] rest = rest
  finish (c ∷ word) rest = (c ∷ word) ∷ rest

  -- strings.Fields: `word` is what was read of the current word.
  unfoldable pub fields_from : Text → Text → List Text
  fields_from word [] = finish word []
  fields_from word (c ∷ s) =
      let next = fields_from [] s in
      let longer = fields_from (word ++ c ∷ []) s in if is_space c then finish word next else longer

  -- parseTwoClassNamesDirective
  unfoldable pub two_class_names_of : List Text → Option (ClassName × ClassName)
  two_class_names_of [] = none
  two_class_names_of (a ∷ []) = none
  two_class_names_of (a ∷ b ∷ []) = do
    first ← parse_class_name is_upper a
    second ← parse_class_name is_upper b
    some (first, second)
  two_class_names_of (a ∷ b ∷ c ∷ rest) = none

  unfoldable pub parse_two_class_names : Text → Option (ClassName × ClassName)
  parse_two_class_names value = two_class_names_of (fields_from [] value)

  -- The cases of the switch that change the configuration of the directory only; `test_defaults` are the
  -- patterns that the build generates. A key that is not listed changes nothing.
  unfoldable pub apply_own : List Text → Option Config → Directive → Config → Option Config
  apply_own test_defaults parent d c =
      if is_text d.key (codes "java_exclude_artifact")
      then some (add_excluded_artifact d.value c)
      else if is_text d.key (codes "java_extension")
      then (do
        b ← flag (codes "enabled") (codes "disabled") d.value
        some (record c { extension_enabled = b }))
      else if is_text d.key (codes "java_maven_install_file")
      then some (record c { maven_install_file = d.value })
      else if is_text d.key (codes "maven_index_file")
      then some (record c { maven_index_file = d.value })
      else if is_text d.key (codes "java_module_granularity")
      then set_module_granularity parent d.value c
      else if is_text d.key (codes "java_test_file_suffixes")
      then some (set_java_test_file_suffixes test_defaults d.value c)
      else if is_text d.key (codes "java_test_mode")
      then (elim (set_test_mode d.value c) [ none ↦ some c | some c' ↦ some c' ])
      else if is_text d.key (codes "java_maven_repository_name")
      then some (record c { maven_repository_name = d.value })
      else if is_text d.key (codes "java_generate_proto")
      then (do b ← true_or_false d.value; some (record c { generate_proto = b }))
      else if is_text d.key (codes "java_generate_proto_services")
      then (do b ← true_or_false d.value; some (record c { generate_proto_services = b }))
      else if is_text d.key (codes "java_generate_binary")
      then (do b ← true_or_false d.value; some (record c { generate_binary = b }))
      else if is_text d.key (codes "java_generate_resources")
      then (do b ← true_or_false d.value; some (record c { generate_resources = b }))
      else if is_text d.key (codes "java_annotation_processor_plugin")
      then (do p ← parse_two_class_names d.value; some (add_annotation_processor_plugin p.0 p.1 c))
      else if is_text d.key (codes "java_annotation_processor_extra_imports")
      then (do
        p ← parse_two_class_names d.value
        some (add_annotation_processor_extra_import p.0 p.1 c))
      else if is_text d.key (codes "java_sourceset_root")
      then some (record c { sourceset_root = d.value })
      else if is_text d.key (codes "java_strip_resources_prefix")
      then some (record c { strip_resources_prefix = d.value })
      else if is_text d.key (codes "jvm_kotlin_enabled")
      then (do b ← true_or_false d.value; some (record c { kotlin_enabled = b }))
      else if is_text d.key (codes "java_testonly")
      then (do b ← true_or_false d.value; some (record c { test_only = b }))
      else if is_text d.key (codes "java_library_naming_convention")
      then set_library_naming_convention d.value c
      else if is_text d.key (codes "java_test_suite_naming_convention")
      then set_test_suite_naming_convention d.value c
      else some c

  -- The case of java_resolve_to_java_exports, in the directory `rel`.
  unfoldable pub apply_resolve : {Expr : Type 0} → Text → Text → Shared Expr → Option (Shared Expr)
  unfolding text_dec
  apply_resolve rel value s =
      if not (can_set_resolve_to_java_exports s)
      then none
      else if not (is_text rel [])
      then none
      else (do b ← true_or_false value; set_resolve_to_java_exports b s)

  -- The body of the loop over the directives.
  unfoldable pub apply :
      {Expr : Type 0}
      → List Text
      → Text
      → Option Config
      → Directive
      → Config × Shared Expr
      → Option (Config × Shared Expr)
  apply test_defaults rel parent d (c, s) =
      if is_text d.key (codes "java_resolve_to_java_exports")
      then (do s' ← apply_resolve rel d.value s; some (c, s'))
      else (do c' ← apply_own test_defaults parent d c; some (c', s))

  unfoldable pub apply_all :
      {Expr : Type 0}
      → List Text
      → Text
      → Option Config
      → List Directive
      → Config × Shared Expr
      → Option (Config × Shared Expr)
  apply_all test_defaults rel parent [] state = some state
  apply_all test_defaults rel parent (d ∷ ds) state =
      elim (apply test_defaults rel parent d state) [
        | none ↦ none
        | some state' ↦ apply_all test_defaults rel parent ds state'
      ]
