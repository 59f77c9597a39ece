-- ===== src/Generate/Ends.antt =====
-- The parts of `GenerateRules` (java/gazelle/generate.go) that make libraries, binaries and tests, and what they do to
-- the rules and the inputs.
use rules_jvm.Prelude.{
  any, codes, map, refl, Bool, true, false, Option, none, some, List, [], ◌∷◌, Text, if◌then◌else◌,
}
use rules_jvm.Config.{is_text, scc_text}
use rules_jvm.SortedSet.View.{equiv, place_all}
use rules_jvm.Loads.{map_library_name, map_test_suite_name}
use rules_jvm.Names.{class_name_less, PackageName, ClassName}
use rules_jvm.Labels.{LabelLib}
use rules_jvm.Config.{Config}
use rules_jvm.Scc.{Dirs}
use rules_jvm.Scc.Groups.{Named, Result, new_graph}
use rules_jvm.Generate.Files.{JavaFile, base, Reasons, java_file_less}
use rules_jvm.Generate.Libraries.{File, Generation, mark_existing_libraries_for_deletion}
use rules_jvm.Generate.Modules.{
  production_packages, collect_dirs, nothing_collected, group_args, emit_groups,
  emit_module_production_libraries,
}
use rules_jvm.Generate.TestRules.{test_helper_libname}
use rules_jvm.Generate.Gather.{Gathered}
use rules_jvm.Generate.Resources.{resource_files}
use rules_jvm.Generate.Setting.{
  library_kind, aggregates, is_resources_root, resources_refs, packages_of_files, classes_of_files,
  GenerateArgs, Outside,
}
use rules_jvm.Generate.Production.{
  library_args, generate_production, generate_libraries, process_java_binary, generate_binaries,
}
use rules_jvm.Generate.Testing.{
  reasons_for, helper_args, test_imports, has_helpers, all_test_files, suite_srcs, generate_tests,
  generate_test_files, cache_helpers, generate_suite_rule, generate_suite, generate_all_tests,
}
use rules_jvm.Generate.Rules.{generate_gathered}
use rules_jvm.Generate.Grows.{
  Grows, Grows-cons, Ends, Grows-same, Grows-generate_resources, Ends-then, Ends-after, Ends-elim,
  Ends-if, Ends-cons, Ends-self, Ends-then_bind, Ends-generate_java_library,
  Ends-generate_java_binary, Ends-generate_java_test, Ends-generate_java_test_suite,
}

module _ (lib : LabelLib) {Expr : Type 0} where
  Ends-emit_groups :
      (cfg : Config) (b : Bool) (file : Option File) (locals : List Text) (rel d r : Text)
      (ds : Dirs) (groups : Named) (g : Generation Expr)
      → Ends g (emit_groups lib cfg b file locals rel d r ds groups g)
  unfolding emit_groups
  Ends-emit_groups cfg b file locals rel d r ds [] g = Ends-self g
  Ends-emit_groups cfg b file locals rel d r ds ((n, group) ∷ groups) g =
      Ends-elim g (collect_dirs cfg locals ds group.dirs nothing_collected) _ (λ c.
        Ends-then g _ _ (Ends-generate_java_library lib b file (group_args cfg rel d r n group c) g)
          (λ h. Ends-emit_groups cfg b file locals rel d r ds groups h))

  Ends-emit_module :
      (cfg : Config) (b : Bool) (file : Option File) (locals : List Text) (rel d r : Text)
      (cache : Dirs) (g : Generation Expr)
      → Ends g (emit_module_production_libraries lib cfg b file locals rel d r cache g)
  unfolding emit_module_production_libraries
  Ends-emit_module cfg b file locals rel d r cache g =
      go (new_graph (production_packages rel cache))
    where
      go :
          (o : Option Result)
          → Ends g (elim o [
            | none ↦ none
            | some (Result.error _) ↦ none
            | some (Result.graph groups) ↦
                emit_groups lib cfg b file locals rel d r (production_packages rel cache) groups g
          ])
      go none = unfold Ends in tt
      go (some (Result.error _)) = unfold Ends in tt
      go (some (Result.graph groups)) =
          Ends-emit_groups cfg b file locals rel d r (production_packages rel cache) groups g

  Ends-generate_production :
      (out : Outside) (cfg : Config) (b : Bool) (args : GenerateArgs) (files locals : List Text)
      (cache : Dirs) (s : Gathered Expr) (g : Generation Expr)
      → Ends g (generate_production lib out cfg b args files locals cache s g)
  unfolding generate_production Ends mark_existing_libraries_for_deletion
  Ends-generate_production out cfg b args files locals cache s g =
      Ends-cons g s.production_files _ _ (Ends-self g) (
        Ends-if (is_text cfg.module_granularity scc_text) g _ _
          (Ends-after g _ _ (marked args.file) (
            Ends-emit_module cfg b args.file locals args.rel (resources_refs out cfg).0
              (resources_refs out cfg).1 cache (mark_existing_libraries_for_deletion args.file g)))
          (Ends-generate_java_library lib b args.file (library_args lib out cfg args.rel files s)
            g))
    where
      marked : (file : Option File) → Grows g (mark_existing_libraries_for_deletion file g)
      marked none = Grows-same g g refl refl
      marked (some f) = Grows-same g _ refl refl

  Ends-generate_libraries :
      (out : Outside) (cfg : Config) (b : Bool) (args : GenerateArgs) (files locals : List Text)
      (cache : Dirs) (s : Gathered Expr) (g : Generation Expr)
      → Ends g (generate_libraries lib out cfg b args files locals cache s g)
  unfolding generate_libraries Ends
  Ends-generate_libraries out cfg b args [] locals cache s g =
      Ends-if (is_resources_root cfg args.rel) g _ _
        (Grows-generate_resources (library_kind cfg []) (aggregates cfg)
          (resource_files args.regular_files args.subdirs) g)
        (Ends-generate_production out cfg b args [] locals cache s g)
  Ends-generate_libraries out cfg b args (f ∷ fs) locals cache s g =
      Ends-generate_production out cfg b args (f ∷ fs) locals cache s g

  Ends-process_java_binary :
      (cfg : Config) (file : Option File) (rel : Text) (helpers ms : List ClassName)
      (g : Generation Expr)
      → Ends g (process_java_binary lib cfg file rel helpers ms g)
  unfolding process_java_binary
  Ends-process_java_binary cfg file rel helpers [] g = Ends-self g
  Ends-process_java_binary cfg file rel helpers (m ∷ ms) g =
      let lib_name = map_library_name cfg (base rel) in
      let is_helper = any (λ d. equiv class_name_less d m) helpers in
      Ends-then g _ _
        (Ends-generate_java_binary lib file m
          (if is_helper then test_helper_libname lib_name else lib_name) is_helper g)
        (λ h. Ends-process_java_binary cfg file rel helpers ms h)

  Ends-generate_binaries :
      (cfg : Config) (args : GenerateArgs) (s : Gathered Expr) (g : Generation Expr)
      → Ends g (generate_binaries lib cfg args s g)
  unfolding generate_binaries
  Ends-generate_binaries cfg args s g =
      Ends-if cfg.generate_binary g _ _
        (Ends-process_java_binary cfg args.file args.rel
          (classes_of_files s.accumulated.test_helper_files []) s.all_mains g)
        (Ends-self g)

  Ends-generate_tests :
      (cfg : Config) (args : GenerateArgs) (s : Gathered Expr)
      (imports : List PackageName × List ClassName) (helper : Option Text) (fs : List JavaFile)
      (g : Generation Expr)
      → Ends g (generate_tests lib cfg args s imports helper fs g)
  unfolding generate_tests
  Ends-generate_tests cfg args s imports helper [] g = Ends-self g
  Ends-generate_tests cfg args s imports helper (f ∷ fs) g =
      let reasons = reasons_for lib f s.accumulated.separate in
      Ends-then g _ _
        (Ends-generate_java_test lib args.file args.rel cfg.maven_repository_name f (aggregates cfg)
          imports.0 imports.1 s.annotation_processors helper reasons.wrapper reasons.attributes g)
        (λ h. Ends-generate_tests cfg args s imports helper fs h)

  Ends-generate_test_files :
      (cfg : Config) (b : Bool) (args : GenerateArgs) (files : List Text) (s : Gathered Expr)
      (g : Generation Expr)
      → Ends g (generate_test_files lib cfg b args files s g)
  unfolding generate_test_files
  Ends-generate_test_files cfg b args files s g =
      Ends-cons g s.accumulated.test_helper_files _ _
        (Ends-generate_tests cfg args s (test_imports lib false s) none s.accumulated.test_files g)
        (Ends-then g _ _
          (Ends-generate_java_library lib b args.file (helper_args lib cfg args.rel files s) g)
          (λ h.
            Ends-generate_tests cfg args s (test_imports lib true s) none s.accumulated.test_files
              h))

  Grows-cache_helpers :
      (rel suite : Text) (s : Gathered Expr) (g : Generation Expr)
      → Grows g (cache_helpers lib rel suite s g)
  unfolding cache_helpers
  Grows-cache_helpers rel suite s g =
      Grows-cons g s.accumulated.test_helper_files _ _ (Grows-same g g refl refl)
        (Grows-same g _ refl refl)

  Ends-generate_suite_rule :
      (cfg : Config) (args : GenerateArgs) (suite : Text) (s : Gathered Expr) (sources : List Text)
      (g : Generation Expr)
      → Ends g (generate_suite_rule lib cfg args suite s sources g)
  unfolding generate_suite_rule Ends
  Ends-generate_suite_rule cfg args suite s [] g = Ends-self g
  Ends-generate_suite_rule cfg args suite s (x ∷ xs) g =
      Ends-then g _ _
        (Ends-generate_java_test_suite lib args.file suite (x ∷ xs)
          (packages_of_files (all_test_files lib s) []) cfg.maven_repository_name
          (test_imports lib false s).0 (test_imports lib false s).1 s.annotation_processors
          cfg.custom_test_file_suffixes (has_helpers lib s) g)
        (λ h. Grows-cache_helpers args.rel suite s h)

  Ends-generate_suite :
      (cfg : Config) (args : GenerateArgs) (s : Gathered Expr) (g : Generation Expr)
      → Ends g (generate_suite lib cfg args s g)
  unfolding generate_suite
  Ends-generate_suite cfg args s g =
      let suite = map_test_suite_name cfg (base args.rel) (aggregates cfg) in
      let helper = if has_helpers lib s then some (test_helper_libname suite) else none in
      let separate =
        place_all java_file_less (map (λ (e : JavaFile × Reasons Expr). e.0) s.accumulated.separate)
          [] in
      Ends-then g _ _ (Ends-generate_suite_rule cfg args suite s (suite_srcs lib args.rel s) g)
        (λ h. Ends-generate_tests cfg args s (test_imports lib false s) helper separate h)

  Ends-generate_all_tests :
      (cfg : Config) (b : Bool) (args : GenerateArgs) (files : List Text) (s : Gathered Expr)
      (g : Generation Expr)
      → Ends g (generate_all_tests lib cfg b args files s g)
  unfolding generate_all_tests
  Ends-generate_all_tests cfg b args files s g =
      Ends-cons g (all_test_files lib s) _ _ (Ends-self g) (
        Ends-if (is_text cfg.test_mode (codes "file")) g _ _
          (Ends-generate_test_files cfg b args files s g)
          (Ends-if (is_text cfg.test_mode (codes "suite")) g _ _ (Ends-generate_suite cfg args s g)
            (Ends-self g)))

  pub Ends-generate_gathered :
      (out : Outside) (cfg : Config) (b : Bool) (args : GenerateArgs) (files locals : List Text)
      (cache : Dirs) (s : Gathered Expr) (g : Generation Expr)
      → Ends g (generate_gathered lib out cfg b args files locals cache s g)
  unfolding generate_gathered
  Ends-generate_gathered out cfg b args files locals cache s g =
      Ends-then_bind g _ _ (Ends-generate_libraries out cfg b args files locals cache s g) (λ h.
        Ends-then_bind h _ _ (Ends-generate_binaries cfg args s h)
          (λ k. Ends-generate_all_tests cfg b args files s k))
