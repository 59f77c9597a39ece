-- ===== src/Generate/Rules.antt =====
-- `GenerateRules` of java/gazelle/generate.go, from its parts.
--
-- The parser, the file system and what other languages generated are parameters. Deleting an intermediate build
-- file of a module is input and output, and left out. `none` is a log entry at the level Fatal or a panic.
use rules_jvm.Prelude.{
  ℕ, Bool, true, false, ◌&&◌, not, Option, none, some, List, [], ◌∷◌, Text, text_dec, put,
  if◌then◌else◌, ◌>>=◌,
}
use rules_jvm.Labels.{LabelLib}
use rules_jvm.Config.{Config, Shared, resolves_to_java_exports}
use rules_jvm.JavaPackage.{Package}
use rules_jvm.Scc.{Dirs}
use rules_jvm.Generate.Libraries.{Generation}
use rules_jvm.Generate.Gather.{
  Gathered, nothing_gathered, likely_local_class_names, gather_package, gather_module,
}
use rules_jvm.Generate.Protos.{generate_proto_libraries}
use rules_jvm.Generate.Setting.{
  GenerateArgs, Outside, Session, source_files, aggregates, has_nothing_to_do, package_of,
  new_result,
}
use rules_jvm.Generate.Production.{generate_libraries, generate_binaries}
use rules_jvm.Generate.Testing.{generate_all_tests}

module _ (lib : LabelLib) {Expr : Type 0} where
  -- What follows the sorting of the sources.
  unfoldable pub generate_gathered :
      Outside
      → Config
      → Bool
      → GenerateArgs
      → List Text
      → List Text
      → Dirs
      → Gathered Expr
      → Generation Expr
      → Option (Generation Expr)
  unfolding generate_libraries generate_binaries generate_all_tests
  generate_gathered out cfg to_exports args files locals cache g gen = do
    with_libraries ← generate_libraries lib out cfg to_exports args files locals cache g gen
    with_binaries ← generate_binaries lib cfg args g with_libraries
    generate_all_tests lib cfg to_exports args files g with_binaries

  module _ (is_upper : ℕ → Bool) (defaults : List Text) (out : Outside) (cfg : Config)
      (shared : Shared Expr) where
    abbrev pub gathered : GenerateArgs → List Text → List Text → Package → Dirs → Gathered Expr
    gathered args files locals pkg cache =
        if aggregates cfg
        then gather_module is_upper defaults cfg shared args.rel locals cache nothing_gathered
        else gather_package is_upper defaults cfg shared false locals args.rel pkg files
            nothing_gathered

    unfoldable pub cache_package : Text → List Text → Package → Dirs → Dirs
    unfolding put text_dec aggregates
    cache_package rel [] pkg cache = cache
    cache_package rel (f ∷ fs) pkg cache =
        if aggregates cfg then put text_dec rel pkg cache else cache

    unfoldable pub generate_package :
        GenerateArgs → List Text → Package → Session Expr → Option (Session Expr)
    unfolding generate_gathered gather_module gather_package likely_local_class_names cache_package
        aggregates resolves_to_java_exports
    generate_package args files pkg s =
        let locals = likely_local_class_names files [] in
        let cache = cache_package args.rel files pkg s.java_package_cache in
        elim (aggregates cfg && not cfg.is_module_root) [
          | true ↦ some (record s { java_package_cache = cache })
          | false ↦
              elim (generate_gathered out cfg (resolves_to_java_exports shared) args files locals
                cache (gathered args files locals pkg cache) s.generation) [
                  | none ↦ none
                  | some gen ↦ some (record { generation = gen; java_package_cache = cache })
                ]
        ]

    unfoldable pub generate_protos : GenerateArgs → Generation Expr → Option (Generation Expr)
    unfolding generate_proto_libraries
    generate_protos args gen = elim cfg.generate_proto [
      | false ↦ some gen
      | true ↦ generate_proto_libraries lib cfg args.rel args.other_gen args.other_empty gen
    ]

    -- What follows the rules for proto libraries.
    unfoldable pub generate_sources :
        GenerateArgs → List Text → Session Expr → Option (Session Expr)
    unfolding generate_package package_of has_nothing_to_do
    generate_sources args files s = elim (has_nothing_to_do cfg args.rel files) [
      | true ↦ some s
      | false ↦ elim (package_of out cfg args.rel files) [
        | none ↦ none
        | some pkg ↦ generate_package args files pkg s
      ]
    ]

    -- GenerateRules, for the result that it fills.
    unfoldable pub generate_into : GenerateArgs → Session Expr → Option (Session Expr)
    unfolding generate_protos generate_sources source_files
    generate_into args s = elim cfg.extension_enabled [
      | false ↦ some s
      | true ↦ elim (generate_protos args s.generation) [
        | none ↦ none
        | some gen ↦
            generate_sources args (source_files cfg args.regular_files)
              (record s { generation = gen })
      ]
    ]

    -- GenerateRules
    unfoldable pub generate_rules : GenerateArgs → Session Expr → Option (Session Expr)
    unfolding generate_into new_result
    generate_rules args s = generate_into args (record s { generation = new_result s.generation })
