-- ===== src/Generate/Declared.antt =====
-- Generation and resolution (java/gazelle/generate.go, java/gazelle/resolve.go): the classes of a generated
-- library.
use rules_jvm.Prelude.{
  ◌≡◌, inl, inr, ap, ◌∙◌, Bool, false, Option, none, some, List, [], text_dec, put, lookup-put_self,
  any, arith, Option-cases,
}
use rules_jvm.Names.{ClassName}
use rules_jvm.Labels.{Label, LabelLib}
use rules_jvm.Resolve.Classes.{
  ClassExportInfo, ClassExportCache, cache_key, rule_declares_class, same_outer_class,
}
use rules_jvm.Generate.Libraries.{
  File, Generation, LibraryArgs, collect_runtime_deps, record_library, cache_classes, library_key,
  generate_java_library,
}

module _ (lib : LabelLib) where
  rule_declares_class-put :
      (l : Label) (info : ClassExportInfo) (cache : ClassExportCache) (c : ClassName)
      → rule_declares_class lib (put text_dec (cache_key lib l) info cache) l c
        ≡ any (λ d. same_outer_class lib d c) info.classes
  unfolding rule_declares_class
  rule_declares_class-put l info cache c =
      ap
        (λ (o : Option ClassExportInfo). elim o [
          | none ↦ false
          | some i ↦ any (λ d. same_outer_class lib d c) i.classes
        ])
        (lookup-put_self text_dec (cache_key lib l) info cache)

  cached :
      {Expr : Type 0} (to_exports : Bool) (file : Option File) (a : LibraryArgs)
      (g g' : Generation Expr)
      → generate_java_library lib to_exports file a g ≡ some g'
      → g'.class_export_cache ≡ cache_classes lib a g.class_export_cache
  unfolding generate_java_library
  cached to_exports file a g g' h = elim (Option-cases (collect_runtime_deps lib a.name file)) [
    | inl e ↦ absurd (ground arith)
    | inr (ds, e) ↦ elim (Option-cases (record_library lib to_exports file a g.java_export_index)) [
      | inl f ↦ absurd (ground arith)
      | inr (jei, f) ↦ ground arith
    ]
  ]

  -- After a library was generated with its classes, the resolver takes a class to be declared by the library's
  -- label exactly when one of these classes has its package and its outer name.
  pub generate_java_library-rule_declares_class :
      {Expr : Type 0} (to_exports : Bool) (file : Option File) (a : LibraryArgs)
      (g g' : Generation Expr) (classes : List ClassName) (relative : Bool) (c : ClassName)
      → generate_java_library lib to_exports file a g ≡ some g'
      → a.exported_classes ≡ some classes
      → rule_declares_class lib g'.class_export_cache
          (record { repo = []; pkg = a.rel; name = a.name; relative = relative })
          c
        ≡ any (λ d. same_outer_class lib d c) classes
  generate_java_library-rule_declares_class to_exports file a g g' classes relative c h e =
      ap (λ cache. rule_declares_class lib cache l c) (cached to_exports file a g g' h ∙ stored)
      ∙ rule_declares_class-put l info g.class_export_cache c
    where
      l : Label
      l = record { repo = []; pkg = a.rel; name = a.name; relative = relative }

      info : ClassExportInfo
      info = record { classes = classes; testonly = a.test_only }

      stored :
          cache_classes lib a g.class_export_cache
          ≡ put text_dec (cache_key lib l) info g.class_export_cache
      stored =
          unfold cache_classes library_key cache_key in
          ap
            (λ (o : Option (List ClassName)). elim o [
              | none ↦ g.class_export_cache
              | some cs ↦
                  put text_dec (lib.to_string (lib.new [] a.rel a.name))
                    (record { classes = cs; testonly = a.test_only }) g.class_export_cache
            ])
            e
