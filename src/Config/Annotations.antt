-- ===== src/Config/Annotations.antt =====
-- The maps by annotation and the patterns of test files of java/gazelle/javaconfig/config.go.
use rules_jvm.Prelude.{
  ◌≡◌, refl, inl, inr, ite, true, Option, none, some, List, [], ◌∷◌, Text, text_dec, any, split,
  arith, lookup, put, lookup-put, Bool-cases,
}
use rules_jvm.Names.{ClassName, fully_qualified_class_name, class_name_less}
use rules_jvm.SortedSet.View.{place}
use rules_jvm.Config.{
  Config, Shared, ClassSets, has_suffix, is_java_test_file, equal_string_slices,
  set_java_test_file_suffixes, add_class, classes_of, add_annotation_processor_plugin,
  get_annotation_processor_plugin_classes, get_annotation_processor_extra_imports,
  map_annotation_to_attribute, attributes_for_annotation,
}

equal_string_slices→ : (ls rs : List Text) → equal_string_slices ls rs ≡ true → ls ≡ rs
unfolding equal_string_slices
equal_string_slices→ [] [] h = refl
equal_string_slices→ [] (r ∷ rs) h = cc
equal_string_slices→ (l ∷ ls) [] h = cc
equal_string_slices→ (l ∷ ls) (r ∷ rs) h = ground (arith, equal_string_slices→ ls rs)

-- After the suffixes are set, a file is a test exactly when its name ends in one of the given suffixes:
-- that the default suffixes are stored as no suffixes makes no difference.
pub is_java_test_file-set :
    (defaults : List Text) (s : Text) (c : Config) (basename : Text)
    → is_java_test_file defaults (set_java_test_file_suffixes defaults s c) basename
      ≡ any (has_suffix basename) (split b',' s)
unfolding is_java_test_file set_java_test_file_suffixes
is_java_test_file-set defaults s c basename =
    elim (Bool-cases (equal_string_slices (split b',' s) defaults)) [
      | inl same ↦ ground (arith, equal_string_slices→ (split b',' s) defaults same)
      | inr other ↦ ground arith
    ]

classes_of-add_class :
    (a v b : ClassName) (m : ClassSets)
    → classes_of b (add_class a v m)
      ≡ ite
          (text_dec (fully_qualified_class_name a) (fully_qualified_class_name b))
          (place class_name_less v (classes_of a m))
          (classes_of b m)
unfolding classes_of add_class place
classes_of-add_class a v b m =
    let key = fully_qualified_class_name a in
    let old = classes_of a m in
    ground (
      arith,
      lookup-put text_dec key (fully_qualified_class_name b) (v ∷ []) (put text_dec key [] m),
      lookup-put text_dec key (fully_qualified_class_name b) [] m,
      lookup-put text_dec key (fully_qualified_class_name b) (place class_name_less v old) m,
    )

-- Adding a plugin to an annotation puts it into the set of that annotation, whether or not it had one,
-- and changes neither the plugins of other annotations nor any extra import.
pub get_annotation_processor_plugin_classes-add :
    (a v b : ClassName) (c : Config)
    → (get_annotation_processor_plugin_classes (add_annotation_processor_plugin a v c) b
        ≡ ite
            (text_dec (fully_qualified_class_name a) (fully_qualified_class_name b))
            (place class_name_less v (get_annotation_processor_plugin_classes c a))
            (get_annotation_processor_plugin_classes c b))
      × (get_annotation_processor_extra_imports (add_annotation_processor_plugin a v c) b
          ≡ get_annotation_processor_extra_imports c b)
unfolding get_annotation_processor_plugin_classes add_annotation_processor_plugin
    get_annotation_processor_extra_imports
get_annotation_processor_plugin_classes-add a v b c =
    (classes_of-add_class a v b c.plugin_classes, refl)

abbrev pub or_no_attributes : {Expr : Type 0} → Option (List (Text × Expr)) → List (Text × Expr)
or_no_attributes none = []
or_no_attributes (some m) = m

-- After an annotation is mapped to an attribute, that attribute has the given value for it, and all other
-- attributes, of this annotation and of others, are as before.
pub attributes_for_annotation-map :
    {Expr : Type 0} (a k : Text) (v : Expr) (s : Shared Expr) (b j : Text)
    → lookup text_dec j
        (or_no_attributes (attributes_for_annotation (map_annotation_to_attribute a k v s) b))
      ≡ ite
          (text_dec a b)
          (ite
            (text_dec k j)
            (some v)
            (lookup text_dec j (or_no_attributes (attributes_for_annotation s b))))
          (lookup text_dec j (or_no_attributes (attributes_for_annotation s b)))
unfolding attributes_for_annotation map_annotation_to_attribute
attributes_for_annotation-map a k v s b j =
    let m = s.annotation_to_attribute in
    let old = or_no_attributes (lookup text_dec a m) in
    ground (
      arith,
      lookup-put text_dec a b ((k, v) ∷ []) (put text_dec a [] m),
      lookup-put text_dec a b [] m,
      lookup-put text_dec a b (put text_dec k v old) m,
      lookup-put text_dec k j v old,
      lookup-put text_dec k j v [],
    )
