-- ===== src/JavaPackage.antt =====
-- The data that parsing yields for one package (java/gazelle/private/java/package.go). A set is its
-- ascending list, and `none` a nil set where the program asks for it.
use rules_jvm.Prelude.{Bool, Option, List, [], ◌∷◌, Text}
use rules_jvm.Names.{PackageName, ClassName, class_name_less}
use rules_jvm.SortedSet.View.{place_all}

pub record PerClassMetadata : Type 0 where
  pub annotation_class_names : List ClassName
  pub method_annotation_class_names : List (Text × List ClassName)
  pub field_annotation_class_names : List (Text × List ClassName)

pub record Package : Type 0 where
  pub name : PackageName
  pub imported_classes : Option (List ClassName)
  pub exported_classes : List ClassName
  pub internal_classes : Option (List ClassName)
  pub declared_classes : List ClassName
  pub imported_packages_without_specific_classes : Option (List PackageName)
  pub mains : List ClassName
  pub files : List Text
  pub test_package : Bool
  pub per_class_metadata : List (Text × PerClassMetadata)

-- The values of every key of a multiset.
unfoldable pub add_values : List (Text × List ClassName) → List ClassName → List ClassName
unfolding place_all class_name_less
add_values [] set = set
add_values ((_, values) ∷ m) set = add_values m (place_all class_name_less values set)

-- The loop over the classes, in the order of the map's iteration.
unfoldable pub annotations_of : List (Text × PerClassMetadata) → List ClassName → List ClassName
unfolding add_values place_all class_name_less
annotations_of [] set = set
annotations_of ((_, pcm) ∷ m) set = annotations_of m (
    add_values pcm.field_annotation_class_names (
      add_values pcm.method_annotation_class_names
        (place_all class_name_less pcm.annotation_class_names set)))

-- AllAnnotations
unfoldable pub all_annotations : Package → List ClassName
unfolding annotations_of
all_annotations p = annotations_of p.per_class_metadata []
