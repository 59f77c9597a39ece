-- ===== src/Parser.antt =====
-- The client of the Java parser (java/gazelle/private/javaparser/javaparser.go): what `ParsePackage` makes of the
-- answer of the server. `Sets` is about the sets of classes in the result.
--
-- The gRPC call is a parameter: its reply is an argument. `unicode.IsUpper` and `strings.ToLower` are parameters too.
pub mod Sets
use rules_jvm.Prelude.{
  ℕ, Bool, Option, none, some, List, [], ◌∷◌, ◌++◌, map, Text, codes, text_dec, text_less, lookup,
  put,
}
use rules_jvm.Names.{
  PackageName, ClassName, new_package_name, new_class_name, parse_class_name, package_name_less,
  class_name_less,
}
use rules_jvm.SortedSet.View.{place, place_all}
use rules_jvm.JavaPackage.{Package, PerClassMetadata}
use rules_jvm.TestPackages.{is_test_package}

-- The messages of the protocol: texts by class, method and field.
pub record ClassResponse : Type 0 where
  pub annotation_class_names : List Text
  pub per_method_metadata : List (Text × List Text)
  pub per_field_metadata : List (Text × List Text)

pub record Response : Type 0 where
  pub name : Text
  pub imported_classes : List Text
  pub exported_classes : List Text
  pub internal_classes : List Text
  pub declared_classes : List Text
  pub imported_packages_without_specific_classes : List Text
  pub mains : List Text
  pub per_class_metadata : List (Text × ClassResponse)

-- What the call returns: an error of gRPC has a code and a message.
pub data Reply : Type 0 where
  responded : Response → Reply
  grpc_error : Text → Text → Reply
  other_error : Text → Reply

pub data Failure : Type 0 where
  rpc : Text → Failure
  annotation : Text → Text → Failure
  imports : Text → Failure
  exports : Text → Failure
  internal : Text → Failure
  declared : Text → Failure

pub data Outcome (A : Type 0) : Type 0 where
  failed : Failure → Outcome A
  returned : A → Outcome A

infixl 5 ◌>>=◌
abbrev pub ◌>>=◌ : {A B : Type 0} → Outcome A → (A → Outcome B) → Outcome B
failed f >>= k = failed f
returned a >>= k = k a

-- Add of a sorted multiset, in the order of its keys' first values.
unfoldable pub add_class :
    Text → ClassName → List (Text × List ClassName) → List (Text × List ClassName)
unfolding lookup put text_dec place class_name_less
add_class k c m =
    put text_dec k (place class_name_less c (elim (lookup text_dec k m) [ none ↦ [] | some s ↦ s ]))
      m

module _ (is_upper : ℕ → Bool) where
  -- A loop that parses names and adds them to a set.
  unfoldable pub parse_classes :
      (Text → Failure) → List Text → List ClassName → Outcome (List ClassName)
  unfolding parse_class_name place class_name_less
  parse_classes failure [] set = returned set
  parse_classes failure (t ∷ ts) set = elim (parse_class_name is_upper t) [
    | none ↦ failed (failure t)
    | some c ↦ parse_classes failure ts (place class_name_less c set)
  ]

  -- The annotations of one method or field.
  unfoldable pub parse_annotations :
      Text
      → Text
      → List Text
      → List (Text × List ClassName)
      → Outcome (List (Text × List ClassName))
  unfolding parse_class_name add_class
  parse_annotations k member [] m = returned m
  parse_annotations k member (t ∷ ts) m = elim (parse_class_name is_upper t) [
    | none ↦ failed (annotation k t)
    | some c ↦ parse_annotations k member ts (add_class member c m)
  ]

  unfoldable pub parse_members :
      Text
      → List (Text × List Text)
      → List (Text × List ClassName)
      → Outcome (List (Text × List ClassName))
  unfolding parse_annotations
  parse_members k [] m = returned m
  parse_members k ((member, ts) ∷ rest) m = do
    m' ← parse_annotations k member ts m
    parse_members k rest m'

  unfoldable pub parse_class : Text → ClassResponse → Outcome PerClassMetadata
  unfolding parse_classes parse_members
  parse_class k v = do
    own ← parse_classes (annotation k) v.annotation_class_names []
    methods ← parse_members k v.per_method_metadata []
    fields ← parse_members k v.per_field_metadata []
    returned (record {
      annotation_class_names = own;
      method_annotation_class_names = methods;
      field_annotation_class_names = fields;
    })

  -- The loop over the classes, in the order of the map's iteration.
  unfoldable pub parse_metadata :
      List (Text × ClassResponse)
      → List (Text × PerClassMetadata)
      → Outcome (List (Text × PerClassMetadata))
  unfolding parse_class put text_dec
  parse_metadata [] m = returned m
  parse_metadata ((k, v) ∷ rest) m = do
    metadata ← parse_class k v
    parse_metadata rest (put text_dec k metadata m)

  -- ParsePackage, after the call
  module _ (to_lower : Text → Text) (rel : Text) (in_files : List Text) where
    unfoldable pub package_from : Response → Outcome Package
    unfolding parse_metadata parse_classes place_all package_name_less class_name_less text_less
        is_test_package
    package_from r = do
      metadata ← parse_metadata r.per_class_metadata []
      let package_name = new_package_name r.name
      imported ← parse_classes imports r.imported_classes []
      exported ← parse_classes exports r.exported_classes []
      internals ← parse_classes internal r.internal_classes []
      declares ← parse_classes declared r.declared_classes []
      returned (record {
        name = package_name;
        imported_classes = some imported;
        exported_classes = exported;
        internal_classes = some internals;
        declared_classes = declares;
        imported_packages_without_specific_classes = some (
            place_all package_name_less
              (map new_package_name r.imported_packages_without_specific_classes) []);
        mains = place_all class_name_less (map (new_class_name package_name) r.mains) [];
        files = place_all text_less in_files [];
        test_package = is_test_package to_lower rel;
        per_class_metadata = metadata;
      })

    unfoldable pub parse_package : Reply → Outcome Package
    unfolding package_from
    parse_package (responded r) = package_from r
    parse_package (grpc_error code message) = failed (rpc (code ++ codes ": " ++ message))
    parse_package (other_error message) = failed (rpc message)
