-- ===== src/Generate/Protos.antt =====
-- Rules for the proto libraries that Gazelle generated (`generateProtoLibraries` of java/gazelle/generate.go).
--
-- proto.Package is of Gazelle: a record of the fields that are read.
use rules_jvm.Prelude.{
  Bool, true, false, ◌&&◌, Option, none, some, List, [], ◌∷◌, ◌++◌, map, Text, codes, text_dec,
  text_less, lookup, put, if◌then◌else◌,
}
use rules_jvm.Prelude.Sort.{sort, insert}
use rules_jvm.Names.{PackageName, ClassName, new_package_name, new_class_name}
use rules_jvm.Names.Resolvable.{new_resolvable_java_package}
use rules_jvm.Labels.{LabelLib}
use rules_jvm.Config.{Config}
use rules_jvm.Resolve.Classes.{ClassExportCache}
use rules_jvm.Generate.Files.{same, proto_java_rule_names, proto_outer_class_name}
use rules_jvm.Generate.Libraries.{NewRule, Generation, list_attr, new_rule, input_of}
use rules_jvm.Generate.Resources.{emit, no_input}

pub record FileInfo : Type 0 where
  pub name : Text
  pub options : List (Text × Text)
  pub messages : List Text
  pub enums : List Text
  pub services : List Text

pub record ProtoPackage : Type 0 where
  pub options : List (Text × Text)
  pub has_services : Bool
  pub files : List (Text × FileInfo)

-- A rule of another language. `none` is a private attribute that is no package, whose use is a panic.
pub record OtherRule : Type 0 where
  pub kind : Text
  pub name : Text
  pub proto_package : Option ProtoPackage

abbrev pub is_proto_library : OtherRule → Bool
is_proto_library r = same r.kind (codes "proto_library")

-- protoPackages, by the names of the rules.
unfoldable pub proto_packages :
    List OtherRule → List (Text × ProtoPackage) → Option (List (Text × ProtoPackage))
unfolding put text_dec
proto_packages [] m = some m
proto_packages (r ∷ rs) m = elim (is_proto_library r) [
  | false ↦ proto_packages rs m
  | true ↦ elim r.proto_package [
    | none ↦ none
    | some p ↦ proto_packages rs (put text_dec r.name p m)
  ]
]

unfoldable pub proto_rule_names : List OtherRule → List Text
unfolding text_dec
proto_rule_names [] = []
proto_rule_names (r ∷ rs) =
    let rest = proto_rule_names rs in if is_proto_library r then r.name ∷ rest else rest

-- The classes of one file, and of all of them in an order of the map's iteration.
unfoldable pub file_classes : PackageName → FileInfo → List ClassName
unfolding proto_outer_class_name text_dec
file_classes pkg info =
    let outer = proto_outer_class_name info.name info.options in
    (if same outer [] then [] else new_class_name pkg outer ∷ [])
    ++ map (new_class_name pkg) info.messages
    ++ map (new_class_name pkg) info.enums
    ++ map (new_class_name pkg) info.services

unfoldable pub proto_classes : PackageName → List (Text × FileInfo) → List ClassName
unfolding file_classes
proto_classes pkg [] = []
proto_classes pkg ((_, info) ∷ fs) = file_classes pkg info ++ proto_classes pkg fs

-- The options of a package name the one of Java.
unfoldable pub java_package_of : ProtoPackage → PackageName
unfolding lookup text_dec
java_package_of p = elim (lookup text_dec (codes "java_package") p.options) [
  | none ↦ new_package_name []
  | some t ↦ new_package_name t
]

abbrev pub no_classes_or : List ClassName → Option (List ClassName)
no_classes_or [] = none
no_classes_or (c ∷ cs) = some (c ∷ cs)

abbrev pub local_label : Text → Text
local_label name = codes ":" ++ name

-- The rules that go with the proto libraries that are deleted.
unfoldable pub empty_proto_rules : List OtherRule → List (Text × Text)
unfolding proto_java_rule_names text_dec
empty_proto_rules [] = []
empty_proto_rules (r ∷ rs) =
    let rest = empty_proto_rules rs in
    let names = proto_java_rule_names r.name in
    if is_proto_library r
    then (codes "java_proto_library", names.0)
      ∷ (codes "java_grpc_library", names.1)
      ∷ (codes "java_library", names.2)
      ∷ rest
    else rest

module _ (lib : LabelLib) where
  unfoldable pub cache_proto_classes :
      Text → Text → List ClassName → ClassExportCache → ClassExportCache
  unfolding put text_dec
  cache_proto_classes rel name [] cache = cache
  cache_proto_classes rel name (c ∷ cs) cache =
      put text_dec (lib.to_string (lib.new [] rel name))
        (record { classes = c ∷ cs; testonly = false }) cache

  module _ {Expr : Type 0} where
    unfoldable pub proto_rule : Text → Text → NewRule Expr
    unfolding list_attr
    proto_rule proto_name name = record (new_rule (codes "java_proto_library") name) {
      lists = list_attr (codes "deps") (local_label proto_name ∷ []) [];
    }

    unfoldable pub grpc_rule : Text → Text → Text → NewRule Expr
    unfolding list_attr
    grpc_rule proto_name java_proto_name name = record (new_rule (codes "java_grpc_library") name) {
      lists =
          list_attr (codes "deps") (local_label java_proto_name ∷ [])
            (list_attr (codes "srcs") (local_label proto_name ∷ []) []);
    }

    unfoldable pub proto_java_library :
        PackageName → List ClassName → List Text → Text → NewRule Expr
    unfolding list_attr
    proto_java_library pkg classes exports name = record (new_rule (codes "java_library") name) {
      lists =
          list_attr (codes "exports") exports
            (list_attr (codes "visibility") (codes "//:__subpackages__" ∷ []) []);
      packages = new_resolvable_java_package pkg false false ∷ [];
      classes = no_classes_or classes;
    }

    -- The body of the loop over the proto libraries.
    unfoldable pub generate_proto_library :
        Config → Text → Text → ProtoPackage → Generation Expr → Generation Expr
    unfolding emit proto_rule grpc_rule proto_java_library proto_java_rule_names proto_classes
        java_package_of cache_proto_classes
    generate_proto_library cfg rel proto_name p g =
        let names = proto_java_rule_names proto_name in
        let services = p.has_services && cfg.generate_proto_services in
        let pkg = java_package_of p in
        let classes = proto_classes pkg p.files in
        let own = local_label names.0 ∷ [] in
        let exports = if services then local_label names.1 ∷ own else own in
        let g1 = emit (proto_rule proto_name names.0) no_input g in
        let g2 = if services then emit (grpc_rule proto_name names.0 names.1) no_input g1 else g1 in
        emit (proto_java_library pkg classes exports names.2) (input_of (pkg ∷ []) [] [] [])
          (record g2 {
            class_export_cache = cache_proto_classes rel names.2 classes g2.class_export_cache;
          })

    unfoldable pub generate_proto_rules :
        Config → Text → List (Text × ProtoPackage) → List Text → Generation Expr → Generation Expr
    unfolding generate_proto_library lookup text_dec
    generate_proto_rules cfg rel packages [] g = g
    generate_proto_rules cfg rel packages (n ∷ ns) g =
        generate_proto_rules cfg rel packages ns (elim (lookup text_dec n packages) [
          | none ↦ g
          | some p ↦ generate_proto_library cfg rel n p g
        ])

    -- generateProtoLibraries
    unfoldable pub generate_proto_libraries :
        Config → Text → List OtherRule → List OtherRule → Generation Expr → Option (Generation Expr)
    unfolding proto_packages proto_rule_names empty_proto_rules generate_proto_rules sort insert
        text_less
    generate_proto_libraries cfg rel others deleted g = elim (proto_packages others []) [
      | none ↦ none
      | some packages ↦ some (
          generate_proto_rules cfg rel packages (sort text_less (proto_rule_names others))
            (record g { empty = g.empty ++ empty_proto_rules deleted }))
    ]
