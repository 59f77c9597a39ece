-- ===== src/Maven/Lock.antt =====
-- The lock file and the index of rules_jvm_external as the program reads them
-- (java/gazelle/private/maven/config.go). Decoding JSON is the standard library's; the decoded
-- structs are the input.
use rules_jvm.Prelude.{
  ite, Option, none, some, List, [], ◌∷◌, ◌++◌, map, Text, codes, text_dec, lookup,
}
use rules_jvm.Maven.Coordinate.{colon}

-- What the program uses of lockFileV1_dependencyTree_dep.
pub record Dependency : Type 0 where
  pub coord : Text
  pub packages : List Text

-- The two implementations of the interface lockFile, with the fields that they use.
pub data LockFile : Type 0 where
  v1 : List Dependency → LockFile
  v2 : (artifacts : List (Text × Text)) (packages : List (Text × List Text)) → LockFile

-- ListDependencies
unfoldable pub list_dependencies : LockFile → List Text
list_dependencies (v1 deps) = map (λ d. d.coord) deps
list_dependencies (v2 artifacts packages) = map (λ a. a.0) artifacts

-- A missing entry of a Go map reads as the zero value.
abbrev pub or_empty {ℓ} : {A : Type ℓ} → Option (List A) → List A
or_empty none = []
or_empty (some xs) = xs

-- GetDependencyCoordinates
unfoldable pub get_dependency_coordinates : LockFile → Text → Text
unfolding lookup text_dec
get_dependency_coordinates (v1 deps) name = name
get_dependency_coordinates (v2 artifacts packages) name =
    name ++ colon ∷ or_empty (lookup text_dec name artifacts)

-- The loop of lockFileV1.ListDependencyPackages: `none` is the panic.
unfoldable pub find_packages : List Dependency → Text → Option (List Text)
unfolding text_dec
find_packages [] name = none
find_packages (d ∷ deps) name =
    let rest = find_packages deps name in ite (text_dec d.coord name) (some d.packages) rest

-- ListDependencyPackages
unfoldable pub list_dependency_packages : LockFile → Text → Option (List Text)
unfolding find_packages lookup text_dec
list_dependency_packages (v1 deps) name = find_packages deps name
list_dependency_packages (v2 artifacts packages) name =
    some (or_empty (lookup text_dec name packages))

-- ListDependencyClasses
unfoldable pub list_dependency_classes : LockFile → Text → List Text
list_dependency_classes f name = []

-- What versionnedConfigFile says: the version at the top level and that of the dependency tree.
pub record VersionedConfigFile : Type 0 where
  pub version : Text
  pub tree_version : Text

-- loadConfiguration, given what the file decodes to in the three forms; `none` is an error.
unfoldable pub load_configuration :
    Option VersionedConfigFile → Option LockFile → Option LockFile → Option LockFile
unfolding text_dec
load_configuration none as_v1 as_v2 = none
load_configuration (some f) as_v1 as_v2 = ite (text_dec f.version (codes "2")) as_v2 (
    ite (text_dec f.version (codes "3")) as_v2
      (ite (text_dec f.tree_version (codes "0.1.0")) as_v1 none))

-- IndexFile: for each key the classes of each package, and the packages.
pub record IndexFile : Type 0 where
  pub classes : List (Text × List (Text × List Text))
  pub packages : List (Text × List Text)
