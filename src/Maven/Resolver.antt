-- ===== src/Maven/Resolver.antt =====
-- The Maven resolver (java/gazelle/private/maven/resolver.go). `Seeding` proves which artifact a class
-- is attributed to, `Answers` what `Resolve` returns, `Loading` when a resolver is made.
pub mod Answers
pub mod Seeding
pub mod Loading
use rules_jvm.Prelude.{
  ℕ, zero, suc, ◌+◌, ◌≡◌, ite, Bool, true, false, not, ◌&&◌, Option, none, some, List, [], ◌∷◌,
  ◌++◌, map, Text, codes, text_dec, text_less, length, lookup, put, keys, if◌then◌else◌, ltb, ◌==◌,
  is_yes,
}
use rules_jvm.Prelude.Sort.{sort}
use rules_jvm.Names.{
  dot, PackageName, ClassName, fully_qualified_class_name, fully_qualified_outer_class_name,
}
use rules_jvm.Labels.{Label, LabelLib}
use rules_jvm.SortedSet.View.{place_all}
use rules_jvm.Multiset.{new_string_multi_set, StringMultiSet, get, add_string}
use rules_jvm.Maven.Coordinate.{
  colon, Coordinate, parse_coordinate, artifact_string, parse_index_key,
}
use rules_jvm.Maven.Clean.{cleanup_label}
use rules_jvm.Maven.Lock.{
  LockFile, IndexFile, list_dependencies, get_dependency_coordinates, list_dependency_packages,
  list_dependency_classes, or_empty,
}

pub record Resolver : Type 0 where
  pub data_ : StringMultiSet
  pub class_index : List (Text × Text)

abbrev pub empty_resolver : Resolver
empty_resolver = record { data_ = new_string_multi_set; class_index = [] }

-- What NewResolver ends in: a resolver, an error, a fatal log entry or a panic.
pub data Outcome : Type 0 where
  ready : Resolver → Outcome
  refused fatal panicked : Outcome

-- for _, pkg := range packages { r.data.Add(pkg, artifact) }
unfoldable pub add_packages : List Text → Text → Resolver → Resolver
unfolding add_string
add_packages [] artifact r = r
add_packages (pkg ∷ pkgs) artifact r =
    add_packages pkgs artifact (record r { data_ = add_string r.data_ pkg artifact })

-- for _, class := range classes { r.classIndex[class] = artifact }
unfoldable pub add_classes : List Text → Text → Resolver → Resolver
unfolding put text_dec
add_classes [] artifact r = r
add_classes (c ∷ cs) artifact r =
    add_classes cs artifact (record r { class_index = put text_dec c artifact r.class_index })

-- The loop over the dependencies of the lock file.
unfoldable pub seed_dependencies : LockFile → List Text → Resolver → Outcome
seed_dependencies c [] r = ready r
seed_dependencies c (dep ∷ deps) r = elim (parse_coordinate (get_dependency_coordinates c dep)) [
  | none ↦ refused
  | some coords ↦ elim (list_dependency_packages c dep) [
    | none ↦ panicked
    | some pkgs ↦ seed_dependencies c deps (
        add_classes (list_dependency_classes c dep) (artifact_string coords)
          (add_packages pkgs (artifact_string coords) r))
  ]
]

-- strings.Count(s, ":")
unfoldable pub count_colons : Text → ℕ
count_colons [] = 0
count_colons (c ∷ s) = let rest = count_colons s in if c == colon then suc rest else rest

-- The order of sort.Slice in `indexKeys`: more colons first, then by text.
unfoldable pub key_less : Text → Text → Bool
unfolding count_colons text_less
key_less i j =
    let ci = count_colons i in
    let cj = count_colons j in if ci == cj then text_less i j else ltb cj ci

unfoldable pub put_all : List Text → List (Text × Unit {0}) → List (Text × Unit {0})
unfolding put text_dec
put_all [] seen = seen
put_all (k ∷ ks) seen = put_all ks (put text_dec k tt seen)

-- The keys of the map `seen` of `indexKeys`.
unfoldable pub seen_keys : IndexFile → List Text
unfolding put_all
seen_keys index = keys (put_all (keys index.packages) (put_all (keys index.classes) []))

-- `indexKeys`. The keys of the map `seen` are distinct and the order is total, so sorting them puts each
-- at its place.
unfoldable pub index_keys : IndexFile → List Text
unfolding seen_keys place_all key_less
index_keys index = place_all key_less (seen_keys index) []

-- pkg + "." + cls, and cls alone in the default package.
unfoldable pub class_in : Text → Text → Text
unfolding text_dec
class_in pkg cls = ite (text_dec pkg []) cls (pkg ++ dot ∷ cls)

-- if pkg != "" { r.data.Add(pkg, artifactString) }
unfoldable pub add_section_package : Text → Text → Resolver → Resolver
unfolding text_dec add_string
add_section_package pkg artifact r =
    ite (text_dec pkg []) r (record r { data_ = add_string r.data_ pkg artifact })

-- The classes section of one key: the entries in some order of iteration.
unfoldable pub seed_classes : List (Text × List Text) → Text → Resolver → Resolver
seed_classes [] artifact r = r
seed_classes ((pkg, classes) ∷ rest) artifact r =
    seed_classes rest artifact
      (add_classes (map (class_in pkg) classes) artifact (add_section_package pkg artifact r))

-- seedIndexKey
unfoldable pub seed_index_key : IndexFile → Text → Text → Resolver → Resolver
seed_index_key index key artifact r =
    add_packages (or_empty (lookup text_dec key index.packages)) artifact
      (seed_classes (or_empty (lookup text_dec key index.classes)) artifact r)

-- The loop over the keys of the index.
unfoldable pub seed_keys : IndexFile → List Text → Resolver → Outcome
seed_keys index [] r = ready r
seed_keys index (key ∷ keys) r = elim (parse_index_key key) [
  | none ↦ fatal
  | some coords ↦ seed_keys index keys (seed_index_key index key (artifact_string coords) r)
]

-- NewResolver on what was loaded. Without a lock file the resolver is empty, with or without an index.
unfoldable pub new_resolver : Option LockFile → Option IndexFile → Outcome
new_resolver none index = ready empty_resolver
new_resolver (some c) index = elim (seed_dependencies c (list_dependencies c) empty_resolver) [
  | ready r ↦ elim index [ none ↦ ready r | some i ↦ seed_keys i (index_keys i) r ]
  | refused ↦ refused
  | fatal ↦ fatal
  | panicked ↦ panicked
]

-- What Resolve returns: a label, or one of its errors.
pub data Answer : Type 0 where
  found : Label → Answer
  no_external_imports : Text → Answer
  multiple_external_imports : Text → List Text → Answer
  bad_label : Text → Answer

module _ (lib : LabelLib) where
  unfoldable pub label_from_artifact : Text → Text → Label
  unfolding cleanup_label
  label_from_artifact repository artifact = lib.new repository [] (cleanup_label artifact)

  -- The loop over the artifacts of a package, in some order of iteration.
  unfoldable pub not_excluded : List (Text × Unit {0}) → List (Text × Unit {0}) → Text → List Text
  unfolding label_from_artifact lookup text_dec
  not_excluded [] excluded repository = []
  not_excluded ((k, _) ∷ ks) excluded repository =
      let rest = not_excluded ks excluded repository in
      let l = lib.to_string (label_from_artifact repository k) in
      elim (lookup text_dec l excluded) [ some _ ↦ rest | none ↦ l ∷ rest ]

  unfoldable pub answer : Text → List Text → Answer
  answer pkg [] = no_external_imports pkg
  answer pkg (l ∷ []) = elim (lib.parse l) [ none ↦ bad_label l | some lbl ↦ found lbl ]
  answer pkg (l ∷ k ∷ ls) = multiple_external_imports pkg (l ∷ k ∷ ls)

  -- Resolve
  unfoldable pub resolve : Resolver → PackageName → List (Text × Unit {0}) → Text → Answer
  resolve r pkg excluded repository = elim (get r.data_ pkg.name) [
    | none ↦ no_external_imports pkg.name
    | some v ↦ answer pkg.name (sort text_less (not_excluded v excluded repository))
  ]

  -- ResolveClass: `none` is NoLabel.
  unfoldable pub resolve_class : Resolver → ClassName → List (Text × Unit {0}) → Text → Option Label
  resolve_class r class_name excluded repository =
      let whole = lookup text_dec (fully_qualified_class_name class_name) r.class_index in
      let outer = lookup text_dec (fully_qualified_outer_class_name class_name) r.class_index in
      let artifact : Option Text = elim whole [ some a ↦ some a | none ↦ outer ] in
      elim artifact [
        | none ↦ none
        | some a ↦
            let l = label_from_artifact repository a in
            elim (lookup text_dec (lib.to_string l) excluded) [ some _ ↦ none | none ↦ some l ]
      ]
