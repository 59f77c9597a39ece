-- ===== src/Maven/Resolver/Loading.antt =====
-- When `NewResolver` of java/gazelle/private/maven/resolver.go makes a resolver.
use rules_jvm.Prelude.{
  ◌≡◌, ◌≢◌, refl, inl, inr, none, some, List, [], ◌∷◌, map, Memᴰ, Text, arith, Memᴰ-cons,
  not-Memᴰ-nil, Option-cases,
}
use rules_jvm.Maven.Coordinate.{parse_coordinate, artifact_string, parse_index_key}
use rules_jvm.Maven.Lock.{
  Dependency, LockFile, v1, v2, IndexFile, list_dependencies, get_dependency_coordinates,
  find_packages, list_dependency_packages, list_dependency_classes,
}
use rules_jvm.Maven.Resolver.{
  Resolver, ready, seed_dependencies, add_packages, add_classes, index_keys, seed_index_key,
  seed_keys, new_resolver, empty_resolver,
}

find_packages-known :
    (deps : List Dependency) (name : Text)
    → Memᴰ name (map (λ d. d.coord) deps)
    → find_packages deps name ≢ none
unfolding find_packages
find_packages-known [] name m = absurd (not-Memᴰ-nil name m)
find_packages-known (d ∷ deps) name m = ground (
  arith,
  Memᴰ-cons name d.coord (map (λ (e : Dependency). e.coord) deps),
  find_packages-known deps name,
)

-- The panic of the first version's package list is for names that the file does not list.
list_dependency_packages-known :
    (c : LockFile) (name : Text)
    → Memᴰ name (list_dependencies c)
    → list_dependency_packages c name ≢ none
unfolding list_dependency_packages list_dependencies
list_dependency_packages-known (v1 deps) name m = find_packages-known deps name m
list_dependency_packages-known (v2 artifacts packages) name m = cc

seed_dependencies-ready :
    (c : LockFile) (deps : List Text) (r : Resolver)
    → ((d : Text) → Memᴰ d deps → Memᴰ d (list_dependencies c))
    → ((d : Text) → Memᴰ d deps → parse_coordinate (get_dependency_coordinates c d) ≢ none)
    → (r' : Resolver) × (seed_dependencies c deps r ≡ ready r')
unfolding seed_dependencies
seed_dependencies-ready c [] r listed parses = (r, refl)
seed_dependencies-ready c (d ∷ deps) r listed parses =
    let m = (Memᴰ-cons d d deps).1 (inl refl) in
    let later = λ (e : Text) (n : Memᴰ e deps). (Memᴰ-cons e d deps).1 (inr n) in
    elim (Option-cases (parse_coordinate (get_dependency_coordinates c d))) [
      | inl bad ↦ absurd (parses d m bad)
      | inr (coords, e) ↦ elim (Option-cases (list_dependency_packages c d)) [
        | inl unknown ↦ absurd (list_dependency_packages-known c d (listed d m) unknown)
        | inr (pkgs, f) ↦
            let (r', g) =
              seed_dependencies-ready c deps
                (add_classes (list_dependency_classes c d) (artifact_string coords)
                  (add_packages pkgs (artifact_string coords) r))
                (λ e n. listed e (later e n)) (λ e n. parses e (later e n)) in
            (r', ground arith)
      ]
    ]

seed_keys-ready :
    (index : IndexFile) (keys : List Text) (r : Resolver)
    → ((k : Text) → Memᴰ k keys → parse_index_key k ≢ none)
    → (r' : Resolver) × (seed_keys index keys r ≡ ready r')
unfolding seed_keys
seed_keys-ready index [] r parses = (r, refl)
seed_keys-ready index (k ∷ ks) r parses = elim (Option-cases (parse_index_key k)) [
  | inl bad ↦ absurd (parses k ((Memᴰ-cons k k ks).1 (inl refl)) bad)
  | inr (coords, e) ↦
      let (r', g) =
        seed_keys-ready index ks (seed_index_key index k (artifact_string coords) r)
          (λ j n. parses j ((Memᴰ-cons j k ks).1 (inr n))) in
      (r', ground arith)
]

-- If every coordinate of the lock file and every key of the index is well formed, a resolver is made:
-- nothing is refused, and the lock file's panic on an unknown name is not reached.
pub new_resolver-ready :
    (c : LockFile) (index : IndexFile)
    → ((d : Text)
        → Memᴰ d (list_dependencies c)
        → parse_coordinate (get_dependency_coordinates c d) ≢ none)
    → ((k : Text) → Memᴰ k (index_keys index) → parse_index_key k ≢ none)
    → ((r : Resolver) × (new_resolver (some c) none ≡ ready r))
      × ((r : Resolver) × (new_resolver (some c) (some index) ≡ ready r))
unfolding new_resolver
new_resolver-ready c index coords keys =
    let (r, e) = seed_dependencies-ready c (list_dependencies c) empty_resolver (λ d m. m) coords in
    let (s, f) = seed_keys-ready index (index_keys index) r keys in
    ((r, ground arith), (s, ground arith))
