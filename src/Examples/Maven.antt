-- ===== src/Examples/Maven.antt =====
-- Runs and instances for the Maven resolver.
use mathlib.Core.List.{Permᴰ}
use rules_jvm.Prelude.{
  ◌<◌, ◌≡◌, ◌≢◌, ◌↔◌, ◌⊎◌, inl, inr, refl, true, false, none, some, [], ◌∷◌, ◌++◌, Memᴰ, Text,
  codes, text_dec, text_less, lookup, put, keys, split, join, any, arith, Memᴰ-cons, subst, sym, ap,
  ◌∙◌, All-Memᴰ,
}
use rules_jvm.Prelude.Sort.{sort, insert}
use rules_jvm.Names.{new_package_name}
use rules_jvm.Labels.{Label, LabelLib}
use rules_jvm.SortedSet.View.{Ascending, place, place_all}
use rules_jvm.Multiset.{get, add_string}
use rules_jvm.Maven.Clean.{cleanup_label, is_word, replace_runs}
use rules_jvm.Maven.Coordinate.{
  colon, Coordinate, parse_coordinate, coordinate_of, parse_index_key, index_key_of,
  artifact_string,
}
use rules_jvm.Maven.Coordinate.Agreement.{parse_coordinate-index_key}
use rules_jvm.Maven.Lock.{LockFile, v2, IndexFile, list_dependencies, get_dependency_coordinates}
use rules_jvm.Maven.Resolver.{
  Resolver, ready, found, empty_resolver, resolve, not_excluded, answer, label_from_artifact,
  index_keys, seen_keys, put_all, key_less, count_colons, seed_keys, seed_index_key, seed_classes,
  add_packages, add_classes, add_section_package, class_in, new_resolver,
}
use rules_jvm.Maven.Resolver.Answers.{printed, Artifacts, IsOnly, resolve-found, resolve_order}
use rules_jvm.Maven.Resolver.Seeding.{
  lists_key, lists_section, lists, class_index-least_qualified, mem-index_keys,
}
use rules_jvm.Maven.Resolver.Loading.{new_resolver-ready}
use rules_jvm.Examples.{lacks}

abbrev guava : Text
guava = codes "com.google.guava:guava"

abbrev guava_coordinate : Coordinate
guava_coordinate = record {
  group_id = codes "com.google.guava";
  artifact_id = codes "guava";
  type = [];
  classifier = [];
  version = [];
}

parse_coordinate-index_key_example :
    (parse_coordinate (guava ++ colon ∷ codes "31.1")
      ≡ some (record guava_coordinate { version = codes "31.1" }))
    × (artifact_string (record guava_coordinate { version = codes "31.1" })
        ≡ artifact_string guava_coordinate)
unfolding parse_index_key index_key_of split any
parse_coordinate-index_key_example =
    parse_coordinate-index_key guava (codes "31.1") guava_coordinate
      (lacks colon (codes "31.1") refl) refl

abbrev guava_lock : LockFile
guava_lock = v2 ((guava, codes "31.1") ∷ []) ((guava, codes "com.google.common" ∷ []) ∷ [])

abbrev guava_tests : Text
guava_tests = codes "com.google.guava:guava:jar:tests"

-- Both keys list the class com.google.common.A.
abbrev guava_index : IndexFile
guava_index = record {
  classes =
      (guava, (codes "com.google.common", codes "A" ∷ []) ∷ [])
      ∷ (guava_tests, (codes "com.google.common", codes "A" ∷ []) ∷ [])
      ∷ [];
  packages = [];
}

index_keys_run : index_keys guava_index ≡ guava_tests ∷ guava ∷ []
unfolding index_keys seen_keys put_all key_less count_colons put text_dec place_all place
index_keys_run = refl

mem-index_keys_example :
    Ascending key_less (index_keys guava_index)
    × ((k : Text)
        → Memᴰ k (index_keys guava_index)
          ↔ (Memᴰ k (keys guava_index.packages) ⊎ Memᴰ k (keys guava_index.classes)))
mem-index_keys_example = mem-index_keys guava_index

coordinate_parses :
    (d : Text)
    → Memᴰ d (list_dependencies guava_lock)
    → parse_coordinate (get_dependency_coordinates guava_lock d) ≢ none
unfolding list_dependencies get_dependency_coordinates parse_coordinate coordinate_of split lookup
    text_dec
coordinate_parses d m =
    All-Memᴰ (λ x. parse_coordinate (get_dependency_coordinates guava_lock x) ≢ none)
      (list_dependencies guava_lock) (cc, tt) d m

keys_parse : (k : Text) → Memᴰ k (index_keys guava_index) → parse_index_key k ≢ none
unfolding parse_index_key index_key_of split
keys_parse k m =
    All-Memᴰ (λ x. parse_index_key x ≢ none) (guava_tests ∷ guava ∷ []) (cc, (cc, tt)) k
      (subst (Memᴰ k) index_keys_run m)

new_resolver-ready_example :
    ((r : Resolver) × (new_resolver (some guava_lock) none ≡ ready r))
    × ((r : Resolver) × (new_resolver (some guava_lock) (some guava_index) ≡ ready r))
new_resolver-ready_example = new_resolver-ready guava_lock guava_index coordinate_parses keys_parse

abbrev simple_labels : LabelLib
simple_labels = record {
  new = λ r p n. record { repo = r; pkg = p; name = n; relative = false };
  to_string = λ l. l.repo ++ colon ∷ l.name;
  parse = λ t. elim (split colon t) [
    | [] ↦ none
    | r ∷ rest ↦ elim rest [
      | [] ↦ none
      | n ∷ _ ↦ some (record { repo = r; pkg = []; name = n; relative = false })
    ]
  ];
  new_lem = λ r p n. refl;
}

abbrev common : Text
common = codes "com.google.common"

abbrev one_artifact : Resolver
one_artifact = record { data_ = (common, (guava, tt) ∷ []) ∷ []; class_index = [] }

abbrev guava_label : Label
guava_label = record {
  repo = codes "maven";
  pkg = [];
  name = codes "com_google_guava_guava";
  relative = false;
}

resolve_run :
    resolve simple_labels one_artifact (new_package_name common) [] (codes "maven")
    ≡ found guava_label
unfolding resolve not_excluded answer get lookup text_dec sort insert label_from_artifact
    cleanup_label replace_runs is_word split text_less
resolve_run = refl

resolve-found_example :
    (v : Artifacts) × (k : Text) × (get one_artifact.data_ common ≡ some v)
    × IsOnly simple_labels [] (codes "maven") v k
    × (simple_labels.parse (printed simple_labels [] (codes "maven") k) ≡ some guava_label)
resolve-found_example =
    resolve-found simple_labels [] (codes "maven") one_artifact (new_package_name common)
      guava_label resolve_run

abbrev two_artifacts : Text → Text → Resolver
two_artifacts a b = record { data_ = (common, (a, tt) ∷ (b, tt) ∷ []) ∷ []; class_index = [] }

resolve_order_example :
    resolve simple_labels
      (two_artifacts guava guava_tests)
      (new_package_name common)
      []
      (codes "maven")
    ≡ resolve simple_labels
        (two_artifacts guava_tests guava)
        (new_package_name common)
        []
        (codes "maven")
unfolding get lookup text_dec
resolve_order_example =
    resolve_order simple_labels [] (codes "maven") (two_artifacts guava guava_tests)
      (two_artifacts guava_tests guava) (new_package_name common)
      ((guava, tt) ∷ (guava_tests, tt) ∷ []) ((guava_tests, tt) ∷ (guava, tt) ∷ []) refl refl
      (Permᴰ.swap refl refl)

abbrev class_a : Text
class_a = codes "com.google.common.A"

abbrev seeded : Resolver
seeded = record {
  data_ = (common, (codes "com.google.guava:guava:tests", tt) ∷ (guava, tt) ∷ []) ∷ [];
  class_index = (class_a, guava) ∷ [];
}

seed_run : seed_keys guava_index (guava_tests ∷ guava ∷ []) empty_resolver ≡ ready seeded
unfolding seed_keys seed_index_key seed_classes add_packages add_classes add_section_package
    class_in parse_index_key index_key_of split artifact_string join lookup put text_dec add_string
    get
seed_run = refl

others_qualified :
    (k : Text)
    → Memᴰ k (index_keys guava_index)
    → lists_key guava_index class_a k ≡ true
    → (k ≡ guava) ⊎ (count_colons guava < count_colons k)
unfolding count_colons
others_qualified k m _ =
    All-Memᴰ (λ x. (x ≡ guava) ⊎ (count_colons guava < count_colons x)) (guava_tests ∷ guava ∷ [])
      (inr (omega arith), (inl refl, tt)) k (subst (Memᴰ k) index_keys_run m)

guava_last : Memᴰ guava (guava_tests ∷ guava ∷ [])
guava_last =
    (Memᴰ-cons guava guava_tests (guava ∷ [])).1 (inr ((Memᴰ-cons guava guava []).1 (inl refl)))

class_index-least_qualified_example :
    lookup text_dec class_a seeded.class_index ≡ some (artifact_string guava_coordinate)
unfolding lists_key lists_section lists any class_in lookup text_dec parse_index_key index_key_of
    split
class_index-least_qualified_example =
    class_index-least_qualified guava_index class_a guava guava_coordinate empty_resolver seeded
      (subst (Memᴰ guava) (sym index_keys_run) guava_last) refl refl others_qualified
      (ap (λ ks. seed_keys guava_index ks empty_resolver) index_keys_run ∙ seed_run)
