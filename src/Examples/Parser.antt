-- ===== src/Examples/Parser.antt =====
-- A run and an instance for the client of the parser.
use rules_jvm.Prelude.{◌≡◌, refl, List, [], ◌∷◌, Text, codes, split, join, map, has_prefix}
use rules_jvm.Names.{ClassName, parse_class_name, outer_index, fully_qualified_class_name}
use rules_jvm.Parser.{Response, responded, parse_package, parse_classes, imports, returned}
use rules_jvm.Parser.Sets.{IsAbsoluteResponse, Returns, Mirrors, parse_package-Mirrors}
use rules_jvm.Examples.{is_ascii_upper}

abbrev answer : Response
answer = record {
  name = codes "app";
  imported_classes =
      codes "java.util.Map.Entry" ∷ codes "java.io.File" ∷ codes "java.util.Map.Entry" ∷ [];
  exported_classes = [];
  internal_classes = [];
  declared_classes = codes "app.Main" ∷ [];
  imported_packages_without_specific_classes = codes "java.net" ∷ [];
  mains = codes "Main" ∷ [];
  per_class_metadata = [];
}

abbrev answer_files : List Text
answer_files = codes "Main.java" ∷ []

answer-IsAbsoluteResponse : IsAbsoluteResponse answer
unfolding has_prefix
answer-IsAbsoluteResponse = record {
  imported = (refl, (refl, (refl, tt)));
  exported = tt;
  internals = tt;
  declares = (refl, tt);
}

parse_package-Mirrors_example :
    Returns
      (Mirrors is_ascii_upper (λ t. t) (codes "src/main/app") answer_files answer)
      (parse_package is_ascii_upper (λ t. t) (codes "src/main/app") answer_files (responded answer))
parse_package-Mirrors_example =
    parse_package-Mirrors is_ascii_upper (λ t. t) (codes "src/main/app") answer_files answer
      answer-IsAbsoluteResponse

-- The classes of a set stand by their full names.
parse_classes_run :
    (cs : List ClassName) × (parse_classes is_ascii_upper imports answer.imported_classes []
      ≡ returned cs)
    × (map fully_qualified_class_name cs ≡ codes "java.io.File" ∷ codes "java.util.Map.Entry" ∷ [])
unfolding parse_classes parse_class_name outer_index split join fully_qualified_class_name
parse_classes_run = (_, refl, refl)
