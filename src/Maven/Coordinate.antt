-- ===== src/Maven/Coordinate.antt =====
-- Maven coordinates (java/gazelle/private/maven/coordinate.go).
pub mod Agreement
use rules_jvm.Prelude.{
  ℕ, ◌-◌, ◌≡◌, ite, Bool, Option, none, some, List, [], ◌∷◌, ◌++◌, ◌||◌, Text, text_dec, split,
  join, length, get_or, ltb, leb, if◌then◌else◌, ◌==◌,
}

abbrev pub colon : ℕ
colon = b':'

pub record Coordinate : Type 0 where
  pub group_id : Text
  pub artifact_id : Text
  pub type : Text
  pub classifier : Text
  pub version : Text

-- group:artifact[:type[:classifier]]:version; with more parts the last is still the version.
unfoldable pub coordinate_of : List Text → Option Coordinate
coordinate_of parts =
    let n = length parts in
    if ltb n 3
    then none
    else some (record {
      group_id = get_or parts 0 [];
      artifact_id = get_or parts 1 [];
      type = (if ltb 3 n then get_or parts 2 [] else []);
      classifier = (if ltb 4 n then get_or parts 3 [] else []);
      version = get_or parts (n - 1) [];
    })

unfoldable pub parse_coordinate : Text → Option Coordinate
unfolding split coordinate_of
parse_coordinate s = coordinate_of (split colon s)

unfoldable pub artifact_string : Coordinate → Text
unfolding join text_dec
artifact_string c =
    join colon
      (c.group_id ∷ c.artifact_id ∷ (ite (text_dec c.classifier []) [] (c.classifier ∷ [])))

-- group:artifact[:extension[:classifier]]
unfoldable pub index_key_of : List Text → Option Coordinate
index_key_of parts =
    let n = length parts in
    if ltb n 2 || ltb 4 n
    then none
    else some (record {
      group_id = get_or parts 0 [];
      artifact_id = get_or parts 1 [];
      type = (if leb 3 n then get_or parts 2 [] else []);
      classifier = (if n == 4 then get_or parts 3 [] else []);
      version = [];
    })

unfoldable pub parse_index_key : Text → Option Coordinate
unfolding split index_key_of
parse_index_key key = index_key_of (split colon key)
