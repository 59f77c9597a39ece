-- ===== src/Maven/Coordinate/Agreement.antt =====
-- The two parsers of java/gazelle/private/maven/coordinate.go agree: a lock file's coordinate is an
-- index key with a version behind it.
use rules_jvm.Prelude.{
  ◌≡◌, refl, some, List, [], ◌∷◌, ◌++◌, arith, Text, split, Lacks, split-append_sep, split_of_Lacks,
}
use rules_jvm.Maven.Coordinate.{
  colon, Coordinate, coordinate_of, index_key_of, parse_coordinate, artifact_string,
  parse_index_key,
}

split_version :
    (key version : Text)
    → Lacks colon version
    → split colon (key ++ colon ∷ version) ≡ split colon key ++ version ∷ []
split_version key version h =
    rw (split-append_sep colon key version, split_of_Lacks colon version h)

coordinate_of-append :
    (parts : List Text) (version : Text) (c : Coordinate)
    → index_key_of parts ≡ some c
    → coordinate_of (parts ++ version ∷ []) ≡ some (record c { version = version })
unfolding coordinate_of index_key_of
coordinate_of-append [] version c e = absurd (ground arith)
coordinate_of-append (g ∷ []) version c e = absurd (ground arith)
coordinate_of-append (g ∷ a ∷ []) version c e = ground arith
coordinate_of-append (g ∷ a ∷ t ∷ []) version c e = ground arith
coordinate_of-append (g ∷ a ∷ t ∷ k ∷ []) version c e = ground arith
coordinate_of-append (g ∷ a ∷ t ∷ k ∷ x ∷ rest) version c e = absurd (ground arith)

-- Whatever key the index parser accepts, the same key with a version behind it is a coordinate with
-- that version and otherwise the same parts; so both give one artifact string.
pub parse_coordinate-index_key :
    (key version : Text) (c : Coordinate)
    → Lacks colon version
    → parse_index_key key ≡ some c
    → (parse_coordinate (key ++ colon ∷ version) ≡ some (record c { version = version }))
      × (artifact_string (record c { version = version }) ≡ artifact_string c)
unfolding parse_coordinate parse_index_key artifact_string
parse_coordinate-index_key key version c h e =
    (rw (split_version key version h) (coordinate_of-append (split colon key) version c e), refl)
