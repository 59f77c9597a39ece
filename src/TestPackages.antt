-- ===== src/TestPackages.antt =====
-- Which directories hold tests: IsTestPackage of java/gazelle/private/java/java.go. `strings.ToLower` is a
-- parameter.
use rules_jvm.Prelude.{
  ◌≡◌, ◌++◌, Bool, true, false, ◌||◌, Option, none, some, [], ◌∷◌, Text, codes, has_prefix, split,
  length, drop, get_or, if◌then◌else◌,
}
use rules_jvm.Config.{has_suffix}

-- What stands behind the first place where `sub` occurs.
unfoldable pub after : Text → Text → Option Text
unfolding has_prefix
after sub [] = none
after sub (c ∷ s) =
    let rest = after sub s in
    if has_prefix (c ∷ s) sub then some (drop (length sub) (c ∷ s)) else rest

-- strings.Contains, for a text that is not empty.
unfoldable pub contains_text : Text → Text → Bool
contains_text s sub = elim (after sub s) [ none ↦ false | some _ ↦ true ]

-- The last line of the function.
unfoldable pub is_named_test : Text → Bool
unfolding has_suffix
is_named_test pkg = contains_text pkg (codes "/test/") || has_suffix pkg (codes "/test")

unfoldable pub is_test_package : (Text → Text) → Text → Bool
unfolding has_prefix split
is_test_package to_lower pkg =
    if has_prefix pkg (codes "javatests/") then true else elim (after (codes "src/") pkg) [
      | none ↦ is_named_test pkg
      | some after_src ↦
          let first_dir = to_lower (get_or (split b'/' after_src) 0 []) in
          if has_suffix first_dir (codes "test")
          then true
          else if has_suffix first_dir (codes "main")
          then false
          else is_named_test pkg
    ]

-- Everything below src/test is a test and nothing below src/main is, whatever the directories further down
-- are called.
pub is_test_package-source_sets :
    (to_lower : Text → Text)
    → to_lower (codes "test") ≡ codes "test"
    → to_lower (codes "main") ≡ codes "main"
    → (below : Text)
    → (is_test_package to_lower (codes "src/test/" ++ below) ≡ true)
      × (is_test_package to_lower (codes "src/main/" ++ below) ≡ false)
unfolding is_test_package after has_prefix split has_suffix
is_test_package-source_sets to_lower lower_test lower_main below = (rw lower_test, rw lower_main)
