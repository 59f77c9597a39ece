-- ===== src/Names/Resolvable.antt =====
-- ResolvableJavaPackage of java/gazelle/private/types/types.go: the key under which a package is
-- registered, with its two flags, as a text and back.
use rules_jvm.Prelude.{
  ◌≡◌, ◌⊎◌, ite, Bool, true, false, Option, none, some, List, [], ◌∷◌, ◌++◌, append_assoc, Text,
  codes, text_dec, split, length, ltb, if◌then◌else◌, Lacks, split-append, split_of_Lacks, inl, inr,
}
use rules_jvm.Names.{bang, PackageName, new_package_name}

pub record ResolvableJavaPackage : Type 0 where
  pub package_name : PackageName
  pub is_test_only : Bool
  pub is_test_suite : Bool

abbrev pub new_resolvable_java_package : PackageName → Bool → Bool → ResolvableJavaPackage
new_resolvable_java_package p only suite = record {
  package_name = p;
  is_test_only = only;
  is_test_suite = suite;
}

abbrev testonly : Text
testonly = codes "testonly"

abbrev testsuite : Text
testsuite = codes "testsuite"

-- String
unfoldable pub to_string : ResolvableJavaPackage → Text
to_string r =
    let s = r.package_name.name in
    let s' = (if r.is_test_only then s ++ bang ∷ testonly else s) in
    if r.is_test_suite then s' ++ bang ∷ testsuite else s'

-- The loop over the tags: `none` for a tag that is not known.
unfoldable pub read_tags : List Text → Bool → Bool → Option (Bool × Bool)
unfolding text_dec
read_tags [] only suite = some (only, suite)
read_tags (t ∷ ts) only suite =
    let as_only = read_tags ts true suite in
    let as_suite = read_tags ts only true in
    ite (text_dec t testonly) as_only (ite (text_dec t testsuite) as_suite none)

unfoldable pub parse_parts : List Text → Option ResolvableJavaPackage
unfolding read_tags
parse_parts [] = none
parse_parts (p ∷ tags) = elim (read_tags tags false false) [
  | none ↦ none
  | some (only, suite) ↦ some (new_resolvable_java_package (new_package_name p) only suite)
]

-- ParseResolvableJavaPackage: more than two parts are refused.
unfoldable pub parse_resolvable : Text → Option ResolvableJavaPackage
unfolding split parse_parts
parse_resolvable s =
    let parts = split bang s in if ltb 2 (length parts) then none else parse_parts parts

module _ (p : PackageName) (h : Lacks bang p.name) where
  parse-plain : (tags : Text) → split bang (p.name ++ bang ∷ tags) ≡ p.name ∷ split bang tags
  parse-plain tags = split-append bang p.name tags h

  parse_flags :
      (only suite : Bool)
      → (only ≡ false) ⊎ (suite ≡ false)
      → parse_resolvable (to_string (new_resolvable_java_package p only suite))
        ≡ some (new_resolvable_java_package p only suite)
  unfolding parse_resolvable to_string
  parse_flags false false one = rw (split_of_Lacks bang p.name h)
  parse_flags true false one = rw (parse-plain testonly)
  parse_flags false true one = rw (parse-plain testsuite)
  parse_flags true true (inl e) = cc
  parse_flags true true (inr e) = cc

-- With at most one flag, the key of a package whose name has no exclamation mark is read back.
pub parse-to_string :
    (r : ResolvableJavaPackage)
    → Lacks bang r.package_name.name
    → (r.is_test_only ≡ false) ⊎ (r.is_test_suite ≡ false)
    → parse_resolvable (to_string r) ≡ some r
parse-to_string r h one = parse_flags r.package_name h r.is_test_only r.is_test_suite one

-- The key of a package with both flags is refused, whatever its name without exclamation marks.
pub parse-to_string_both :
    (p : PackageName)
    → Lacks bang p.name
    → parse_resolvable (to_string (new_resolvable_java_package p true true)) ≡ none
unfolding parse_resolvable to_string
parse-to_string_both p h =
    rw (append_assoc p.name (bang ∷ testonly) (bang ∷ testsuite), parse-plain p h _)
