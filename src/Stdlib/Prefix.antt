-- ===== src/Stdlib/Prefix.antt =====
-- What the prefix test of java/gazelle/private/types/types.go means, and with it IsStdlib of
-- java/gazelle/private/java/java.go and of java/gazelle/private/kotlin/kotlin.go.
use rules_jvm.Prelude.{
  ◌≡◌, sym, ap, ◌∙◌, ◌↔◌, inl, inr, true, List, [], ◌∷◌, ◌++◌, append-nil, append_assoc, arith,
  Text, text_dec, split, push, join, any, join-split, split-ne-nil, join-append, split-append_sep,
  has_prefix→, has_prefix-append, Bool-cases, codes,
}
use rules_jvm.Names.{dot, PackageName, package_names_has_prefix}
use rules_jvm.Stdlib.{is_java_stdlib, is_kotlin_stdlib, kotlin_test_prefix, kotlin_std_lib_prefix}
use rules_jvm.Stdlib.Prefixes.{stdlib_prefixes}

-- The segments of a package name.
abbrev pub segments : PackageName → List Text
segments p = split dot p.name

prefix→ :
    (whole prefix : PackageName)
    → package_names_has_prefix whole prefix ≡ true
    → (rest : List Text) × (segments whole ≡ segments prefix ++ rest)
unfolding package_names_has_prefix
prefix→ whole prefix h = elim (text_dec whole.name prefix.name) [
  | yes e ↦ ([], rw (e, append-nil))
  | no n ↦
      let (rest, e) = has_prefix→ whole.name (prefix.name ++ dot ∷ []) (ground arith) in
      (split dot rest, rw (e, append_assoc) (split-append_sep dot prefix.name rest))
]

prefix← :
    (whole prefix : PackageName) (rest : List Text)
    → segments whole ≡ segments prefix ++ rest
    → package_names_has_prefix whole prefix ≡ true
unfolding package_names_has_prefix
prefix← whole prefix [] e = ground (arith, same_name)
  where
    same_name : whole.name ≡ prefix.name
    same_name =
        sym (join-split dot whole.name)
        ∙ ap (join dot) (e ∙ append-nil _)
        ∙ join-split dot prefix.name
prefix← whole prefix (r ∷ rest) e =
    ground (arith, spelled, has_prefix-append (prefix.name ++ dot ∷ []) (join dot (r ∷ rest)))
  where
    spelled : whole.name ≡ (prefix.name ++ dot ∷ []) ++ join dot (r ∷ rest)
    spelled =
        sym (join-split dot whole.name)
        ∙ ap (join dot) e
        ∙ join-append dot (segments prefix) (r ∷ rest) (split-ne-nil dot prefix.name) (cc)
        ∙ ap (λ (n : Text). n ++ dot ∷ join dot (r ∷ rest)) (join-split dot prefix.name)
        ∙ sym (append_assoc prefix.name (dot ∷ []) _)

-- A package has a prefix exactly when the segments of the prefix begin its segments: whole segments
-- are compared, not letters.
pub package_names_has_prefix_iff :
    (whole prefix : PackageName)
    → (package_names_has_prefix whole prefix ≡ true)
      ↔ ((rest : List Text) × (segments whole ≡ segments prefix ++ rest))
package_names_has_prefix_iff whole prefix =
    (prefix→ whole prefix, λ (rest, e). prefix← whole prefix rest e)

-- A subpackage of a package of the Java standard library belongs to it too.
pub is_java_stdlib-subpackage :
    (whole prefix : PackageName) (rest : List Text)
    → is_java_stdlib prefix ≡ true
    → segments whole ≡ segments prefix ++ rest
    → is_java_stdlib whole ≡ true
unfolding is_java_stdlib
is_java_stdlib-subpackage whole prefix rest h e = any_mono stdlib_prefixes h
  where
    step :
        (p : PackageName)
        → package_names_has_prefix prefix p ≡ true
        → package_names_has_prefix whole p ≡ true
    step p k =
        let (more, f) = prefix→ prefix p k in
        prefix← whole p (more ++ rest)
          (e ∙ ap (λ (ss : List Text). ss ++ rest) f ∙ append_assoc (segments p) more rest)

    any_mono :
        (ps : List PackageName)
        → any (package_names_has_prefix prefix) ps ≡ true
        → any (package_names_has_prefix whole) ps ≡ true
    any_mono [] k = absurd (ground arith)
    any_mono (p ∷ ps) k = ground (arith, step p, any_mono ps)

-- A package belongs to the Kotlin standard library exactly when its first segment is `kotlin` and its
-- second segment, if it has one, is not `test`.
pub is_kotlin_stdlib_iff :
    (imp : PackageName)
    → (is_kotlin_stdlib imp ≡ true) ↔ (
        ((rest : List Text) × (segments imp ≡ codes "kotlin" ∷ rest))
        × ¬ ((rest : List Text) × (segments imp ≡ codes "kotlin" ∷ codes "test" ∷ rest)))
unfolding is_kotlin_stdlib split push
is_kotlin_stdlib_iff imp =
    let in_kotlin = package_names_has_prefix_iff imp kotlin_std_lib_prefix in
    let in_test = package_names_has_prefix_iff imp kotlin_test_prefix in
    elim (Bool-cases (package_names_has_prefix imp kotlin_test_prefix)) [
      | inl test ↦ (λ h. absurd (ground arith), λ (k, n). absurd (n (in_test.0 test)))
      | inr other ↦ (
        λ h. (in_kotlin.0 (ground arith), λ t. absurd (ground (arith, in_test.1 t))),
        λ (k, n). ground (arith, in_kotlin.1 k),
      )
    ]
