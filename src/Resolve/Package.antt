-- ===== src/Resolve/Package.antt =====
-- Resolving one package: `resolveSinglePackageWithAmbiguity` of java/gazelle/resolve.go. `Cache` proves what the
-- cache does.
--
-- The cache is of github.com/hashicorp/golang-lru, a parameter. Its keys are the pointers that
-- NewResolvableJavaPackage returns: the state counts the pointers that were made, and a pointer is its
-- number. `none` is a log entry at the level Fatal.
pub mod Cache
use rules_jvm.Prelude.{
  ℕ, suc, ◌+◌, ◌≤◌, ◌<◌, ◌≡◌, ◌≢◌, ◌⊎◌, Bool, true, false, ◌&&◌, ◌||◌, Option, none, some, List, [],
  ◌∷◌, ◌++◌, Text, codes, text_dec, any, is_yes, if◌then◌else◌,
}
use rules_jvm.Names.{PackageName, ClassName, new_class_name, package_name_dec}
use rules_jvm.Names.Resolvable.{new_resolvable_java_package, to_string}
use rules_jvm.Labels.{Label, LabelLib, Label-discrete, no_label}
use rules_jvm.Stdlib.{is_java_stdlib}
use rules_jvm.ExportIndex.{JavaExportIndex, is_java_export}
use rules_jvm.Maven.Resolver.{
  Resolver, Answer, found, no_external_imports, multiple_external_imports, bad_label, resolve,
  resolve_class,
}
use rules_jvm.Resolve.Labels.{Gazelle, simplify_label, same_text}
use rules_jvm.Resolve.Exports.{same_label, try_resolving_to_java_export}

-- lru.Cache. `Get` finds no more than `Add` has stored.
pub record Lru : Type 1 where
  pub Cache : Type 0
  pub new : Cache
  pub get : Cache → ℕ → Option Label × Cache
  pub add : Cache → ℕ → Label → Cache
  pub get-new : (k : ℕ) → (get new k).0 ≡ none
  pub get-add :
      (c : Cache) (j k : ℕ) (v : Label) → k ≢ j → (get c k).0 ≡ none → (get (add c j v) k).0 ≡ none
  pub get-get : (c : Cache) (j k : ℕ) → (get c k).0 ≡ none → (get (get c j).1 k).0 ≡ none

-- What resolution reads of the configuration, of the rule, and of the other components.
pub record Context : Type 0 where
  pub gazelle : Gazelle
  pub index : JavaExportIndex
  pub maven : Resolver
  pub resolve_to_java_exports : Bool
  pub excluded_artifacts : List (Text × Unit {0})
  pub maven_repository_name : Text
  pub from : Label
  pub is_test_rule : Bool
  pub own_package_names : List PackageName

-- resolve.ImportSpec of a package with its flags.
abbrev pub import_of : PackageName → Bool → Bool → Text
import_of imp only suite = to_string (new_resolvable_java_package imp only suite)

-- The filter for a configuration that does not resolve to exports.
unfoldable pub non_export_matches : JavaExportIndex → List Label → List Label
non_export_matches index [] = []
non_export_matches index (l ∷ ls) =
    let rest = non_export_matches index ls in
    elim (is_java_export index l) [ true ↦ rest | false ↦ l ∷ rest ]

unfoldable pub narrowed : Context → List Label → Option (List Label)
narrowed ctx matches =
    let resolved = try_resolving_to_java_export ctx.index matches ctx.from in
    if ctx.resolve_to_java_exports then resolved else some (non_export_matches ctx.index matches)

abbrev pub runfiles_package : Text
runfiles_package = codes "com.google.devtools.build.runfiles"

abbrev pub runfiles_label : Text
runfiles_label = codes "@bazel_tools//tools/java/runfiles"

abbrev pub test_lib_suffix : Text
test_lib_suffix = codes "-test-lib"

-- A label, whether the package is ambiguous, whether an error was logged, and how many of the pointers that
-- the function makes come before the one that `cacheKey` holds in the end, and altogether.
pub record Resolved : Type 0 where
  pub out : Label
  pub ambiguous : Bool
  pub failed : Bool
  pub key_offset : ℕ
  pub allocated : ℕ

abbrev pub resolved : Label → Bool → Resolved
resolved l ambiguous = record {
  out = l;
  ambiguous = ambiguous;
  failed = false;
  key_offset = 0;
  allocated = 1;
}

-- The last step: the error, but not for a test whose own package it is.
unfoldable pub not_found : Context → PackageName → Resolved → Resolved
unfolding package_name_dec
not_found ctx imp r =
    if ctx.is_test_rule && any (λ p. is_yes (package_name_dec p imp)) ctx.own_package_names
    then r
    else record r { failed = true }

abbrev pub helper_of : Label → Label
helper_of l = record l { name = l.name ++ test_lib_suffix }

-- Nothing was found; the number says which key `cacheKey` holds, of the three that were made.
abbrev pub nothing_of_three : ℕ → Resolved
nothing_of_three key = record {
  out = no_label;
  ambiguous = false;
  failed = false;
  key_offset = key;
  allocated = 3;
}

-- The rules of test suites that provide the package: a single one counts.
unfoldable pub test_suite_match : Context → PackageName → List Label → Resolved
unfolding not_found Label-discrete
test_suite_match ctx imp [] = not_found ctx imp (nothing_of_three 0)
test_suite_match ctx imp (l ∷ []) =
    if same_label l ctx.from
    then not_found ctx imp (nothing_of_three 2)
    else record (nothing_of_three 2) {
      out = simplify_label ctx.gazelle.repo_name (helper_of l) ctx.from;
    }
test_suite_match ctx imp (l ∷ k ∷ ls) = not_found ctx imp (nothing_of_three 0)

-- The rules for tests only: a single one counts.
unfoldable pub test_only_match : Context → PackageName → List Label → Resolved
unfolding test_suite_match
test_only_match ctx imp [] =
    test_suite_match ctx imp (ctx.gazelle.rules_by_import (import_of imp true true))
test_only_match ctx imp (l ∷ []) = record {
  out = simplify_label ctx.gazelle.repo_name l ctx.from;
  ambiguous = false;
  failed = false;
  key_offset = 1;
  allocated = 2;
}
test_only_match ctx imp (l ∷ k ∷ ls) =
    test_suite_match ctx imp (ctx.gazelle.rules_by_import (import_of imp true true))

-- `if isTestRule { … }` and what follows.
unfoldable pub from_tests : Context → PackageName → Resolved
unfolding not_found test_only_match
from_tests ctx imp =
    if ctx.is_test_rule
    then test_only_match ctx imp (ctx.gazelle.rules_by_import (import_of imp true false))
    else not_found ctx imp (resolved no_label false)

module _ (lib : LabelLib) where
  abbrev pub is_class_resolved : Context → PackageName → Text → Bool
  is_class_resolved ctx imp name =
      elim (resolve_class lib ctx.maven (new_class_name imp name) ctx.excluded_artifacts
        ctx.maven_repository_name) [
          | none ↦ false
          | some l ↦ elim (same_label l no_label) [ true ↦ false | false ↦ true ]
        ]

  unfoldable pub from_maven : Context → PackageName → List Text → Option Resolved
  unfolding Label-discrete any
  from_maven ctx imp pkg_classes =
      elim (resolve lib ctx.maven imp ctx.excluded_artifacts ctx.maven_repository_name) [
        | found l ↦ some (resolved l false)
        | no_external_imports _ ↦ some (from_tests ctx imp)
        | multiple_external_imports _ _ ↦ elim (any (is_class_resolved ctx imp) pkg_classes) [
          | true ↦ some (resolved no_label true)
          | false ↦ some (from_tests ctx imp)
        ]
        | bad_label _ ↦ none
      ]

  -- What follows the cache.
  unfoldable pub not_cached : Context → PackageName → List Text → Option Resolved
  unfolding from_maven text_dec
  not_cached ctx imp pkg_classes =
      if is_java_stdlib imp
      then some (resolved no_label false)
      else if same_text imp.name runfiles_package
      then (elim (lib.parse runfiles_label) [ none ↦ none | some l ↦ some (resolved l false) ])
      else from_maven ctx imp pkg_classes

  -- The state of a Resolver and of its language that resolving a package changes.
  pub record PackageState (lru : Lru) : Type 0 where
    pub cache : lru.Cache
    pub pointers : ℕ
    pub has_had_errors : Bool

  module _ (lru : Lru) where
    -- A call that made pointers and touched nothing else.
    abbrev pub count_pointers : ℕ → PackageState lru → PackageState lru
    count_pointers n s = record s { pointers = n + s.pointers }

    -- The deferred function, when the cache was asked with the key `key` and had nothing.
    unfoldable pub after_miss : ℕ → Resolved → PackageState lru → PackageState lru
    unfolding Label-discrete
    after_miss key r s =
        let s' = record s {
          pointers = r.allocated + s.pointers;
          has_had_errors = r.failed || s.has_had_errors;
        } in
        if same_label r.out no_label
        then s'
        else record s' { cache = lru.add s'.cache (r.key_offset + key) r.out }

    unfoldable pub look_up :
        Context
        → PackageName
        → List Text
        → PackageState lru
        → Option ((Label × Bool) × PackageState lru)
    unfolding after_miss
    look_up ctx imp pkg_classes s =
        let key = s.pointers in
        let s' = record s { cache = (lru.get s.cache key).1 } in
        elim (lru.get s.cache key).0 [
          | some v ↦
              some ((simplify_label ctx.gazelle.repo_name v ctx.from, false), count_pointers 1 s')
          | none ↦ elim (not_cached ctx imp pkg_classes) [
            | none ↦ none
            | some r ↦ some ((r.out, r.ambiguous), after_miss key r s')
          ]
        ]

    -- By the matches in Gazelle's index: the fatal entry, none, one, or several.
    unfoldable pub by_matches :
        Context
        → PackageName
        → List Text
        → Option (List Label)
        → PackageState lru
        → Option ((Label × Bool) × PackageState lru)
    unfolding look_up
    by_matches ctx imp pkg_classes none s = none
    by_matches ctx imp pkg_classes (some []) s = look_up ctx imp pkg_classes s
    by_matches ctx imp pkg_classes (some (l ∷ [])) s = some ((l, false), count_pointers 1 s)
    by_matches ctx imp pkg_classes (some (l ∷ k ∷ ls)) s =
        some ((no_label, true), count_pointers 1 s)

    -- resolveSinglePackageWithAmbiguity
    unfoldable pub resolve_single_package_with_ambiguity :
        Context
        → PackageName
        → List Text
        → PackageState lru
        → Option ((Label × Bool) × PackageState lru)
    unfolding by_matches
    resolve_single_package_with_ambiguity ctx imp pkg_classes s =
        elim (ctx.gazelle.override (import_of imp false false)) [
          | some l ↦ some ((l, false), count_pointers 1 s)
          | none ↦
              by_matches ctx imp pkg_classes
                (narrowed ctx (ctx.gazelle.rules_by_import (import_of imp false false))) s
        ]
