-- ===== src/Resolve/Package/Cache.antt =====
-- The cache of `resolveSinglePackageWithAmbiguity` (java/gazelle/resolve.go) and its keys, pointers that
-- were just made.
use rules_jvm.Prelude.{
  ℕ, ◌+◌, ◌≤◌, ◌<◌, ◌≡◌, ◌≢◌, inl, inr, refl, Bool, true, false, Option, none, some, List, [], ◌∷◌,
  Text, arith, Bool-cases, any,
}
use rules_jvm.Names.{PackageName}
use rules_jvm.Labels.{Label, LabelLib, no_label}
use rules_jvm.Stdlib.{is_java_stdlib}
use rules_jvm.Maven.Resolver.{
  Answer, found, no_external_imports, multiple_external_imports, bad_label, resolve,
}
use rules_jvm.Resolve.Labels.{same_text, simplify_label}
use rules_jvm.Resolve.Exports.{same_label}
use rules_jvm.Resolve.Package.{
  Lru, Context, Resolved, import_of, narrowed, not_cached, by_matches, not_found, test_suite_match,
  test_only_match, from_tests, from_maven, resolved, is_class_resolved, nothing_of_three,
  runfiles_package, runfiles_label, PackageState, count_pointers, after_miss, look_up,
  resolve_single_package_with_ambiguity,
}

module _ (lib : LabelLib) (lru : Lru) where
  -- No pointer that is still to be made is a key of the cache.
  pub Fresh : PackageState lib lru → Type 0
  Fresh s = (k : ℕ) → s.pointers ≤ k → (lru.get s.cache k).0 ≡ none

  abbrev pub new_state : PackageState lib lru
  new_state = record { cache = lru.new; pointers = 0; has_had_errors = false }

  new_state-Fresh : Fresh new_state
  unfolding Fresh
  new_state-Fresh k h = lru.get-new k

  -- The function without its cache.
  pub by_matches_alone :
      Context → PackageName → List Text → Option (List Label) → Option (Label × Bool)
  by_matches_alone ctx imp pkg_classes none = none
  by_matches_alone ctx imp pkg_classes (some []) = elim (not_cached lib ctx imp pkg_classes) [
    | none ↦ none
    | some r ↦ some (r.out, r.ambiguous)
  ]
  by_matches_alone ctx imp pkg_classes (some (l ∷ [])) = some (l, false)
  by_matches_alone ctx imp pkg_classes (some (l ∷ k ∷ ls)) = some (no_label, true)

  pub without_cache : Context → PackageName → List Text → Option (Label × Bool)
  without_cache ctx imp pkg_classes = elim (ctx.gazelle.override (import_of imp false false)) [
    | some l ↦ some (l, false)
    | none ↦
        by_matches_alone ctx imp pkg_classes
          (narrowed ctx (ctx.gazelle.rules_by_import (import_of imp false false)))
  ]

  abbrev Agrees : Option ((Label × Bool) × PackageState lib lru) → Option (Label × Bool) → Type 0
  Agrees none a = a ≡ none
  Agrees (some (r, s)) a = (a ≡ some r) × Fresh s

  after_miss-Fresh :
      (s : PackageState lib lru) (r : Resolved)
      → r.key_offset < r.allocated
      → Fresh s
      → Fresh
          (after_miss lib lru s.pointers r (record s { cache = (lru.get s.cache s.pointers).1 }))
  unfolding Fresh after_miss
  after_miss-Fresh s r lt fresh = elim (Bool-cases (same_label r.out no_label)) [
    | inl e ↦ rw e (λ k h. lru.get-get s.cache s.pointers k (fresh k (omega arith)))
    | inr e ↦ rw e (λ k h.
        lru.get-add _ (r.key_offset + s.pointers) k r.out (above k h)
          (lru.get-get s.cache s.pointers k (fresh k (omega arith))))
  ]
    where
      above : (k : ℕ) → r.allocated + s.pointers ≤ k → k ≢ r.key_offset + s.pointers
      above k h e = omega arith

  not_found-offset :
      (ctx : Context) (imp : PackageName) (r : Resolved)
      → ((not_found ctx imp r).key_offset ≡ r.key_offset)
        × ((not_found ctx imp r).allocated ≡ r.allocated)
  unfolding not_found
  not_found-offset ctx imp r = ground arith

  abbrev InRange : Resolved → Type 0
  InRange r = r.key_offset < r.allocated

  not_found-InRange :
      (ctx : Context) (imp : PackageName) (r : Resolved) → InRange r → InRange (not_found ctx imp r)
  not_found-InRange ctx imp r h = ground (arith, not_found-offset ctx imp r)

  test_suite_match-InRange :
      (ctx : Context) (imp : PackageName) (ls : List Label) → InRange (test_suite_match ctx imp ls)
  unfolding test_suite_match
  test_suite_match-InRange ctx imp [] = not_found-InRange ctx imp _ (omega arith)
  test_suite_match-InRange ctx imp (l ∷ []) =
      ground (arith, not_found-InRange ctx imp (nothing_of_three 2))
  test_suite_match-InRange ctx imp (l ∷ k ∷ ls) = not_found-InRange ctx imp _ (omega arith)

  test_only_match-InRange :
      (ctx : Context) (imp : PackageName) (ls : List Label) → InRange (test_only_match ctx imp ls)
  unfolding test_only_match
  test_only_match-InRange ctx imp [] =
      test_suite_match-InRange ctx imp (ctx.gazelle.rules_by_import (import_of imp true true))
  test_only_match-InRange ctx imp (l ∷ []) = omega arith
  test_only_match-InRange ctx imp (l ∷ k ∷ ls) =
      test_suite_match-InRange ctx imp (ctx.gazelle.rules_by_import (import_of imp true true))

  from_tests-InRange : (ctx : Context) (imp : PackageName) → InRange (from_tests ctx imp)
  unfolding from_tests
  from_tests-InRange ctx imp = ground (
    arith,
    test_only_match-InRange ctx imp (ctx.gazelle.rules_by_import (import_of imp true false)),
    not_found-InRange ctx imp (resolved no_label false),
  )

  abbrev AllInRange : Option Resolved → Type 0
  AllInRange none = Unit {0}
  AllInRange (some r) = InRange r

  from_maven-InRange :
      (ctx : Context) (imp : PackageName) (cs : List Text) → AllInRange (from_maven lib ctx imp cs)
  unfolding from_maven
  from_maven-InRange ctx imp cs =
      go (resolve lib ctx.maven imp ctx.excluded_artifacts ctx.maven_repository_name)
    where
      ambiguous :
          (b : Bool)
          → AllInRange
              (elim b [ true ↦ some (resolved no_label true) | false ↦ some (from_tests ctx imp) ])
      ambiguous true = omega arith
      ambiguous false = from_tests-InRange ctx imp

      go :
          (a : Answer)
          → AllInRange (elim a [
            | found l ↦ some (resolved l false)
            | no_external_imports _ ↦ some (from_tests ctx imp)
            | multiple_external_imports _ _ ↦ elim (any (is_class_resolved lib ctx imp) cs) [
              | true ↦ some (resolved no_label true)
              | false ↦ some (from_tests ctx imp)
            ]
            | bad_label _ ↦ none
          ])
      go (found l) = omega arith
      go (no_external_imports _) = from_tests-InRange ctx imp
      go (multiple_external_imports _ _) = ambiguous (any (is_class_resolved lib ctx imp) cs)
      go (bad_label _) = tt

  not_cached-InRange :
      (ctx : Context) (imp : PackageName) (cs : List Text) → AllInRange (not_cached lib ctx imp cs)
  unfolding not_cached
  not_cached-InRange ctx imp cs = elim (Bool-cases (is_java_stdlib imp)) [
    | inl e ↦ rw e (omega arith)
    | inr e ↦ rw e (elim (Bool-cases (same_text imp.name runfiles_package)) [
      | inl r ↦ rw r (parsed (lib.parse runfiles_label))
      | inr r ↦ rw r (from_maven-InRange ctx imp cs)
    ])
  ]
    where
      parsed :
          (o : Option Label)
          → AllInRange (elim o [ none ↦ none | some l ↦ some (resolved l false) ])
      parsed none = tt
      parsed (some l) = omega arith

  count_pointers-Fresh :
      (n : ℕ) (s : PackageState lib lru) → Fresh s → Fresh (count_pointers lib lru n s)
  unfolding Fresh
  count_pointers-Fresh n s fresh k h = fresh k (omega arith)

  look_up-Agrees :
      (ctx : Context) (imp : PackageName) (cs : List Text) (s : PackageState lib lru)
      → Fresh s
      → Agrees (look_up lib lru ctx imp cs s) (by_matches_alone ctx imp cs (some []))
  unfolding look_up by_matches_alone Fresh
  look_up-Agrees ctx imp cs s fresh =
      cached (lru.get s.cache s.pointers).0 (fresh s.pointers (omega arith))
    where
      miss : Resolved → PackageState lib lru
      miss r = after_miss lib lru s.pointers r (record s { cache = (lru.get s.cache s.pointers).1 })

      go :
          (o : Option Resolved)
          → AllInRange o
          → Agrees
              (elim o [ none ↦ none | some r ↦ some ((r.out, r.ambiguous), miss r) ])
              (elim o [ none ↦ none | some r ↦ some (r.out, r.ambiguous) ])
      go none h = refl
      go (some r) h = (refl, after_miss-Fresh s r h fresh)

      hit : Label → (Label × Bool) × PackageState lib lru
      hit v = (
        (simplify_label ctx.gazelle.repo_name v ctx.from, false),
        count_pointers lib lru 1 (record s { cache = (lru.get s.cache s.pointers).1 }),
      )

      cached :
          (o : Option Label)
          → o ≡ none
          → Agrees
              (elim o [
                | some v ↦ some (hit v)
                | none ↦ elim (not_cached lib ctx imp cs) [
                  | none ↦ none
                  | some r ↦ some ((r.out, r.ambiguous), miss r)
                ]
              ])
              (elim (not_cached lib ctx imp cs) [
                | none ↦ none
                | some r ↦ some (r.out, r.ambiguous)
              ])
      cached none e = go (not_cached lib ctx imp cs) (not_cached-InRange ctx imp cs)
      cached (some v) e = cc

  by_matches-Agrees :
      (ctx : Context) (imp : PackageName) (cs : List Text) (ms : Option (List Label))
      (s : PackageState lib lru)
      → Fresh s
      → Agrees (by_matches lib lru ctx imp cs ms s) (by_matches_alone ctx imp cs ms)
  unfolding by_matches by_matches_alone
  by_matches-Agrees ctx imp cs none s fresh = refl
  by_matches-Agrees ctx imp cs (some []) s fresh = look_up-Agrees ctx imp cs s fresh
  by_matches-Agrees ctx imp cs (some (l ∷ [])) s fresh = (refl, count_pointers-Fresh 1 s fresh)
  by_matches-Agrees ctx imp cs (some (l ∷ k ∷ ls)) s fresh = (refl, count_pointers-Fresh 1 s fresh)

  resolve-Agrees :
      (ctx : Context) (imp : PackageName) (cs : List Text) (s : PackageState lib lru)
      → Fresh s
      → Agrees
          (resolve_single_package_with_ambiguity lib lru ctx imp cs s)
          (without_cache ctx imp cs)
  unfolding resolve_single_package_with_ambiguity without_cache
  resolve-Agrees ctx imp cs s fresh = go (ctx.gazelle.override (import_of imp false false))
    where
      ms : Option (List Label)
      ms = narrowed ctx (ctx.gazelle.rules_by_import (import_of imp false false))

      go :
          (o : Option Label)
          → Agrees
              (elim o [
                | some l ↦ some ((l, false), count_pointers lib lru 1 s)
                | none ↦ by_matches lib lru ctx imp cs ms s
              ])
              (elim o [ some l ↦ some (l, false) | none ↦ by_matches_alone ctx imp cs ms ])
      go none = by_matches-Agrees ctx imp cs ms s fresh
      go (some l) = (refl, count_pointers-Fresh 1 s fresh)

  -- A row of calls, one after the other.
  unfoldable pub resolve_row :
      List (Context × PackageName × List Text) → PackageState lib lru → Option (List (Label × Bool))
  resolve_row [] s = some []
  resolve_row ((ctx, imp, cs) ∷ calls) s =
      elim (resolve_single_package_with_ambiguity lib lru ctx imp cs s) [
        | none ↦ none
        | some (r, s') ↦ elim (resolve_row calls s') [ none ↦ none | some rs ↦ some (r ∷ rs) ]
      ]

  unfoldable pub row_without_cache :
      List (Context × PackageName × List Text) → Option (List (Label × Bool))
  row_without_cache [] = some []
  row_without_cache ((ctx, imp, cs) ∷ calls) = elim (without_cache ctx imp cs) [
    | none ↦ none
    | some r ↦ elim (row_without_cache calls) [ none ↦ none | some rs ↦ some (r ∷ rs) ]
  ]

  resolve_row-Fresh :
      (calls : List (Context × PackageName × List Text)) (s : PackageState lib lru)
      → Fresh s
      → resolve_row calls s ≡ row_without_cache calls
  unfolding resolve_row row_without_cache
  resolve_row-Fresh [] s fresh = refl
  resolve_row-Fresh ((ctx, imp, cs) ∷ calls) s fresh =
      go (resolve_single_package_with_ambiguity lib lru ctx imp cs s)
        (resolve-Agrees ctx imp cs s fresh) (λ s' f. resolve_row-Fresh calls s' f)
    where
      go :
          (o : Option ((Label × Bool) × PackageState lib lru))
          → Agrees o (without_cache ctx imp cs)
          → ((s' : PackageState lib lru)
              → Fresh s'
              → resolve_row calls s' ≡ row_without_cache calls)
          → elim o [
            | none ↦ none
            | some (r, s') ↦ elim (resolve_row calls s') [ none ↦ none | some rs ↦ some (r ∷ rs) ]
          ]
            ≡ elim (without_cache ctx imp cs) [
              | none ↦ none
              | some r ↦ elim (row_without_cache calls) [ none ↦ none | some rs ↦ some (r ∷ rs) ]
            ]
      go none a ih = rw a
      go (some (r, s')) (a, fresh') ih = rw (a, ih s' fresh')

  -- Whatever packages a Resolver is asked for and in whatever order, it answers as if it had no cache.
  pub resolve_row-cache :
      (calls : List (Context × PackageName × List Text))
      → resolve_row calls new_state ≡ row_without_cache calls
  resolve_row-cache calls = resolve_row-Fresh calls new_state new_state-Fresh
