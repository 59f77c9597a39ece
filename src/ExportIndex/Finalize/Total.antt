-- ===== src/ExportIndex/Finalize/Total.antt =====
-- `FinalizeIndex` (java/gazelle/private/java_export_index/java_export_index.go) as a whole, on
-- dependencies without cycles.
use Prim.Native.Nat.{◌^◌}
use rules_jvm.Prelude.{
  ℕ, ◌+◌, ◌<◌, ◌≡◌, ◌≢◌, refl, subst, Bool, true, Option, none, some, List, [], ◌∷◌, map, length,
  Memᴰ, Memᴰ-cons, not-Memᴰ-nil, lookup, put, keys, arith, sym, Option-cases, ◌⊎◌, inl, inr,
  mem-keys-put, ite, ◌>>=◌,
}
use rules_jvm.Names.{PackageName, package_name_dec}
use rules_jvm.Labels.{Label, LabelLib, Label-discrete, no_label}
use rules_jvm.ExportIndex.{
  JavaExportIndex, JavaExportResolveInfo, LabelSet, ResolveInput, Memo, ExportConflict,
  imported_labels, rule_dependencies, memoized, calculate_imports, count_exports,
}
use rules_jvm.ExportIndex.Counting.{direct, sum_paths, IsGood}
use rules_jvm.ExportIndex.Counting.Order.{empty_memo, empty-IsGood, count_exports_lem}
use rules_jvm.ExportIndex.Finalize.{export_less, import_all, finalize_index}
use rules_jvm.ExportIndex.Finalize.Ready.{
  IsRecorded, Leaves, Known, Processed, calculate_imports-Processed, Records, Records-IsRecorded,
  values, finalize_index-Leaves, IsReadyResult,
}
use rules_jvm.ExportIndex.Finalize.Returns.{missing-length, find_conflicts_ends, traverse_ends}
use rules_jvm.Resolve.Exports.Boundary.{IsReady}

-- The labels that declare a package.
abbrev targets_of : List (PackageName × Label) → List Label
targets_of m = map (λ (e : PackageName × Label). e.1) m

length-targets_of : (m : List (PackageName × Label)) → length (targets_of m) ≡ length m
length-targets_of [] = refl
length-targets_of (e ∷ m) = omega (arith, length-targets_of m)

lookup-targets_of :
    (p : PackageName) (m : List (PackageName × Label)) (l : Label)
    → lookup package_name_dec p m ≡ some l
    → Memᴰ l (targets_of m)
unfolding lookup
lookup-targets_of p [] l e = cc
lookup-targets_of p ((q, x) ∷ m) l e =
    ground (arith, lookup-targets_of p m l, Memᴰ-cons l x (targets_of m))

abbrev FromTargets : JavaExportIndex → LabelSet → Label → Type 0
FromTargets jei acc l = Memᴰ l (keys acc) ⊎ Memᴰ l (targets_of jei.packages_to_labels)

imported_labels_targets :
    (jei : JavaExportIndex) (ps : List PackageName) (acc : LabelSet) (l : Label)
    → Memᴰ l (keys (imported_labels jei ps acc))
    → FromTargets jei acc l
unfolding imported_labels
imported_labels_targets jei [] acc l m = inl m
imported_labels_targets jei (p ∷ ps) acc l m = elim (imported_labels_targets jei ps _ l m) [
  | inl before ↦ go (lookup package_name_dec p jei.packages_to_labels) refl before
  | inr t ↦ inr t
]
  where
    put_or_not :
        (x : Label) (d : Dec (x ≡ no_label))
        → Memᴰ x (targets_of jei.packages_to_labels)
        → Memᴰ l (keys (ite d acc (put Label-discrete x tt acc)))
        → FromTargets jei acc l
    put_or_not x (yes _) t m = inl m
    put_or_not x (no _) t m = elim ((mem-keys-put Label-discrete x l tt acc).0 m) [
      | inl e ↦ inr (subst (λ z. Memᴰ z (targets_of jei.packages_to_labels)) (sym e) t)
      | inr m' ↦ inl m'
    ]

    go :
        (o : Option Label)
        → lookup package_name_dec p jei.packages_to_labels ≡ o
        → Memᴰ l (
            keys (elim o [
              | none ↦ acc
              | some x ↦ ite (Label-discrete x no_label) acc (put Label-discrete x tt acc)
            ]))
        → FromTargets jei acc l
    go none e m = inl m
    go (some x) e m =
        put_or_not x (Label-discrete x no_label) (lookup-targets_of p jei.packages_to_labels x e) m

rule_dependencies_targets :
    (jei : JavaExportIndex) (d l : Label)
    → Memᴰ l (keys (rule_dependencies jei d))
    → Memᴰ l (targets_of jei.packages_to_labels)
unfolding rule_dependencies
rule_dependencies_targets jei d l = go (lookup Label-discrete d jei.labels_to_resolve_inputs)
  where
    only : FromTargets jei [] l → Memᴰ l (targets_of jei.packages_to_labels)
    only (inl m) = absurd (not-Memᴰ-nil l m)
    only (inr t) = t

    go :
        (o : Option ResolveInput)
        → Memᴰ l (
            keys (elim o [
              | none ↦ []
              | some input ↦ imported_labels jei input.imported_package_names []
            ]))
        → Memᴰ l (targets_of jei.packages_to_labels)
    go none m = absurd (not-Memᴰ-nil l m)
    go (some input) m = only (imported_labels_targets jei input.imported_package_names [] l m)

memoized_targets :
    (jei : JavaExportIndex) (paths : Label → ℕ) (memo : Memo)
    → IsGood jei paths memo
    → (d l : Label) → Memᴰ l (memoized memo d)
    → Memᴰ l (targets_of jei.packages_to_labels)
unfolding memoized
memoized_targets jei paths memo g d l = go (lookup Label-discrete d memo.dependencies) refl
  where
    go :
        (o : Option LabelSet)
        → lookup Label-discrete d memo.dependencies ≡ o
        → Memᴰ l (elim o [ none ↦ [] | some s ↦ keys s ])
        → Memᴰ l (targets_of jei.packages_to_labels)
    go none e m = absurd (not-Memᴰ-nil l m)
    go (some s) e m =
        rule_dependencies_targets jei d l (subst (λ x. Memᴰ l (keys x)) (g.consistent d s e) m)

bind_ends :
    {A B C : Type 0} (o : Option A) (p : Option B) (f : A → B → C)
    → o ≢ none
    → p ≢ none
    → (do a ← o; b ← p; some (f a b)) ≢ none
bind_ends none p f h k = λ e. h refl
bind_ends (some a) none f h k = λ e. k refl
bind_ends (some a) (some b) f h k = λ e. cc

module _ (lib : LabelLib) (memo : Memo) (us : List Label) (fuel : ℕ)
    (from : (d l : Label) → Memᴰ l (memoized memo d) → Memᴰ l us) where
  Fits : JavaExportResolveInfo → Type 0
  Fits e = length (keys e.direct_dependencies) + length us < fuel

  calculate_imports_ends :
      (e : JavaExportResolveInfo) (jei : JavaExportIndex)
      → IsRecorded jei
      → lookup Label-discrete e.label jei.java_exports ≢ none
      → Fits e
      → calculate_imports lib memo fuel e jei ≢ none
  unfolding calculate_imports Fits
  calculate_imports_ends e jei h known fits =
      bind_ends _ _ _ (find_conflicts_ends jei h e.label (keys e.direct_dependencies)) (
        traverse_ends us lib memo from jei.java_exports e.label known fuel _
          (omega (arith, missing-length us e.direct_dependencies)) (h, refl))

  import_all_ends :
      (es : List JavaExportResolveInfo) (jei : JavaExportIndex) (cs : List ExportConflict)
      → IsRecorded jei
      → Known jei es
      → ((e : JavaExportResolveInfo) → Memᴰ e es → Fits e)
      → import_all lib memo fuel es jei cs ≢ none
  unfolding import_all Leaves
  import_all_ends [] jei cs h k fits = λ e. cc
  import_all_ends (x ∷ es) jei cs h k fits =
      go (λ r p. import_all_ends es r.0 _ p.0 p.1 (λ e m. fits e (Memᴰ.tail m)))
        (calculate_imports lib memo fuel x jei)
        (calculate_imports_ends x jei h (k x (Memᴰ.head refl)) (fits x (Memᴰ.head refl)))
        (calculate_imports-Processed lib memo fuel x jei es h (k x (Memᴰ.head refl))
          (λ d m. k d (Memᴰ.tail m)))
    where
      go :
          {f : JavaExportIndex × List ExportConflict
            → Option (JavaExportIndex × List ExportConflict)}
          → ((r : JavaExportIndex × List ExportConflict) → Processed es r → f r ≢ none)
          → (o : Option (JavaExportIndex × List ExportConflict)) → o ≢ none
          → Leaves (Processed es) o
          → elim o [ none ↦ none | some r ↦ f r ] ≢ none
      go rest none n p = absurd (n refl)
      go rest (some r) n p = rest r p

module _ (lib : LabelLib)
    (sequence : (JavaExportResolveInfo → JavaExportResolveInfo → Bool)
      → List JavaExportResolveInfo
      → List JavaExportResolveInfo)
    (given : (less : JavaExportResolveInfo → JavaExportResolveInfo → Bool)
        (es : List JavaExportResolveInfo) (e : JavaExportResolveInfo)
      → Memᴰ e (sequence less es)
      → Memᴰ e es)
    (jei : JavaExportIndex) (paths rank : Label → ℕ)
    (falls : (l d : Label) → Memᴰ d (keys (direct jei l)) → rank d < rank l)
    (adds : (l : Label) → paths l ≡ sum_paths paths (keys (direct jei l)))
    (small : (l : Label) → paths l < 2 ^ 63) where
  finalize_index-run :
      (counting visiting : ℕ) (memo : Memo) (r : JavaExportIndex × List ExportConflict)
      → count_exports jei counting (keys jei.java_exports) empty_memo ≡ some memo
      → import_all lib memo visiting
          (sequence (export_less lib memo) (values jei.java_exports))
          jei
          []
        ≡ some r
      → finalize_index lib sequence counting visiting jei
        ≡ some (record r.0 { ready_for_resolve = true }, r.1)
  unfolding finalize_index
  finalize_index-run counting visiting memo r c i = ground arith

  -- Whatever rules and exports were recorded, and in whatever order the exports are processed: on dependencies
  -- without cycles (a rank falls from every label to its direct dependencies), whose paths a Go `int` can count,
  -- `FinalizeIndex` returns. For the count, more fuel than the rank of every export is enough, and for the traversal
  -- more than the direct dependencies of every export and the packages that rules declare together. The index that it
  -- returns is ready, and every label that was taken over belongs to an export that is recorded under its own label.
  pub finalize_index-IsReady :
      (counting visiting : ℕ)
      → Records jei
      → ((l : Label) → Memᴰ l (keys jei.java_exports) → rank l < counting)
      → ((e : JavaExportResolveInfo)
          → Memᴰ e (values jei.java_exports)
          → length (keys e.direct_dependencies) + length jei.packages_to_labels < visiting)
      → (jei' : JavaExportIndex) × (conflicts : List ExportConflict) × (finalize_index lib sequence
            counting visiting jei
          ≡ some (jei', conflicts))
        × IsReady jei'
  unfolding Leaves Fits
  finalize_index-IsReady counting visiting recorded low fits =
      let h = Records-IsRecorded jei recorded in
      let (memo, run, _, _, g) =
        count_exports_lem jei paths rank falls adds small counting (keys jei.java_exports)
          empty_memo low (empty-IsGood jei paths) in
      let in_list = given (export_less lib memo) (values jei.java_exports) in
      elim (Option-cases (
        import_all lib memo visiting (sequence (export_less lib memo) (values jei.java_exports)) jei
          [])) [
            | inl n ↦ absurd (
                import_all_ends lib memo (targets_of jei.packages_to_labels) visiting
                  (memoized_targets jei paths memo g)
                  (sequence (export_less lib memo) (values jei.java_exports)) jei [] h
                  (λ e m. h.listed e (in_list e m))
                  (λ e m.
                    omega (arith, length-targets_of jei.packages_to_labels, fits e (in_list e m)))
                  n)
            | inr (r, i) ↦
                let returned = finalize_index-run counting visiting memo r run i in
                (
                  record r.0 { ready_for_resolve = true },
                  r.1,
                  returned,
                  subst (Leaves IsReadyResult) returned
                      (finalize_index-Leaves lib sequence given counting visiting jei h),
                )
          ]
