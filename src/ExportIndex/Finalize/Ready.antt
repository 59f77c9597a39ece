-- ===== src/ExportIndex/Finalize/Ready.antt =====
-- The index that `FinalizeIndex` (java/gazelle/private/java_export_index/java_export_index.go) leaves.
use rules_jvm.Prelude.{
  ℕ, zero, suc, ◌≡◌, ◌≢◌, refl, sym, ap, ◌∙◌, subst, Bool, true, false, Option, none, some, List,
  [], ◌∷◌, ◌++◌, map, Memᴰ, Memᴰ-cons, not-Memᴰ-nil, lookup, put, lookup-put, keys, arith, ◌>>=◌,
  if◌then◌else◌, Option-cases, ◌⊎◌, inl, inr,
}
use rules_jvm.Labels.{Label, LabelLib, Label-discrete}
use rules_jvm.ExportIndex.{
  JavaExportIndex, JavaExportResolveInfo, Memo, ExportConflict, Traversal, ResolveInput,
  queue_dependencies, visit, round, traverse, memoized, calculate_imports, find_conflicts,
  record_rule, record_java_export, new_java_export_index, is_java_export, exported_by,
  count_exports,
}
use rules_jvm.ExportIndex.Finalize.{export_less, import_all, finalize_index}
use rules_jvm.Resolve.Exports.Boundary.{IsReady, owner}

abbrev pub values : List (Label × JavaExportResolveInfo) → List JavaExportResolveInfo
values xs = map (λ (e : Label × JavaExportResolveInfo). e.1) xs

mem-values-put :
    (k : Label) (v : JavaExportResolveInfo) (xs : List (Label × JavaExportResolveInfo))
    (e : JavaExportResolveInfo)
    → Memᴰ e (values (put Label-discrete k v xs))
    → (e ≡ v) ⊎ Memᴰ e (values xs)
unfolding put
mem-values-put k v [] e m = ground (arith, Memᴰ-cons e v [], not-Memᴰ-nil e, m)
mem-values-put k v ((j, w) ∷ xs) e m = ground (
  arith,
  mem-values-put k v xs e,
  Memᴰ-cons e w (values xs),
  Memᴰ-cons e v (values xs),
  Memᴰ-cons e w (values (put Label-discrete k v xs)),
  m,
)

-- Every export is recorded under its own label, and every label that was taken over by a recorded one.
pub record IsRecorded (jei : JavaExportIndex) : Type 0 where
  pub named :
      (k : Label) (info : JavaExportResolveInfo)
      → lookup Label-discrete k jei.java_exports ≡ some info
      → info.label ≡ k
  pub listed :
      (e : JavaExportResolveInfo)
      → Memᴰ e (values jei.java_exports)
      → lookup Label-discrete e.label jei.java_exports ≢ none
  pub owned : (l e : Label) → owner jei l ≡ some e → lookup Label-discrete e jei.java_exports ≢ none

new-IsRecorded : IsRecorded new_java_export_index
unfolding owner lookup
new-IsRecorded = record {
  named = λ k info e. ground (arith, e);
  listed = λ e m. ground (arith, not-Memᴰ-nil e, m);
  owned = λ l e h. ground (arith, h);
}

put-IsRecorded :
    (jei : JavaExportIndex) (info : JavaExportResolveInfo)
    → IsRecorded jei
    → IsRecorded (record jei { java_exports = put Label-discrete info.label info jei.java_exports })
unfolding owner
put-IsRecorded jei info h = record {
  named = λ k i e.
      ground (arith, lookup-put Label-discrete info.label k info jei.java_exports, h.named k i, e);
  listed = λ e m. ground (
    arith,
    mem-values-put info.label info jei.java_exports e m,
    lookup-put Label-discrete info.label e.label info jei.java_exports,
    h.listed e,
  );
  owned = λ l e o.
      ground (arith, lookup-put Label-discrete info.label e info jei.java_exports, h.owned l e, o);
}

pub visit-IsRecorded :
    (lib : LabelLib) (export dep : Label) (t : Traversal)
    → lookup Label-discrete export t.index.java_exports ≢ none
    → IsRecorded t.index
    → IsRecorded (visit lib export dep t).index
unfolding owner visit
visit-IsRecorded lib export dep t n h = record {
  named = h.named;
  listed = h.listed;
  owned = λ l e o. ground (
    arith,
    lookup-put Label-discrete dep l export t.index.label_to_java_export,
    h.owned l e,
    o,
    n,
  );
}

-- A property of the result, if there is one.
unfoldable pub Leaves : {A : Type 0} → (A → Type 0) → Option A → Type 0
Leaves P none = Unit
Leaves P (some a) = P a

Leaves-bind :
    {A B : Type 0} (P : A → Type 0) (Q : B → Type 0) (o : Option A) (k : A → Option B)
    → Leaves P o
    → ((a : A) → P a → Leaves Q (k a))
    → Leaves Q (elim o [ none ↦ none | some a ↦ k a ])
unfolding Leaves
Leaves-bind P Q none k h f = tt
Leaves-bind P Q (some a) k h f = f a h

Leaves-then :
    {A B : Type 0} (P : A → Type 0) (Q : B → Type 0) (o : Option A) (k : A → Option B)
    → Leaves P o
    → ((a : A) → P a → Leaves Q (k a))
    → Leaves Q (o >>= k)
unfolding Leaves
Leaves-then P Q none k h f = tt
Leaves-then P Q (some a) k h f = f a h

Leaves-any : {A : Type 0} (o : Option A) → Leaves (λ a. Unit {0}) o
unfolding Leaves
Leaves-any none = tt
Leaves-any (some a) = tt

-- The recorded exports stay as they are, and what is taken over goes to one of them.
abbrev pub Keeps : List (Label × JavaExportResolveInfo) → Traversal → Type 0
Keeps xs t = IsRecorded t.index × (t.index.java_exports ≡ xs)

module _ (xs : List (Label × JavaExportResolveInfo)) where
  queue_dependencies-Keeps :
      (ls : List Label) (t : Traversal) → Keeps xs t → Leaves (Keeps xs) (queue_dependencies ls t)
  unfolding queue_dependencies Leaves
  queue_dependencies-Keeps [] t h = h
  queue_dependencies-Keeps (l ∷ ls) t h =
      go (λ t' h'. queue_dependencies-Keeps ls t' h') (is_java_export t.index l)
        (exported_by t.index l) (lookup Label-discrete l t.transitive_deps)
    where
      go :
          ((t' : Traversal) → Keeps xs t' → Leaves (Keeps xs) (queue_dependencies ls t'))
          → (b : Bool) (o : Option (Option JavaExportResolveInfo)) (u : Option (Unit {0}))
          → Leaves (Keeps xs) (elim b [
            | true ↦ queue_dependencies ls t
            | false ↦ elim o [
              | none ↦ none
              | some (some _) ↦ queue_dependencies ls t
              | some none ↦ elim u [
                | some _ ↦ queue_dependencies ls t
                | none ↦ queue_dependencies ls (record t {
                  labels_to_visit = t.labels_to_visit ++ l ∷ [];
                  transitive_deps = put Label-discrete l tt t.transitive_deps;
                })
              ]
            ]
          ])
      go f true o u = f t h
      go f false none u = tt
      go f false (some (some e)) u = f t h
      go f false (some none) (some u) = f t h
      go f false (some none) none = f _ h

  module _ (lib : LabelLib) (memo : Memo) (export : Label)
      (known : lookup Label-discrete export xs ≢ none) where
    pub round-Keeps :
        (dep : Label) (t : Traversal) → Keeps xs t → Leaves (Keeps xs) (round lib memo export dep t)
    unfolding round Leaves
    round-Keeps dep t h = go (is_java_export t.index dep)
      where
        visited : Keeps xs (visit lib export dep t)
        visited =
            unfold visit in
            (
              visit-IsRecorded lib export dep t
                  (λ e. known (ap (lookup Label-discrete export) (sym h.1) ∙ e)) h.0,
              h.1,
            )

        go :
            (b : Bool)
            → Leaves (Keeps xs) (elim b [
              | true ↦ some t
              | false ↦ queue_dependencies (memoized memo dep) (visit lib export dep t)
            ])
        go true = h
        go false = queue_dependencies-Keeps (memoized memo dep) (visit lib export dep t) visited

    traverse-Keeps :
        (fuel : ℕ) (t : Traversal)
        → Keeps xs t
        → Leaves (Keeps xs) (traverse lib memo export fuel t)
    unfolding traverse Leaves
    traverse-Keeps zero t h = tt
    traverse-Keeps (suc fuel) t h = go (λ t' h'. traverse-Keeps fuel t' h') t.labels_to_visit
      where
        go :
            ((t' : Traversal) → Keeps xs t' → Leaves (Keeps xs) (traverse lib memo export fuel t'))
            → (ls : List Label)
            → Leaves (Keeps xs) (elim ls [
              | [] ↦ some t
              | dep ∷ rest ↦
                  elim (round lib memo export dep (record t { labels_to_visit = rest })) [
                    | none ↦ none
                    | some t' ↦ traverse lib memo export fuel t'
                  ]
            ])
        go f [] = h
        go f (dep ∷ rest) =
            Leaves-bind (Keeps xs) (Keeps xs) _ _
              (round-Keeps dep (record t { labels_to_visit = rest }) h) f

-- The exports that are still to be processed are recorded.
abbrev pub Known : JavaExportIndex → List JavaExportResolveInfo → Type 0
Known jei es =
    (e : JavaExportResolveInfo) → Memᴰ e es → lookup Label-discrete e.label jei.java_exports ≢ none

abbrev pub Processed : List JavaExportResolveInfo → JavaExportIndex × List ExportConflict → Type 0
Processed es r = IsRecorded r.0 × Known r.0 es

pub calculate_imports-Processed :
    (lib : LabelLib) (memo : Memo) (fuel : ℕ) (export : JavaExportResolveInfo)
    (jei : JavaExportIndex) (es : List JavaExportResolveInfo)
    → IsRecorded jei
    → lookup Label-discrete export.label jei.java_exports ≢ none
    → Known jei es
    → Leaves (Processed es) (calculate_imports lib memo fuel export jei)
unfolding calculate_imports Leaves
calculate_imports-Processed lib memo fuel export jei es h n k =
    Leaves-then (λ c. Unit {0}) (Processed es)
      (find_conflicts jei export.label (keys export.direct_dependencies)) _ (Leaves-any _)
      (λ conflicts _.
        Leaves-then (Keeps jei.java_exports) (Processed es) _ _
          (traverse-Keeps jei.java_exports lib memo export.label n fuel _ (h, refl))
          (λ t i. (
            put-IsRecorded t.index (record export { internal_visibility = t.visibility }) i.0,
            λ e m. ground (
              arith,
              lookup-put Label-discrete export.label e.label
                  (record export { internal_visibility = t.visibility }) t.index.java_exports,
              k e m,
              i.1,
            ),
          )))

abbrev IsRecordedResult : JavaExportIndex × List ExportConflict → Type 0
IsRecordedResult r = IsRecorded r.0

import_all-IsRecorded :
    (lib : LabelLib) (memo : Memo) (fuel : ℕ) (es : List JavaExportResolveInfo)
    (jei : JavaExportIndex) (cs : List ExportConflict)
    → IsRecorded jei
    → Known jei es
    → Leaves IsRecordedResult (import_all lib memo fuel es jei cs)
unfolding import_all Leaves
import_all-IsRecorded lib memo fuel [] jei cs h k = h
import_all-IsRecorded lib memo fuel (e ∷ es) jei cs h k =
    Leaves-bind (Processed es) IsRecordedResult (calculate_imports lib memo fuel e jei) _
      (calculate_imports-Processed lib memo fuel e jei es h (k e (ground (arith, Memᴰ-cons e e es)))
        (λ d m. k d (Memᴰ.tail m)))
      (λ r p. import_all-IsRecorded lib memo fuel es r.0 _ p.0 p.1)

-- What the generation of rules does to the index: it records rules and exports.
pub data Records : JavaExportIndex → Type 0 where
  nothing : Records new_java_export_index
  a_rule :
      (jei jei' : JavaExportIndex) (l : Label) (i : ResolveInput)
      → Records jei
      → record_rule jei l i ≡ some jei'
      → Records jei'
  an_export :
      (jei jei' : JavaExportIndex) (info : JavaExportResolveInfo)
      → Records jei
      → record_java_export jei info ≡ some jei'
      → Records jei'

Leaves-if :
    {A : Type 0} (P : A → Type 0) (b : Bool) (a : A) → P a → Leaves P (if b then none else some a)
unfolding Leaves
Leaves-if P true a h = tt
Leaves-if P false a h = h

pub Records-IsRecorded : (jei : JavaExportIndex) → Records jei → IsRecorded jei
unfolding record_rule record_java_export Leaves owner
Records-IsRecorded _ nothing = new-IsRecorded
Records-IsRecorded _ (a_rule jei jei' l i r e) =
    let h = Records-IsRecorded jei r in
    subst (Leaves IsRecorded) e (
      Leaves-if IsRecorded jei.ready_for_resolve _
        (record { named = h.named; listed = h.listed; owned = h.owned }))
Records-IsRecorded _ (an_export jei jei' info r e) = subst (Leaves IsRecorded) e (
    Leaves-if IsRecorded jei.ready_for_resolve _
      (put-IsRecorded jei info (Records-IsRecorded jei r)))

ready : (jei : JavaExportIndex) → IsRecorded jei → IsReady (record jei { ready_for_resolve = true })
unfolding owner
ready jei h = record {
  ready = refl;
  recorded = λ l e o. elim (Option-cases (lookup Label-discrete e jei.java_exports)) [
    | inl n ↦ absurd (h.owned l e o n)
    | inr (info, f) ↦ (info, f, h.named e info f)
  ];
}

abbrev pub IsReadyResult : JavaExportIndex × List ExportConflict → Type 0
IsReadyResult r = IsReady r.0

module _ (lib : LabelLib)
    (sequence : (JavaExportResolveInfo → JavaExportResolveInfo → Bool)
      → List JavaExportResolveInfo
      → List JavaExportResolveInfo)
    (given : (less : JavaExportResolveInfo → JavaExportResolveInfo → Bool)
        (es : List JavaExportResolveInfo) (e : JavaExportResolveInfo)
      → Memᴰ e (sequence less es)
      → Memᴰ e es) where
  pub finalize_index-Leaves :
      (counting visiting : ℕ) (jei : JavaExportIndex)
      → IsRecorded jei
      → Leaves IsReadyResult (finalize_index lib sequence counting visiting jei)
  unfolding finalize_index Leaves
  finalize_index-Leaves counting visiting jei h =
      Leaves-bind (λ m. Unit {0}) IsReadyResult
        (count_exports jei counting (keys jei.java_exports) _) _ (Leaves-any _)
        (λ memo _.
          Leaves-bind IsRecordedResult IsReadyResult
            (import_all lib memo visiting
              (sequence (export_less lib memo) (values jei.java_exports)) jei [])
            (λ r. some (record r.0 { ready_for_resolve = true }, r.1))
            (import_all-IsRecorded lib memo visiting
              (sequence (export_less lib memo) (values jei.java_exports)) jei [] h
              (λ e m. h.listed e (given (export_less lib memo) (values jei.java_exports) e m)))
            (λ r q. ready r.0 q))
