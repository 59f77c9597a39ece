-- ===== src/ExportIndex/Finalize/Returns.antt =====
-- `FinalizeIndex` (java/gazelle/private/java_export_index/java_export_index.go) returns, and what it returns.
use rules_jvm.Prelude.{
  ℕ, zero, suc, ◌+◌, ◌<◌, ◌≤◌, ◌≡◌, ◌≢◌, refl, sym, ap, ◌∙◌, Bool, true, false, Option, none, some,
  List, [], ◌∷◌, ◌++◌, length, Memᴰ, Memᴰ-cons, not-Memᴰ-nil, lookup, put, lookup-put, arith,
  Option-cases, inl, inr,
}
use rules_jvm.Labels.{Label, LabelLib, Label-discrete}
use rules_jvm.ExportIndex.{
  JavaExportIndex, JavaExportResolveInfo, LabelSet, Memo, Traversal, queue_dependencies, visit,
  round, traverse, memoized, find_conflicts, is_java_export, exported_by,
}
use rules_jvm.ExportIndex.Finalize.Ready.{IsRecorded, visit-IsRecorded, Leaves, Keeps, round-Keeps}
use rules_jvm.Resolve.Exports.Boundary.{owner}

-- How many of the labels are not in the set.
pub missing : List Label → LabelSet → ℕ
missing [] set = 0
missing (u ∷ us) set = elim (lookup Label-discrete u set) [ none ↦ 1 | some _ ↦ 0 ] + missing us set

missing-put_le :
    (us : List Label) (l : Label) (set : LabelSet)
    → missing us (put Label-discrete l tt set) ≤ missing us set
unfolding missing
missing-put_le [] l set = omega arith
missing-put_le (u ∷ us) l set =
    ground (arith, missing-put_le us l set, lookup-put Label-discrete l u tt set)

missing-put :
    (us : List Label) (l : Label) (set : LabelSet)
    → Memᴰ l us
    → lookup Label-discrete l set ≡ none
    → missing us (put Label-discrete l tt set) < missing us set
unfolding missing
missing-put [] l set m e = absurd (not-Memᴰ-nil l m)
missing-put (u ∷ us) l set m e = elim ((Memᴰ-cons l u us).0 m) [
  | inl p ↦ ground (arith, missing-put_le us l set, lookup-put Label-discrete l u tt set)
  | inr m' ↦ ground (arith, missing-put us l set m' e, lookup-put Label-discrete l u tt set)
]

pub missing-length : (us : List Label) (set : LabelSet) → missing us set ≤ length us
unfolding missing
missing-length [] set = omega arith
missing-length (u ∷ us) set = ground (arith, missing-length us set)

-- No label was taken over by an export that is not recorded.
exported_by_ends : (jei : JavaExportIndex) → IsRecorded jei → (l : Label) → exported_by jei l ≢ none
unfolding exported_by owner
exported_by_ends jei h l e =
    elim (Option-cases (lookup Label-discrete l jei.label_to_java_export)) [
      | inl n ↦ ground arith
      | inr (x, o) ↦ ground (arith, h.owned l x o)
    ]

pub find_conflicts_ends :
    (jei : JavaExportIndex)
    → IsRecorded jei
    → (x : Label) (ls : List Label) → find_conflicts jei x ls ≢ none
unfolding find_conflicts
find_conflicts_ends jei h x [] e = cc
find_conflicts_ends jei h x (l ∷ ls) e = elim (Option-cases (find_conflicts jei x ls)) [
  | inl n ↦ find_conflicts_ends jei h x ls n
  | inr (cs, r) ↦ ground (arith, exported_by_ends jei h l)
]

module _ (us : List Label) where
  -- The labels in the queue, and those that may still get into it.
  abbrev load : Traversal → ℕ
  load t = length t.labels_to_visit + missing us t.transitive_deps

  Within : ℕ → Option Traversal → Type 0
  Within n none = ⊥
  Within n (some t) = load t ≤ n

  Within-weaken : (n m : ℕ) (o : Option Traversal) → n ≤ m → Within n o → Within m o
  unfolding Within
  Within-weaken n m none le h = h
  Within-weaken n m (some t) le h = omega arith

  length_snoc : (xs : List Label) (x : Label) → length (xs ++ x ∷ []) ≡ suc (length xs)
  length_snoc [] x = refl
  length_snoc (y ∷ xs) x = ap suc (length_snoc xs x)

  queue_dependencies-Within :
      (ls : List Label) (t : Traversal)
      → IsRecorded t.index
      → ((l : Label) → Memᴰ l ls → Memᴰ l us)
      → Within (load t) (queue_dependencies ls t)
  unfolding queue_dependencies Within
  queue_dependencies-Within [] t h in_us = omega arith
  queue_dependencies-Within (l ∷ ls) t h in_us =
      go
        (λ t' h'.
          queue_dependencies-Within ls t' h' (λ x m. in_us x ((Memᴰ-cons x l ls).1 (inr m))))
        (is_java_export t.index l) (exported_by t.index l) (exported_by_ends t.index h l)
        (lookup Label-discrete l t.transitive_deps) refl
    where
      go :
          ((t' : Traversal) → IsRecorded t'.index → Within (load t') (queue_dependencies ls t'))
          → (b : Bool) (o : Option (Option JavaExportResolveInfo)) → o ≢ none
          → (u : Option (Unit {0})) → lookup Label-discrete l t.transitive_deps ≡ u
          → Within (load t) (elim b [
            | true ↦ queue_dependencies ls t
            | false ↦ elim o [
              | none ↦ none
              | some (some _) ↦ queue_dependencies ls t
              | some none ↦ elim u [
                | some _ ↦ queue_dependencies ls t
                | none ↦ queue_dependencies ls (record t {
                  labels_to_visit = t.labels_to_visit ++ l ∷ [];
                  transitive_deps = put Label-discrete l tt t.transitive_deps;
                })
              ]
            ]
          ])
      go f true o n u e = f t h
      go f false none n u e = absurd (n refl)
      go f false (some (some x)) n u e = f t h
      go f false (some none) n (some v) e = f t h
      go f false (some none) n none e =
          Within-weaken _ _ _
            (omega (
              arith,
              length_snoc t.labels_to_visit l,
              missing-put us l t.transitive_deps (in_us l ((Memᴰ-cons l l ls).1 (inl refl))) e,
            ))
            (f _ h)

  module _ (lib : LabelLib) (memo : Memo)
      (from : (d l : Label) → Memᴰ l (memoized memo d) → Memᴰ l us) where
    round-Within :
        (export dep : Label) (t : Traversal)
        → lookup Label-discrete export t.index.java_exports ≢ none
        → IsRecorded t.index
        → Within (load t) (round lib memo export dep t)
    unfolding round Within
    round-Within export dep t n h = go (is_java_export t.index dep)
      where
        go :
            (b : Bool)
            → Within (load t) (elim b [
              | true ↦ some t
              | false ↦ queue_dependencies (memoized memo dep) (visit lib export dep t)
            ])
        go true = omega arith
        go false =
            unfold visit in
            queue_dependencies-Within (memoized memo dep) (visit lib export dep t)
              (visit-IsRecorded lib export dep t n h) (from dep)

    pub traverse_ends :
        (xs : List (Label × JavaExportResolveInfo)) (export : Label)
        → (known : lookup Label-discrete export xs ≢ none) → (fuel : ℕ) (t : Traversal)
        → load t < fuel
        → Keeps xs t
        → traverse lib memo export fuel t ≢ none
    unfolding traverse Within Leaves
    traverse_ends xs export known zero t lt h = λ e. absurd (omega arith)
    traverse_ends xs export known (suc fuel) t lt h =
        go (λ t' l k. traverse_ends xs export known fuel t' l k) t.labels_to_visit refl
      where
        Rest : Type 0
        Rest =
            (t' : Traversal)
            → load t' < fuel
            → Keeps xs t'
            → traverse lib memo export fuel t' ≢ none

        after :
            Rest
            → (o : Option Traversal) (n : ℕ) → n < fuel
            → Within n o
            → Leaves (Keeps xs) o
            → elim o [ none ↦ none | some t' ↦ traverse lib memo export fuel t' ] ≢ none
        after f none n le w k = absurd w
        after f (some t') n le w k = f t' (omega arith) k

        go :
            Rest
            → (ls : List Label) → t.labels_to_visit ≡ ls
            → elim ls [
              | [] ↦ some t
              | dep ∷ rest ↦
                  elim (round lib memo export dep (record t { labels_to_visit = rest })) [
                    | none ↦ none
                    | some t' ↦ traverse lib memo export fuel t'
                  ]
            ]
              ≢ none
        go f [] q = λ e. cc
        go f (dep ∷ rest) q =
            after f _ (length rest + missing us t.transitive_deps) (omega (arith, ap length q))
              (round-Within export dep (record t { labels_to_visit = rest })
                (λ e. known (ap (lookup Label-discrete export) (sym h.1) ∙ e)) h.0)
              (round-Keeps xs lib memo export known dep (record t { labels_to_visit = rest }) h)
