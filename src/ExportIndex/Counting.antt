-- ===== src/ExportIndex/Counting.antt =====
-- `calculateTransitiveDependencies` of java/gazelle/private/java_export_index/java_export_index.go on
-- dependencies without cycles.
pub mod Order
use Prim.Native.Nat.{◌%◌, ◌^◌}
use native.Mathlib.Nat.{mod-eq_of_lt}
use rules_jvm.Prelude.{
  ℕ, zero, suc, ◌+◌, ◌≤◌, ◌<◌, ◌≡◌, ◌≢◌, refl, ap, sym, subst, ◌⊎◌, ◌∙◌, inl, inr, ite, Option,
  none, some, List, [], ◌∷◌, Memᴰ, arith, lookup, put, lookup-put, lookup-put_self, keys,
  Option-cases, Memᴰ-cons, not-Memᴰ-nil,
}
use rules_jvm.Labels.{Label, Label-discrete}
use rules_jvm.ExportIndex.{
  JavaExportIndex, LabelSet, Memo, rule_dependencies, direct_dependencies_of, sum_dependencies,
  calculate_transitive_dependencies,
}

abbrev pub count_of : Memo → Label → Option ℕ
count_of memo l = lookup Label-discrete l memo.counts

suc_le : (a b c : ℕ) → a < b → b ≤ c → suc a ≤ c
suc_le a b c h k = omega arith

-- What a label depends on directly.
unfoldable pub direct : JavaExportIndex → Label → LabelSet
direct jei l = elim (lookup Label-discrete l jei.java_exports) [
  | some export ↦ export.direct_dependencies
  | none ↦ rule_dependencies jei l
]

-- The paths from a list of labels, and the labels themselves.
unfoldable pub sum_paths : (Label → ℕ) → List Label → ℕ
sum_paths paths [] = 0
sum_paths paths (d ∷ ds) = paths d + 1 + sum_paths paths ds

wrap : (n : ℕ) → n < 2 ^ 64 → n % 2 ^ 64 ≡ n
wrap n h = mod-eq_of_lt h

module _ (jei : JavaExportIndex) (paths : Label → ℕ) where
  -- What is memoized is right, a count is the number of paths, and every counted label has a larger count than each of its direct
  -- dependencies, which are counted too.
  pub record IsGood (memo : Memo) : Type 0 where
    pub consistent :
        (l : Label) (s : LabelSet)
        → lookup Label-discrete l memo.dependencies ≡ some s
        → s ≡ rule_dependencies jei l
    pub exact : (l : Label) (n : ℕ) → count_of memo l ≡ some n → n ≡ paths l
    pub ordered :
        (l : Label) (n : ℕ)
        → count_of memo l ≡ some n
        → (d : Label) → Memᴰ d (keys (direct jei l))
        → (m : ℕ) × (count_of memo d ≡ some m) × (m < n)

  put-consistent :
      (l : Label) (m : List (Label × LabelSet))
      → ((k : Label) (s : LabelSet)
          → lookup Label-discrete k m ≡ some s
          → s ≡ rule_dependencies jei k)
      → (k : Label) (s : LabelSet)
      → lookup Label-discrete k (put Label-discrete l (rule_dependencies jei l) m) ≡ some s
      → s ≡ rule_dependencies jei k
  put-consistent l m c k s h =
      ground (arith, lookup-put Label-discrete l k (rule_dependencies jei l) m, c k s)

  abbrev remembered : Label → Memo → Memo
  remembered l memo = record memo {
    dependencies = put Label-discrete l (rule_dependencies jei l) memo.dependencies;
  }

  direct_dependencies_of-cases :
      (l : Label) (memo : Memo)
      → IsGood memo
      → (direct_dependencies_of jei l memo ≡ (direct jei l, memo))
        ⊎ (direct_dependencies_of jei l memo ≡ (direct jei l, remembered l memo))
  unfolding direct_dependencies_of direct
  direct_dependencies_of-cases l memo g =
      elim (Option-cases (lookup Label-discrete l jei.java_exports)) [
        | inr (export, e) ↦ inl (ground arith)
        | inl e ↦ elim (Option-cases (lookup Label-discrete l memo.dependencies)) [
          | inr (s, e') ↦ inl (ground (arith, g.consistent l s e'))
          | inl e' ↦ inr (ground arith)
        ]
      ]

  abbrev Answers : Label → Memo → (LabelSet × Memo) → Type 0
  Answers l memo r = (r.0 ≡ direct jei l) × (r.1.counts ≡ memo.counts) × IsGood r.1

  direct_dependencies_of_lem :
      (l : Label) (memo : Memo) → IsGood memo → Answers l memo (direct_dependencies_of jei l memo)
  direct_dependencies_of_lem l memo g = elim (direct_dependencies_of-cases l memo g) [
    | inl e ↦ subst (Answers l memo) (sym e) (refl, refl, g)
    | inr e ↦ subst (Answers l memo) (sym e) (
      refl,
      refl,
      record {
        consistent = put-consistent l memo.dependencies g.consistent;
        exact = g.exact;
        ordered = g.ordered;
      },
    )
  ]

  -- A rank that falls along the dependencies: there are no cycles.
  -- The paths add up, and a signed integer of 64 bits holds them.
  module _ (rank : Label → ℕ)
      (falls : (l d : Label) → Memᴰ d (keys (direct jei l)) → rank d < rank l)
      (adds : (l : Label) → paths l ≡ sum_paths paths (keys (direct jei l)))
      (small : (l : Label) → paths l < 2 ^ 63) where
    -- What a call for a label of rank below `r` does.
    pub record Counted (r : ℕ) (memo memo' : Memo) : Type 0 where
      pub kept : (k : Label) (m : ℕ) → count_of memo k ≡ some m → count_of memo' k ≡ some m
      pub above : (k : Label) → r ≤ rank k → count_of memo' k ≡ count_of memo k
      pub good : IsGood memo'

    abbrev pub Succeeds : (Label → Memo → Option (ℕ × Memo)) → ℕ → Type 0
    Succeeds count r =
        (l : Label) (memo : Memo)
        → rank l < r
        → IsGood memo
        → (n : ℕ) × (memo' : Memo) × (count l memo ≡ some (n, memo'))
          × (count_of memo' l ≡ some n)
          × Counted (suc (rank l)) memo memo'

    sum_lem :
        (count : Label → Memo → Option (ℕ × Memo)) (r : ℕ)
        → Succeeds count r
        → (ds : List Label) (total : ℕ) (memo : Memo) → ((d : Label) → Memᴰ d ds → rank d < r)
        → total + sum_paths paths ds < 2 ^ 64
        → IsGood memo
        → (n : ℕ) × (memo' : Memo) × (sum_dependencies count ds total memo ≡ some (n, memo'))
          × (n ≡ total + sum_paths paths ds)
          × ((d : Label) → Memᴰ d ds → (m : ℕ) × (count_of memo' d ≡ some m) × (m < n))
          × Counted r memo memo'
    unfolding sum_dependencies sum_paths
    sum_lem count r ok [] total memo low fits g = (
      total,
      memo,
      refl,
      omega arith,
      λ d m. absurd (not-Memᴰ-nil d m),
      record { kept = λ k m e. e; above = λ k h. refl; good = g },
    )
    sum_lem count r ok (d ∷ ds) total memo low fits g =
        let (n, memo', called, counted, c) =
          ok d memo (low d ((Memᴰ-cons d d ds).1 (inl refl))) g in
        let n≡paths = c.good.exact d n counted in
        let wrapped = wrap (total + n + 1) (omega arith) in
        let (t, memo'', rest, t≡, each, c') =
          sum_lem count r ok ds ((total + n + 1) % 2 ^ 64) memo'
            (λ e m. low e ((Memᴰ-cons e d ds).1 (inr m))) (added_fits wrapped n≡paths) c.good in
        (
          t,
          memo'',
          ground arith,
          t≡ ∙ added wrapped n≡paths,
          λ e m. elim ((Memᴰ-cons e d ds).0 m) [
            | inl e≡d ↦ (
              n,
              c'.kept e n (ap (count_of memo') e≡d ∙ counted),
              below (t≡ ∙ added wrapped n≡paths) n≡paths,
            )
            | inr m' ↦ each e m'
          ],
          record {
            kept = λ k m h. c'.kept k m (c.kept k m h);
            above = λ k h.
                c'.above k h
                ∙ c.above k
                    (suc_le (rank d) r (rank k) (low d ((Memᴰ-cons d d ds).1 (inl refl))) h);
            good = c'.good;
          },
        )
      where
        added :
            {n : ℕ}
            → (total + n + 1) % 2 ^ 64 ≡ total + n + 1
            → n ≡ paths d
            → (total + n + 1) % 2 ^ 64 + sum_paths paths ds
              ≡ total + (paths d + 1 + sum_paths paths ds)
        added w e = omega (arith, w, e)

        added_fits :
            {n : ℕ}
            → (total + n + 1) % 2 ^ 64 ≡ total + n + 1
            → n ≡ paths d
            → (total + n + 1) % 2 ^ 64 + sum_paths paths ds < 2 ^ 64
        added_fits w e = omega (arith, added w e, fits)

        below : {n t : ℕ} → t ≡ total + (paths d + 1 + sum_paths paths ds) → n ≡ paths d → n < t
        below t≡ e = omega arith

    abbrev stored : Label → ℕ → Memo → Memo
    stored l n memo = record memo { counts = put Label-discrete l n memo.counts }

    count_of-stored :
        (l : Label) (n : ℕ) (memo : Memo) (k : Label) (m : ℕ)
        → count_of memo l ≡ none
        → count_of memo k ≡ some m
        → count_of (stored l n memo) k ≡ some m
    count_of-stored l n memo k m fresh h =
        ground (arith, lookup-put Label-discrete l k n memo.counts)

    count_of-stored_other :
        (l : Label) (n : ℕ) (memo : Memo) (k : Label)
        → l ≢ k
        → count_of (stored l n memo) k ≡ count_of memo k
    count_of-stored_other l n memo k ne =
        ground (arith, lookup-put Label-discrete l k n memo.counts)

    stored-cases :
        (l : Label) (n : ℕ) (memo : Memo) (k : Label) (m : ℕ)
        → count_of (stored l n memo) k ≡ some m
        → ((l ≡ k) × (n ≡ m)) ⊎ (count_of memo k ≡ some m)
    stored-cases l n memo k m h = ground (arith, lookup-put Label-discrete l k n memo.counts)

    store-IsGood :
        (l : Label) (n : ℕ) (memo : Memo)
        → IsGood memo
        → count_of memo l ≡ none
        → ((d : Label)
            → Memᴰ d (keys (direct jei l))
            → (m : ℕ) × (count_of memo d ≡ some m) × (m < n))
        → n ≡ paths l
        → IsGood (stored l n memo)
    store-IsGood l n memo g fresh each n≡ = record {
      consistent = g.consistent;
      exact = λ k m h. elim (stored-cases l n memo k m h) [
        | inl (p, q) ↦ sym q ∙ n≡ ∙ ap paths p
        | inr old ↦ g.exact k m old
      ];
      ordered = λ k m h d md. elim (stored-cases l n memo k m h) [
        | inl (p, q) ↦
            let (i, e, lt) = each d (subst (λ x. Memᴰ d (keys (direct jei x))) (sym p) md) in
            (i, count_of-stored l n memo d i fresh e, subst (λ x. i < x) q lt)
        | inr old ↦
            let (i, e, lt) = g.ordered k m old d md in (i, count_of-stored l n memo d i fresh e, lt)
      ];
    }

    calculate-run :
        (fuel : ℕ) (l : Label) (memo : Memo) (n : ℕ) (memo' : Memo)
        → count_of memo l ≡ none
        → sum_dependencies
            (calculate_transitive_dependencies jei fuel)
            (keys (direct_dependencies_of jei l memo).0)
            0
            (direct_dependencies_of jei l memo).1
          ≡ some (n, memo')
        → calculate_transitive_dependencies jei (suc fuel) l memo ≡ some (n, stored l n memo')
    unfolding calculate_transitive_dependencies
    calculate-run fuel l memo n memo' e s = ground arith

    rank-ne : (l k : Label) → suc (rank l) ≤ rank k → l ≢ k
    rank-ne l k h e = omega (arith, ap rank e)

    above-weaken : (l k : Label) → suc (rank l) ≤ rank k → rank l ≤ rank k
    above-weaken l k h = omega arith

    from_zero : {n s p : ℕ} → n ≡ 0 + s → s ≡ p → n ≡ p
    from_zero a b = omega arith

    pub calculate_lem : (fuel : ℕ) → Succeeds (calculate_transitive_dependencies jei fuel) fuel
    unfolding calculate_transitive_dependencies
    calculate_lem zero l memo low g = elim low [ ]
    calculate_lem (suc fuel) l memo low g = elim (Option-cases (count_of memo l)) [
      | inr (n, e) ↦
          (n, memo, ground arith, e, record { kept = λ k m h. h; above = λ k h. refl; good = g })
      | inl e ↦
          let (found, counts, g') = direct_dependencies_of_lem l memo g in
          let direct≡ = ap (λ x. sum_paths paths (keys x)) found ∙ sym (adds l) in
          let (n, memo', s, n≡, each, c) =
            sum_lem (calculate_transitive_dependencies jei fuel) (rank l)
              (λ d m lt h. calculate_lem fuel d m (omega arith) h)
              (keys (direct_dependencies_of jei l memo).0) 0 (direct_dependencies_of jei l memo).1
              (λ d m. falls l d (subst (λ x. Memᴰ d (keys x)) found m))
              (omega (arith, direct≡, small l)) g' in
          let fresh = c.above l (omega arith) ∙ ap (lookup Label-discrete l) counts ∙ e in
          (
            n,
            stored l n memo',
            calculate-run fuel l memo n memo' e s,
            lookup-put_self Label-discrete l n memo'.counts,
            record {
              kept = λ k m h.
                  count_of-stored l n memo' k m fresh
                    (c.kept k m (ap (lookup Label-discrete k) counts ∙ h));
              above = λ k h.
                  count_of-stored_other l n memo' k (rank-ne l k h)
                  ∙ c.above k (above-weaken l k h)
                  ∙ ap (lookup Label-discrete k) counts;
              good =
                  store-IsGood l n memo' c.good fresh
                    (λ d m. each d (subst (λ x. Memᴰ d (keys x)) (sym found) m))
                    (from_zero n≡ direct≡);
            },
          )
    ]
