-- ===== src/ExportIndex/Counting/Order.antt =====
-- What `FinalizeIndex` of java/gazelle/private/java_export_index/java_export_index.go relies on when
-- it sorts the exports by their counts.
use Prim.Native.Nat.{◌^◌}
use rules_jvm.Prelude.{
  ℕ, ◌<◌, ◌≡◌, refl, inl, inr, ap, ◌∙◌, some, List, [], ◌∷◌, Memᴰ, arith, lookup, keys, Memᴰ-cons,
  not-Memᴰ-nil,
}
use rules_jvm.Labels.{Label}
use rules_jvm.ExportIndex.{JavaExportIndex, Memo, count_exports}
use rules_jvm.ExportIndex.Counting.{count_of, direct, sum_paths, IsGood, calculate_lem}

-- A label depends on another, directly or through others.
pub data DependsOn (jei : JavaExportIndex) : Label → Label → Type 0 where
  directly : (l d : Label) → Memᴰ d (keys (direct jei l)) → DependsOn jei l d
  through : (l d e : Label) → Memᴰ d (keys (direct jei l)) → DependsOn jei d e → DependsOn jei l e

abbrev pub empty_memo : Memo
empty_memo = record { counts = []; dependencies = [] }

pub empty-IsGood : (jei : JavaExportIndex) (paths : Label → ℕ) → IsGood jei paths empty_memo
unfolding lookup
empty-IsGood jei paths = record {
  consistent = λ l s h. cc;
  exact = λ l n h. cc;
  ordered = λ l n h. cc;
}

module _ (jei : JavaExportIndex) (paths rank : Label → ℕ)
    (falls : (l d : Label) → Memᴰ d (keys (direct jei l)) → rank d < rank l)
    (adds : (l : Label) → paths l ≡ sum_paths paths (keys (direct jei l)))
    (small : (l : Label) → paths l < 2 ^ 63) where
  pub count_exports_lem :
      (fuel : ℕ) (ls : List Label) (memo : Memo)
      → ((l : Label) → Memᴰ l ls → rank l < fuel)
      → IsGood jei paths memo
      → (memo' : Memo) × (count_exports jei fuel ls memo ≡ some memo')
        × ((k : Label) (m : ℕ) → count_of memo k ≡ some m → count_of memo' k ≡ some m)
        × ((l : Label) → Memᴰ l ls → (n : ℕ) × (count_of memo' l ≡ some n))
        × IsGood jei paths memo'
  unfolding count_exports
  count_exports_lem fuel [] memo low g =
      (memo, refl, λ k m h. h, λ l m. absurd (not-Memᴰ-nil l m), g)
  count_exports_lem fuel (l ∷ ls) memo low g =
      let (n, memo', called, counted, c) =
        calculate_lem jei paths rank falls adds small fuel l memo
          (low l ((Memᴰ-cons l l ls).1 (inl refl))) g in
      let (memo'', rest, kept, each, g') =
        count_exports_lem fuel ls memo' (λ e m. low e ((Memᴰ-cons e l ls).1 (inr m))) c.good in
      (
        memo'',
        ground arith,
        λ k m h. kept k m (c.kept k m h),
        λ e m. elim ((Memᴰ-cons e l ls).0 m) [
          | inl p ↦ (n, kept e n (ap (count_of memo') p ∙ counted))
          | inr m' ↦ each e m'
        ],
        g',
      )
