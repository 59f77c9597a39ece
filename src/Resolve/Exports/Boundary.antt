-- ===== src/Resolve/Exports/Boundary.antt =====
-- What `tryResolvingToJavaExport` (java/gazelle/resolve.go) answers on an index that is ready.
use rules_jvm.Prelude.{
  ◌++◌, All, subst, ◌≡◌, refl, sym, ap, ◌∙◌, inl, inr, Bool, true, false, Option, none, some, List,
  [], ◌∷◌, lookup, arith, Bool-cases, Option-cases, ◌⊎◌,
}
use rules_jvm.Labels.{Label, Label-discrete}
use rules_jvm.ExportIndex.{
  JavaExportIndex, JavaExportResolveInfo, is_java_export, exported_by, is_exported_by,
}
use rules_jvm.Resolve.Exports.{
  same_label, same_exporter, covered_by_the_same_export, covering, all_covering, narrow,
  try_resolving_to_java_export,
}

module _ (jei : JavaExportIndex) where
  -- The export that took a label over, as the index maps it.
  unfoldable pub owner : Label → Option Label
  owner l = lookup Label-discrete l jei.label_to_java_export

  -- The index was finalized, and every export that took a label over is recorded under its own label.
  pub record IsReady : Type 0 where
    pub ready : jei.ready_for_resolve ≡ true
    pub recorded :
        (l e : Label)
        → owner l ≡ some e
        → (info : JavaExportResolveInfo) × (lookup Label-discrete e jei.java_exports ≡ some info)
          × (info.label ≡ e)

  pub is_owned_by : Option Label → Label → Bool
  is_owned_by none e = false
  is_owned_by (some f) e = same_label f e

  -- The export at whose boundary a result lies, seen from a rule: the result itself, or the export that took
  -- it over and did not take the rule over.
  pub boundary : Label → Label → Option Label
  boundary from l = elim (is_java_export jei l) [
    | true ↦ some l
    | false ↦ elim (owner l) [
      | none ↦ none
      | some e ↦ elim (is_owned_by (owner from) e) [ true ↦ none | false ↦ some e ]
    ]
  ]

  pub boundaries : Label → List Label → List Label
  boundaries from [] = []
  boundaries from (l ∷ ls) =
      let rest = boundaries from ls in elim (boundary from l) [ none ↦ rest | some e ↦ e ∷ rest ]

  -- No result of the row lies at a boundary.
  abbrev pub Inside : Label → List Label → Type 0
  Inside from ls = All (λ l. boundary from l ≡ none) ls

  none_at : (from : Label) (ls : List Label) → boundaries from ls ≡ [] → Inside from ls
  unfolding boundaries
  none_at from [] e = tt
  none_at from (l ∷ ls) e = elim (Option-cases (boundary from l)) [
    | inl n ↦ (n, none_at from ls (ground (arith, e)))
    | inr (b, m) ↦ absurd (ground (arith, e))
  ]

  -- The first result at a boundary.
  abbrev First : Label → List Label → Label → List Label → Type 0
  First from ls b bs =
      (before : List Label) × (l : Label) × (behind : List Label) × (ls ≡ before ++ l ∷ behind)
      × Inside from before
      × (boundary from l ≡ some b)
      × (boundaries from behind ≡ bs)

  crossing_at :
      (from : Label) (ls : List Label) (b : Label) (bs : List Label)
      → boundaries from ls ≡ b ∷ bs
      → First from ls b bs
  unfolding boundaries
  crossing_at from [] b bs e = ground (arith, e)
  crossing_at from (l ∷ ls) b bs e = elim (Option-cases (boundary from l)) [
    | inl n ↦
        let (before, k, behind, p, i, q, r) = crossing_at from ls b bs (ground (arith, e)) in
        (l ∷ before, k, behind, ap (λ z. l ∷ z) p, (n, i), q, r)
    | inr (c, m) ↦ ([], l, ls, refl, tt, ground (arith, e), ground (arith, e))
  ]

  -- What the code answers: the results themselves if none lies at a boundary, the boundary alone if one lies at one,
  -- and the end of the run if two do.
  pub data Verdict (from : Label) (results : List Label) : Option (List Label) → Type 0 where
    inside : Inside from results → Verdict from results (some results)
    at_one :
        (before behind : List Label) (l e : Label)
        → results ≡ before ++ l ∷ behind
        → Inside from before
        → boundary from l ≡ some e
        → Inside from behind
        → Verdict from results (some (e ∷ []))
    at_two :
        (before between behind : List Label) (l l' e e' : Label)
        → results ≡ before ++ l ∷ (between ++ l' ∷ behind)
        → boundary from l ≡ some e
        → boundary from l' ≡ some e'
        → Verdict from results none

  verdict :
      (from : Label) (results bs : List Label)
      → boundaries from results ≡ bs
      → Verdict from results (narrow results bs)
  unfolding narrow
  verdict from results [] p = inside (none_at from results p)
  verdict from results (e ∷ []) p =
      let (before, l, behind, q, i, b, r) = crossing_at from results e [] p in
      at_one before behind l e q i b (none_at from behind r)
  verdict from results (e ∷ f ∷ es) p =
      let (before, l, behind, q, i, b, r) = crossing_at from results e (f ∷ es) p in
      let (between, l', rest, q', i', b', r') = crossing_at from behind f es r in
      at_two before between rest l l' e f (q ∙ ap (λ z. before ++ l ∷ z) q') b b'

  module _ (h : IsReady) where
    abbrev Exporter : Label → Type 0
    Exporter l =
        ((is_exported_by jei l ≡ some none) × (owner l ≡ none))
        ⊎ ((info : JavaExportResolveInfo) × (is_exported_by jei l ≡ some (some info))
            × (owner l ≡ some info.label))

    Exporter-of : (l : Label) → Exporter l
    unfolding is_exported_by exported_by owner
    Exporter-of l = elim (Option-cases (owner l)) [
      | inl e ↦ inl (ground (arith, h.ready), e)
      | inr (f, e) ↦
          let (info, found, own) = h.recorded l f e in
          inr (info, ground (arith, h.ready), e ∙ ap some (sym own))
    ]

    abbrev as_list : Option Label → List Label
    as_list none = []
    as_list (some e) = e ∷ []

    covering_lem : (from l : Label) → covering jei from l ≡ some (as_list (boundary from l))
    unfolding covering boundary covered_by_the_same_export same_exporter is_owned_by
    covering_lem from l = elim (Bool-cases (is_java_export jei l)) [
      | inl e ↦ ground arith
      | inr e ↦ elim (Exporter-of from) [
        | inl (a, b) ↦ elim (Exporter-of l) [
          | inl (c, d) ↦ ground arith
          | inr (i, c, d) ↦ ground arith
        ]
        | inr (j, a, b) ↦ elim (Exporter-of l) [
          | inl (c, d) ↦ ground arith
          | inr (i, c, d) ↦ ground arith
        ]
      ]
    ]

    all_covering_lem :
        (from : Label) (ls : List Label) → all_covering jei from ls ≡ some (boundaries from ls)
    unfolding all_covering boundaries
    all_covering_lem from [] = refl
    all_covering_lem from (l ∷ ls) = ground (arith, covering_lem from l, all_covering_lem from ls)

    answers_lem :
        (results : List Label) (from : Label)
        → try_resolving_to_java_export jei results from ≡ narrow results (boundaries from results)
    unfolding try_resolving_to_java_export
    answers_lem results from = rw (all_covering_lem from results, try_resolving_to_java_export)

    -- On an index that is ready, the results stay if none of them lies at the boundary of an export, seen from the rule.
    -- If just one does, the export alone replaces all the results, and if two or more do, be it the boundary of one
    -- export, the run ends.
    pub try_resolving_to_java_export-boundaries :
        (results : List Label) (from : Label)
        → Verdict from results (try_resolving_to_java_export jei results from)
    try_resolving_to_java_export-boundaries results from =
        subst (Verdict from results) (sym (answers_lem results from))
          (verdict from results (boundaries from results) refl)

    -- Two results that one export took over end the run as well, when it did not take the rule over: the
    -- export is counted once for each of them.
    pub try_resolving_to_java_export-one_export_twice :
        (l l' from e : Label)
        → is_java_export jei l ≡ false
        → is_java_export jei l' ≡ false
        → owner l ≡ some e
        → owner l' ≡ some e
        → is_owned_by (owner from) e ≡ false
        → try_resolving_to_java_export jei (l ∷ l' ∷ []) from ≡ none
    unfolding narrow boundaries boundary
    try_resolving_to_java_export-one_export_twice l l' from e n n' o o' out =
        answers_lem (l ∷ l' ∷ []) from ∙ ground arith
