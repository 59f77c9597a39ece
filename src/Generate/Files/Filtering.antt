-- ===== src/Generate/Files/Filtering.antt =====
-- Which imports count (`addFilteringOutOwnPackage` of java/gazelle/generate.go).
use mathlib.Core.List.Memᴰ
use rules_jvm.Prelude.{
  ◌≡◌, ◌≢◌, ◌⊎◌, ◌↔◌, inl, inr, refl, ap, sym, ◌∙◌, ⊎_elim, Bool, true, false, Option, List, [],
  ◌∷◌, Text, text_dec, any, Memᴰ, Memᴰ-cons, not-Memᴰ-nil, arith, Bool-cases, if◌then◌else◌,
}
use rules_jvm.Names.{PackageName, ClassName, package_name_dec, package_name_less}
use rules_jvm.SortedSet.View.{StrictOrder, Ascending, equiv, place, mem-place, place-Ascending}
use rules_jvm.SortedSet.Label.{text_less_order, text_less-equiv}
use rules_jvm.Generate.Files.{same, is_filtered, add_import, add_filtering_out_own_package}

package_name_order : StrictOrder package_name_less
unfolding package_name_less
package_name_order = record {
  irrefl = λ p. text_less_order.irrefl p.name;
  trans = λ p q r. text_less_order.trans p.name q.name r.name;
  divide = λ p q r. text_less_order.divide p.name q.name r.name;
}

package_name_less-equiv : (p q : PackageName) → equiv package_name_less p q ≡ true → p ≡ q
unfolding package_name_less
package_name_less-equiv p q h = ap (λ n. record { name = n }) (text_less-equiv p.name q.name h)

mem-place_package :
    (v p : PackageName) (xs : List PackageName)
    → Ascending package_name_less xs
    → Memᴰ p (place package_name_less v xs) ↔ ((p ≡ v) ⊎ Memᴰ p xs)
mem-place_package v p xs h = elim (Bool-cases (equiv package_name_less p v)) [
  | inl e ↦
      let eq = package_name_less-equiv p v e in
      let all = mem-place package_name_order v xs h p in (λ _. inl eq, λ _. all.1 (inl eq))
  | inr ne ↦
      let all = mem-place package_name_order v xs h p in
      (
        λ m. ⊎_elim inl (λ (old, _). inr old) (all.0 m),
        λ o. all.1 (⊎_elim inl (λ old. inr (old, ne)) o),
      )
]

any-same : (x : Text) (xs : List Text) → (any (same x) xs ≡ true) ↔ Memᴰ x xs
unfolding any
any-same x [] = ground (arith, not-Memᴰ-nil x)
any-same x (y ∷ ys) = ground (arith, any-same x ys, Memᴰ-cons x y ys)

-- A class that an import stands for.
pub Counts : PackageName → List Text → ClassName → Type 0
Counts own locals c =
    (c.package_name.name ≢ []) × ((own ≢ c.package_name) ⊎ ¬ Memᴰ c.bare_outer_class_name locals)

is_filtered-Counts :
    (own : PackageName) (locals : List Text) (c : ClassName)
    → (is_filtered own locals c ≡ false) ↔ Counts own locals c
unfolding is_filtered Counts
is_filtered-Counts own locals c = elim (package_name_dec own c.package_name) [
  | yes p ↦ elim (text_dec c.package_name.name []) [
    | yes e ↦ ground (arith, any-same c.bare_outer_class_name locals)
    | no n ↦ ground (arith, any-same c.bare_outer_class_name locals)
  ]
  | no q ↦ ground arith
]

true_or_false : ¬ (true ≡ false)
true_or_false h = cc

module _ (own : PackageName) (locals : List Text) where
  -- The packages that are added to a set of packages are those of the classes that count: a class of the rule's own package
  -- counts only if the rule does not have it, and one of the default package never does.
  pub add_filtering_out_own_package-packages :
      (cs : List ClassName) (to : List PackageName) (classes : Option (List ClassName))
      → Ascending package_name_less to
      → (p : PackageName)
      → Memᴰ p (add_filtering_out_own_package own locals cs (to, classes)).0
        ↔ (Memᴰ p to ⊎ ((c : ClassName) × Memᴰ c cs × (p ≡ c.package_name) × Counts own locals c))
  unfolding add_filtering_out_own_package add_import
  add_filtering_out_own_package-packages [] to classes h p =
      (inl, λ o. ⊎_elim (λ m. m) (λ (c, m, _, _). absurd (Memᴰ.not-nil m)) o)
  add_filtering_out_own_package-packages (c ∷ cs) to classes h p =
      go (λ to' classes' h'. add_filtering_out_own_package-packages cs to' classes' h' p)
        (is_filtered own locals c) refl
    where
      Later : List ClassName → Type 0
      Later ds = (d : ClassName) × Memᴰ d ds × (p ≡ d.package_name) × Counts own locals d

      go :
          ((to' : List PackageName) (classes' : Option (List ClassName))
            → Ascending package_name_less to'
            → Memᴰ p (add_filtering_out_own_package own locals cs (to', classes')).0
              ↔ (Memᴰ p to' ⊎ Later cs))
          → (b : Bool) → is_filtered own locals c ≡ b
          → Memᴰ p
              (add_filtering_out_own_package own locals cs
                (if b then (to, classes) else add_import c (to, classes))).0
            ↔ (Memᴰ p to ⊎ Later (c ∷ cs))
      go rest true e =
          let ih = rest to classes h in
          (
            λ m. ⊎_elim inl (λ (d, later, eq, k). inr (d, Memᴰ.tail later, eq, k)) (ih.0 m),
            λ o. ih.1 (
                ⊎_elim inl
                  (λ (d, m, eq, k). elim (Memᴰ.cases_cons m) [
                    | inl same_class ↦ absurd (
                        true_or_false (
                          sym e
                          ∙ ap (is_filtered own locals) (sym same_class)
                          ∙ (is_filtered-Counts own locals d).1 k))
                    | inr later ↦ inr (d, later, eq, k)
                  ])
                  o),
          )
      go rest false e =
          let to' = place package_name_less c.package_name to in
          let classes' = (add_import c (to, classes)).1 in
          let ih = rest to' classes' (place-Ascending package_name_order c.package_name to h) in
          let placed = mem-place_package c.package_name p to h in
          (
            λ m. elim (ih.0 m) [
              | inl now ↦
                  ⊎_elim (λ eq. inr (c, Memᴰ.head refl, eq, (is_filtered-Counts own locals c).0 e))
                    inl (placed.0 now)
              | inr (d, later, eq, k) ↦ inr (d, Memᴰ.tail later, eq, k)
            ],
            λ o. ih.1 (elim o [
              | inl old ↦ inl (placed.1 (inr old))
              | inr (d, m, eq, k) ↦ elim (Memᴰ.cases_cons m) [
                | inl same_class ↦
                    inl (placed.1 (inl (eq ∙ ap (λ (x : ClassName). x.package_name) same_class)))
                | inr later ↦ inr (d, later, eq, k)
              ]
            ]),
          )
