-- ===== src/Resolve/Classes/Providers.antt =====
-- What the index of a package's classes holds (`buildPackageClassIndex` of java/gazelle/resolve.go).
use mathlib.Core.List.Memᴰ
use rules_jvm.Prelude.{
  ◌≡◌, ◌⊎◌, ◌↔◌, inl, inr, refl, Bool, true, false, ◌&&◌, Option, none, some, List, [], ◌∷◌, ◌++◌,
  Text, text_dec, lookup, lookup-put, Memᴰ, Memᴰ-cons, Memᴰ-append, not-Memᴰ-nil, any, arith,
  if◌then◌else◌, ⊎_elim, subst, sym, ap, ◌∙◌,
}
use rules_jvm.Names.{PackageName, ClassName, package_name_dec}
use rules_jvm.Labels.{Label, LabelLib}
use rules_jvm.Resolve.Labels.{same_text}
use rules_jvm.Resolve.Package.{Context, import_of}
use rules_jvm.Resolve.Classes.{
  ClassExportInfo, ClassExportCache, PackageClassIndex, same_package, providers, add_provider,
  add_classes_of, cache_key, index_matches, empty_class_index, class_index_of, candidates_of,
}

providers-add_provider :
    (name n : Text) (l : Label) (m : List (Text × List Label))
    → providers n (add_provider name l m)
      ≡ (if same_text name n then providers n m ++ l ∷ [] else providers n m)
unfolding providers add_provider
providers-add_provider name n l m =
    ground (arith, lookup-put text_dec name n (providers name m ++ l ∷ []) m)

-- A class of the package with the outer name.
pub declares : PackageName → Text → List ClassName → Bool
unfolding any
declares pkg name classes =
    any (λ c. same_package c.package_name pkg && same_text c.bare_outer_class_name name) classes

-- The providers of either kind.
pub side : Bool → PackageClassIndex → List (Text × List Label)
side true pci = pci.test
side false pci = pci.prod

mem-add_provider :
    (name n : Text) (l x : Label) (m : List (Text × List Label))
    → Memᴰ x (providers n (add_provider name l m))
      ↔ (Memᴰ x (providers n m) ⊎ ((x ≡ l) × (same_text name n ≡ true)))
mem-add_provider name n l x m = ground (
  arith,
  providers-add_provider name n l m,
  Memᴰ-append x (providers n m) (l ∷ []),
  Memᴰ-cons x l [],
  not-Memᴰ-nil x,
)

abbrev added : Text → Label → Bool → PackageClassIndex → PackageClassIndex
added name l testonly pci =
    if testonly
    then record pci { test = add_provider name l pci.test }
    else record pci { prod = add_provider name l pci.prod }

mem-added :
    (name n : Text) (l x : Label) (kind testonly : Bool) (pci : PackageClassIndex)
    → Memᴰ x (providers n (side kind (added name l testonly pci))) ↔ (
        Memᴰ x (providers n (side kind pci))
        ⊎ ((x ≡ l) × (testonly ≡ kind) × (same_text name n ≡ true)))
unfolding side
mem-added name n l x true true pci = ground (arith, mem-add_provider name n l x pci.test)
mem-added name n l x true false pci = ground arith
mem-added name n l x false true pci = ground arith
mem-added name n l x false false pci = ground (arith, mem-add_provider name n l x pci.prod)

-- A rule that is known to declare the class, as a rule for tests only or not.
pub Provides : LabelLib → ClassExportCache → PackageName → Text → Bool → Label → Type 0
Provides lib exports pkg n kind l =
    (info : ClassExportInfo) × (lookup text_dec (cache_key lib l) exports ≡ some info)
    × (info.testonly ≡ kind)
    × (declares pkg n info.classes ≡ true)

module _ (pkg : PackageName) (n : Text) (x : Label) (kind : Bool) where
  mem-add_classes_of :
      (l : Label) (testonly : Bool) (cs : List ClassName) (pci : PackageClassIndex)
      → Memᴰ x (providers n (side kind (add_classes_of pkg l testonly cs pci))) ↔ (
          Memᴰ x (providers n (side kind pci))
          ⊎ ((x ≡ l) × (testonly ≡ kind) × (declares pkg n cs ≡ true)))
  unfolding add_classes_of declares any
  mem-add_classes_of l testonly [] pci = ground arith
  mem-add_classes_of l testonly (c ∷ cs) pci = elim (package_name_dec c.package_name pkg) [
    | yes p ↦ ground (
      arith,
      mem-add_classes_of l testonly cs (added c.bare_outer_class_name l testonly pci),
      mem-added c.bare_outer_class_name n l x kind testonly pci,
    )
    | no q ↦ ground (arith, mem-add_classes_of l testonly cs pci)
  ]

  module _ (lib : LabelLib) (exports : ClassExportCache) where
    mem_step :
        (l : Label) (pci : PackageClassIndex) (o : Option ClassExportInfo)
        → lookup text_dec (cache_key lib l) exports ≡ o
        → Memᴰ x (
            providers n (
              side kind (elim o [
                | none ↦ pci
                | some info ↦ add_classes_of pkg l info.testonly info.classes pci
              ])))
          ↔ (Memᴰ x (providers n (side kind pci)) ⊎ ((x ≡ l) × Provides lib exports pkg n kind l))
    unfolding Provides
    mem_step l pci none e = (inl, ⊎_elim (λ m. m) (λ (_, (info, f, _, _)). absurd (ground arith)))
    mem_step l pci (some info) e = (
      λ m. elim ((mem-add_classes_of l info.testonly info.classes pci).0 m) [
        | inl old ↦ inl old
        | inr (same, t, d) ↦ inr (same, (info, e, t, d))
      ],
      λ h. (mem-add_classes_of l info.testonly info.classes pci).1 (elim h [
        | inl old ↦ inl old
        | inr (same, (info', f, t, d)) ↦
            let eq : info' ≡ info = cc in
            inr (
              same,
              ap (λ (i : ClassExportInfo). i.testonly) (sym eq) ∙ t,
              ap (λ (i : ClassExportInfo). declares pkg n i.classes) (sym eq) ∙ d,
            )
      ]),
    )

    mem-index_matches :
        (ls : List Label) (pci : PackageClassIndex)
        → Memᴰ x (providers n (side kind (index_matches lib exports pkg ls pci)))
          ↔ (Memᴰ x (providers n (side kind pci)) ⊎ (Memᴰ x ls × Provides lib exports pkg n kind x))
    unfolding index_matches
    mem-index_matches [] pci = ground (arith, not-Memᴰ-nil x)
    mem-index_matches (l ∷ ls) pci =
        let o = lookup text_dec (cache_key lib l) exports in
        let pci' : PackageClassIndex = elim o [
          | none ↦ pci
          | some info ↦ add_classes_of pkg l info.testonly info.classes pci
        ] in
        let ih = mem-index_matches ls pci' in
        let head = mem_step l pci o refl in
        (
          λ m. elim (ih.0 m) [
            | inl old ↦ elim (head.0 old) [
              | inl older ↦ inl older
              | inr (same, p) ↦
                  inr (Memᴰ.head same, subst (Provides lib exports pkg n kind) (sym same) p)
            ]
            | inr (later, p) ↦ inr (Memᴰ.tail later, p)
          ],
          λ h. ih.1 (elim h [
            | inl old ↦ inl (head.1 (inl old))
            | inr (m, p) ↦ elim (Memᴰ.cases_cons m) [
              | inl same ↦ inl (head.1 (inr (same, subst (Provides lib exports pkg n kind) same p)))
              | inr later ↦ inr (later, p)
            ]
          ]),
        )

nothing_held :
    (lib : LabelLib) (n : Text) (l : Label) (kind : Bool)
    → ¬ Memᴰ l (providers n (side kind (empty_class_index lib)))
unfolding side providers lookup
nothing_held lib n l true = not-Memᴰ-nil l
nothing_held lib n l false = not-Memᴰ-nil l

-- A label is a candidate for a class exactly when it is a rule for production or for tests only that provides
-- the package and is known to declare a class of that outer name, with one for tests only counting for a test alone.
pub mem-candidates_of :
    (lib : LabelLib) (ctx : Context) (exports : ClassExportCache) (pkg : PackageName) (n : Text)
    (is_test : Bool) (l : Label)
    → Memᴰ l (candidates_of lib is_test n (class_index_of lib ctx exports pkg)) ↔ (
        Memᴰ l (
          ctx.gazelle.rules_by_import (import_of pkg false false)
          ++ ctx.gazelle.rules_by_import (import_of pkg true false))
        × (Provides lib exports pkg n false l
            ⊎ ((is_test ≡ true) × Provides lib exports pkg n true l)))
unfolding candidates_of class_index_of side
mem-candidates_of lib ctx exports pkg n is_test l =
    elim is_test
      as (λ is_test. Memᴰ l (candidates_of lib is_test n (class_index_of lib ctx exports pkg)) ↔ (
        Memᴰ l matches
        × (Provides lib exports pkg n false l
            ⊎ ((is_test ≡ true) × Provides lib exports pkg n true l)))) [
              | false ↦ (
                λ m. let (within, p) = (held false).0 m in (within, inl p),
                λ (within, o). (held false).1 (within, ⊎_elim (λ p. p) (λ (t, _). cc) o),
              )
              | true ↦
                  let both = Memᴰ-append l (providers n index.prod) (providers n index.test) in
                  (
                    λ m.
                        ⊎_elim (λ h. let (within, p) = (held false).0 h in (within, inl p))
                          (λ h. let (within, p) = (held true).0 h in (within, inr (refl, p)))
                          (both.0 m),
                    λ (within, o). both.1 (
                        ⊎_elim (λ p. inl ((held false).1 (within, p)))
                          (λ (_, p). inr ((held true).1 (within, p))) o),
                  )
            ]
  where
    matches : List Label
    matches =
        ctx.gazelle.rules_by_import (import_of pkg false false)
        ++ ctx.gazelle.rules_by_import (import_of pkg true false)

    index : PackageClassIndex
    index = class_index_of lib ctx exports pkg

    held :
        (kind : Bool)
        → Memᴰ l (providers n (side kind index))
          ↔ (Memᴰ l matches × Provides lib exports pkg n kind l)
    held kind =
        let all = mem-index_matches pkg n l kind lib exports matches (empty_class_index lib) in
        (
          λ m. ⊎_elim (λ none_yet. absurd (nothing_held lib n l kind none_yet)) (λ h. h) (all.0 m),
          λ h. all.1 (inr h),
        )
